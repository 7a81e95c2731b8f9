-- ===== src/Panel/Screen.antt =====
-- src/state.rs, what the LCD shows: `render`, `scroll_step`, `is_scrolling`, `countdown_text`.
use truenas_asustor_chassisd.Base.{
  ℕ, zero, suc, ◌+◌, ◌-◌, ◌*◌, ◌/◌, ◌%◌, Bool, true, false, not, ◌&&◌, ◌||◌, Option, none, some,
  List, [], ◌∷◌, ◌++◌, ltb, leb, ◌==◌, if◌then◌else◌, Text, codes, decimal, length, take, get_elem?,
  get_or,
}
use truenas_asustor_chassisd.Alarm.{critical, rank, Alarm, is_given}
use truenas_asustor_chassisd.Panel.{
  nanos_per_sec, nanos_per_ms, Action, label, Override, ChassisLocate, Mode, status, action_menu,
  confirm, countdown, Scroll, StatusScreen, Settings, World, AppState, Effect, render_lines,
  nothing,
}

-- Seconds, rounded up.
abbrev pub secs_up : ℕ → ℕ
secs_up nanos = nanos / nanos_per_sec + (if ltb 0 (nanos % nanos_per_sec) then 1 else 0)

unfoldable pub secs_left : World → ℕ → ℕ
secs_left w t = secs_up (t - w.now)

abbrev pub div_ceil : ℕ → ℕ → ℕ
div_ceil a b = a / b + (if ltb 0 (a % b) then 1 else 0)

-- `{:02}`.
abbrev pub two_digits : ℕ → Text
two_digits n = if ltb n 10 then b'0' ∷ decimal n else decimal n

unfoldable pub countdown_text : ℕ → Text
countdown_text left =
    let secs = secs_up left in
    if leb 600 secs
    then decimal (div_ceil secs 60) ++ codes "m"
    else decimal (secs / 60) ++ b':' ∷ two_digits (secs % 60)

-- `ChassisLocate::screen`.
unfoldable pub locate_screen : ChassisLocate → World → Text × Text
unfolding secs_left
locate_screen c w = (
  elim c.hostname [ [] ↦ codes "LOCATE" | h ∷ hs ↦ h ∷ hs ],
  elim c.until [
    | none ↦ codes "LOCATE"
    | some t ↦ codes "LOCATE " ++ decimal (secs_left w t) ++ codes "s"
  ],
)

-- `lcd_alarm`: by hand, one may page away from any alarm but a critical one.
unfoldable pub lcd_alarm : AppState → Option Alarm
lcd_alarm s = elim s.alarm [
  | none ↦ none
  | some a ↦ if s.auto_rotate || (rank a.level == rank critical) then some a else none
]

abbrev pub screen_lines : Option StatusScreen → Text × Text
screen_lines none = ([], [])
screen_lines (some x) = (x.line0, x.line1)

abbrev pub over_lines : Option Alarm → Option Override → Text × Text → Text × Text
over_lines none (some ov) rest = (ov.line0, ov.line1)
over_lines none none rest = rest
over_lines (some a) over rest = rest

-- The arm `Mode::Status` of `render`.
unfoldable pub status_lines : AppState → World → Text × Text
unfolding locate_screen lcd_alarm
status_lines s w =
    let rotating = screen_lines (get_elem? s.screens s.index) in
    elim s.locate_chassis [
      | some c ↦ locate_screen c w
      | none ↦ elim (lcd_alarm s) [
        | some a ↦ (a.line0, a.line1)
        | none ↦ over_lines s.alarm s.over rotating
      ]
    ]

unfoldable pub label_at : List Action → ℕ → Text
unfolding label
label_at [] i = []
label_at (a ∷ more) zero = label a
label_at (a ∷ more) (suc i) = label_at more i

unfoldable pub raw_lines : AppState → World → Mode → Text × Text
unfolding status_lines label_at label countdown_text
raw_lines s w status = status_lines s w
raw_lines s w (action_menu options selection) =
    (codes ">" ++ label_at options selection, codes "UP/DN ENTER BACK")
raw_lines s w (confirm a deadline) =
    (codes "CONFIRM " ++ label a ++ codes "?", codes "ENTER=yes BACK=no")
raw_lines s w (countdown a deadline why) =
    (label a ++ codes " IN " ++ countdown_text (deadline - w.now), codes "ANY KEY: CANCEL")

-- `scroll.text != text`.
abbrev pub same_text : Text → Text → Bool
same_text [] [] = true
same_text (a ∷ xs) (b ∷ ys) = (a == b) && same_text xs ys
same_text _ _ = false

abbrev pub begin_scroll : World → Scroll → Text → Scroll
begin_scroll w sc text = if same_text sc.text text then sc else record {
  text = text;
  offset = 0;
  last_step = some w.now;
  started = some w.now;
  completed_a_pass = false;
}

-- Whether less than `ms` have passed since.
abbrev pub within_ms : World → Option ℕ → ℕ → Bool
within_ms w none ms = false
within_ms w (some t) ms = ltb (w.now - t) (ms * nanos_per_ms)

abbrev pub step_due : Settings → World → Option ℕ → Bool
step_due cfg w none = false
step_due cfg w (some t) = leb (cfg.scroll_step_ms * nanos_per_ms) (w.now - t)

-- One step of the cursor, with a gap of spaces between the end and the restart.
unfoldable pub advance_scroll : Settings → World → Scroll → Scroll
advance_scroll cfg w sc =
    if ltb (length sc.text + cfg.scroll_gap) (sc.offset + 1)
    then record sc {
      offset = 0;
      last_step = some w.now;
      started = some w.now;
      completed_a_pass = true;
    }
    else record sc { offset = sc.offset + 1; last_step = some w.now }

-- The loop that fills the window: `n` characters are left, from position `pos` on.
abbrev pub window : Text → ℕ → ℕ → ℕ → Text
window chars padded_len zero pos = []
window chars padded_len (suc n) pos =
    get_or chars (pos % padded_len) b' ' ∷ window chars padded_len n (pos + 1)

-- Whether the cursor moves now.
abbrev pub moves : Settings → World → Scroll → Bool
moves cfg w sc = not (within_ms w sc.started cfg.scroll_pause_ms) && step_due cfg w sc.last_step

unfoldable pub scrolled : Settings → World → Scroll → Scroll
unfolding advance_scroll
scrolled cfg w sc = if moves cfg w sc then advance_scroll cfg w sc else sc

abbrev pub shown_window : Settings → Scroll → Text
shown_window cfg sc = window sc.text (length sc.text + cfg.scroll_gap) 16 sc.offset

unfoldable pub scroll_step : Settings → World → Scroll → Text → Scroll × Text
unfolding scrolled
scroll_step cfg w sc text =
    let sc' = begin_scroll w sc text in
    if leb (length sc'.text) 16
    then (sc', sc'.text)
    else (scrolled cfg w sc', shown_window cfg (scrolled cfg w sc'))

abbrev pub pending : Scroll → Bool
pending sc = ltb 16 (length sc.text) && not sc.completed_a_pass

unfoldable pub is_scrolling : AppState → Bool
is_scrolling s = pending s.scroll0 || pending s.scroll1

-- Both lines, cut to the longest that scrolls, and the two cursors.
unfoldable pub render_raw : AppState → World → Text × Text → AppState × Effect
unfolding scroll_step
render_raw s w raw =
    let step0 = scroll_step s.cfg w s.scroll0 (take s.cfg.scroll_max_chars raw.0) in
    let step1 = scroll_step s.cfg w s.scroll1 (take s.cfg.scroll_max_chars raw.1) in
    (record s { scroll0 = step0.0; scroll1 = step1.0 }, render_lines step0.1 step1.1)

unfoldable pub render : AppState → World → AppState × Effect
unfolding render_raw raw_lines
render s w =
    if s.sleeping && not (is_given s.locate_chassis)
    then (s, nothing)
    else render_raw s w (raw_lines s w s.mode)
