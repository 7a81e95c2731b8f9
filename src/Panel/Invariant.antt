-- ===== src/Panel/Invariant.antt =====
-- The invariant of the state machine: what holds between any two events.
use truenas_asustor_chassisd.Base.{
  if-cases, ℕ, ◌<◌, ◌≡◌, refl, sym, ◌∙◌, ◌⊎◌, inl, inr, Bool, true, false, not, ◌||◌, Option, none,
  some, List, [], ◌∷◌, length, leb, ◌==◌, if◌then◌else◌, arith, Bool-cases, Option-cases, Text,
}
use mathlib.Core.Path.{subst}
use truenas_asustor_chassisd.Alarm.{is_given, Level, critical, always_visible, rank, Look}
use truenas_asustor_chassisd.Panel.{
  Override, Mode, status, action_menu, confirm, countdown, is_status, StatusScreen, World, AppState,
}
use truenas_asustor_chassisd.Panel.Leds.{
  contains_key, keys, expired, wanted_bay, same_bay, sync_leds_to_override, gathered, take_screens,
  refresh_leds, refresh_stale, wake, start_locate, end_bay_locate, end_bay_locates,
  end_chassis_locate, stop_locate, expire_locates, chassis_due,
}
use truenas_asustor_chassisd.Panel.Flow.{
  outranked, install_override, show_override, apply_pending_override, to_status, SocketCommand,
  show_cmd, clear_cmd, locate_cmd, locate_off_cmd, status_request, new_override, over_bay,
  hold_override, apply_socket_command,
}

-- The fields that the invariant is about.
pub record Core : Type 0 where
  pub sleeping : Bool
  pub mode : Mode
  pub over : Option Override
  pub pending_over : Option Override
  pub alert_bay : Option ℕ
  pub screens : List StatusScreen
  pub index : ℕ

unfoldable pub core : AppState → Core
core s = record {
  sleeping = s.sleeping;
  mode = s.mode;
  over = s.over;
  pending_over = s.pending_over;
  alert_bay = s.alert_bay;
  screens = s.screens;
  index = s.index;
}

-- Asleep, the panel is in no menu and shows no message.
abbrev pub AsleepOk : Bool → Mode → Option Override → Type 0
AsleepOk true mode over = (is_status mode ≡ true) × (over ≡ none)
AsleepOk false mode over = Unit

-- A message is held back only while a menu is open, whose selection is one of its options.
abbrev pub ModeOk : Mode → Option Override → Type 0
ModeOk status pending = pending ≡ none
ModeOk (action_menu options selection) pending = selection < length options
ModeOk (confirm a deadline) pending = Unit
ModeOk (countdown a deadline why) pending = Unit

-- An error or critical message does not expire.
abbrev pub Lasts : Option Override → Type 0
Lasts none = Unit
Lasts (some ov) = (always_visible ov.level ≡ false) ⊎ (ov.expires_at ≡ none)

abbrev pub IndexOk : ℕ → List StatusScreen → Type 0
IndexOk i [] = i ≡ 0
IndexOk i (x ∷ xs) = i < length (x ∷ xs)

-- And the bay that flashes is the one of the error or critical message that shows.
abbrev pub CoreOk : Core → Type 0
CoreOk c =
    AsleepOk c.sleeping c.mode c.over
    × ModeOk c.mode c.pending_over
    × (c.alert_bay ≡ wanted_bay c.over)
    × Lasts c.over
    × Lasts c.pending_over
    × IndexOk c.index c.screens

unfoldable pub IsWellFormed : AppState → Type 0
unfolding core
IsWellFormed s = CoreOk (core s)

pub asleep_none : (b : Bool) (m : Mode) (o : Option Override) → AsleepOk b m o → AsleepOk b m none
asleep_none true m o (rest, quiet) = (rest, refl)
asleep_none false m o h = tt

asleep_status : (b : Bool) (m : Mode) (o : Option Override) → AsleepOk b m o → AsleepOk b status o
unfolding is_status
asleep_status true m o (rest, quiet) = (refl, quiet)
asleep_status false m o h = tt

-- A refresh: the index ends on a screen, and only LEDs change besides.
gathered-IndexOk :
    (i : ℕ) (xs : List StatusScreen)
    → IndexOk (if leb (length (gathered xs)) i then 0 else i) (gathered xs)
gathered-IndexOk i [] = ground arith
gathered-IndexOk i (x ∷ xs) = ground arith

pub core-refresh_leds :
    (due new : Bool) (s : AppState) (w : World) → core (refresh_leds due new s w) ≡ core s
unfolding IsWellFormed core refresh_leds
core-refresh_leds true new s w = refl
core-refresh_leds false true s w = refl
core-refresh_leds false false s w = refl

refresh-IsWellFormed :
    (due new : Bool) (s : AppState) (w : World)
    → IsWellFormed s
    → IsWellFormed (refresh_leds due new (take_screens s w) w)
unfolding IsWellFormed core
refresh-IsWellFormed due new s w (h0, h1, h2, h3, h4, h5) =
    subst CoreOk (sym (core-refresh_leds due new (take_screens s w) w))
      (h0, h1, h2, h3, h4, gathered-IndexOk s.index w.fetched)

pub wake-IsWellFormed : (s : AppState) (w : World) → IsWellFormed s → IsWellFormed (wake s w)
unfolding IsWellFormed wake core
wake-IsWellFormed s w (h0, h1, h2, h3, h4, h5) =
    (tt, h1, h2, h3, h4, gathered-IndexOk s.index w.fetched)

pub refresh_stale-IsWellFormed :
    (s : AppState) (w : World) → IsWellFormed s → IsWellFormed (refresh_stale s w)
unfolding refresh_stale
refresh_stale-IsWellFormed s w ok = refresh-IsWellFormed w.disks_due w.inputs_new s w ok

-- Messages.
install-IsWellFormed :
    (s : AppState) (w : World) (ov : Override) (b : Bool)
    → s.sleeping ≡ false
    → Lasts (some ov)
    → IsWellFormed s
    → IsWellFormed (install_override s w ov b)
unfolding IsWellFormed install_override core
install-IsWellFormed s w ov b awake lasts (h0, h1, h2, h3, h4, h5) =
    (subst (λ a. AsleepOk a s.mode (some ov)) (sym awake) tt, h1, refl, lasts, h4, h5)

awake-wake : (s : AppState) (w : World) → (wake s w).sleeping ≡ false
unfolding wake
awake-wake s w = refl

pub show_override-IsWellFormed :
    (s : AppState) (w : World) (ov : Override)
    → Lasts (some ov)
    → IsWellFormed s
    → IsWellFormed (show_override s w ov)
unfolding show_override
show_override-IsWellFormed s w ov lasts ok =
    if-cases IsWellFormed (outranked s.over ov) (λ low. ok)
      (λ high.
        if-cases IsWellFormed s.sleeping
          (λ asleep.
            if-cases IsWellFormed (not (always_visible ov.level)) (λ routine. ok)
              (λ urgent.
                install-IsWellFormed (wake s w) w ov (rank ov.level == rank critical)
                  (awake-wake s w) lasts (wake-IsWellFormed s w ok)))
          (λ awake. install-IsWellFormed s w ov true awake lasts ok))

-- Leaving a menu: the held message, if there is one, is shown, and none is held any more.
pub to_status-IsWellFormed :
    (s : AppState) (w : World) → IsWellFormed s → IsWellFormed (to_status s w)
unfolding IsWellFormed to_status apply_pending_override core
to_status-IsWellFormed s w (h0, h1, h2, h3, h4, h5) = go s.pending_over h4 refl
  where
    left : AppState
    left = record s { mode = status }

    go :
        (p : Option Override)
        → Lasts p
        → s.pending_over ≡ p
        → IsWellFormed (elim p [
          | none ↦ left
          | some ov ↦ show_override (record left { pending_over = none }) w ov
        ])
    go none lasts e = (asleep_status s.sleeping s.mode s.over h0, e, h2, h3, h4, h5)
    go (some ov) lasts e =
        show_override-IsWellFormed (record left { pending_over = none }) w ov lasts
          (asleep_status s.sleeping s.mode s.over h0, refl, h2, h3, tt, h5)

new_override-Lasts :
    (w : World) (level : Level) (ttl : ℕ) (look : Look) (bay : Option ℕ) (l0 l1 : Text)
    → Lasts (some (new_override w level ttl look bay l0 l1))
unfolding new_override
new_override-Lasts w level ttl look bay l0 l1 = elim (Bool-cases (always_visible level)) [
  | inl urgent ↦ inr (rw urgent refl)
  | inr routine ↦ inl routine
]

ModeOk-held : (m : Mode) (p q : Option Override) → is_status m ≡ false → ModeOk m p → ModeOk m q
unfolding is_status
ModeOk-held status p q e h = cc
ModeOk-held (action_menu options selection) p q e h = h
ModeOk-held (confirm a deadline) p q e h = tt
ModeOk-held (countdown a deadline why) p q e h = tt

hold_override-IsWellFormed :
    (s : AppState) (ov : Override)
    → is_status s.mode ≡ false
    → Lasts (some ov)
    → IsWellFormed s
    → IsWellFormed (hold_override s ov)
unfolding IsWellFormed hold_override core
hold_override-IsWellFormed s ov busy lasts (h0, h1, h2, h3, h4, h5) =
    if-cases IsWellFormed (outranked s.pending_over ov) (λ low. (h0, h1, h2, h3, h4, h5))
      (λ high. (h0, ModeOk-held s.mode s.pending_over (some ov) busy h1, h2, h3, lasts, h5))

-- The locates touch LEDs alone.
core-end_bay_locate : (s : AppState) (w : World) (b : ℕ) → core (end_bay_locate s w b) ≡ core s
unfolding IsWellFormed end_bay_locate core
core-end_bay_locate s w b =
    if-cases (λ t. core t ≡ core s) (contains_key b s.locate_bays) (λ e. refl) (λ e. refl)

core-end_bay_locates :
    (bs : List ℕ) (s : AppState) (w : World) → core (end_bay_locates s w bs) ≡ core s
unfolding end_bay_locates
core-end_bay_locates [] s w = refl
core-end_bay_locates (b ∷ bs) s w =
    core-end_bay_locates bs (end_bay_locate s w b) w ∙ core-end_bay_locate s w b

core-end_chassis_locate : (s : AppState) (w : World) → core (end_chassis_locate s w) ≡ core s
unfolding IsWellFormed end_chassis_locate core
core-end_chassis_locate s w = elim (Option-cases s.locate_chassis) [
  | inl gone ↦ rw gone refl
  | inr (c, here) ↦ rw here refl
]

pub core-stop_locate :
    (bay : Option ℕ) (s : AppState) (w : World) → core (stop_locate s w bay) ≡ core s
unfolding stop_locate
core-stop_locate (some b) s w = core-end_bay_locate s w b
core-stop_locate none s w =
    core-end_chassis_locate (end_bay_locates s w (keys s.locate_bays)) w
    ∙ core-end_bay_locates (keys s.locate_bays) s w

pub core-start_locate :
    (bay : Option ℕ) (ttl : ℕ) (s : AppState) (w : World) → core (start_locate s w bay ttl) ≡ core s
unfolding IsWellFormed start_locate core
core-start_locate (some b) ttl s w = refl
core-start_locate none ttl s w = refl

pub core-expire_locates : (s : AppState) (w : World) → core (expire_locates s w) ≡ core s
unfolding expire_locates
core-expire_locates s w =
    let bays = core-end_bay_locates (expired w s.locate_bays) s w in
    let ended = end_bay_locates s w (expired w s.locate_bays) in
    if-cases (λ t. core t ≡ core s) (chassis_due w ended.locate_chassis)
      (λ due. core-end_chassis_locate ended w ∙ bays) (λ stays. bays)

pub command-IsWellFormed :
    (cmd : SocketCommand) (s : AppState) (w : World)
    → IsWellFormed s
    → IsWellFormed (apply_socket_command s w cmd)
unfolding IsWellFormed apply_socket_command core sync_leds_to_override
command-IsWellFormed (show_cmd level ttl look bay l0 l1) s w ok =
    let lasts = new_override-Lasts w level ttl look bay l0 l1 in
    let ov = new_override w level ttl look bay l0 l1 in
    if-cases IsWellFormed (is_status s.mode) (λ rest. show_override-IsWellFormed s w ov lasts ok)
      (λ busy. hold_override-IsWellFormed s ov busy lasts ok)
command-IsWellFormed (clear_cmd bay) s w (h0, h1, h2, h3, h4, h5) =
    if-cases IsWellFormed (not (is_given bay) || same_bay bay (over_bay s.over))
      (λ all. (asleep_none s.sleeping s.mode s.over h0, h1, refl, tt, h4, h5))
      (λ other. (h0, h1, h2, h3, h4, h5))
command-IsWellFormed (locate_cmd bay ttl) s w ok =
    subst CoreOk (sym (core-start_locate bay ttl s w)) ok
command-IsWellFormed (locate_off_cmd bay) s w ok = subst CoreOk (sym (core-stop_locate bay s w)) ok
command-IsWellFormed status_request s w ok = ok
