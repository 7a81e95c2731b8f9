-- ===== src/Power.antt =====
-- src/power.rs: scheduled power on, shutdown and restart. The weekly rules, the minutes at which they
-- fire, and the scheduler, which fires them and keeps the RTC's wake alarm set. The local time of an
-- instant is libc's, an argument. Epoch seconds are numbers: `now_epoch` never returns a negative one.
pub mod Rules
mod Linting
mod Days
mod Validity
mod Due
mod Boundaries
mod Firing
mod Repeating
mod Waking
mod Tests
use Prim.Native.Nat.{bit_and}
use Prim.Native.String.{String}
use truenas_asustor_chassisd.Base.{
  ℕ, zero, suc, ◌+◌, ◌-◌, ◌*◌, ◌/◌, ◌%◌, ◌^◌, Bool, true, false, not, ◌&&◌, ◌||◌, Option, none,
  some, List, [], ◌∷◌, ltb, leb, ◌==◌, if◌then◌else◌, Text, ℤ, pos, pos_part, ◌-ℤ◌,
}
use truenas_asustor_chassisd.Panel.{Action, shutdown as panel_shutdown, restart as panel_restart}

abbrev pub max_gap_secs : ℕ
max_gap_secs = 300

abbrev pub rtc_recheck_secs : ℕ
rtc_recheck_secs = 60

abbrev pub lookahead_minutes : ℕ
lookahead_minutes = 8 * 24 * 60

pub data PowerAction : Type 0 where
  power_on shutdown restart : PowerAction

unfoldable pub menu_action : PowerAction → Option Action
menu_action power_on = none
menu_action shutdown = some panel_shutdown
menu_action restart = some panel_restart

pub record Rule : Type 0 where
  pub days : ℕ
  pub minute_of_day : ℕ
  pub action : PowerAction
  pub countdown_secs : ℕ
  pub label : Text

pub record LocalTime : Type 0 where
  pub year : ℕ
  pub month : ℕ
  pub day : ℕ
  pub weekday : ℕ
  pub hour : ℕ
  pub minute : ℕ
  pub utc_offset : ℤ

abbrev pub has_day : ℕ → ℕ → Bool
has_day days d = not (bit_and days (2 ^ d) == 0)

unfoldable pub matches : Rule → LocalTime → Bool
matches r t = has_day r.days t.weekday && (t.hour * 60 + t.minute == r.minute_of_day)

-- `a.wall() == b.wall()`.
unfoldable pub same_wall : LocalTime → LocalTime → Bool
same_wall a b =
    (a.year == b.year)
    && ((a.month == b.month)
        && ((a.day == b.day) && ((a.hour == b.hour) && (a.minute == b.minute))))

unfoldable pub is_power_on : Rule → Bool
is_power_on r = elim r.action [ power_on ↦ true | shutdown ↦ false | restart ↦ false ]

unfoldable pub is_power_off : Rule → Bool
is_power_off r = elim r.action [ power_on ↦ false | shutdown ↦ true | restart ↦ true ]

unfoldable pub is_shutdown : Rule → Bool
is_shutdown r = elim r.action [ power_on ↦ false | shutdown ↦ true | restart ↦ false ]

-- The seconds by which the clock went back, if it did.
abbrev pub fall_back : LocalTime → LocalTime → ℕ
fall_back before at = pos_part (before.utc_offset -ℤ at.utc_offset)

unfoldable pub is_repeated_wall_time : ℕ → (ℤ → LocalTime) → Bool
unfolding same_wall
is_repeated_wall_time m local =
    let at = local (pos m) in
    let shift = fall_back (local (pos m -ℤ pos (4 * 3600))) at in
    ltb 0 shift && same_wall (local (pos m -ℤ pos shift)) at

-- `(first..=until).step_by(60)`: `n` of them are left.
abbrev pub steps : ℕ → ℕ → List ℕ
steps zero m = []
steps (suc n) m = m ∷ steps n (m + 60)

abbrev pub first_boundary : ℕ → ℕ
first_boundary after = after / 60 * 60 + 60

abbrev pub steps_until : ℕ → ℕ → ℕ
steps_until first until = if leb first until then (until - first) / 60 + 1 else 0

unfoldable pub minute_boundaries : ℕ → ℕ → List ℕ
minute_boundaries after until =
    steps (steps_until (first_boundary after) until) (first_boundary after)

unfoldable pub matching : (Rule → Bool) → LocalTime → List Rule → List Rule
unfolding matches
matching filter t [] = []
matching filter t (r ∷ rules) =
    let rest = matching filter t rules in if filter r && matches r t then r ∷ rest else rest

unfoldable pub due_at : List Rule → ℕ → (ℤ → LocalTime) → (Rule → Bool) → List Rule
unfolding is_repeated_wall_time matching
due_at rules m local filter =
    if is_repeated_wall_time m local then [] else matching filter (local (pos m)) rules

-- `max_by_key`, which returns the last of several maxima.
unfoldable pub better : Rule → Rule → Rule
unfolding is_shutdown
better a b = if is_shutdown a && not (is_shutdown b) then a else b

unfoldable pub best_from : Rule → List Rule → Rule
unfolding better
best_from a [] = a
best_from a (b ∷ rules) = best_from (better a b) rules

unfoldable pub best : List Rule → Option Rule
unfolding best_from
best [] = none
best (r ∷ rules) = some (best_from r rules)

abbrev pub any_rule : (Rule → Bool) → List Rule → Bool
any_rule filter [] = false
any_rule filter (r ∷ rules) = filter r || any_rule filter rules

-- `find_map` over the boundaries.
unfoldable pub find_due : List Rule → (ℤ → LocalTime) → (Rule → Bool) → List ℕ → Option (ℕ × Rule)
unfolding best due_at
find_due rules local filter [] = none
find_due rules local filter (m ∷ ms) = elim (best (due_at rules m local filter)) [
  | some r ↦ some (m, r)
  | none ↦ find_due rules local filter ms
]

unfoldable pub next_occurrence : List Rule → ℕ → (ℤ → LocalTime) → (Rule → Bool) → Option (ℕ × Rule)
unfolding find_due minute_boundaries
next_occurrence rules after local filter =
    if any_rule filter rules
    then find_due rules local filter (minute_boundaries after (after + lookahead_minutes * 60))
    else none

pub record Fired : Type 0 where
  pub action : Action
  pub countdown_secs : ℕ
  pub label : Text

-- The wake alarm's file is there if the scheduler manages it. `next_rtc_check` starts at 0, which is no
-- later than any time, as the source's `i64::MIN`.
pub record Scheduler : Type 0 where
  pub rules : List Rule
  pub rtc : Bool
  pub checked_until : Option ℕ
  pub armed : Option ℕ
  pub next_rtc_check : ℕ
  pub rtc_error : Option String

unfoldable pub with_rtc : List Rule → Scheduler
unfolding is_power_on
with_rtc rules = record {
  rules = rules;
  rtc = any_rule is_power_on rules;
  checked_until = none;
  armed = none;
  next_rtc_check = 0;
  rtc_error = none;
}

-- What the alarm's file answers: its contents or an error, then whether each write goes through.
pub data RtcRead : Type 0 where
  rtc_reads : Option ℕ → RtcRead
  rtc_unreadable : String → RtcRead

pub record RtcWorld : Type 0 where
  pub contents : RtcRead
  pub disarm_error : Option String
  pub arm_error : Option String

abbrev pub same_time : Option ℕ → Option ℕ → Bool
same_time none none = true
same_time (some a) (some b) = a == b
same_time _ _ = false

-- The writes that went through (`none` is "0"), and the error that stopped them.
abbrev pub arm_rtc : RtcWorld → Option ℕ → List (Option ℕ) × Option String
arm_rtc w none = (none ∷ [], none)
arm_rtc w (some t) = elim w.arm_error [
  | none ↦ (none ∷ some t ∷ [], none)
  | some e ↦ (none ∷ [], some e)
]

abbrev pub set_rtc : RtcWorld → Option ℕ → List (Option ℕ) × Option String
set_rtc w want = elim w.disarm_error [ none ↦ arm_rtc w want | some e ↦ ([], some e) ]

unfoldable pub write_rtc : RtcWorld → Option ℕ → List (Option ℕ) × Option String
write_rtc w want = elim w.contents [
  | rtc_unreadable e ↦ ([], some e)
  | rtc_reads at ↦ if same_time at want then ([], none) else set_rtc w want
]

abbrev pub time_of : Option (ℕ × Rule) → Option ℕ
time_of none = none
time_of (some (t, r)) = some t

unfoldable pub next_power_on : List Rule → (ℤ → LocalTime) → ℕ → Option ℕ
unfolding next_occurrence is_power_on
next_power_on rules local now = time_of (next_occurrence rules now local is_power_on)

unfoldable pub sync_rtc : Scheduler → ℕ → (ℤ → LocalTime) → RtcWorld → Scheduler × List (Option ℕ)
unfolding next_power_on write_rtc
sync_rtc s now local w =
    if s.rtc
    then (let want = next_power_on s.rules local now in
        let (writes, error) = write_rtc w want in
        (
          record s {
            next_rtc_check = now + rtc_recheck_secs;
            armed = elim error [ none ↦ want | some e ↦ none ];
            rtc_error = error;
          },
          writes,
        ))
    else (s, [])

-- `filter_map(..).last()` over the boundaries.
unfoldable pub last_due : List Rule → (ℤ → LocalTime) → (Rule → Bool) → List ℕ → Option Rule
unfolding best due_at
last_due rules local filter [] = none
last_due rules local filter (m ∷ ms) = elim (last_due rules local filter ms) [
  | some r ↦ some r
  | none ↦ best (due_at rules m local filter)
]

unfoldable pub fire : Option Rule → Option Fired
unfolding menu_action
fire none = none
fire (some r) = elim (menu_action r.action) [
  | none ↦ none
  | some a ↦ some (record { action = a; countdown_secs = r.countdown_secs; label = r.label })
]

abbrev pub abs_diff : ℕ → ℕ → ℕ
abs_diff a b = (a - b) + (b - a)

-- The `match` on `checked_until`: the new state, and what fires.
unfoldable pub poll_clock : Scheduler → ℕ → (ℤ → LocalTime) → Scheduler × Option Fired
unfolding fire last_due is_power_off minute_boundaries
poll_clock s now local = elim s.checked_until [
  | none ↦ (record s { checked_until = some now; next_rtc_check = 0 }, none)
  | some prev ↦
      if ltb max_gap_secs (abs_diff now prev)
      then (record s { checked_until = some now; next_rtc_check = 0 }, none)
      else if leb now prev
      then (s, none)
      else (
        record s { checked_until = some now },
        fire (last_due s.rules local is_power_off (minute_boundaries prev now)),
      )
]

abbrev pub has_passed : Option ℕ → ℕ → Bool
has_passed none now = false
has_passed (some t) now = leb t now

-- The writes to the alarm come last.
unfoldable pub poll :
    Scheduler → ℕ → (ℤ → LocalTime) → RtcWorld → Scheduler × Option Fired × List (Option ℕ)
unfolding poll_clock sync_rtc
poll s now local w =
    let (polled, fired) = poll_clock s now local in
    if polled.rtc && (leb polled.next_rtc_check now || has_passed polled.armed now)
    then (let (synced, writes) = sync_rtc polled now local w in (synced, fired, writes))
    else (polled, fired, [])
