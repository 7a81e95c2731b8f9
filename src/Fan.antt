-- ===== src/Fan.antt =====
-- src/fan.rs: a fan's controller. What it makes of its sensors' samples and of the tachometer, what it
-- writes to the fan, and how it reports a fan that it cannot drive.
pub mod Sensing
pub mod Stalling
pub mod Driving
mod Tests
use Prim.Native.String.{String}
use truenas_asustor_chassisd.Base.{
  ℕ, ◌+◌, ◌-◌, ◌*◌, max, min, Bool, true, false, not, ◌&&◌, ◌||◌, Option, none, some, List, [], ◌∷◌,
  ltb, leb, ◌==◌, if◌then◌else◌,
}
use truenas_asustor_chassisd.Alarm.{Level, info, warn, critical}
use truenas_asustor_chassisd.Float.{F32}
use truenas_asustor_chassisd.CpuPower.{TemperatureConfig, resolve_temp_threshold}

abbrev pub nanos_per_sec : ℕ
nanos_per_sec = 1_000_000_000

pub record Timing : Type 0 where
  pub sensor_loss_grace : ℕ
  pub sensor_recovery_hold : ℕ
  pub control_warn_after : ℕ
  pub control_critical_after : ℕ
  pub sensor_takeover_after : ℕ

abbrev pub unresponsive_after_stalls : ℕ
unresponsive_after_stalls = 3

-- The reason is left to the log; what was logged is kept.
pub record ControlLoss : Type 0 where
  pub since : ℕ
  pub warned : Bool
  pub is_critical : Bool

pub data FanMode : Type 0 where
  curve fixed : FanMode

pub data PwmCommand : Type 0 where
  set_pwm kick : ℕ → PwmCommand

-- `get_or_insert`.
abbrev pub since_or : Option ℕ → ℕ → ℕ
since_or none now = now
since_or (some t) now = t

-- `SensorFeed`, with its selector's curve endpoints and thresholds, which the source keeps in parallel
-- vectors.
pub record SensorFeed (V : Type 0) : Type 0 where
  pub min_temp_c : Option V
  pub max_temp_c : Option V
  pub warn_threshold : V
  pub critical_threshold : V
  pub sample_at : Option ℕ
  pub sample_value : Option V
  pub max_age : ℕ
  pub ever_read : Bool
  pub lost_since : Option ℕ
  pub held : Bool
  pub back_since : Option ℕ

pub record FanProfile (V : Type 0) : Type 0 where
  pub enabled : Bool
  pub disabled_by_config : Bool
  pub mode : FanMode
  pub fixed_pwm : Option ℕ
  pub update_secs : ℕ
  pub min_temp_c : V
  pub max_temp_c : V
  pub min_start_pwm : ℕ
  pub min_stop_pwm : ℕ
  pub min_pwm : ℕ
  pub max_pwm : ℕ
  pub has_tach : Bool
  pub min_expected_rpm : Option V

pub record FanController (V : Type 0) : Type 0 where
  pub profile : FanProfile V
  pub hwmon : Option String
  pub last_pwm : Option ℕ
  pub kick_until : Option ℕ
  pub feeds : List (SensorFeed V)
  pub timing : Timing
  pub critical_override : Bool
  pub last_tick : Option ℕ
  pub ever_ran_normally : Bool
  pub consecutive_stalls : ℕ
  pub low_rpm_warned : Bool
  pub sensors_lost : Bool
  pub any_sensor_read : Bool
  pub started : ℕ
  pub control_loss : Option ControlLoss
  pub no_sensor_critical_logged : Bool

-- What the outside answers during one update: the clock, where the pwm chip is found, the tachometer,
-- and whether the writes of manual mode and of the pwm value go through.
pub record FanWorld (V : Type 0) : Type 0 where
  pub now : ℕ
  pub found : Option String
  pub tach : Option V
  pub manual_ok : Bool
  pub pwm_ok : Bool

module _ (f : F32) where
  open f use {Value, geq, leq, lt, add, sub, mul, div, from_u8, zero, to_u8, plausible_max}

  -- The latest sample's value, unless it is missing or stale.
  unfoldable pub current : SensorFeed Value → ℕ → Option Value
  current s now = elim s.sample_at [
    | none ↦ none
    | some at ↦ if leb (now - at) s.max_age then s.sample_value else none
  ]

  -- The two arms of `track_sensors`.
  abbrev pub steady : Timing → ℕ → SensorFeed Value → Bool
  steady tm now s = leb tm.sensor_recovery_hold (now - since_or s.back_since now)

  abbrev pub feed_reads : Timing → ℕ → SensorFeed Value → SensorFeed Value
  feed_reads tm now s =
      if s.held
      then (if steady tm now s
          then record s { ever_read = true; lost_since = none; held = false; back_since = none }
          else record s {
            ever_read = true;
            lost_since = none;
            back_since = some (since_or s.back_since now);
          })
      else record s { ever_read = true; lost_since = none }

  abbrev pub long_lost : Timing → ℕ → SensorFeed Value → Bool
  long_lost tm now s = leb tm.sensor_loss_grace (now - since_or s.lost_since now)

  abbrev pub feed_silent : Timing → ℕ → SensorFeed Value → SensorFeed Value
  feed_silent tm now s =
      if s.ever_read
      then record s {
        back_since = none;
        lost_since = some (since_or s.lost_since now);
        held = s.held || long_lost tm now s;
      }
      else s

  unfoldable pub track_feed : Timing → ℕ → SensorFeed Value → SensorFeed Value
  unfolding current
  track_feed tm now s = elim (current s now) [
    | some t ↦ feed_reads tm now s
    | none ↦ feed_silent tm now s
  ]

  unfoldable pub track_feeds : Timing → ℕ → List (SensorFeed Value) → List (SensorFeed Value)
  unfolding track_feed
  track_feeds tm now [] = []
  track_feeds tm now (s ∷ ss) = track_feed tm now s ∷ track_feeds tm now ss

  -- `readings`: the feeds that have one, with it.
  unfoldable pub readings : ℕ → List (SensorFeed Value) → List (SensorFeed Value × Value)
  unfolding current
  readings now [] = []
  readings now (s ∷ ss) = elim (current s now) [
    | none ↦ readings now ss
    | some t ↦ (s, t) ∷ readings now ss
  ]

  abbrev pub is_empty : {A : Type 0} → List A → Bool
  is_empty [] = true
  is_empty (x ∷ xs) = false

  unfoldable pub track_sensors : FanController Value → ℕ → FanController Value
  unfolding track_feeds readings
  track_sensors c now = record c {
    feeds = track_feeds c.timing now c.feeds;
    any_sensor_read = c.any_sensor_read || not (is_empty (readings now c.feeds));
  }

  abbrev pub any_held : List (SensorFeed Value) → Bool
  any_held [] = false
  any_held (s ∷ ss) = s.held || any_held ss

  unfoldable pub floor_active : FanController Value → Bool
  floor_active c = any_held c.feeds

  unfoldable pub is_over_range : Value → Bool
  is_over_range t = lt plausible_max t

  unfoldable pub is_hot : SensorFeed Value × Value → Bool
  unfolding is_over_range
  is_hot (s, t) = geq t s.critical_threshold || is_over_range t

  unfoldable pub is_cool : SensorFeed Value × Value → Bool
  unfolding is_over_range
  is_cool (s, t) = lt t s.warn_threshold && not (is_over_range t)

  unfoldable pub any_hot : List (SensorFeed Value × Value) → Bool
  unfolding is_hot
  any_hot [] = false
  any_hot (r ∷ rs) = is_hot r || any_hot rs

  unfoldable pub all_cool : List (SensorFeed Value × Value) → Bool
  unfolding is_cool
  all_cool [] = true
  all_cool (r ∷ rs) = is_cool r && all_cool rs

  -- The new value of `critical_override`.
  unfoldable pub update_critical_override : Bool → List (SensorFeed Value × Value) → Bool
  unfolding any_hot all_cool
  update_critical_override active rs =
      if any_hot rs then true else if active && all_cool rs then false else active

  unfoldable pub compute_pwm : Value → Value → Value → FanProfile Value → ℕ
  compute_pwm t min_t max_t p = to_u8 (
      if leq t min_t
      then from_u8 p.min_pwm
      else if geq t max_t
      then from_u8 p.max_pwm
      else add
          (div (mul (sub t min_t) (sub (from_u8 p.max_pwm) (from_u8 p.min_stop_pwm)))
            (sub max_t min_t))
          (from_u8 p.min_stop_pwm))

  abbrev pub value_or : Option Value → Value → Value
  value_or none d = d
  value_or (some v) d = v

  unfoldable pub demanded : FanProfile Value → SensorFeed Value × Value → ℕ
  unfolding compute_pwm
  demanded p (s, t) =
      compute_pwm t (value_or s.min_temp_c p.min_temp_c) (value_or s.max_temp_c p.max_temp_c) p

  -- The highest pwm that a reading demands; `none` without readings.
  unfoldable pub worst_demand : FanProfile Value → List (SensorFeed Value × Value) → Option ℕ
  unfolding demanded
  worst_demand p [] = none
  worst_demand p (r ∷ rs) = elim (worst_demand p rs) [
    | none ↦ some (demanded p r)
    | some n ↦ some (max (demanded p r) n)
  ]

  abbrev pub pwm_or : Option ℕ → ℕ → ℕ
  pwm_or none d = d
  pwm_or (some n) d = n

  unfoldable pub mode_target :
      FanMode → FanProfile Value → List (SensorFeed Value × Value) → Option ℕ
  unfolding worst_demand
  mode_target curve p rs = worst_demand p rs
  mode_target fixed p rs = some (pwm_or p.fixed_pwm p.max_pwm)

  -- `curve_target` and `fixed_target`, which differ in the last step alone.
  unfoldable pub aimed :
      FanController Value → List (SensorFeed Value × Value) → FanController Value × Option ℕ
  unfolding update_critical_override mode_target
  aimed c [] = (c, none)
  aimed c (r ∷ rs) =
      let active = update_critical_override c.critical_override (r ∷ rs) in
      (
        record c { critical_override = active },
        if active then some c.profile.max_pwm else mode_target c.profile.mode c.profile (r ∷ rs),
      )

  abbrev pub raised : Bool → ℕ → Option ℕ → Option ℕ
  raised floor top none = none
  raised floor top (some n) = some (if floor then top else n)

  unfoldable pub target_pwm_from_sensors : FanController Value → ℕ → FanController Value × Option ℕ
  unfolding track_sensors aimed floor_active readings
  target_pwm_from_sensors c now =
      let tracked = track_sensors c now in
      let (c', target) = aimed tracked (readings now tracked.feeds) in
      (c', raised (floor_active tracked) c.profile.max_pwm target)

  -- `note_control_lost`: the loss, with what has been logged of it.
  abbrev pub loss_or : Option ControlLoss → ℕ → ControlLoss
  loss_or none now = record { since = now; warned = false; is_critical = false }
  loss_or (some l) now = l

  abbrev pub noted_loss : Timing → ℕ → ControlLoss → ControlLoss
  noted_loss tm now l =
      if leb tm.control_critical_after (now - l.since) && not l.is_critical
      then record l { warned = true; is_critical = true }
      else if leb tm.control_warn_after (now - l.since) && not l.warned
      then record l { warned = true }
      else l

  unfoldable pub note_control_lost : FanController Value → ℕ → FanController Value
  note_control_lost c now = record c {
    control_loss = some (noted_loss c.timing now (loss_or c.control_loss now));
  }

  abbrev pub mark_control_ok : FanController Value → FanController Value
  mark_control_ok c = record c { control_loss = none }

  abbrev pub pwm_of : PwmCommand → ℕ
  pwm_of (set_pwm n) = n
  pwm_of (kick n) = n

  abbrev pub kicked_until : PwmCommand → ℕ → Option ℕ → Option ℕ
  kicked_until (set_pwm n) now old = old
  kicked_until (kick n) now old = some (now + nanos_per_sec)

  -- The write that reached the fan, beside the new state.
  unfoldable pub apply :
      FanController Value → FanWorld Value → PwmCommand → FanController Value × Option ℕ
  unfolding note_control_lost
  apply c w cmd =
      if w.manual_ok && w.pwm_ok
      then (
        record (mark_control_ok c) {
          last_pwm = some (pwm_of cmd);
          kick_until = kicked_until cmd w.now c.kick_until;
        },
        some (pwm_of cmd),
      )
      else (note_control_lost (record c { hwmon = none }) w.now, none)

  abbrev pub stands_still : Option Value → Bool
  stands_still none = false
  stands_still (some r) = leq r zero

  abbrev pub is_low : Option Value → Option Value → Bool → Bool
  is_low (some min_rpm) (some rpm) old = lt rpm min_rpm
  is_low _ _ old = old

  -- The fan turns: the stall is over, and a low speed is noted.
  abbrev pub running_normally : FanController Value → Option Value → FanController Value
  running_normally c rpm = record c {
    consecutive_stalls = 0;
    ever_ran_normally = true;
    low_rpm_warned = is_low c.profile.min_expected_rpm rpm c.low_rpm_warned;
  }

  unfoldable pub plan : FanController Value → ℕ → Option Value → FanController Value × PwmCommand
  plan c target rpm =
      if target == 0
      then (record c { consecutive_stalls = 0; low_rpm_warned = false }, set_pwm 0)
      else if ltb 0 (pwm_or c.last_pwm 0) && stands_still rpm
      then (
        record c { consecutive_stalls = c.consecutive_stalls + 1 },
        kick c.profile.min_start_pwm,
      )
      else if pwm_or c.last_pwm 0 == 0
      then (c, kick c.profile.min_start_pwm)
      else (running_normally c rpm, set_pwm target)

  abbrev pub is_none : {A : Type 0} → Option A → Bool
  is_none none = true
  is_none (some a) = false

  -- The state of `hold_full_speed_without_sensors` before it writes.
  abbrev pub without_sensors : FanController Value → ℕ → FanController Value
  without_sensors c now = record c {
    sensors_lost = true;
    no_sensor_critical_logged =
        c.no_sensor_critical_logged
        || (not c.any_sensor_read && leb c.timing.control_critical_after (now - c.started));
    kick_until = none;
  }

  unfoldable pub hold_full_speed_without_sensors :
      FanController Value → FanWorld Value → FanController Value × Option ℕ
  unfolding note_control_lost
  hold_full_speed_without_sensors c w =
      if is_none c.last_pwm && ltb (w.now - c.started) c.timing.sensor_takeover_after
      then (c, none)
      else if w.manual_ok && w.pwm_ok
      then (
        record (mark_control_ok (without_sensors c w.now)) { last_pwm = some c.profile.max_pwm },
        some c.profile.max_pwm,
      )
      else (note_control_lost (record (without_sensors c w.now) { hwmon = none }) w.now, none)

  abbrev pub is_mid_kick : Option ℕ → ℕ → Bool
  is_mid_kick none now = false
  is_mid_kick (some until) now = ltb now until

  abbrev pub tach_of : FanProfile Value → Option Value → Option Value
  tach_of p rpm = if p.has_tach then rpm else none

  -- `update` once a target is known.
  unfoldable pub drive : FanController Value → FanWorld Value → ℕ → FanController Value × Option ℕ
  unfolding plan apply
  drive c w target =
      let c' = record c { sensors_lost = false } in
      if is_mid_kick c.kick_until w.now
      then (c', none)
      else let (c'', cmd) =
          plan (record c' { kick_until = none }) target (tach_of c.profile w.tach) in
        apply c'' w cmd

  unfoldable pub drive_or_hold :
      FanWorld Value → FanController Value × Option ℕ → FanController Value × Option ℕ
  unfolding drive hold_full_speed_without_sensors
  drive_or_hold w (c, none) = hold_full_speed_without_sensors c w
  drive_or_hold w (c, some target) = drive c w target

  abbrev pub resolved : Option String → Option String → Option String
  resolved none found = found
  resolved (some path) found = some path

  unfoldable pub update : FanController Value → FanWorld Value → FanController Value × Option ℕ
  unfolding note_control_lost target_pwm_from_sensors drive_or_hold
  update c w =
      if not c.profile.enabled
      then (c, none)
      else let c' = record c { hwmon = resolved c.hwmon w.found } in
        if is_none c'.hwmon
        then (note_control_lost c' w.now, none)
        else drive_or_hold w (target_pwm_from_sensors c' w.now)

  abbrev pub tick_due : Option ℕ → ℕ → ℕ → Bool
  tick_due none interval now = true
  tick_due (some t) interval now = leb interval (now - t)

  unfoldable pub tick : FanController Value → FanWorld Value → FanController Value × Option ℕ
  unfolding update
  tick c w =
      let interval = max c.profile.update_secs 1 * nanos_per_sec in
      if not (tick_due c.last_tick interval w.now)
      then (c, none)
      else update (record c { last_tick = some w.now }) w

  abbrev pub lost_for : Option ControlLoss → ℕ → ℕ → Bool
  lost_for none now limit = false
  lost_for (some l) now limit = leb limit (now - l.since)

  unfoldable pub health_level : FanController Value → ℕ → Level
  unfolding floor_active
  health_level c now =
      if c.profile.disabled_by_config
      then warn
      else if leb unresponsive_after_stalls c.consecutive_stalls
          || (lost_for c.control_loss now c.timing.control_critical_after
              || ((c.sensors_lost && not c.any_sensor_read)
                  && leb c.timing.control_critical_after (now - c.started)))
      then critical
      else if lost_for c.control_loss now c.timing.control_warn_after
          || (ltb 0 c.consecutive_stalls
              || (c.low_rpm_warned || (c.sensors_lost || floor_active c)))
      then warn
      else info

  -- On exit: full speed, if the fan was ever taken over.
  unfoldable pub restore : FanController Value → FanWorld Value → Option ℕ
  restore c w =
      if is_none c.last_pwm
      then none
      else if is_none (resolved c.hwmon w.found)
      then none
      else if w.manual_ok && w.pwm_ok
      then some 255
      else none

-- `SensorSelector`, and a controller's start.
pub record SensorSelector (V : Type 0) : Type 0 where
  pub chip : String
  pub min_temp_c : Option V
  pub max_temp_c : Option V
  pub min_resample_secs : Option ℕ

abbrev pub min_sensor_max_age : ℕ
min_sensor_max_age = 10 * nanos_per_sec

unfoldable pub sampling_secs : {V : Type 0} → SensorSelector V → ℕ → ℕ
sampling_secs sel update_secs = min (max (since_or sel.min_resample_secs update_secs) 1) 300

unfoldable pub new_feed : {V : Type 0} → SensorSelector V → ℕ → V × V → SensorFeed V
unfolding sampling_secs
new_feed sel update_secs (warning, critical_at) = record {
  min_temp_c = sel.min_temp_c;
  max_temp_c = sel.max_temp_c;
  warn_threshold = warning;
  critical_threshold = critical_at;
  sample_at = none;
  sample_value = none;
  max_age = max (sampling_secs sel update_secs * 3 * nanos_per_sec) min_sensor_max_age;
  ever_read = false;
  lost_since = none;
  held = false;
  back_since = none;
}

unfoldable pub new_feeds :
    {V : Type 0} → List (SensorSelector V) → ℕ → TemperatureConfig V → List (SensorFeed V)
unfolding new_feed resolve_temp_threshold
new_feeds [] update_secs temps = []
new_feeds (sel ∷ sels) update_secs temps =
    new_feed sel update_secs (resolve_temp_threshold temps sel.chip)
    ∷ new_feeds sels update_secs temps

abbrev pub default_timing : Timing
default_timing = record {
  sensor_loss_grace = 10 * nanos_per_sec;
  sensor_recovery_hold = 30 * nanos_per_sec;
  control_warn_after = 30 * nanos_per_sec;
  control_critical_after = 180 * nanos_per_sec;
  sensor_takeover_after = 30 * nanos_per_sec;
}

unfoldable pub new_fan :
    {V : Type 0}
    → FanProfile V
    → List (SensorSelector V)
    → TemperatureConfig V
    → ℕ
    → FanController V
unfolding new_feeds
new_fan profile sels temps now = record {
  profile = profile;
  hwmon = none;
  last_pwm = none;
  kick_until = none;
  feeds = new_feeds sels profile.update_secs temps;
  timing = default_timing;
  critical_override = false;
  last_tick = none;
  ever_ran_normally = false;
  consecutive_stalls = 0;
  low_rpm_warned = false;
  sensors_lost = false;
  any_sensor_read = false;
  started = now;
  control_loss =
      if profile.enabled
      then some (record { since = now; warned = false; is_critical = false })
      else none;
  no_sensor_critical_logged = false;
}
