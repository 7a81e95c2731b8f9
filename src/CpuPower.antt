-- ===== src/CpuPower.antt =====
-- src/cpu_power.rs: the CPU's power limits, and the guard that drops them to stock when a sensor is
-- critical; with `resolve_temp_threshold` of src/config.rs.
pub mod Guarding
pub mod Writing
mod Tests
use Prim.Native.String.{String}
use text.Mathlib.Text.{◌==◌ as str_eq}
use truenas_asustor_chassisd.Base.{
  ℕ, ◌+◌, ◌-◌, ◌*◌, Bool, true, false, not, ◌&&◌, ◌||◌, Option, none, some, List, [], ◌∷◌, ltb, leb,
  ◌==◌, if◌then◌else◌,
}
use truenas_asustor_chassisd.Float.{F32}

-- `TempThreshold` and `TemperatureConfig`, the fields that decide.
pub record TempThreshold (C : Type 0) : Type 0 where
  pub chip : String
  pub warn_threshold : C
  pub critical_threshold : C

pub record TemperatureConfig (C : Type 0) : Type 0 where
  pub thresholds : List (TempThreshold C)
  pub warn_threshold : C
  pub critical_threshold : C

-- A chip's own (warning, critical) pair, if one is configured, else the fallback.
abbrev pub find_threshold : {C : Type 0} → List (TempThreshold C) → String → C × C → C × C
find_threshold [] chip fallback = fallback
find_threshold (t ∷ ts) chip fallback =
    if str_eq t.chip chip
    then (t.warn_threshold, t.critical_threshold)
    else find_threshold ts chip fallback

unfoldable pub resolve_temp_threshold : {C : Type 0} → TemperatureConfig C → String → C × C
resolve_temp_threshold cfg chip =
    find_threshold cfg.thresholds chip (cfg.warn_threshold, cfg.critical_threshold)

-- `(chip, label, degrees)`.
pub record Reading (C : Type 0) : Type 0 where
  pub chip : String
  pub label : String
  pub celsius : C

pub record CpuPowerConfig : Type 0 where
  pub pl1_w : ℕ
  pub pl2_w : ℕ
  pub tau_secs : ℕ
  pub stock_pl1_w : ℕ
  pub stock_pl2_w : ℕ
  pub stock_tau_secs : ℕ
  pub rearm_secs : ℕ

abbrev pub uw_per_w : ℕ
uw_per_w = 1_000_000

abbrev pub us_per_s : ℕ
us_per_s = 1_000_000

abbrev pub nanos_per_sec : ℕ
nanos_per_sec = 1_000_000_000

abbrev pub verify_interval : ℕ
verify_interval = 60 * nanos_per_sec

pub record Limits : Type 0 where
  pub pl1_uw : ℕ
  pub pl2_uw : ℕ
  pub tau_us : ℕ

unfoldable pub configured_limits : CpuPowerConfig → Limits
configured_limits cfg = record {
  pl1_uw = cfg.pl1_w * uw_per_w;
  pl2_uw = cfg.pl2_w * uw_per_w;
  tau_us = cfg.tau_secs * us_per_s;
}

unfoldable pub stock_limits : CpuPowerConfig → Limits
stock_limits cfg = record {
  pl1_uw = cfg.stock_pl1_w * uw_per_w;
  pl2_uw = cfg.stock_pl2_w * uw_per_w;
  tau_us = cfg.stock_tau_secs * us_per_s;
}

abbrev pub abs_diff : ℕ → ℕ → ℕ
abs_diff a b = (a - b) + (b - a)

-- `matches`: the time window may be a quarter off.
unfoldable pub limits_match : Limits → Limits → Bool
limits_match l read =
    (l.pl1_uw == read.pl1_uw)
    && (l.pl2_uw == read.pl2_uw)
    && leb (abs_diff l.tau_us read.tau_us * 4) l.tau_us

-- The zone's files that are written.
pub data ZoneFile : Type 0 where
  pl1_file pl2_file tau_file : ZoneFile

unfoldable pub write_plan : ℕ → Limits → List (ZoneFile × ℕ)
write_plan cur_pl2_uw new =
    if leb cur_pl2_uw new.pl2_uw
    then (pl2_file, new.pl2_uw) ∷ (pl1_file, new.pl1_uw) ∷ (tau_file, new.tau_us) ∷ []
    else (pl1_file, new.pl1_uw) ∷ (pl2_file, new.pl2_uw) ∷ (tau_file, new.tau_us) ∷ []

-- What the files answer while one `tick` works with the zone: `Zone::check`, the current PL2 that
-- `Zone::write` reads first, whether each of its three writes is accepted, and `Zone::read`. An error
-- is its text.
pub record ZoneAnswers : Type 0 where
  pub layout_problem : Option String
  pub cur_pl2 : Option ℕ
  pub accepts : List Bool
  pub limits_read : Option Limits
  pub io_problem : String

pub data Written : Type 0 where
  written : List (ZoneFile × ℕ) → Option String → Written

abbrev pub writes_of : Written → List (ZoneFile × ℕ)
writes_of (written ws e) = ws

abbrev pub error_of : Written → Option String
error_of (written ws e) = e

abbrev pub then_written : ZoneFile × ℕ → Written → Written
then_written w (written ws e) = written (w ∷ ws) e

-- The loop of `Zone::write`: the writes that went through, and the error that stopped it.
unfoldable pub write_all : String → List Bool → List (ZoneFile × ℕ) → Written
write_all problem accepts [] = written [] none
write_all problem (true ∷ accepts) (w ∷ plan) = then_written w (write_all problem accepts plan)
write_all problem (false ∷ accepts) (w ∷ plan) = written [] (some problem)
write_all problem [] (w ∷ plan) = written [] (some problem)

unfoldable pub zone_write : ZoneAnswers → Limits → Written
unfolding write_all write_plan
zone_write z new = elim z.cur_pl2 [
  | none ↦ written [] (some z.io_problem)
  | some cur ↦ write_all z.io_problem z.accepts (write_plan cur new)
]

pub data Mode : Type 0 where
  configured stock : Mode

pub data Change : Type 0 where
  tripped : String → Change
  rearmed : Change

pub record Guard : Type 0 where
  pub rearm : ℕ
  pub is_tripped : Bool
  pub cool_since : Option ℕ

unfoldable pub new_guard : ℕ → Guard
new_guard rearm = record { rearm = rearm; is_tripped = false; cool_since = none }

unfoldable pub guard_mode : Guard → Mode
guard_mode g = if g.is_tripped then stock else configured

-- `get_or_insert`.
abbrev pub get_or_insert : Option ℕ → ℕ → ℕ
get_or_insert none now = now
get_or_insert (some t) now = t

module _ (f : F32) where
  open f use {Value, geq, lt}

  abbrev pub is_critical : TemperatureConfig Value → Reading Value → Bool
  is_critical temps r = geq r.celsius (resolve_temp_threshold temps r.chip).1

  abbrev pub is_cool : TemperatureConfig Value → Reading Value → Bool
  is_cool temps r = lt r.celsius (resolve_temp_threshold temps r.chip).0

  -- `find`: the label of the first critical sensor (the text of the message also has its reading).
  abbrev pub first_critical : TemperatureConfig Value → List (Reading Value) → Option String
  first_critical temps [] = none
  first_critical temps (r ∷ rs) =
      if is_critical temps r then some r.label else first_critical temps rs

  abbrev pub all_cool : TemperatureConfig Value → List (Reading Value) → Bool
  all_cool temps [] = true
  all_cool temps (r ∷ rs) = is_cool temps r && all_cool temps rs

  -- Why the limits must drop, if they must. No fresh sample, or an empty one, is a reason too.
  abbrev pub critical : TemperatureConfig Value → Option (List (Reading Value)) → Option String
  critical temps none = some "no fresh temperature readings"
  critical temps (some []) = some "no fresh temperature readings"
  critical temps (some (r ∷ rs)) = first_critical temps (r ∷ rs)

  abbrev pub cool : TemperatureConfig Value → Option (List (Reading Value)) → Bool
  cool temps none = false
  cool temps (some []) = false
  cool temps (some (r ∷ rs)) = all_cool temps (r ∷ rs)

  unfoldable pub observe :
      Guard → ℕ → Option (List (Reading Value)) → TemperatureConfig Value → Guard × Option Change
  observe g now readings temps = elim (critical temps readings) [
    | some why ↦ (
      record g { is_tripped = true; cool_since = none },
      if g.is_tripped then none else some (tripped why),
    )
    | none ↦
        let since = get_or_insert g.cool_since now in
        if not g.is_tripped
        then (g, none)
        else if not (cool temps readings)
        then (record g { cool_since = none }, none)
        else if leb g.rearm (now - since)
        then (record g { is_tripped = false; cool_since = none }, some rearmed)
        else (record g { cool_since = some since }, none)
  ]

-- `Controller`; the zone is what the files answer.
pub record Controller : Type 0 where
  pub configured_to : Limits
  pub stock_to : Limits
  pub guard : Guard
  pub applied : Option Mode
  pub last_verify : Option ℕ
  pub trip_reason : Option String
  pub problem : Option String

unfoldable pub new_controller : CpuPowerConfig → Controller
unfolding new_guard configured_limits stock_limits
new_controller cfg = record {
  configured_to = configured_limits cfg;
  stock_to = stock_limits cfg;
  guard = new_guard (cfg.rearm_secs * nanos_per_sec);
  applied = none;
  last_verify = none;
  trip_reason = none;
  problem = none;
}

unfoldable pub limits : Controller → Mode → Limits
limits c configured = c.configured_to
limits c stock = c.stock_to

abbrev pub verified_lately : Option ℕ → ℕ → Bool
verified_lately none now = false
verified_lately (some t) now = ltb (now - t) verify_interval

abbrev pub as_expected : Limits → Option Limits → Bool
as_expected want none = false
as_expected want (some cur) = limits_match want cur

unfoldable pub verify : Controller → ℕ → ZoneAnswers → Controller
unfolding limits
verify c now z = elim c.applied [
  | none ↦ c
  | some mode ↦
      if verified_lately c.last_verify now
      then c
      else if as_expected (limits c mode) z.limits_read
      then record c { last_verify = some now }
      else record c { last_verify = some now; applied = none }
]

-- The writes that reached the zone, beside the new state. `problem` is what was last logged.
unfoldable pub apply : Controller → ℕ → Mode → ZoneAnswers → Controller × List (ZoneFile × ℕ)
unfolding limits zone_write
apply c now mode z = elim z.layout_problem [
  | some e ↦ (record c { problem = some e }, [])
  | none ↦
      let w = zone_write z (limits c mode) in
      (
        elim (error_of w) [
          | some e ↦ record c { problem = some e }
          | none ↦ record c { applied = some mode; last_verify = some now; problem = none }
        ],
        writes_of w,
      )
]

abbrev pub is_mode : Option Mode → Mode → Bool
is_mode (some configured) configured = true
is_mode (some stock) stock = true
is_mode _ _ = false

abbrev pub note_change : Controller → Option Change → Controller
note_change c none = c
note_change c (some (tripped why)) = record c { trip_reason = some why }
note_change c (some rearmed) = record c { trip_reason = none }

unfoldable pub tick :
    (f : F32)
    → Controller
    → ℕ
    → Option (List (Reading (f.Value)))
    → TemperatureConfig (f.Value)
    → ZoneAnswers
    → Controller × List (ZoneFile × ℕ)
unfolding verify apply
tick f c now readings temps z =
    let (g, change) = observe f c.guard now readings temps in
    let noted = note_change (record c { guard = g }) change in
    let want = guard_mode g in
    let checked = verify noted now z in
    if is_mode checked.applied want then (checked, []) else apply checked now want z
