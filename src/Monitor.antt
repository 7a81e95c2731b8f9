-- ===== src/Monitor.antt =====
-- src/monitor.rs: the log lines that follow the temperatures, pools and bays. A `HashMap` is a list of keys
-- and values, a key once; a line is a value with what it names. `f32` is an interface.
mod Maps
mod Following
mod Tests
use Prim.Native.String.{String}
use text.Mathlib.Text.{◌==◌ as str_eq}
use truenas_asustor_chassisd.Base.{
  ℕ, ◌-◌, ◌*◌, max, Bool, true, false, not, ◌&&◌, ◌||◌, Option, none, some, List, [], ◌∷◌, ◌++◌,
  ltb, leb, ◌==◌, if◌then◌else◌,
}
use truenas_asustor_chassisd.Float.{F32}
use truenas_asustor_chassisd.Alarm.{Level, info, warn, critical, rank}
use truenas_asustor_chassisd.Panel.{
  BayState, normal, failed_bay, alert, standby, locate_bay, nanos_per_sec,
}
use truenas_asustor_chassisd.CpuPower.{Reading, TemperatureConfig, resolve_temp_threshold}

-- A map's value at a key, and the map with another one there.
module _ {K V : Type 0} (same : K → K → Bool) where
  abbrev pub lookup : K → List (K × V) → Option V
  lookup k [] = none
  lookup k ((j, v) ∷ m) = if same j k then some v else lookup k m

  abbrev pub insert : K → V → List (K × V) → List (K × V)
  insert k v [] = (k, v) ∷ []
  insert k v ((j, u) ∷ m) = if same j k then (j, v) ∷ m else (j, u) ∷ insert k v m

  abbrev pub retain : (K → Bool) → List (K × V) → List (K × V)
  retain keep [] = []
  retain keep ((j, v) ∷ m) = if keep j then (j, v) ∷ retain keep m else retain keep m

pub data Line : Type 0 where
  temp_critical temp_warn temp_normal pool_degraded : String → Line
  pool_online pool_other : String → String → Line
  bay_failed bay_recovered : ℕ → Line

pub record TempState (C : Type 0) : Type 0 where
  pub level : Level
  pub chip : String
  pub celsius : C

pub record HealthMonitor (C : Type 0) : Type 0 where
  pub temps : List (String × TempState C)
  pub pool_healths : List (String × String)
  pub bay_states : List (ℕ × BayState)
  pub last_temp_check : Option ℕ

abbrev pub new_monitor : {C : Type 0} → HealthMonitor C
new_monitor = record { temps = []; pool_healths = []; bay_states = []; last_temp_check = none }

-- `prev == Some(level)`.
abbrev pub same_level : Option Level → Level → Bool
same_level none l = false
same_level (some p) l = rank p == rank l

abbrev pub is_some : {A : Type 0} → Option A → Bool
is_some none = false
is_some (some a) = true

-- The line of a reading, after the level before.
unfoldable pub temp_lines : String → Option Level → Level → List Line
temp_lines label prev level =
    if same_level prev level
    then []
    else if rank level == rank critical
    then temp_critical label ∷ []
    else if rank level == rank warn
    then temp_warn label ∷ []
    else if is_some prev
    then temp_normal label ∷ []
    else []

abbrev pub level_of_state : {C : Type 0} → Option (TempState C) → Option Level
level_of_state none = none
level_of_state (some t) = some t.level

module _ (f : F32) where
  open f use {Value, geq}

  abbrev pub level_at : Value → Value × Value → Level
  level_at c (w, crit) = if geq c crit then critical else if geq c w then warn else info

  unfoldable pub note_temp :
      List (String × TempState Value)
      → String
      → String
      → Value
      → Value × Value
      → List (String × TempState Value) × List Line
  unfolding temp_lines
  note_temp temps label chip celsius limits =
      let level = level_at celsius limits in
      (
        insert str_eq label (record { level = level; chip = chip; celsius = celsius }) temps,
        temp_lines label (level_of_state (lookup str_eq label temps)) level,
      )

  abbrev pub is_connected : List (Reading Value) → String → Bool
  is_connected [] label = false
  is_connected (r ∷ rs) label = str_eq r.label label || is_connected rs label

  -- The loop of `check_temps`.
  unfoldable pub note_temps :
      TemperatureConfig Value
      → List (String × TempState Value)
      → List (Reading Value)
      → List (String × TempState Value) × List Line
  unfolding note_temp resolve_temp_threshold
  note_temps cfg temps [] = (temps, [])
  note_temps cfg temps (r ∷ rs) =
      let (noted, lines) =
        note_temp temps r.label r.chip r.celsius (resolve_temp_threshold cfg r.chip) in
      let (last, rest) = note_temps cfg noted rs in (last, lines ++ rest)

  unfoldable pub check_temps :
      TemperatureConfig Value
      → List (String × TempState Value)
      → List (Reading Value)
      → List (String × TempState Value) × List Line
  unfolding note_temps
  check_temps cfg temps rs = note_temps cfg (retain str_eq (is_connected rs) temps) rs

  -- `readings` are what `all_connected_temps` returns, and `now` the time at the call's start.
  unfoldable pub maybe_check_temps :
      HealthMonitor Value
      → TemperatureConfig Value
      → ℕ
      → ℕ
      → List (Reading Value)
      → HealthMonitor Value × List Line × Bool
  unfolding check_temps
  maybe_check_temps m cfg min_secs now readings =
      if is_due m.last_temp_check
      then (let (temps, lines) = check_temps cfg m.temps readings in
          (record m { temps = temps; last_temp_check = some now }, lines, true))
      else (m, [], false)
    where
      is_due : Option ℕ → Bool
      is_due none = true
      is_due (some t) = leb (max 1 min_secs * nanos_per_sec) (now - t)

abbrev pub same_health : Option String → String → Bool
same_health none h = false
same_health (some p) h = str_eq p h

unfoldable pub pool_lines : String → Option String → String → List Line
pool_lines name prev health =
    if same_health prev health
    then []
    else if str_eq health "ONLINE"
    then elim prev [ none ↦ [] | some p ↦ pool_online name p ∷ [] ]
    else if str_eq health "DEGRADED"
    then pool_degraded name ∷ []
    else pool_other name health ∷ []

unfoldable pub check_pools :
    List (String × String) → List (String × String) → List (String × String) × List Line
unfolding pool_lines
check_pools pools [] = (pools, [])
check_pools pools ((name, health) ∷ healths) =
    let (last, rest) = check_pools (insert str_eq name health pools) healths in
    (last, pool_lines name (lookup str_eq name pools) health ++ rest)

abbrev pub bay_code : BayState → ℕ
bay_code normal = 0
bay_code failed_bay = 1
bay_code alert = 2
bay_code standby = 3
bay_code locate_bay = 4

abbrev pub same_bay_state : Option BayState → BayState → Bool
same_bay_state none s = false
same_bay_state (some p) s = bay_code p == bay_code s

unfoldable pub bay_lines : ℕ → Option BayState → BayState → List Line
bay_lines bay prev state =
    if same_bay_state prev state
    then []
    else if bay_code state == bay_code failed_bay
    then bay_failed bay ∷ []
    else if same_bay_state prev failed_bay
    then bay_recovered bay ∷ []
    else []

unfoldable pub check_bays :
    List (ℕ × BayState) → List (ℕ × BayState) → List (ℕ × BayState) × List Line
unfolding bay_lines
check_bays bays [] = (bays, [])
check_bays bays ((bay, state) ∷ states) =
    let (last, rest) = check_bays (insert (λ a b. a == b) bay state bays) states in
    (last, bay_lines bay (lookup (λ a b. a == b) bay bays) state ++ rest)

abbrev pub any_failed : List (ℕ × BayState) → Bool
any_failed [] = false
any_failed ((bay, s) ∷ bays) = (bay_code s == bay_code failed_bay) || any_failed bays

unfoldable pub any_bay_failed : {C : Type 0} → HealthMonitor C → Bool
any_bay_failed m = any_failed m.bay_states
