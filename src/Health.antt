-- ===== src/Health.antt =====
-- src/state.rs, `health_summary` and `network_alarm`, with `level_word` and `short_chip_name`: the alarms that
-- the daemon's own checks give, and the LED pattern they come to. What the checks found is an argument, the
-- temperature as the text that `display_temp` makes of it.
mod Shown
mod Worst
mod Tests
use truenas_asustor_chassisd.Base.{
  ℕ, ◌+◌, Bool, true, false, not, ◌&&◌, ◌||◌, Option, none, some, List, [], ◌∷◌, ◌++◌, leb, ◌==◌,
  length, if◌then◌else◌, Text, codes, decimal, same_text, one_of,
}
use truenas_asustor_chassisd.Alarm.{
  Level, info, warn, error, critical, rank, StatusPattern, ok, degraded, Alarm, new_alarm,
  most_critical,
}

unfoldable pub level_word : Level → Text
level_word info = codes "OK"
level_word warn = codes "WARNING"
level_word error = codes "ERROR"
level_word critical = codes "CRITICAL"

unfoldable pub short_chip_name : Text → Text
short_chip_name chip =
    if same_text chip (codes "coretemp")
    then codes "CPU"
    else if same_text chip (codes "drivetemp")
    then codes "HDD"
    else if same_text chip (codes "nvme")
    then codes "NVMe"
    else if same_text chip (codes "it8625")
    then codes "SYSTEM"
    else chip

-- `join` with commas.
abbrev pub commas : List Text → Text
commas [] = []
commas (w ∷ []) = w
commas (w ∷ v ∷ ws) = w ++ (b',' ∷ commas (v ∷ ws))

-- A monitored interface, and whether its link is down.
pub record Nic : Type 0 where
  pub name : Text
  pub is_down : Bool

pub record Network : Type 0 where
  pub enabled : Bool
  pub monitored : List Nic
  pub all_down_level : Level
  pub some_down_level : Level

abbrev pub down_names : List Nic → List Text
down_names [] = []
down_names (n ∷ nics) = if n.is_down then n.name ∷ down_names nics else down_names nics

unfoldable pub network_alarm : Network → Option Alarm
unfolding new_alarm
network_alarm net =
    let down = down_names net.monitored in
    if not net.enabled || (length down == 0)
    then none
    else if length down == length net.monitored
    then new_alarm net.all_down_level (codes "NETWORK DOWN") (commas down)
    else new_alarm net.some_down_level (codes "LINK DOWN") (commas down)

-- The sensor behind the worst temperature, with the text of its reading.
pub record WorstTemp : Type 0 where
  pub level : Level
  pub chip : Text
  pub reading : Text

pub record Findings : Type 0 where
  pub pool_healths : List (Text × Text)
  pub worst_temp : Option WorstTemp
  pub fan_health : Level
  pub bay_failed : Bool
  pub failed_bays : List ℕ
  pub network : Network

pub record HealthSummary : Type 0 where
  pub pool_degraded : Bool
  pub pool_faulted : Bool
  pub bay_failed : Bool
  pub temp_level : Level
  pub network_level : Level
  pub fan_health : Level
  pub overall : Level
  pub alarms : List Alarm
  pub pattern : StatusPattern

abbrev pub is_faulted : Text → Bool
is_faulted h = one_of h (codes "FAULTED" ∷ codes "UNAVAIL" ∷ codes "OFFLINE" ∷ [])

abbrev pub is_degraded : Text → Bool
is_degraded h = same_text h (codes "DEGRADED")

abbrev pub any_pool : (Text → Bool) → List (Text × Text) → Bool
any_pool wanted [] = false
any_pool wanted ((n, h) ∷ pools) = wanted h || any_pool wanted pools

abbrev pub names_where : (Text → Bool) → List (Text × Text) → List Text
names_where wanted [] = []
names_where wanted ((n, h) ∷ pools) =
    if wanted h then n ∷ names_where wanted pools else names_where wanted pools

abbrev pub max_level : Level → Level → Level
max_level a b = if leb (rank a) (rank b) then b else a

abbrev pub alarm_level : Option Alarm → Level
alarm_level none = info
alarm_level (some a) = a.level

abbrev pub temp_level_of : Option WorstTemp → Level
temp_level_of none = info
temp_level_of (some t) = t.level

abbrev pub listed : Option Alarm → List Alarm
listed none = []
listed (some a) = a ∷ []

unfoldable pub temp_alarm : Option WorstTemp → Option Alarm
unfolding new_alarm level_word short_chip_name
temp_alarm none = none
temp_alarm (some t) =
    new_alarm t.level (codes "TEMP " ++ level_word t.level)
      (short_chip_name t.chip ++ (b' ' ∷ t.reading))

unfoldable pub fan_alarm : Level → Option Alarm
unfolding new_alarm level_word
fan_alarm l = new_alarm l (codes "FAN " ++ level_word l) (codes "check fan")

abbrev pub bay_texts : List ℕ → List Text
bay_texts [] = []
bay_texts (b ∷ bays) = decimal b ∷ bay_texts bays

unfoldable pub bay_alarm : List Text → Option Alarm
unfolding new_alarm
bay_alarm [] = new_alarm error (codes "DRIVE FAILED") (codes "SMART")
bay_alarm (one ∷ []) = new_alarm error (codes "DRIVE FAILED") (codes "BAY " ++ one)
bay_alarm (one ∷ two ∷ more) =
    new_alarm error (codes "DRIVES FAILED") (codes "BAYS " ++ commas (one ∷ two ∷ more))

unfoldable pub faulted_alarm : List (Text × Text) → Option Alarm
unfolding new_alarm
faulted_alarm pools = new_alarm error (codes "POOL FAULTED") (commas (names_where is_faulted pools))

unfoldable pub degraded_alarm : List (Text × Text) → Alarm
degraded_alarm pools = record {
  level = warn;
  pattern = degraded;
  line0 = codes "POOL DEGRADED";
  line1 = commas (names_where is_degraded pools);
}

-- The alarms, in the order that decides between equally severe ones.
unfoldable pub alarms_of : Findings → List Alarm
unfolding temp_alarm fan_alarm bay_alarm faulted_alarm degraded_alarm network_alarm
alarms_of s =
    listed (temp_alarm s.worst_temp)
    ++ (listed (fan_alarm s.fan_health)
        ++ ((if any_pool is_faulted s.pool_healths
              then listed (faulted_alarm s.pool_healths)
              else [])
            ++ ((if s.bay_failed then listed (bay_alarm (bay_texts s.failed_bays)) else [])
                ++ (listed (network_alarm s.network)
                    ++ (if any_pool is_degraded s.pool_healths
                        then degraded_alarm s.pool_healths ∷ []
                        else [])))))

abbrev pub pattern_or_ok : Option Alarm → StatusPattern
pattern_or_ok none = ok
pattern_or_ok (some a) = a.pattern

unfoldable pub health_summary : Findings → HealthSummary
unfolding alarms_of network_alarm most_critical
health_summary s = record {
  pool_degraded = any_pool is_degraded s.pool_healths;
  pool_faulted = any_pool is_faulted s.pool_healths;
  bay_failed = s.bay_failed;
  temp_level = temp_level_of s.worst_temp;
  network_level = alarm_level (network_alarm s.network);
  fan_health = s.fan_health;
  overall =
      max_level
        (max_level (max_level s.fan_health (temp_level_of s.worst_temp))
          (alarm_level (network_alarm s.network)))
        (if s.bay_failed then error else info);
  alarms = alarms_of s;
  pattern = pattern_or_ok (most_critical (alarms_of s));
}
