-- ===== src/Health/Shown.antt =====
-- src/state.rs, `health_summary`: the patterns that its alarms can have.
use truenas_asustor_chassisd.Base.{
  ℕ, ◌≡◌, refl, Bool, true, false, not, ◌||◌, Option, none, some, List, [], ◌∷◌, ◌++◌, leb, ◌==◌,
  length, if◌then◌else◌, if-cases, Text,
}
use truenas_asustor_chassisd.Alarm.{
  Level, info, warn, error, critical, warning, degraded, failed, critical_flashing, ok,
  StatusPattern, severity, Alarm, health_pattern, new_alarm, most_critical_from, most_critical,
}
use truenas_asustor_chassisd.Health.{
  Network, network_alarm, down_names, WorstTemp, Findings, is_faulted, is_degraded, any_pool,
  listed, temp_alarm, fan_alarm, bay_texts, bay_alarm, faulted_alarm, degraded_alarm, alarms_of,
  pattern_or_ok,
}

-- The pattern that a healthy box, or a cause of this severity, shows: green, yellow, slow or solid or
-- flashing red.
unfoldable pub shown : ℕ → StatusPattern
shown n =
    if n == 0
    then ok
    else if n == 1
    then warning
    else if n == 2
    then degraded
    else if n == 3
    then failed
    else critical_flashing

-- The pattern is the one of its severity.
unfoldable pub IsShown : StatusPattern → Type 0
IsShown p = shown (severity p) ≡ p

pub AllShown : List Alarm → Type 0
AllShown [] = Unit
AllShown (a ∷ alarms) = IsShown a.pattern × AllShown alarms

AllShown-append : (xs ys : List Alarm) → AllShown xs → AllShown ys → AllShown (xs ++ ys)
unfolding AllShown
AllShown-append [] ys h k = k
AllShown-append (a ∷ xs) ys h k = (h.0, AllShown-append xs ys h.1 k)

AllShown-if : (b : Bool) (xs : List Alarm) → AllShown xs → AllShown (if b then xs else [])
unfolding AllShown
AllShown-if true xs h = h
AllShown-if false xs h = tt

from-IsShown :
    (b : Alarm) (alarms : List Alarm)
    → IsShown b.pattern
    → AllShown alarms
    → IsShown (pattern_or_ok (most_critical_from (some b) alarms))
unfolding AllShown
from-IsShown b [] h k = h
from-IsShown b (a ∷ alarms) h k =
    if-cases (λ o. IsShown (pattern_or_ok (most_critical_from o alarms)))
      (leb (severity a.pattern) (severity b.pattern)) (λ keeps. from-IsShown b alarms h k.1)
      (λ moves. from-IsShown a alarms k.0 k.1)

pub most_critical-IsShown :
    (alarms : List Alarm) → AllShown alarms → IsShown (pattern_or_ok (most_critical alarms))
unfolding most_critical AllShown IsShown shown severity
most_critical-IsShown [] h = refl
most_critical-IsShown (a ∷ alarms) h = from-IsShown a alarms h.0 h.1

new_alarm-AllShown : (l : Level) (line0 line1 : Text) → AllShown (listed (new_alarm l line0 line1))
unfolding new_alarm health_pattern AllShown IsShown shown severity
new_alarm-AllShown info line0 line1 = tt
new_alarm-AllShown warn line0 line1 = (refl, tt)
new_alarm-AllShown error line0 line1 = (refl, tt)
new_alarm-AllShown critical line0 line1 = (refl, tt)

temp_alarm-AllShown : (t : Option WorstTemp) → AllShown (listed (temp_alarm t))
unfolding temp_alarm AllShown
temp_alarm-AllShown none = tt
temp_alarm-AllShown (some t) = new_alarm-AllShown t.level _ _

bay_alarm-AllShown : (bays : List Text) → AllShown (listed (bay_alarm bays))
unfolding bay_alarm
bay_alarm-AllShown [] = new_alarm-AllShown error _ _
bay_alarm-AllShown (one ∷ []) = new_alarm-AllShown error _ _
bay_alarm-AllShown (one ∷ two ∷ more) = new_alarm-AllShown error _ _

faulted_alarm-AllShown : (pools : List (Text × Text)) → AllShown (listed (faulted_alarm pools))
unfolding faulted_alarm
faulted_alarm-AllShown pools = new_alarm-AllShown error _ _

network_alarm-AllShown : (net : Network) → AllShown (listed (network_alarm net))
unfolding network_alarm AllShown
network_alarm-AllShown net =
    let down = length (down_names net.monitored) in
    if-cases (λ a. AllShown (listed a)) (not net.enabled || (down == 0)) (λ quiet. tt)
      (λ loud.
        if-cases (λ a. AllShown (listed a)) (down == length net.monitored)
          (λ all. new_alarm-AllShown net.all_down_level _ _)
          (λ some_up. new_alarm-AllShown net.some_down_level _ _))

pub alarms_of-AllShown : (s : Findings) → AllShown (alarms_of s)
unfolding alarms_of fan_alarm degraded_alarm AllShown IsShown shown severity
alarms_of-AllShown s =
    AllShown-append (listed (temp_alarm s.worst_temp)) _ (temp_alarm-AllShown s.worst_temp) (
      AllShown-append (listed (fan_alarm s.fan_health)) _ (new_alarm-AllShown s.fan_health _ _) (
        AllShown-append _ _
          (AllShown-if (any_pool is_faulted s.pool_healths) _
            (faulted_alarm-AllShown s.pool_healths))
          (AllShown-append _ _
            (AllShown-if s.bay_failed _ (bay_alarm-AllShown (bay_texts s.failed_bays)))
            (AllShown-append (listed (network_alarm s.network)) _ (network_alarm-AllShown s.network)
              (AllShown-if (any_pool is_degraded s.pool_healths) _ (refl, tt))))))
