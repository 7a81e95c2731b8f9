-- ===== src/Health/Worst.antt =====
-- src/state.rs, `health_summary`: the pattern against the causes.
use truenas_asustor_chassisd.Base.{
  ℕ, max, ◌≡◌, refl, sym, ap, ◌∙◌, Bool, true, false, not, ◌||◌, Option, none, some, List, [], ◌∷◌,
  ◌++◌, leb, ◌==◌, length, if◌then◌else◌, if-cases, arith, Text, Bool-cases, inl, inr,
}
use truenas_asustor_chassisd.Alarm.{
  Level, info, warn, error, critical, warning, degraded, failed, critical_flashing, severity, Alarm,
  health_pattern, new_alarm, most_critical_from, most_critical,
}
use truenas_asustor_chassisd.Health.{
  Network, network_alarm, down_names, WorstTemp, Findings, is_faulted, is_degraded, any_pool,
  listed, temp_level_of, temp_alarm, fan_alarm, bay_texts, bay_alarm, faulted_alarm, degraded_alarm,
  alarms_of, pattern_or_ok, health_summary,
}
use truenas_asustor_chassisd.Health.Shown.{
  shown, IsShown, most_critical-IsShown, alarms_of-AllShown,
}

-- How severe the LED pattern of a health level is.
unfoldable pub level_severity : Level → ℕ
unfolding severity
level_severity info = 0
level_severity warn = severity warning
level_severity error = severity failed
level_severity critical = severity critical_flashing

-- With all monitored links down, some or none.
unfoldable pub network_severity : Network → ℕ
unfolding level_severity
network_severity net =
    let down = length (down_names net.monitored) in
    if not net.enabled || (down == 0)
    then 0
    else if down == length net.monitored
    then level_severity net.all_down_level
    else level_severity net.some_down_level

-- The most severe of the causes, each by itself.
unfoldable pub worst_cause : Findings → ℕ
unfolding level_severity network_severity severity
worst_cause s = max (level_severity (temp_level_of s.worst_temp)) (
    max (level_severity s.fan_health) (
      max (if any_pool is_faulted s.pool_healths then severity failed else 0) (
        max (if s.bay_failed then severity failed else 0) (
          max (network_severity s.network)
            (if any_pool is_degraded s.pool_healths then severity degraded else 0)))))

worst : List Alarm → ℕ
worst [] = 0
worst (a ∷ alarms) = max (severity a.pattern) (worst alarms)

worst-append : (xs ys : List Alarm) → worst (xs ++ ys) ≡ max (worst xs) (worst ys)
unfolding worst
worst-append [] ys = omega arith
worst-append (a ∷ xs) ys = omega (arith, worst-append xs ys)

from-worst :
    (b : Alarm) (alarms : List Alarm)
    → severity (pattern_or_ok (most_critical_from (some b) alarms))
      ≡ max (severity b.pattern) (worst alarms)
unfolding worst
from-worst b [] = omega arith
from-worst b (a ∷ alarms) =
    if-cases
      (λ o.
        severity (pattern_or_ok (most_critical_from o alarms))
        ≡ max (severity b.pattern) (max (severity a.pattern) (worst alarms)))
      (leb (severity a.pattern) (severity b.pattern)) (λ keeps. ground (arith, from-worst b alarms))
      (λ moves. ground (arith, from-worst a alarms))

most_critical-worst :
    (alarms : List Alarm) → severity (pattern_or_ok (most_critical alarms)) ≡ worst alarms
unfolding most_critical worst severity
most_critical-worst [] = refl
most_critical-worst (a ∷ alarms) = from-worst a alarms

new_alarm-worst :
    (l : Level) (line0 line1 : Text) → worst (listed (new_alarm l line0 line1)) ≡ level_severity l
unfolding new_alarm health_pattern level_severity worst severity
new_alarm-worst info line0 line1 = refl
new_alarm-worst warn line0 line1 = refl
new_alarm-worst error line0 line1 = refl
new_alarm-worst critical line0 line1 = refl

temp_alarm-worst :
    (t : Option WorstTemp) → worst (listed (temp_alarm t)) ≡ level_severity (temp_level_of t)
unfolding temp_alarm worst level_severity
temp_alarm-worst none = refl
temp_alarm-worst (some t) = new_alarm-worst t.level _ _

fan_alarm-worst : (l : Level) → worst (listed (fan_alarm l)) ≡ level_severity l
unfolding fan_alarm
fan_alarm-worst l = new_alarm-worst l _ _

bay_alarm-worst : (bays : List Text) → worst (listed (bay_alarm bays)) ≡ severity failed
unfolding bay_alarm severity level_severity
bay_alarm-worst [] = new_alarm-worst error _ _
bay_alarm-worst (one ∷ []) = new_alarm-worst error _ _
bay_alarm-worst (one ∷ two ∷ more) = new_alarm-worst error _ _

faulted_alarm-worst :
    (pools : List (Text × Text)) → worst (listed (faulted_alarm pools)) ≡ severity failed
unfolding faulted_alarm severity level_severity
faulted_alarm-worst pools = new_alarm-worst error _ _

network_alarm-worst : (net : Network) → worst (listed (network_alarm net)) ≡ network_severity net
unfolding network_alarm network_severity worst
network_alarm-worst net =
    elim (Bool-cases (not net.enabled || (length (down_names net.monitored) == 0))) [
      | inl quiet ↦ rw quiet refl
      | inr loud ↦
          rw loud (elim (Bool-cases (length (down_names net.monitored) == length net.monitored)) [
            | inl all ↦ rw all (new_alarm-worst net.all_down_level _ _)
            | inr some_up ↦ rw some_up (new_alarm-worst net.some_down_level _ _)
          ])
    ]

worst-if :
    (b : Bool) (xs : List Alarm) {n : ℕ}
    → worst xs ≡ n
    → worst (if b then xs else []) ≡ (if b then n else 0)
unfolding worst
worst-if true xs h = h
worst-if false xs h = refl

degraded_alarm-worst :
    (pools : List (Text × Text)) → worst (degraded_alarm pools ∷ []) ≡ severity degraded
unfolding worst degraded_alarm severity
degraded_alarm-worst pools = refl

alarms_of-worst : (s : Findings) → worst (alarms_of s) ≡ worst_cause s
unfolding alarms_of worst_cause
alarms_of-worst s =
    let temp = listed (temp_alarm s.worst_temp) in
    let fan = listed (fan_alarm s.fan_health) in
    let faulted =
      if any_pool is_faulted s.pool_healths then listed (faulted_alarm s.pool_healths) else [] in
    let bays = if s.bay_failed then listed (bay_alarm (bay_texts s.failed_bays)) else [] in
    let net = listed (network_alarm s.network) in
    let pools =
      if any_pool is_degraded s.pool_healths then degraded_alarm s.pool_healths ∷ [] else [] in
    omega (
      arith,
      worst-append temp (fan ++ (faulted ++ (bays ++ (net ++ pools)))),
      worst-append fan (faulted ++ (bays ++ (net ++ pools))),
      worst-append faulted (bays ++ (net ++ pools)),
      worst-append bays (net ++ pools),
      worst-append net pools,
      temp_alarm-worst s.worst_temp,
      fan_alarm-worst s.fan_health,
      worst-if (any_pool is_faulted s.pool_healths) (listed (faulted_alarm s.pool_healths))
          (faulted_alarm-worst s.pool_healths),
      worst-if s.bay_failed (listed (bay_alarm (bay_texts s.failed_bays)))
          (bay_alarm-worst (bay_texts s.failed_bays)),
      network_alarm-worst s.network,
      worst-if (any_pool is_degraded s.pool_healths) (degraded_alarm s.pool_healths ∷ [])
          (degraded_alarm-worst s.pool_healths),
    )

-- The LED pattern of the summary is as severe as the most severe of the causes, each by itself: the worst
-- temperature, the fan, a faulted pool, a failed drive, the links that are down, a degraded pool. And it
-- is the pattern of that severity: green without any cause, else the one of a warning, of a degraded
-- pool, of a failure, or the flashing one of a critical cause. So no cause is hidden by the others.
pub health_summary-worst_cause :
    (s : Findings)
    → (severity (health_summary s).pattern ≡ worst_cause s)
      × ((health_summary s).pattern ≡ shown (worst_cause s))
unfolding health_summary IsShown
health_summary-worst_cause s =
    let worst : severity (health_summary s).pattern ≡ worst_cause s =
      most_critical-worst (alarms_of s) ∙ alarms_of-worst s in
    (worst, sym (most_critical-IsShown (alarms_of s) (alarms_of-AllShown s)) ∙ ap shown worst)
