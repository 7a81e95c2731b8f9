-- ===== src/Alarm/Tests.antt =====
-- Picking among concrete alarms.
use truenas_asustor_chassisd.Base.{◌≡◌, refl, [], ◌∷◌, some, codes}
use truenas_asustor_chassisd.Alarm.{
  Alarm, warn, error, warning, degraded, failed, severity, most_critical,
}
use truenas_asustor_chassisd.Alarm.Severity.{IsMostCritical, most_critical-IsMostCritical}

abbrev warm : Alarm
warm = record { level = warn; pattern = warning; line0 = codes "warm"; line1 = [] }

abbrev pool : Alarm
pool = record { level = warn; pattern = degraded; line0 = codes "pool"; line1 = [] }

abbrev disk : Alarm
disk = record { level = error; pattern = failed; line0 = codes "disk"; line1 = [] }

abbrev other : Alarm
other = record { level = error; pattern = failed; line0 = codes "other"; line1 = [] }

ties : most_critical (warm ∷ disk ∷ pool ∷ other ∷ []) ≡ some disk
unfolding most_critical severity
ties = refl

most_critical-IsMostCritical_example :
    IsMostCritical (warm ∷ disk ∷ other ∷ []) (most_critical (warm ∷ disk ∷ other ∷ []))
most_critical-IsMostCritical_example = most_critical-IsMostCritical (warm ∷ disk ∷ other ∷ [])
