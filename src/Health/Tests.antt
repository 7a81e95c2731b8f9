-- ===== src/Health/Tests.antt =====
-- The health summary of concrete findings.
use truenas_asustor_chassisd.Base.{◌≡◌, refl, true, false, some, [], ◌∷◌, codes}
use truenas_asustor_chassisd.Alarm.{
  info, warn, error, degraded, failed, severity, most_critical, new_alarm, health_pattern,
}
use truenas_asustor_chassisd.Health.{
  Network, Findings, health_summary, alarms_of, temp_alarm, fan_alarm, bay_alarm, faulted_alarm,
  degraded_alarm, network_alarm, level_word, short_chip_name,
}
use truenas_asustor_chassisd.Health.Shown.{shown}
use truenas_asustor_chassisd.Health.Worst.{worst_cause, health_summary-worst_cause}

abbrev network : Network
network = record {
  enabled = true;
  monitored =
      record { name = codes "eth0"; is_down = true }
      ∷ record { name = codes "eth1"; is_down = false }
      ∷ [];
  all_down_level = error;
  some_down_level = warn;
}

abbrev findings : Findings
findings = record {
  pool_healths = (codes "tank", codes "DEGRADED") ∷ (codes "boot", codes "ONLINE") ∷ [];
  worst_temp = some (record { level = warn; chip = codes "nvme"; reading = codes "71C" });
  fan_health = info;
  bay_failed = false;
  failed_bays = [];
  network = network;
}

pattern : (health_summary findings).pattern ≡ degraded
unfolding health_summary alarms_of temp_alarm fan_alarm bay_alarm faulted_alarm degraded_alarm
    network_alarm most_critical new_alarm health_pattern severity level_word short_chip_name
pattern = refl

with_a_failed_bay : (health_summary (record findings { bay_failed = true })).pattern ≡ failed
unfolding health_summary alarms_of temp_alarm fan_alarm bay_alarm faulted_alarm degraded_alarm
    network_alarm most_critical new_alarm health_pattern severity level_word short_chip_name
with_a_failed_bay = refl

health_summary-worst_cause_example :
    (severity (health_summary findings).pattern ≡ worst_cause findings)
    × ((health_summary findings).pattern ≡ shown (worst_cause findings))
health_summary-worst_cause_example = health_summary-worst_cause findings
