-- ===== src/Monitor/Tests.antt =====
-- The monitor at concrete sweeps, temperatures in whole degrees.
use truenas_asustor_chassisd.Base.{ℕ, ◌≡◌, refl, List, [], ◌∷◌}
use truenas_asustor_chassisd.Float.Degrees.{degrees}
use truenas_asustor_chassisd.CpuPower.{Reading, TemperatureConfig, resolve_temp_threshold}
use truenas_asustor_chassisd.Panel.{failed_bay, normal}
use truenas_asustor_chassisd.Monitor.{
  temp_critical, temp_warn, temp_normal, pool_degraded, pool_online, bay_failed, bay_recovered,
  check_pools, pool_lines, check_bays, bay_lines, check_temps, note_temps, note_temp, temp_lines,
}
use truenas_asustor_chassisd.Monitor.Following.{
  lines_about, told_all, prev_level, own_sweeps, run_temps, run_temps-told_all,
}

abbrev config : TemperatureConfig ℕ
config = record { thresholds = []; warn_threshold = 60; critical_threshold = 80 }

abbrev cpu : ℕ → Reading ℕ
cpu c = record { chip = "coretemp"; label = "cpu"; celsius = c }

abbrev disk : ℕ → Reading ℕ
disk c = record { chip = "drivetemp"; label = "disk"; celsius = c }

abbrev history : List (List (Reading ℕ))
history =
    (cpu 50 ∷ disk 90 ∷ [])
    ∷ (cpu 70 ∷ disk 90 ∷ [])
    ∷ (disk 50 ∷ [])
    ∷ (cpu 70 ∷ disk 50 ∷ [])
    ∷ (cpu 71 ∷ [])
    ∷ (cpu 40 ∷ [])
    ∷ []

logged :
    run_temps degrees config [] history
    ≡ temp_critical "disk"
      ∷ temp_warn "cpu"
      ∷ temp_normal "disk"
      ∷ temp_warn "cpu"
      ∷ temp_normal "cpu"
      ∷ []
unfolding run_temps check_temps note_temps note_temp temp_lines resolve_temp_threshold
logged = refl

pools :
    (check_pools []
      (("a", "ONLINE") ∷ ("a", "DEGRADED") ∷ ("a", "DEGRADED") ∷ ("a", "ONLINE") ∷ [])).1
    ≡ pool_degraded "a" ∷ pool_online "a" "DEGRADED" ∷ []
unfolding check_pools pool_lines
pools = refl

bays :
    (check_bays [] ((1, failed_bay) ∷ (2, normal) ∷ (1, failed_bay) ∷ (1, normal) ∷ [])).1
    ≡ bay_failed 1 ∷ bay_recovered 1 ∷ []
unfolding check_bays bay_lines
bays = refl

run_temps-told_all_example :
    lines_about "cpu" (run_temps degrees config [] history)
    ≡ told_all "cpu" (prev_level degrees "cpu" []) (own_sweeps degrees config "cpu" history)
run_temps-told_all_example = run_temps-told_all degrees config "cpu" [] history
