-- ===== src/CpuPower/Tests.antt =====
-- The power guard at concrete samples, with whole degrees for temperatures.
use truenas_asustor_chassisd.Base.{
  ℕ, ◌-◌, ◌≤◌, ◌≡◌, ◌⊎◌, refl, true, false, Option, none, some, List, [], ◌∷◌, arith,
}
use truenas_asustor_chassisd.Float.Degrees.{degrees}
use truenas_asustor_chassisd.CpuPower.{
  Guard, cool, TemperatureConfig, Reading, CpuPowerConfig, Limits, write_plan, ZoneAnswers,
  writes_of, write_all, zone_write, configured, stock, guard_mode, critical, observe,
  new_controller, limits, tick, resolve_temp_threshold,
}
use truenas_asustor_chassisd.CpuPower.Guarding.{guard_mode-configured}
use truenas_asustor_chassisd.CpuPower.Writing.{StaysOrdered, zone_write-StaysOrdered}

abbrev temps : TemperatureConfig ℕ
temps = record {
  thresholds = record { chip = "coretemp"; warn_threshold = 90; critical_threshold = 100 } ∷ [];
  warn_threshold = 60;
  critical_threshold = 70;
}

abbrev cpu_at : ℕ → Option (List (Reading ℕ))
cpu_at t = some (record { chip = "coretemp"; label = "Package"; celsius = t } ∷ [])

abbrev now_cool : List (ℕ × Option (List (Reading ℕ)))
now_cool = (100, cpu_at 80) ∷ (50, cpu_at 101) ∷ []

abbrev held : Guard
held = record { rearm = 300; is_tripped = true; cool_since = some 100 }

guard_mode-configured_example :
    (critical degrees temps (cpu_at 70) ≡ none)
    × ((guard_mode held ≡ configured)
        ⊎ ((cool degrees temps (cpu_at 70) ≡ true) × (300 ≤ 400 - 100)))
unfolding observe resolve_temp_threshold guard_mode
guard_mode-configured_example = guard_mode-configured degrees temps held 400 (cpu_at 70) refl

abbrev low : Limits
low = record { pl1_uw = 6; pl2_uw = 10; tau_us = 28 }

abbrev high : Limits
high = record { pl1_uw = 15; pl2_uw = 20; tau_us = 100 }

-- The second of the three writes fails.
abbrev breaking : ZoneAnswers
breaking = record {
  layout_problem = none;
  cur_pl2 = some 10;
  accepts = true ∷ false ∷ [];
  limits_read = none;
  io_problem = "I/O error";
}

abbrev accepting : ZoneAnswers
accepting = record breaking { accepts = true ∷ true ∷ true ∷ [] }

zone_write-StaysOrdered_example : StaysOrdered low (writes_of (zone_write breaking high))
zone_write-StaysOrdered_example =
    zone_write-StaysOrdered breaking low high refl (omega arith) (omega arith)

abbrev config : CpuPowerConfig
config = record {
  pl1_w = 15;
  pl2_w = 20;
  tau_secs = 100;
  stock_pl1_w = 6;
  stock_pl2_w = 10;
  stock_tau_secs = 28;
  rearm_secs = 300;
}

-- Critical at the first tick: the stock limits are written, and the configured ones never were.
first_tick_critical :
    let (c, ws) = tick degrees (new_controller config) 0 (cpu_at 101) temps accepting in
    (c.applied ≡ some stock) × (ws ≡ write_plan 10 (limits (new_controller config) stock))
unfolding tick new_controller observe resolve_temp_threshold guard_mode zone_write write_all
    write_plan limits
first_tick_critical = (refl, refl)

-- The kernel's rounding of 28 s.
