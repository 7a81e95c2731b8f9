-- ===== src/Fan/Tests.antt =====
-- The fan controller at concrete sensors, with whole degrees for temperatures.
use truenas_asustor_chassisd.Base.{
  ℕ, ◌≡◌, refl, ◌↔◌, inl, inr, true, false, none, some, List, [], ◌∷◌, arith,
}
use truenas_asustor_chassisd.Alarm.{critical}
use truenas_asustor_chassisd.Float.Degrees.{degrees}
use truenas_asustor_chassisd.Fan.{
  Timing, curve, FanProfile, SensorFeed, FanController, FanWorld, track_feed, update, health_level,
}
use truenas_asustor_chassisd.Fan.Sensing.{
  aimed_after, Latched, aimed_after-Latched, Samples, feed_after, reading, silent-Held, Released,
  held-Released,
}
use truenas_asustor_chassisd.Fan.Stalling.{stalled_plans, stalled_critical}

abbrev timing : Timing
timing = record {
  sensor_loss_grace = 10;
  sensor_recovery_hold = 30;
  control_warn_after = 30;
  control_critical_after = 180;
  sensor_takeover_after = 30;
}

abbrev cpu : SensorFeed ℕ
cpu = record {
  min_temp_c = none;
  max_temp_c = none;
  warn_threshold = 90;
  critical_threshold = 100;
  sample_at = some 0;
  sample_value = some 60;
  max_age = 10;
  ever_read = false;
  lost_since = none;
  held = false;
  back_since = none;
}

abbrev profile : FanProfile ℕ
profile = record {
  enabled = true;
  disabled_by_config = false;
  mode = curve;
  fixed_pwm = none;
  update_secs = 2;
  min_temp_c = 45;
  max_temp_c = 90;
  min_start_pwm = 60;
  min_stop_pwm = 55;
  min_pwm = 50;
  max_pwm = 255;
  has_tach = true;
  min_expected_rpm = none;
}

abbrev fan : FanController ℕ
fan = record {
  profile = profile;
  hwmon = some "/sys/class/hwmon/hwmon3";
  last_pwm = some 80;
  kick_until = none;
  feeds = cpu ∷ [];
  timing = timing;
  critical_override = false;
  last_tick = none;
  ever_ran_normally = true;
  consecutive_stalls = 0;
  low_rpm_warned = false;
  sensors_lost = false;
  any_sensor_read = true;
  started = 0;
  control_loss = none;
  no_sensor_critical_logged = false;
}

abbrev world : FanWorld ℕ
world = record {
  now = 5;
  found = some "/sys/class/hwmon/hwmon3";
  tach = some 900;
  manual_ok = true;
  pwm_ok = true;
}

-- 60 degrees on a curve from 45 to 90.
writes : (update degrees fan world).1 ≡ some 121
unfolding update
writes = refl

-- Critical, then warm: the override stays on.
abbrev hot_then_warm : List (List (SensorFeed ℕ × ℕ))
hot_then_warm = ((cpu, 95) ∷ []) ∷ ((cpu, 101) ∷ []) ∷ []

aimed_after-Latched_example :
    ((aimed_after degrees fan hot_then_warm).critical_override ≡ true)
    ↔ Latched degrees fan hot_then_warm
aimed_after-Latched_example = aimed_after-Latched degrees fan hot_then_warm

-- Read at 10, silent at 12 and at 25.
abbrev silence : Samples degrees
silence = ((none, none), 12) ∷ ((some 10, some 60), 10) ∷ []

silent-Held_example : (feed_after degrees timing cpu (((none, none), 25) ∷ silence)).held ≡ true
unfolding feed_after reading track_feed
silent-Held_example =
    silent-Held degrees timing cpu 12 25 (none, none) silence
      (refl, inr (refl, inl (refl, (λ e. cc)))) (omega arith)

-- And back from 30 on.
abbrev back : Samples degrees
back = ((some 30, some 60), 30) ∷ ((none, none), 25) ∷ silence

held-Released_example :
    Released degrees timing cpu
      (((some 61, some 60), 61) ∷ back)
      (feed_after degrees timing cpu (((some 61, some 60), 61) ∷ back))
unfolding feed_after track_feed
held-Released_example = held-Released degrees timing cpu (some 61, some 60) 61 back refl refl

stalled_critical_example :
    health_level degrees (stalled_plans degrees 3 fan 100 (some 0)) 50 ≡ critical
stalled_critical_example =
    stalled_critical degrees 3 fan 100 (some 0) 50 (omega arith) (omega arith) refl refl refl
