-- ===== src/Fan/Driving.antt =====
-- src/fan.rs, `update`: what reaches the fan.
use truenas_asustor_chassisd.Base.{ℕ, ◌≡◌, ◌≢◌, ◌⊎◌, Bool, true, false, Option, none, some}
use truenas_asustor_chassisd.Float.{F32}
use truenas_asustor_chassisd.Fan.{
  FanController, FanWorld, PwmCommand, pwm_of, is_mid_kick, any_held,
}

module _ (f : F32) where
  -- A write of `n` while a sensor holds the fan, or a critical temperature does, is full speed, or the
  -- kick of a fan that stands still.
  abbrev pub Safe : FanController (f.Value) → ℕ → Type 0
  Safe c n =
      (n ≡ c.profile.max_pwm)
      ⊎ (n ≡ c.profile.min_start_pwm)
      ⊎ ((any_held f c.feeds ≡ false) × (c.critical_override ≡ false))

  -- What one update leaves: a write that went through, after which the fan is under control; or none,
  -- of a disabled fan, of one that cannot be driven and is noted as lost, of one that was never taken
  -- over and is given time, or in the middle of a kick.
  abbrev pub Updated :
      FanController (f.Value) → FanWorld (f.Value) → FanController (f.Value) × Option ℕ → Type 0
  Updated c w (c', some n) = (c'.last_pwm ≡ some n) × (c'.control_loss ≡ none) × Safe c' n
  Updated c w (c', none) =
      (c.profile.enabled ≡ false)
      ⊎ (c'.control_loss ≢ none)
      ⊎ (c'.last_pwm ≡ none)
      ⊎ (is_mid_kick f c.kick_until w.now ≡ true)

  -- A target is full speed while the fan is held.
  abbrev Aimed : FanController (f.Value) × Option ℕ → Type 0
  Aimed (c, none) = Unit
  Aimed (c, some n) =
      (n ≡ c.profile.max_pwm) ⊎ ((any_held f c.feeds ≡ false) × (c.critical_override ≡ false))

  unfoldable IsPlannedSafe : FanController (f.Value) × PwmCommand → Type 0
  IsPlannedSafe r = Safe r.0 (pwm_of f r.1)
