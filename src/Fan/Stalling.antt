-- ===== src/Fan/Stalling.antt =====
-- src/fan.rs: a fan that does not turn although it is driven.
use truenas_asustor_chassisd.Base.{
  ℕ, zero, suc, ◌+◌, ◌≤◌, ◌≡◌, ◌≢◌, ap, ◌∙◌, true, false, Option, ltb, leb, ◌==◌, arith,
}
use truenas_asustor_chassisd.Alarm.{critical}
use truenas_asustor_chassisd.Float.{F32}
use truenas_asustor_chassisd.Fan.{
  FanController, pwm_or, stands_still, plan, kick, health_level, unresponsive_after_stalls,
}

module _ (f : F32) where
  -- `n` plans in a row, each with the tachometer at rest.
  unfoldable pub stalled_plans :
      ℕ → FanController (f.Value) → ℕ → Option (f.Value) → FanController (f.Value)
  stalled_plans zero c target rpm = c
  stalled_plans (suc n) c target rpm = stalled_plans n (plan f c target rpm).0 target rpm

  plan_stalled :
      (c : FanController (f.Value)) (target : ℕ) (rpm : Option (f.Value))
      → target ≢ 0
      → ltb 0 (pwm_or f c.last_pwm 0) ≡ true
      → stands_still f rpm ≡ true
      → plan f c target rpm
        ≡ (record c { consecutive_stalls = c.consecutive_stalls + 1 }, kick c.profile.min_start_pwm)
  unfolding plan
  plan_stalled c target rpm spin driven still =
      let wanted : (target == 0) ≡ false = ground arith in simp (wanted, driven, still, plan)

  stalled_plans_eq :
      (n : ℕ) (c : FanController (f.Value)) (target : ℕ) (rpm : Option (f.Value))
      → target ≢ 0
      → ltb 0 (pwm_or f c.last_pwm 0) ≡ true
      → stands_still f rpm ≡ true
      → stalled_plans n c target rpm ≡ record c { consecutive_stalls = n + c.consecutive_stalls }
  unfolding stalled_plans
  stalled_plans_eq zero c target rpm spin driven still =
      ap (λ k. record c { consecutive_stalls = k }) (omega arith)
  stalled_plans_eq (suc n) c target rpm spin driven still =
      let once = record c { consecutive_stalls = c.consecutive_stalls + 1 } in
      ap (λ r. stalled_plans n r.0 target rpm) (plan_stalled c target rpm spin driven still)
      ∙ stalled_plans_eq n once target rpm spin driven still
      ∙ ap (λ k. record c { consecutive_stalls = k }) (omega arith)

  -- A fan that is driven, wanted to turn and at rest by its tachometer is critical after three plans
  -- in a row or more, unless it is disabled in the configuration.
  pub stalled_critical :
      (n : ℕ) (c : FanController (f.Value)) (target : ℕ) (rpm : Option (f.Value)) (now : ℕ)
      → 3 ≤ n
      → target ≢ 0
      → ltb 0 (pwm_or f c.last_pwm 0) ≡ true
      → stands_still f rpm ≡ true
      → c.profile.disabled_by_config ≡ false
      → health_level f (stalled_plans n c target rpm) now ≡ critical
  unfolding health_level
  stalled_critical n c target rpm now many spin driven still enabled =
      let enough : leb unresponsive_after_stalls (n + c.consecutive_stalls) ≡ true = ground arith in
      rw (stalled_plans_eq n c target rpm spin driven still) (simp (enabled, enough, health_level))
