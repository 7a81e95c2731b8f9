-- ===== src/Panel/Lasting.antt =====
-- An error or critical message over a tick.
use truenas_asustor_chassisd.Base.{
  ◌≢◌, if-cases, ℕ, ◌≤◌, ◌≡◌, refl, sym, ap, ◌∙◌, inl, inr, false, not, ◌&&◌, Option, none, some,
  List, [], ◌∷◌, arith, Option-cases,
}
use mathlib.Core.Path.{subst}
use truenas_asustor_chassisd.Alarm.{is_given, Level, always_visible, rank}
use truenas_asustor_chassisd.Panel.{Override, status, World, AppState, Effect}
use truenas_asustor_chassisd.Panel.Leds.{
  sync_leds_to_override, take_screens, refresh_stale, wake, fall_asleep, expire_locates,
}
use truenas_asustor_chassisd.Panel.Screen.{render}
use truenas_asustor_chassisd.Panel.Flow.{
  outranked, install_override, show_override, apply_pending_override, to_status, clear_cmd,
}
use truenas_asustor_chassisd.Panel.Tick.{
  falls_asleep, rotates, maybe_sleep, is_expired, expire_override, repeat_the_beep, resume_rotation,
  cancel_stale_confirm, confirm_is_stale, rotate, countdown_over, awake_steps, tick_asleep,
  tick_awake, tick_rest, tick,
}
use truenas_asustor_chassisd.Panel.Events.{Event, commanded}
use truenas_asustor_chassisd.Panel.Answering.{core-render}
use truenas_asustor_chassisd.Panel.Reachable.{
  core-repeat_the_beep, core-resume_rotation, before-IsWellFormed,
}
use truenas_asustor_chassisd.Panel.Invariant.{
  core-refresh_leds, core, Lasts, IsWellFormed, refresh_stale-IsWellFormed, core-expire_locates,
}

-- A message of rank `n` or more is showing.
abbrev pub AtLeast : ℕ → Option Override → Type 0
AtLeast n none = ⊥
AtLeast n (some o) = n ≤ rank o.level

abbrev pub IsOther : Event → Type 0
IsOther (commanded (clear_cmd bay)) = ⊥
IsOther e = Unit

abbrev pub NoClear : List (World × Event) → Type 0
NoClear [] = Unit
NoClear ((w, e) ∷ es) = IsOther e × NoClear es

pub same_over : (n : ℕ) (s t : AppState) → core t ≡ core s → AtLeast n s.over → AtLeast n t.over
unfolding core
same_over n s t e h = subst (AtLeast n) (ap (λ c. c.over) (sym e)) h

over-refresh_stale : (s : AppState) (w : World) → (refresh_stale s w).over ≡ s.over
unfolding refresh_stale core
over-refresh_stale s w =
    ap (λ c. c.over) (core-refresh_leds w.disks_due w.inputs_new (take_screens s w) w)

outranked-AtLeast :
    (n : ℕ) (o : Option Override) (ov : Override)
    → outranked o ov ≡ false
    → AtLeast n o
    → AtLeast n (some ov)
outranked-AtLeast n none ov e h = absurd h
outranked-AtLeast n (some o) ov e h = ground arith

pub show_override-AtLeast :
    (n : ℕ) (s : AppState) (w : World) (ov : Override)
    → AtLeast n s.over
    → AtLeast n (show_override s w ov).over
unfolding show_override install_override sync_leds_to_override
show_override-AtLeast n s w ov h =
    let kept : AppState → Type 0 = λ t. AtLeast n t.over in
    if-cases kept (outranked s.over ov) (λ low. h)
      (λ high.
        let replaced = outranked-AtLeast n s.over ov high h in
        if-cases kept s.sleeping
          (λ asleep.
            if-cases kept (not (always_visible ov.level)) (λ routine. h) (λ urgent. replaced))
          (λ awake. replaced))

pub to_status-AtLeast :
    (n : ℕ) (s : AppState) (w : World) → AtLeast n s.over → AtLeast n (to_status s w).over
unfolding to_status apply_pending_override
to_status-AtLeast n s w h = elim (Option-cases s.pending_over) [
  | inl nothing_held ↦ rw (nothing_held, apply_pending_override) h
  | inr (ov, held) ↦
      rw (held, apply_pending_override)
        (show_override-AtLeast n (record s { mode = status; pending_over = none }) w ov h)
]

routine_low : (l : Level) → 2 ≤ rank l → always_visible l ≢ false
unfolding always_visible
routine_low l high e = ground arith

-- An error or critical message does not expire.
not_expired :
    (n : ℕ) (w : World) (o : Option Override)
    → 2 ≤ n
    → AtLeast n o
    → Lasts o
    → is_expired w o ≡ false
not_expired n w none urgent h lasts = absurd h
not_expired n w (some ov) urgent h (inl routine) =
    absurd (routine_low ov.level (omega arith) routine)
not_expired n w (some ov) urgent h (inr never) = rw never refl

expire_override-AtLeast :
    (n : ℕ) (s : AppState) (w : World)
    → 2 ≤ n
    → IsWellFormed s
    → AtLeast n s.over
    → AtLeast n (expire_override s w).over
unfolding expire_override IsWellFormed core
expire_override-AtLeast n s w urgent (h0, h1, h2, lasts, h4, h5) h =
    rw (not_expired n w s.over urgent h lasts, expire_override) h

rotate-AtLeast : (n : ℕ) (s : AppState) (w : World) → AtLeast n s.over → AtLeast n (rotate s w).over
unfolding rotate
rotate-AtLeast n s w h =
    if-cases (λ (t : AppState). AtLeast n t.over) (rotates s w) (λ e. h) (λ e. h)

awake_steps-AtLeast :
    (n : ℕ) (s : AppState) (w : World)
    → 2 ≤ n
    → IsWellFormed s
    → AtLeast n s.over
    → AtLeast n (awake_steps s w).over
unfolding awake_steps cancel_stale_confirm
awake_steps-AtLeast n s w urgent ok h =
    let s1 = refresh_stale s w in
    let s2 = expire_override s1 w in
    let s3 = repeat_the_beep s2 w in
    let s4 = resume_rotation s3 w in
    let ok1 = refresh_stale-IsWellFormed s w ok in
    let h1 = subst (AtLeast n) (sym (over-refresh_stale s w)) h in
    let h2 = expire_override-AtLeast n s1 w urgent ok1 h1 in
    let h4 = same_over n s2 s4 (core-resume_rotation s3 w ∙ core-repeat_the_beep s2 w) h2 in
    rotate-AtLeast n (cancel_stale_confirm s4 w) w (
      if-cases (λ (t : AppState). AtLeast n t.over) (confirm_is_stale w s4.mode)
        (λ stale. to_status-AtLeast n s4 w h4) (λ stays. h4))

pub render-AtLeast :
    (n : ℕ) (s : AppState) (w : World) → AtLeast n s.over → AtLeast n (render s w).0.over
render-AtLeast n s w h = same_over n s (render s w).0 (core-render s w) h

pub wake-AtLeast : (n : ℕ) (s : AppState) (w : World) → AtLeast n s.over → AtLeast n (wake s w).over
unfolding wake
wake-AtLeast n s w h = h

before-AtLeast :
    (n : ℕ) (s : AppState) (w : World)
    → AtLeast n s.over
    → AtLeast n (maybe_sleep (expire_locates s w) w).over
unfolding maybe_sleep fall_asleep
before-AtLeast n s w h =
    let h1 = same_over n s (expire_locates s w) (core-expire_locates s w) h in
    if-cases (λ (t : AppState). AtLeast n t.over) (falls_asleep (expire_locates s w) w) (λ e. h1)
      (λ e. h1)

tick_awake-AtLeast :
    (n : ℕ) (s : AppState) (w : World)
    → 2 ≤ n
    → IsWellFormed s
    → AtLeast n s.over
    → AtLeast n (tick_awake s w).0.over
unfolding tick_awake
tick_awake-AtLeast n s w urgent ok h = elim (Option-cases (countdown_over w s.mode)) [
  | inl running ↦
      rw (running, tick_awake)
        (render-AtLeast n (awake_steps s w) w (awake_steps-AtLeast n s w urgent ok h))
  | inr (a, done) ↦ rw (done, tick_awake) (to_status-AtLeast n s w h)
]

pub tick-AtLeast :
    (n : ℕ) (s : AppState) (w : World)
    → 2 ≤ n
    → IsWellFormed s
    → AtLeast n s.over
    → AtLeast n (tick s w).0.over
unfolding tick tick_rest tick_asleep
tick-AtLeast n s w urgent ok h =
    let s' = maybe_sleep (expire_locates s w) w in
    let h' = before-AtLeast n s w h in
    let ok' = before-IsWellFormed s w ok in
    let kept : AppState × Effect → Type 0 = λ r. AtLeast n r.0.over in
    if-cases kept (not s'.schedule_wants_sleep && s'.sleeping)
      (λ wakes. render-AtLeast n (wake s' w) w (wake-AtLeast n s' w h'))
      (λ goes_on.
        if-cases kept s'.sleeping
          (λ asleep.
            let h1 = subst (AtLeast n) (sym (over-refresh_stale s' w)) h' in
            if-cases kept (is_given (refresh_stale s' w).locate_chassis)
              (λ lit. render-AtLeast n (refresh_stale s' w) w h1) (λ dark. h1))
          (λ awake. tick_awake-AtLeast n s' w urgent ok' h'))
