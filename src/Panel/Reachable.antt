-- ===== src/Panel/Reachable.antt =====
-- The invariant over ticks, and so over any history of events.
use truenas_asustor_chassisd.Base.{
  if-cases, ltb, ltb→lt, ◌+◌, ◌≡◌, refl, sym, ◌∙◌, inl, inr, true, not, ◌&&◌, Option, none, some,
  List, [], ◌∷◌, length, Option-cases,
}
use native.Mathlib.Nat.{mod-lt}
use mathlib.Core.Path.{subst}
use mathlib.Core.Bool.{and-eq-true_iff}
use truenas_asustor_chassisd.Alarm.{is_given}
use truenas_asustor_chassisd.Panel.{
  Override, is_status, Settings, World, AppState, Effect, new_state,
}
use truenas_asustor_chassisd.Panel.Leds.{
  wanted_bay, sync_leds_to_override, refresh_stale, wake, fall_asleep, expire_locates,
}
use truenas_asustor_chassisd.Panel.Flow.{take_beep}
use truenas_asustor_chassisd.Panel.Tick.{
  set_schedule_sleep_wanted, grace_active, falls_asleep, rotates, maybe_sleep, is_expired,
  expire_override, repeat_the_beep, resume_rotation, cancel_stale_confirm, confirm_is_stale, rotate,
  countdown_over, awake_steps, tick_asleep, tick_awake, tick_rest, tick,
}
use truenas_asustor_chassisd.Panel.Events.{
  Event, pressed, commanded, ticked, counting, sleep_wanted, beep_taken, step, run,
}
use truenas_asustor_chassisd.Panel.Invariant.{
  core, CoreOk, IsWellFormed, asleep_none, wake-IsWellFormed, refresh_stale-IsWellFormed,
  to_status-IsWellFormed, core-expire_locates, command-IsWellFormed,
}
use truenas_asustor_chassisd.Panel.Answering.{
  render-IsWellFormed, IndexOk-lt, handle_key-IsWellFormed, start_countdown-IsWellFormed,
}

-- The tick.
maybe_sleep-IsWellFormed :
    (s : AppState) (w : World) → IsWellFormed s → IsWellFormed (maybe_sleep s w)
unfolding maybe_sleep IsWellFormed core fall_asleep
maybe_sleep-IsWellFormed s w (h0, h1, h2, h3, h4, h5) =
    if-cases IsWellFormed (falls_asleep s w)
      (λ falls.
        let (wants, e1) = (and-eq-true_iff s.schedule_wants_sleep _).0 falls in
        let (roused, e2) = (and-eq-true_iff (not s.sleeping) _).0 e1 in
        let (late, e3) = (and-eq-true_iff (not (grace_active s w)) _).0 e2 in
        let (quiet, rest) = (and-eq-true_iff (not (is_given s.over)) _).0 e3 in
        ((rest, not_given s.over quiet), h1, h2, h3, h4, h5))
      (λ stays. (h0, h1, h2, h3, h4, h5))
  where
    not_given : (o : Option Override) → not (is_given o) ≡ true → o ≡ none
    not_given none e = refl
    not_given (some ov) e = cc

expire_override-IsWellFormed :
    (s : AppState) (w : World) → IsWellFormed s → IsWellFormed (expire_override s w)
unfolding expire_override sync_leds_to_override IsWellFormed core
expire_override-IsWellFormed s w (h0, h1, h2, h3, h4, h5) =
    if-cases IsWellFormed (is_expired w s.over)
      (λ over. (asleep_none s.sleeping s.mode s.over h0, h1, refl, tt, h4, h5))
      (λ stays. (h0, h1, h2, h3, h4, h5))

pub core-repeat_the_beep : (s : AppState) (w : World) → core (repeat_the_beep s w) ≡ core s
unfolding repeat_the_beep core
core-repeat_the_beep s w = if-cases (λ t. core t ≡ core s) _ (λ e. refl) (λ e. refl)

pub core-resume_rotation : (s : AppState) (w : World) → core (resume_rotation s w) ≡ core s
unfolding resume_rotation core
core-resume_rotation s w = if-cases (λ t. core t ≡ core s) _ (λ e. refl) (λ e. refl)

cancel_stale_confirm-IsWellFormed :
    (s : AppState) (w : World) → IsWellFormed s → IsWellFormed (cancel_stale_confirm s w)
unfolding cancel_stale_confirm
cancel_stale_confirm-IsWellFormed s w ok =
    if-cases IsWellFormed (confirm_is_stale w s.mode) (λ stale. to_status-IsWellFormed s w ok)
      (λ stays. ok)

rotate-IsWellFormed : (s : AppState) (w : World) → IsWellFormed s → IsWellFormed (rotate s w)
unfolding rotate IsWellFormed core
rotate-IsWellFormed s w (h0, h1, h2, h3, h4, h5) =
    if-cases IsWellFormed (rotates s w)
      (λ turns.
        let e1 = ((and-eq-true_iff (is_status s.mode) _).0 turns).1 in
        let e2 = ((and-eq-true_iff (not (is_given s.over)) _).0 e1).1 in
        let e3 = ((and-eq-true_iff (not (is_given s.alarm)) _).0 e2).1 in
        let e4 = ((and-eq-true_iff (not (is_given s.locate_chassis)) _).0 e3).1 in
        let e5 = ((and-eq-true_iff s.auto_rotate _).0 e4).1 in
        let some_screen =
          ltb→lt 0 (length s.screens) ((and-eq-true_iff (ltb 0 (length s.screens)) _).0 e5).0 in
        (h0, h1, h2, h3, h4, IndexOk-lt s.screens _ (mod-lt (s.index + 1) some_screen)))
      (λ stays. (h0, h1, h2, h3, h4, h5))

awake_steps-IsWellFormed :
    (s : AppState) (w : World) → IsWellFormed s → IsWellFormed (awake_steps s w)
unfolding awake_steps IsWellFormed
awake_steps-IsWellFormed s w ok =
    let s1 = refresh_stale s w in
    let s2 = expire_override s1 w in
    let s3 = repeat_the_beep s2 w in
    let s4 = resume_rotation s3 w in
    let ok2 = expire_override-IsWellFormed s1 w (refresh_stale-IsWellFormed s w ok) in
    let ok4 = subst CoreOk (sym (core-resume_rotation s3 w ∙ core-repeat_the_beep s2 w)) ok2 in
    rotate-IsWellFormed (cancel_stale_confirm s4 w) w (cancel_stale_confirm-IsWellFormed s4 w ok4)

pub before-IsWellFormed :
    (s : AppState) (w : World) → IsWellFormed s → IsWellFormed (maybe_sleep (expire_locates s w) w)
unfolding IsWellFormed
before-IsWellFormed s w ok =
    maybe_sleep-IsWellFormed (expire_locates s w) w
      (subst CoreOk (sym (core-expire_locates s w)) ok)

tick_asleep-IsWellFormed :
    (s : AppState) (w : World) → IsWellFormed s → IsWellFormed (tick_asleep s w).0
unfolding tick_asleep
tick_asleep-IsWellFormed s w ok =
    let ok' = refresh_stale-IsWellFormed s w ok in
    if-cases (λ (r : AppState × Effect). IsWellFormed r.0) _
      (λ lit. render-IsWellFormed (refresh_stale s w) w ok') (λ dark. ok')

tick_awake-IsWellFormed :
    (s : AppState) (w : World) → IsWellFormed s → IsWellFormed (tick_awake s w).0
unfolding tick_awake
tick_awake-IsWellFormed s w ok = elim (Option-cases (countdown_over w s.mode)) [
  | inl running ↦
      rw (running, tick_awake)
        (render-IsWellFormed (awake_steps s w) w (awake_steps-IsWellFormed s w ok))
  | inr (a, done) ↦ rw (done, tick_awake) (to_status-IsWellFormed s w ok)
]

tick-IsWellFormed : (s : AppState) (w : World) → IsWellFormed s → IsWellFormed (tick s w).0
unfolding tick tick_rest IsWellFormed
tick-IsWellFormed s w ok =
    let s1 = expire_locates s w in
    let s2 = maybe_sleep s1 w in
    let ok2 = before-IsWellFormed s w ok in
    if-cases (λ (r : AppState × Effect). IsWellFormed r.0)
      (not s2.schedule_wants_sleep && s2.sleeping)
      (λ wakes. render-IsWellFormed (wake s2 w) w (wake-IsWellFormed s2 w ok2))
      (λ goes_on.
        if-cases (λ (r : AppState × Effect). IsWellFormed r.0) s2.sleeping
          (λ asleep. tick_asleep-IsWellFormed s2 w ok2) (λ awake. tick_awake-IsWellFormed s2 w ok2))

-- Every event keeps the state well-formed.
pub step-IsWellFormed :
    (e : Event) (s : AppState) (w : World) → IsWellFormed s → IsWellFormed (step s w e).0
unfolding step set_schedule_sleep_wanted take_beep IsWellFormed core
step-IsWellFormed (pressed key) s w ok = handle_key-IsWellFormed key s w ok
step-IsWellFormed (commanded cmd) s w ok = command-IsWellFormed cmd s w ok
step-IsWellFormed ticked s w ok = tick-IsWellFormed s w ok
step-IsWellFormed (counting a secs why) s w ok = start_countdown-IsWellFormed s w a secs why ok
step-IsWellFormed (sleep_wanted wanted) s w ok = ok
step-IsWellFormed beep_taken s w ok = ok

run-Kept : (s : AppState) (es : List (World × Event)) → IsWellFormed s → IsWellFormed (run s es)
unfolding run
run-Kept s [] ok = ok
run-Kept s ((w, e) ∷ es) ok = run-Kept (step s w e).0 es (step-IsWellFormed e s w ok)

-- After any history of keys, messages, locates, countdowns and ticks, whatever the outside answers:
-- asleep, the panel is in no menu and shows no message; a message waits only while a menu is open; an
-- error or critical message never expires; the bay that flashes is the one that the message showing
-- asks for; and the menu's selection and the screen shown are in range.
pub run-IsWellFormed :
    (cfg : Settings) (w : World) (es : List (World × Event))
    → IsWellFormed (run (new_state cfg w) es)
unfolding new_state IsWellFormed core wanted_bay
run-IsWellFormed cfg w es = run-Kept (new_state cfg w) es (tt, refl, refl, tt, tt, refl)
