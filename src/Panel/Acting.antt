-- ===== src/Panel/Acting.antt =====
-- When the state machine has the machine shut down or restarted.
use truenas_asustor_chassisd.Base.{
  leb→le, if-cases, ℕ, ◌≤◌, ◌≡◌, refl, sym, ap, ◌∙◌, inl, inr, false, not, ◌&&◌, Option, none, some,
  List, leb, if◌then◌else◌, Bool-cases, Option-cases, Text,
}
use mathlib.Core.Option.{some_inj}
use truenas_asustor_chassisd.Alarm.{is_given}
use truenas_asustor_chassisd.Lcm.Frame.{Key, up, down, back, enter, wake as wake_key, unknown}
use truenas_asustor_chassisd.Panel.{
  Action, Mode, status, action_menu, confirm, countdown, World, deadline_after, AppState, Effect,
  nothing, render_lines, run_action,
}
use truenas_asustor_chassisd.Panel.Leds.{refresh_stale, wake, fall_asleep, expire_locates}
use truenas_asustor_chassisd.Panel.Screen.{render, render_raw}
use truenas_asustor_chassisd.Panel.Flow.{
  show_override, to_status, status_key, menu_key, confirm_key, cancelled, mode_key, handle_key,
}
use truenas_asustor_chassisd.Panel.Tick.{
  falls_asleep, maybe_sleep, countdown_over, awake_steps, tick_asleep, tick_awake, tick_rest, tick,
}
use truenas_asustor_chassisd.Panel.Events.{
  Event, pressed, commanded, ticked, counting, sleep_wanted, beep_taken, step,
}
use truenas_asustor_chassisd.Panel.Invariant.{core, core-expire_locates}

-- An action is run by an ENTER on its confirm screen, with the panel awake, or by the tick that finds
-- its countdown over.
abbrev pub Allowed : Event → AppState → World → Effect → Type 0
Allowed (pressed enter) s w (run_action a) =
    (s.sleeping ≡ false) × (deadline : ℕ) × (s.mode ≡ confirm a deadline)
Allowed ticked s w (run_action a) =
    (deadline : ℕ) × (why : Text) × (s.mode ≡ countdown a deadline why) × (deadline ≤ w.now)
Allowed _ s w (run_action a) = ⊥
Allowed e s w (render_lines l0 l1) = Unit
Allowed e s w nothing = Unit

-- An effect that runs nothing.
abbrev Quiet : Effect → Type 0
Quiet (run_action a) = ⊥
Quiet (render_lines l0 l1) = Unit
Quiet nothing = Unit

Quiet-Allowed :
    (e : Event) (s : AppState) (w : World) (eff : Effect) → Quiet eff → Allowed e s w eff
Quiet-Allowed e s w (run_action a) h = absurd h
Quiet-Allowed e s w (render_lines l0 l1) h = tt
Quiet-Allowed e s w nothing h = tt

render-Quiet : (s : AppState) (w : World) → Quiet (render s w).1
unfolding render render_raw
render-Quiet s w =
    if-cases (λ (r : AppState × Effect). Quiet r.1) (s.sleeping && not (is_given s.locate_chassis))
      (λ e. tt) (λ e. tt)

render-Allowed :
    (e : Event) (s : AppState) (w : World) (t : AppState) → Allowed e s w (render t w).1
render-Allowed e s w t = Quiet-Allowed e s w (render t w).1 (render-Quiet t w)

status_key-Quiet : (key : Key) (s : AppState) (w : World) → Quiet (status_key s w key).1
unfolding status_key
status_key-Quiet up s w = tt
status_key-Quiet down s w = tt
status_key-Quiet enter s w = tt
status_key-Quiet back s w = tt
status_key-Quiet wake_key s w = tt
status_key-Quiet (unknown b) s w = tt

menu_key-Quiet :
    (key : Key) (s : AppState) (w : World) (options : List Action) (i : ℕ)
    → Quiet (menu_key s w options i key).1
unfolding menu_key
menu_key-Quiet up s w options i = tt
menu_key-Quiet down s w options i = tt
menu_key-Quiet enter s w options i = tt
menu_key-Quiet back s w options i = tt
menu_key-Quiet wake_key s w options i = tt
menu_key-Quiet (unknown b) s w options i = tt

mode_key-Allowed :
    (m : Mode) (key : Key) (s : AppState) (w : World)
    → s.sleeping ≡ false
    → s.mode ≡ m
    → Allowed (pressed key) s w (mode_key s w m key).1
unfolding mode_key confirm_key
mode_key-Allowed status key s w awake e =
    Quiet-Allowed (pressed key) s w _ (status_key-Quiet key s w)
mode_key-Allowed (action_menu options i) key s w awake e =
    Quiet-Allowed (pressed key) s w _ (menu_key-Quiet key s w options i)
mode_key-Allowed (confirm a d) up s w awake e = tt
mode_key-Allowed (confirm a d) down s w awake e = tt
mode_key-Allowed (confirm a d) enter s w awake e = (awake, d, e)
mode_key-Allowed (confirm a d) back s w awake e = tt
mode_key-Allowed (confirm a d) wake_key s w awake e = tt
mode_key-Allowed (confirm a d) (unknown b) s w awake e = tt
mode_key-Allowed (countdown a d why) key s w awake e =
    (render-Allowed (pressed key) s w (show_override (to_status s w) w (cancelled w a)))

handle_key-Allowed :
    (key : Key) (s : AppState) (w : World) → Allowed (pressed key) s w (handle_key s w key).1
unfolding handle_key
handle_key-Allowed key s w =
    let roused =
      wake (record s { awake_override_until = some (deadline_after w s.cfg.resume_after_secs) })
        w in
    if-cases (λ (r : AppState × Effect). Allowed (pressed key) s w r.1) s.sleeping
      (λ asleep. (render-Allowed (pressed key) s w roused))
      (λ awake. mode_key-Allowed s.mode key s w awake refl)

-- The action of a countdown that is over is that countdown's.
countdown_over_sound :
    (w : World) (m : Mode) (a : Action)
    → countdown_over w m ≡ some a
    → (deadline : ℕ) × (why : Text) × (m ≡ countdown a deadline why) × (deadline ≤ w.now)
countdown_over_sound w status a e = cc
countdown_over_sound w (action_menu options i) a e = cc
countdown_over_sound w (confirm b d) a e = cc
countdown_over_sound w (countdown b d why) a e = elim (Bool-cases (leb d w.now)) [
  | inl over ↦
      let same : some b ≡ some a = rw⁻¹ (ap (λ t. if t then some b else none) over) e in
      (d, why, ap (λ x. countdown x d why) (some_inj.0 same), leb→le d w.now over)
  | inr early ↦
      let never : Path (Option Action) none (some a) =
        rw⁻¹ (ap (λ t. if t then some b else none) early) e in
      cc
]

mode-before : (s : AppState) (w : World) → (maybe_sleep (expire_locates s w) w).mode ≡ s.mode
unfolding maybe_sleep fall_asleep core
mode-before s w =
    if-cases (λ (t : AppState). t.mode ≡ s.mode) (falls_asleep (expire_locates s w) w)
      (λ e. ap (λ c. c.mode) (core-expire_locates s w))
      (λ e. ap (λ c. c.mode) (core-expire_locates s w))

tick_awake-Allowed :
    (s s' : AppState) (w : World) → s'.mode ≡ s.mode → Allowed ticked s w (tick_awake s' w).1
unfolding tick_awake
tick_awake-Allowed s s' w same = elim (Option-cases (countdown_over w s'.mode)) [
  | inl running ↦ rw (running, tick_awake) (render-Allowed ticked s w (awake_steps s' w))
  | inr (a, done) ↦
      let (d, why, here, late) = countdown_over_sound w s'.mode a done in
      rw (done, tick_awake) (d, why, sym same ∙ here, late)
]

tick-Allowed : (s : AppState) (w : World) → Allowed ticked s w (tick s w).1
unfolding tick tick_rest tick_asleep
tick-Allowed s w =
    let s' = maybe_sleep (expire_locates s w) w in
    if-cases (λ (r : AppState × Effect). Allowed ticked s w r.1)
      (not s'.schedule_wants_sleep && s'.sleeping)
      (λ wakes. (render-Allowed ticked s w (wake s' w)))
      (λ goes_on.
        if-cases (λ (r : AppState × Effect). Allowed ticked s w r.1) s'.sleeping
          (λ asleep.
            if-cases (λ (r : AppState × Effect). Allowed ticked s w r.1)
              (is_given (refresh_stale s' w).locate_chassis)
              (λ lit. (render-Allowed ticked s w (refresh_stale s' w))) (λ dark. tt))
          (λ awake. tick_awake-Allowed s s' w (mode-before s w)))

-- Whatever the state: the one event that runs an action is ENTER on the confirm screen of that action
-- with the panel awake, or a tick at or after the deadline of that action's countdown.
pub step-Allowed : (e : Event) (s : AppState) (w : World) → Allowed e s w (step s w e).1
unfolding step
step-Allowed (pressed key) s w = handle_key-Allowed key s w
step-Allowed (commanded cmd) s w = tt
step-Allowed ticked s w = tick-Allowed s w
step-Allowed (counting a secs why) s w = tt
step-Allowed (sleep_wanted wanted) s w = tt
step-Allowed beep_taken s w = tt
