-- ===== src/Panel/Lines.antt =====
-- The lengths of the two lines that are shown.
use truenas_asustor_chassisd.Base.{
  leb→le, if-cases, ℕ, ◌≤◌, inl, inr, not, ◌&&◌, some, List, length, leb, arith, Option-cases, Text,
}
use truenas_asustor_chassisd.Alarm.{is_given}
use truenas_asustor_chassisd.Lcm.Frame.{Key, up, down, back, enter, wake as wake_key, unknown}
use truenas_asustor_chassisd.Panel.{
  Action, Mode, status, action_menu, confirm, countdown, Scroll, Settings, World, deadline_after,
  AppState, Effect, nothing, render_lines, run_action,
}
use truenas_asustor_chassisd.Panel.Leds.{refresh_stale, wake, expire_locates}
use truenas_asustor_chassisd.Panel.Screen.{begin_scroll, render, scroll_step, render_raw}
use truenas_asustor_chassisd.Panel.Flow.{
  show_override, to_status, status_key, menu_key, confirm_key, cancelled, mode_key, handle_key,
}
use truenas_asustor_chassisd.Panel.Tick.{
  maybe_sleep, countdown_over, awake_steps, tick_asleep, tick_awake, tick_rest, tick,
}
use truenas_asustor_chassisd.Panel.Events.{
  Event, pressed, commanded, ticked, counting, sleep_wanted, beep_taken, step,
}

abbrev pub Fits : Effect → Type 0
Fits (render_lines l0 l1) = (length l0 ≤ 16) × (length l1 ≤ 16)
Fits (run_action a) = Unit
Fits nothing = Unit

scroll_step-fits :
    (cfg : Settings) (w : World) (sc : Scroll) (text : Text)
    → length (scroll_step cfg w sc text).1 ≤ 16
unfolding scroll_step
scroll_step-fits cfg w sc text =
    if-cases (λ (r : Scroll × Text). length r.1 ≤ 16)
      (leb (length (begin_scroll w sc text).text) 16) (λ short. leb→le _ 16 short)
      (λ long. omega arith)

render-Fits : (s : AppState) (w : World) → Fits (render s w).1
unfolding render render_raw
render-Fits s w =
    if-cases (λ (r : AppState × Effect). Fits r.1) (s.sleeping && not (is_given s.locate_chassis))
      (λ dark. tt)
      (λ lit. (scroll_step-fits s.cfg w s.scroll0 _, scroll_step-fits s.cfg w s.scroll1 _))

status_key-Fits : (key : Key) (s : AppState) (w : World) → Fits (status_key s w key).1
unfolding status_key
status_key-Fits up s w = tt
status_key-Fits down s w = tt
status_key-Fits enter s w = tt
status_key-Fits back s w = tt
status_key-Fits wake_key s w = tt
status_key-Fits (unknown b) s w = tt

menu_key-Fits :
    (key : Key) (s : AppState) (w : World) (options : List Action) (i : ℕ)
    → Fits (menu_key s w options i key).1
unfolding menu_key
menu_key-Fits up s w options i = tt
menu_key-Fits down s w options i = tt
menu_key-Fits enter s w options i = tt
menu_key-Fits back s w options i = tt
menu_key-Fits wake_key s w options i = tt
menu_key-Fits (unknown b) s w options i = tt

confirm_key-Fits :
    (key : Key) (s : AppState) (w : World) (a : Action) → Fits (confirm_key s w a key).1
unfolding confirm_key
confirm_key-Fits up s w a = tt
confirm_key-Fits down s w a = tt
confirm_key-Fits enter s w a = tt
confirm_key-Fits back s w a = tt
confirm_key-Fits wake_key s w a = tt
confirm_key-Fits (unknown b) s w a = tt

mode_key-Fits : (m : Mode) (key : Key) (s : AppState) (w : World) → Fits (mode_key s w m key).1
unfolding mode_key
mode_key-Fits status key s w = status_key-Fits key s w
mode_key-Fits (action_menu options i) key s w = menu_key-Fits key s w options i
mode_key-Fits (confirm a d) key s w = confirm_key-Fits key s w a
mode_key-Fits (countdown a d why) key s w =
    render-Fits (show_override (to_status s w) w (cancelled w a)) w

handle_key-Fits : (key : Key) (s : AppState) (w : World) → Fits (handle_key s w key).1
unfolding handle_key
handle_key-Fits key s w =
    let roused =
      wake (record s { awake_override_until = some (deadline_after w s.cfg.resume_after_secs) })
        w in
    if-cases (λ (r : AppState × Effect). Fits r.1) s.sleeping (λ asleep. render-Fits roused w)
      (λ awake. mode_key-Fits s.mode key s w)

tick_awake-Fits : (s : AppState) (w : World) → Fits (tick_awake s w).1
unfolding tick_awake
tick_awake-Fits s w = elim (Option-cases (countdown_over w s.mode)) [
  | inl running ↦ rw (running, tick_awake) (render-Fits (awake_steps s w) w)
  | inr (a, done) ↦ rw (done, tick_awake) tt
]

tick-Fits : (s : AppState) (w : World) → Fits (tick s w).1
unfolding tick tick_rest tick_asleep
tick-Fits s w =
    let s' = maybe_sleep (expire_locates s w) w in
    let fits : AppState × Effect → Type 0 = λ r. Fits r.1 in
    if-cases fits (not s'.schedule_wants_sleep && s'.sleeping) (λ wakes. render-Fits (wake s' w) w)
      (λ goes_on.
        if-cases fits s'.sleeping
          (λ asleep.
            if-cases fits (is_given (refresh_stale s' w).locate_chassis)
              (λ lit. render-Fits (refresh_stale s' w) w) (λ dark. (omega arith, omega arith)))
          (λ awake. tick_awake-Fits s' w))

-- Every line that any event has the panel show is at most 16 characters long, whatever the screens,
-- messages, hostname and settings.
pub step-Fits : (e : Event) (s : AppState) (w : World) → Fits (step s w e).1
unfolding step
step-Fits (pressed key) s w = handle_key-Fits key s w
step-Fits (commanded cmd) s w = tt
step-Fits ticked s w = tick-Fits s w
step-Fits (counting a secs why) s w = tt
step-Fits (sleep_wanted wanted) s w = tt
step-Fits beep_taken s w = tt
