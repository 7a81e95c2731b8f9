-- ===== src/Panel/Events.antt =====
-- src/state.rs as src/main.rs drives it: the events of the loop, and the state after any of them.
use truenas_asustor_chassisd.Base.{ℕ, Bool, List, [], ◌∷◌, Text}
use truenas_asustor_chassisd.Lcm.Frame.{Key}
use truenas_asustor_chassisd.Panel.{Action, World, AppState, Effect, nothing}
use truenas_asustor_chassisd.Panel.Flow.{
  SocketCommand, apply_socket_command, take_beep, handle_key, start_countdown,
}
use truenas_asustor_chassisd.Panel.Tick.{set_schedule_sleep_wanted, tick}

-- What the event loop calls.
pub data Event : Type 0 where
  pressed : Key → Event
  commanded : SocketCommand → Event
  ticked : Event
  counting : Action → ℕ → Text → Event
  sleep_wanted : Bool → Event
  beep_taken : Event

unfoldable pub step : AppState → World → Event → AppState × Effect
unfolding handle_key apply_socket_command tick start_countdown set_schedule_sleep_wanted take_beep
step s w (pressed key) = handle_key s w key
step s w (commanded cmd) = (apply_socket_command s w cmd, nothing)
step s w ticked = tick s w
step s w (counting a secs why) = (start_countdown s w a secs why, nothing)
step s w (sleep_wanted wanted) = (set_schedule_sleep_wanted s wanted, nothing)
step s w beep_taken = ((take_beep s).0, nothing)

-- The state after a history, the first event first.
unfoldable pub run : AppState → List (World × Event) → AppState
unfolding step
run s [] = s
run s ((w, e) ∷ es) = run (step s w e).0 es
