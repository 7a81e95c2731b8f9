-- ===== src/Panel/Messages.antt =====
-- An error or critical message over a history of events.
use truenas_asustor_chassisd.Base.{
  if-cases, ℕ, ◌≤◌, Option, none, some, List, [], ◌∷◌, length, ◌==◌, if◌then◌else◌, Text,
}
use truenas_asustor_chassisd.Lcm.Frame.{Key, up, down, back, enter, wake as wake_key, unknown}
use truenas_asustor_chassisd.Panel.{
  Action, shutdown, Mode, status, action_menu, confirm, countdown, is_status, World, deadline_after,
  AppState, Effect,
}
use truenas_asustor_chassisd.Panel.Leds.{wake, start_locate, stop_locate}
use truenas_asustor_chassisd.Panel.Flow.{
  outranked, show_override, to_status, SocketCommand, show_cmd, clear_cmd, locate_cmd,
  locate_off_cmd, status_request, new_override, hold_override, apply_socket_command, take_beep,
  page, status_key, option_at, choose, menu_key, confirm_key, cancelled, mode_key, handle_key,
  replaces, begin_countdown, start_countdown,
}
use truenas_asustor_chassisd.Panel.Tick.{set_schedule_sleep_wanted}
use truenas_asustor_chassisd.Panel.Events.{
  Event, pressed, commanded, ticked, counting, sleep_wanted, beep_taken, step, run,
}
use truenas_asustor_chassisd.Panel.Reachable.{step-IsWellFormed}
use truenas_asustor_chassisd.Panel.Invariant.{core-start_locate, core-stop_locate, IsWellFormed}
use truenas_asustor_chassisd.Panel.Lasting.{
  AtLeast, IsOther, NoClear, same_over, show_override-AtLeast, to_status-AtLeast, render-AtLeast,
  wake-AtLeast, tick-AtLeast,
}

status_key-AtLeast :
    (n : ℕ) (key : Key) (s : AppState) (w : World)
    → AtLeast n s.over
    → AtLeast n (status_key s w key).0.over
unfolding status_key page
status_key-AtLeast n up s w h =
    if-cases (λ (t : AppState). AtLeast n t.over) (length s.screens == 0) (λ e. h) (λ e. h)
status_key-AtLeast n down s w h =
    if-cases (λ (t : AppState). AtLeast n t.over) (length s.screens == 0) (λ e. h) (λ e. h)
status_key-AtLeast n enter s w h = h
status_key-AtLeast n back s w h = h
status_key-AtLeast n wake_key s w h = h
status_key-AtLeast n (unknown b) s w h = h

menu_key-AtLeast :
    (n : ℕ) (key : Key) (s : AppState) (w : World) (options : List Action) (i : ℕ)
    → AtLeast n s.over
    → AtLeast n (menu_key s w options i key).0.over
unfolding menu_key choose
menu_key-AtLeast n up s w options i h = h
menu_key-AtLeast n down s w options i h = h
menu_key-AtLeast n enter s w options i h = chosen (option_at options i)
  where
    chosen : (o : Option Action) → AtLeast n (choose s w o).over
    chosen none = h
    chosen (some a) = h
menu_key-AtLeast n back s w options i h = to_status-AtLeast n s w h
menu_key-AtLeast n wake_key s w options i h = h
menu_key-AtLeast n (unknown b) s w options i h = h

confirm_key-AtLeast :
    (n : ℕ) (key : Key) (s : AppState) (w : World) (a : Action)
    → AtLeast n s.over
    → AtLeast n (confirm_key s w a key).0.over
unfolding confirm_key
confirm_key-AtLeast n up s w a h = h
confirm_key-AtLeast n down s w a h = h
confirm_key-AtLeast n enter s w a h = to_status-AtLeast n s w h
confirm_key-AtLeast n back s w a h = to_status-AtLeast n s w h
confirm_key-AtLeast n wake_key s w a h = h
confirm_key-AtLeast n (unknown b) s w a h = h

mode_key-AtLeast :
    (n : ℕ) (m : Mode) (key : Key) (s : AppState) (w : World)
    → AtLeast n s.over
    → AtLeast n (mode_key s w m key).0.over
unfolding mode_key
mode_key-AtLeast n status key s w h = status_key-AtLeast n key s w h
mode_key-AtLeast n (action_menu options i) key s w h = menu_key-AtLeast n key s w options i h
mode_key-AtLeast n (confirm a d) key s w h = confirm_key-AtLeast n key s w a h
mode_key-AtLeast n (countdown a d why) key s w h =
    render-AtLeast n (show_override (to_status s w) w (cancelled w a)) w
      (show_override-AtLeast n (to_status s w) w (cancelled w a) (to_status-AtLeast n s w h))

handle_key-AtLeast :
    (n : ℕ) (key : Key) (s : AppState) (w : World)
    → AtLeast n s.over
    → AtLeast n (handle_key s w key).0.over
unfolding handle_key
handle_key-AtLeast n key s w h =
    let up_until = record s {
      awake_override_until = some (deadline_after w s.cfg.resume_after_secs);
    } in
    if-cases (λ (r : AppState × Effect). AtLeast n r.0.over) s.sleeping
      (λ asleep. render-AtLeast n (wake up_until w) w (wake-AtLeast n up_until w h))
      (λ awake. mode_key-AtLeast n s.mode key s w h)

command-AtLeast :
    (n : ℕ) (cmd : SocketCommand) (s : AppState) (w : World)
    → IsOther (commanded cmd)
    → AtLeast n s.over
    → AtLeast n (apply_socket_command s w cmd).over
unfolding apply_socket_command hold_override
command-AtLeast n (show_cmd level ttl look bay l0 l1) s w other h =
    let ov = new_override w level ttl look bay l0 l1 in
    let kept : AppState → Type 0 = λ t. AtLeast n t.over in
    if-cases kept (is_status s.mode) (λ rest. show_override-AtLeast n s w ov h)
      (λ busy. if-cases kept (outranked s.pending_over ov) (λ e. h) (λ e. h))
command-AtLeast n (clear_cmd bay) s w other h = absurd other
command-AtLeast n (locate_cmd bay ttl) s w other h =
    same_over n s (start_locate s w bay ttl) (core-start_locate bay ttl s w) h
command-AtLeast n (locate_off_cmd bay) s w other h =
    same_over n s (stop_locate s w bay) (core-stop_locate bay s w) h
command-AtLeast n status_request s w other h = h

start_countdown-AtLeast :
    (n : ℕ) (s : AppState) (w : World) (a : Action) (secs : ℕ) (why : Text)
    → AtLeast n s.over
    → AtLeast n (start_countdown s w a secs why).over
unfolding start_countdown begin_countdown
start_countdown-AtLeast n s w a secs why h = go s.mode
  where
    begun : AtLeast n (if s.sleeping then wake s w else s).over
    begun =
        if-cases (λ (t : AppState). AtLeast n t.over) s.sleeping (λ e. wake-AtLeast n s w h)
          (λ e. h)

    go :
        (m : Mode)
        → let t : AppState = elim m [
          | countdown running deadline old ↦ record s {
            mode = countdown (if replaces a running then shutdown else running) deadline old;
          }
          | status ↦ begin_countdown (if s.sleeping then wake s w else s) w a secs why
          | action_menu options selection ↦
              begin_countdown (if s.sleeping then wake s w else s) w a secs why
          | confirm b deadline ↦ begin_countdown (if s.sleeping then wake s w else s) w a secs why
        ] in
          AtLeast n t.over
    go (countdown running deadline old) = h
    go status = begun
    go (action_menu options selection) = begun
    go (confirm b deadline) = begun

step-AtLeast :
    (n : ℕ) (e : Event) (s : AppState) (w : World)
    → 2 ≤ n
    → IsWellFormed s
    → IsOther e
    → AtLeast n s.over
    → AtLeast n (step s w e).0.over
unfolding step set_schedule_sleep_wanted take_beep
step-AtLeast n (pressed key) s w urgent ok other h = handle_key-AtLeast n key s w h
step-AtLeast n (commanded cmd) s w urgent ok other h = command-AtLeast n cmd s w other h
step-AtLeast n ticked s w urgent ok other h = tick-AtLeast n s w urgent ok h
step-AtLeast n (counting a secs why) s w urgent ok other h =
    start_countdown-AtLeast n s w a secs why h
step-AtLeast n (sleep_wanted wanted) s w urgent ok other h = h
step-AtLeast n beep_taken s w urgent ok other h = h

-- From any state that the invariant holds of, with an error or critical message showing: after any
-- history without a CLEAR, a message at least as severe is showing.
pub run-AtLeast :
    (n : ℕ) (s : AppState) (es : List (World × Event))
    → 2 ≤ n
    → IsWellFormed s
    → AtLeast n s.over
    → NoClear es
    → AtLeast n (run s es).over
unfolding run
run-AtLeast n s [] urgent ok h quiet = h
run-AtLeast n s ((w, e) ∷ es) urgent ok h (other, quiet) =
    run-AtLeast n (step s w e).0 es urgent (step-IsWellFormed e s w ok)
      (step-AtLeast n e s w urgent ok other h) quiet
