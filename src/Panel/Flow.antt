-- ===== src/Panel/Flow.antt =====
-- src/state.rs, messages and keys: `show_override`, `apply_socket_command`, `handle_key`,
-- `start_countdown`, `page`, `take_beep`. The panel's keys are those of src/protocol.rs.
use truenas_asustor_chassisd.Base.{
  zero, suc, ℕ, ◌+◌, ◌-◌, ◌*◌, ◌%◌, Bool, true, false, not, ◌&&◌, ◌||◌, Option, none, some, List,
  [], ◌∷◌, ltb, ◌==◌, if◌then◌else◌, Text, codes, length,
}
use truenas_asustor_chassisd.Alarm.{
  Level, info, critical, rank, always_visible, Look, plain_look, BeepMode, silent, once, repeating,
  is_given,
}
use truenas_asustor_chassisd.Lcm.Frame.{Key, up, down, back, enter}
use truenas_asustor_chassisd.Panel.{
  nanos_per_sec, Action, shutdown, restart, label, Override, beep_of, AlertBeep, arrival, Mode,
  status, action_menu, confirm, countdown, is_status, World, checked_add, deadline_after, AppState,
  Effect, nothing, run_action, reset_scroll,
}
use truenas_asustor_chassisd.Panel.Leds.{
  same_bay, sync_leds_to_override, wake, start_locate, stop_locate,
}
use truenas_asustor_chassisd.Panel.Screen.{render}

abbrev pub repeat_beep_secs : ℕ
repeat_beep_secs = 60

abbrev pub sounds : BeepMode → Bool
sounds silent = false
sounds once = true
sounds repeating = true

abbrev pub repeats : BeepMode → Bool
repeats silent = false
repeats once = false
repeats repeating = true

-- What is showing is more severe than the new message.
abbrev pub outranked : Option Override → Override → Bool
outranked none ov = false
outranked (some o) ov = ltb (rank ov.level) (rank o.level)

-- The end of `show_override`, once the message is let in.
unfoldable pub install_override : AppState → World → Override → Bool → AppState
unfolding sync_leds_to_override beep_of deadline_after
install_override s w ov may_beep =
    sync_leds_to_override
      (reset_scroll (record s {
        beep_pending = if sounds (beep_of ov) && may_beep then some arrival else s.beep_pending;
        next_repeat_beep =
            if repeats (beep_of ov) then some (deadline_after w repeat_beep_secs) else none;
        over = some ov;
      }))
      w

unfoldable pub show_override : AppState → World → Override → AppState
unfolding always_visible install_override wake
show_override s w ov =
    if outranked s.over ov
    then s
    else if s.sleeping
    then (if not (always_visible ov.level)
        then s
        else install_override (wake s w) w ov (rank ov.level == rank critical))
    else install_override s w ov true

unfoldable pub apply_pending_override : AppState → World → AppState
unfolding show_override
apply_pending_override s w = elim s.pending_over [
  | none ↦ s
  | some ov ↦ show_override (record s { pending_over = none }) w ov
]

-- Leaving the menu, a confirm screen or a countdown.
unfoldable pub to_status : AppState → World → AppState
unfolding apply_pending_override
to_status s w = apply_pending_override (record s { mode = status }) w

-- `Locate` is `src/socket.rs`'s, like the others; a `StatusRequest` never gets here.
pub data SocketCommand : Type 0 where
  show_cmd : Level → ℕ → Look → Option ℕ → Text → Text → SocketCommand
  clear_cmd : Option ℕ → SocketCommand
  locate_cmd : Option ℕ → ℕ → SocketCommand
  locate_off_cmd : Option ℕ → SocketCommand
  status_request : SocketCommand

-- The message that a `Show` asks for: error and critical ones last.
unfoldable pub new_override : World → Level → ℕ → Look → Option ℕ → Text → Text → Override
unfolding always_visible
new_override w level ttl_secs look bay line0 line1 = record {
  level = level;
  look = look;
  expires_at =
      if always_visible level || (ttl_secs == 0)
      then none
      else checked_add w (ttl_secs * nanos_per_sec);
  bay = bay;
  line0 = line0;
  line1 = line1;
}

abbrev pub over_bay : Option Override → Option ℕ
over_bay none = none
over_bay (some o) = o.bay

-- The most severe message waits for the menu to close.
unfoldable pub hold_override : AppState → Override → AppState
hold_override s ov = if outranked s.pending_over ov then s else record s { pending_over = some ov }

unfoldable pub apply_socket_command : AppState → World → SocketCommand → AppState
unfolding sync_leds_to_override new_override is_status show_override hold_override start_locate
    stop_locate
apply_socket_command s w (clear_cmd bay) =
    if not (is_given bay) || same_bay bay (over_bay s.over)
    then sync_leds_to_override (record s { over = none }) w
    else s
apply_socket_command s w (show_cmd level ttl_secs look bay line0 line1) =
    let ov = new_override w level ttl_secs look bay line0 line1 in
    if is_status s.mode then show_override s w ov else hold_override s ov
apply_socket_command s w (locate_cmd bay ttl_secs) = start_locate s w bay ttl_secs
apply_socket_command s w (locate_off_cmd bay) = stop_locate s w bay
apply_socket_command s w status_request = s

unfoldable pub take_beep : AppState → AppState × Option AlertBeep
take_beep s = (record s { beep_pending = none }, s.beep_pending)

unfoldable pub page : AppState → World → Bool → AppState
unfolding deadline_after
page s w forward =
    let len = length s.screens in
    if len == 0
    then s
    else reset_scroll (record s {
      index = if forward then (s.index + 1) % len else (s.index + len - 1) % len;
      auto_rotate = false;
      resume_at = some (deadline_after w s.cfg.resume_after_secs);
      last_dwell = w.now;
    })

-- The arms of `handle_key`, mode by mode.
unfoldable pub status_key : AppState → World → Key → AppState × Effect
unfolding page
status_key s w up = (page s w false, nothing)
status_key s w down = (page s w true, nothing)
status_key s w enter = (record s { mode = action_menu (shutdown ∷ restart ∷ []) 0 }, nothing)
status_key s w _ = (s, nothing)

-- `options[selection]`, which the invariant keeps in range; out of range the source panics.
abbrev pub option_at : List Action → ℕ → Option Action
option_at [] i = none
option_at (a ∷ more) zero = some a
option_at (a ∷ more) (suc i) = option_at more i

unfoldable pub choose : AppState → World → Option Action → AppState
unfolding deadline_after
choose s w none = s
choose s w (some a) = record s { mode = confirm a (deadline_after w s.cfg.confirm_timeout_secs) }

unfoldable pub menu_key : AppState → World → List Action → ℕ → Key → AppState × Effect
unfolding choose to_status
menu_key s w options selection up = (
  record s {
    mode = action_menu options (if selection == 0 then length options - 1 else selection - 1);
  },
  nothing,
)
menu_key s w options selection down =
    (record s { mode = action_menu options ((selection + 1) % length options) }, nothing)
menu_key s w options selection enter = (choose s w (option_at options selection), nothing)
menu_key s w options selection back = (to_status s w, nothing)
menu_key s w options selection _ = (s, nothing)

unfoldable pub confirm_key : AppState → World → Action → Key → AppState × Effect
unfolding to_status
confirm_key s w a enter = (to_status s w, run_action a)
confirm_key s w a back = (to_status s w, nothing)
confirm_key s w a _ = (s, nothing)

unfoldable pub cancelled : World → Action → Override
unfolding deadline_after label
cancelled w a = record {
  level = info;
  look = plain_look;
  expires_at = some (deadline_after w 5);
  bay = none;
  line0 = label a;
  line1 = codes "CANCELLED";
}

unfoldable pub mode_key : AppState → World → Mode → Key → AppState × Effect
unfolding status_key menu_key confirm_key render show_override to_status cancelled
mode_key s w status key = status_key s w key
mode_key s w (action_menu options selection) key = menu_key s w options selection key
mode_key s w (confirm a deadline) key = confirm_key s w a key
mode_key s w (countdown a deadline why) key =
    render (show_override (to_status s w) w (cancelled w a)) w

unfoldable pub handle_key : AppState → World → Key → AppState × Effect
unfolding render wake deadline_after mode_key
handle_key s w key =
    if s.sleeping
    then render
        (wake (record s { awake_override_until = some (deadline_after w s.cfg.resume_after_secs) })
          w)
        w
    else mode_key s w s.mode key

abbrev pub replaces : Action → Action → Bool
replaces shutdown restart = true
replaces _ _ = false

unfoldable pub begin_countdown : AppState → World → Action → ℕ → Text → AppState
unfolding deadline_after
begin_countdown s w a secs why =
    reset_scroll (record s { mode = countdown a (deadline_after w secs) why })

unfoldable pub start_countdown : AppState → World → Action → ℕ → Text → AppState
unfolding begin_countdown wake
start_countdown s w a secs why = elim s.mode [
  | countdown running deadline old ↦ record s {
    mode = countdown (if replaces a running then shutdown else running) deadline old;
  }
  | status ↦ begin_countdown (if s.sleeping then wake s w else s) w a secs why
  | action_menu options selection ↦
      begin_countdown (if s.sleeping then wake s w else s) w a secs why
  | confirm b deadline ↦ begin_countdown (if s.sleeping then wake s w else s) w a secs why
]
