-- ===== src/Panel/Tick.antt =====
-- src/state.rs, `tick`: what every wake-up of the event loop does, in its order.
use truenas_asustor_chassisd.Base.{
  ◌+◌, ◌-◌, ◌*◌, ◌%◌, Bool, true, false, not, ◌&&◌, Option, none, some, [], ltb, leb, if◌then◌else◌,
  length,
}
use truenas_asustor_chassisd.Alarm.{is_given}
use truenas_asustor_chassisd.Panel.{
  nanos_per_sec, Action, Override, beep_of, AlertBeep, repeat_beep, Mode, confirm, countdown,
  is_status, World, deadline_after, AppState, Effect, render_lines, run_action, reset_scroll,
  is_due,
}
use truenas_asustor_chassisd.Panel.Leds.{
  sync_leds_to_override, refresh_stale, wake, fall_asleep, expire_locates,
}
use truenas_asustor_chassisd.Panel.Screen.{is_scrolling, render}
use truenas_asustor_chassisd.Panel.Flow.{repeats, repeat_beep_secs, to_status}

unfoldable pub set_schedule_sleep_wanted : AppState → Bool → AppState
set_schedule_sleep_wanted s wanted = record s { schedule_wants_sleep = wanted }

abbrev pub grace_active : AppState → World → Bool
grace_active s w = elim s.awake_override_until [ none ↦ false | some t ↦ ltb w.now t ]

-- The grace after a wake by hand, and falling asleep: not while it lasts, nor with a message showing,
-- nor in a menu.
unfoldable pub falls_asleep : AppState → World → Bool
unfolding is_status
falls_asleep s w =
    s.schedule_wants_sleep
    && (not s.sleeping && (not (grace_active s w) && (not (is_given s.over) && is_status s.mode)))

unfoldable pub maybe_sleep : AppState → World → AppState
unfolding falls_asleep fall_asleep
maybe_sleep s w =
    let s' = record s {
      awake_override_until = if grace_active s w then s.awake_override_until else none;
    } in
    if falls_asleep s w then fall_asleep s' w else s'

abbrev pub is_expired : World → Option Override → Bool
is_expired w none = false
is_expired w (some ov) = is_due w ov.expires_at

unfoldable pub expire_override : AppState → World → AppState
unfolding sync_leds_to_override
expire_override s w =
    if is_expired w s.over
    then sync_leds_to_override (reset_scroll (record s { over = none })) w
    else s

unfoldable pub over_repeats : Option Override → Bool
unfolding beep_of
over_repeats none = false
over_repeats (some o) = repeats (beep_of o)

abbrev pub get_or_repeat : Option AlertBeep → AlertBeep
get_or_repeat none = repeat_beep
get_or_repeat (some b) = b

unfoldable pub repeat_the_beep : AppState → World → AppState
unfolding over_repeats deadline_after
repeat_the_beep s w =
    if is_due w s.next_repeat_beep && over_repeats s.over
    then record s {
      beep_pending = some (get_or_repeat s.beep_pending);
      next_repeat_beep = some (deadline_after w repeat_beep_secs);
    }
    else s

unfoldable pub resume_rotation : AppState → World → AppState
resume_rotation s w =
    if not s.auto_rotate && is_due w s.resume_at
    then record s { auto_rotate = true; resume_at = none }
    else s

abbrev pub confirm_is_stale : World → Mode → Bool
confirm_is_stale w (confirm a deadline) = leb deadline w.now
confirm_is_stale w _ = false

unfoldable pub cancel_stale_confirm : AppState → World → AppState
unfolding to_status
cancel_stale_confirm s w = if confirm_is_stale w s.mode then to_status s w else s

-- Nothing but the rotating screens is on the panel, and this one has been there long enough.
unfoldable pub rotates : AppState → World → Bool
unfolding is_status is_scrolling
rotates s w =
    is_status s.mode
    && (not (is_given s.over)
        && (not (is_given s.alarm)
            && (not (is_given s.locate_chassis)
                && (s.auto_rotate
                    && (ltb 0 (length s.screens)
                        && (not (is_scrolling s)
                            && leb (s.cfg.dwell_secs * nanos_per_sec) (w.now - s.last_dwell)))))))

unfoldable pub rotate : AppState → World → AppState
unfolding rotates
rotate s w =
    if rotates s w
    then reset_scroll (record s { index = (s.index + 1) % length s.screens; last_dwell = w.now })
    else s

-- The countdown that is over, if there is one.
abbrev pub countdown_over : World → Mode → Option Action
countdown_over w (countdown a deadline why) = if leb deadline w.now then some a else none
countdown_over w _ = none

-- From the refresh on: the panel is awake and no countdown has run out.
unfoldable pub awake_steps : AppState → World → AppState
unfolding rotate cancel_stale_confirm resume_rotation repeat_the_beep expire_override refresh_stale
awake_steps s w =
    rotate
      (cancel_stale_confirm
        (resume_rotation (repeat_the_beep (expire_override (refresh_stale s w) w) w) w) w)
      w

unfoldable pub tick_asleep : AppState → World → AppState × Effect
unfolding refresh_stale render
tick_asleep s w =
    let s' = refresh_stale s w in
    if is_given s'.locate_chassis then render s' w else (s', render_lines [] [])

unfoldable pub tick_awake : AppState → World → AppState × Effect
unfolding to_status render awake_steps
tick_awake s w = elim (countdown_over w s.mode) [
  | some a ↦ (to_status s w, run_action a)
  | none ↦ render (awake_steps s w) w
]

-- After the sleep transition.
unfoldable pub tick_rest : AppState → World → AppState × Effect
unfolding render wake tick_asleep tick_awake
tick_rest s w =
    if not s.schedule_wants_sleep && s.sleeping
    then render (wake s w) w
    else if s.sleeping
    then tick_asleep s w
    else tick_awake s w

unfoldable pub tick : AppState → World → AppState × Effect
unfolding tick_rest maybe_sleep expire_locates
tick s w = tick_rest (maybe_sleep (expire_locates s w) w) w
