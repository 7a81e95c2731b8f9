-- ===== src/Panel/Answering.antt =====
-- The invariant over keys and countdowns.
use truenas_asustor_chassisd.Base.{
  if-cases, ℕ, ◌+◌, ◌-◌, ◌%◌, ◌<◌, ◌≡◌, refl, sym, inl, Bool, true, false, not, ◌&&◌, Option, none,
  some, List, [], ◌∷◌, length, ◌==◌, if◌then◌else◌, arith, Text,
}
use native.Mathlib.Nat.{mod-lt}
use mathlib.Core.Path.{subst}
use truenas_asustor_chassisd.Alarm.{is_given}
use truenas_asustor_chassisd.Lcm.Frame.{Key, up, down, back, enter, wake as wake_key, unknown}
use truenas_asustor_chassisd.Panel.{
  Action, shutdown, restart, Override, Mode, status, action_menu, confirm, countdown, is_status,
  StatusScreen, World, deadline_after, AppState, Effect,
}
use truenas_asustor_chassisd.Panel.Leds.{wake}
use truenas_asustor_chassisd.Panel.Screen.{render}
use truenas_asustor_chassisd.Panel.Flow.{
  show_override, to_status, page, status_key, option_at, choose, menu_key, confirm_key, cancelled,
  mode_key, handle_key, replaces, begin_countdown, start_countdown,
}
use truenas_asustor_chassisd.Panel.Invariant.{
  core, AsleepOk, ModeOk, IndexOk, CoreOk, IsWellFormed, wake-IsWellFormed,
  show_override-IsWellFormed, to_status-IsWellFormed,
}

pub core-render : (s : AppState) (w : World) → core (render s w).0 ≡ core s
unfolding IsWellFormed render core
core-render s w =
    if-cases (λ (r : AppState × Effect). core r.0 ≡ core s)
      (s.sleeping && not (is_given s.locate_chassis)) (λ e. refl) (λ e. refl)

pub render-IsWellFormed : (s : AppState) (w : World) → IsWellFormed s → IsWellFormed (render s w).0
unfolding IsWellFormed
render-IsWellFormed s w ok = subst CoreOk (sym (core-render s w)) ok

-- Keys.
pub IndexOk-lt : (xs : List StatusScreen) (i : ℕ) → i < length xs → IndexOk i xs
IndexOk-lt [] i h = elim h [ ]
IndexOk-lt (x ∷ xs) i h = h

page-IsWellFormed :
    (s : AppState) (w : World) (forward : Bool) → IsWellFormed s → IsWellFormed (page s w forward)
unfolding IsWellFormed page core
page-IsWellFormed s w forward (h0, h1, h2, h3, h4, h5) =
    if-cases IsWellFormed (length s.screens == 0) (λ nil. (h0, h1, h2, h3, h4, h5))
      (λ more.
        let some_screen : 0 < length s.screens = ground arith in
        (
          h0,
          h1,
          h2,
          h3,
          h4,
          if-cases (λ i. IndexOk i s.screens) forward
              (λ fwd. IndexOk-lt s.screens _ (mod-lt (s.index + 1) some_screen))
              (λ back.
                IndexOk-lt s.screens _ (mod-lt (s.index + length s.screens - 1) some_screen)),
        ))

awake-Ok : {b : Bool} (m : Mode) (o : Option Override) → b ≡ false → AsleepOk b m o
awake-Ok {b = true} m o e = cc
awake-Ok {b = false} m o e = tt

status_key-IsWellFormed :
    (key : Key) (s : AppState) (w : World)
    → s.sleeping ≡ false
    → IsWellFormed s
    → IsWellFormed (status_key s w key).0
unfolding IsWellFormed status_key core
status_key-IsWellFormed up s w awake ok = page-IsWellFormed s w false ok
status_key-IsWellFormed down s w awake ok = page-IsWellFormed s w true ok
status_key-IsWellFormed enter s w awake (h0, h1, h2, h3, h4, h5) =
    (awake-Ok (action_menu (shutdown ∷ restart ∷ []) 0) s.over awake, omega arith, h2, h3, h4, h5)
status_key-IsWellFormed back s w awake ok = ok
status_key-IsWellFormed wake_key s w awake ok = ok
status_key-IsWellFormed (unknown b) s w awake ok = ok

-- The other keys and the countdown, with the panel awake.
select-ModeOk :
    (options : List Action) (selection : ℕ) (p : Option Override)
    → ModeOk (action_menu options selection) p
    → ((if selection == 0 then length options - 1 else selection - 1) < length options)
      × ((selection + 1) % length options < length options)
select-ModeOk options selection p h =
    let some_option : 0 < length options = omega arith in
    (ground arith, mod-lt (selection + 1) some_option)

menu_key-IsWellFormed :
    (key : Key) (s : AppState) (w : World) (options : List Action) (selection : ℕ)
    → s.sleeping ≡ false
    → s.mode ≡ action_menu options selection
    → IsWellFormed s
    → IsWellFormed (menu_key s w options selection key).0
unfolding IsWellFormed menu_key choose core
menu_key-IsWellFormed up s w options selection awake menu (h0, h1, h2, h3, h4, h5) =
    let turns =
      select-ModeOk options selection s.pending_over
        (subst (λ m. ModeOk m s.pending_over) menu h1) in
    (awake-Ok (action_menu options _) s.over awake, turns.0, h2, h3, h4, h5)
menu_key-IsWellFormed down s w options selection awake menu (h0, h1, h2, h3, h4, h5) =
    let turns =
      select-ModeOk options selection s.pending_over
        (subst (λ m. ModeOk m s.pending_over) menu h1) in
    (awake-Ok (action_menu options _) s.over awake, turns.1, h2, h3, h4, h5)
menu_key-IsWellFormed enter s w options selection awake menu (h0, h1, h2, h3, h4, h5) =
    chosen (option_at options selection)
  where
    chosen : (o : Option Action) → IsWellFormed (choose s w o)
    chosen none = (h0, h1, h2, h3, h4, h5)
    chosen (some a) = (awake-Ok (confirm a _) s.over awake, tt, h2, h3, h4, h5)
menu_key-IsWellFormed back s w options selection awake menu ok = to_status-IsWellFormed s w ok
menu_key-IsWellFormed wake_key s w options selection awake menu ok = ok
menu_key-IsWellFormed (unknown b) s w options selection awake menu ok = ok

confirm_key-IsWellFormed :
    (key : Key) (s : AppState) (w : World) (a : Action)
    → IsWellFormed s
    → IsWellFormed (confirm_key s w a key).0
unfolding confirm_key
confirm_key-IsWellFormed enter s w a ok = to_status-IsWellFormed s w ok
confirm_key-IsWellFormed back s w a ok = to_status-IsWellFormed s w ok
confirm_key-IsWellFormed up s w a ok = ok
confirm_key-IsWellFormed down s w a ok = ok
confirm_key-IsWellFormed wake_key s w a ok = ok
confirm_key-IsWellFormed (unknown b) s w a ok = ok

mode_key-IsWellFormed :
    (m : Mode) (key : Key) (s : AppState) (w : World)
    → s.sleeping ≡ false
    → s.mode ≡ m
    → IsWellFormed s
    → IsWellFormed (mode_key s w m key).0
unfolding mode_key cancelled
mode_key-IsWellFormed status key s w awake e ok = status_key-IsWellFormed key s w awake ok
mode_key-IsWellFormed (action_menu options selection) key s w awake e ok =
    menu_key-IsWellFormed key s w options selection awake e ok
mode_key-IsWellFormed (confirm a deadline) key s w awake e ok =
    confirm_key-IsWellFormed key s w a ok
mode_key-IsWellFormed (countdown a deadline why) key s w awake e ok =
    render-IsWellFormed (show_override (to_status s w) w (cancelled w a)) w (
      show_override-IsWellFormed (to_status s w) w (cancelled w a) (inl refl)
        (to_status-IsWellFormed s w ok))

pub handle_key-IsWellFormed :
    (key : Key) (s : AppState) (w : World) → IsWellFormed s → IsWellFormed (handle_key s w key).0
unfolding IsWellFormed handle_key core
handle_key-IsWellFormed key s w ok =
    let up_until = record s {
      awake_override_until = some (deadline_after w s.cfg.resume_after_secs);
    } in
    if-cases (λ (r : AppState × Effect). IsWellFormed r.0) s.sleeping
      (λ asleep. render-IsWellFormed (wake up_until w) w (wake-IsWellFormed up_until w ok))
      (λ awake. mode_key-IsWellFormed s.mode key s w awake refl ok)

begin_countdown-IsWellFormed :
    (s : AppState) (w : World) (a : Action) (secs : ℕ) (why : Text)
    → IsWellFormed s
    → IsWellFormed (begin_countdown (if s.sleeping then wake s w else s) w a secs why)
unfolding IsWellFormed begin_countdown core wake
begin_countdown-IsWellFormed s w a secs why ok =
    if-cases (λ t. IsWellFormed (begin_countdown t w a secs why)) s.sleeping
      (λ asleep.
        let (h0, h1, h2, h3, h4, h5) = wake-IsWellFormed s w ok in (tt, tt, h2, h3, h4, h5))
      (λ awake. let (h0, h1, h2, h3, h4, h5) = ok in (awake-Ok _ s.over awake, tt, h2, h3, h4, h5))

awake_counting :
    (b : Bool) (o : Option Override) (a : Action) (d : ℕ) (l : Text) (m : Mode)
    → AsleepOk b (countdown a d l) o
    → AsleepOk b m o
unfolding is_status
awake_counting true o a d l m (rest, quiet) = cc
awake_counting false o a d l m h = tt

pub start_countdown-IsWellFormed :
    (s : AppState) (w : World) (a : Action) (secs : ℕ) (why : Text)
    → IsWellFormed s
    → IsWellFormed (start_countdown s w a secs why)
unfolding IsWellFormed start_countdown core
start_countdown-IsWellFormed s w a secs why ok = go s.mode refl
  where
    go :
        (m : Mode)
        → s.mode ≡ m
        → IsWellFormed (elim m [
          | countdown running deadline old ↦ record s {
            mode = countdown (if replaces a running then shutdown else running) deadline old;
          }
          | status ↦ begin_countdown (if s.sleeping then wake s w else s) w a secs why
          | action_menu options selection ↦
              begin_countdown (if s.sleeping then wake s w else s) w a secs why
          | confirm b deadline ↦ begin_countdown (if s.sleeping then wake s w else s) w a secs why
        ])
    go (countdown running deadline old) e =
        let (h0, h1, h2, h3, h4, h5) = ok in
        let never = subst (λ m. AsleepOk s.sleeping m s.over) e h0 in
        (awake_counting s.sleeping s.over running deadline old _ never, tt, h2, h3, h4, h5)
    go status e = begin_countdown-IsWellFormed s w a secs why ok
    go (action_menu options selection) e = begin_countdown-IsWellFormed s w a secs why ok
    go (confirm b deadline) e = begin_countdown-IsWellFormed s w a secs why ok
