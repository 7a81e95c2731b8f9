-- ===== src/Panel/Tests.antt =====
-- Runs of the state machine, and its theorems at concrete histories.
use truenas_asustor_chassisd.Base.{
  ℕ, ◌≡◌, refl, true, false, none, some, List, [], ◌∷◌, codes, arith,
}
use truenas_asustor_chassisd.Alarm.{info, critical, plain_look}
use truenas_asustor_chassisd.Lcm.Frame.{down, enter}
use truenas_asustor_chassisd.Panel.{
  Settings, World, AppState, restart, run_action, StatusScreen, new_state,
}
use truenas_asustor_chassisd.Panel.Flow.{show_cmd}
use truenas_asustor_chassisd.Panel.Events.{
  Event, pressed, commanded, ticked, sleep_wanted, step, run,
}
use truenas_asustor_chassisd.Panel.Invariant.{IsWellFormed}
use truenas_asustor_chassisd.Panel.Reachable.{run-IsWellFormed}
use truenas_asustor_chassisd.Panel.Lasting.{AtLeast}
use truenas_asustor_chassisd.Panel.Messages.{run-AtLeast}
use truenas_asustor_chassisd.Panel.Acting.{Allowed, step-Allowed}
use truenas_asustor_chassisd.Panel.Lines.{Fits, step-Fits}

abbrev settings : Settings
settings = record {
  night_brightness = none;
  lcd_off = false;
  resume_after_secs = 30;
  dwell_secs = 5;
  confirm_timeout_secs = 20;
  scroll_max_chars = 64;
  scroll_pause_ms = 1500;
  scroll_step_ms = 400;
  scroll_gap = 4;
}

abbrev address : StatusScreen
address = record { line0 = codes "eth0"; line1 = codes "192.168.1.2" }

abbrev at : ℕ → World
at t = record {
  now = t;
  last_instant = 1_000_000_000_000_000_000_000;
  hostname = codes "nas";
  nic_problem = none;
  brightness_failed = none;
  health_alarms = [];
  bay_states = [];
  disks_due = true;
  inputs_new = false;
  fetched = address ∷ [];
}

abbrev booted : AppState
unfolding new_state
booted = new_state settings (at 0)

abbrev fire : Event
fire = commanded (show_cmd critical 10 plain_look (some 2) (codes "FIRE") (codes "bay 2"))

abbrev hello : Event
hello = commanded (show_cmd info 10 plain_look none (codes "hello") [])

-- A message that comes while the menu is open waits, and shows once it closes; the night comes and a
-- critical message wakes the panel.
abbrev evening : List (World × Event)
evening =
    (at 1, ticked)
    ∷ (at 2, pressed enter)
    ∷ (at 3, hello)
    ∷ (at 4, pressed down)
    ∷ (at 5, pressed enter)
    ∷ (at 20_000_000_006, ticked)
    ∷ (at 40_000_000_000, ticked)
    ∷ (at 40_000_000_001, sleep_wanted true)
    ∷ (at 40_000_000_002, ticked)
    ∷ (at 40_000_000_003, fire)
    ∷ []

night : (run booted evening).sleeping ≡ false
unfolding booted run
night = refl

-- Two ENTERs on the second option restart the machine.
abbrev menu : List (World × Event)
menu = (at 1, ticked) ∷ (at 2, pressed enter) ∷ (at 3, pressed down) ∷ (at 4, pressed enter) ∷ []

restarts : (step (run booted menu) (at 5) (pressed enter)).1 ≡ run_action restart
unfolding booted run step
restarts = refl

run-IsWellFormed_example : IsWellFormed (run (new_state settings (at 0)) evening)
run-IsWellFormed_example = run-IsWellFormed settings (at 0) evening

step-Allowed_example :
    Allowed
      (pressed enter)
      (run booted menu)
      (at 5)
      (step (run booted menu) (at 5) (pressed enter)).1
step-Allowed_example = step-Allowed (pressed enter) (run booted menu) (at 5)

step-Fits_example : Fits (step (run booted evening) (at 50_000_000_000) ticked).1
step-Fits_example = step-Fits ticked (run booted evening) (at 50_000_000_000)

abbrev burning : AppState
unfolding booted run
burning = run booted ((at 1, fire) ∷ [])

burning_ok : AtLeast 3 burning.over
unfolding burning
burning_ok = omega arith

run-AtLeast_example :
    AtLeast 3 (run burning ((at 2, hello) ∷ (at 90_000_000_000, ticked) ∷ [])).over
unfolding burning
run-AtLeast_example =
    run-AtLeast 3 burning ((at 2, hello) ∷ (at 90_000_000_000, ticked) ∷ []) (omega arith)
      (run-IsWellFormed settings (at 0) ((at 1, fire) ∷ [])) burning_ok (tt, (tt, tt))
