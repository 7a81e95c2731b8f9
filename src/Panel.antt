-- ===== src/Panel.antt =====
-- src/state.rs: the daemon's state machine. The state and its small helpers; the operations are in the
-- child modules, as the source's sections go: the LEDs, messages and keys, what is rendered, the tick.
pub mod Leds
pub mod Screen
pub mod Flow
pub mod Tick
pub mod Events
pub mod Invariant
pub mod Answering
pub mod Reachable
pub mod Lasting
pub mod Messages
pub mod Acting
pub mod Lines
mod Tests
use Prim.Native.String.{String}
use truenas_asustor_chassisd.Base.{
  ℕ, ◌+◌, ◌-◌, ◌*◌, Bool, true, false, Option, none, some, List, [], ◌∷◌, ltb, leb, if◌then◌else◌,
  Text, codes,
}
use truenas_asustor_chassisd.Alarm.{
  Level, Look, BeepMode, Alarm, StatusPattern, default_for, unwrap_or,
}

abbrev pub nanos_per_sec : ℕ
nanos_per_sec = 1_000_000_000

abbrev pub nanos_per_ms : ℕ
nanos_per_ms = 1_000_000

pub data Action : Type 0 where
  shutdown restart : Action

unfoldable pub label : Action → Text
label shutdown = codes "SHUTDOWN"
label restart = codes "RESTART"

pub record Override : Type 0 where
  pub level : Level
  pub look : Look
  pub expires_at : Option ℕ
  pub bay : Option ℕ
  pub line0 : Text
  pub line1 : Text

unfoldable pub beep_of : Override → BeepMode
unfolding default_for
beep_of ov = unwrap_or ov.look.beep (default_for ov.level)

pub data AlertBeep : Type 0 where
  arrival repeat_beep : AlertBeep

pub record ChassisLocate : Type 0 where
  pub until : Option ℕ
  pub hostname : Text

pub data Mode : Type 0 where
  status : Mode
  action_menu : List Action → ℕ → Mode
  confirm : Action → ℕ → Mode
  countdown : Action → ℕ → Text → Mode

unfoldable pub is_status : Mode → Bool
is_status status = true
is_status _ = false

pub record Scroll : Type 0 where
  pub text : Text
  pub offset : ℕ
  pub last_step : Option ℕ
  pub started : Option ℕ
  pub completed_a_pass : Bool

abbrev pub fresh_scroll : Scroll
fresh_scroll = record {
  text = [];
  offset = 0;
  last_step = none;
  started = none;
  completed_a_pass = false;
}

-- `hal::Screen`.
pub record StatusScreen : Type 0 where
  pub line0 : Text
  pub line1 : Text

pub data BayState : Type 0 where
  normal failed_bay alert standby locate_bay : BayState

pub data PowerPattern : Type 0 where
  power_on power_off power_locate : PowerPattern

-- The calls that reach the LEDs (src/led.rs).
pub data LedWrite : Type 0 where
  set_status : StatusPattern → LedWrite
  set_power : PowerPattern → LedWrite
  set_bay set_bay_night : ℕ → BayState → LedWrite
  prime_locate_bay : ℕ → LedWrite
  prime_locate_status : LedWrite
  enter_night_mode exit_night_mode : Bool → LedWrite
  set_front_brightness : ℕ → LedWrite

-- The settings that the state machine reads, from src/config.rs.
pub record Settings : Type 0 where
  pub night_brightness : Option ℕ
  pub lcd_off : Bool
  pub resume_after_secs : ℕ
  pub dwell_secs : ℕ
  pub confirm_timeout_secs : ℕ
  pub scroll_max_chars : ℕ
  pub scroll_pause_ms : ℕ
  pub scroll_step_ms : ℕ
  pub scroll_gap : ℕ

-- What the outside answers while one operation runs: the clock (and its last instant), the hostname,
-- whether the NIC LEDs and the brightness could be written, the alarms of `health_summary` and the
-- states of `bay_states`, and of `refresh_stale`: whether pools or disks were due, whether another
-- input of the status LED may have changed, and the screens that the caches then hold.
pub record World : Type 0 where
  pub now : ℕ
  pub last_instant : ℕ
  pub hostname : Text
  pub nic_problem : Option String
  pub brightness_failed : Option String
  pub health_alarms : List Alarm
  pub bay_states : List (ℕ × BayState)
  pub disks_due : Bool
  pub inputs_new : Bool
  pub fetched : List StatusScreen

-- `Instant::checked_add` from now.
abbrev pub checked_add : World → ℕ → Option ℕ
checked_add w d = if leb (w.now + d) w.last_instant then some (w.now + d) else none

abbrev pub far_future : ℕ
far_future = 10 * 365 * 24 * 3600 * nanos_per_sec

unfoldable pub deadline_after : World → ℕ → ℕ
deadline_after w secs = elim (checked_add w (secs * nanos_per_sec)) [
  | some t ↦ t
  | none ↦ unwrap_or (checked_add w far_future) w.now
]

-- `AppState`, without the caches behind the screens, the health monitor and the driver watch. The
-- LED writes are kept in order, the latest first.
pub record AppState : Type 0 where
  pub cfg : Settings
  pub screens : List StatusScreen
  pub index : ℕ
  pub auto_rotate : Bool
  pub resume_at : Option ℕ
  pub last_dwell : ℕ
  pub mode : Mode
  pub over : Option Override
  pub pending_over : Option Override
  pub beep_pending : Option AlertBeep
  pub next_repeat_beep : Option ℕ
  pub alert_bay : Option ℕ
  pub locate_bays : List (ℕ × Option ℕ)
  pub locate_chassis : Option ChassisLocate
  pub sleeping : Bool
  pub schedule_wants_sleep : Bool
  pub awake_override_until : Option ℕ
  pub scroll0 : Scroll
  pub scroll1 : Scroll
  pub nic_led_problem : Option String
  pub day_brightness : Option ℕ
  pub applied_brightness : Option ℕ
  pub brightness_problem : Option String
  pub status_shown : Option StatusPattern
  pub alarm : Option Alarm
  pub writes : List LedWrite

pub data Effect : Type 0 where
  render_lines : Text → Text → Effect
  run_action : Action → Effect
  nothing : Effect

unfoldable pub new_state : Settings → World → AppState
new_state cfg w = record {
  cfg = cfg;
  screens = [];
  index = 0;
  auto_rotate = true;
  resume_at = none;
  last_dwell = w.now;
  mode = status;
  over = none;
  pending_over = none;
  beep_pending = none;
  next_repeat_beep = none;
  alert_bay = none;
  locate_bays = [];
  locate_chassis = none;
  sleeping = false;
  schedule_wants_sleep = false;
  awake_override_until = none;
  scroll0 = fresh_scroll;
  scroll1 = fresh_scroll;
  nic_led_problem = none;
  day_brightness = none;
  applied_brightness = none;
  brightness_problem = none;
  status_shown = none;
  alarm = none;
  writes = [];
}

-- `reset_scroll`.
abbrev pub reset_scroll : AppState → AppState
reset_scroll s = record s { scroll0 = fresh_scroll; scroll1 = fresh_scroll }

-- `now >= t`, of a deadline that may not be set.
abbrev pub is_due : World → Option ℕ → Bool
is_due w none = false
is_due w (some t) = leb t w.now
