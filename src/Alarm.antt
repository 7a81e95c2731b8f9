-- ===== src/Alarm.antt =====
-- src/alarm.rs, with the levels, looks and beeps of src/socket.rs and the status LED patterns of
-- src/led.rs that alarms are made of.
pub mod Severity
mod Tests
use truenas_asustor_chassisd.Base.{
  ℕ, Bool, true, false, not, ◌&&◌, Option, none, some, List, [], ◌∷◌, leb, ltb, ◌==◌, if◌then◌else◌,
  Text,
}

pub data Level : Type 0 where
  info warn error critical : Level

-- The derived order.
abbrev pub rank : Level → ℕ
rank info = 0
rank warn = 1
rank error = 2
rank critical = 3

unfoldable pub always_visible : Level → Bool
always_visible l = leb (rank error) (rank l)

pub data Color : Type 0 where
  green yellow red : Color

pub data BeepMode : Type 0 where
  silent once repeating : BeepMode

unfoldable pub default_for : Level → BeepMode
default_for info = silent
default_for warn = silent
default_for error = once
default_for critical = repeating

pub record Look : Type 0 where
  pub color : Option Color
  pub flash : Option Bool
  pub beep : Option BeepMode

abbrev pub plain_look : Look
plain_look = record { color = none; flash = none; beep = none }

pub data StatusPattern : Type 0 where
  ok warning green_flashing warning_flashing degraded failed critical_flashing locating off :
      StatusPattern

unfoldable pub severity : StatusPattern → ℕ
severity ok = 0
severity green_flashing = 0
severity locating = 0
severity off = 0
severity warning = 1
severity warning_flashing = 1
severity degraded = 2
severity failed = 3
severity critical_flashing = 4

-- `==` on the patterns, through the discriminants.
abbrev pub discriminant : StatusPattern → ℕ
discriminant ok = 0
discriminant warning = 1
discriminant green_flashing = 2
discriminant warning_flashing = 3
discriminant degraded = 4
discriminant failed = 5
discriminant critical_flashing = 6
discriminant locating = 7
discriminant off = 8

abbrev pub unwrap_or : {A : Type 0} → Option A → A → A
unwrap_or none d = d
unwrap_or (some a) d = a

abbrev pub is_given : {A : Type 0} → Option A → Bool
is_given none = false
is_given (some a) = true

abbrev pub pattern_of : Color → Bool → StatusPattern
pattern_of green false = ok
pattern_of green true = green_flashing
pattern_of yellow false = warning
pattern_of yellow true = warning_flashing
pattern_of red false = failed
pattern_of red true = critical_flashing

abbrev pub level_look : Level → Color × Bool
level_look info = (green, false)
level_look warn = (yellow, false)
level_look error = (red, false)
level_look critical = (red, true)

unfoldable pub pattern_for_show : Level → Look → Option StatusPattern
pattern_for_show level look =
    if (rank level == rank info) && (not (is_given look.color) && not (is_given look.flash))
    then none
    else some (
        pattern_of (unwrap_or look.color (level_look level).0)
          (unwrap_or look.flash (level_look level).1))

pub record Alarm : Type 0 where
  pub level : Level
  pub pattern : StatusPattern
  pub line0 : Text
  pub line1 : Text

unfoldable pub health_pattern : Level → Option StatusPattern
health_pattern info = none
health_pattern warn = some warning
health_pattern error = some failed
health_pattern critical = some critical_flashing

unfoldable pub new_alarm : Level → Text → Text → Option Alarm
unfolding health_pattern
new_alarm level line0 line1 = elim (health_pattern level) [
  | none ↦ none
  | some p ↦ some (record { level = level; pattern = p; line0 = line0; line1 = line1 })
]

-- The fold of `most_critical`.
abbrev pub worse : Option Alarm → Alarm → Option Alarm
worse none a = some a
worse (some b) a = if leb (severity a.pattern) (severity b.pattern) then some b else some a

abbrev pub most_critical_from : Option Alarm → List Alarm → Option Alarm
most_critical_from best [] = best
most_critical_from best (a ∷ alarms) = most_critical_from (worse best a) alarms

unfoldable pub most_critical : List Alarm → Option Alarm
most_critical alarms = most_critical_from none alarms
