-- ===== src/Power/Linting.antt =====
-- src/power.rs, `lint`: what a schedule without a report is free of.
use mathlib.Core.List.{Memᴰ}
use mathlib.Core.List.Memᴰ as Memᴰ
use truenas_asustor_chassisd.Base.{ℕ, ◌+◌, ◌-◌, ◌%◌, ◌≤◌, ◌≢◌, Bool, List}
use truenas_asustor_chassisd.Power.{PowerAction, power_on, shutdown, restart, Rule}
use truenas_asustor_chassisd.Power.Rules.{week, week_minutes, window}

-- Both fall on some minute of the week.
abbrev pub Meet : Rule → Rule → Type 0
Meet a b = (m : ℕ) × Memᴰ m (week_minutes a) × Memᴰ m (week_minutes b)

-- What keeps the minutes of a shutdown and of another rule apart.
abbrev pub IsApart : Rule → PowerAction → ℕ → ℕ → Type 0
IsApart off power_on m n = window off ≤ (n + week - m) % week
IsApart off restart m n = m ≢ n
IsApart off shutdown m n = Unit
