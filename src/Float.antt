-- ===== src/Float.antt =====
-- `f32`, whose operations are the machine's: an interface. The sources compare temperatures, and
-- scale one reading between two endpoints; a NaN is a value that is neither `>=` nor `<` another.
pub mod Degrees
use truenas_asustor_chassisd.Base.{ℕ, Bool}

pub record F32 : Type 1 where
  pub Value : Type 0
  pub geq : Value → Value → Bool
  pub leq : Value → Value → Bool
  pub lt : Value → Value → Bool
  pub add : Value → Value → Value
  pub sub : Value → Value → Value
  pub mul : Value → Value → Value
  pub div : Value → Value → Value
  pub from_u8 : ℕ → Value
  pub zero : Value
  -- `x.round().clamp(0.0, 255.0) as u8`
  pub to_u8 : Value → ℕ
  -- `PLAUSIBLE_MAX_C`, 125.0
  pub plausible_max : Value
