-- ===== src/Float/Degrees.antt =====
-- Temperatures as whole degrees: an instance of `f32`'s interface, for concrete runs.
use Prim.Native.Nat.{◌/◌}
use truenas_asustor_chassisd.Base.{ℕ, ◌+◌, ◌-◌, ◌*◌, ltb, leb, min}
use truenas_asustor_chassisd.Float.{F32}

abbrev pub degrees : F32
degrees = record {
  Value = ℕ;
  geq = λ a b. leb b a;
  leq = leb;
  lt = ltb;
  add = λ a b. a + b;
  sub = λ a b. a - b;
  mul = λ a b. a * b;
  div = λ a b. a / b;
  from_u8 = λ n. n;
  zero = 0;
  to_u8 = λ n. min n 255;
  plausible_max = 125;
}
