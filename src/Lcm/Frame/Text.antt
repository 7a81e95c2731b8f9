-- ===== src/Lcm/Frame/Text.antt =====
-- One line of the display as bytes.
use truenas_asustor_chassisd.Base.{
  ℕ, zero, suc, ◌-◌, ◌≤◌, ◌<◌, ◌≡◌, refl, ap, List, [], ◌∷◌, ◌++◌, length, take, replicate, map,
  arith,
}
use truenas_asustor_chassisd.Lcm.Frame.{to_byte, padded, line_bytes}

abbrev pub AllPrintable : List ℕ → Type 0
AllPrintable [] = Unit
AllPrintable (c ∷ cs) = (32 ≤ c) × (c < 127) × AllPrintable cs

padded-length : (n : ℕ) (chars : List ℕ) → length (padded n chars) ≡ n
unfolding padded
padded-length zero chars = refl
padded-length (suc n) [] = ap suc (padded-length n [])
padded-length (suc n) (c ∷ chars) = ap suc (padded-length n chars)

padded-AllPrintable : (n : ℕ) (chars : List ℕ) → AllPrintable (padded n chars)
unfolding padded
padded-AllPrintable zero chars = tt
padded-AllPrintable (suc n) [] = (omega arith, omega arith, padded-AllPrintable n [])
padded-AllPrintable (suc n) (c ∷ chars) = (ground arith, ground arith, padded-AllPrintable n chars)

padded-nil : (n : ℕ) → padded n [] ≡ replicate n b' '
unfolding padded
padded-nil zero = refl
padded-nil (suc n) = ap (λ r. b' ' ∷ r) (padded-nil n)

padded-eq :
    (n : ℕ) (chars : List ℕ)
    → padded n chars ≡ take n (map to_byte chars) ++ replicate (n - length chars) b' '
unfolding padded
padded-eq zero chars = let e : 0 - length chars ≡ 0 = omega arith in rw e
padded-eq (suc n) [] = let e : suc n - 0 ≡ suc n = omega arith in rw e (padded-nil (suc n))
padded-eq (suc n) (c ∷ chars) =
    let e : suc n - suc (length chars) ≡ n - length chars = omega arith in
    rw e (ap (λ r. to_byte c ∷ r) (padded-eq n chars))

-- A line is 16 bytes, each of them printable ASCII, whatever the text: the text's first 16 characters,
-- with `?` for those that the panel cannot show, then spaces.
pub line_bytes-AllPrintable :
    (text : List ℕ)
    → (length (line_bytes text) ≡ 16)
      × AllPrintable (line_bytes text)
      × (line_bytes text ≡ take 16 (map to_byte text) ++ replicate (16 - length text) b' ')
unfolding line_bytes
line_bytes-AllPrintable text =
    (padded-length 16 text, padded-AllPrintable 16 text, padded-eq 16 text)
