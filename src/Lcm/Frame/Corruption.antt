-- ===== src/Lcm/Frame/Corruption.antt =====
-- Decoding a frame with one wrong byte, and one that was cut short.
use truenas_asustor_chassisd.Base.{
  ℕ, zero, suc, ◌+◌, ◌%◌, ◌≤◌, ◌<◌, min, ◌≡◌, ◌≢◌, refl, ap, false, none, some, List, [], ◌∷◌, ◌++◌,
  ltb, ◌==◌, length, take, drop, set, get_or, length-set, length-take, arith, ◌⊎◌, inl, inr,
}
use mathlib.Core.List.{foldl}
use mathlib.Core.Path.{subst}
use native.Mathlib.Decide.{dec_lt}
use truenas_asustor_chassisd.Lcm.Frame.{Frame, clip, header, wrapping_add, checksum, encode, decode}
use truenas_asustor_chassisd.Lcm.Frame.RoundTrip.{length-clip, length-encode, decode-header}

abbrev pub IsByte : ℕ → Type 0
IsByte b = b < 256

abbrev pub AllBytes : List ℕ → Type 0
AllBytes [] = Unit
AllBytes (b ∷ bs) = IsByte b × AllBytes bs

abbrev sum : List ℕ → ℕ
sum [] = 0
sum (b ∷ bs) = b + sum bs

foldl-wrapping_add :
    (acc : ℕ) (bs : List ℕ) → foldl wrapping_add acc bs % 256 ≡ (acc + sum bs) % 256
foldl-wrapping_add acc [] = omega arith
foldl-wrapping_add acc (b ∷ bs) = omega (arith, foldl-wrapping_add ((acc + b) % 256) bs)

foldl-lt : (acc : ℕ) (bs : List ℕ) → acc < 256 → foldl wrapping_add acc bs < 256
foldl-lt acc [] h = h
foldl-lt acc (b ∷ bs) h = foldl-lt ((acc + b) % 256) bs (omega arith)

-- The checksum is the 8-bit sum.
pub checksum-eq-sum : (bs : List ℕ) → checksum bs ≡ sum bs % 256
unfolding checksum
checksum-eq-sum bs = omega (arith, foldl-wrapping_add 0 bs, foldl-lt 0 bs (omega arith))

sum-set : (bs : List ℕ) (i b : ℕ) → i < length bs → sum (set bs i b) + get_or bs i 0 ≡ sum bs + b
sum-set [] i b h = elim h [ ]
sum-set (x ∷ bs) zero b h = omega arith
sum-set (x ∷ bs) (suc i) b h = omega (arith, sum-set bs i b (omega arith))

get_or-IsByte : (bs : List ℕ) (i : ℕ) → AllBytes bs → get_or bs i 0 < 256
get_or-IsByte [] i h = omega arith
get_or-IsByte (b ∷ bs) zero h = h.0
get_or-IsByte (b ∷ bs) (suc i) h = get_or-IsByte bs i h.1

abbrev pub IsRejected : List ℕ → Type 0
IsRejected wire = (f : Frame) × (decode wire ≡ some f) × (f.checksum_ok ≡ false)

-- A header and payload whose sum is not the last byte.
reject :
    (opcode subcmd c : ℕ) (payload : List ℕ)
    → checksum (header opcode subcmd payload) ≢ c
    → IsRejected (header opcode subcmd payload ++ c ∷ [])
reject opcode subcmd c payload h = (
  record {
    opcode = opcode;
    subcmd = subcmd;
    payload = payload;
    checksum_ok = checksum (header opcode subcmd payload) == c;
  },
  decode-header opcode subcmd c payload,
  ground arith,
)

set-append_lt : (xs ys : List ℕ) (i b : ℕ) → i < length xs → set (xs ++ ys) i b ≡ set xs i b ++ ys
set-append_lt [] ys i b h = elim h [ ]
set-append_lt (x ∷ xs) ys zero b h = refl
set-append_lt (x ∷ xs) ys (suc i) b h = ap (λ r. x ∷ r) (set-append_lt xs ys i b (omega arith))

set-append_length : (xs : List ℕ) (c b : ℕ) → set (xs ++ c ∷ []) (length xs) b ≡ xs ++ b ∷ []
set-append_length [] c b = refl
set-append_length (x ∷ xs) c b = ap (λ r. x ∷ r) (set-append_length xs c b)

get_or-append_lt : (xs ys : List ℕ) (i : ℕ) → i < length xs → get_or (xs ++ ys) i 0 ≡ get_or xs i 0
get_or-append_lt [] ys i h = elim h [ ]
get_or-append_lt (x ∷ xs) ys zero h = refl
get_or-append_lt (x ∷ xs) ys (suc i) h = get_or-append_lt xs ys i (omega arith)

get_or-append_last : (xs : List ℕ) (c : ℕ) → get_or (xs ++ c ∷ []) (length xs) 0 ≡ c
get_or-append_last [] c = refl
get_or-append_last (x ∷ xs) c = get_or-append_last xs c

-- The same where the length byte is that of another payload of the same length.
reject_same_length :
    (opcode subcmd c n : ℕ) (payload : List ℕ)
    → length payload ≡ n
    → checksum (header opcode subcmd payload) ≢ c
    → IsRejected (opcode ∷ n ∷ subcmd ∷ (payload ++ c ∷ []))
reject_same_length opcode subcmd c n payload e h =
    subst (λ k. IsRejected (opcode ∷ k ∷ subcmd ∷ (payload ++ c ∷ []))) e
      (reject opcode subcmd c payload h)

module _ (opcode subcmd : ℕ) (payload : List ℕ) where
  abbrev sealed : List ℕ
  sealed = header opcode subcmd payload ++ checksum (header opcode subcmd payload) ∷ []

  sealed-set :
      (i b : ℕ)
      → i < length payload + 4
      → i ≢ 1
      → IsByte b
      → AllBytes (opcode ∷ subcmd ∷ payload)
      → get_or sealed i 0 ≢ b
      → IsRejected (set sealed i b)
  sealed-set zero b inside one byte bytes wrong = reject b subcmd _ payload (
      omega (
        arith,
        checksum-eq-sum (header opcode subcmd payload),
        checksum-eq-sum (header b subcmd payload),
        bytes,
      ))
  sealed-set (suc zero) b inside one byte bytes wrong = absurd (one refl)
  sealed-set (suc (suc zero)) b inside one byte bytes wrong = reject opcode b _ payload (
      omega (
        arith,
        checksum-eq-sum (header opcode subcmd payload),
        checksum-eq-sum (header opcode b payload),
        bytes,
      ))
  sealed-set (suc (suc (suc j))) b inside one byte bytes wrong = elim (dec_lt j (length payload)) [
    | yes within ↦
        rw (set-append_lt payload (checksum (header opcode subcmd payload) ∷ []) j b within) (
          reject_same_length opcode subcmd _ (length payload) (set payload j b)
            (length-set payload j b)
            (omega (
              arith,
              checksum-eq-sum (header opcode subcmd payload),
              checksum-eq-sum (header opcode subcmd (set payload j b)),
              length-set payload j b,
              sum-set payload j b within,
              get_or-IsByte payload j bytes.1.1,
              get_or-append_lt payload (checksum (header opcode subcmd payload) ∷ []) j within,
            )))
    | no beyond ↦
        let last : j ≡ length payload = omega arith in
        let there : get_or sealed (suc (suc (suc (length payload)))) 0 ≢ b =
          subst (λ k. get_or sealed (suc (suc (suc k))) 0 ≢ b) last wrong in
        rw (last, set-append_length payload (checksum (header opcode subcmd payload)) b)
          (reject opcode subcmd b payload (
            omega
              (arith, there, get_or-append_last payload (checksum (header opcode subcmd payload)))))
  ]

AllBytes-take : (n : ℕ) (bs : List ℕ) → AllBytes bs → AllBytes (take n bs)
AllBytes-take zero bs h = tt
AllBytes-take (suc n) [] h = tt
AllBytes-take (suc n) (b ∷ bs) h = (h.0, AllBytes-take n bs h.1)

-- Change any one byte of an encoded frame but its length byte to another byte: the frame still
-- decodes, and its checksum is reported as bad.
pub corrupt-encode :
    (opcode subcmd : ℕ) (payload : List ℕ) (i b : ℕ)
    → AllBytes (opcode ∷ subcmd ∷ payload)
    → IsByte b
    → i < length (encode opcode subcmd payload)
    → i ≢ 1
    → get_or (encode opcode subcmd payload) i 0 ≢ b
    → IsRejected (set (encode opcode subcmd payload) i b)
unfolding encode
corrupt-encode opcode subcmd payload i b bytes byte inside one wrong =
    sealed-set opcode subcmd (clip payload) i b
      (omega (arith, length-encode opcode subcmd payload, length-clip payload)) one byte
      (bytes.0, (bytes.1.0, AllBytes-take _ payload bytes.1.1)) wrong

take_of_prefix :
    (k : ℕ) (xs : List ℕ) → 4 ≤ k → k ≤ length xs → get_or (take k xs) 1 0 ≡ get_or xs 1 0
take_of_prefix (suc (suc k)) (x ∷ y ∷ xs) h g = refl
take_of_prefix zero xs h g = absurd (omega arith)
take_of_prefix (suc zero) xs h g = absurd (omega arith)
take_of_prefix (suc (suc k)) [] h g = absurd (omega arith)
take_of_prefix (suc (suc k)) (x ∷ []) h g = absurd (omega arith)

-- The length byte promises more than there is.
decode_short : (buf : List ℕ) → 4 ≤ length buf → length buf ≤ get_or buf 1 0 + 3 → IsRejected buf
unfolding decode
decode_short buf long missing =
    let n = get_or buf 1 0 in
    let bounded : ltb (length buf) 4 ≡ false = ground arith in
    let outside : ltb (get_or buf 1 0 + 3) (length buf) ≡ false = ground arith in
    (
      record {
        opcode = get_or buf 0 0;
        subcmd = get_or buf 2 0;
        payload = drop 3 (take (min (3 + n) (length buf)) buf);
        checksum_ok = false;
      },
      rw (bounded, outside),
      refl,
    )

get_or-encode-length :
    (opcode subcmd : ℕ) (payload : List ℕ)
    → get_or (encode opcode subcmd payload) 1 0 ≡ length (clip payload)
unfolding encode
get_or-encode-length opcode subcmd payload = refl

-- A frame that is cut short after its header and one more byte decodes with a bad checksum; one
-- that is cut shorter does not decode at all.
pub truncate-encode :
    (opcode subcmd : ℕ) (payload : List ℕ) (k : ℕ)
    → k < length (encode opcode subcmd payload)
    → ((k < 4) × (decode (take k (encode opcode subcmd payload)) ≡ none))
      ⊎ ((4 ≤ k) × IsRejected (take k (encode opcode subcmd payload)))
unfolding decode
truncate-encode opcode subcmd payload k inside = elim (dec_lt k 4) [
  | yes short ↦ inl (short, ground (arith, length-take k (encode opcode subcmd payload)))
  | no long ↦ inr (
    omega arith,
    decode_short (take k (encode opcode subcmd payload))
        (omega (arith, length-take k (encode opcode subcmd payload)))
        (omega (
          arith,
          length-take k (encode opcode subcmd payload),
          length-encode opcode subcmd payload,
          take_of_prefix k (encode opcode subcmd payload) (omega arith) (omega arith),
          get_or-encode-length opcode subcmd payload,
          length-clip payload,
        )),
  )
]
