-- ===== src/Lcm/Frame/RoundTrip.antt =====
-- Encoding then decoding a frame, and the sizes on the wire.
use truenas_asustor_chassisd.Base.{
  ℕ, suc, ◌+◌, min, ◌≡◌, refl, ap, true, false, some, List, [], ◌∷◌, ◌++◌, ltb, ◌==◌, length, take,
  get_or, length-append, length-take, arith,
}
use truenas_asustor_chassisd.Lcm.Frame.{payload_max, clip, header, checksum, encode, decode}

take-append_length : (xs ys : List ℕ) → take (length xs) (xs ++ ys) ≡ xs
take-append_length [] ys = refl
take-append_length (x ∷ xs) ys = ap (λ r. x ∷ r) (take-append_length xs ys)

get_or-append_length :
    (xs : List ℕ) (y : ℕ) (ys : List ℕ) (d : ℕ) → get_or (xs ++ y ∷ ys) (length xs) d ≡ y
get_or-append_length [] y ys d = refl
get_or-append_length (x ∷ xs) y ys d = get_or-append_length xs y ys d

pub length-clip : (payload : List ℕ) → length (clip payload) ≡ min (length payload) payload_max
length-clip payload = omega (arith, length-take (min (length payload) payload_max) payload)

pub length-encode :
    (opcode subcmd : ℕ) (payload : List ℕ)
    → length (encode opcode subcmd payload) ≡ min (length payload) payload_max + 4
unfolding encode
length-encode opcode subcmd payload = omega (
  arith,
  length-append (header opcode subcmd (clip payload))
      (checksum (header opcode subcmd (clip payload)) ∷ []),
  length-clip payload,
)

module _ (opcode subcmd c : ℕ) (payload : List ℕ) where
  abbrev wire : List ℕ
  wire = header opcode subcmd payload ++ c ∷ []

  length-wire : length wire ≡ length payload + 4
  length-wire = omega (arith, length-append payload (c ∷ []))

  take-wire : (k : ℕ) → k ≡ length payload + 3 → take k wire ≡ header opcode subcmd payload
  take-wire k e =
      let e' : k ≡ suc (suc (suc (length payload))) = omega arith in
      rw e' (ap (λ r. opcode ∷ length payload ∷ subcmd ∷ r) (take-append_length payload (c ∷ [])))

  get_or-wire : (k : ℕ) → k ≡ length payload + 3 → get_or wire k 0 ≡ c
  get_or-wire k e =
      let e' : k ≡ suc (suc (suc (length payload))) = omega arith in
      rw e' (get_or-append_length payload c [] 0)

  -- `decode` on a header, its payload and one more byte.
  pub decode-header :
      decode wire
      ≡ some (record {
        opcode = opcode;
        subcmd = subcmd;
        payload = payload;
        checksum_ok = checksum (header opcode subcmd payload) == c;
      })
  unfolding decode
  decode-header =
      let long : ltb (length wire) 4 ≡ false = ground (arith, length-wire) in
      let inside : ltb (length payload + 3) (length wire) ≡ true = ground (arith, length-wire) in
      let whole : take (min (3 + length payload) (length wire)) wire
          ≡ header opcode subcmd payload =
        take-wire _ (omega (arith, length-wire)) in
      rw (
        long,
        inside,
        whole,
        take-wire (length payload + 3) refl,
        get_or-wire (length payload + 3) refl,
      )

-- A frame decodes to what was encoded, with a good checksum: the opcode, the subcommand and the
-- payload, cut to the longest that fits a frame.
pub decode-encode :
    (opcode subcmd : ℕ) (payload : List ℕ)
    → decode (encode opcode subcmd payload)
      ≡ some
          (record { opcode = opcode; subcmd = subcmd; payload = clip payload; checksum_ok = true })
unfolding encode
decode-encode opcode subcmd payload =
    let same : (checksum (header opcode subcmd (clip payload))
          == checksum (header opcode subcmd (clip payload)))
        ≡ true =
      ground arith in
    rw (
      decode-header opcode subcmd (checksum (header opcode subcmd (clip payload))) (clip payload),
      same,
    )
