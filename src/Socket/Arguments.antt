-- ===== src/Socket/Arguments.antt =====
-- src/socket.rs, the arguments of `CLEAR`, `LOCATE` and `SHOW`: what they must be for the loops to accept them.
use mathlib.Core.Option.{some-injective, none-ne-some, some-ne-none}
use mathlib.Core.Path.{subst}
use truenas_asustor_chassisd.Base.{
  ℕ, ◌+◌, ◌-◌, ◌*◌, ◌≤◌, ◌≡◌, refl, sym, inl, inr, Bool, true, ◌&&◌, Option, none, some, List, [],
  ◌∷◌, ◌++◌, ltb, leb, ltb→lt, ◌==◌, Text, codes, one_of, arith, strip_prefix, parse_digits,
  parse_nonempty, parse_unsigned, between, to_ascii_lowercase, if-cases, eq_ignore_ascii_case,
  Option-cases, ==_iff,
}
use truenas_asustor_chassisd.Alarm.{is_given, Look}
use truenas_asustor_chassisd.Socket.{
  Result, ok, err, bad_bay, not_a_locate, quote, ◌>>=◌, ok_or, SocketError, u32_max, u64_max,
  positive, bay_number, parse_bay_from, parse_bay, locate_arg, locate_args, show_option,
  show_options_from, LocateArgs, first_time, key_value,
}
use truenas_asustor_chassisd.Socket.Locating.{IsBay, IsTtl}

-- A result that is no error has the property.
abbrev pub Holds : {A : Type 0} → (A → Type 0) → Result A → Type 0
Holds P (ok a) = P a
Holds P (err e) = Unit

pub Holds-bind :
    {A B : Type 0} (P : A → Type 0) (Q : B → Type 0) (r : Result A) (f : A → Result B)
    → Holds P r
    → ((a : A) → P a → Holds Q (f a))
    → Holds Q (r >>= f)
Holds-bind P Q (ok a) f h k = k a h
Holds-bind P Q (err e) f h k = tt

pub Holds-map :
    {A : Type 0} (P Q : A → Type 0) (r : Result A) → Holds P r → ((a : A) → P a → Q a) → Holds Q r
Holds-map P Q (ok a) h k = k a h
Holds-map P Q (err e) h k = tt

pub Holds-all :
    {A B : Type 0} (Q : B → Type 0) (r : Result A) (f : A → Result B)
    → ((a : A) → Holds Q (f a))
    → Holds Q (r >>= f)
Holds-all Q (ok a) f k = k a
Holds-all Q (err e) f k = tt

abbrev IsAtMost : ℕ → Option ℕ → Type 0
IsAtMost max none = Unit
IsAtMost max (some n) = n ≤ max

parse_digits-IsAtMost : (max n : ℕ) (t : Text) → n ≤ max → IsAtMost max (parse_digits max n t)
parse_digits-IsAtMost max n [] h = h
parse_digits-IsAtMost max n (c ∷ t) h =
    if-cases (λ o. IsAtMost max o) (between b'0' b'9' c && leb (n * 10 + (c - b'0')) max)
      (λ on. parse_digits-IsAtMost max (n * 10 + (c - b'0')) t (ground arith)) (λ off. tt)

parse_nonempty-IsAtMost : (max : ℕ) (t : Text) → IsAtMost max (parse_nonempty max t)
parse_nonempty-IsAtMost max [] = tt
parse_nonempty-IsAtMost max (c ∷ t) = parse_digits-IsAtMost max 0 (c ∷ t) (omega arith)

parse_unsigned-IsAtMost : (max : ℕ) (t : Text) → IsAtMost max (parse_unsigned max t)
parse_unsigned-IsAtMost max [] = tt
parse_unsigned-IsAtMost max (c ∷ t) =
    if-cases (λ o. IsAtMost max o) (c == b'+') (λ plus. parse_nonempty-IsAtMost max t)
      (λ plain. parse_nonempty-IsAtMost max (c ∷ t))

-- The number that a text reads as.
abbrev pub Reads : Text → ℕ → Type 0
Reads n b = (parse_unsigned u32_max n ≡ some b) × IsBay (some b)

bay_number-Reads : (n : Text) → Holds (Reads n) (bay_number n)
unfolding bay_number
bay_number-Reads n = read (parse_unsigned u32_max n) refl (parse_unsigned-IsAtMost u32_max n)
  where
    read :
        (o : Option ℕ)
        → parse_unsigned u32_max n ≡ o
        → IsAtMost u32_max o
        → Holds (Reads n) (ok_or (positive o) (bad_bay (quote n)))
    read none e h = tt
    read (some b) e h =
        if-cases (λ o. Holds (Reads n) (ok_or o (bad_bay (quote n)))) (ltb 0 b)
          (λ on. (e, (ltb→lt 0 b on, h))) (λ off. tt)

strip_prefix_sound : (p t : Text) {n : Text} → strip_prefix p t ≡ some n → t ≡ p ++ n
strip_prefix_sound [] t h = some-injective _ _ h
strip_prefix_sound (c ∷ p) [] h = absurd (none-ne-some _ h)
strip_prefix_sound (c ∷ p) (d ∷ t) {n} h =
    if-cases (λ o. o ≡ some n → d ∷ t ≡ c ∷ p ++ n) (c == d)
      (λ same e. same_head ((==_iff c d).0 same) (strip_prefix_sound p t e))
      (λ other e. absurd (none-ne-some _ e)) h
  where
    same_head : c ≡ d → t ≡ p ++ n → d ∷ t ≡ c ∷ p ++ n
    same_head e rest = λ i. sym e i ∷ rest i

abbrev pub IsClearArg : List Text → Option ℕ → Type 0
IsClearArg parts none = parts ≡ []
IsClearArg parts (some b) = (n : Text) × (parts ≡ (codes "bay=" ++ n) ∷ []) × Reads n b

-- After a bay, a `CLEAR` takes nothing more.
parse_bay_given :
    (b : ℕ) (parts : List Text)
    → Holds (λ bay. (bay ≡ some b) × (parts ≡ [])) (parse_bay_from (some b) parts)
unfolding parse_bay_from
parse_bay_given b [] = (refl, refl)
parse_bay_given b (part ∷ parts) = elim (Option-cases (strip_prefix (codes "bay=") part)) [
  | inl other ↦ rw other tt
  | inr (n, found) ↦
      rw found (Holds-all (λ bay. (bay ≡ some b) × (part ∷ parts ≡ [])) (bay_number n) _ (λ b'. tt))
]

pub parse_bay-IsClearArg : (parts : List Text) → Holds (IsClearArg parts) (parse_bay parts)
unfolding parse_bay parse_bay_from
parse_bay-IsClearArg [] = refl
parse_bay-IsClearArg (part ∷ parts) = elim (Option-cases (strip_prefix (codes "bay=") part)) [
  | inl other ↦ rw other tt
  | inr (n, found) ↦ rw found (
      Holds-bind (Reads n) (IsClearArg (part ∷ parts)) (bay_number n) _ (bay_number-Reads n)
        (λ b reads.
          Holds-map (λ bay. (bay ≡ some b) × (parts ≡ [])) (IsClearArg (part ∷ parts))
            (parse_bay_from (some b) parts) (parse_bay_given b parts)
            (λ bay (same, nothing). subst (IsClearArg (part ∷ parts)) (sym same) (
              n,
              ends part parts n (strip_prefix_sound (codes "bay=") part found) nothing,
              reads,
            ))))
]
  where
    ends :
        (part : Text) (parts : List Text) (n : Text)
        → part ≡ codes "bay=" ++ n
        → parts ≡ []
        → part ∷ parts ≡ (codes "bay=" ++ n) ∷ []
    ends part parts n e nothing = λ i. e i ∷ nothing i

-- No argument names a bay.
abbrev pub NamesNoBay : List Text → Type 0
NamesNoBay [] = Unit
NamesNoBay (part ∷ parts) = (strip_prefix (codes "bay=") part ≡ none) × NamesNoBay parts

off_not_bay :
    (part : Text)
    → eq_ignore_ascii_case part (codes "off") ≡ true
    → strip_prefix (codes "bay=") part ≡ none
off_not_bay [] h = refl
off_not_bay (c ∷ t) h =
    if-cases (λ o. o ≡ none) (b'b' == c) (λ b. absurd (ground arith)) (λ other. refl)

-- What the arguments of a `LOCATE` come to from those before: in range, and without a bay only if there
-- was none and they name none.
abbrev pub IsLocateArgs : Option ℕ → List Text → LocateArgs → Type 0
IsLocateArgs before parts (off, bay, ttl) =
    IsBay bay × IsTtl ttl × (bay ≡ none → (before ≡ none) × NamesNoBay parts)

pub seconds-IsTtl :
    (e : SocketError) (part : Text)
    → Holds (λ secs. IsTtl (some secs)) (ok_or (parse_unsigned u64_max part) e)
seconds-IsTtl e part = in_range (parse_unsigned u64_max part) (parse_unsigned-IsAtMost u64_max part)
  where
    in_range : (o : Option ℕ) → IsAtMost u64_max o → Holds (λ secs. IsTtl (some secs)) (ok_or o e)
    in_range none h = tt
    in_range (some t) h = h

locate_arg-IsLocateArgs :
    (off : Bool) (bay ttl : Option ℕ) (part : Text)
    → IsBay bay
    → IsTtl ttl
    → Holds (IsLocateArgs bay (part ∷ [])) (locate_arg (off, bay, ttl) part)
unfolding locate_arg
locate_arg-IsLocateArgs off bay ttl part hb ht =
    if-cases (Holds (IsLocateArgs bay (part ∷ []))) (eq_ignore_ascii_case part (codes "off"))
      (λ is_off. (hb, ht, λ e. (e, (off_not_bay part is_off, tt))))
      (λ other. elim (Option-cases (strip_prefix (codes "bay=") part)) [
        | inl plain ↦ rw plain (
            Holds-bind (λ secs. IsTtl (some secs)) (IsLocateArgs bay (part ∷ []))
              (ok_or (parse_unsigned u64_max part) (not_a_locate (quote part))) _
              (seconds-IsTtl (not_a_locate (quote part)) part)
              (λ secs fits.
                if-cases (Holds (IsLocateArgs bay (part ∷ []))) (is_given ttl) (λ twice. tt)
                  (λ once. (hb, fits, λ e. (e, (plain, tt))))))
        | inr (n, found) ↦ rw found (
            Holds-bind (Reads n) (IsLocateArgs bay (part ∷ [])) (bay_number n) _
              (bay_number-Reads n)
              (λ b reads.
                if-cases (Holds (IsLocateArgs bay (part ∷ []))) (is_given bay) (λ twice. tt)
                  (λ once. (reads.1, ht, λ e. absurd (some-ne-none _ e)))))
      ])

pub locate_args-IsLocateArgs :
    (off : Bool) (bay ttl : Option ℕ) (parts : List Text)
    → IsBay bay
    → IsTtl ttl
    → Holds (IsLocateArgs bay parts) (locate_args (off, bay, ttl) parts)
unfolding locate_args
locate_args-IsLocateArgs off bay ttl [] hb ht = (hb, ht, λ e. (e, tt))
locate_args-IsLocateArgs off bay ttl (part ∷ parts) hb ht =
    Holds-bind (IsLocateArgs bay (part ∷ [])) (IsLocateArgs bay (part ∷ parts))
      (locate_arg (off, bay, ttl) part) (λ args. locate_args args parts)
      (locate_arg-IsLocateArgs off bay ttl part hb ht)
      (λ (off', bay', ttl') (hb', ht', none').
        Holds-map (IsLocateArgs bay' parts) (IsLocateArgs bay (part ∷ parts))
          (locate_args (off', bay', ttl') parts)
          (locate_args-IsLocateArgs off' bay' ttl' parts hb' ht')
          (λ (off'', bay'', ttl'') (hb'', ht'', none''). (
            hb'',
            ht'',
            λ e.
                let (given, unnamed) = none'' e in
                let (before, first) = none' given in (before, (first.0, unnamed)),
          )))

show_option-IsBay :
    (bay : Option ℕ) (look : Look) (part : Text)
    → IsBay bay
    → Holds (λ (r : Option ℕ × Look). IsBay r.0) (show_option bay look part)
unfolding show_option
show_option-IsBay bay look part hb =
    let P = λ (r : Option ℕ × Look). IsBay r.0 in
    let (key, value) = key_value part in
    let k = to_ascii_lowercase key in
    if-cases (Holds P) (one_of k (codes "bay" ∷ []))
      (λ is_bay.
        Holds-bind (Reads value) P (bay_number value) _ (bay_number-Reads value)
          (λ b reads. Holds-all P (first_time bay key) _ (λ u. reads.1)))
      (λ no_bay.
        if-cases (Holds P) (one_of k (codes "color" ∷ codes "colour" ∷ []))
          (λ is_color. Holds-all P _ _ (λ c. Holds-all P (first_time look.color key) _ (λ u. hb)))
          (λ no_color.
            if-cases (Holds P) (one_of k (codes "flash" ∷ []))
              (λ is_flash.
                Holds-all P _ _ (λ f. Holds-all P (first_time look.flash key) _ (λ u. hb)))
              (λ no_flash.
                if-cases (Holds P) (one_of k (codes "beep" ∷ []))
                  (λ is_beep.
                    Holds-all P _ _ (λ b. Holds-all P (first_time look.beep key) _ (λ u. hb)))
                  (λ unknown. tt))))

pub show_options_from-IsBay :
    (bay : Option ℕ) (look : Look) (parts : List Text)
    → IsBay bay
    → Holds (λ (r : Option ℕ × Look). IsBay r.0) (show_options_from bay look parts)
unfolding show_options_from
show_options_from-IsBay bay look [] hb = hb
show_options_from-IsBay bay look (part ∷ parts) hb =
    Holds-bind (λ (r : Option ℕ × Look). IsBay r.0) (λ (r : Option ℕ × Look). IsBay r.0)
      (show_option bay look part) _ (show_option-IsBay bay look part hb)
      (λ (bay', look') hb'. show_options_from-IsBay bay' look' parts hb')
