-- ===== src/Socket/Locating.antt =====
-- src/socket.rs, `locate_request` against `parse_request`.
use mathlib.Core.Path.{subst, ap}
use truenas_asustor_chassisd.Base.{
  ℕ, ◌≤◌, ◌<◌, ◌≡◌, refl, sym, ◌∙◌, Bool, true, false, ◌&&◌, Option, none, some, List, [], ◌∷◌,
  ◌++◌, lt→ltb, Text, codes, decimal, arith, strip_prefix, parse_unsigned, join, is_word, all_dark,
  all_words, is_digit, between, same_text, to_ascii_lowercase, ◌==◌, if-cases, eq_ignore_ascii_case,
  parse_unsigned-decimal, decimal_shape, split_whitespace-trim, split_whitespace-join,
}
use truenas_asustor_chassisd.Alarm.{unwrap_or}
use truenas_asustor_chassisd.Panel.Flow.{SocketCommand, locate_cmd, locate_off_cmd}
use truenas_asustor_chassisd.Socket.{
  Result, ok, err, off_takes_no_ttl, u32_max, u64_max, bay_number, default_locate_ttl_secs,
  locate_arg, locate_args, finish_locate, parse_locate, header, parse_words, request_of_words,
  parse_request, locate_words, locate_request,
}

abbrev pub IsBay : Option ℕ → Type 0
IsBay none = Unit
IsBay (some b) = (0 < b) × (b ≤ u32_max)

abbrev pub IsTtl : Option ℕ → Type 0
IsTtl none = Unit
IsTtl (some t) = t ≤ u64_max

locate_arg-bay :
    (off : Bool) (ttl : Option ℕ) (b : ℕ)
    → 0 < b
    → b ≤ u32_max
    → locate_arg (off, none, ttl) (codes "bay=" ++ decimal b) ≡ ok (off, some b, ttl)
unfolding locate_arg bay_number
locate_arg-bay off ttl b above below =
    rw (parse_unsigned-decimal u32_max b below, lt→ltb 0 b above) refl

digit_not_off :
    (c : ℕ) (t : Text) → is_digit c ≡ true → eq_ignore_ascii_case (c ∷ t) (codes "off") ≡ false
digit_not_off c t h =
    if-cases (λ x. ((x == b'o') && same_text (to_ascii_lowercase t) (codes "ff")) ≡ false)
      (between b'A' b'Z' c) (λ upper. absurd (ground arith)) (λ plain. ground arith)

digit_not_bay : (c : ℕ) (t : Text) → is_digit c ≡ true → strip_prefix (codes "bay=") (c ∷ t) ≡ none
digit_not_bay c t h =
    if-cases (λ o. o ≡ none) (b'b' == c) (λ b. absurd (ground arith)) (λ other. refl)

locate_arg-number :
    (off : Bool) (bay : Option ℕ) (s : Text) {t : ℕ}
    → eq_ignore_ascii_case s (codes "off") ≡ false
    → strip_prefix (codes "bay=") s ≡ none
    → parse_unsigned u64_max s ≡ some t
    → locate_arg (off, bay, none) s ≡ ok (off, bay, some t)
unfolding locate_arg
locate_arg-number off bay s not_off not_bay number = rw (not_off, not_bay, number) refl

locate_arg-ttl :
    (off : Bool) (bay : Option ℕ) (t : ℕ)
    → t ≤ u64_max
    → locate_arg (off, bay, none) (decimal t) ≡ ok (off, bay, some t)
locate_arg-ttl off bay t below =
    let (c, cs, e, digit, dark) = decimal_shape t in
    locate_arg-number off bay (decimal t)
      (subst (λ x. eq_ignore_ascii_case x (codes "off") ≡ false) (sym e) (digit_not_off c cs digit))
      (subst (λ x. strip_prefix (codes "bay=") x ≡ none) (sym e) (digit_not_bay c cs digit))
      (parse_unsigned-decimal u64_max t below)

decimal-is_word : (n : ℕ) → (is_word (decimal n) ≡ true) × (all_dark (decimal n) ≡ true)
decimal-is_word n =
    let (c, t, e, digit, dark) = decimal_shape n in
    (subst (λ x. is_word x ≡ true) (sym e) dark, subst (λ x. all_dark x ≡ true) (sym e) dark)

bay-is_word : (b : ℕ) → is_word (codes "bay=" ++ decimal b) ≡ true
bay-is_word b = rw ((decimal-is_word b).1) refl

locate_words-all_words :
    (bay ttl : Option ℕ) (off : Bool) → all_words (locate_words bay ttl off) ≡ true
locate_words-all_words none none true = refl
locate_words-all_words none none false = refl
locate_words-all_words none (some t) true = rw ((decimal-is_word t).0) refl
locate_words-all_words none (some t) false = rw ((decimal-is_word t).0) refl
locate_words-all_words (some b) none true = rw ((decimal-is_word b).1) refl
locate_words-all_words (some b) none false = rw ((decimal-is_word b).1) refl
locate_words-all_words (some b) (some t) true =
    rw ((decimal-is_word b).1, (decimal-is_word t).0) refl
locate_words-all_words (some b) (some t) false =
    rw ((decimal-is_word b).1, (decimal-is_word t).0) refl

header-locate_request :
    (bay ttl : Option ℕ) (off : Bool) (lines : List Text)
    → header (locate_request bay ttl off ∷ lines) ≡ locate_words bay ttl off
unfolding locate_request
header-locate_request bay ttl off lines =
    split_whitespace-trim (join (locate_words bay ttl off))
    ∙ split_whitespace-join (locate_words bay ttl off) (locate_words-all_words bay ttl off)

option_words : Option ℕ → Option ℕ → List Text
option_words bay ttl =
    elim bay [ none ↦ [] | some b ↦ (codes "bay=" ++ decimal b) ∷ [] ]
    ++ elim ttl [ none ↦ [] | some t ↦ decimal t ∷ [] ]

locate_args-options :
    (bay ttl : Option ℕ) (off : Bool)
    → IsBay bay
    → IsTtl ttl
    → locate_args (off, none, none) (option_words bay ttl) ≡ ok (off, bay, ttl)
unfolding locate_args option_words
locate_args-options none none off hb ht = refl
locate_args-options none (some t) off hb ht = rw (locate_arg-ttl off none t ht) refl
locate_args-options (some b) none off hb ht = rw (locate_arg-bay off none b hb.0 hb.1) refl
locate_args-options (some b) (some t) off hb ht =
    rw (locate_arg-bay off none b hb.0 hb.1, locate_arg-ttl off (some b) t ht) refl

locate_args-words :
    (bay ttl : Option ℕ) (off : Bool) (lines : List Text)
    → IsBay bay
    → IsTtl ttl
    → request_of_words (locate_words bay ttl off) lines ≡ finish_locate (off, bay, ttl)
unfolding request_of_words parse_words parse_locate locate_args locate_arg option_words
locate_args-words bay ttl true lines hb ht = rw (locate_args-options bay ttl true hb ht) refl
locate_args-words bay ttl false lines hb ht = rw (locate_args-options bay ttl false hb ht) refl

-- What a request to locate does: an `off` with a time is refused.
abbrev pub located : Option ℕ → Option ℕ → Bool → Result SocketCommand
located bay ttl false = ok (locate_cmd bay (unwrap_or ttl default_locate_ttl_secs))
located bay none true = ok (locate_off_cmd bay)
located bay (some t) true = err off_takes_no_ttl

-- A request that the client makes for any bay from 1 and any time that fit their types, whatever lines
-- follow it, is parsed as exactly that: locating that bay for that time (60 seconds if none is given), or
-- no longer locating it; one to stop that has a time is refused.
pub parse_request-locate_request :
    (bay ttl : Option ℕ) (off : Bool) (lines : List Text)
    → IsBay bay
    → IsTtl ttl
    → parse_request (locate_request bay ttl off ∷ lines) ≡ located bay ttl off
unfolding parse_request
parse_request-locate_request bay ttl off lines hb ht =
    let all = locate_request bay ttl off ∷ lines in
    ap (λ ws. request_of_words ws all) (header-locate_request bay ttl off lines)
    ∙ locate_args-words bay ttl off all hb ht
    ∙ finished bay ttl off
  where
    finished :
        (bay ttl : Option ℕ) (off : Bool) → finish_locate (off, bay, ttl) ≡ located bay ttl off
    finished bay ttl false = refl
    finished bay none true = refl
    finished bay (some t) true = refl
