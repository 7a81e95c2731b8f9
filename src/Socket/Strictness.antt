-- ===== src/Socket/Strictness.antt =====
-- src/socket.rs, `parse_request`: what a request must say to be taken for a command.
use mathlib.Core.Path.{subst}
use truenas_asustor_chassisd.Base.{
  ℕ, ◌≤◌, ◌≡◌, refl, Bool, true, false, Option, none, some, List, [], ◌∷◌, Text, codes, arith,
  same_text, to_ascii_uppercase, if-cases, eq_ignore_ascii_case,
}
use truenas_asustor_chassisd.Alarm.{is_given, unwrap_or, Look, Level, plain_look}
use truenas_asustor_chassisd.Panel.Flow.{
  SocketCommand, show_cmd, clear_cmd, locate_cmd, locate_off_cmd, status_request,
}
use truenas_asustor_chassisd.Socket.{
  Result, ok, err, status_takes_no_arguments, quote, ◌>>=◌, ok_or, u64_max, parse_bay, locate_args,
  finish_locate, parse_locate, parse_show_options, parse_show, line_at, parse_level, unknown_level,
  bad_ttl, bare_text, header, parse_words, request_of_words, parse_request, default_locate_ttl_secs,
}
use truenas_asustor_chassisd.Socket.Locating.{IsBay, IsTtl}
use truenas_asustor_chassisd.Socket.Arguments.{
  Holds, Holds-bind, Holds-all, IsClearArg, NamesNoBay, IsLocateArgs, seconds-IsTtl,
  parse_bay-IsClearArg, locate_args-IsLocateArgs, show_options_from-IsBay,
}

-- The first word of a header, as a verb.
abbrev pub is_verb : Text → Text → Bool
is_verb verb name = same_text (to_ascii_uppercase verb) name

-- What a request must say to ask for a command.
abbrev pub Asks : Text → List Text → SocketCommand → Type 0
Asks verb args status_request = (eq_ignore_ascii_case verb (codes "STATUS") ≡ true) × (args ≡ [])
Asks verb args (clear_cmd bay) =
    (is_verb verb (codes "CLEAR") ≡ true) × IsBay bay × IsClearArg args bay
Asks verb args (locate_cmd bay secs) =
    (is_verb verb (codes "LOCATE") ≡ true)
    × IsBay bay
    × (secs ≤ u64_max)
    × (bay ≡ none → NamesNoBay args)
Asks verb args (locate_off_cmd bay) =
    (is_verb verb (codes "LOCATE") ≡ true) × IsBay bay × (bay ≡ none → NamesNoBay args)
Asks verb args (show_cmd level secs look bay line0 line1) =
    (eq_ignore_ascii_case verb (codes "STATUS") ≡ false)
    × (is_verb verb (codes "CLEAR") ≡ false)
    × (is_verb verb (codes "LOCATE") ≡ false)
    × IsBay bay
    × (secs ≤ u64_max)

-- A request whose header is `words`.
abbrev pub AsksFor : List Text → SocketCommand → Type 0
AsksFor [] cmd = ⊥
AsksFor (verb ∷ args) cmd = Asks verb args cmd

clear-Asks :
    (verb : Text) (args : List Text)
    → is_verb verb (codes "CLEAR") ≡ true
    → Holds (Asks verb args) (parse_bay args >>= (λ bay. ok (clear_cmd bay)))
clear-Asks verb args named =
    Holds-bind (IsClearArg args) (Asks verb args) (parse_bay args) _ (parse_bay-IsClearArg args)
      (λ bay is_arg. (named, in_range bay is_arg, is_arg))
  where
    in_range : (bay : Option ℕ) → IsClearArg args bay → IsBay bay
    in_range none h = tt
    in_range (some b) h = h.2.1

locate-Asks :
    (verb : Text) (args : List Text)
    → is_verb verb (codes "LOCATE") ≡ true
    → Holds (Asks verb args) (parse_locate args)
unfolding parse_locate finish_locate
locate-Asks verb args named =
    Holds-bind (IsLocateArgs none args) (Asks verb args) (locate_args (false, none, none) args) _
      (locate_args-IsLocateArgs false none none args tt tt)
      (λ (off, bay, ttl) (hb, ht, unnamed).
        if-cases (Holds (Asks verb args)) off
          (λ stops.
            if-cases (Holds (Asks verb args)) (is_given ttl) (λ timed. tt)
              (λ plain. (named, hb, λ e. (unnamed e).1)))
          (λ starts. (named, hb, secs ttl ht, λ e. (unnamed e).1)))
  where
    secs : (ttl : Option ℕ) → IsTtl ttl → unwrap_or ttl default_locate_ttl_secs ≤ u64_max
    secs none h = omega arith
    secs (some t) h = h

parse_show-Holds :
    (parts lines : List Text) (P : SocketCommand → Type 0)
    → ((level : Level) (secs : ℕ) (look : Look) (bay : Option ℕ)
        → IsBay bay
        → secs ≤ u64_max
        → P (show_cmd level secs look bay (line_at lines 1) (line_at lines 2)))
    → Holds P (parse_show parts lines)
unfolding parse_show parse_show_options
parse_show-Holds [] lines P shows = tt
parse_show-Holds (level ∷ []) lines P shows =
    Holds-all P (ok_or (parse_level level) (unknown_level (quote level))) _ (λ l. tt)
parse_show-Holds (level ∷ ttl ∷ parts) lines P shows =
    Holds-all P (ok_or (parse_level level) (unknown_level (quote level))) _ (λ l.
      Holds-bind (λ secs. IsTtl (some secs)) P _ _ (seconds-IsTtl (bad_ttl (quote ttl)) ttl)
        (λ secs fits.
          Holds-bind (λ (r : Option ℕ × Look). IsBay r.0) P (parse_show_options parts) _
            (show_options_from-IsBay none plain_look parts tt)
            (λ (bay, look) hb. shows l secs look bay hb fits)))

request-Asks :
    (verb : Text) (args lines : List Text)
    → Holds (Asks verb args) (request_of_words (verb ∷ args) lines)
unfolding request_of_words parse_words bare_text
request-Asks verb args lines =
    if-cases Ok (eq_ignore_ascii_case verb (codes "STATUS")) (λ status. reported args status)
      (λ other.
        if-cases Ok (is_verb verb (codes "CLEAR")) (λ clears. clear-Asks verb args clears)
          (λ keeps.
            if-cases Ok (is_verb verb (codes "LOCATE")) (λ locates. locate-Asks verb args locates)
              (λ stays.
                if-cases Ok (is_verb verb (codes "SHOW"))
                  (λ shows.
                    parse_show-Holds args lines (Asks verb args)
                      (λ level secs look bay hb fits. (other, keeps, stays, hb, fits)))
                  (λ bare. (other, keeps, stays, tt, omega arith)))))
  where
    Ok : Result SocketCommand → Type 0
    Ok r = Holds (Asks verb args) r

    reported :
        (args : List Text)
        → eq_ignore_ascii_case verb (codes "STATUS") ≡ true
        → Holds
            (Asks verb args)
            (elim args [ [] ↦ ok status_request | p ∷ ps ↦ err status_takes_no_arguments ])
    reported [] status = (status, refl)
    reported (p ∷ ps) status = tt

-- A command is taken only from a request that asks for it, whatever its lines: the report from a lone
-- STATUS; clearing all messages from a lone CLEAR, and one bay's from a CLEAR with just that bay;
-- locating the chassis, or stopping all locates, from a LOCATE no argument of which names a bay; and a
-- text is shown only where the first word is none of these three. Bays count from 1, and bays and times
-- fit their types.
pub parse_request-AsksFor :
    (lines : List Text) {cmd : SocketCommand}
    → parse_request lines ≡ ok cmd
    → AsksFor (header lines) cmd
unfolding parse_request
parse_request-AsksFor lines {cmd} h =
    subst (Holds (AsksFor (header lines))) h (of_words (header lines))
  where
    of_words : (words : List Text) → Holds (AsksFor words) (request_of_words words lines)
    of_words [] = tt
    of_words (verb ∷ args) = request-Asks verb args lines
