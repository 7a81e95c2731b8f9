-- ===== src/Socket/Tests.antt =====
-- The socket's requests, queue and places at concrete inputs.
use truenas_asustor_chassisd.Base.{◌≡◌, refl, false, some, [], ◌∷◌, ◌++◌, codes, arith}
use truenas_asustor_chassisd.Alarm.{critical, plain_look, repeating}
use truenas_asustor_chassisd.Panel.Flow.{show_cmd, clear_cmd}
use truenas_asustor_chassisd.Socket.{
  ok, err, bay_twice, unexpected_argument, status_takes_no_arguments, parse_request, locate_request,
  header, read_request, parse_level, parse_beep, quote, bay_number, parse_bay_from, parse_bay,
  show_option, show_options_from, parse_show_options, parse_show, parse_words, request_of_words,
}
use truenas_asustor_chassisd.Socket.Locating.{located, parse_request-locate_request}
use truenas_asustor_chassisd.Socket.Strictness.{AsksFor, parse_request-AsksFor}
use truenas_asustor_chassisd.Socket.Slots.{
  Places, outside, seeing, IsCounted, acquire_turn, loads, turns, frees, start, next,
  Steps-IsCounted,
}

shown :
    parse_request (codes " show CRITICAL 10 Bay=2 beep=repeat " ∷ codes "one" ∷ [])
    ≡ ok (
        show_cmd critical 10
          (record plain_look { beep = some repeating })
          (some 2)
          (codes "one")
          [])
unfolding parse_request request_of_words parse_words parse_show parse_level parse_show_options
    show_options_from show_option bay_number parse_beep
shown = refl

refused : parse_request (codes "CLEAR bay=1 bay=2" ∷ []) ≡ err bay_twice
unfolding parse_request request_of_words parse_words parse_bay parse_bay_from bay_number
refused = refl

typo : parse_request (codes "CLEAR by=1" ∷ []) ≡ err (unexpected_argument (codes "by=1"))
unfolding parse_request request_of_words parse_words parse_bay parse_bay_from quote
typo = refl

busy_status : parse_request (codes "status now" ∷ []) ≡ err status_takes_no_arguments
unfolding parse_request request_of_words
busy_status = refl

cleared : parse_request (codes "clear bay=3" ∷ []) ≡ ok (clear_cmd (some 3))
unfolding parse_request request_of_words parse_words parse_bay parse_bay_from bay_number
cleared = refl

cut : read_request (codes "ab" ++ (10 ∷ codes "cd")) false ≡ codes "ab" ++ (10 ∷ [])
unfolding read_request
cut = refl

parse_request-locate_request_example :
    parse_request (locate_request (some 2) (some 90) false ∷ codes "x" ∷ [])
    ≡ located (some 2) (some 90) false
parse_request-locate_request_example =
    parse_request-locate_request (some 2) (some 90) false (codes "x" ∷ [])
      (omega arith, omega arith) (omega arith)

parse_request-AsksFor_example : AsksFor (header (codes "clear bay=3" ∷ [])) (clear_cmd (some 3))
parse_request-AsksFor_example = parse_request-AsksFor (codes "clear bay=3" ∷ []) cleared

-- Two threads race for the last place, and one frees it.
abbrev free : Places
free = record { active = 0; threads = outside ∷ outside ∷ [] }

Steps-IsCounted_example : IsCounted 1 (record { active = 0; threads = outside ∷ seeing 1 ∷ [] })
unfolding acquire_turn IsCounted
Steps-IsCounted_example =
    Steps-IsCounted 1 free (record { active = 0; threads = outside ∷ seeing 1 ∷ [] })
      (refl, omega arith)
      (next (loads 0 refl) (
        next (loads 1 refl)
          (next (turns 0 0 false refl) (next (turns 1 0 false refl) (next (frees 0 refl) start)))))
