-- ===== src/Socket.antt =====
-- src/socket.rs, the requests: `parse_request`, `parse_message` and what they call, `locate_request`, the
-- bytes that make a request, and the queue to the main loop. A line is a text; the reason of an `Err` is a
-- value with the text it quotes, not yet escaped.
mod Queueing
mod Locating
mod Arguments
mod Strictness
mod Slots
mod Tests
use truenas_asustor_chassisd.Base.{
  ℕ, zero, suc, ◌+◌, ◌-◌, ◌*◌, ◌^◌, Bool, true, false, not, ◌&&◌, ◌||◌, Option, none, some, List,
  [], ◌∷◌, ◌++◌, ltb, leb, ◌==◌, if◌then◌else◌, Text, codes, decimal, take, drop, length,
  to_ascii_lowercase, to_ascii_uppercase, eq_ignore_ascii_case, same_text, one_of, strip_prefix,
  split_once, parse_unsigned, trim, split_whitespace, join,
}
use truenas_asustor_chassisd.Alarm.{
  Level, info, warn, error, critical, Color, green, yellow, red, BeepMode, silent, once, repeating,
  Look, plain_look, is_given, unwrap_or,
}
use truenas_asustor_chassisd.Panel.Flow.{
  SocketCommand, show_cmd, clear_cmd, locate_cmd, locate_off_cmd, status_request,
}

pub data SocketError : Type 0 where
  empty_request status_takes_no_arguments show_usage bay_twice ttl_twice off_takes_no_ttl :
      SocketError
  unknown_level bad_ttl bad_bay unexpected_argument bad_color bad_flash bad_beep not_a_locate :
      Text → SocketError
  given_twice : Text → SocketError
  queue_full shutting_down : SocketError

pub data Result (A : Type 0) : Type 0 where
  ok : A → Result A
  err : SocketError → Result A

infixl 10 ◌>>=◌
abbrev pub ◌>>=◌ : {A B : Type 0} → Result A → (A → Result B) → Result B
ok a >>= f = f a
err e >>= f = err e

abbrev pub ok_or : {A : Type 0} → Option A → SocketError → Result A
ok_or none e = err e
ok_or (some a) e = ok a

abbrev pub u32_max : ℕ
u32_max = 2 ^ 32 - 1

abbrev pub u64_max : ℕ
u64_max = 2 ^ 64 - 1

unfoldable pub parse_level : Text → Option Level
parse_level s =
    let t = to_ascii_lowercase s in
    if one_of t (codes "info" ∷ [])
    then some info
    else if one_of t (codes "warn" ∷ codes "warning" ∷ [])
    then some warn
    else if one_of t (codes "error" ∷ [])
    then some error
    else if one_of t (codes "critical" ∷ [])
    then some critical
    else none

unfoldable pub parse_color : Text → Option Color
parse_color s =
    let t = to_ascii_lowercase s in
    if one_of t (codes "green" ∷ [])
    then some green
    else if one_of t (codes "yellow" ∷ codes "amber" ∷ [])
    then some yellow
    else if one_of t (codes "red" ∷ [])
    then some red
    else none

unfoldable pub parse_beep : Text → Option BeepMode
parse_beep s =
    let t = to_ascii_lowercase s in
    if one_of t (codes "none" ∷ codes "off" ∷ codes "no" ∷ [])
    then some silent
    else if one_of t (codes "once" ∷ codes "on" ∷ codes "yes" ∷ [])
    then some once
    else if one_of t (codes "repeat" ∷ [])
    then some repeating
    else none

unfoldable pub parse_flash : Text → Option Bool
parse_flash s =
    let t = to_ascii_lowercase s in
    if one_of t (codes "flash" ∷ codes "flashing" ∷ codes "on" ∷ codes "yes" ∷ codes "true" ∷ [])
    then some true
    else if one_of t
        (codes "solid" ∷ codes "steady" ∷ codes "off" ∷ codes "no" ∷ codes "false" ∷ [])
    then some false
    else none

unfoldable pub quote : Text → Text
quote s = take 24 s

abbrev pub positive : Option ℕ → Option ℕ
positive none = none
positive (some b) = if ltb 0 b then some b else none

unfoldable pub bay_number : Text → Result ℕ
unfolding quote
bay_number n = ok_or (positive (parse_unsigned u32_max n)) (bad_bay (quote n))

-- The loop of `parse_bay`, with the bay found so far.
unfoldable pub parse_bay_from : Option ℕ → List Text → Result (Option ℕ)
unfolding bay_number quote
parse_bay_from bay [] = ok bay
parse_bay_from bay (part ∷ parts) = elim (strip_prefix (codes "bay=") part) [
  | none ↦ err (unexpected_argument (quote part))
  | some n ↦ do
    b ← bay_number n
    if is_given bay then err bay_twice else parse_bay_from (some b) parts
]

unfoldable pub parse_bay : List Text → Result (Option ℕ)
unfolding parse_bay_from
parse_bay parts = parse_bay_from none parts

-- `get.replace(value).is_some()` refuses a second value.
abbrev pub first_time : {A : Type 0} → Option A → Text → Result Unit
first_time none key = ok tt
first_time (some a) key = err (given_twice key)

abbrev pub key_value : Text → Text × Text
key_value part = elim (split_once b'=' part) [ some p ↦ p | none ↦ (part, []) ]

-- One option of a `SHOW`, into those found so far.
unfoldable pub show_option : Option ℕ → Look → Text → Result (Option ℕ × Look)
unfolding bay_number parse_color parse_flash parse_beep quote
show_option bay look part =
    let (key, value) = key_value part in
    let k = to_ascii_lowercase key in
    if one_of k (codes "bay" ∷ [])
    then (do b ← bay_number value; u ← first_time bay key; ok (some b, look))
    else if one_of k (codes "color" ∷ codes "colour" ∷ [])
    then (do
      c ← ok_or (parse_color value) (bad_color (quote value))
      u ← first_time look.color key
      ok (bay, record look { color = some c }))
    else if one_of k (codes "flash" ∷ [])
    then (do
      f ← ok_or (parse_flash value) (bad_flash (quote value))
      u ← first_time look.flash key
      ok (bay, record look { flash = some f }))
    else if one_of k (codes "beep" ∷ [])
    then (do
      b ← ok_or (parse_beep value) (bad_beep (quote value))
      u ← first_time look.beep key
      ok (bay, record look { beep = some b }))
    else err (unexpected_argument (quote part))

unfoldable pub show_options_from : Option ℕ → Look → List Text → Result (Option ℕ × Look)
unfolding show_option
show_options_from bay look [] = ok (bay, look)
show_options_from bay look (part ∷ parts) = do
  (bay', look') ← show_option bay look part
  show_options_from bay' look' parts

unfoldable pub parse_show_options : List Text → Result (Option ℕ × Look)
unfolding show_options_from
parse_show_options parts = show_options_from none plain_look parts

abbrev pub default_locate_ttl_secs : ℕ
default_locate_ttl_secs = 60

-- What `parse_locate` has found so far: `off`, the bay, the time.
abbrev pub LocateArgs : Type 0
LocateArgs = Bool × Option ℕ × Option ℕ

unfoldable pub locate_arg : LocateArgs → Text → Result LocateArgs
unfolding bay_number quote
locate_arg (off, bay, ttl) part =
    if eq_ignore_ascii_case part (codes "off")
    then ok (true, bay, ttl)
    else elim (strip_prefix (codes "bay=") part) [
      | some n ↦ do b ← bay_number n; if is_given bay then err bay_twice else ok (off, some b, ttl)
      | none ↦ do
        secs ← ok_or (parse_unsigned u64_max part) (not_a_locate (quote part))
        if is_given ttl then err ttl_twice else ok (off, bay, some secs)
    ]

unfoldable pub locate_args : LocateArgs → List Text → Result LocateArgs
unfolding locate_arg
locate_args args [] = ok args
locate_args args (part ∷ parts) = do args' ← locate_arg args part; locate_args args' parts

unfoldable pub finish_locate : LocateArgs → Result SocketCommand
finish_locate (off, bay, ttl) =
    if off
    then (if is_given ttl then err off_takes_no_ttl else ok (locate_off_cmd bay))
    else ok (locate_cmd bay (unwrap_or ttl default_locate_ttl_secs))

unfoldable pub parse_locate : List Text → Result SocketCommand
unfolding locate_args finish_locate
parse_locate parts = do args ← locate_args (false, none, none) parts; finish_locate args

abbrev pub line_at : List Text → ℕ → Text
line_at [] i = []
line_at (l ∷ ls) zero = l
line_at (l ∷ ls) (suc i) = line_at ls i

-- The arm `SHOW`, on the words after it and the lines of the request.
unfoldable pub parse_show : List Text → List Text → Result SocketCommand
unfolding parse_level parse_show_options quote
parse_show [] lines = err show_usage
parse_show (level ∷ []) lines = do
  l ← ok_or (parse_level level) (unknown_level (quote level))
  err show_usage
parse_show (level ∷ ttl ∷ parts) lines = do
  l ← ok_or (parse_level level) (unknown_level (quote level))
  secs ← ok_or (parse_unsigned u64_max ttl) (bad_ttl (quote ttl))
  (bay, look) ← parse_show_options parts
  ok (show_cmd l secs look bay (line_at lines 1) (line_at lines 2))

unfoldable pub bare_text : List Text → SocketCommand
bare_text lines = show_cmd info 5 plain_look none (line_at lines 0) (line_at lines 1)

unfoldable pub parse_words : List Text → List Text → Result SocketCommand
unfolding parse_bay parse_locate parse_show bare_text
parse_words [] lines = err empty_request
parse_words (verb ∷ parts) lines =
    let v = to_ascii_uppercase verb in
    if same_text v (codes "CLEAR")
    then (do bay ← parse_bay parts; ok (clear_cmd bay))
    else if same_text v (codes "LOCATE")
    then parse_locate parts
    else if same_text v (codes "SHOW")
    then parse_show parts lines
    else ok (bare_text lines)

abbrev pub header : List Text → List Text
header lines = split_whitespace (trim (line_at lines 0))

unfoldable pub parse_message : List Text → Result SocketCommand
unfolding parse_words
parse_message lines = parse_words (header lines) lines

-- A `Request::Status` is the command that `status_report` queues.
unfoldable pub request_of_words : List Text → List Text → Result SocketCommand
unfolding parse_words
request_of_words [] lines = parse_words [] lines
request_of_words (verb ∷ parts) lines =
    if eq_ignore_ascii_case verb (codes "STATUS")
    then elim parts [ [] ↦ ok status_request | p ∷ ps ↦ err status_takes_no_arguments ]
    else parse_words (verb ∷ parts) lines

unfoldable pub parse_request : List Text → Result SocketCommand
unfolding request_of_words
parse_request lines = request_of_words (header lines) lines

abbrev pub locate_words : Option ℕ → Option ℕ → Bool → List Text
locate_words bay ttl off =
    (codes "LOCATE" ∷ (if off then codes "off" ∷ [] else []))
    ++ (elim bay [ none ↦ [] | some b ↦ (codes "bay=" ++ decimal b) ∷ [] ]
        ++ elim ttl [ none ↦ [] | some t ↦ decimal t ∷ [] ])

unfoldable pub locate_request : Option ℕ → Option ℕ → Bool → Text
locate_request bay ttl off = join (locate_words bay ttl off)

abbrev pub command_queue_depth : ℕ
command_queue_depth = 64

abbrev pub max_commands_per_pass : ℕ
max_commands_per_pass = 16

-- The queue to the main loop, and whether the loop still listens.
pub record Queue : Type 0 where
  pub waiting : List SocketCommand
  pub connected : Bool

unfoldable pub enqueue : Queue → SocketCommand → Queue × Result Unit
enqueue q cmd =
    if not q.connected
    then (q, err shutting_down)
    else if leb command_queue_depth (length q.waiting)
    then (q, err queue_full)
    else (record q { waiting = q.waiting ++ (cmd ∷ []) }, ok tt)

-- What the main loop takes in a pass, and what stays.
unfoldable pub drain : Queue → List SocketCommand × Queue
drain q = (
  take max_commands_per_pass q.waiting,
  record q { waiting = drop max_commands_per_pass q.waiting },
)

-- `process` up to the reply, on a request that is valid UTF-8.
unfoldable pub accept : Queue → List Text → Queue × Result Unit
unfolding parse_request enqueue
accept q lines = elim (parse_request lines) [ ok cmd ↦ enqueue q cmd | err e ↦ (q, err e) ]

abbrev pub max_request_bytes : ℕ
max_request_bytes = 4096

-- Up to and with the last newline; none without one.
abbrev pub through_newline : List ℕ → Option (List ℕ)
through_newline [] = none
through_newline (b ∷ bs) = elim (through_newline bs) [
  | some kept ↦ some (b ∷ kept)
  | none ↦ if b == 10 then some (b ∷ []) else none
]

-- What is kept of the bytes that came, with a clean end or not.
unfoldable pub read_request : List ℕ → Bool → List ℕ
read_request sent clean =
    let buf = take max_request_bytes sent in
    let capped = leb max_request_bytes (length buf) in
    if not clean || capped
    then elim (through_newline buf) [ some kept ↦ kept | none ↦ if clean then buf else [] ]
    else buf
