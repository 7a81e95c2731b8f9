-- ===== src/Lcm/Frame.antt =====
-- src/protocol.rs, the frames on the wire: `encode`, `checksum`, `decode`, `Frame`, `Key` and
-- `line_bytes`. A byte is a number; the slices of the source are `take` and `drop`.
pub mod RoundTrip
pub mod Corruption
pub mod Text
use truenas_asustor_chassisd.Base.{
  ℕ, zero, suc, ◌+◌, ◌-◌, ◌%◌, ◌≤◌, ◌<◌, min, Bool, true, false, not, ◌&&◌, ◌||◌, Option, none,
  some, List, [], ◌∷◌, ◌++◌, map, ltb, leb, ◌==◌, if◌then◌else◌, length, take, drop, get_or,
  replicate,
}
use mathlib.Core.List.{foldl}

abbrev pub op_command : ℕ
op_command = 0xF0

abbrev pub op_ack : ℕ
op_ack = 0xF1

abbrev pub sub_key : ℕ
sub_key = 0x80

abbrev pub sub_set_text : ℕ
sub_set_text = 0x27

abbrev pub sub_display : ℕ
sub_display = 0x11

abbrev pub sub_init_2 : ℕ
sub_init_2 = 0x22

-- Longest frame on the wire: header (3), payload, checksum (1).
abbrev pub frame_max : ℕ
frame_max = 22

abbrev pub payload_max : ℕ
payload_max = frame_max - 4

abbrev pub line_width : ℕ
line_width = 16

pub data Key : Type 0 where
  up down back enter wake : Key
  unknown : ℕ → Key

-- `impl From<u8> for Key`.
unfoldable pub key_from : ℕ → Key
key_from code =
    if code == 1
    then up
    else if code == 2
    then down
    else if code == 3
    then back
    else if code == 4
    then enter
    else if code == 5
    then wake
    else unknown code

pub record Frame : Type 0 where
  pub opcode : ℕ
  pub subcmd : ℕ
  pub payload : List ℕ
  pub checksum_ok : Bool

unfoldable pub is_unsolicited : Frame → Bool
is_unsolicited f = f.checksum_ok && f.opcode == op_command

abbrev first : List ℕ → Option ℕ
first [] = none
first (b ∷ _) = some b

abbrev as_key : Option ℕ → Option Key
as_key none = none
as_key (some b) = some (key_from b)

unfoldable pub key : Frame → Option Key
unfolding is_unsolicited
key f = if is_unsolicited f && f.subcmd == sub_key then as_key (first f.payload) else none

-- `acc.wrapping_add(*b)` on `u8`.
abbrev pub wrapping_add : ℕ → ℕ → ℕ
wrapping_add acc b = (acc + b) % 256

unfoldable pub checksum : List ℕ → ℕ
checksum bytes = foldl wrapping_add 0 bytes

-- The payload that is sent: `&payload[..payload.len().min(PAYLOAD_MAX)]`.
abbrev pub clip : List ℕ → List ℕ
clip payload = take (min (length payload) payload_max) payload

abbrev pub header : ℕ → ℕ → List ℕ → List ℕ
header opcode subcmd payload = opcode ∷ length payload ∷ subcmd ∷ payload

unfoldable pub encode : ℕ → ℕ → List ℕ → List ℕ
encode opcode subcmd payload =
    let buf = header opcode subcmd (clip payload) in buf ++ checksum buf ∷ []

unfoldable pub decode : List ℕ → Option Frame
decode buf =
    let n = get_or buf 1 0 in
    let cksum_idx = n + 3 in
    if ltb (length buf) 4
    then none
    else some (record {
      opcode = get_or buf 0 0;
      subcmd = get_or buf 2 0;
      payload = drop 3 (take (min (3 + n) (length buf)) buf);
      checksum_ok =
          ltb cksum_idx (length buf) && checksum (take cksum_idx buf) == get_or buf cksum_idx 0;
    })

-- `c.is_ascii() && !c.is_ascii_control()`, on a code point.
abbrev pub is_printable : ℕ → Bool
is_printable c = ltb c 128 && not (ltb c 32 || c == 127)

abbrev pub to_byte : ℕ → ℕ
to_byte c = if is_printable c then c else b'?'

-- The iterator `chars().map(..).chain(repeat(b' ')).take(LINE_WIDTH)`: `n` bytes are left to take.
unfoldable pub padded : ℕ → List ℕ → List ℕ
padded zero chars = []
padded (suc n) [] = b' ' ∷ padded n []
padded (suc n) (c ∷ chars) = to_byte c ∷ padded n chars

unfoldable pub line_bytes : List ℕ → List ℕ
unfolding padded
line_bytes text = padded line_width text
