-- ===== src/Lcm/Port.antt =====
-- src/protocol.rs, the state of `Lcm` and its two loops over the port, `send_within` and
-- `read_frame`. What the kernel answers to each system call is the port's script: a list of answers
-- with the time at which they came, consumed from the front. `Instant::now()` reads the time of the
-- last answer; a sleep moves it on. When the script is used up, a write fails and a read is quiet.
pub mod Writing
pub mod Reading
use truenas_asustor_chassisd.Base.{
  ℕ, zero, suc, ◌+◌, ◌-◌, ◌*◌, ◌/◌, ◌≤◌, ◌<◌, Bool, true, false, not, ◌&&◌, ◌||◌, Option, none,
  some, List, [], ◌∷◌, ◌++◌, ltb, leb, ◌==◌, if◌then◌else◌, length, take, drop, get_or,
}
use truenas_asustor_chassisd.Lcm.Frame.{Frame, op_command, op_ack, frame_max, encode, decode}

abbrev pub millis : ℕ
millis = 1_000_000

abbrev pub settle : ℕ
settle = 20 * millis

abbrev pub write_timeout : ℕ
write_timeout = 1000 * millis

abbrev pub ack_timeout : ℕ
ack_timeout = 300 * millis

abbrev pub retry_backoff : ℕ
retry_backoff = 100 * millis

-- Ten bits a byte at 115200 baud, in whole microseconds.
unfoldable pub wire_time : ℕ → ℕ
wire_time bytes = bytes * 10 * 1_000_000 / 115_200 * 1000

pub data IoError : Type 0 where
  write_zero timed_out other : IoError

-- `io::Result`, and a third case for a loop that ran out of fuel (it never does: `Link.Acks`).
pub data Outcome (A : Type 0) : Type 0 where
  ok : A → Outcome A
  err : IoError → Outcome A
  diverged : Outcome A

-- `quiet`: the call would block, and `poll` timed out; `would_block`: it would block, and `poll` then
-- reported the port ready (or, for a read, the kernel had no byte after all).
pub data Answer : Type 0 where
  wrote byte : ℕ → Answer
  interrupted would_block quiet failed : Answer

pub record Event : Type 0 where
  pub at : ℕ
  pub answer : Answer

pub record LinkStats : Type 0 where
  pub writes : ℕ
  pub retries : ℕ
  pub failures : ℕ

-- `struct Lcm`; its `port` is the clock, the script and the bytes that the kernel has taken so far.
-- A text is the list of its characters.
pub record Lcm : Type 0 where
  pub clock : ℕ
  pub script : List Event
  pub written : List ℕ
  pub pending : List Frame
  pub last_sent_0 : Option (List ℕ)
  pub last_sent_1 : Option (List ℕ)
  pub display_on : Option Bool
  pub last_rx : Option ℕ
  pub stats : LinkStats
  pub tx_started : ℕ

-- `with_port`.
unfoldable pub with_port : ℕ → List Event → Lcm
with_port now script = record {
  clock = now;
  script = script;
  written = [];
  pending = [];
  last_sent_0 = none;
  last_sent_1 = none;
  display_on = none;
  last_rx = none;
  stats = record { writes = 0; retries = 0; failures = 0 };
  tx_started = now;
}

-- One answer to `port.write`: how many bytes it took before the loop goes round again, or the error
-- that ends it.
unfoldable pub on_write : ℕ → Event → Outcome ℕ
on_write deadline e = elim e.answer [
  | wrote n ↦ if n == 0 then err write_zero else ok n
  | interrupted ↦ ok 0
  | would_block ↦ if leb deadline e.at then err timed_out else ok 0
  | quiet ↦ err timed_out
  | byte b ↦ err other
  | failed ↦ err other
]

-- The loop of `send_within`: what is left of the frame goes out piece by piece.
unfoldable pub write_rest : ℕ → List Event → Lcm → List ℕ → Outcome (Unit {0}) × Lcm
write_rest deadline script l [] = (ok tt, record l { script = script })
write_rest deadline [] l (b ∷ rest) = (err other, record l { script = [] })
write_rest deadline (e ∷ script) l (b ∷ rest) = elim (on_write deadline e) [
  | ok n ↦
      write_rest deadline script
        (record l { clock = e.at; written = l.written ++ take n (b ∷ rest) }) (drop n (b ∷ rest))
  | err x ↦ (err x, record l { clock = e.at; script = script })
  | diverged ↦ (diverged, l)
]

-- `thread::sleep`.
unfoldable pub sleep : ℕ → Lcm → Lcm
sleep d l = record l { clock = l.clock + d }

-- What is left of `SETTLE` since the last byte from the panel.
unfoldable pub settle_wait : Lcm → ℕ
settle_wait l = elim l.last_rx [ none ↦ 0 | some last ↦ settle - (l.clock - last) ]

unfoldable pub send_within : Lcm → ℕ → ℕ → List ℕ → ℕ → Outcome (Unit {0}) × Lcm
unfolding sleep settle_wait
send_within l opcode subcmd payload timeout =
    let rested = sleep (settle_wait l) l in
    write_rest (rested.clock + timeout) rested.script (record rested { tx_started = rested.clock })
      (encode opcode subcmd payload)

unfoldable pub send : Lcm → ℕ → ℕ → List ℕ → Outcome (Unit {0}) × Lcm
unfolding send_within
send l opcode subcmd payload = send_within l opcode subcmd payload write_timeout

-- `ack`: status 0.
unfoldable pub ack : Lcm → ℕ → Outcome (Unit {0}) × Lcm
unfolding send
ack l subcmd = send l op_ack subcmd (0 ∷ [])

abbrev pub is_opcode : ℕ → Bool
is_opcode b = b == op_command || b == op_ack

-- Byte 1 says how long the frame is; it is whole once that many bytes have come.
unfoldable pub is_whole : List ℕ → Bool
is_whole buf =
    let expected = get_or buf 1 0 + 4 in
    leb 2 (length buf) && (leb expected frame_max && leb expected (length buf))

-- What one turn of `read_frame`'s loop does: go round again with this buffer, or stop with it.
pub data Turn : Type 0 where
  again stop : List ℕ → Turn

unfoldable pub on_read : Answer → List ℕ → Turn
unfolding is_whole
on_read (byte b) buf =
    if length buf == 0 && not (is_opcode b)
    then again buf
    else if is_whole (buf ++ b ∷ [])
    then stop (buf ++ b ∷ [])
    else again (buf ++ b ∷ [])
on_read would_block buf = again buf
on_read interrupted buf = again buf
on_read quiet buf = stop buf
on_read failed buf = stop buf
on_read (wrote n) buf = stop buf

-- `self.last_rx` is set by every byte.
abbrev pub heard : Event → Option ℕ → Option ℕ
heard e rx = elim e.answer [ byte b ↦ some e.at | _ ↦ rx ]

-- The loop of `read_frame`.
unfoldable pub read_bytes : ℕ → ℕ → List Event → Lcm → List ℕ → List ℕ × Lcm
unfolding on_read
read_bytes start timeout [] l buf = (buf, record l { script = [] })
read_bytes start timeout (e ∷ script) l buf =
    let l' = record l { clock = e.at; last_rx = heard e l.last_rx } in
    elim (ltb (length buf) frame_max && ltb (l.clock - start) timeout) [
      | false ↦ (buf, record l { script = e ∷ script })
      | true ↦ elim (on_read e.answer buf) [
        | again buf' ↦ read_bytes start timeout script l' buf'
        | stop buf' ↦ (buf', record l' { script = script })
      ]
    ]

abbrev pub decode_received : List ℕ → Option Frame
decode_received [] = none
decode_received (b ∷ buf) = decode (b ∷ buf)

unfoldable pub read_frame : Lcm → ℕ → Option Frame × Lcm
unfolding read_bytes
read_frame l timeout =
    let (buf, l') = read_bytes l.clock timeout l.script l [] in (decode_received buf, l')
