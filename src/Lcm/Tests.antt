-- ===== src/Lcm/Tests.antt =====
-- Runs of the panel's protocol, and its theorems at concrete frames and scripts.
use truenas_asustor_chassisd.Base.{
  ℕ, ◌+◌, ◌≡◌, refl, ◌⊎◌, ◌≤◌, true, Option, none, some, List, [], ◌∷◌, ◌++◌, set, length,
  replicate, arith,
}
use truenas_asustor_chassisd.Lcm.Frame.{
  key_from, Key, up, Frame, checksum, key, encode, decode, line_bytes, op_command, op_ack, sub_key,
  sub_set_text,
}
use truenas_asustor_chassisd.Lcm.Frame.RoundTrip.{decode-encode}
use truenas_asustor_chassisd.Lcm.Frame.Corruption.{IsRejected, corrupt-encode}
use truenas_asustor_chassisd.Lcm.Frame.Text.{AllPrintable, line_bytes-AllPrintable}
use truenas_asustor_chassisd.Lcm.Port.{
  ok, Event, wrote, quiet, Lcm, with_port, settle, on_write, write_rest, wire_time, send,
  send_within, read_frame,
}
use truenas_asustor_chassisd.Lcm.Port.Writing.{Sent, SameLink, send_within-Sent}
use truenas_asustor_chassisd.Lcm.Port.Reading.{arrivals, hear, read_frame-arrivals}
use truenas_asustor_chassisd.Lcm.Link.{earliest_ack, send_and_ack, set_text}
use truenas_asustor_chassisd.Lcm.Link.Acks.{Ended, send_and_ack-Ended}

-- The captured ACK of the source's test: F1 01 27 00, checksum 19.
captured_ack : encode op_ack sub_set_text (0 ∷ []) ≡ 0xF1 ∷ 1 ∷ 0x27 ∷ 0 ∷ 0x19 ∷ []
unfolding encode checksum
captured_ack = refl

abbrev map_key : Option Frame → Option Key
map_key none = none
map_key (some f) = key f

key_press : map_key (decode (encode op_command sub_key (1 ∷ []))) ≡ some up
unfolding decode encode key key_from checksum
key_press = refl

decode-encode_example :
    decode (encode 0xF0 0x27 (0 ∷ 1 ∷ []))
    ≡ some (record { opcode = 0xF0; subcmd = 0x27; payload = 0 ∷ 1 ∷ []; checksum_ok = true })
decode-encode_example = decode-encode 0xF0 0x27 (0 ∷ 1 ∷ [])

corrupt-encode_example : IsRejected (set (encode 0xF1 0x27 (0 ∷ [])) 3 9)
unfolding encode
corrupt-encode_example =
    corrupt-encode 0xF1 0x27 (0 ∷ []) 3 9 (omega arith) (omega arith) (omega arith) (omega arith)
      (omega arith)

line_bytes-AllPrintable_example :
    (length (line_bytes (b'h' ∷ 200 ∷ [])) ≡ 16)
    × AllPrintable (line_bytes (b'h' ∷ 200 ∷ []))
    × (line_bytes (b'h' ∷ 200 ∷ []) ≡ b'h' ∷ b'?' ∷ replicate 14 b' ')
line_bytes-AllPrintable_example = line_bytes-AllPrintable (b'h' ∷ 200 ∷ [])

abbrev ack_bytes : List (ℕ × ℕ)
ack_bytes = (10, 0xF1) ∷ (20, 1) ∷ (30, 0x27) ∷ (40, 0) ∷ (50, 0x19) ∷ []

-- A port that takes the frame in two pieces, then answers with the ACK, byte by byte, after 5 ms.
abbrev answering : List Event
answering =
    record { at = 1000; answer = wrote 10 }
    ∷ record { at = 2000; answer = wrote 12 }
    ∷ arrivals (
        (5_000_000, 0xF1)
        ∷ (5_000_001, 1)
        ∷ (5_000_002, 0x27)
        ∷ (5_000_003, 0)
        ∷ (5_000_004, 0x19)
        ∷ [])

abbrev idle : Lcm
idle = with_port 0 answering

set_text_runs :
    let (r, m) = set_text idle 0 (b'h' ∷ b'i' ∷ []) 0 in
    (r ≡ ok true) × (m.last_sent_0 ≡ some (b'h' ∷ b'i' ∷ [])) × (m.stats.retries ≡ 0)
unfolding set_text encode decode send_within read_frame with_port send write_rest on_write
    line_bytes checksum wire_time
set_text_runs = (refl, refl, refl)

send_within-Sent_example :
    let (r, m) = send_within (with_port 0 answering) 0xF0 0x27 (0 ∷ []) 1000 in
    Sent (with_port 0 answering).written (encode 0xF0 0x27 (0 ∷ [])) r m.written
    × SameLink (with_port 0 answering) m
    × (length m.script ≤ length (with_port 0 answering).script)
    × ((with_port 0 answering).clock ≤ m.tx_started)
    × (((with_port 0 answering).last_rx ≡ none)
        ⊎ ((t : ℕ) × ((with_port 0 answering).last_rx ≡ some t) × (t + settle ≤ m.tx_started)))
unfolding with_port
send_within-Sent_example =
    send_within-Sent (with_port 0 answering) 0xF0 0x27 (0 ∷ []) 1000 (λ t e. cc)

read_frame-arrivals_example :
    read_frame
      (record (with_port 0 []) {
        script =
            arrivals ((7, 0x41) ∷ [])
            ++ (arrivals ack_bytes ++ record { at = 99; answer = quiet } ∷ []);
      })
      1000
    ≡ (
      some (record { opcode = 0xF1; subcmd = 0x27; payload = 0 ∷ []; checksum_ok = true }),
      record (hear ack_bytes (hear ((7, 0x41) ∷ []) (with_port 0 []))) {
        script = record { at = 99; answer = quiet } ∷ [];
      },
    )
unfolding encode checksum with_port
read_frame-arrivals_example =
    read_frame-arrivals
      (record (with_port 0 []) {
        script =
            arrivals ((7, 0x41) ∷ [])
            ++ (arrivals ack_bytes ++ record { at = 99; answer = quiet } ∷ []);
      })
      1000 0xF1 0x27 (0 ∷ []) ((7, 0x41) ∷ []) ack_bytes (record { at = 99; answer = quiet } ∷ [])
      (omega arith) refl (omega arith) refl (omega arith) (omega arith) refl

send_and_ack-Ended_example :
    Ended 300
      (earliest_ack (0 ∷ []))
      0x27
      idle
      (send idle 0xF0 0x27 (0 ∷ []))
      (send_and_ack idle 0xF0 0x27 (0 ∷ []) 300)
send_and_ack-Ended_example = send_and_ack-Ended idle 0xF0 0x27 (0 ∷ []) 300
