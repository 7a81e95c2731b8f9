-- ===== src/Lcm/Link.antt =====
-- src/protocol.rs, the operations of `Lcm` on the link: `send_and_ack`, `set_text`, `set_display`,
-- `init`, `take_pending` and `forget_text`.
mod Hearing
pub mod Acks
pub mod Cache
use truenas_asustor_chassisd.Base.{
  ℕ, zero, suc, ◌+◌, ◌-◌, ◌%◌, Bool, true, false, not, ◌&&◌, Option, none, some, List, [], ◌∷◌,
  ◌++◌, ltb, leb, ◌==◌, if◌then◌else◌, length,
}
use truenas_asustor_chassisd.Lcm.Frame.{
  Frame, op_command, op_ack, sub_set_text, sub_display, sub_init_2, is_unsolicited, line_bytes,
}
use truenas_asustor_chassisd.Lcm.Port.{
  Outcome, ok, err, diverged, Lcm, ack_timeout, retry_backoff, wire_time, sleep, send, ack,
  read_frame,
}

-- One turn of the loop of `send_and_ack`: return, or keep waiting.
pub data Wait : Type 0 where
  done : Bool → Lcm → Wait
  more : Lcm → Wait

-- The arm `f.checksum_ok && f.opcode == OP_ACK && f.subcmd == subcmd`.
abbrev pub answers : ℕ → Frame → Bool
answers subcmd f = f.checksum_ok && (f.opcode == op_ack && f.subcmd == subcmd)

-- `f.payload.first() == Some(&0)`.
abbrev pub is_zero_status : List ℕ → Bool
is_zero_status [] = false
is_zero_status (b ∷ _) = b == 0

unfoldable pub on_frame : ℕ → ℕ → Option Frame → Lcm → Wait
on_frame earliest subcmd none l = done false l
on_frame earliest subcmd (some f) l =
    if answers subcmd f
    then (if ltb (l.clock - l.tx_started) earliest
        then more l
        else done (is_zero_status f.payload) l)
    else if is_unsolicited f
    then (let l' = (ack l f.subcmd).1 in more (record l' { pending = l'.pending ++ f ∷ [] }))
    else more l

unfoldable pub wait_turn : ℕ → ℕ → ℕ → Lcm → Wait
unfolding on_frame
wait_turn deadline earliest subcmd l =
    let (f, l') = read_frame l (deadline - l.clock) in
    if leb deadline l.clock then done false l else on_frame earliest subcmd f l'

unfoldable pub await_ack : ℕ → ℕ → ℕ → ℕ → Lcm → Outcome Bool × Lcm
unfolding wait_turn
await_ack zero deadline earliest subcmd l = (diverged, l)
await_ack (suc fuel) deadline earliest subcmd l = elim (wait_turn deadline earliest subcmd l) [
  | done acked l' ↦ (ok acked, l')
  | more l' ↦ await_ack fuel deadline earliest subcmd l'
]

-- The frame and a five-byte ACK on the wire.
abbrev pub earliest_ack : List ℕ → ℕ
earliest_ack payload = wire_time (length payload + 4) + wire_time 5

-- Every turn that goes on has read at least one answer of the script, so this fuel is enough.
unfoldable pub send_and_ack : Lcm → ℕ → ℕ → List ℕ → ℕ → Outcome Bool × Lcm
unfolding await_ack
send_and_ack l opcode subcmd payload timeout =
    let (sent, l') = send l opcode subcmd payload in
    elim sent [
      | ok _ ↦
          await_ack (suc (length l'.script)) (l'.clock + timeout) (earliest_ack payload) subcmd l'
      | err x ↦ (err x, l')
      | diverged ↦ (diverged, l')
    ]

-- `self.last_sent[idx]`, with `idx` 0 or 1.
abbrev pub last_sent : Lcm → ℕ → Option (List ℕ)
last_sent l idx = if idx == 0 then l.last_sent_0 else l.last_sent_1

abbrev pub set_last_sent : Lcm → ℕ → Option (List ℕ) → Lcm
set_last_sent l idx v =
    if idx == 0 then record l { last_sent_0 = v } else record l { last_sent_1 = v }

abbrev pub same_text : List ℕ → List ℕ → Bool
same_text [] [] = true
same_text (a ∷ s) (b ∷ t) = a == b && same_text s t
same_text _ _ = false

abbrev pub shows : Option (List ℕ) → List ℕ → Bool
shows none text = false
shows (some s) text = same_text s text

-- Before a second or third attempt.
unfoldable pub retry : ℕ → Lcm → Lcm
unfolding sleep
retry idx l = sleep retry_backoff (
    set_last_sent (record l { stats = record (l.stats) { retries = l.stats.retries + 1 } })
      (1 - idx) none)

-- The loop `for attempt in 0..3`, by the attempts left; `again` is `attempt > 0`.
unfoldable pub attempts : ℕ → Bool → ℕ → List ℕ → List ℕ → Lcm → Outcome Bool × Lcm
unfolding retry send_and_ack
attempts zero again idx text payload l =
    (ok false, record l { stats = record (l.stats) { failures = l.stats.failures + 1 } })
attempts (suc left) again idx text payload l =
    let (acked, l') =
      send_and_ack (if again then retry idx l else l) op_command sub_set_text payload ack_timeout in
    elim acked [
      | ok true ↦ (ok true, set_last_sent l' idx (some text))
      | ok false ↦ attempts left true idx text payload l'
      | err x ↦ (err x, l')
      | diverged ↦ (diverged, l')
    ]

unfoldable pub set_text : Lcm → ℕ → List ℕ → ℕ → Outcome Bool × Lcm
unfolding attempts
set_text l line text flag =
    let idx = line % 2 in
    let l' = record l { stats = record (l.stats) { writes = l.stats.writes + 1 } } in
    let rest = attempts 3 false idx text (line ∷ flag ∷ line_bytes text) l' in
    if shows (last_sent l idx) text then (ok true, l) else rest

abbrev pub same_state : Option Bool → Bool → Bool
same_state none on = false
same_state (some true) on = on
same_state (some false) on = not on

abbrev pub bit : Bool → ℕ
bit true = 1
bit false = 0

abbrev pub note_display : Bool → Outcome Bool × Lcm → Outcome Bool × Lcm
note_display on (ok true, l) = (ok true, record l { display_on = some on })
note_display on (r, l) = (r, l)

unfoldable pub set_display : Lcm → Bool → Outcome Bool × Lcm
unfolding send_and_ack
set_display l on =
    if same_state l.display_on on
    then (ok true, l)
    else note_display on (send_and_ack l op_command sub_display (bit on ∷ []) ack_timeout)

-- The second step of the power-on sequence, after the first was acknowledged or not.
abbrev pub init_second : Bool → Lcm → Outcome (Bool × Bool) × Lcm
init_second first l =
    let l' = record l { display_on = if first then some true else none } in
    let (second, l'') = send_and_ack l' op_command sub_init_2 (0 ∷ []) ack_timeout in
    elim second [ ok b ↦ (ok (first, b), l'') | err x ↦ (err x, l'') | diverged ↦ (diverged, l'') ]

unfoldable pub init : Lcm → Outcome (Bool × Bool) × Lcm
unfolding send_and_ack
init l =
    let (first, l') = send_and_ack l op_command sub_display (1 ∷ []) ack_timeout in
    elim first [ ok b ↦ init_second b l' | err x ↦ (err x, l') | diverged ↦ (diverged, l') ]

unfoldable pub take_pending : Lcm → List Frame × Lcm
take_pending l = (l.pending, record l { pending = [] })

unfoldable pub forget_text : Lcm → Lcm
forget_text l = record l { last_sent_0 = none; last_sent_1 = none }
