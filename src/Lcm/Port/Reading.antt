-- ===== src/Lcm/Port/Reading.antt =====
-- What `read_frame` makes of the bytes that arrive.
use truenas_asustor_chassisd.Base.{
  ℕ, suc, ◌+◌, ◌-◌, ◌≤◌, ◌<◌, ◌≡◌, ◌≢◌, refl, sym, ap, ◌∙◌, ◌⊎◌, inl, inr, true, false, ◌&&◌, none,
  some, List, [], ◌∷◌, ◌++◌, ltb, ◌==◌, if◌then◌else◌, length, get_or, length-append, arith,
  Bool-cases,
}
use mathlib.Core.List.{append_assoc}
use mathlib.Core.Path.{subst}
use truenas_asustor_chassisd.Lcm.Frame.{op_command, op_ack, clip, frame_max, encode, decode}
use truenas_asustor_chassisd.Lcm.Frame.RoundTrip.{length-encode, decode-encode, length-clip}
use truenas_asustor_chassisd.Lcm.Port.{
  byte, Event, Lcm, is_opcode, is_whole, Turn, again, stop, on_read, heard, read_bytes,
  decode_received, read_frame,
}

-- Bytes with the time at which each of them arrives.
abbrev pub arrivals : List (ℕ × ℕ) → List Event
arrivals [] = []
arrivals ((t, b) ∷ ps) = record { at = t; answer = byte b } ∷ arrivals ps

abbrev pub bytes : List (ℕ × ℕ) → List ℕ
bytes [] = []
bytes ((t, b) ∷ ps) = b ∷ bytes ps

abbrev pub InTime : ℕ → ℕ → List (ℕ × ℕ) → Type 0
InTime start timeout [] = Unit
InTime start timeout ((t, b) ∷ ps) = (t - start < timeout) × InTime start timeout ps

-- Bytes that no frame starts with.
abbrev pub IsNoise : List ℕ → Type 0
IsNoise [] = Unit
IsNoise (b ∷ bs) = (b ≢ op_command) × (b ≢ op_ack) × IsNoise bs

abbrev pub hear : List (ℕ × ℕ) → Lcm → Lcm
hear [] l = l
hear ((t, b) ∷ ps) l = hear ps (record l { clock = t; last_rx = some t })

hear-clock :
    (start timeout : ℕ) (ps : List (ℕ × ℕ)) (l : Lcm)
    → InTime start timeout ps
    → l.clock - start < timeout
    → (hear ps l).clock - start < timeout
hear-clock start timeout [] l h k = k
hear-clock start timeout ((t, b) ∷ ps) l h k =
    hear-clock start timeout ps (record l { clock = t; last_rx = some t }) h.1 h.0

on_read-noise : (b : ℕ) → b ≢ op_command → b ≢ op_ack → on_read (byte b) [] ≡ again []
unfolding on_read
on_read-noise b h k = ground arith

read_bytes-noise :
    (start timeout : ℕ) (noise : List (ℕ × ℕ)) (script : List Event) (l : Lcm)
    → IsNoise (bytes noise)
    → InTime start timeout noise
    → l.clock - start < timeout
    → read_bytes start timeout (arrivals noise ++ script) l []
      ≡ read_bytes start timeout script (hear noise l) []
unfolding read_bytes
read_bytes-noise start timeout [] script l h k c = refl
read_bytes-noise start timeout ((t, b) ∷ noise) script l h k c =
    let going : ltb (l.clock - start) timeout ≡ true = ground arith in
    rw (going, on_read-noise b h.0 h.1, read_bytes)
      (read_bytes-noise start timeout noise script (record l { clock = t; last_rx = some t }) h.2
        k.1 k.0)

-- A frame whose length byte is right and that fits the buffer.
abbrev IsWire : List ℕ → Type 0
IsWire w = (length w ≡ get_or w 1 0 + 4) × (length w ≤ frame_max)

is_whole_of_IsWire : (w : List ℕ) → IsWire w → is_whole w ≡ true
unfolding is_whole
is_whole_of_IsWire w h = ground arith

is_whole_of_prefix :
    (xs : List ℕ) (y : ℕ) (ys : List ℕ) → IsWire (xs ++ y ∷ ys) → is_whole xs ≡ false
unfolding is_whole
is_whole_of_prefix [] y ys h = refl
is_whole_of_prefix (a ∷ []) y ys h = refl
is_whole_of_prefix (a ∷ b ∷ xs) y ys h = ground (arith, length-append xs (y ∷ ys))

-- A frame starts with an opcode byte.
abbrev Starts : List ℕ → Type 0
Starts [] = ⊥
Starts (b ∷ bs) = is_opcode b ≡ true

on_read-byte :
    (buf : List ℕ) (b : ℕ) (rest : List ℕ)
    → Starts (buf ++ b ∷ rest)
    → on_read (byte b) buf
      ≡ (if is_whole (buf ++ b ∷ []) then stop (buf ++ b ∷ []) else again (buf ++ b ∷ []))
unfolding on_read
on_read-byte [] b rest h = rw h
on_read-byte (a ∷ buf) b rest h =
    let later : (suc (length buf) == 0) ≡ false = ground arith in rw later

read_bytes-frame :
    (start timeout : ℕ) (todo : List (ℕ × ℕ)) (rest : List Event) (l : Lcm) (buf : List ℕ)
    → 0 < length todo
    → IsWire (buf ++ bytes todo)
    → Starts (buf ++ bytes todo)
    → InTime start timeout todo
    → l.clock - start < timeout
    → read_bytes start timeout (arrivals todo ++ rest) l buf
      ≡ (buf ++ bytes todo, record (hear todo l) { script = rest })
unfolding read_bytes
read_bytes-frame start timeout [] rest l buf more wire starts k c = absurd (omega arith)
read_bytes-frame start timeout ((t, b) ∷ []) rest l buf more wire starts k c =
    let going : ltb (l.clock - start) timeout ≡ true = ground arith in
    let room : ltb (length buf) frame_max ≡ true = ground (arith, length-append buf (b ∷ [])) in
    rw (
      room,
      going,
      read_bytes,
      on_read-byte buf b [] starts,
      is_whole_of_IsWire (buf ++ b ∷ []) wire,
    )
read_bytes-frame start timeout ((t, b) ∷ (u, d) ∷ todo) rest l buf more wire starts k c =
    let going : ltb (l.clock - start) timeout ≡ true = ground arith in
    let room : ltb (length buf) frame_max ≡ true =
      ground (arith, length-append buf (b ∷ d ∷ bytes todo)) in
    let split : buf ++ (b ∷ d ∷ bytes todo) ≡ (buf ++ b ∷ []) ++ (d ∷ bytes todo) =
      sym (append_assoc buf (b ∷ []) (d ∷ bytes todo)) in
    let wire' : IsWire ((buf ++ b ∷ []) ++ (d ∷ bytes todo)) = rw (← split) wire in
    let starts' : Starts ((buf ++ b ∷ []) ++ (d ∷ bytes todo)) = rw (← split) starts in
    rw
      (
        room,
        going,
        read_bytes,
        on_read-byte buf b (d ∷ bytes todo) starts,
        is_whole_of_prefix (buf ++ b ∷ []) d (bytes todo) wire',
      )
      (read_bytes-frame start timeout ((u, d) ∷ todo) rest
          (record l { clock = t; last_rx = some t }) (buf ++ b ∷ []) (omega arith) wire' starts' k.1
          k.0
        ∙ ap
            (λ w. (
              w,
              record (hear ((u, d) ∷ todo) (record l { clock = t; last_rx = some t })) {
                script = rest;
              },
            ))
            (sym split))

IsWire-encode : (opcode subcmd : ℕ) (payload : List ℕ) → IsWire (encode opcode subcmd payload)
unfolding encode
IsWire-encode opcode subcmd payload = (
  omega (arith, length-encode opcode subcmd payload, length-clip payload),
  omega (arith, length-encode opcode subcmd payload),
)

Starts-encode :
    (opcode subcmd : ℕ) (payload : List ℕ)
    → is_opcode opcode ≡ true
    → Starts (encode opcode subcmd payload)
unfolding encode
Starts-encode opcode subcmd payload h = h

decode_received-encode :
    (opcode subcmd : ℕ) (payload : List ℕ)
    → decode_received (encode opcode subcmd payload) ≡ decode (encode opcode subcmd payload)
unfolding encode
decode_received-encode opcode subcmd payload = refl

nonempty-encode :
    (opcode subcmd : ℕ) (payload : List ℕ) (ps : List (ℕ × ℕ))
    → bytes ps ≡ encode opcode subcmd payload
    → 0 < length ps
nonempty-encode opcode subcmd payload [] e =
    absurd (omega (arith, ap length e, length-encode opcode subcmd payload))
nonempty-encode opcode subcmd payload (p ∷ ps) e = omega arith

-- Whatever bytes of a lost frame come first, as long as none of them is an opcode, and whenever the
-- bytes come, within the timeout: the frame that was sent is the one that is read, and nothing after
-- it is consumed.
pub read_frame-arrivals :
    (l : Lcm) (timeout opcode subcmd : ℕ) (payload : List ℕ) (noise frame : List (ℕ × ℕ))
    (rest : List Event)
    → 0 < timeout
    → is_opcode opcode ≡ true
    → IsNoise (bytes noise)
    → bytes frame ≡ encode opcode subcmd payload
    → InTime l.clock timeout noise
    → InTime l.clock timeout frame
    → l.script ≡ arrivals noise ++ (arrivals frame ++ rest)
    → read_frame l timeout ≡ (
      some
          (record { opcode = opcode; subcmd = subcmd; payload = clip payload; checksum_ok = true }),
      record (hear frame (hear noise l)) { script = rest },
    )
unfolding read_frame
read_frame-arrivals l timeout opcode subcmd payload noise frame rest now op silent same early late
      e =
    let begun : l.clock - l.clock < timeout = omega arith in
    let skipped =
      read_bytes-noise l.clock timeout noise (arrivals frame ++ rest) l silent early begun in
    let wire : IsWire (bytes frame) = rw same (IsWire-encode opcode subcmd payload) in
    let starts : Starts (bytes frame) = rw same (Starts-encode opcode subcmd payload op) in
    let got =
      read_bytes-frame l.clock timeout frame rest (hear noise l) []
        (nonempty-encode opcode subcmd payload frame same) wire starts late
        (hear-clock l.clock timeout noise l early begun) in
    let after = record (hear frame (hear noise l)) { script = rest } in
    let read : read_bytes l.clock timeout l.script l [] ≡ (bytes frame, after) =
      subst (λ script. read_bytes l.clock timeout script l [] ≡ (bytes frame, after)) (sym e)
        (skipped ∙ got) in
    let decoded =
      decode_received-encode opcode subcmd payload ∙ decode-encode opcode subcmd payload in
    ap (λ r. (decode_received r.0, r.1)) read
    ∙ ap (λ f. (f, after)) (ap decode_received same ∙ decoded)

-- What reading leaves alone: all but the clock, the script and the last byte's time.
abbrev pub SameSent : Lcm → Lcm → Type 0
SameSent l m =
    (m.pending ≡ l.pending)
    × (m.last_sent_0 ≡ l.last_sent_0)
    × (m.last_sent_1 ≡ l.last_sent_1)
    × (m.display_on ≡ l.display_on)
    × (m.stats ≡ l.stats)
    × (m.tx_started ≡ l.tx_started)
    × (m.written ≡ l.written)

Turn-cases : (t : Turn) → ((b : List ℕ) × (t ≡ again b)) ⊎ ((b : List ℕ) × (t ≡ stop b))
Turn-cases (again b) = inl (b, refl)
Turn-cases (stop b) = inr (b, refl)

read_bytes-SameSent :
    (start timeout : ℕ) (script : List Event) (l : Lcm) (buf : List ℕ)
    → SameSent l (read_bytes start timeout script l buf).1
      × (length ((read_bytes start timeout script l buf).1.script) ≤ length script)
unfolding read_bytes
read_bytes-SameSent start timeout [] l buf =
    ((refl, refl, refl, refl, refl, refl, refl), omega arith)
read_bytes-SameSent start timeout (e ∷ script) l buf =
    elim (Bool-cases (ltb (length buf) frame_max && ltb (l.clock - start) timeout)) [
      | inr over ↦ rw (over, read_bytes) ((refl, refl, refl, refl, refl, refl, refl), omega arith)
      | inl going ↦ elim (Turn-cases (on_read e.answer buf)) [
        | inr (b, stopped) ↦
            rw (going, stopped, read_bytes)
              ((refl, refl, refl, refl, refl, refl, refl), omega arith)
        | inl (b, on) ↦
            let (same, fewer) =
              read_bytes-SameSent start timeout script
                (record l { clock = e.at; last_rx = heard e l.last_rx }) b in
            rw (going, on, read_bytes) (same, omega arith)
      ]
    ]

pub read_frame-SameSent : (l : Lcm) (timeout : ℕ) → SameSent l (read_frame l timeout).1
unfolding read_frame
read_frame-SameSent l timeout = (read_bytes-SameSent l.clock timeout l.script l []).0

read_bytes_uses :
    (timeout : ℕ) (script : List Event) (l : Lcm)
    → 0 < timeout
    → (decode_received (read_bytes l.clock timeout script l []).0 ≡ none)
      ⊎ (length ((read_bytes l.clock timeout script l []).1.script) < length script)
unfolding read_bytes
read_bytes_uses timeout [] l h = inl refl
read_bytes_uses timeout (e ∷ script) l h =
    let going : ltb (l.clock - l.clock) timeout ≡ true = ground arith in
    elim (Turn-cases (on_read e.answer [])) [
      | inr (b, stopped) ↦ rw (going, stopped, read_bytes) (inr (omega arith))
      | inl (b, on) ↦
          let fewer =
            (read_bytes-SameSent l.clock timeout script
              (record l { clock = e.at; last_rx = heard e l.last_rx }) b).1 in
          rw (going, on, read_bytes) (inr (omega arith))
    ]

-- A read that returns a frame has consumed a part of the script.
pub read_frame_uses :
    (l : Lcm) (timeout : ℕ)
    → 0 < timeout
    → ((read_frame l timeout).0 ≡ none)
      ⊎ (length ((read_frame l timeout).1.script) < length l.script)
unfolding read_frame
read_frame_uses l timeout h = read_bytes_uses timeout l.script l h
