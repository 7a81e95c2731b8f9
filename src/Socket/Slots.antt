-- ===== src/Socket/Slots.antt =====
-- src/socket.rs, `Slot::acquire` and its `drop`: the places of the connections, taken and freed by threads
-- whose steps come in any order. A weak compare-exchange may fail though the count is the one seen.
use mathlib.Core.Option.{none-ne-some, some-injective}
use mathlib.Core.Bool.{and-eq-true_iff}
use mathlib.Core.Path.{ap}
use truenas_asustor_chassisd.Base.{
  ℕ, zero, suc, ◌+◌, ◌-◌, ◌≤◌, ◌≡◌, some, List, [], ◌∷◌, arith, get_elem?, set, leb, Bool, true,
  false, if◌then◌else◌, if-cases, ◌==◌, ◌&&◌, not,
}

-- Where a thread is: it has no place; it has seen a count of them; it has one.
pub data Phase : Type 0 where
  outside : Phase
  seeing : ℕ → Phase
  inside : Phase

pub record Places : Type 0 where
  pub active : ℕ
  pub threads : List Phase

-- One turn of the loop of `acquire` for a thread that saw `seen`, with the count now `active`: the count
-- and where the thread is then. The exchange may fail for no reason.
unfoldable pub acquire_turn : ℕ → ℕ → ℕ → Bool → ℕ × Phase
acquire_turn max seen active spurious =
    if leb max seen
    then (active, outside)
    else if (active == seen) && not spurious
    then (seen + 1, inside)
    else (active, seeing active)

-- The steps of the threads.
pub data Step (max : ℕ) : Places → Places → Type 0 where
  loads :
      {p : Places} (i : ℕ)
      → get_elem? p.threads i ≡ some outside
      → Step max p (record p { threads = set p.threads i (seeing p.active) })
  turns :
      {p : Places} (i seen : ℕ) (spurious : Bool)
      → get_elem? p.threads i ≡ some (seeing seen)
      → Step max p (record {
        active = (acquire_turn max seen p.active spurious).0;
        threads = set p.threads i (acquire_turn max seen p.active spurious).1;
      })
  frees :
      {p : Places} (i : ℕ)
      → get_elem? p.threads i ≡ some inside
      → Step max p (record { active = p.active - 1; threads = set p.threads i outside })

pub data Steps (max : ℕ) : Places → Places → Type 0 where
  start : {p : Places} → Steps max p p
  next : {p q r : Places} → Step max p q → Steps max q r → Steps max p r

abbrev pub place : Phase → ℕ
place outside = 0
place (seeing n) = 0
place inside = 1

abbrev pub places : List Phase → ℕ
places [] = 0
places (t ∷ ts) = place t + places ts

-- The count is the number of threads that have a place, and is no more than the maximum.
unfoldable pub IsCounted : ℕ → Places → Type 0
IsCounted max p = (p.active ≡ places p.threads) × (p.active ≤ max)

places-set :
    (ts : List Phase) (i : ℕ) (t t' : Phase)
    → get_elem? ts i ≡ some t
    → places (set ts i t') + place t ≡ places ts + place t'
places-set [] i t t' h = absurd (none-ne-some _ h)
places-set (x ∷ ts) zero t t' h = omega (arith, ap place (some-injective _ _ h))
places-set (x ∷ ts) (suc i) t t' h = omega (arith, places-set ts i t t' h)

acquire_turn-cases :
    (max seen active : ℕ) (spurious : Bool)
    → active ≤ max
    → let (active', t) = acquire_turn max seen active spurious in
      (active' ≡ active + place t) × (active' ≤ max)
unfolding acquire_turn
acquire_turn-cases max seen active spurious h =
    if-cases P (leb max seen) (λ full. (omega arith, h))
      (λ room.
        if-cases P ((active == seen) && not spurious) {x = (seen + 1, inside)}
          {y = (active, seeing active)}
          (λ taken. one_more room ((and-eq-true_iff (active == seen) _).0 taken).0)
          (λ lost. (omega arith, h)))
  where
    P : ℕ × Phase → Type 0
    P r = (r.0 ≡ active + place r.1) × (r.0 ≤ max)

    one_more : leb max seen ≡ false → (active == seen) ≡ true → P (seen + 1, inside)
    one_more room same = (ground arith, ground arith)

Step-IsCounted : {max : ℕ} {p q : Places} → IsCounted max p → Step max p q → IsCounted max q
unfolding IsCounted
Step-IsCounted {p} (count, bound) (loads i at) =
    (omega (arith, places-set p.threads i outside (seeing p.active) at), bound)
Step-IsCounted {max} {p} (count, bound) (turns i seen spurious at) =
    let t = (acquire_turn max seen p.active spurious).1 in
    let (active, bound') = acquire_turn-cases max seen p.active spurious bound in
    (omega (arith, places-set p.threads i (seeing seen) t at), bound')
Step-IsCounted {p} (count, bound) (frees i at) =
    (omega (arith, places-set p.threads i inside outside at), omega arith)

-- In whatever order the threads take their steps, the count stays the number of connections that are
-- served, and never exceeds the maximum: a place is neither lost nor given twice.
pub Steps-IsCounted : (max : ℕ) (p q : Places) → IsCounted max p → Steps max p q → IsCounted max q
Steps-IsCounted max p q counted start = counted
Steps-IsCounted max p q counted (next {q = r} s rest) =
    Steps-IsCounted max r q (Step-IsCounted counted s) rest
