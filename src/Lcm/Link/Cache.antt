-- ===== src/Lcm/Link/Cache.antt =====
-- What `set_text` makes of the text cache and of the counts.
use truenas_asustor_chassisd.Base.{ℕ, ◌+◌, ◌-◌, ◌≤◌, ◌≡◌, ◌⊎◌, Bool, true, false, none, some, List}
use truenas_asustor_chassisd.Lcm.Port.{Outcome, ok, err, diverged, Lcm}
use truenas_asustor_chassisd.Lcm.Link.{last_sent}

-- How the attempts end, on the line `idx`, which is 0 or 1, after `used` retries so far; `l` is the
-- state in which the text was found not to be showing.
--   ok true: the panel answered, the line's text is cached, no failure is counted;
--   ok false: no answer to any attempt; the line's cache is as it was and a failure is counted;
--   err: the port failed; the line's cache is as it was.
-- The other line's text is still cached only if there was no retry.
pub record Kept (idx : ℕ) (l m : Lcm) (failed : ℕ) : Type 0 where
  pub at_most_two : m.stats.retries ≤ l.stats.retries + 2
  pub not_fewer : l.stats.retries ≤ m.stats.retries
  pub counted : m.stats.failures ≡ l.stats.failures + failed
  pub one_write : m.stats.writes ≡ l.stats.writes
  pub other_line :
      ((m.stats.retries ≡ l.stats.retries) × (last_sent m (1 - idx) ≡ last_sent l (1 - idx)))
      ⊎ (last_sent m (1 - idx) ≡ none)

abbrev pub Ends : ℕ → List ℕ → Lcm → Outcome Bool × Lcm → Type 0
Ends idx text l (ok true, m) = (last_sent m idx ≡ some text) × Kept idx l m 0
Ends idx text l (ok false, m) =
    (last_sent m idx ≡ last_sent l idx) × (m.stats.retries ≡ l.stats.retries + 2) × Kept idx l m 1
Ends idx text l (err x, m) = (last_sent m idx ≡ last_sent l idx) × Kept idx l m 0
Ends idx text l (diverged, m) = ⊥

-- Between the attempts: `used` retries have been counted.
record Under (idx used : ℕ) (l m : Lcm) : Type 0 where
  own : last_sent m idx ≡ last_sent l idx
  counted : m.stats.retries ≡ l.stats.retries + used
  no_failure : m.stats.failures ≡ l.stats.failures
  one_write : m.stats.writes ≡ l.stats.writes
  other_line :
      ((used ≡ 0) × (last_sent m (1 - idx) ≡ last_sent l (1 - idx)))
      ⊎ (last_sent m (1 - idx) ≡ none)

-- The two lines, by number.
abbrev IsLine : ℕ → Type 0
IsLine idx = (idx ≡ 0) ⊎ (idx ≡ 1)

-- The state with one more write counted.
abbrev pub count_write : Lcm → Lcm
count_write l = record l { stats = record (l.stats) { writes = l.stats.writes + 1 } }
