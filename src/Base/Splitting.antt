-- ===== src/Base/Splitting.antt =====
-- Splitting a text into words: what trimming leaves, and the words of a joined text.
use Prim.Native.Nat.{ℕ}
use mathlib.Core.Path.{◌≡◌, refl, sym, ap, ◌∙◌}
use mathlib.Core.Bool.{Bool, true, false, not, ◌&&◌, and-eq-true_iff, true≢false}
use mathlib.Core.List.{List, [], ◌∷◌, ◌++◌}
use truenas_asustor_chassisd.Base.Tests.{if-cases, Bool-cases}
use mathlib.Core.Logic.{inl, inr}
use truenas_asustor_chassisd.Base.Chars.{Text}
use truenas_asustor_chassisd.Base.Words.{
  is_whitespace, trim_start, put_before, trim_end, trim, put_word, add_char, words_at,
  split_whitespace,
}

split_whitespace-trim_start : (t : Text) → split_whitespace (trim_start t) ≡ split_whitespace t
split_whitespace-trim_start [] = refl
split_whitespace-trim_start (c ∷ t) =
    if-cases (λ x. split_whitespace x ≡ split_whitespace (c ∷ t)) (is_whitespace c)
      (λ space. rw space (split_whitespace-trim_start t)) (λ dark. refl)

words_at-put_before :
    (c : ℕ) (t s : Text) → words_at t ≡ words_at s → words_at (put_before c t) ≡ words_at (c ∷ s)
words_at-put_before c [] s h = elim (Bool-cases (is_whitespace c)) [
  | inl space ↦ rw space (ap (λ (p : Text × List Text). ([], put_word p.0 p.1)) h)
  | inr dark ↦ rw (dark, dark) (ap (λ (p : Text × List Text). (c ∷ p.0, p.1)) h)
]
words_at-put_before c (d ∷ t) s h = ap (add_char c) h

words_at-trim_end : (t : Text) → words_at (trim_end t) ≡ words_at t
words_at-trim_end [] = refl
words_at-trim_end (c ∷ t) = words_at-put_before c (trim_end t) t (words_at-trim_end t)

-- Trimming a text changes none of its words.
pub split_whitespace-trim : (t : Text) → split_whitespace (trim t) ≡ split_whitespace t
split_whitespace-trim t =
    ap (λ (p : Text × List Text). put_word p.0 p.1) (words_at-trim_end (trim_start t))
    ∙ split_whitespace-trim_start t

abbrev pub all_dark : Text → Bool
all_dark [] = true
all_dark (c ∷ t) = not (is_whitespace c) && all_dark t

abbrev pub is_word : Text → Bool
is_word [] = false
is_word (c ∷ t) = all_dark (c ∷ t)

dark_char :
    (c : ℕ) (t : Text) → all_dark (c ∷ t) ≡ true → (is_whitespace c ≡ false) × (all_dark t ≡ true)
dark_char c t h =
    let (dark, rest) = (and-eq-true_iff (not (is_whitespace c)) _).0 h in
    (not-true_inv (is_whitespace c) dark, rest)
  where
    not-true_inv : (b : Bool) → not b ≡ true → b ≡ false
    not-true_inv true h = sym h
    not-true_inv false h = refl

words_at-word : (w : Text) → all_dark w ≡ true → words_at w ≡ (w, [])
words_at-word [] h = refl
words_at-word (c ∷ w) h = let (dark, rest) = dark_char c w h in rw (words_at-word w rest, dark) refl

words_at-append :
    (w rest : Text) → all_dark w ≡ true → words_at (w ++ (b' ' ∷ rest)) ≡ (w, split_whitespace rest)
words_at-append [] rest h = refl
words_at-append (c ∷ w) rest h =
    let (dark, later) = dark_char c w h in rw (words_at-append w rest later, dark) refl

abbrev pub join : List Text → Text
join [] = []
join (w ∷ []) = w
join (w ∷ v ∷ ws) = w ++ (b' ' ∷ join (v ∷ ws))

abbrev pub all_words : List Text → Bool
all_words [] = true
all_words (w ∷ ws) = is_word w && all_words ws

put_word-word :
    (w : Text) (ws : List Text) → is_word w ≡ true → (put_word w ws ≡ w ∷ ws) × (all_dark w ≡ true)
put_word-word [] ws h = absurd (true≢false (sym h))
put_word-word (c ∷ w) ws h = (refl, h)

-- Words joined by spaces are split again.
pub split_whitespace-join : (ws : List Text) → all_words ws ≡ true → split_whitespace (join ws) ≡ ws
split_whitespace-join [] h = refl
split_whitespace-join (w ∷ []) h =
    let (put, dark) = put_word-word w [] ((and-eq-true_iff (is_word w) _).0 h).0 in
    rw (words_at-word w dark) put
split_whitespace-join (w ∷ v ∷ ws) h =
    let (is, rest) = (and-eq-true_iff (is_word w) (all_words (v ∷ ws))).0 h in
    let (put, dark) = put_word-word w (v ∷ ws) is in
    rw (words_at-append w (join (v ∷ ws)) dark, split_whitespace-join (v ∷ ws) rest) put
