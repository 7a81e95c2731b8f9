-- ===== src/Config/Ordering.antt =====
-- src/config.rs, `effective_order`: what the order of the screens holds.
use mathlib.Core.Bool.{true≢false}
use truenas_asustor_chassisd.Base.{
  ℕ, ◌+◌, ◌≡◌, refl, sym, ap, ◌∙◌, Bool, true, false, ◌||◌, List, [], ◌∷◌, ◌++◌, ◌==◌, if-cases,
  arith, ==_iff,
}
use truenas_asustor_chassisd.Config.{
  Category, network, pools, hdd, temperature, docker, category_code, all_categories, has_category,
  order_from, effective_order,
}

abbrev pub one_if : Bool → ℕ
one_if true = 1
one_if false = 0

abbrev pub occurrences : Category → List Category → ℕ
occurrences c [] = 0
occurrences c (d ∷ ds) = one_if (category_code d == category_code c) + occurrences c ds

occurrences-append :
    (c : Category) (xs ys : List Category)
    → occurrences c (xs ++ ys) ≡ occurrences c xs + occurrences c ys
occurrences-append c [] ys = omega arith
occurrences-append c (x ∷ xs) ys = omega (arith, occurrences-append c xs ys)

or_assoc : (a b c : Bool) → (a || (b || c)) ≡ ((a || b) || c)
or_assoc true b c = refl
or_assoc false b c = refl

has-append :
    (c : Category) (xs ys : List Category)
    → has_category (xs ++ ys) c ≡ (has_category xs c || has_category ys c)
has-append c [] ys = refl
has-append c (x ∷ xs) ys =
    ap (λ b. (category_code x == category_code c) || b) (has-append c xs ys)
    ∙ or_assoc (category_code x == category_code c) (has_category xs c) (has_category ys c)

has-all : (c : Category) → has_category all_categories c ≡ true
has-all network = refl
has-all pools = refl
has-all hdd = refl
has-all temperature = refl
has-all docker = refl

has-alike :
    (xs : List Category) (d c : Category)
    → category_code d ≡ category_code c
    → has_category xs d ≡ has_category xs c
has-alike [] d c h = refl
has-alike (x ∷ xs) d c h =
    ap (λ n. (category_code x == n) || has_category xs d) h
    ∙ ap (λ b. (category_code x == category_code c) || b) (has-alike xs d c h)

-- In what is gathered so far, each category stands once if it does at all.
Gathered : Category → List Category → Type 0
Gathered c out = occurrences c out ≡ one_if (has_category out c)

-- A category that is there already adds nothing.
one_seen : (p q r : Bool) → (q ≡ true → p ≡ true) → (p || r) ≡ (p || (q || r))
one_seen true q r h = refl
one_seen false true r h = absurd (true≢false (sym (h refl)))
one_seen false false r h = refl

one_added : (p q r : Bool) → ((p || (q || false)) || r) ≡ (p || (q || r))
one_added true q r = refl
one_added false true r = refl
one_added false false r = refl

one_more :
    (n : ℕ) (p q : Bool)
    → n ≡ one_if p
    → (q ≡ true → p ≡ false)
    → n + (one_if q + 0) ≡ one_if (p || (q || false))
one_more n true true h fresh = absurd (true≢false (fresh refl))
one_more n true false h fresh = omega (arith, h)
one_more n false true h fresh = omega (arith, h)
one_more n false false h fresh = omega (arith, h)

-- Stepping over a category that is new.
Gathered-append :
    (c d : Category) (out : List Category)
    → Gathered c out
    → has_category out d ≡ false
    → Gathered c (out ++ (d ∷ []))
unfolding Gathered
Gathered-append c d out h fresh =
    occurrences-append c out (d ∷ [])
    ∙ one_more (occurrences c out) (has_category out c) (category_code d == category_code c) h
        (λ e. sym (has-alike out d c ((==_iff _ _).0 e)) ∙ fresh)
    ∙ ap one_if (sym (has-append c out (d ∷ [])))

Gathered-order_from :
    (c : Category) (out rest : List Category)
    → Gathered c out
    → occurrences c (order_from out rest) ≡ one_if (has_category out c || has_category rest c)
unfolding order_from Gathered
Gathered-order_from c out [] h = h ∙ ap one_if (or_false (has_category out c))
  where
    or_false : (b : Bool) → b ≡ (b || false)
    or_false true = refl
    or_false false = refl
Gathered-order_from c out (d ∷ rest) h =
    if-cases (λ next. occurrences c (order_from next rest) ≡ goal) (has_category out d)
      (λ seen.
        Gathered-order_from c out rest h
        ∙ ap one_if (
            one_seen (has_category out c) same (has_category rest c)
              (λ e. sym (has-alike out d c ((==_iff _ _).0 e)) ∙ seen)))
      (λ fresh.
        Gathered-order_from c (out ++ (d ∷ [])) rest (Gathered-append c d out h fresh)
        ∙ ap (λ b. one_if (b || has_category rest c)) (has-append c out (d ∷ []))
        ∙ ap one_if (one_added (has_category out c) same (has_category rest c)))
  where
    same : Bool
    same = category_code d == category_code c

    goal : ℕ
    goal = one_if (has_category out c || (same || has_category rest c))

or_true : (b : Bool) → (b || true) ≡ true
or_true true = refl
or_true false = refl

-- Whatever order of screens is configured, with repetitions or omissions, each category stands exactly once in
-- the order that is used.
pub effective_order-once :
    (order : List Category) (c : Category) → occurrences c (effective_order order) ≡ 1
unfolding effective_order Gathered
effective_order-once order c =
    Gathered-order_from c [] (order ++ all_categories) refl
    ∙ ap one_if (
        has-append c order all_categories
        ∙ ap (λ b. has_category order c || b) (has-all c)
        ∙ or_true (has_category order c))
