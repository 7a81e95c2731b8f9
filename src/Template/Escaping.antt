-- ===== src/Template/Escaping.antt =====
-- src/template.rs, `render` and `placeholders`, on templates written from literal texts and names.
use mathlib.Core.Path.{ap}
use mathlib.Core.Bool.{true≢false}
use truenas_asustor_chassisd.Base.{
  length-append, ℕ, zero, suc, ◌≤◌, ◌≡◌, refl, sym, Bool, true, false, some, List, [], ◌∷◌, ◌++◌,
  length, ◌==◌, ==_iff, if◌then◌else◌, if-cases, Text, arith, split_once, trim_end,
}
use truenas_asustor_chassisd.Template.{
  names, add_name, is_brace, starts_with, placeholders_in, placeholders, render_in, render, filled,
}

-- A text with its braces doubled.
abbrev pub escape : Text → Text
escape [] = []
escape (c ∷ t) = if is_brace c then c ∷ c ∷ escape t else c ∷ escape t

-- What a template is made of: literal text, and placeholders.
pub data Piece : Type 0 where
  literal placeholder : Text → Piece

abbrev pub no_close : Text → Bool
no_close [] = true
no_close (c ∷ t) = if c == b'}' then false else no_close t

-- A name has no closing brace, and does not begin with an opening one.
abbrev pub IsName : Text → Type 0
IsName n = (no_close n ≡ true) × (starts_with b'{' n ≡ false)

abbrev pub AllNamed : List Piece → Type 0
AllNamed [] = Unit
AllNamed (literal t ∷ ps) = AllNamed ps
AllNamed (placeholder n ∷ ps) = IsName n × AllNamed ps

abbrev pub written : List Piece → Text
written [] = []
written (literal t ∷ ps) = escape t ++ written ps
written (placeholder n ∷ ps) = b'{' ∷ (n ++ (b'}' ∷ written ps))

abbrev pub filled_in : List (Text × Text) → List Piece → Text
filled_in vars [] = []
filled_in vars (literal t ∷ ps) = t ++ filled_in vars ps
filled_in vars (placeholder n ∷ ps) = filled n vars ++ filled_in vars ps

abbrev pub names_in : List Piece → List Text
names_in [] = []
names_in (literal t ∷ ps) = names_in ps
names_in (placeholder n ∷ ps) = n ∷ names_in ps

split_once-name :
    (n rest : Text) → no_close n ≡ true → split_once b'}' (n ++ (b'}' ∷ rest)) ≡ some (n, rest)
split_once-name [] rest h = refl
split_once-name (c ∷ n) rest h =
    if-cases (λ b. b ≡ true → split_once b'}' (c ∷ n ++ (b'}' ∷ rest)) ≡ some (c ∷ n, rest))
      (c == b'}') (λ close h. absurd (true≢false (sym h)))
      (λ other h. rw (other, split_once-name n rest h) refl) h

opens_once :
    (n rest : Text) → starts_with b'{' n ≡ false → starts_with b'{' (n ++ (b'}' ∷ rest)) ≡ false
opens_once [] rest h = refl
opens_once (c ∷ n) rest h = h

-- Enough fuel gives the output on a text.
abbrev Renders : List (Text × Text) → Text → Text → Type 0
Renders vars rest out = (fuel : ℕ) → length rest ≤ fuel → render_in fuel vars rest ≡ out

literal-Renders :
    (vars : List (Text × Text)) (t rest out : Text)
    → Renders vars rest out
    → Renders vars (escape t ++ rest) (t ++ out)
unfolding render_in
literal-Renders vars [] rest out h fuel le = h fuel le
literal-Renders vars (c ∷ t) rest out h fuel le =
    if-cases (λ x. length (x ++ rest) ≤ fuel → render_in fuel vars (x ++ rest) ≡ c ∷ t ++ out)
      (is_brace c) (λ brace le. doubled (literal-Renders vars t rest out h) fuel brace le)
      (λ plain le. single (literal-Renders vars t rest out h) fuel plain le) le
  where
    doubled :
        Renders vars (escape t ++ rest) (t ++ out)
        → (fuel : ℕ) → is_brace c ≡ true
        → length (c ∷ c ∷ escape t ++ rest) ≤ fuel
        → render_in fuel vars (c ∷ c ∷ escape t ++ rest) ≡ c ∷ t ++ out
    doubled inner zero brace le = absurd (omega arith)
    doubled inner (suc fuel) brace le =
        rw (brace, (==_iff c c).1 refl) (ap (λ (x : Text). c ∷ x) (inner fuel (omega arith)))

    single :
        Renders vars (escape t ++ rest) (t ++ out)
        → (fuel : ℕ) → is_brace c ≡ false
        → length (c ∷ escape t ++ rest) ≤ fuel
        → render_in fuel vars (c ∷ escape t ++ rest) ≡ c ∷ t ++ out
    single inner zero plain le = absurd (omega arith)
    single inner (suc fuel) plain le =
        rw plain (ap (λ (x : Text). c ∷ x) (inner fuel (omega arith)))

placeholder-Renders :
    (vars : List (Text × Text)) (n rest out : Text)
    → IsName n
    → Renders vars rest out
    → Renders vars (b'{' ∷ (n ++ (b'}' ∷ rest))) (filled n vars ++ out)
unfolding render_in
placeholder-Renders vars n rest out (closed, single) h zero le = absurd (omega arith)
placeholder-Renders vars n rest out (closed, single) h (suc fuel) le =
    rw (opens_once n rest single, split_once-name n rest closed)
      (ap (λ (x : Text). filled n vars ++ x)
        (h fuel (omega (arith, length-append n (b'}' ∷ rest)))))

written-Renders :
    (vars : List (Text × Text)) (ps : List Piece)
    → AllNamed ps
    → Renders vars (written ps) (filled_in vars ps)
unfolding render_in
written-Renders vars [] ok zero le = refl
written-Renders vars [] ok (suc fuel) le = refl
written-Renders vars (literal t ∷ ps) ok fuel le =
    literal-Renders vars t (written ps) (filled_in vars ps) (written-Renders vars ps ok) fuel le
written-Renders vars (placeholder n ∷ ps) (named, ok) fuel le =
    placeholder-Renders vars n (written ps) (filled_in vars ps) named (written-Renders vars ps ok)
      fuel le

-- Enough fuel finds the names in a text.
abbrev Lists : Text → List Text → Type 0
Lists rest ns = (fuel : ℕ) → length rest ≤ fuel → placeholders_in fuel rest ≡ names ns

literal-Lists : (t rest : Text) (ns : List Text) → Lists rest ns → Lists (escape t ++ rest) ns
unfolding placeholders_in
literal-Lists [] rest ns h fuel le = h fuel le
literal-Lists (c ∷ t) rest ns h fuel le =
    if-cases (λ x. length (x ++ rest) ≤ fuel → placeholders_in fuel (x ++ rest) ≡ names ns)
      (is_brace c) (λ brace le. doubled (literal-Lists t rest ns h) fuel brace le)
      (λ plain le. single (literal-Lists t rest ns h) fuel plain le) le
  where
    doubled :
        Lists (escape t ++ rest) ns
        → (fuel : ℕ) → is_brace c ≡ true
        → length (c ∷ c ∷ escape t ++ rest) ≤ fuel
        → placeholders_in fuel (c ∷ c ∷ escape t ++ rest) ≡ names ns
    doubled inner zero brace le = absurd (omega arith)
    doubled inner (suc fuel) brace le = rw (brace, (==_iff c c).1 refl) (inner fuel (omega arith))

    single :
        Lists (escape t ++ rest) ns
        → (fuel : ℕ) → is_brace c ≡ false
        → length (c ∷ escape t ++ rest) ≤ fuel
        → placeholders_in fuel (c ∷ escape t ++ rest) ≡ names ns
    single inner zero plain le = absurd (omega arith)
    single inner (suc fuel) plain le = rw plain (inner fuel (omega arith))

placeholder-Lists :
    (n rest : Text) (ns : List Text)
    → IsName n
    → Lists rest ns
    → Lists (b'{' ∷ (n ++ (b'}' ∷ rest))) (n ∷ ns)
unfolding placeholders_in
placeholder-Lists n rest ns (closed, single) h zero le = absurd (omega arith)
placeholder-Lists n rest ns (closed, single) h (suc fuel) le =
    rw (opens_once n rest single, split_once-name n rest closed)
      (ap (add_name n) (h fuel (omega (arith, length-append n (b'}' ∷ rest)))))

written-Lists : (ps : List Piece) → AllNamed ps → Lists (written ps) (names_in ps)
unfolding placeholders_in
written-Lists [] ok zero le = refl
written-Lists [] ok (suc fuel) le = refl
written-Lists (literal t ∷ ps) ok fuel le =
    literal-Lists t (written ps) (names_in ps) (written-Lists ps ok) fuel le
written-Lists (placeholder n ∷ ps) (named, ok) fuel le =
    placeholder-Lists n (written ps) (names_in ps) named (written-Lists ps ok) fuel le

-- Any sequence of literal texts and placeholders can be written as a template: braces of a literal
-- doubled, names in single ones, where a name has no closing brace and does not begin with an opening
-- one. The check finds exactly its names, in order, and rendering gives the literals and the values,
-- in order, without the spaces at the end.
pub render-written :
    (vars : List (Text × Text)) (ps : List Piece)
    → AllNamed ps
    → (placeholders (written ps) ≡ names (names_in ps))
      × (render (written ps) vars ≡ trim_end (filled_in vars ps))
unfolding placeholders render
render-written vars ps ok = (
  written-Lists ps ok (length (written ps)) (omega arith),
  ap trim_end (written-Renders vars ps ok (length (written ps)) (omega arith)),
)
