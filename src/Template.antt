-- ===== src/Template.antt =====
-- src/template.rs: the placeholders of a screen's text, and filling them in. A loop's turn takes at least one
-- character of the rest, so the length of the text is fuel enough.
mod Escaping
mod Tests
use truenas_asustor_chassisd.Base.{
  ℕ, zero, suc, Bool, true, false, ◌&&◌, ◌||◌, Option, none, some, List, [], ◌∷◌, ◌++◌, length,
  ◌==◌, if◌then◌else◌, Text, same_text, split_once, trim_end,
}

pub data TemplateError : Type 0 where
  stray_brace unclosed_brace : TemplateError

pub data Names : Type 0 where
  names : List Text → Names
  malformed : TemplateError → Names

abbrev pub add_name : Text → Names → Names
add_name n (names ns) = names (n ∷ ns)
add_name n (malformed e) = malformed e

abbrev pub is_brace : ℕ → Bool
is_brace c = (c == b'{') || (c == b'}')

abbrev pub starts_with : ℕ → Text → Bool
starts_with c [] = false
starts_with c (d ∷ t) = d == c

abbrev pub tail : Text → Text
tail [] = []
tail (c ∷ t) = t

-- The loop of `placeholders`; what it finds after an error is not looked at.
unfoldable pub placeholders_in : ℕ → Text → Names
placeholders_in zero rest = names []
placeholders_in (suc fuel) [] = names []
placeholders_in (suc fuel) (c ∷ after) =
    let plain = placeholders_in fuel after in
    let doubled = placeholders_in fuel (tail after) in
    if is_brace c
    then (if starts_with c after
        then doubled
        else if c == b'}'
        then malformed stray_brace
        else (elim (split_once b'}' after) [
          | none ↦ malformed unclosed_brace
          | some p ↦ add_name p.0 (placeholders_in fuel p.1)
        ]))
    else plain

unfoldable pub placeholders : Text → Names
unfolding placeholders_in
placeholders tpl = placeholders_in (length tpl) tpl

abbrev pub value_of : Text → List (Text × Text) → Option Text
value_of name [] = none
value_of name ((k, v) ∷ vars) = if same_text k name then some v else value_of name vars

-- An unknown name is left as it is.
abbrev pub filled : Text → List (Text × Text) → Text
filled name vars = elim (value_of name vars) [ some v ↦ v | none ↦ b'{' ∷ (name ++ (b'}' ∷ [])) ]

-- The loop of `render`, on what is left of the template.
unfoldable pub render_in : ℕ → List (Text × Text) → Text → Text
render_in zero vars rest = []
render_in (suc fuel) vars [] = []
render_in (suc fuel) vars (c ∷ after) =
    let plain = c ∷ render_in fuel vars after in
    let doubled = c ∷ render_in fuel vars (tail after) in
    if is_brace c
    then (if starts_with c after
        then doubled
        else if c == b'{'
        then (elim (split_once b'}' after) [
          | none ↦ plain
          | some p ↦ filled p.0 vars ++ render_in fuel vars p.1
        ])
        else plain)
    else plain

unfoldable pub render : Text → List (Text × Text) → Text
unfolding render_in
render tpl vars = trim_end (render_in (length tpl) vars tpl)
