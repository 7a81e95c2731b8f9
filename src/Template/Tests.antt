-- ===== src/Template/Tests.antt =====
-- Templates at concrete texts.
use truenas_asustor_chassisd.Base.{◌≡◌, refl, List, [], ◌∷◌, Text, codes, trim_end}
use truenas_asustor_chassisd.Template.{
  names, malformed, stray_brace, unclosed_brace, placeholders, placeholders_in, render, render_in,
}
use truenas_asustor_chassisd.Template.Escaping.{
  Piece, literal, placeholder, written, filled_in, names_in, render-written,
}

abbrev vars : List (Text × Text)
vars = (codes "status", codes "PASSED") ∷ (codes "temp", []) ∷ []

trims : render (codes "{status} {temp}") vars ≡ codes "PASSED"
unfolding render render_in
trims = refl

keeps : render (codes "{{x}} {nope} }{") vars ≡ codes "{x} {nope} }{"
unfolding render render_in
keeps = refl

strays : placeholders (codes "a } b") ≡ malformed stray_brace
unfolding placeholders placeholders_in
strays = refl

opens : placeholders (codes "{temp} {b") ≡ malformed unclosed_brace
unfolding placeholders placeholders_in
opens = refl

abbrev pieces : List Piece
pieces =
    literal (codes "{")
    ∷ placeholder (codes "status")
    ∷ literal (codes "} ")
    ∷ placeholder (codes "temp")
    ∷ []

render-written_example :
    (placeholders (written pieces) ≡ names (names_in pieces))
    × (render (written pieces) vars ≡ trim_end (filled_in vars pieces))
render-written_example = render-written vars pieces ((refl, refl), ((refl, refl), tt))
