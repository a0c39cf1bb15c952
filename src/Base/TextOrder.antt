-- ===== src/Base/TextOrder.antt =====
-- The order of texts by UTF-16 code units, as `<` and `sort` have it.
use mathlib.Core.Path.{◌≡◌, refl}
use mathlib.Core.Bool.{Bool, true, false, not}
use mathlib.Core.List.{[], ◌∷◌}
use native.Mathlib.Omega.{arith}
use nextblock.Base.Tests.{ltb, eqb, if◌then◌else◌}
use nextblock.Base.Texts.{Text}

unfoldable pub text_leb : Text → Text → Bool
text_leb [] u = true
text_leb (c ∷ t) [] = false
text_leb (c ∷ t) (d ∷ u) =
    let rest = text_leb t u in if ltb c d then true else if eqb c d then rest else false

-- `t < u`
unfoldable pub text_ltb : Text → Text → Bool
unfolding text_leb
text_ltb t u = not (text_leb u t)

pub text_leb_refl : (t : Text) → text_leb t t ≡ true
unfolding text_leb
text_leb_refl [] = refl
text_leb_refl (c ∷ t) = ground (arith, text_leb_refl t)

pub text_leb-total : (t u : Text) → text_leb t u ≡ false → text_leb u t ≡ true
unfolding text_leb
text_leb-total [] u h = ground arith
text_leb-total (c ∷ t) [] h = refl
text_leb-total (c ∷ t) (d ∷ u) h = ground (arith, text_leb-total t u)

pub text_leb_trans :
    (t u v : Text) → text_leb t u ≡ true → text_leb u v ≡ true → text_leb t v ≡ true
unfolding text_leb
text_leb_trans [] u v h k = refl
text_leb_trans (c ∷ t) [] v h k = ground arith
text_leb_trans (c ∷ t) (d ∷ u) [] h k = ground arith
text_leb_trans (c ∷ t) (d ∷ u) (e ∷ v) h k = ground (arith, text_leb_trans t u v)

pub text_leb_antisymm : (t u : Text) → text_leb t u ≡ true → text_leb u t ≡ true → t ≡ u
unfolding text_leb
text_leb_antisymm [] [] h k = refl
text_leb_antisymm [] (d ∷ u) h k = ground arith
text_leb_antisymm (c ∷ t) [] h k = ground arith
text_leb_antisymm (c ∷ t) (d ∷ u) h k = ground (arith, text_leb_antisymm t u)
