-- ===== src/Text/Laws.antt =====
-- Equality of texts, and tokens of texts that are stripped or joined.
mod Tokens
pub use Tokens.*
use mathlib.Core.Path.{ap₂}
use safe4_arc_demo.Prelude.{◌≡◌, refl, true, [], ◌∷◌, arith}
use safe4_arc_demo.Text.{Text, ◌text_eq◌}

pub text_eq_refl : (a : Text) → a text_eq a ≡ true
unfolding ◌text_eq◌
text_eq_refl [] = refl
text_eq_refl (c ∷ cs) = ground (arith, text_eq_refl cs)

pub text_eq→≡ : (a b : Text) → a text_eq b ≡ true → a ≡ b
unfolding ◌text_eq◌
text_eq→≡ [] [] h = refl
text_eq→≡ [] (b ∷ bs) h = cc
text_eq→≡ (a ∷ as') [] h = cc
text_eq→≡ (a ∷ as') (b ∷ bs) h = ap₂ ◌∷◌ (ground arith) (text_eq→≡ as' bs (ground arith))
