-- ===== src/Decision/Order.antt =====
-- The order of texts, by which src/decision.rs and src/cedar/engine.rs sort, is a total order.
use nono_cedar_pdp.Base.{◌≡◌, refl, true, false, [], ◌∷◌, arith, Text}
use nono_cedar_pdp.Decision.{text_le}

pub text_le_total : (a b : Text) → text_le a b ≡ false → text_le b a ≡ true
unfolding text_le
text_le_total [] b h = ground arith
text_le_total (x ∷ a) [] h = refl
text_le_total (x ∷ a) (y ∷ b) h = ground (arith, text_le_total a b)

pub text_le_antisym : (a b : Text) → text_le a b ≡ true → text_le b a ≡ true → a ≡ b
unfolding text_le
text_le_antisym [] [] h k = refl
text_le_antisym [] (y ∷ b) h k = absurd (cc)
text_le_antisym (x ∷ a) [] h k = absurd (cc)
text_le_antisym (x ∷ a) (y ∷ b) h k = ground (arith, text_le_antisym a b)

pub text_le_trans : (a b c : Text) → text_le a b ≡ true → text_le b c ≡ true → text_le a c ≡ true
unfolding text_le
text_le_trans [] b c h k = refl
text_le_trans (x ∷ a) [] c h k = absurd (cc)
text_le_trans (x ∷ a) (y ∷ b) [] h k = absurd (cc)
text_le_trans (x ∷ a) (y ∷ b) (z ∷ c) h k = ground (arith, text_le_trans a b c)
