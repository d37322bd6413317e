-- ===== src/Text/Laws.antt =====
-- Laws of texts: equality is decided, lower case is idempotent.
use autoedge_licensing_serve.Prelude.{ℕ, ◌≡◌, refl, ◌↔◌, true, [], ◌∷◌, arith}
use autoedge_licensing_serve.Text.{Text, same_text, lower_char, lower}

pub eq_of_same_text : (s t : Text) → same_text s t ≡ true → s ≡ t
unfolding same_text
eq_of_same_text [] [] h = refl
eq_of_same_text [] (d ∷ t) h = cc
eq_of_same_text (c ∷ s) [] h = cc
eq_of_same_text (c ∷ s) (d ∷ t) h = ground (arith, eq_of_same_text s t)

pub same_text_self : (s : Text) → same_text s s ≡ true
unfolding same_text
same_text_self [] = refl
same_text_self (c ∷ s) = ground (arith, same_text_self s)

pub same_text_iff : (s t : Text) → (same_text s t ≡ true) ↔ (s ≡ t)
same_text_iff s t = (eq_of_same_text s t, λ e. rw e (same_text_self t))

pub lower_char_idem : (c : ℕ) → lower_char (lower_char c) ≡ lower_char c
unfolding lower_char
lower_char_idem c = ground arith

pub lower_idem : (s : Text) → lower (lower s) ≡ lower s
unfolding lower
lower_idem [] = refl
lower_idem (c ∷ s) = unfold lower in cc (lower_char_idem c, lower_idem s)
