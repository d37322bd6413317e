-- ===== src/License/Grants/Best.antt =====
-- Which grant is kept for each product.
use autoedge_licensing_serve.Prelude.{
  ◌≡◌, ◌∙◌, refl, Bool, true, false, Option, none, some, List, [], ◌∷◌, ◌++◌, arith, All,
  Bool-cases, inl, inr, find, update_where, if◌then◌else◌,
}
use autoedge_licensing_serve.Text.{Text, same_text}
use autoedge_licensing_serve.Text.Laws.{same_text_iff, same_text_self, eq_of_same_text}
use autoedge_licensing_serve.Database.Keys.{NotShorter, NotShorter-refl}
use autoedge_licensing_serve.License.Grants.{
  Grant, product_of, is_of, replaces, store_grant, keep_best, best_by_product,
}

-- what is kept for a product once a grant of it has come
chosen : Option Grant → Grant → Grant
chosen none g = g
chosen (some kept) g = if replaces g kept then g else kept

-- what is kept for a product after a list of grants
choice : Text → Option Grant → List Grant → Option Grant
choice product_id kept [] = kept
choice product_id kept (g ∷ grants) =
    choice product_id (if is_of product_id g then some (chosen kept g) else kept) grants

find-added :
    (test : Grant → Bool) (best : List Grant) (g : Grant)
    → find test best ≡ none
    → find test (best ++ g ∷ []) ≡ (if test g then some g else none)
find-added test [] g h = refl
find-added test (b ∷ best) g h = ground (arith, find-added test best g)

find-kept :
    (test : Grant → Bool) (best : List Grant) (g : Grant)
    → test g ≡ false
    → find test (best ++ g ∷ []) ≡ find test best
find-kept test [] g h = rw h
find-kept test (b ∷ best) g h = ground (arith, find-kept test best g h)

find-replaced :
    (test : Grant → Bool) (best : List Grant) (g : Grant) {b : Grant}
    → test g ≡ true
    → find test best ≡ some b
    → find test (update_where test (λ _. g) best) ≡ some g
find-replaced test [] g t h = cc
find-replaced test (b ∷ best) g t h = elim (Bool-cases (test b)) [
  | inl here ↦ rw (here, t)
  | inr later ↦ rw (later, later) (find-replaced test best g t (rw later at h))
]

find-other :
    (test other : Grant → Bool) (best : List Grant) (g : Grant)
    → other g ≡ false
    → All (λ b. test b ≡ true → other b ≡ false) best
    → find other (update_where test (λ _. g) best) ≡ find other best
find-other test other [] g o h = refl
find-other test other (b ∷ best) g o h = ground (arith, h.0, find-other test other best g o h.1)

disjoint :
    (p q : Text) (best : List Grant)
    → same_text p q ≡ false
    → All (λ b. is_of p b ≡ true → is_of q b ≡ false) best
disjoint p q [] d = tt
disjoint p q (b ∷ best) d = (λ h. ground (arith, same_text_iff b.product.id p), disjoint p q best d)

store_same :
    (best : List Grant) (g : Grant) (kept : Option Grant)
    → find (is_of (product_of g)) best ≡ kept
    → find (is_of (product_of g)) (store_grant best g kept) ≡ some (chosen kept g)
unfolding store_grant chosen
store_same best g none h =
    find-added (is_of (product_of g)) best g h ∙ rw (same_text_self (product_of g))
store_same best g (some kept) h = elim (Bool-cases (replaces g kept)) [
  | inl better ↦
      rw better (find-replaced (is_of (product_of g)) best g (same_text_self (product_of g)) h)
  | inr worse ↦ rw worse h
]

store_other :
    (product_id : Text) (best : List Grant) (g : Grant) (kept : Option Grant)
    → is_of product_id g ≡ false
    → find (is_of product_id) (store_grant best g kept) ≡ find (is_of product_id) best
unfolding store_grant
store_other q best g none o = find-kept (is_of q) best g o
store_other q best g (some kept) o = elim (Bool-cases (replaces g kept)) [
  | inl better ↦
      rw better
        (find-other (is_of (product_of g)) (is_of q) best g o (disjoint (product_of g) q best o))
  | inr worse ↦ rw worse
]

find-keep_best :
    (product_id : Text) (best : List Grant) (g : Grant)
    → find (is_of product_id) (keep_best best g) ≡ (
        if is_of product_id g
        then some (chosen (find (is_of product_id) best) g)
        else find (is_of product_id) best)
unfolding keep_best
find-keep_best product_id best g = elim (Bool-cases (is_of product_id g)) [
  | inl mine ↦
      let e : product_of g ≡ product_id = eq_of_same_text (product_of g) product_id mine in
      rw (mine, ← e) (store_same best g _ refl)
  | inr other ↦ rw other (store_other product_id best g _ other)
]

find-best_by_product :
    (product_id : Text) (best grants : List Grant)
    → find (is_of product_id) (best_by_product best grants)
      ≡ choice product_id (find (is_of product_id) best) grants
unfolding best_by_product choice
find-best_by_product product_id best [] = refl
find-best_by_product product_id best (g ∷ grants) =
    find-best_by_product product_id (keep_best best g) grants ∙ rw find-keep_best

-- What is kept is at least as good: licensed if the other is, and then for no shorter a time.
abbrev pub AsGood : Grant → Grant → Type 0
AsGood g kept =
    g.is_licensed ≡ true
    → (kept.is_licensed ≡ true) × NotShorter g.row.expires_at kept.row.expires_at

chosen_new : (kept : Option Grant) (g : Grant) → AsGood g (chosen kept g)
unfolding chosen replaces
chosen_new none g = λ l. (l, NotShorter-refl g.row.expires_at)
chosen_new (some kept) g = λ l. ground arith

chosen_old : (g kept new : Grant) → AsGood g kept → AsGood g (chosen (some kept) new)
unfolding chosen replaces
chosen_old g kept new h = λ l. ground arith

choice-AsGood :
    (product_id : Text) (g kept : Grant) (grants : List Grant)
    → AsGood g kept
    → (b : Grant) × (choice product_id (some kept) grants ≡ some b) × AsGood g b
unfolding choice
choice-AsGood q g kept [] h = (kept, refl, h)
choice-AsGood q g kept (x ∷ grants) h = elim (Bool-cases (is_of q x)) [
  | inl mine ↦ rw mine (choice-AsGood q g (chosen (some kept) x) grants (chosen_old g kept x h))
  | inr other ↦ rw other (choice-AsGood q g kept grants h)
]

choice-All :
    (kept : Text → Option Grant) (grants : List Grant)
    → All
        (λ g.
          (b : Grant) × (choice (product_of g) (kept (product_of g)) grants ≡ some b) × AsGood g b)
        grants
unfolding choice
choice-All kept [] = tt
choice-All kept (g ∷ grants) = (
  rw same_text_self (
      choice-AsGood (product_of g) g (chosen (kept (product_of g)) g) grants
        (chosen_new (kept (product_of g)) g)),
  choice-All (λ q. if is_of q g then some (chosen (kept q) g) else kept q) grants,
)

-- No grant masks a better one of its product: for every grant there is an entry of its product,
-- which is licensed if the grant is, and then for no shorter a time.
pub best_by_product-AsGood :
    (grants : List Grant)
    → All
        (λ g.
          (b : Grant) × (find (is_of (product_of g)) (best_by_product [] grants) ≡ some b)
          × AsGood g b)
        grants
best_by_product-AsGood grants = simp find-best_by_product (choice-All (λ _. none) grants)
