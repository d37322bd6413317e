-- ===== src/License/Grants/Origin.antt =====
-- Where the grants of a customer come from.
use autoedge_licensing_serve.Prelude.{
  ◌≡◌, refl, Bool, true, Option, none, some, List, [], ◌∷◌, arith, All, All-added, All-replaced,
  All-filter, All-weaken, Bool-cases, Option-cases, inl, inr, find, subst,
}
use mathlib.Core.List.{Memᴰ}
use autoedge_licensing_serve.Text.{Text, same_text}
use autoedge_licensing_serve.Text.Laws.{eq_of_same_text}
use autoedge_licensing_serve.Time.{Datetime}
use autoedge_licensing_serve.Sorting.{All-sort_by}
use autoedge_licensing_serve.Database.{Database, Entitlement, Product}
use autoedge_licensing_serve.License.Client.{ClientType}
use autoedge_licensing_serve.License.Grants.{
  Grant, grant_of, joined, joined_row, listed_before, replaces, store_grant, keep_best,
  best_by_product, current_grants, filter_grants_for_client, is_licensed_row,
}

-- a grant is a row of the customer in the tables, with its product there, judged at that time
abbrev pub IsGrantOf : List Entitlement → List Product → Text → Datetime → Grant → Type 0
IsGrantOf entitlements products customer_id now g =
    Memᴰ g.row entitlements
    × Memᴰ g.product products
    × (g.row.customer_id ≡ customer_id)
    × (g.product.id ≡ g.row.product_id)
    × (g.is_licensed ≡ is_licensed_row g.row g.product now)

pub find-test {ℓ} :
    {A : Type ℓ} (test : A → Bool) (xs : List A) {x : A} → find test xs ≡ some x → test x ≡ true
find-test test [] h = cc
find-test test (y ∷ xs) {x} h = elim (Bool-cases (test y)) [
  | inl here ↦ let q : y ≡ x = ground arith in rw (← q) here
  | inr later ↦ find-test test xs (rw later at h)
]

pub found_in {ℓ} :
    {A : Type ℓ} (test : A → Bool) (xs : List A) {x : A} → find test xs ≡ some x → Memᴰ x xs
found_in test [] h = cc
found_in test (y ∷ xs) {x} h = elim (Bool-cases (test y)) [
  | inl e ↦ let q : y ≡ x = ground arith in subst (λ z. Memᴰ z (y ∷ xs)) q (Memᴰ.head refl)
  | inr e ↦ Memᴰ.tail (found_in test xs (rw e at h))
]

-- grants of some rows are grants of more
later-IsGrantOf :
    (e : Entitlement) (rows : List Entitlement) (products : List Product) (c : Text)
    (now : Datetime) (grants : List Grant)
    → All (IsGrantOf rows products c now) grants
    → All (IsGrantOf (e ∷ rows) products c now) grants
later-IsGrantOf e rows products c now grants a =
    All-weaken _ _ grants (λ g h. (Memᴰ.tail h.0, h.1, h.2, h.3, h.4)) a

joined-All :
    (now : Datetime) (products : List Product) (c : Text) (rows : List Entitlement)
    → All (IsGrantOf rows products c now) (joined now products c rows)
unfolding joined grant_of
joined-All now products c [] = tt
joined-All now products c (e ∷ rows) =
    let rest = later-IsGrantOf e rows products c now _ (joined-All now products c rows) in
    elim (Bool-cases (same_text e.customer_id c)) [
      | inr other ↦ rw other rest
      | inl mine ↦
          elim (Option-cases (find (λ product. same_text product.id e.product_id) products)) [
            | inl missing ↦ rw (mine, joined_row, missing) rest
            | inr (product, found) ↦
                rw (mine, joined_row, found)
                  (
                    (
                      Memᴰ.head refl,
                      found_in _ products found,
                      eq_of_same_text e.customer_id c mine,
                      eq_of_same_text product.id e.product_id (find-test _ products found),
                      refl,
                    ),
                    rest,
                  )
          ]
    ]

module _ (rows : List Entitlement) (products : List Product) (c : Text) (now : Datetime) where
  store-All :
      (best : List Grant) (g : Grant) (kept : Option Grant)
      → All (IsGrantOf rows products c now) best
      → IsGrantOf rows products c now g
      → All (IsGrantOf rows products c now) (store_grant best g kept)
  unfolding store_grant
  store-All best g none a h = All-added (IsGrantOf rows products c now) best g a h
  store-All best g (some kept) a h = elim (Bool-cases (replaces g kept)) [
    | inl better ↦ rw better (All-replaced (IsGrantOf rows products c now) _ best g a h)
    | inr worse ↦ rw worse a
  ]

  best-All :
      (grants best : List Grant)
      → All (IsGrantOf rows products c now) best
      → All (IsGrantOf rows products c now) grants
      → All (IsGrantOf rows products c now) (best_by_product best grants)
  unfolding best_by_product keep_best
  best-All [] best a b = a
  best-All (g ∷ grants) best a b = best-All grants _ (store-All best g _ a b.0) b.1

-- Every current grant is an entitlement row of the customer with its own product, as the tables have
-- them, and is licensed as that row is.
pub current_grants_lem :
    (c : Text) (now : Datetime) (db : Database)
    → All (IsGrantOf db.entitlements db.products c now) (current_grants db c now)
unfolding current_grants
current_grants_lem c now db = best-All db.entitlements db.products c now _ [] tt (
    All-sort_by listed_before (IsGrantOf db.entitlements db.products c now) _
      (joined-All now db.products c db.entitlements))

pub filtered_grants_lem :
    (c : Text) (now : Datetime) (db : Database) (client : ClientType)
    → All
        (IsGrantOf db.entitlements db.products c now)
        (filter_grants_for_client (current_grants db c now) client)
unfolding filter_grants_for_client
filtered_grants_lem c now db client =
    All-weaken _ (IsGrantOf db.entitlements db.products c now) _ (λ g h. h.0)
      (All-filter (IsGrantOf db.entitlements db.products c now) _ (current_grants db c now)
        (current_grants_lem c now db))
