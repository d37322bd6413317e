-- ===== src/License/States/Removed.antt =====
-- The removed entitlements among the states.
use autoedge_licensing_serve.Prelude.{
  ◌≡◌, ◌∙◌, refl, false, not, ◌&&◌, Option, none, some, List, [], ◌∷◌, ◌++◌, arith, All, Bool-cases,
  inl, inr, find, any, map,
}
use autoedge_licensing_serve.Text.{Text, same_text, same_optional, strip, is_truthy, or_empty}
use autoedge_licensing_serve.Text.Laws.{eq_of_same_text}
use autoedge_licensing_serve.Time.{Datetime}
use autoedge_licensing_serve.Sorting.{All-sort_by}
use autoedge_licensing_serve.Database.{Platform, Database, Product, AuditRow}
use autoedge_licensing_serve.License.Client.{ClientType}
use autoedge_licensing_serve.License.Grants.{Grant, is_offered}
use autoedge_licensing_serve.License.Grants.Origin.{find-test}
use autoedge_licensing_serve.License.States.{
  State, removed, detail, text_of, offered, grant_state, removals, removed_state, shown_product,
  seen_after, states_after, removed_states, entitlement_states,
}

module _ (p : Platform) (now : Datetime) (db : Database) (customer_id : Text)
    (client_type : ClientType) where
  -- a state that is "removed" is of a product that is not among the given ones
  abbrev pub IsElsewhere : List Text → State → Type 0
  IsElsewhere current s = s.status ≡ removed → any (same_text s.product_id) current ≡ false

  offered-same :
      (found : Option Product) {product : Product}
      → offered p now db customer_id client_type found ≡ some product
      → found ≡ some product
  offered-same none h = cc
  offered-same (some x) h = elim (Bool-cases (is_offered client_type x)) [
    | inl e ↦ rw e at h
    | inr e ↦ cc (rw e at h)
  ]

  found-unseen :
      (seen : List Text) (product_id : Text) (found : Option Product) {product : Product}
      → find (λ x. same_text x.id product_id) db.products ≡ found
      → offered p now db customer_id client_type found ≡ some product
      → any (same_text product_id) seen ≡ false
      → any (same_text product.id) seen ≡ false
  found-unseen seen product_id found {product} f h unseen =
      rw
        (eq_of_same_text product.id product_id (find-test _ db.products (f ∙ offered-same found h)))
        unseen

  shown-unseen :
      (seen : List Text) (row : AuditRow) {product : Product}
      → shown_product p now db customer_id client_type seen row ≡ some product
      → any (same_text product.id) seen ≡ false
  unfolding shown_product
  shown-unseen seen row {product} h =
      let product_id = strip (or_empty (text_of (detail "product_id" row.details))) in
      let test =
        same_optional (text_of (detail "customer_id" row.details)) (some customer_id)
        && is_truthy (some product_id)
        && not (any (same_text product_id) seen) in
      elim (Bool-cases test) [
        | inl e ↦ found-unseen seen product_id _ refl (rw e at h) (ground (arith, e))
        | inr e ↦ cc (rw e at h)
      ]

  after-IsElsewhere :
      (current seen : List Text) (row : AuditRow) (shown : Option Product) (rest : List State)
      → ((s : Text) → any (same_text s) seen ≡ false → any (same_text s) current ≡ false)
      → shown_product p now db customer_id client_type seen row ≡ shown
      → All (IsElsewhere current) rest
      → All (IsElsewhere current) (states_after p now db customer_id client_type row shown rest)
  after-IsElsewhere current seen row none rest incl h a = a
  after-IsElsewhere current seen row (some product) rest incl h a =
      ((λ _. unfold removed_state in incl product.id (shown-unseen seen row h)), a)

  wider :
      (current seen : List Text) (shown : Option Product)
      → ((s : Text) → any (same_text s) seen ≡ false → any (same_text s) current ≡ false)
      → (s : Text)
      → any (same_text s) (seen_after p now db customer_id client_type seen shown) ≡ false
      → any (same_text s) current ≡ false
  wider current seen none incl s h = incl s h
  wider current seen (some product) incl s h = incl s (ground (arith, h))

  removed-IsElsewhere :
      (rows : List AuditRow) (current seen : List Text)
      → ((s : Text) → any (same_text s) seen ≡ false → any (same_text s) current ≡ false)
      → All (IsElsewhere current) (removed_states p now db customer_id client_type seen rows)
  unfolding removed_states
  removed-IsElsewhere [] current seen incl = tt
  removed-IsElsewhere (row ∷ rows) current seen incl =
      after-IsElsewhere current seen row _ _ incl refl
        (removed-IsElsewhere rows current _ (wider current seen _ incl))

  append-IsElsewhere :
      (current : List Text) (grants : List Grant) (rest : List State)
      → All (IsElsewhere current) rest
      → All
          (IsElsewhere current)
          (map (grant_state p now db customer_id client_type) grants ++ rest)
  append-IsElsewhere current [] rest a = a
  append-IsElsewhere current (g ∷ grants) rest a =
      ((λ h. unfold grant_state in cc h), append-IsElsewhere current grants rest a)

  -- A product that is shown as removed is not a product of the client's grants.
  pub removed_lem :
      (grants : List Grant)
      → All
          (λ s.
            s.status ≡ removed
            → any (same_text s.product_id) (map (λ g. g.product.id) grants) ≡ false)
          (entitlement_states p now db customer_id client_type grants)
  unfolding entitlement_states
  removed_lem grants =
      let current = map (λ (g : Grant). g.product.id) grants in
      All-sort_by _ (IsElsewhere current) _ (
        append-IsElsewhere current grants _ (
          removed-IsElsewhere (removals p now db customer_id client_type) current current
            (λ s h. h)))
