-- ===== src/Fulfillment/Rows.antt =====
-- How inserting and updating a row of `shipments` keeps what is announced
-- (services/fulfillment/internal/store/store.go).
use commerce_platform.Common.{
  ◌≡◌, refl, sym, subst, ◌∙◌, inl, inr, ℕ, String, false, ◌&&◌, none, some, List, [], ◌∷◌, ◌++◌,
  arith, str_eq, eq_iff, eq_refl, append_nil, Bool-cases,
}
use commerce_platform.Fulfillment.{
  pending, Shipment, Db, has_group, find_shipment, insert_shipment, created_event, emit_outbox,
  written, update_rows,
}
use commerce_platform.Fulfillment.Lives.{
  announced, Life, LifeOf, Told, OneEach, Sound, announced-append, find-append, find-append_other,
}

-- The UPDATE changes the row of that id, and no key.
pub find-update_rows_other :
    (id : String) (now : ℕ) (s : Shipment) (rows : List Shipment)
    → str_eq s.id id ≡ false
    → find_shipment id (update_rows now s rows) ≡ find_shipment id rows
unfolding find_shipment update_rows written
find-update_rows_other id now s [] h = refl
find-update_rows_other id now s (r ∷ rs) h = elim (Bool-cases (str_eq r.id s.id)) [
  | inr e ↦ rw (e, find-update_rows_other id now s rs h) refl
  | inl e ↦
      let other : str_eq r.id id ≡ false =
        subst (λ i. str_eq i id ≡ false) (sym ((eq_iff r.id s.id).0 e)) h in
      rw (e, other, find-update_rows_other id now s rs h) refl
]

pub find-update_rows :
    (now : ℕ) (s row : Shipment) (rows : List Shipment)
    → find_shipment s.id rows ≡ some row
    → find_shipment s.id (update_rows now s rows) ≡ some (written now s row)
unfolding find_shipment update_rows written
find-update_rows now s row [] h = absurd (ground (arith, h))
find-update_rows now s row (r ∷ rs) h = elim (Bool-cases (str_eq r.id s.id)) [
  | inl e ↦
      let same : r ≡ row = ground (arith, e, h) in
      subst (λ x. find_shipment s.id (update_rows now s (r ∷ rs)) ≡ some (written now s x)) same
        (rw (e, e) refl)
  | inr e ↦ rw (e, e) (find-update_rows now s row rs (ground (arith, e, h)))
]

has_group-update_rows :
    (o p : String) (now : ℕ) (s : Shipment) (rows : List Shipment)
    → has_group o p (update_rows now s rows) ≡ has_group o p rows
unfolding has_group update_rows written
has_group-update_rows o p now s [] = refl
has_group-update_rows o p now s (r ∷ rs) = elim (Bool-cases (str_eq r.id s.id)) [
  | inl e ↦ rw (e, has_group-update_rows o p now s rs) refl
  | inr e ↦ rw (e, has_group-update_rows o p now s rs) refl
]

pub OneEach-update_rows :
    (now : ℕ) (s : Shipment) (rows : List Shipment)
    → OneEach rows
    → OneEach (update_rows now s rows)
unfolding update_rows written
OneEach-update_rows now s [] h = tt
OneEach-update_rows now s (r ∷ rs) (h, hs) = elim (Bool-cases (str_eq r.id s.id)) [
  | inl e ↦
      rw e
        (has_group-update_rows r.order_id r.shop_id now s rs ∙ h, OneEach-update_rows now s rs hs)
  | inr e ↦
      rw e
        (has_group-update_rows r.order_id r.shop_id now s rs ∙ h, OneEach-update_rows now s rs hs)
]

has_group-append :
    (o p : String) (ss : List Shipment) (s : Shipment)
    → has_group o p ss ≡ false
    → str_eq s.order_id o && str_eq s.shop_id p ≡ false
    → has_group o p (ss ++ s ∷ []) ≡ false
unfolding has_group
has_group-append o p [] s h k = ground (arith, k)
has_group-append o p (t ∷ ss) s h k =
    ground (arith, h, has_group-append o p ss s (ground (arith, h)) k)

OneEach-append :
    (s : Shipment) (ss : List Shipment)
    → has_group s.order_id s.shop_id ss ≡ false
    → OneEach ss
    → OneEach (ss ++ s ∷ [])
unfolding has_group
OneEach-append s [] h o = (refl, tt)
OneEach-append s (t ∷ ss) h (l, o) =
    let apart : str_eq s.order_id t.order_id && str_eq s.shop_id t.shop_id ≡ false = ground (
      arith,
      h,
      eq_iff s.order_id t.order_id,
      eq_iff s.shop_id t.shop_id,
      eq_iff t.order_id s.order_id,
      eq_iff t.shop_id s.shop_id,
    ) in
    (has_group-append t.order_id t.shop_id ss s l apart, OneEach-append s ss (ground (arith, h)) o)

inserted-Told :
    (s : Shipment) (db : Db) (q : String)
    → s.status ≡ pending
    → find_shipment s.id db.shipments ≡ none
    → Told s.id db
    → Told q db
    → Told q (insert_shipment s db)
unfolding insert_shipment created_event emit_outbox announced
inserted-Told s db q st free at told = elim (Bool-cases (str_eq s.id q)) [
  | inr e ↦
      rw
        (
          find-append_other q db.shipments s e,
          announced-append q db.outbox (created_event s ∷ []),
          e,
        )
        (rw (append_nil (announced q db.outbox)) told)
  | inl e ↦
      let nothing : announced s.id db.outbox ≡ [] =
        subst (λ x. LifeOf x (announced s.id db.outbox)) free at in
      subst (λ i. Told i (insert_shipment s db)) ((eq_iff s.id q).0 e)
        (rw
          (
            find-append s.id db.shipments s free,
            eq_refl s.id,
            announced-append s.id db.outbox (created_event s ∷ []),
            nothing,
            eq_refl s.id,
          )
          (subst (λ t. Life t (pending ∷ [])) (sym st) refl))
]

pub insert_shipment-Sound :
    (s : Shipment) (db : Db)
    → s.status ≡ pending
    → find_shipment s.id db.shipments ≡ none
    → has_group s.order_id s.shop_id db.shipments ≡ false
    → Sound db
    → Sound (insert_shipment s db)
unfolding insert_shipment emit_outbox
insert_shipment-Sound s db st free new (o, told) =
    (OneEach-append s db.shipments new o, λ q. inserted-Told s db q st free (told s.id) (told q))
