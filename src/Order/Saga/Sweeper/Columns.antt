-- ===== src/Order/Saga/Sweeper/Columns.antt =====
-- The columns that a retried compensation sets (services/order/internal/store/compensation.go).
use commerce_platform.Common.{
  ◌≡◌, refl, ap, String, Bool, true, false, not, ◌&&◌, ◌||◌, List, arith, if◌then◌else◌, str_eq,
  eq_iff, ok, Bool-cases, inl, inr,
}
use commerce_platform.Common.Table.{insert, lookup-insert, has_row}
use commerce_platform.Order.{Order}
use commerce_platform.Order.Store.{Db}
use commerce_platform.Order.Saga.{
  Services, World, Rpc, Marks, marks_of, set_released, set_voided, mark, after_call,
  release_reservation, void_payment, called, released, voided,
}
use commerce_platform.Order.Saga.Sweeper.{
  PendingCompensation, is_pending_row, row_of, retry_release, retry_void,
}

-- The columns after a row was dealt with.
abbrev pub swept : PendingCompensation → Marks → Marks
swept p m = record {
  reservation_released = m.reservation_released || not (str_eq p.reservation_id "");
  payment_voided = m.payment_voided || not (str_eq p.payment_id "");
}

abbrev pub settled : PendingCompensation → Marks → Bool
settled p m =
    (str_eq p.reservation_id "" || m.reservation_released)
    && (str_eq p.payment_id "" || m.payment_voided)

pub swept-settled : (p : PendingCompensation) (m : Marks) → settled p (swept p m) ≡ true
swept-settled p m = ground arith

pub settled_kept :
    (p q : PendingCompensation) (m : Marks) → settled p m ≡ true → settled p (swept q m) ≡ true
settled_kept p q m h = ground (arith, h)

-- A row whose columns say that nothing is owed is in no list, and stays in none.
pub settled-row :
    (id : String) (o : Order) (m m' : Marks)
    → not m.reservation_released || m'.reservation_released ≡ true
    → not m.payment_voided || m'.payment_voided ≡ true
    → settled (row_of m id o) m' ≡ true
    → is_pending_row m' o ≡ false
unfolding row_of is_pending_row
settled-row id o m m' hr hv h = ground (arith, hr, hv, h)

pub not_pending_kept :
    (o : Order) (m m' : Marks)
    → not m.reservation_released || m'.reservation_released ≡ true
    → not m.payment_voided || m'.payment_voided ≡ true
    → is_pending_row m o ≡ false
    → is_pending_row m' o ≡ false
unfolding is_pending_row
not_pending_kept o m m' hr hv h = ground (arith, hr, hv, h)

module _ (parse_uuid : String → Bool) (services : Services) where
  abbrev pub Known : String → Db → Type 0
  Known id db = (parse_uuid id ≡ true) × (has_row id db.orders ≡ true)

  mark_done :
      (change : Marks → Marks) (id : String) (w : World)
      → Known id w.db
      → mark parse_uuid change id w
        ≡ (record w { marks = insert id (change (marks_of id w)) w.marks }, ok tt)
  unfolding mark
  mark_done change id w (hp, hr) = rw (hp, hr) refl

  -- The columns of every order after one was marked.
  marks_lem :
      (change : Marks → Marks) (id j : String) (w : World)
      → marks_of j (record w { marks = insert id (change (marks_of id w)) w.marks })
        ≡ (if str_eq id j then change (marks_of j w) else marks_of j w)
  unfolding marks_of
  marks_lem change id j w = elim (Bool-cases (str_eq id j)) [
    | inl e ↦
        rw (lookup-insert id j (change (marks_of id w)) w.marks, e)
          (ap (λ i. change (marks_of i w)) ((eq_iff id j).0 e))
    | inr e ↦ rw (lookup-insert id j (change (marks_of id w)) w.marks, e) refl
  ]

  -- What `release_reservation` and `void_payment` do when the service answers.
  abbrev pub Marked : (Marks → Marks) → String → World → World → Type 0
  Marked change id w w' =
      (w'.db ≡ w.db)
      × ((j : String)
          → marks_of j w' ≡ (if str_eq id j then change (marks_of j w) else marks_of j w))

  after_call-Marked :
      (change : Marks → Marks) (id : String) (w : World) (c : Rpc)
      → str_eq id "" ≡ false
      → Known id w.db
      → Marked change id w (after_call parse_uuid change id (ok tt) (called c w)).0
  unfolding after_call marks_of
  after_call-Marked change id w c named known =
      rw (named, mark_done change id (called c w) known)
        (refl, λ j. marks_lem change id j (called c w))

  abbrev with_release : PendingCompensation → Marks → Marks
  with_release p m = record m {
    reservation_released = m.reservation_released || not (str_eq p.reservation_id "");
  }

  abbrev with_void : PendingCompensation → Marks → Marks
  with_void p m = record m { payment_voided = m.payment_voided || not (str_eq p.payment_id "") }

  pub retry_release-Marked :
      (p : PendingCompensation) (w : World)
      → ((cs : List Rpc) (rid : String) → services.release cs rid ≡ ok tt)
      → str_eq p.order_id "" ≡ false
      → Known p.order_id w.db
      → Marked (with_release p) p.order_id w (retry_release parse_uuid services p w)
  unfolding retry_release release_reservation
  retry_release-Marked p w answers named known = elim (Bool-cases (str_eq p.reservation_id "")) [
    | inl e ↦ rw e (refl, λ j. ground arith)
    | inr e ↦
        rw (e, answers w.calls p.reservation_id)
          (let (hd, hm) =
              after_call-Marked set_released p.order_id w (released p.reservation_id true) named
                known in
            (hd, λ j. ground (arith, hm j)))
  ]

  pub retry_void-Marked :
      (p : PendingCompensation) (w : World)
      → ((cs : List Rpc) (pid : String) → services.void cs pid ≡ ok tt)
      → str_eq p.order_id "" ≡ false
      → Known p.order_id w.db
      → Marked (with_void p) p.order_id w (retry_void parse_uuid services p w)
  unfolding retry_void void_payment
  retry_void-Marked p w answers named known = elim (Bool-cases (str_eq p.payment_id "")) [
    | inl e ↦ rw e (refl, λ j. ground arith)
    | inr e ↦
        rw (e, answers w.calls p.payment_id)
          (let (hd, hm) =
              after_call-Marked set_voided p.order_id w (voided p.payment_id true) named known in
            (hd, λ j. ground (arith, hm j)))
  ]
