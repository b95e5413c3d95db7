-- ===== src/Order/Methods.antt =====
-- Insert and ApplyShipmentDelivered of services/order/internal/store/store.go: events and status
-- agree after each.
use commerce_platform.Common.{append_nil}
use commerce_platform.Common.{
  ◌≡◌, refl, sym, subst, ◌∙◌, ◌⊎◌, inl, inr, String, Bool, true, false, none, some, List, [], ◌∷◌,
  ◌++◌, arith, if◌then◌else◌, str_eq, eq_iff, ok, err, Error, Option-cases, Bool-cases,
  Outcome-cases, >>=-eq-ok, reject_if, ◌>>=◌, ltb, length,
}
use commerce_platform.Common.Table.{lookup, insert, lookup-insert, has_row}
use commerce_platform.Order.{
  Order, Line, pending_payment, confirmed, fulfilled, is_confirmed, shop_groups, fulfill,
  can_transition_to,
}
use commerce_platform.Order.Store.{
  Db, order_created, get, delivered_tx, fulfill_when_delivered, insert_order, insert_order_tx,
  insert_lines, outbox_created, money_message, persist_transition, order_row, insert_delivery,
  has_line, db_error, count_delivered, has_delivery,
}
use commerce_platform.Order.Trails.{trail, LeadsTo, Follows, Agrees, trail-append, trail_created}
use commerce_platform.Order.Steps.{get-eq-ok, persist-Agrees, row-id, kept_tables-Agrees}

insert_delivery_tables :
    (id shop : String) (db : Db)
    → ((insert_delivery id shop db).orders ≡ db.orders)
      × ((insert_delivery id shop db).outbox ≡ db.outbox)
unfolding insert_delivery
insert_delivery_tables id shop db = elim (Bool-cases (has_delivery id shop db.deliveries)) [
  | inl there ↦ (ground (arith, there), ground (arith, there))
  | inr fresh ↦ (ground (arith, fresh), ground (arith, fresh))
]

fulfill_confirmed :
    (o : Order) → o.status ≡ confirmed → fulfill o ≡ ok (record o { status = fulfilled })
unfolding fulfill can_transition_to
fulfill_confirmed o e = rw e refl

-- An order that is CONFIRMED can be fulfilled, and becomes FULFILLED.
fulfilled_status :
    (o o' : Order)
    → is_confirmed o.status ≡ true
    → fulfill o ≡ ok o'
    → (o'.id ≡ o.id) × (can_transition_to o.status o'.status ≡ true)
unfolding fulfill can_transition_to
fulfilled_status o o' c h =
    let e : o.status ≡ confirmed = ground (arith, c) in
    let same : o' ≡ record o { status = fulfilled } = ground (arith, h, fulfill_confirmed o e) in
    rw (same, e) (refl, refl)

pub insert_lines_tables :
    (id : String) (ls : List Line) (db d : Db)
    → insert_lines id ls db ≡ ok d
    → (d.orders ≡ db.orders) × (d.outbox ≡ db.outbox)
unfolding insert_lines
insert_lines_tables id [] db d h = (ground (arith, h), ground (arith, h))
insert_lines_tables id (l ∷ ls) db d h =
    let (_, _, h1) =
      >>=-eq-ok (reject_if (has_line id l.product_id db.order_lines) db_error)
        (λ _. insert_lines id ls (record db { order_lines = db.order_lines ++ (id, l) ∷ [] })) h in
    insert_lines_tables id ls (record db { order_lines = db.order_lines ++ (id, l) ∷ [] }) d h1

-- The order waits, or it was CONFIRMED and its fulfilment is written.
pub fulfill_when_delivered-eq-ok :
    (id : String) (o : Order) (db : Db) (x : Order × Db)
    → fulfill_when_delivered id o db ≡ ok x
    → (x.1 ≡ db)
      ⊎ ((o' : Order) × (o'.id ≡ o.id)
          × (can_transition_to o.status o'.status ≡ true)
          × (persist_transition o' db ≡ x.1))
unfolding fulfill_when_delivered
fulfill_when_delivered-eq-ok id o db x h = elim (Bool-cases (is_confirmed o.status)) [
  | inr other ↦ inl (ground (arith, other, h))
  | inl waiting ↦
      elim (Bool-cases
        (ltb (count_delivered id (shop_groups o) db.deliveries) (length (shop_groups o)))) [
          | inl more ↦ inl (ground (arith, waiting, more, h))
          | inr all_delivered ↦
              let written : (fulfill o >>= λ o'. ok (o', persist_transition o' db)) ≡ ok x =
                ground (arith, waiting, all_delivered, h) in
              let (o', hf, h1) =
                >>=-eq-ok (fulfill o) (λ o'. ok (o', persist_transition o' db)) written in
              let (same, can) = fulfilled_status o o' waiting hf in
              inr (o', same, can, ground (arith, h1))
        ]
]

module _ (parse_uuid : String → Bool) where
  pub delivered_tx-Agrees :
      (q id shop : String) (db : Db) (x : Order × Db)
      → delivered_tx parse_uuid id shop db ≡ ok x
      → ((i : String) → Agrees i db)
      → Agrees q x.1
  unfolding delivered_tx
  delivered_tx-Agrees q id shop db x h b =
      let db' = insert_delivery id shop db in
      let (o, hg, h1) =
        >>=-eq-ok (get parse_uuid id "" db) (λ o. fulfill_when_delivered id o db') h in
      let (r, el, hi, hs) = get-eq-ok parse_uuid id db o hg in
      let there = row-id id r db el (b id) in
      let (ho, hx) = insert_delivery_tables id shop db in
      let after : (i : String) → Agrees i db' = λ i. kept_tables-Agrees i db' db ho hx (b i) in
      elim (fulfill_when_delivered-eq-ok id o db' x h1) [
        | inl waits ↦ rw waits (after q)
        | inr (o', same, can, written) ↦
            let at : o'.id ≡ id = same ∙ hi ∙ there in
            subst (λ d. Agrees q d) written
              (persist-Agrees q o' r db' (rw (at, ho) el) (rw (sym hs) can) (after o'.id) (after q))
      ]

new_row-Follows :
    (same : Bool) (q : String) (o : Order) (db : Db)
    → str_eq o.id q ≡ same
    → o.status ≡ pending_payment
    → lookup o.id db.orders ≡ none
    → Agrees o.id db
    → Agrees q db
    → Follows q
        (trail q db.outbox ++ (if same then pending_payment ∷ [] else []))
        (if same then some (order_row o) else lookup q db.orders)
unfolding order_row
new_row-Follows true q o db e s none_there bi bq =
    let no_events : trail o.id db.outbox ≡ [] =
      subst (λ x. Follows o.id (trail o.id db.outbox) x) none_there bi in
    subst (λ i. (o.id ≡ i) × LeadsTo o.status (trail i db.outbox ++ pending_payment ∷ []))
      ((eq_iff o.id q).0 e) (refl, rw (s, no_events) refl)
new_row-Follows false q o db e s none_there bi bq = rw (append_nil (trail q db.outbox)) bq

insert_order_tx-Agrees :
    (q : String) (o : Order) (db d : Db)
    → o.status ≡ pending_payment
    → insert_order_tx o db ≡ ok d
    → ((i : String) → Agrees i db)
    → Agrees q d
unfolding insert_order_tx outbox_created
insert_order_tx-Agrees q o db d s h b =
    let rows : Db = record db { orders = insert o.id (order_row o) db.orders } in
    let (_, free, h1) =
      >>=-eq-ok (reject_if (has_row o.id db.orders) db_error)
        (λ _. insert_lines o.id o.lines rows >>= λ d. ok (outbox_created o d)) h in
    let (d1, hl, h2) =
      >>=-eq-ok (insert_lines o.id o.lines rows) (λ d. ok (outbox_created o d)) h1 in
    let (ho, hx) = insert_lines_tables o.id o.lines rows d1 hl in
    let made : outbox_created o d1 ≡ d = ground (arith, h2) in
    let event = order_created o.id o.owner_id o.cart_id (money_message o.total) in
    elim (Option-cases (lookup o.id db.orders)) [
      | inr (r, there) ↦ absurd (ground (arith, there, free))
      | inl none_there ↦
          subst (λ d. Agrees q d) made
            (rw
              (
                ho,
                hx,
                lookup-insert o.id q (order_row o) db.orders,
                trail-append q db.outbox (event ∷ []),
                trail_created q o,
              )
              (new_row-Follows _ q o db refl s none_there (b o.id) (b q)))
    ]

pub insert_done :
    (o : Order) (db d : Db) → insert_order_tx o db ≡ ok d → insert_order o db ≡ (d, ok tt)
unfolding insert_order
insert_done o db d h = ground (arith, h)

pub insert_failed :
    (o : Order) (db : Db) (e : Error)
    → insert_order_tx o db ≡ err e
    → insert_order o db ≡ (db, err e)
unfolding insert_order
insert_failed o db e h = ground (arith, h)

pub insert_order-Agrees :
    (q : String) (o : Order) (db : Db)
    → o.status ≡ pending_payment
    → ((i : String) → Agrees i db)
    → Agrees q (insert_order o db).0
insert_order-Agrees q o db s b = elim (Outcome-cases (insert_order_tx o db)) [
  | inr (e, h) ↦ rw (insert_failed o db e h) (b q)
  | inl (d, h) ↦ rw (insert_done o db d h) (insert_order_tx-Agrees q o db d s h b)
]
