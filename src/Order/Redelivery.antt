-- ===== src/Order/Redelivery.antt =====
-- A Kafka record that is delivered again (beginDeduped of services/order/internal/store/store.go).
use commerce_platform.Common.{
  ◌≡◌, refl, subst, ◌∙◌, String, Bool, true, false, none, some, List, [], ◌∷◌, ◌++◌, arith,
  if◌then◌else◌, str_eq, eq_refl, Outcome, ok, Option-cases, Bool-cases, Outcome-cases, inl, inr,
  >>=-eq-ok, ◌>>=◌, reject_if,
}
use commerce_platform.Common.Table.{lookup, insert, has_row}
use commerce_platform.Order.{Order, Line, pending_payment, contains, confirm, cancel}
use commerce_platform.Order.Store.{
  Db, get, apply, apply_tx, apply_shipment_delivered, delivered_tx, fulfill_when_delivered, deduped,
  begin_deduped, insert_order, insert_order_tx, insert_lines, persist_transition, update_row,
  outbox_transition, outbox_created, insert_delivery, has_delivery, has_line, db_error, same_status,
  order_row,
}
use commerce_platform.Order.Trails.{expire}
use commerce_platform.Order.Steps.{deduped_seen, deduped_failed, deduped_done}
use commerce_platform.Order.Methods.{insert_done, insert_failed, fulfill_when_delivered-eq-ok}
use commerce_platform.Order.Paths.{
  Call, insert_call, confirm_call, cancel_call, expire_call, delivered_call, serve, run,
}

-- The event is recorded as processed.
abbrev Seen : String → Db → Type 0
Seen event db = contains event db.processed_events ≡ true

persist_events :
    (o : Order) (db : Db) → (persist_transition o db).processed_events ≡ db.processed_events
unfolding persist_transition update_row outbox_transition
persist_events o db = elim (Option-cases (lookup o.id db.orders)) [
  | inl e ↦ ground (arith, e)
  | inr (r, e) ↦ ground (arith, e)
]

insert_lines_events :
    (id : String) (ls : List Line) (db d : Db)
    → insert_lines id ls db ≡ ok d
    → d.processed_events ≡ db.processed_events
unfolding insert_lines
insert_lines_events id [] db d h = ground (arith, h)
insert_lines_events id (l ∷ ls) db d h =
    let rows : Db = record db { order_lines = db.order_lines ++ (id, l) ∷ [] } in
    let (_, _, h1) =
      >>=-eq-ok (reject_if (has_line id l.product_id db.order_lines) db_error)
        (λ _. insert_lines id ls rows) h in
    insert_lines_events id ls rows d h1

insert_order_events :
    (o : Order) (db d : Db) → insert_order_tx o db ≡ ok d → d.processed_events ≡ db.processed_events
unfolding insert_order_tx outbox_created
insert_order_events o db d h =
    let rows : Db = record db { orders = insert o.id (order_row o) db.orders } in
    let (_, free, h1) =
      >>=-eq-ok (reject_if (has_row o.id db.orders) db_error)
        (λ _. insert_lines o.id o.lines rows >>= λ d. ok (outbox_created o d)) h in
    let (d1, hl, h2) =
      >>=-eq-ok (insert_lines o.id o.lines rows) (λ d. ok (outbox_created o d)) h1 in
    let made : outbox_created o d1 ≡ d = ground (arith, h2) in
    subst (λ d. d.processed_events ≡ db.processed_events) made
      (insert_lines_events o.id o.lines rows d1 hl)

insert_order-Seen : (e : String) (o : Order) (db : Db) → Seen e db → Seen e (insert_order o db).0
insert_order-Seen e o db s = elim (Outcome-cases (insert_order_tx o db)) [
  | inr (f, h) ↦ rw (insert_failed o db f h) s
  | inl (d, h) ↦ rw (insert_done o db d h, insert_order_events o db d h) s
]

begun-Seen : (e event : String) (db d : Db) → begin_deduped event db ≡ some d → Seen e db → Seen e d
unfolding begin_deduped
begun-Seen e event db d h s = ground (arith, h, s)

deduped-Seen :
    (e event : String) (body : Db → Outcome (Order × Db)) (db : Db)
    → ((d : Db) (x : Order × Db) → body d ≡ ok x → x.1.processed_events ≡ d.processed_events)
    → Seen e db
    → Seen e (deduped event body db).0
deduped-Seen e event body db kept s = elim (Option-cases (begin_deduped event db)) [
  | inl seen ↦ rw (deduped_seen event body db seen) s
  | inr (d, begun) ↦ elim (Outcome-cases (body d)) [
    | inr (f, hf) ↦ rw (deduped_failed event body db d f begun hf) s
    | inl (x, hx) ↦
        rw (deduped_done event body db d x begun hx, kept d x hx) (begun-Seen e event db d begun s)
  ]
]

insert_delivery_events :
    (id shop : String) (db : Db)
    → (insert_delivery id shop db).processed_events ≡ db.processed_events
unfolding insert_delivery
insert_delivery_events id shop db = elim (Bool-cases (has_delivery id shop db.deliveries)) [
  | inl there ↦ ground (arith, there)
  | inr fresh ↦ ground (arith, fresh)
]

module _ (parse_uuid : String → Bool) where
  apply_tx_events :
      (id : String) (change : Order → Outcome Order) (d : Db) (x : Order × Db)
      → apply_tx parse_uuid id change d ≡ ok x
      → x.1.processed_events ≡ d.processed_events
  unfolding apply_tx
  apply_tx_events id change d x h =
      let (o, hg, h1) = >>=-eq-ok (get parse_uuid id "" d) _ h in
      let (o', hc, h2) = >>=-eq-ok (change o) _ h1 in
      let same : (if same_status o'.status o.status then d else persist_transition o' d) ≡ x.1 =
        ground (arith, h2) in
      subst (λ y. y.processed_events ≡ d.processed_events) same
        (if_events (same_status o'.status o.status) o' d)
    where
      if_events :
          (b : Bool) (o : Order) (d : Db)
          → (if b then d else persist_transition o d).processed_events ≡ d.processed_events
      if_events true o d = refl
      if_events false o d = persist_events o d

  delivered_tx_events :
      (id shop : String) (d : Db) (x : Order × Db)
      → delivered_tx parse_uuid id shop d ≡ ok x
      → x.1.processed_events ≡ d.processed_events
  unfolding delivered_tx
  delivered_tx_events id shop d x h =
      let d' = insert_delivery id shop d in
      let (o, hg, h1) =
        >>=-eq-ok (get parse_uuid id "" d) (λ o. fulfill_when_delivered id o d') h in
      elim (fulfill_when_delivered-eq-ok id o d' x h1) [
        | inl waits ↦ rw waits (insert_delivery_events id shop d)
        | inr (o', same, can, written) ↦
            subst (λ y. y.processed_events ≡ d.processed_events) written
              (persist_events o' d' ∙ insert_delivery_events id shop d)
      ]

  serve-Seen : (e : String) (c : Call) (db : Db) → Seen e db → Seen e (serve parse_uuid c db)
  unfolding serve apply apply_shipment_delivered
  serve-Seen e (insert_call o) db s =
      insert_order-Seen e (record o { status = pending_payment }) db s
  serve-Seen e (confirm_call id event) db s =
      deduped-Seen e event (apply_tx parse_uuid id confirm) db (apply_tx_events id confirm) s
  serve-Seen e (cancel_call id event reason) db s =
      deduped-Seen e event (apply_tx parse_uuid id (cancel reason)) db
        (apply_tx_events id (cancel reason)) s
  serve-Seen e (expire_call id event) db s =
      deduped-Seen e event (apply_tx parse_uuid id expire) db (apply_tx_events id expire) s
  serve-Seen e (delivered_call id shop event) db s =
      deduped-Seen e event (delivered_tx parse_uuid id shop) db (delivered_tx_events id shop) s

  run-Seen : (e : String) (cs : List Call) (db : Db) → Seen e db → Seen e (run parse_uuid cs db)
  unfolding run
  run-Seen e [] db s = s
  run-Seen e (c ∷ cs) db s = run-Seen e cs (serve parse_uuid c db) (serve-Seen e c db s)

begun_now-Seen :
    (event : String) (db d : Db)
    → str_eq event "" ≡ false
    → begin_deduped event db ≡ some d
    → Seen event d
unfolding begin_deduped
begun_now-Seen event db d named h = ground (arith, named, h, eq_refl event)

-- A call that was not a duplicate, and succeeded, has recorded its event.
processed-Seen :
    (event : String) (body : Db → Outcome (Order × Db)) (db : Db) (o : Order)
    → ((d : Db) (x : Order × Db) → body d ≡ ok x → x.1.processed_events ≡ d.processed_events)
    → str_eq event "" ≡ false
    → (deduped event body db).1 ≡ ok (some o)
    → Seen event (deduped event body db).0
processed-Seen event body db o kept named w = elim (Option-cases (begin_deduped event db)) [
  | inl seen ↦ absurd (ground (arith, deduped_seen event body db seen, w))
  | inr (d, begun) ↦ elim (Outcome-cases (body d)) [
    | inr (f, hf) ↦ absurd (ground (arith, deduped_failed event body db d f begun hf, w))
    | inl (x, hx) ↦
        rw (deduped_done event body db d x begun hx, kept d x hx)
          (begun_now-Seen event db d named begun)
  ]
]

begin_deduped_again :
    (event : String) (db : Db)
    → str_eq event "" ≡ false
    → Seen event db
    → begin_deduped event db ≡ none
unfolding begin_deduped
begin_deduped_again event db named s = ground (arith, named, s)

duplicate :
    (event : String) (body : Db → Outcome (Order × Db)) (db : Db)
    → str_eq event "" ≡ false
    → Seen event db
    → deduped event body db ≡ (db, ok none)
duplicate event body db named s = deduped_seen event body db (begin_deduped_again event db named s)

-- Once a call of `Apply` with an event id that is not empty was no duplicate and succeeded, and after
-- any further history of calls, a call with that event id is a duplicate and changes nothing: a call
-- of `Apply`, for whatever order and change, or of `ApplyShipmentDelivered`, for whatever order and
-- shop.
pub redelivery :
    (parse_uuid : String → Bool) (event id other shop : String)
    (change again : Order → Outcome Order) (o : Order) (db : Db) (cs : List Call)
    → str_eq event "" ≡ false
    → (apply parse_uuid id event change db).1 ≡ ok (some o)
    → let later = run parse_uuid cs (apply parse_uuid id event change db).0 in
      (apply parse_uuid other event again later ≡ (later, ok none))
      × (apply_shipment_delivered parse_uuid other shop event later ≡ (later, ok none))
unfolding apply apply_shipment_delivered
redelivery parse_uuid event id other shop change again o db cs named w =
    let s = run-Seen parse_uuid event cs _ (
      processed-Seen event (apply_tx parse_uuid id change) db o
        (apply_tx_events parse_uuid id change) named w) in
    (
      duplicate event (apply_tx parse_uuid other again) _ named s,
      duplicate event (delivered_tx parse_uuid other shop) _ named s,
    )
