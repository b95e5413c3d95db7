-- ===== src/Order/Kept.antt =====
-- An order in the tables of services/order/internal/store/store.go over the calls of the store: its
-- owner, its total and its lines.
use commerce_platform.Common.{
  ◌≡◌, refl, sym, ap, subst, ◌∙◌, String, Bool, true, false, none, some, List, [], ◌++◌, arith,
  if◌then◌else◌, str_eq, eq_iff, Outcome, ok, Option-cases, Outcome-cases, Bool-cases, inl, inr,
  >>=-eq-ok, ◌>>=◌, reject_if,
}
use commerce_platform.Common.Table.{lookup, insert, lookup-insert, lookup-insert_self, has_row}
use commerce_platform.Order.{Order, Line, pending_payment, confirm, cancel}
use commerce_platform.Order.Store.{
  Db, get, apply, apply_tx, apply_shipment_delivered, delivered_tx, fulfill_when_delivered, deduped,
  begin_deduped, insert_order, insert_order_tx, insert_lines, persist_transition, update_row,
  outbox_transition, outbox_created, insert_delivery, has_delivery, db_error, same_status,
  order_row, attached,
}
use commerce_platform.Order.Trails.{expire}
use commerce_platform.Order.Steps.{
  deduped_seen, deduped_failed, deduped_done, updated, update_row_found,
}
use commerce_platform.Order.Methods.{
  insert_done, insert_failed, fulfill_when_delivered-eq-ok, insert_lines_tables,
}
use commerce_platform.Order.Lines.{
  in_order, tagged, attached-append, attached-tagged, insert_lines_rows, insert_lines-attached,
}
use commerce_platform.Order.Paths.{
  Call, insert_call, confirm_call, cancel_call, expire_call, delivered_call, serve,
}

-- An order that is the same one, perhaps in another status.
abbrev pub Same : Order → Order → Type 0
Same o r = (r.id ≡ o.id) × (r.owner_id ≡ o.owner_id) × (r.total ≡ o.total)

-- The tables hold an order with those lines.
abbrev pub Holds : Order → List Line → Db → Type 0
Holds o ls db =
    ((r : Order) × (lookup o.id db.orders ≡ some r) × Same o r)
    × (attached o.total.currency o.id db.order_lines ≡ ls)

-- A statement on other tables.
same_tables-Holds :
    (o : Order) (ls : List Line) (db d : Db)
    → d.orders ≡ db.orders
    → d.order_lines ≡ db.order_lines
    → Holds o ls db
    → Holds o ls d
same_tables-Holds o ls db d ho hl h = rw (ho, hl) h

update_row_missing : (x : Order) (db : Db) → lookup x.id db.orders ≡ none → update_row x db ≡ db
unfolding update_row
update_row_missing x db e = ground (arith, e)

-- The UPDATE of a row leaves what is the same about an order.
updated-Holds :
    (same : Bool) (o x r : Order) (ls : List Line) (db : Db)
    → str_eq x.id o.id ≡ same
    → lookup x.id db.orders ≡ some r
    → Holds o ls db
    → Holds o ls (record db { orders = insert x.id (updated x r) db.orders })
unfolding updated
updated-Holds true o x r ls db at e ((r', e', s), hl) =
    let there : lookup o.id db.orders ≡ some r = rw (← ((eq_iff x.id o.id).0 at)) e in
    let one : r ≡ r' = ground (arith, there, e') in
    (
      (
        updated x r,
        lookup-insert x.id o.id (updated x r) db.orders ∙ rw at refl,
        subst (λ y. Same o y) (sym one) s,
      ),
      hl,
    )
updated-Holds false o x r ls db at e ((r', e', s), hl) =
    ((r', lookup-insert x.id o.id (updated x r) db.orders ∙ rw at e', s), hl)

persist-Holds :
    (o x : Order) (ls : List Line) (db : Db) → Holds o ls db → Holds o ls (persist_transition x db)
unfolding persist_transition outbox_transition
persist-Holds o x ls db h = elim (Option-cases (lookup x.id db.orders)) [
  | inl e ↦ rw (update_row_missing x db e) h
  | inr (r, e) ↦ rw (update_row_found x r db e) (updated-Holds _ o x r ls db refl e h)
]

-- What a successful INSERT of an order found and did.
inserted_order :
    (x : Order) (db d : Db)
    → insert_order_tx x db ≡ ok d
    → (lookup x.id db.orders ≡ none)
      × (d.orders ≡ insert x.id (order_row x) db.orders)
      × ((cur id : String)
          → str_eq x.id id ≡ false
          → attached cur id d.order_lines ≡ attached cur id db.order_lines)
      × (d.order_lines ≡ db.order_lines ++ tagged x.id x.lines)
unfolding insert_order_tx outbox_created
inserted_order x db d h =
    let rows : Db = record db { orders = insert x.id (order_row x) db.orders } in
    let (_, free, h1) =
      >>=-eq-ok (reject_if (has_row x.id db.orders) db_error)
        (λ _. insert_lines x.id x.lines rows >>= λ d. ok (outbox_created x d)) h in
    let (d1, hl, h2) =
      >>=-eq-ok (insert_lines x.id x.lines rows) (λ d. ok (outbox_created x d)) h1 in
    let (ho, hx) = insert_lines_tables x.id x.lines rows d1 hl in
    let made : outbox_created x d1 ≡ d = ground (arith, h2) in
    elim (Option-cases (lookup x.id db.orders)) [
      | inr (r, there) ↦ absurd (ground (arith, there, free))
      | inl none_there ↦ (
        none_there,
        ap (λ y. y.orders) (sym made) ∙ ho,
        λ cur id other.
            ap (λ y. attached cur id y.order_lines) (sym made)
            ∙ insert_lines-attached cur id x.id x.lines rows d1 other hl,
        ap (λ y. y.order_lines) (sym made) ∙ insert_lines_rows x.id x.lines rows d1 hl,
      )
    ]

pub insert_order_tx-Holds :
    (o x : Order) (ls : List Line) (db d : Db)
    → insert_order_tx x db ≡ ok d
    → Holds o ls db
    → Holds o ls d
insert_order_tx-Holds o x ls db d h ((r, e, s), hl) =
    let (free, rows, lines, _) = inserted_order x db d h in
    elim (Bool-cases (str_eq x.id o.id)) [
      | inl at ↦
          let taken : lookup x.id db.orders ≡ some r = rw ((eq_iff x.id o.id).0 at) e in
          absurd (ground (arith, free, taken))
      | inr other ↦ (
        (r, rw rows (lookup-insert x.id o.id (order_row x) db.orders ∙ rw other e), s),
        lines o.total.currency o.id other ∙ hl,
      )
    ]

pub insert_order-Holds :
    (o x : Order) (ls : List Line) (db : Db) → Holds o ls db → Holds o ls (insert_order x db).0
insert_order-Holds o x ls db h = elim (Outcome-cases (insert_order_tx x db)) [
  | inr (e, f) ↦ rw (insert_failed x db e f) h
  | inl (d, f) ↦ rw (insert_done x db d f) (insert_order_tx-Holds o x ls db d f h)
]

-- The tables after an order was inserted hold it, with its lines.
pub inserted-Holds :
    (o : Order) (db d : Db)
    → attached o.total.currency o.id db.order_lines ≡ []
    → insert_order_tx o db ≡ ok d
    → Holds o (in_order o.total.currency o.lines) d
unfolding order_row
inserted-Holds o db d none_there h =
    let (free, rows, _, lines) = inserted_order o db d h in
    let cur = o.total.currency in
    (
      (order_row o, rw rows (lookup-insert_self o.id (order_row o) db.orders), (refl, refl, refl)),
      ap (attached cur o.id) lines
          ∙ attached-append cur o.id db.order_lines (tagged o.id o.lines) none_there
          ∙ attached-tagged cur o.id o.lines,
    )

begun_same :
    (event : String) (db d : Db)
    → begin_deduped event db ≡ some d
    → (d.orders ≡ db.orders) × (d.order_lines ≡ db.order_lines)
unfolding begin_deduped
begun_same event db d h = (ground (arith, h), ground (arith, h))

deduped-Holds :
    (o : Order) (ls : List Line) (event : String) (body : Db → Outcome (Order × Db)) (db : Db)
    → ((d : Db) (x : Order × Db) → body d ≡ ok x → Holds o ls d → Holds o ls x.1)
    → Holds o ls db
    → Holds o ls (deduped event body db).0
deduped-Holds o ls event body db step h = elim (Option-cases (begin_deduped event db)) [
  | inl seen ↦ rw (deduped_seen event body db seen) h
  | inr (d, begun) ↦ elim (Outcome-cases (body d)) [
    | inr (f, hf) ↦ rw (deduped_failed event body db d f begun hf) h
    | inl (x, hx) ↦
        let (ho, hl) = begun_same event db d begun in
        rw (deduped_done event body db d x begun hx)
          (step d x hx (same_tables-Holds o ls db d ho hl h))
  ]
]

delivery-Holds :
    (o : Order) (ls : List Line) (id shop : String) (db : Db)
    → Holds o ls db
    → Holds o ls (insert_delivery id shop db)
unfolding insert_delivery
delivery-Holds o ls id shop db h = elim (Bool-cases (has_delivery id shop db.deliveries)) [
  | inl there ↦ rw there h
  | inr fresh ↦ rw fresh h
]

module _ (parse_uuid : String → Bool) where
  apply_tx-Holds :
      (o : Order) (ls : List Line) (id : String) (change : Order → Outcome Order) (d : Db)
      (x : Order × Db)
      → apply_tx parse_uuid id change d ≡ ok x
      → Holds o ls d
      → Holds o ls x.1
  unfolding apply_tx
  apply_tx-Holds o ls id change d x h held =
      let (y, hg, h1) = >>=-eq-ok (get parse_uuid id "" d) _ h in
      let (y', hc, h2) = >>=-eq-ok (change y) _ h1 in
      let same : (if same_status y'.status y.status then d else persist_transition y' d) ≡ x.1 =
        ground (arith, h2) in
      subst (λ z. Holds o ls z) same (by_status (same_status y'.status y.status) y')
    where
      by_status : (b : Bool) (y : Order) → Holds o ls (if b then d else persist_transition y d)
      by_status true y = held
      by_status false y = persist-Holds o y ls d held

  delivered_tx-Holds :
      (o : Order) (ls : List Line) (id shop : String) (d : Db) (x : Order × Db)
      → delivered_tx parse_uuid id shop d ≡ ok x
      → Holds o ls d
      → Holds o ls x.1
  unfolding delivered_tx
  delivered_tx-Holds o ls id shop d x h held =
      let d' = insert_delivery id shop d in
      let after = delivery-Holds o ls id shop d held in
      let (y, hg, h1) =
        >>=-eq-ok (get parse_uuid id "" d) (λ o. fulfill_when_delivered id o d') h in
      elim (fulfill_when_delivered-eq-ok id y d' x h1) [
        | inl waits ↦ rw waits after
        | inr (y', same, can, written) ↦
            subst (λ z. Holds o ls z) written (persist-Holds o y' ls d' after)
      ]

  -- Every call of the store keeps an order.
  pub serve-Holds :
      (o : Order) (ls : List Line) (c : Call) (db : Db)
      → Holds o ls db
      → Holds o ls (serve parse_uuid c db)
  unfolding serve apply apply_shipment_delivered
  serve-Holds o ls (insert_call x) db h =
      insert_order-Holds o (record x { status = pending_payment }) ls db h
  serve-Holds o ls (confirm_call id event) db h =
      deduped-Holds o ls event (apply_tx parse_uuid id confirm) db (apply_tx-Holds o ls id confirm)
        h
  serve-Holds o ls (cancel_call id event reason) db h =
      deduped-Holds o ls event (apply_tx parse_uuid id (cancel reason)) db
        (apply_tx-Holds o ls id (cancel reason)) h
  serve-Holds o ls (expire_call id event) db h =
      deduped-Holds o ls event (apply_tx parse_uuid id expire) db (apply_tx-Holds o ls id expire) h
  serve-Holds o ls (delivered_call id shop event) db h =
      deduped-Holds o ls event (delivered_tx parse_uuid id shop) db
        (delivered_tx-Holds o ls id shop) h

  -- An order that is held can be read, by its id alone.
  pub get-held :
      (o : Order) (ls : List Line) (db : Db)
      → parse_uuid o.id ≡ true
      → Holds o ls db
      → (r : Order) × (get parse_uuid o.id "" db ≡ ok r) × Same o r × (r.lines ≡ ls)
  unfolding get
  get-held o ls db u ((r, e, s), hl) =
      let cur : r.total.currency ≡ o.total.currency = ap (λ m. m.currency) s.2 in
      (
        record r { lines = attached r.total.currency o.id db.order_lines },
        ground (arith, u, e),
        s,
        ap (λ c. attached c o.id db.order_lines) cur ∙ hl,
      )
