-- ===== src/Order/Steps.antt =====
-- One change of an order in services/order/internal/store/store.go: events and status agree.
use commerce_platform.Common.{append_nil}
use commerce_platform.Common.{
  ◌≡◌, refl, sym, subst, ◌∙◌, inl, inr, String, Bool, true, false, none, some, [], ◌∷◌, ◌++◌, arith,
  if◌then◌else◌, str_eq, eq_iff, Outcome, ok, err, Error, Option-cases, Outcome-cases, >>=-eq-ok,
}
use commerce_platform.Common.Table.{lookup, insert, lookup-insert}
use commerce_platform.Order.{Status, Order, can_transition_to}
use commerce_platform.Order.Store.{
  Db, get, apply_tx, deduped, begin_deduped, outbox_transition, persist_transition, update_row,
  transition_event, same_status,
}
use commerce_platform.Order.Trails.{
  trail, LeadsTo, Follows, Agrees, trail-append, LeadsTo-step, trail-transition_event, Lawful,
}

module _ (parse_uuid : String → Bool) where
  -- An order that is read has the id and the status of its row.
  pub get-eq-ok :
      (id : String) (db : Db) (o : Order)
      → get parse_uuid id "" db ≡ ok o
      → (r : Order) × (lookup id db.orders ≡ some r) × (o.id ≡ r.id) × (o.status ≡ r.status)
  unfolding get
  get-eq-ok id db o h = elim (Option-cases (lookup id db.orders)) [
    | inl e ↦ absurd (ground (arith, h, e))
    | inr (r, e) ↦ (r, e, ground (arith, h, e), ground (arith, h, e))
  ]

same_status_iff : (a b : Status) → same_status a b ≡ true → a ≡ b
same_status_iff a b h = ground arith

-- A row after the UPDATE.
unfoldable pub updated : Order → Order → Order
updated o r = record r {
  status = o.status;
  cancel_reason = o.cancel_reason;
  payment_id = o.payment_id;
  reservation_id = o.reservation_id;
}

pub update_row_found :
    (o r : Order) (db : Db)
    → lookup o.id db.orders ≡ some r
    → update_row o db ≡ record db { orders = insert o.id (updated o r) db.orders }
unfolding update_row updated
update_row_found o r db e = ground (arith, e)

-- The step of one order, seen from any id.
moved_row-Follows :
    (same : Bool) (id q : String) (st to : Status) (r' : Order) (db : Db)
    → str_eq id q ≡ same
    → r'.id ≡ id
    → r'.status ≡ to
    → LeadsTo st (trail id db.outbox)
    → can_transition_to st to ≡ true
    → Agrees q db
    → Follows q
        (trail q db.outbox ++ (if same then to ∷ [] else []))
        (if same then some r' else lookup q db.orders)
moved_row-Follows true id q st to r' db e hi hs h can b =
    subst (λ i. (r'.id ≡ i) × LeadsTo r'.status (trail i db.outbox ++ to ∷ [])) ((eq_iff id q).0 e)
      (hi, rw hs (LeadsTo-step st to (trail id db.outbox) h can))
moved_row-Follows false id q st to r' db e hi hs h can b = rw (append_nil (trail q db.outbox)) b

pub persist-Agrees :
    (q : String) (o r : Order) (db : Db)
    → lookup o.id db.orders ≡ some r
    → can_transition_to r.status o.status ≡ true
    → Agrees o.id db
    → Agrees q db
    → Agrees q (persist_transition o db)
unfolding persist_transition outbox_transition updated
persist-Agrees q o r db e can bi bq =
    let (hi, h) : Follows o.id (trail o.id db.outbox) (some r) =
      subst (λ x. Follows o.id (trail o.id db.outbox) x) e bi in
    rw
      (
        update_row_found o r db e,
        lookup-insert o.id q (updated o r) db.orders,
        trail-append q db.outbox (transition_event o.status o),
        trail-transition_event q r.status o.status o can,
      )
      (moved_row-Follows _ o.id q r.status o.status (updated o r) db refl hi refl h can bq)

-- The tables after a change that was made, at any id.
changed-Agrees :
    (same : Bool) (q : String) (o o' r : Order) (db : Db)
    → same_status o'.status o.status ≡ same
    → lookup r.id db.orders ≡ some r
    → o.id ≡ r.id
    → o.status ≡ r.status
    → Lawful o (ok o')
    → Agrees r.id db
    → Agrees q db
    → Agrees q (if same then db else persist_transition o' db)
changed-Agrees true q o o' r db e el hi hs law bi bq = bq
changed-Agrees false q o o' r db e el hi hs (kept, inl stays) bi bq =
    absurd (ground (arith, e, stays))
changed-Agrees false q o o' r db e el hi hs (kept, inr can) bi bq =
    let there : o'.id ≡ r.id = kept ∙ hi in
    persist-Agrees q o' r db (rw there el) (rw (sym hs) can)
      (subst (λ i. Agrees i db) (sym there) bi) bq

-- An order's row has the order's id.
pub row-id :
    (id : String) (r : Order) (db : Db) → lookup id db.orders ≡ some r → Agrees id db → r.id ≡ id
row-id id r db e b = (subst (λ x. Follows id (trail id db.outbox) x) e b).0

module _ (parse_uuid : String → Bool) where
  pub apply_tx-Agrees :
      (q id : String) (change : Order → Outcome Order) (db : Db) (x : Order × Db)
      → ((o : Order) → Lawful o (change o))
      → apply_tx parse_uuid id change db ≡ ok x
      → ((i : String) → Agrees i db)
      → Agrees q x.1
  unfolding apply_tx
  apply_tx-Agrees q id change db x law h b =
      let (o, hg, h1) = >>=-eq-ok (get parse_uuid id "" db) _ h in
      let (o', hc, h2) = >>=-eq-ok (change o) _ h1 in
      let (r, el, hi, hs) = get-eq-ok parse_uuid id db o hg in
      let there = row-id id r db el (b id) in
      let same : (if same_status o'.status o.status then db else persist_transition o' db) ≡ x.1 =
        ground (arith, h2) in
      subst (λ d. Agrees q d) same
        (changed-Agrees _ q o o' r db refl (rw there el) hi hs (subst (λ y. Lawful o y) hc (law o))
          (b r.id) (b q))

pub kept_tables-Agrees :
    (q : String) (d db : Db)
    → d.orders ≡ db.orders
    → d.outbox ≡ db.outbox
    → Agrees q db
    → Agrees q d
kept_tables-Agrees q d db ho hx b = rw (ho, hx) b

begun_tables :
    (event : String) (db d : Db)
    → begin_deduped event db ≡ some d
    → (d.orders ≡ db.orders) × (d.outbox ≡ db.outbox)
unfolding begin_deduped
begun_tables event db d h = (ground (arith, h), ground (arith, h))

pub deduped_seen :
    (event : String) (body : Db → Outcome (Order × Db)) (db : Db)
    → begin_deduped event db ≡ none
    → deduped event body db ≡ (db, ok none)
unfolding deduped
deduped_seen event body db h = ground (arith, h)

pub deduped_failed :
    (event : String) (body : Db → Outcome (Order × Db)) (db d : Db) (e : Error)
    → begin_deduped event db ≡ some d
    → body d ≡ err e
    → deduped event body db ≡ (db, err e)
unfolding deduped
deduped_failed event body db d e h he = ground (arith, h, he)

pub deduped_done :
    (event : String) (body : Db → Outcome (Order × Db)) (db d : Db) (x : Order × Db)
    → begin_deduped event db ≡ some d
    → body d ≡ ok x
    → deduped event body db ≡ (x.1, ok (some x.0))
unfolding deduped
deduped_done event body db d x h hx = ground (arith, h, hx)

pub deduped-Agrees :
    (q event : String) (body : Db → Outcome (Order × Db)) (db : Db)
    → ((d : Db) (x : Order × Db) → body d ≡ ok x → ((i : String) → Agrees i d) → Agrees q x.1)
    → ((i : String) → Agrees i db)
    → Agrees q (deduped event body db).0
deduped-Agrees q event body db step b = elim (Option-cases (begin_deduped event db)) [
  | inl seen ↦ rw (deduped_seen event body db seen) (b q)
  | inr (d, begun) ↦ elim (Outcome-cases (body d)) [
    | inr (e, he) ↦ rw (deduped_failed event body db d e begun he) (b q)
    | inl (x, hx) ↦
        let (ho, hb) = begun_tables event db d begun in
        rw (deduped_done event body db d x begun hx)
          (step d x hx (λ i. kept_tables-Agrees i d db ho hb (b i)))
  ]
]
