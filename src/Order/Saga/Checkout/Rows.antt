-- ===== src/Order/Saga/Checkout/Rows.antt =====
-- :The row of an order that a checkout inserts (InsertWithKey of
-- services/order/internal/store/idempotency.go), and what a checkout leaves behind.
use commerce_platform.Common.{
  ◌≡◌, sym, ◌∙◌, ap, subst, String, true, false, Option, none, some, List, [], ◌∷◌, arith,
  if◌then◌else◌, str_eq, Outcome, ok, err, Error, Outcome-cases, Bool-cases, inl, inr, >>=-eq-ok,
  ◌>>=◌, reject_if,
}
use commerce_platform.Common.Table.{lookup, insert, lookup-insert_self, has_row}
use commerce_platform.Order.{Order}
use commerce_platform.Order.Store.{
  Db, order_row, insert_order, insert_order_tx, insert_lines, outbox_created, db_error,
}
use commerce_platform.Order.Methods.{insert_lines_tables, insert_done, insert_failed}
use commerce_platform.Order.Keys.{Keys, insert_with_key, insert_with_key_tx, complete_key}
use commerce_platform.Order.Saga.{
  World, Rpc, cart_read, priced, reserved, committed, released, payment_opened, voided,
  cart_cleared, refunded, restocked,
}
use commerce_platform.Order.Saga.Checkout.{CreateResult}

abbrev pub removed : String → List String → List String
removed x [] = []
removed x (y ∷ ys) = if str_eq y x then ys else y ∷ removed x ys

-- The reservations that were made and not yet asked to be released.
unfoldable pub open_reservations : List Rpc → List String
open_reservations [] = []
open_reservations (reserved r i (some rid) ∷ cs) = rid ∷ open_reservations cs
open_reservations (reserved r i none ∷ cs) = open_reservations cs
open_reservations (released rid b ∷ cs) = removed rid (open_reservations cs)
open_reservations (cart_read c b ∷ cs) = open_reservations cs
open_reservations (priced i b ∷ cs) = open_reservations cs
open_reservations (committed rid b ∷ cs) = open_reservations cs
open_reservations (payment_opened o m p ∷ cs) = open_reservations cs
open_reservations (voided p b ∷ cs) = open_reservations cs
open_reservations (cart_cleared c b ∷ cs) = open_reservations cs
open_reservations (refunded p m k b ∷ cs) = open_reservations cs
open_reservations (restocked p d r b ∷ cs) = open_reservations cs

-- The payments that were opened and not yet asked to be voided.
unfoldable pub open_payments : List Rpc → List String
open_payments [] = []
open_payments (payment_opened o m (some pid) ∷ cs) = pid ∷ open_payments cs
open_payments (payment_opened o m none ∷ cs) = open_payments cs
open_payments (voided pid b ∷ cs) = removed pid (open_payments cs)
open_payments (cart_read c b ∷ cs) = open_payments cs
open_payments (priced i b ∷ cs) = open_payments cs
open_payments (reserved r i x ∷ cs) = open_payments cs
open_payments (committed rid b ∷ cs) = open_payments cs
open_payments (released rid b ∷ cs) = open_payments cs
open_payments (cart_cleared c b ∷ cs) = open_payments cs
open_payments (refunded p m k b ∷ cs) = open_payments cs
open_payments (restocked p d r b ∷ cs) = open_payments cs

-- The open reservations are `rs`, the open payments `ps`, and the tables of orders are `db`.
abbrev pub Leaves : List String → List String → Db → World → Type 0
Leaves rs ps db w = (open_reservations w.calls ≡ rs) × (open_payments w.calls ≡ ps) × (w.db ≡ db)

-- What a checkout may leave, if there were `rs`, `ps` and `db` before it.
abbrev pub Accounts : List String → List String → Db → World × Outcome CreateResult → Type 0
Accounts rs ps db (w, err e) = Leaves rs ps db w
Accounts rs ps db (w, ok r) =
    if r.replayed
    then Leaves rs ps db w
    else ((open_reservations w.calls ≡ r.order.reservation_id ∷ rs)
        × (open_payments w.calls ≡ r.order.payment_id ∷ ps)
        × (lookup r.order.id w.db.orders ≡ some (order_row r.order)))

abbrev pub Stored : Order → (Db × Keys) × Outcome (Unit {0}) → Type 0
Stored o ((db, keys), ok u) = lookup o.id db.orders ≡ some (order_row o)
Stored o (tables, err e) = Unit {0}

-- An id that was answered is not the empty text.
abbrev pub Named : Option String → Type 0
Named none = Unit {0}
Named (some id) = str_eq id "" ≡ false

insert_order_tx-row :
    (o : Order) (db d : Db)
    → insert_order_tx o db ≡ ok d
    → lookup o.id d.orders ≡ some (order_row o)
unfolding insert_order_tx outbox_created
insert_order_tx-row o db d h =
    let rows : Db = record db { orders = insert o.id (order_row o) db.orders } in
    let (_, free, h1) =
      >>=-eq-ok (reject_if (has_row o.id db.orders) db_error)
        (λ _. insert_lines o.id o.lines rows >>= λ d. ok (outbox_created o d)) h in
    let (d1, hl, h2) =
      >>=-eq-ok (insert_lines o.id o.lines rows) (λ d. ok (outbox_created o d)) h1 in
    let same : d1.orders ≡ d.orders = ground (arith, h2) in
    sym (ap (λ t. lookup o.id t) same)
    ∙ ap (λ t. lookup o.id t) (insert_lines_tables o.id o.lines rows d1 hl).0
    ∙ lookup-insert_self o.id (order_row o) db.orders

without_key :
    (o : Order) (key : String) (db : Db) (keys : Keys)
    → str_eq key "" ≡ true
    → insert_with_key o key db keys ≡ (((insert_order o db).0, keys), (insert_order o db).1)
unfolding insert_with_key
without_key o key db keys e = ground (arith, e)

with_key :
    (o : Order) (key : String) (db : Db) (keys : Keys) (t : Db × Keys)
    → str_eq key "" ≡ false
    → insert_with_key_tx o key db keys ≡ ok t
    → insert_with_key o key db keys ≡ (t, ok tt)
unfolding insert_with_key
with_key o key db keys t e h = ground (arith, e, h)

with_key_failed :
    (o : Order) (key : String) (db : Db) (keys : Keys) (f : Error)
    → str_eq key "" ≡ false
    → insert_with_key_tx o key db keys ≡ err f
    → insert_with_key o key db keys ≡ ((db, keys), err f)
unfolding insert_with_key
with_key_failed o key db keys f e h = ground (arith, e, h)

insert_with_key_tx-row :
    (o : Order) (key : String) (db : Db) (keys : Keys) (t : Db × Keys)
    → insert_with_key_tx o key db keys ≡ ok t
    → Stored o (t, ok tt)
unfolding insert_with_key_tx
insert_with_key_tx-row o key db keys t h =
    let (d, hd, h1) =
      >>=-eq-ok (insert_order_tx o db) (λ d. complete_key key o.id keys >>= λ k. ok (d, k)) h in
    let (k, hk, h2) = >>=-eq-ok (complete_key key o.id keys) (λ k. ok (d, k)) h1 in
    let same : d ≡ t.0 = ground (arith, h2) in
    subst (λ d. lookup o.id d.orders ≡ some (order_row o)) same (insert_order_tx-row o db d hd)

insert_order_lem :
    (o : Order) (db : Db) (keys : Keys)
    → Stored o (((insert_order o db).0, keys), (insert_order o db).1)
insert_order_lem o db keys = elim (Outcome-cases (insert_order_tx o db)) [
  | inl (d, h) ↦ rw (insert_done o db d h) (insert_order_tx-row o db d h)
  | inr (e, h) ↦ rw (insert_failed o db e h) tt
]

-- A checkout's order that was inserted is there.
pub insert_with_key_lem :
    (o : Order) (key : String) (db : Db) (keys : Keys) → Stored o (insert_with_key o key db keys)
insert_with_key_lem o key db keys = elim (Bool-cases (str_eq key "")) [
  | inl e ↦ rw (without_key o key db keys e) (insert_order_lem o db keys)
  | inr e ↦ elim (Outcome-cases (insert_with_key_tx o key db keys)) [
    | inl (t, h) ↦ rw (with_key o key db keys t e h) (insert_with_key_tx-row o key db keys t h)
    | inr (f, h) ↦ rw (with_key_failed o key db keys f e h) tt
  ]
]
