-- ===== src/Inventory/Oversell.antt =====
-- `Reserve` as one transaction: all of the lines or none, and never more than is on hand.
use commerce_platform.Common.{
  ℕ, ◌+◌, ◌≤◌, ◌≡◌, refl, sym, String, true, none, List, All-map, arith, Outcome, ok, err, Error,
  >>=-eq-ok, ◌⊎◌, ◌∙◌,
}
use commerce_platform.Common.Table.{lookup, insert, lookup-insert_self, has_row-insert}
use commerce_platform.Inventory.{
  Line, Reservation, Db, held, level, reserve_lines, insert_reservation, items_of, reserve,
  reserve_tx, transact,
}
use commerce_platform.Inventory.Sums.{held_in, IsValid, held_for-insert_new, units_of, items_of_new}
use commerce_platform.Inventory.Reserve.{ordered, reserve_lines-Reserved}

-- The state after a new HELD reservation with no items.
unfoldable pub opened : String → String → ℕ → Db → Db
opened rid order_ref expires db =
    let r : Reservation = record { order_ref = order_ref; status = held; expires_at = expires } in
    record db { reservations = insert rid r db.reservations }

insert_reservation-eq-ok :
    (rid order_ref : String) (expires : ℕ) (db : Db) {db' : Db}
    → insert_reservation rid order_ref expires db ≡ ok db'
    → (lookup rid db.reservations ≡ none) × (db' ≡ opened rid order_ref expires db)
unfolding insert_reservation opened
insert_reservation-eq-ok rid order_ref expires db h = ground arith

opened-IsValid :
    (rid order_ref : String) (expires : ℕ) (db : Db)
    → lookup rid db.reservations ≡ none
    → IsValid db
    → IsValid (opened rid order_ref expires db)
unfolding opened level
opened-IsValid rid order_ref expires db fresh v = record {
  sums = λ p. v.sums p ∙ sym (held_for-insert_new db.reservations rid p _ db.items fresh v.known);
  on_hand_bound = v.on_hand_bound;
  reserved_bound = v.reserved_bound;
  stocked = v.stocked;
  known =
      All-map _ _ db.items (λ it h. has_row-insert rid it.reservation_id _ db.reservations h)
        v.known;
}

opened-held_in :
    (rid order_ref : String) (expires : ℕ) (db : Db)
    → held_in (opened rid order_ref expires db).reservations rid ≡ true
unfolding opened
opened-held_in rid order_ref expires db =
    let r : Reservation = record { order_ref = order_ref; status = held; expires_at = expires } in
    ground (arith, lookup-insert_self rid r db.reservations)

-- Inversion of a transaction that succeeds.
pub transact-eq-ok :
    {A : Type 0} (t : Db → Outcome (A × Db)) (db : Db) {a : A}
    → (transact t db).1 ≡ ok a
    → t db ≡ ok (a, (transact t db).0)
unfolding transact
transact-eq-ok t db h = ground arith

pub transact-eq-err :
    {A : Type 0} (t : Db → Outcome (A × Db)) (db : Db) {e : Error}
    → (transact t db).1 ≡ err e
    → (transact t db).0 ≡ db
unfolding transact
transact-eq-err t db h = ground arith

-- What the caller of `Reserve` relies on, by how the call ended.
abbrev pub Promises : String → List Line → ℕ → String → Db → Db × Outcome (String × ℕ) → Type 0
Promises rid lns expires q db (db', ok (id, at)) =
    (id ≡ rid)
    × (at ≡ expires)
    × (lookup rid db.reservations ≡ none)
    × (held_in db'.reservations rid ≡ true)
    × ((level q db').on_hand ≡ (level q db).on_hand)
    × ((level q db').reserved ≡ (level q db).reserved + ordered q lns)
    × ((ordered q lns ≡ 0) ⊎ ((level q db').reserved ≤ (level q db').on_hand))
    × (units_of q (items_of rid db'.items) ≡ ordered q lns)
Promises rid lns expires q db (db', err e) = db' ≡ db

opened-Promises :
    (rid order_ref : String) (expires : ℕ) (lns : List Line) (q : String) (db db' : Db)
    → lookup rid db.reservations ≡ none
    → reserve_lines rid lns (opened rid order_ref expires db) ≡ ok db'
    → IsValid db
    → IsValid db' × Promises rid lns expires q db (db', ok (rid, expires))
unfolding level
opened-Promises rid order_ref expires lns q db db' fresh loop v =
    let marked = opened-held_in rid order_ref expires db in
    let (v', r) =
      reserve_lines-Reserved rid lns (opened rid order_ref expires db) loop marked
        (opened-IsValid rid order_ref expires db fresh v) in
    (
      v',
      (
        refl,
        refl,
        fresh,
        rw r.same_reservations marked,
        unfold opened in r.same_on_hand q,
        unfold opened in r.added q,
        ground (arith, r.covered q),
        omega (arith, r.recorded q, none_yet),
      ),
    )
  where
    none_yet : units_of q (items_of rid (opened rid order_ref expires db).items) ≡ 0
    none_yet =
        unfold opened units_of in rw (items_of_new db.reservations rid db.items fresh v.known) refl

reserve_tx-Promises :
    (rid : String) (now : ℕ) (order_ref : String) (lns : List Line) (ttl : ℕ) (q : String)
    (db db' : Db) (x : String × ℕ)
    → reserve_tx rid now order_ref lns ttl db ≡ ok (x, db')
    → IsValid db
    → IsValid db' × Promises rid lns (now + ttl) q db (db', ok x)
unfolding reserve_tx
reserve_tx-Promises rid now order_ref lns ttl q db db' x h v =
    let (d, opens, more) = >>=-eq-ok (insert_reservation rid order_ref (now + ttl) db) _ h in
    let (d', loop, done) = >>=-eq-ok (reserve_lines rid lns d) _ more in
    let (fresh, d_eq) = insert_reservation-eq-ok rid order_ref (now + ttl) db opens in
    let x_eq : (rid, now + ttl) ≡ x = cc in
    let d'_eq : d' ≡ db' = cc in
    let loop' : reserve_lines rid lns (opened rid order_ref (now + ttl) db) ≡ ok db' = cc in
    rw (← x_eq) (opened-Promises rid order_ref (now + ttl) lns q db db' fresh loop' v)

by_outcome :
    (rid : String) (now : ℕ) (order_ref : String) (lns : List Line) (ttl : ℕ) (q : String) (db : Db)
    (o : Outcome (String × ℕ))
    → (reserve rid now order_ref lns ttl db).1 ≡ o
    → IsValid db
    → let db' = (reserve rid now order_ref lns ttl db).0 in
      IsValid db' × Promises rid lns (now + ttl) q db (db', o)
unfolding reserve
by_outcome rid now order_ref lns ttl q db (ok x) h v =
    reserve_tx-Promises rid now order_ref lns ttl q db _ x
      (transact-eq-ok (reserve_tx rid now order_ref lns ttl) db h) v
by_outcome rid now order_ref lns ttl q db (err e) h v =
    let same = transact-eq-err (reserve_tx rid now order_ref lns ttl) db h in (rw same v, same)

pub reserve_never_oversells :
    (rid : String) (now : ℕ) (order_ref : String) (lns : List Line) (ttl : ℕ) (q : String) (db : Db)
    → IsValid db
    → let (db', o) = reserve rid now order_ref lns ttl db in
      IsValid db' × Promises rid lns (now + ttl) q db (db', o)
reserve_never_oversells rid now order_ref lns ttl q db v =
    by_outcome rid now order_ref lns ttl q db _ refl v
