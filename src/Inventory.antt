-- ===== src/Inventory.antt =====
-- The stock store (services/inventory/internal/store/store.go): levels, reservations and the
-- outbox, with the SQL statements of each method as updates of the tables of
-- services/inventory/internal/store/migrations/00001_init.sql.
pub mod Sums
pub mod Reserve
pub mod Oversell
pub mod Finish
pub mod Settlement
pub mod Adjust
pub mod Run
pub mod Sweep
pub mod Server
mod Tests
use commerce_platform.Common.{
  ℕ, ◌+◌, String, Bool, true, false, ◌&&◌, ◌||◌, Option, none, some, List, [], ◌∷◌, ◌++◌, ltb, leb,
  not, if◌then◌else◌, str_eq, length, take, Outcome, ok, err, Error, new_error, ◌>>=◌, ◌>>◌,
  reject_if, internal, failed_precondition,
}
use commerce_platform.Common.Table.{Table, lookup, insert}
use commerce_platform.Common.Int.{ℤ, pos, negsuc, ◌+ℤ◌, ◌-ℤ◌, pos_part, leb_ℤ, ltb_ℤ, int32}

-- The columns carry `CHECK (on_hand >= 0)` and `CHECK (reserved >= 0)`.
pub record Level : Type 0 where
  pub on_hand : ℕ
  pub reserved : ℕ

unfoldable pub available : Level → ℤ
available l = pos l.on_hand -ℤ pos l.reserved

pub record Line : Type 0 where
  pub product_id : String
  pub quantity : ℤ

pub data ReservationStatus : Type 0 where
  held committed released : ReservationStatus

abbrev pub is_held : ReservationStatus → Bool
is_held held = true
is_held _ = false

pub record Reservation : Type 0 where
  pub order_ref : String
  pub status : ReservationStatus
  pub expires_at : ℕ

-- The column carries `CHECK (quantity > 0)`.
pub record ReservationItem : Type 0 where
  pub reservation_id : String
  pub product_id : String
  pub quantity : ℕ

-- The payloads of the outbox rows.
pub data Event : Type 0 where
  stock_changed : String → ℤ → ℤ → ℤ → Event
  reservation_expired : String → String → List Line → Event

pub record Db : Type 0 where
  pub stock : Table Level
  pub reservations : Table Reservation
  pub items : List ReservationItem
  pub outbox : List Event

abbrev pub db_error : Error
db_error = new_error internal "DB_ERROR"

abbrev pub insufficient_stock : Error
insufficient_stock = new_error failed_precondition "INSUFFICIENT_STOCK"

-- What an INTEGER column with a CHECK of at least 0 takes: below 2 ^ 31, or the statement fails.
unfoldable pub pg_integer : ℤ → Outcome ℕ
pg_integer (pos n) = if ltb n 2147483648 then ok n else err db_error
pg_integer (negsuc n) = err db_error

-- A transaction: its writes are kept on success, and rolled back on an error.
unfoldable pub transact {ℓ} : {A : Type ℓ} → (Db → Outcome (A × Db)) → Db → Db × Outcome A
transact t db = elim (t db) [ ok (a, db') ↦ (db', ok a) | err e ↦ (db, err e) ]

-- `outboxStock`.
unfoldable pub outbox_stock : String → ℤ → ℤ → Db → Db
outbox_stock p on_hand reserved db = record db {
  outbox =
      db.outbox
      ++ stock_changed p (int32 on_hand) (int32 reserved) (int32 (on_hand -ℤ reserved)) ∷ [];
}

abbrev pub level_or_zero : Option Level → Level
level_or_zero none = record { on_hand = 0; reserved = 0 }
level_or_zero (some l) = l

-- `Levels`, for one product: zeroes where there is no row.
unfoldable pub level : String → Db → Level
level p db = level_or_zero (lookup p db.stock)

-- The statement of `EnsureStockRow`. The CHECK is made before the conflict is looked for.
unfoldable pub ensure_stock_row_tx : String → ℤ → Db → Outcome (Unit {0} × Db)
unfolding pg_integer
ensure_stock_row_tx p default_on_hand db = do
  n ← pg_integer default_on_hand
  elim (lookup p db.stock) [
    | some _ ↦ ok (tt, db)
    | none ↦ ok (tt, record db { stock = insert p (record { on_hand = n; reserved = 0 }) db.stock })
  ]

-- `EnsureStockRow`.
unfoldable pub ensure_stock_row : String → ℤ → Db → Db × Outcome (Unit {0})
unfolding transact ensure_stock_row_tx
ensure_stock_row p default_on_hand = transact (ensure_stock_row_tx p default_on_hand)

-- Is there a row of that primary key in `reservation_items`?
unfoldable pub has_item : String → String → List ReservationItem → Bool
has_item rid p [] = false
has_item rid p (it ∷ its) =
    (str_eq it.reservation_id rid && str_eq it.product_id p) || has_item rid p its

-- The INSERT into `reservation_items`: its CHECK and its primary key.
unfoldable pub insert_item : String → String → ℤ → Db → Outcome Db
unfolding has_item
insert_item rid p (negsuc n) db = err db_error
insert_item rid p (pos n) db = do
  reject_if (leb n 0) db_error
  reject_if (has_item rid p db.items) db_error
  ok (record db {
    items = db.items ++ record { reservation_id = rid; product_id = p; quantity = n } ∷ [];
  })

-- The body of the loop of `Reserve`, once the row of stock is read.
unfoldable pub reserve_at : String → Line → Level → Db → Outcome Db
unfolding available pg_integer insert_item outbox_stock
reserve_at rid ln l db = do
  reject_if (ltb_ℤ (available l) ln.quantity) insufficient_stock
  n ← pg_integer (pos l.reserved +ℤ ln.quantity)
  let stock' = insert ln.product_id (record l { reserved = n }) db.stock
  db' ← insert_item rid ln.product_id ln.quantity (record db { stock = stock' })
  ok (outbox_stock ln.product_id (pos l.on_hand) (pos l.reserved +ℤ ln.quantity) db')

unfoldable pub reserve_line : String → Line → Db → Outcome Db
unfolding reserve_at
reserve_line rid ln db = elim (lookup ln.product_id db.stock) [
  | none ↦ err insufficient_stock
  | some l ↦ reserve_at rid ln l db
]

unfoldable pub reserve_lines : String → List Line → Db → Outcome Db
unfolding reserve_line
reserve_lines rid [] db = ok db
reserve_lines rid (ln ∷ lns) db = reserve_line rid ln db >>= reserve_lines rid lns

-- The INSERT into `reservations`; the database makes the id `rid`.
unfoldable pub insert_reservation : String → String → ℕ → Db → Outcome Db
insert_reservation rid order_ref expires db = elim (lookup rid db.reservations) [
  | some _ ↦ err db_error
  | none ↦
      let r : Reservation = record { order_ref = order_ref; status = held; expires_at = expires } in
      ok (record db { reservations = insert rid r db.reservations })
]

-- The body of the transaction of `Reserve`, at the time `now`, with the id that the database makes.
unfoldable pub reserve_tx : String → ℕ → String → List Line → ℕ → Db → Outcome ((String × ℕ) × Db)
unfolding insert_reservation reserve_lines
reserve_tx rid now order_ref lines ttl db = do
  db' ← insert_reservation rid order_ref (now + ttl) db
  db'' ← reserve_lines rid lines db'
  ok ((rid, now + ttl), db'')

-- `Reserve`.
unfoldable pub reserve : String → ℕ → String → List Line → ℕ → Db → Db × Outcome (String × ℕ)
unfolding transact reserve_tx
reserve rid now order_ref lines ttl = transact (reserve_tx rid now order_ref lines ttl)

-- The clamp of `applyStockDelta`.
abbrev pub clamp_zero : ℤ → ℤ
clamp_zero z = if ltb_ℤ z (pos 0) then pos 0 else z

abbrev pub Delta : Type 0
Delta = ℤ → ℤ → ℤ → ℤ × ℤ

-- The two closures that are handed to `finish`.
unfoldable pub commit_delta : Delta
commit_delta on_hand reserved qty = (on_hand -ℤ qty, reserved -ℤ qty)

unfoldable pub release_delta : Delta
release_delta on_hand reserved qty = (on_hand, reserved -ℤ qty)

-- `applyStockDelta`. A missing row of stock is a database error there.
unfoldable pub apply_stock_delta : Delta → ReservationItem → Db → Outcome Db
unfolding pg_integer outbox_stock
apply_stock_delta apply it db = elim (lookup it.product_id db.stock) [
  | none ↦ err db_error
  | some l ↦ do
    let moved = apply (pos l.on_hand) (pos l.reserved) (pos it.quantity)
    h ← pg_integer (clamp_zero moved.0)
    r ← pg_integer (clamp_zero moved.1)
    let stock' = insert it.product_id (record { on_hand = h; reserved = r }) db.stock
    ok (outbox_stock it.product_id (pos h) (pos r) (record db { stock = stock' }))
]

unfoldable pub apply_stock_deltas : Delta → List ReservationItem → Db → Outcome Db
unfolding apply_stock_delta
apply_stock_deltas apply [] db = ok db
apply_stock_deltas apply (it ∷ its) db =
    apply_stock_delta apply it db >>= apply_stock_deltas apply its

-- `loadReservationItems`.
unfoldable pub items_of : String → List ReservationItem → List ReservationItem
items_of rid [] = []
items_of rid (it ∷ its) =
    if str_eq it.reservation_id rid then it ∷ items_of rid its else items_of rid its

-- The update that closes a reservation.
unfoldable pub set_status : String → ReservationStatus → Reservation → Db → Db
set_status rid s r db = record db {
  reservations = insert rid (record r { status = s }) db.reservations;
}

-- The part of `finish` after a HELD reservation has been found.
unfoldable pub settle : String → ReservationStatus → Delta → Reservation → Db → Outcome Db
unfolding apply_stock_deltas items_of set_status
settle rid target apply r db = do
  db' ← apply_stock_deltas apply (items_of rid db.items) db
  ok (set_status rid target r db')

-- What `uuid.Parse` accepts is a parameter.
module _ (parse_uuid : String → Bool) where
  -- `reservationIsHeld`, with the row that it locks.
  unfoldable pub reservation_is_held : String → Db → Option Reservation
  reservation_is_held rid db =
      if parse_uuid rid
      then (elim (lookup rid db.reservations) [
        | none ↦ none
        | some r ↦ if is_held r.status then some r else none
      ])
      else none

  unfoldable pub finish_tx : String → ReservationStatus → Delta → Db → Outcome (Unit {0} × Db)
  finish_tx rid target apply db = elim (reservation_is_held rid db) [
    | none ↦ ok (tt, db)
    | some r ↦ do db' ← settle rid target apply r db; ok (tt, db')
  ]

  unfoldable pub finish : String → ReservationStatus → Delta → Db → Db × Outcome (Unit {0})
  unfolding transact finish_tx
  finish rid target apply = transact (finish_tx rid target apply)

  -- `Commit`.
  unfoldable pub commit : String → Db → Db × Outcome (Unit {0})
  unfolding finish commit_delta
  commit rid = finish rid committed commit_delta

  -- `Release`.
  unfoldable pub release : String → Db → Db × Outcome (Unit {0})
  unfolding finish release_delta
  release rid = finish rid released release_delta

-- The values of an INTEGER column without a CHECK.
unfoldable pub is_int4 : ℤ → Bool
is_int4 z = leb_ℤ (negsuc 2147483647) z && ltb_ℤ z (pos 2147483648)

-- `GREATEST(on_hand + delta, 0)`: the parameter and the sum must be INTEGERs, before the clamp.
unfoldable pub adjusted : ℕ → ℤ → Outcome ℕ
unfolding is_int4
adjusted n delta = do
  reject_if (not (is_int4 delta)) db_error
  reject_if (not (is_int4 (pos n +ℤ delta))) db_error
  ok (pos_part (pos n +ℤ delta))

unfoldable pub adjust_stock_tx : String → ℤ → Db → Outcome (Level × Db)
unfolding adjusted outbox_stock level
adjust_stock_tx p delta db = do
  let l = level p db
  n ← adjusted l.on_hand delta
  let l' : Level = record l { on_hand = n }
  let db' = record db { stock = insert p l' db.stock }
  ok (l', outbox_stock p (pos n) (pos l.reserved) db')

-- `AdjustStock`.
unfoldable pub adjust_stock : String → ℤ → Db → Db × Outcome Level
unfolding transact adjust_stock_tx
adjust_stock p delta = transact (adjust_stock_tx p delta)

-- A row of the query of `ExpireDue`, ordered by its expiry.
unfoldable pub insert_by_expiry :
    String × Reservation → List (String × Reservation) → List (String × Reservation)
insert_by_expiry x [] = x ∷ []
insert_by_expiry x (y ∷ ys) =
    if leb x.1.expires_at y.1.expires_at then x ∷ y ∷ ys else y ∷ insert_by_expiry x ys

-- `WHERE status = 'HELD' AND expires_at < now() ORDER BY expires_at`.
unfoldable pub due_rows : ℕ → Table Reservation → List (String × Reservation)
due_rows now [] = []
due_rows now (x ∷ xs) =
    let rest = due_rows now xs in
    if is_held x.1.status && ltb x.1.expires_at now then insert_by_expiry x rest else rest

-- `reservationItems`.
unfoldable pub lines_of : List ReservationItem → List Line
lines_of [] = []
lines_of (it ∷ its) =
    record { product_id = it.product_id; quantity = pos it.quantity } ∷ lines_of its

-- The payload's quantities are int32.
unfoldable pub event_lines : List Line → List Line
event_lines [] = []
event_lines (ln ∷ lns) = record ln { quantity = int32 ln.quantity } ∷ event_lines lns

-- `emitReservationExpired`.
unfoldable pub emit_reservation_expired : String → String → List Line → Db → Db
unfolding event_lines
emit_reservation_expired rid order_ref items db = record db {
  outbox = db.outbox ++ reservation_expired rid order_ref (event_lines items) ∷ [];
}

module _ (parse_uuid : String → Bool) where
  -- The loop of `ExpireDue`: each `Release` is a transaction of its own.
  unfoldable pub expire_rows : List (String × Reservation) → Db → Db × Outcome (Unit {0})
  expire_rows [] db = (db, ok tt)
  expire_rows ((rid, r) ∷ rows) db =
      let items = lines_of (items_of rid db.items) in
      let (db', res) = release parse_uuid rid db in
      let rest = expire_rows rows (emit_reservation_expired rid r.order_ref items db') in
      elim res [ err e ↦ (db', err e) | ok _ ↦ rest ]

  -- `ExpireDue`, at the time `now`.
  unfoldable pub expire_due : ℕ → ℕ → Db → Db × Outcome ℕ
  expire_due now limit db =
      let due = take limit (due_rows now db.reservations) in
      let (db', res) = expire_rows due db in
      elim res [ err e ↦ (db', err e) | ok _ ↦ (db', ok (length due)) ]
