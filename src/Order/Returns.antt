-- ===== src/Order/Returns.antt =====
-- Returns: services/order/internal/domain/return.go, and the tables returns and return_lines with
-- the methods of services/order/internal/store/returns.go that decide and restock.
pub mod Refunds
pub mod Requests
-- pub mod Quantities
-- pub mod Decisions
use Prim.Native.Nat.{Ordering}
use Prim.Native.String.{compare as compare_text}
use commerce_platform.Common.{
  ℕ, ◌+◌, String, Bool, true, false, not, ◌&&◌, ◌||◌, Option, none, some, List, [], ◌∷◌, ◌++◌,
  if◌then◌else◌, ltb, str_eq, Outcome, ok, err, Error, new_error, ◌>>=◌, ◌>>◌, reject_if, internal,
  not_found, failed_precondition,
}
use commerce_platform.Common.Table.{Table, lookup, insert, has_row}
use commerce_platform.Common.Int.{ℤ, pos, negsuc, leb_ℤ}
use commerce_platform.Order.{Money}
use commerce_platform.Order.Store.{MoneyMessage, money_message}

pub data ReturnStatus : Type 0 where
  requested approved rejected : ReturnStatus

abbrev pub is_rejected : ReturnStatus → Bool
is_rejected rejected = true
is_rejected _ = false

abbrev pub is_approved : ReturnStatus → Bool
is_approved approved = true
is_approved _ = false

abbrev pub is_requested : ReturnStatus → Bool
is_requested requested = true
is_requested _ = false

abbrev pub same_status : ReturnStatus → ReturnStatus → Bool
same_status requested s = is_requested s
same_status approved s = is_approved s
same_status rejected s = is_rejected s

pub record ReturnLine : Type 0 where
  pub product_id : String
  pub quantity : ℤ
  pub refund_amount : Money

-- The times at which a return was made and changed are left out.
pub record Return : Type 0 where
  pub id : String
  pub order_id : String
  pub owner_id : String
  pub status : ReturnStatus
  pub reason : String
  pub lines : List ReturnLine
  pub refund_total : Money
  pub decided_by : String
  pub decision_note : String

abbrev pub bad_transition : Error
bad_transition = new_error failed_precondition "BAD_TRANSITION"

abbrev pub wanted : Bool → ReturnStatus
wanted true = approved
wanted false = rejected

unfoldable pub decide : Bool → String → String → Return → Outcome Return
decide approve decided_by note r =
    if same_status r.status (wanted approve)
    then ok r
    else if not (is_requested r.status)
    then err bad_transition
    else ok (record r { status = wanted approve; decided_by = decided_by; decision_note = note })

-- A row of `return_lines`. The quantity carries `CHECK (quantity > 0)`.
pub record ReturnLineRow : Type 0 where
  pub return_id : String
  pub product_id : String
  pub quantity : ℕ
  pub refund_amount_cents : ℤ
  pub restocked : Bool

-- The payloads of the outbox rows: the return, its order, its owner.
pub data ReturnEvent : Type 0 where
  return_requested : String → String → String → ReturnEvent
  return_approved : String → String → String → MoneyMessage → ReturnEvent
  return_rejected : String → String → String → ReturnEvent

-- A row of `returns` is a return without its lines.
pub record ReturnsDb : Type 0 where
  pub returns : Table Return
  pub return_lines : List ReturnLineRow
  pub outbox : List ReturnEvent

abbrev pub db_error : Error
db_error = new_error internal "DB_ERROR"

abbrev pub no_return : Error
no_return = new_error not_found "RETURN_NOT_FOUND"

unfoldable pub return_event : ReturnStatus → Return → ReturnEvent
return_event requested r = return_requested r.id r.order_id r.owner_id
return_event approved r = return_approved r.id r.order_id r.owner_id (money_message r.refund_total)
return_event rejected r = return_rejected r.id r.order_id r.owner_id

unfoldable pub emit_return_event : Return → ReturnsDb → ReturnsDb
unfolding return_event
emit_return_event r db = record db { outbox = db.outbox ++ return_event r.status r ∷ [] }

unfoldable pub has_return_line : String → String → List ReturnLineRow → Bool
has_return_line id p [] = false
has_return_line id p (l ∷ ls) =
    (str_eq l.return_id id && str_eq l.product_id p) || has_return_line id p ls

-- The INSERT into `return_lines`: its CHECK and its primary key.
unfoldable pub insert_return_line :
    String → ReturnLine → List ReturnLineRow → Outcome (List ReturnLineRow)
unfolding has_return_line
insert_return_line id l rows = elim l.quantity [
  | negsuc n ↦ err db_error
  | pos n ↦ do
    reject_if (not (ltb 0 n)) db_error
    reject_if (has_return_line id l.product_id rows) db_error
    let row : ReturnLineRow = record {
      return_id = id;
      product_id = l.product_id;
      quantity = n;
      refund_amount_cents = l.refund_amount.cents;
      restocked = false;
    }
    ok (rows ++ row ∷ [])
]

unfoldable pub insert_return_lines :
    String → List ReturnLine → List ReturnLineRow → Outcome (List ReturnLineRow)
insert_return_lines id [] rows = ok rows
insert_return_lines id (l ∷ ls) rows = insert_return_line id l rows >>= insert_return_lines id ls

unfoldable pub insert_return_tx : Return → ReturnsDb → Outcome ReturnsDb
unfolding emit_return_event
insert_return_tx r db = do
  reject_if (has_row r.id db.returns) db_error
  rows ← insert_return_lines r.id r.lines db.return_lines
  ok (
      emit_return_event r (record db {
        returns = insert r.id (record r { lines = [] }) db.returns;
        return_lines = rows;
      }))

-- `InsertReturn`.
unfoldable pub insert_return : Return → ReturnsDb → ReturnsDb × Outcome (Unit {0})
insert_return r db = elim (insert_return_tx r db) [ ok db' ↦ (db', ok tt) | err e ↦ (db, err e) ]

abbrev text_ltb : String → String → Bool
text_ltb a b = elim (compare_text a b) [ Ordering.lt ↦ true | _ ↦ false ]

-- `ORDER BY product_id`.
unfoldable pub insert_row : ReturnLineRow → List ReturnLineRow → List ReturnLineRow
insert_row l [] = l ∷ []
insert_row l (m ∷ ms) =
    if text_ltb m.product_id l.product_id then m ∷ insert_row l ms else l ∷ m ∷ ms

unfoldable pub rows_of : String → List ReturnLineRow → List ReturnLineRow
unfolding insert_row
rows_of id [] = []
rows_of id (l ∷ ls) =
    let rest = rows_of id ls in if str_eq l.return_id id then insert_row l rest else rest

unfoldable pub read_lines : String → List ReturnLineRow → List ReturnLine
read_lines currency [] = []
read_lines currency (l ∷ ls) =
    record {
      product_id = l.product_id;
      quantity = pos l.quantity;
      refund_amount = record { currency = currency; cents = l.refund_amount_cents };
    }
    ∷ read_lines currency ls

-- Does a row of `return_lines` count against what can be returned of that order's product?
unfoldable pub counts_for : String → String → Table Return → ReturnLineRow → Bool
counts_for order_id p returns l = elim (lookup l.return_id returns) [
  | none ↦ false
  | some r ↦ str_eq r.order_id order_id && str_eq l.product_id p && not (is_rejected r.status)
]

unfoldable pub sum_counted : String → String → Table Return → List ReturnLineRow → ℕ
unfolding counts_for
sum_counted order_id p returns [] = 0
sum_counted order_id p returns (l ∷ ls) =
    let rest = sum_counted order_id p returns ls in
    if counts_for order_id p returns l then l.quantity + rest else rest

-- `ReturnedQty`: the sum is read into an int32.
unfoldable pub returned_qty : String → String → ReturnsDb → Outcome ℤ
unfolding sum_counted
returned_qty order_id p db =
    let n = sum_counted order_id p db.returns db.return_lines in
    if ltb n 2147483648 then ok (pos n) else err db_error

-- `UnrestockedLines`: the rows of a return that were not added back to the stock.
unfoldable pub pending_rows : List ReturnLineRow → List ReturnLineRow
pending_rows [] = []
pending_rows (l ∷ ls) = let rest = pending_rows ls in if l.restocked then rest else l ∷ rest

unfoldable pub unrestocked_lines : String → ReturnsDb → List ReturnLineRow
unfolding pending_rows rows_of
unrestocked_lines id db = pending_rows (rows_of id db.return_lines)

unfoldable pub mark_rows : String → String → List ReturnLineRow → List ReturnLineRow
mark_rows id p [] = []
mark_rows id p (l ∷ ls) =
    (if str_eq l.return_id id && str_eq l.product_id p then record l { restocked = true } else l)
    ∷ mark_rows id p ls

-- `MarkRestocked`.
unfoldable pub mark_restocked : String → String → ReturnsDb → ReturnsDb
unfolding mark_rows
mark_restocked id p db = record db { return_lines = mark_rows id p db.return_lines }

-- The UPDATE and the event of a decision.
unfoldable pub write_decision : Return → ReturnsDb → ReturnsDb
unfolding emit_return_event
write_decision r db = elim (lookup r.id db.returns) [
  | none ↦ emit_return_event r db
  | some old ↦ emit_return_event r (record db {
    returns =
        insert r.id
          (record old {
            status = r.status;
            decided_by = r.decided_by;
            decision_note = r.decision_note;
          })
          db.returns;
  })
]

-- What `uuid.Parse` accepts is a parameter.
module _ (parse_uuid : String → Bool) where
  -- `getReturn`.
  unfoldable pub get_return : String → String → ReturnsDb → Outcome Return
  unfolding rows_of read_lines
  get_return id owner_id db = do
    reject_if (not (parse_uuid id)) no_return
    r ← elim (lookup id db.returns) [ none ↦ err no_return | some r ↦ ok r ]
    reject_if (not (str_eq owner_id "") && not (str_eq r.owner_id owner_id)) no_return
    ok (record r { lines = read_lines r.refund_total.currency (rows_of id db.return_lines) })

  -- `DecideReturn` of the store: on an error nothing is written.
  unfoldable pub decide_return :
      String → String → Bool → String → ReturnsDb → Outcome (Return × ReturnsDb)
  decide_return id decided_by approve note db = do
    r ← get_return id "" db
    r' ← decide approve decided_by note r
    ok (r', if same_status r'.status r.status then db else write_decision r' db)
