-- ===== src/Order/Store.antt =====
-- The order store (services/order/internal/store/store.go), with the SQL statements of each method
-- as updates of the tables of services/order/internal/store/migrations. Transactions run one after
-- the other. The JSON form of an address is read back as it was written.
use Prim.Native.Nat.{Ordering}
use Prim.Native.String.{compare as compare_text}
use commerce_platform.Common.{
  ℕ, suc, String, Bool, true, false, not, ◌&&◌, ◌||◌, Option, none, some, List, [], ◌∷◌, ◌++◌,
  if◌then◌else◌, ltb, length, str_eq, Outcome, ok, err, Error, new_error, ◌>>=◌, ◌>>◌, reject_if,
  internal, not_found,
}
use commerce_platform.Common.Table.{Table, lookup, insert, has_row}
use commerce_platform.Common.Int.{ℤ}
use commerce_platform.Order.{
  Status, Money, Line, Address, Order, pending_payment, confirmed, cancelled, fulfilled,
  is_confirmed, contains, units_nanos, shop_groups, fulfill,
}

pub record MoneyMessage : Type 0 where
  pub currency_code : String
  pub units : ℤ
  pub nanos : ℤ

pub record LineMessage : Type 0 where
  pub product_id : String
  pub title : String
  pub quantity : ℤ
  pub shop_id : String
  pub unit_price : MoneyMessage
  pub line_total : MoneyMessage

-- The payloads of the outbox rows, without the time; the first text is the order's id.
pub data Event : Type 0 where
  order_created : String → String → String → MoneyMessage → Event
  order_confirmed : String → String → String → Address → List LineMessage → Event
  order_cancelled : String → String → String → Event
  order_fulfilled : String → String → Event

-- A row of `orders` is an order without its lines.
pub record Db : Type 0 where
  pub orders : Table Order
  pub order_lines : List (String × Line)
  pub processed_events : List String
  pub deliveries : List (String × String)
  pub outbox : List Event

abbrev pub db_error : Error
db_error = new_error internal "DB_ERROR"

abbrev pub no_order : Error
no_order = new_error not_found "ORDER_NOT_FOUND"

unfoldable pub money_message : Money → MoneyMessage
unfolding units_nanos
money_message m =
    let (u, n) = units_nanos m in record { currency_code = m.currency; units = u; nanos = n }

unfoldable pub lines_proto : List Line → List LineMessage
unfolding money_message
lines_proto [] = []
lines_proto (l ∷ ls) =
    record {
      product_id = l.product_id;
      title = l.title;
      quantity = l.quantity;
      shop_id = l.shop_id;
      unit_price = money_message l.unit_price;
      line_total = money_message l.line_total;
    }
    ∷ lines_proto ls

unfoldable pub outbox_created : Order → Db → Db
unfolding money_message
outbox_created o db = record db {
  outbox = db.outbox ++ order_created o.id o.owner_id o.cart_id (money_message o.total) ∷ [];
}

unfoldable pub transition_event : Status → Order → List Event
unfolding lines_proto
transition_event confirmed o =
    order_confirmed o.id o.owner_id o.payment_id o.ship_to (lines_proto o.lines) ∷ []
transition_event cancelled o = order_cancelled o.id o.owner_id o.cancel_reason ∷ []
transition_event fulfilled o = order_fulfilled o.id o.owner_id ∷ []
transition_event pending_payment o = []

unfoldable pub outbox_transition : Order → Db → Db
unfolding transition_event
outbox_transition o db = record db { outbox = db.outbox ++ transition_event o.status o }

unfoldable pub has_line : String → String → List (String × Line) → Bool
has_line id p [] = false
has_line id p ((i, l) ∷ ls) = (str_eq i id && str_eq l.product_id p) || has_line id p ls

-- The loop of INSERTs into `order_lines`, with its primary key.
unfoldable pub insert_lines : String → List Line → Db → Outcome Db
unfolding has_line
insert_lines id [] db = ok db
insert_lines id (l ∷ ls) db =
    let rest = insert_lines id ls (record db { order_lines = db.order_lines ++ (id, l) ∷ [] }) in
    reject_if (has_line id l.product_id db.order_lines) db_error >> rest

-- What a row keeps of an order: the lines are rows of their own, in the currency of the total.
unfoldable pub order_row : Order → Order
order_row o =
    let cur = o.total.currency in
    record o {
      lines = [];
      subtotal = record { currency = cur; cents = o.subtotal.cents };
      discount = record { currency = cur; cents = o.discount.cents };
      tax = record { currency = cur; cents = o.tax.cents };
      cancel_reason = "";
    }

unfoldable pub insert_order_tx : Order → Db → Outcome Db
unfolding order_row insert_lines outbox_created
insert_order_tx o db = do
  reject_if (has_row o.id db.orders) db_error
  db' ← insert_lines o.id o.lines (record db { orders = insert o.id (order_row o) db.orders })
  ok (outbox_created o db')

-- `Insert`.
unfoldable pub insert_order : Order → Db → Db × Outcome (Unit {0})
insert_order o db = elim (insert_order_tx o db) [ ok db' ↦ (db', ok tt) | err e ↦ (db, err e) ]

abbrev text_ltb : String → String → Bool
text_ltb a b = elim (compare_text a b) [ Ordering.lt ↦ true | _ ↦ false ]

-- `ORDER BY product_id`.
unfoldable pub insert_line : Line → List Line → List Line
insert_line l [] = l ∷ []
insert_line l (m ∷ ms) =
    if text_ltb m.product_id l.product_id then m ∷ insert_line l ms else l ∷ m ∷ ms

-- `attachLines`, for one order of that currency.
unfoldable pub attached : String → String → List (String × Line) → List Line
unfolding insert_line
attached cur id [] = []
attached cur id ((i, l) ∷ ls) =
    let l' : Line = record l {
      unit_price = record { currency = cur; cents = l.unit_price.cents };
      line_total = record { currency = cur; cents = l.line_total.cents };
    } in
    let rest = attached cur id ls in if str_eq i id then insert_line l' rest else rest

-- The INSERT into `processed_events`: `none` for an event that was processed before.
unfoldable pub begin_deduped : String → Db → Option Db
begin_deduped event db =
    if str_eq event ""
    then some db
    else if contains event db.processed_events
    then none
    else some (record db { processed_events = event ∷ db.processed_events })

-- The UPDATE of `orders`.
unfoldable pub update_row : Order → Db → Db
update_row o db = elim (lookup o.id db.orders) [
  | none ↦ db
  | some r ↦ record db {
    orders =
        insert o.id
          (record r {
            status = o.status;
            cancel_reason = o.cancel_reason;
            payment_id = o.payment_id;
            reservation_id = o.reservation_id;
          })
          db.orders;
  }
]

unfoldable pub persist_transition : Order → Db → Db
unfolding update_row outbox_transition
persist_transition o db = outbox_transition o (update_row o db)

abbrev pub same_status : Status → Status → Bool
same_status pending_payment pending_payment = true
same_status confirmed confirmed = true
same_status cancelled cancelled = true
same_status fulfilled fulfilled = true
same_status _ _ = false

-- `INSERT … ON CONFLICT DO NOTHING` into `order_shipment_deliveries`.
abbrev pub has_delivery : String → String → List (String × String) → Bool
has_delivery id shop [] = false
has_delivery id shop ((i, s) ∷ ds) = (str_eq i id && str_eq s shop) || has_delivery id shop ds

unfoldable pub insert_delivery : String → String → Db → Db
insert_delivery id shop db =
    if has_delivery id shop db.deliveries
    then db
    else record db { deliveries = (id, shop) ∷ db.deliveries }

-- `count(DISTINCT shop_id) … shop_id = ANY(required)`: one row to an order and a shop.
unfoldable pub count_delivered : String → List String → List (String × String) → ℕ
count_delivered id required [] = 0
count_delivered id required ((i, s) ∷ ds) =
    let rest = count_delivered id required ds in
    if str_eq i id && contains s required then suc rest else rest

-- The end of a transaction with `beginDeduped`: `none` for a duplicate.
unfoldable pub deduped : String → (Db → Outcome (Order × Db)) → Db → Db × Outcome (Option Order)
deduped event body db = elim (begin_deduped event db) [
  | none ↦ (db, ok none)
  | some db' ↦ elim (body db') [ err e ↦ (db, err e) | ok (o, db'') ↦ (db'', ok (some o)) ]
]

-- The end of `ApplyShipmentDelivered`, once the delivery is recorded.
unfoldable pub fulfill_when_delivered : String → Order → Db → Outcome (Order × Db)
fulfill_when_delivered id o db =
    let required = shop_groups o in
    let last = (do o' ← fulfill o; ok (o', persist_transition o' db)) in
    if not (is_confirmed o.status)
    then ok (o, db)
    else if ltb (count_delivered id required db.deliveries) (length required)
    then ok (o, db)
    else last

-- What `uuid.Parse` accepts is a parameter.
module _ (parse_uuid : String → Bool) where
  -- `get`, and `Get`.
  unfoldable pub get : String → String → Db → Outcome Order
  unfolding attached
  get id owner_id db = do
    reject_if (not (parse_uuid id)) no_order
    o ← elim (lookup id db.orders) [ none ↦ err no_order | some o ↦ ok o ]
    reject_if (not (str_eq owner_id "") && not (str_eq o.owner_id owner_id)) no_order
    ok (record o { lines = attached o.total.currency id db.order_lines })

  -- `Apply`, with the change that the caller makes to the order.
  unfoldable pub apply_tx : String → (Order → Outcome Order) → Db → Outcome (Order × Db)
  apply_tx id change db = do
    o ← get id "" db
    o' ← change o
    ok (o', if same_status o'.status o.status then db else persist_transition o' db)

  unfoldable pub apply :
      String → String → (Order → Outcome Order) → Db → Db × Outcome (Option Order)
  apply id event change = deduped event (apply_tx id change)

  -- The body of its transaction.
  unfoldable pub delivered_tx : String → String → Db → Outcome (Order × Db)
  delivered_tx id shop db = do
    o ← get id "" db
    fulfill_when_delivered id o (insert_delivery id shop db)

  -- `ApplyShipmentDelivered`.
  unfoldable pub apply_shipment_delivered :
      String → String → String → Db → Db × Outcome (Option Order)
  apply_shipment_delivered id shop event = deduped event (delivered_tx id shop)
