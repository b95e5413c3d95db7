-- ===== src/Fulfillment.antt =====
-- Shipments: services/fulfillment/internal/domain/shipment.go, and the table and methods of
-- services/fulfillment/internal/store/store.go.
pub mod Carrier
pub mod Lives
pub mod Rows
pub mod Histories
mod Tests
use commerce_platform.Common.{
  ℕ, ◌+◌, String, Bool, true, false, not, ◌&&◌, ◌||◌, Option, none, some, List, [], ◌∷◌, ◌++◌,
  if◌then◌else◌, ltb, leb, ◌==◌, take, str_eq, Outcome, ok, err, Error, new_error, ◌>>=◌, ◌>>◌,
  reject_if, internal, not_found, failed_precondition, invalid_argument,
}
use commerce_platform.Common.Int.{ℤ}
use commerce_platform.Order.{Address, contains}

pub data ShipmentStatus : Type 0 where
  pending shipped delivered cancelled : ShipmentStatus

abbrev pub is_pending : ShipmentStatus → Bool
is_pending pending = true
is_pending _ = false

abbrev pub is_shipped : ShipmentStatus → Bool
is_shipped shipped = true
is_shipped _ = false

abbrev pub is_delivered : ShipmentStatus → Bool
is_delivered delivered = true
is_delivered _ = false

abbrev pub is_cancelled : ShipmentStatus → Bool
is_cancelled cancelled = true
is_cancelled _ = false

abbrev pub same_status : ShipmentStatus → ShipmentStatus → Bool
same_status pending s = is_pending s
same_status shipped s = is_shipped s
same_status delivered s = is_delivered s
same_status cancelled s = is_cancelled s

pub record Item : Type 0 where
  pub product_id : String
  pub title : String
  pub quantity : ℤ

-- The times are numbers of the clock.
pub record Shipment : Type 0 where
  pub id : String
  pub order_id : String
  pub owner_id : String
  pub status : ShipmentStatus
  pub carrier : String
  pub tracking_number : String
  pub ship_to : Address
  pub items : List Item
  pub created_at : ℕ
  pub shipped_at : Option ℕ
  pub delivered_at : Option ℕ
  pub cancel_reason : String
  pub shop_id : String

unfoldable pub can_transition_to : ShipmentStatus → ShipmentStatus → Bool
can_transition_to pending to = is_shipped to || is_cancelled to
can_transition_to shipped to = is_delivered to || is_cancelled to
can_transition_to _ to = false

abbrev pub bad_transition : Error
bad_transition = new_error failed_precondition "BAD_TRANSITION"

abbrev pub or_else : String → String → String
or_else new old = if str_eq new "" then old else new

unfoldable pub mark_shipped : String → String → Shipment → Outcome Shipment
unfolding can_transition_to
mark_shipped carrier tracking s = if is_shipped s.status then ok s else do
  reject_if (not (can_transition_to s.status shipped)) bad_transition
  ok (record s {
    status = shipped;
    carrier = or_else carrier s.carrier;
    tracking_number = or_else tracking s.tracking_number;
  })

unfoldable pub mark_delivered : Shipment → Outcome Shipment
unfolding can_transition_to
mark_delivered s = if is_delivered s.status then ok s else do
  reject_if (not (can_transition_to s.status delivered)) bad_transition
  ok (record s { status = delivered })

unfoldable pub cancel : String → Shipment → Outcome Shipment
unfolding can_transition_to
cancel reason s = if is_cancelled s.status then ok s else do
  reject_if (not (can_transition_to s.status cancelled)) bad_transition
  ok (record s { status = cancelled; cancel_reason = reason })

-- `ShopItems`.
pub record ShopItems : Type 0 where
  pub shop_id : String
  pub items : List Item

-- The payloads of the outbox rows: the shipment's id, its order, its owner and its shop.
pub data ShipmentEvent : Type 0 where
  shipment_created : String → String → String → String → ShipmentEvent
  shipment_shipped : String → String → String → String → String → String → ShipmentEvent
  shipment_delivered : String → String → String → String → ShipmentEvent
  shipment_cancelled : String → String → String → String → String → ShipmentEvent

pub record Db : Type 0 where
  pub shipments : List Shipment
  pub processed_events : List String
  pub outbox : List ShipmentEvent

abbrev pub db_error : Error
db_error = new_error internal "DB_ERROR"

abbrev pub no_shipment : Error
no_shipment = new_error not_found "SHIPMENT_NOT_FOUND"

abbrev pub bad_target : Error
bad_target = new_error invalid_argument "BAD_TARGET"

-- The key (order_id, shop_id), and the primary key.
unfoldable pub has_group : String → String → List Shipment → Bool
has_group order_id shop_id [] = false
has_group order_id shop_id (s ∷ ss) =
    (str_eq s.order_id order_id && str_eq s.shop_id shop_id) || has_group order_id shop_id ss

unfoldable pub find_shipment : String → List Shipment → Option Shipment
find_shipment id [] = none
find_shipment id (s ∷ ss) = if str_eq s.id id then some s else find_shipment id ss

abbrev pub is_there : Option Shipment → Bool
is_there none = false
is_there (some s) = true

unfoldable pub emit_outbox : ShipmentEvent → Db → Db
emit_outbox e db = record db { outbox = db.outbox ++ e ∷ [] }

-- The row that the INSERT makes, with the defaults of its columns.
unfoldable pub new_shipment : ℕ → String → String → String → Address → ShopItems → Shipment
new_shipment now id order_id owner_id ship_to g = record {
  id = id;
  order_id = order_id;
  owner_id = owner_id;
  status = pending;
  carrier = "";
  tracking_number = "";
  ship_to = ship_to;
  items = g.items;
  created_at = now;
  shipped_at = none;
  delivered_at = none;
  cancel_reason = "";
  shop_id = g.shop_id;
}

unfoldable pub created_event : Shipment → ShipmentEvent
created_event s = shipment_created s.id s.order_id s.owner_id s.shop_id

-- A group that has no shipment yet; the id is drawn.
unfoldable pub insert_shipment : Shipment → Db → Db
unfolding created_event emit_outbox
insert_shipment s db =
    emit_outbox (created_event s) (record db { shipments = db.shipments ++ s ∷ [] })

-- The loop of `CreateFromOrder`; `draw` gives the id of a new row.
unfoldable pub create_groups :
    (List Shipment → String)
    → ℕ
    → String
    → String
    → Address
    → List ShopItems
    → Db
    → Outcome (List Shipment × Db)
create_groups draw now order_id owner_id ship_to [] db = ok ([], db)
create_groups draw now order_id owner_id ship_to (g ∷ gs) db =
    let id = draw db.shipments in
    let s = new_shipment now id order_id owner_id ship_to g in
    let skipped = create_groups draw now order_id owner_id ship_to gs db in
    let rest = create_groups draw now order_id owner_id ship_to gs (insert_shipment s db) in
    if has_group order_id g.shop_id db.shipments
    then skipped
    else if is_there (find_shipment id db.shipments)
    then err db_error
    else rest >>= λ (ss, db'). ok (s ∷ ss, db')

abbrev pub committed : Db → Outcome (List Shipment × Db) → Db × Outcome (List Shipment)
committed db (ok (ss, db')) = (db', ok ss)
committed db (err e) = (db, err e)

-- `CreateFromOrder`: an event that was processed creates nothing.
unfoldable pub create_from_order :
    (List Shipment → String)
    → ℕ
    → String
    → String
    → Address
    → List ShopItems
    → String
    → Db
    → Db × Outcome (List Shipment)
create_from_order draw now order_id owner_id ship_to groups event db =
    let seen = record db { processed_events = event ∷ db.processed_events } in
    let begun = if str_eq event "" then db else seen in
    if not (str_eq event "") && contains event db.processed_events
    then (db, ok [])
    else committed db (create_groups draw now order_id owner_id ship_to groups begun)

-- `scanOne` by id: a text that is no UUID is an error of the database.
unfoldable pub scan_one : (String → Bool) → String → Db → Outcome Shipment
scan_one parse_uuid id db = do
  reject_if (not (parse_uuid id)) db_error
  elim (find_shipment id db.shipments) [ none ↦ err no_shipment | some s ↦ ok s ]

-- `Get`.
unfoldable pub get : (String → Bool) → String → String → Db → Outcome Shipment
unfolding scan_one
get parse_uuid id owner_id db = do
  s ← scan_one parse_uuid id db
  reject_if (not (str_eq owner_id "") && not (str_eq s.owner_id owner_id)) no_shipment
  ok s

-- The switch of `Transition`.
unfoldable pub change : ShipmentStatus → String → String → String → Shipment → Outcome Shipment
change shipped carrier tracking reason s = mark_shipped carrier tracking s
change delivered carrier tracking reason s = mark_delivered s
change cancelled carrier tracking reason s = cancel reason s
change pending carrier tracking reason s = err bad_target

-- `eventFor`, by the status of the shipment.
unfoldable pub event_at : ShipmentStatus → Shipment → Option ShipmentEvent
event_at shipped s =
    some (shipment_shipped s.id s.order_id s.owner_id s.carrier s.tracking_number s.shop_id)
event_at delivered s = some (shipment_delivered s.id s.order_id s.owner_id s.shop_id)
event_at cancelled s =
    some (shipment_cancelled s.id s.order_id s.owner_id s.cancel_reason s.shop_id)
event_at pending s = none

abbrev pub stamp : Bool → ℕ → Option ℕ → Option ℕ
stamp true now none = some now
stamp true now (some t) = some t
stamp false now t = t

-- The UPDATE of `Transition`, on the row as it is stored.
unfoldable pub written : ℕ → Shipment → Shipment → Shipment
written now s row = record row {
  status = s.status;
  carrier = s.carrier;
  tracking_number = s.tracking_number;
  cancel_reason = s.cancel_reason;
  shipped_at = stamp (is_shipped s.status) now row.shipped_at;
  delivered_at = stamp (is_delivered s.status) now row.delivered_at;
}

unfoldable pub update_rows : ℕ → Shipment → List Shipment → List Shipment
update_rows now s [] = []
update_rows now s (row ∷ rows) =
    (if str_eq row.id s.id then written now s row else row) ∷ update_rows now s rows

abbrev pub emitted : Option ShipmentEvent → Db → Db
emitted none db = db
emitted (some e) db = record db { outbox = db.outbox ++ e ∷ [] }

unfoldable pub write_transition : ℕ → Shipment → Db → Db
write_transition now s db =
    emitted (event_at s.status s) (record db { shipments = update_rows now s db.shipments })

abbrev pub after_change : (String → Bool) → ℕ → Db → Outcome Shipment → Db × Outcome Shipment
after_change parse_uuid now db (err e) = (db, err e)
after_change parse_uuid now db (ok s) =
    let db' = write_transition now s db in (db', get parse_uuid s.id "" db')

abbrev pub after_scan :
    (Shipment → Db × Outcome Shipment) → Db → Outcome Shipment → Db × Outcome Shipment
after_scan next db (err e) = (db, err e)
after_scan next db (ok s) = next s

-- `Transition`.
unfoldable pub transition :
    (String → Bool)
    → ℕ
    → String
    → ShipmentStatus
    → String
    → String
    → String
    → Db
    → Db × Outcome Shipment
transition parse_uuid now id to carrier tracking reason db =
    after_scan
      (λ s.
        if same_status s.status to
        then (db, ok s)
        else after_change parse_uuid now db (change to carrier tracking reason s))
      db (scan_one parse_uuid id db)
