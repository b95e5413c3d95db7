-- ===== src/Fulfillment/Carrier.antt =====
-- The callers of the shipment store: the sandbox carrier
-- (services/fulfillment/internal/carrier/advancer.go), the handlers of operators
-- (services/fulfillment/internal/grpcsvc/server.go), and the consumer of confirmed orders
-- (services/fulfillment/internal/consumer/consumer.go).
use Prim.Native.String.{◌++◌ as append_text}
use commerce_platform.Common.{
  ℕ, String, Bool, false, ◌&&◌, ◌||◌, Option, none, some, List, [], ◌∷◌, if◌then◌else◌, ltb, leb,
  ◌==◌, take, str_eq, Outcome, ok, err, new_error, unauthenticated,
}
use commerce_platform.Common.Int.{ℤ}
use commerce_platform.Order.{Address, contains, sort_texts}
use commerce_platform.Auth.{Principal, has_role, require_role, allowed}
use commerce_platform.Fulfillment.{
  ShipmentStatus, shipped, delivered, cancelled, is_pending, is_shipped, Item, Shipment, ShopItems,
  Db, get, transition, create_from_order, or_else,
}

pub record AdvanceTarget : Type 0 where
  pub id : String
  pub to : ShipmentStatus

abbrev pub before : Option ℕ → ℕ → Bool
before none t = false
before (some s) t = ltb s t

-- The WHERE of `DueForAdvance`, with the two times before which a shipment is due.
unfoldable pub is_due : ℕ → ℕ → Shipment → Bool
is_due pending_before shipped_before s =
    (is_pending s.status && ltb s.created_at pending_before)
    || (is_shipped s.status && before s.shipped_at shipped_before)

-- `ORDER BY created_at`.
unfoldable pub insert_by_creation : Shipment → List Shipment → List Shipment
insert_by_creation s [] = s ∷ []
insert_by_creation s (t ∷ ts) =
    if leb s.created_at t.created_at then s ∷ t ∷ ts else t ∷ insert_by_creation s ts

unfoldable pub due_rows : ℕ → ℕ → List Shipment → List Shipment
unfolding is_due insert_by_creation
due_rows p s [] = []
due_rows p s (x ∷ xs) =
    let rest = due_rows p s xs in if is_due p s x then insert_by_creation x rest else rest

-- The CASE of the query.
abbrev pub target_of : Shipment → AdvanceTarget
target_of s = record { id = s.id; to = if is_pending s.status then shipped else delivered }

unfoldable pub targets : List Shipment → List AdvanceTarget
targets [] = []
targets (s ∷ ss) = target_of s ∷ targets ss

-- `DueForAdvance`.
unfoldable pub due_for_advance : ℕ → ℕ → ℕ → Db → List AdvanceTarget
unfolding due_rows targets
due_for_advance pending_before shipped_before limit db =
    targets (
      take (if limit == 0 then 100 else limit)
        (due_rows pending_before shipped_before db.shipments))

module _ (parse_uuid : String → Bool) where
  -- A turn of the loop of `sweep`: an error is only logged.
  unfoldable pub advance : ℕ → AdvanceTarget → Db → Db
  advance now t db =
      let carrier = if is_shipped t.to then "SANDBOX" else "" in
      let tracking = if is_shipped t.to then append_text "TRK-" t.id else "" in
      (transition parse_uuid now t.id t.to carrier tracking "" db).0

  unfoldable pub advance_all : ℕ → List AdvanceTarget → Db → Db
  advance_all now [] db = db
  advance_all now (t ∷ ts) db = advance_all now ts (advance now t db)

  -- `sweep`.
  unfoldable pub sweep : ℕ → ℕ → ℕ → Db → Db
  sweep now pending_before shipped_before db =
      advance_all now (due_for_advance pending_before shipped_before 100 db) db

abbrev pub role_order_manager : String
role_order_manager = "order_manager"

module _ (parse_uuid : String → Bool) where
  -- `GetShipment`: a manager reads any shipment.
  unfoldable pub get_shipment : Option Principal → String → Db → Outcome Shipment
  unfolding has_role
  get_shipment none id db = err (new_error unauthenticated "NOT_AUTHENTICATED")
  get_shipment (some p) id db =
      get parse_uuid id (if has_role role_order_manager p then "" else p.subject) db

  -- `MarkShipped`, `MarkDelivered` and `CancelShipment` of the server.
  unfoldable pub serve_shipped :
      Option Principal → ℕ → String → String → String → Db → Db × Outcome Shipment
  unfolding require_role
  serve_shipped p now id carrier tracking db = allowed (require_role role_order_manager p) db (
      transition parse_uuid now id shipped (or_else carrier "SANDBOX")
        (or_else tracking (append_text "TRK-" id)) "" db)

  unfoldable pub serve_delivered : Option Principal → ℕ → String → Db → Db × Outcome Shipment
  unfolding require_role
  serve_delivered p now id db =
      allowed (require_role role_order_manager p) db
        (transition parse_uuid now id delivered "" "" "" db)

  unfoldable pub serve_cancelled :
      Option Principal → ℕ → String → String → Db → Db × Outcome Shipment
  unfolding require_role
  serve_cancelled p now id reason db =
      allowed (require_role role_order_manager p) db
        (transition parse_uuid now id cancelled "" "" (or_else reason "CANCELLED_BY_OPERATOR") db)

-- `orderv1.OrderLine`, as far as the consumer reads it.
pub record OrderLine : Type 0 where
  pub product_id : String
  pub title : String
  pub quantity : ℤ
  pub shop_id : String

-- The items of a shop, in the order of the lines.
unfoldable pub items_of : String → List OrderLine → List Item
items_of shop [] = []
items_of shop (l ∷ ls) =
    let rest = items_of shop ls in
    if str_eq l.shop_id shop
    then record { product_id = l.product_id; title = l.title; quantity = l.quantity } ∷ rest
    else rest

unfoldable pub shops_of : List String → List OrderLine → List String
shops_of seen [] = []
shops_of seen (l ∷ ls) =
    let again = shops_of seen ls in
    let first = shops_of (l.shop_id ∷ seen) ls in
    if contains l.shop_id seen then again else l.shop_id ∷ first

unfoldable pub groups_of : List String → List OrderLine → List ShopItems
unfolding items_of
groups_of [] ls = []
groups_of (shop ∷ shops) ls =
    record { shop_id = shop; items = items_of shop ls } ∷ groups_of shops ls

-- `groupsFrom`.
unfoldable pub groups_from : List OrderLine → List ShopItems
unfolding groups_of shops_of sort_texts
groups_from ls = groups_of (sort_texts (shops_of [] ls)) ls

-- What the consumer reads of an `OrderConfirmed`.
pub record OrderConfirmed : Type 0 where
  pub order_id : String
  pub owner_id : String
  pub ship_to : Address
  pub lines : List OrderLine

-- `Handler`, of a record of the topic: what cannot be decoded is skipped.
unfoldable pub on_order_confirmed :
    (List Shipment → String)
    → ℕ
    → String
    → Option OrderConfirmed
    → Db
    → Db × Outcome (List Shipment)
unfolding groups_from
on_order_confirmed draw now event none db = (db, ok [])
on_order_confirmed draw now event (some e) db =
    create_from_order draw now e.order_id e.owner_id e.ship_to (groups_from e.lines) event db
