-- ===== src/Order/Saga/Events.antt =====
-- The handlers of the events that move an order on (services/order/internal/saga/saga.go), and
-- `CompensateCancelled`.
pub mod Delivery
use commerce_platform.Common.{
  String, Bool, true, false, not, ◌&&◌, Option, none, some, List, [], ◌∷◌, if◌then◌else◌, str_eq,
  Outcome, ok, err, Error, Kind, new_error, unavailable, not_found,
}
use commerce_platform.Common.Table.{Table}
use Prim.Native.String.{◌++◌ as append_text}
use commerce_platform.Order.{
  Order, Status, confirmed, cancelled, is_pending, is_confirmed, is_cancelled, confirm, cancel,
}
use commerce_platform.Order.Store.{Db, get, apply, apply_shipment_delivered, no_order}
use commerce_platform.Order.Trails.{expire}
use commerce_platform.Order.Saga.{
  Services, World, committed, called, compensate_release, compensate_void, mark, set_released,
}

-- `SELECT id FROM orders WHERE reservation_id = $1`.
unfoldable pub find_reservation : String → Table Order → Option String
find_reservation rid [] = none
find_reservation rid ((id, o) ∷ os) =
    if str_eq o.reservation_id rid then some id else find_reservation rid os

abbrev pub is_not_found : Error → Bool
is_not_found e = elim e.kind [ Kind.not_found ↦ true | _ ↦ false ]

abbrev pub commit_failed : Error
commit_failed = new_error unavailable "COMMIT_FAILED"

module _ (parse_uuid : String → Bool) (services : Services) where
  -- `Commit` of a CONFIRMED order with a reservation.
  unfoldable pub after_commit : String → World → Outcome (Unit {0}) → World × Outcome (Unit {0})
  after_commit rid w (err e) = (called (committed rid false) w, err commit_failed)
  after_commit rid w (ok _) = (called (committed rid true) w, ok tt)

  unfoldable pub commit_order : Order → World → World × Outcome (Unit {0})
  unfolding after_commit
  commit_order o w =
      if is_confirmed o.status && not (str_eq o.reservation_id "")
      then after_commit o.reservation_id w (services.commit w.calls o.reservation_id)
      else (w, ok tt)

  -- What a handler does with the result of `Apply`: nothing for a duplicate.
  unfoldable pub applied :
      Db × Outcome (Option Order)
      → (Order → World → World × Outcome (Unit {0}))
      → World
      → World × Outcome (Unit {0})
  applied (db, err e) next w = (record w { db = db }, err e)
  applied (db, ok none) next w = (record w { db = db }, ok tt)
  applied (db, ok (some o)) next w = next o (record w { db = db })

  unfoldable pub on_payment_authorized : String → String → World → World × Outcome (Unit {0})
  on_payment_authorized event order_id w =
      applied (apply parse_uuid order_id event confirm w.db) commit_order w

  unfoldable pub on_payment_failed : String → String → String → World → World × Outcome (Unit {0})
  on_payment_failed event order_id reason w =
      applied (apply parse_uuid order_id event (cancel (append_text "PAYMENT_FAILED:" reason)) w.db)
        (λ o w'. (compensate_release parse_uuid services o.id o.reservation_id w', ok tt)) w

  unfoldable pub on_shipment_delivered :
      String → String → String → World → World × Outcome (Unit {0})
  on_shipment_delivered event order_id shop_id w =
      applied (apply_shipment_delivered parse_uuid order_id shop_id event w.db)
        (λ o w'. (w', ok tt)) w

  -- The order that a reservation belongs to: by its column, else by the order's id.
  unfoldable pub order_for_reservation : String → Db → Outcome Order
  order_for_reservation ref db =
      let by_column = elim (find_reservation ref db.orders) as (λ x. Outcome Order) [
        | none ↦ err no_order
        | some id ↦ get parse_uuid id "" db
      ] in
      elim by_column [
        | ok o ↦ ok o
        | err e ↦ if is_not_found e then get parse_uuid ref "" db else err e
      ]

  -- A cancelled order's expired reservation is marked as released, and its payment is voided.
  unfoldable pub void_expired : Order → World → World × Outcome (Unit {0})
  void_expired o w =
      let marked = (mark parse_uuid set_released o.id w).0 in
      if is_cancelled o.status
      then (compensate_void parse_uuid services o.id o.payment_id marked, ok tt)
      else (w, ok tt)

  unfoldable pub on_reservation_expired : String → String → World → World × Outcome (Unit {0})
  on_reservation_expired event ref w = elim (order_for_reservation ref w.db) [
    | err e ↦ if is_not_found e then (w, ok tt) else (w, err e)
    | ok o ↦ applied (apply parse_uuid o.id event expire w.db) void_expired w
  ]

  -- `CompensateCancelled`, of an order that is there.
  unfoldable pub compensate_cancelled : Order → World → World
  compensate_cancelled o w =
      let released = compensate_release parse_uuid services o.id o.reservation_id w in
      if is_cancelled o.status
      then compensate_void parse_uuid services o.id o.payment_id released
      else w
