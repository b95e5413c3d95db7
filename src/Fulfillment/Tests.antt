-- ===== src/Fulfillment/Tests.antt =====
-- A run of the shipment store: an order of two shops, whose event comes twice.
use commerce_platform.Common.{◌≡◌, refl, String, Bool, true, List, [], ◌∷◌, length}
use commerce_platform.Order.{Address}
use commerce_platform.Fulfillment.{
  Shipment, ShopItems, Db, pending, shipped, delivered, cancelled, create_from_order, create_groups,
  new_shipment, insert_shipment, created_event, emit_outbox, has_group, find_shipment, transition,
  scan_one, get, change, mark_shipped, mark_delivered, cancel, can_transition_to, write_transition,
  written, update_rows, event_at,
}
use commerce_platform.Fulfillment.Carrier.{
  sweep, advance, advance_all, due_for_advance, due_rows, is_due, insert_by_creation, targets,
}
use commerce_platform.Fulfillment.Lives.{announced, Told, OneEach}
use commerce_platform.Fulfillment.Histories.{
  Call, create_call, transition_call, sweep_call, run, serve, shipments_follow_events,
}

abbrev parse_uuid : String → Bool
parse_uuid s = true

abbrev draw : List Shipment → String
draw [] = "s1"
draw (s ∷ ss) = "s2"

abbrev to : Address
to = record {
  full_name = "";
  line1 = "";
  line2 = "";
  city = "";
  region = "";
  postal_code = "";
  country_code = "";
  phone = "";
}

abbrev shop : String → ShopItems
shop id = record { shop_id = id; items = [] }

abbrev calls : List Call
calls =
    create_call 1 "o" "u" to (shop "" ∷ shop "a" ∷ []) "e1"
    ∷ create_call 2 "o" "u" to (shop "" ∷ shop "a" ∷ []) "e2"
    ∷ sweep_call 5 3 0
    ∷ transition_call 6 "s2" cancelled "" "" "lost"
    ∷ sweep_call 9 3 9
    ∷ transition_call 10 "s2" delivered "" "" ""
    ∷ []

abbrev after : Db
after = run parse_uuid draw calls (record { shipments = []; processed_events = []; outbox = [] })

shipments_follow_events_example : OneEach after.shipments × Told "s1" after
shipments_follow_events_example = shipments_follow_events parse_uuid draw calls "s1"

run_example :
    (announced "s1" after.outbox ≡ pending ∷ shipped ∷ delivered ∷ [])
    × (announced "s2" after.outbox ≡ pending ∷ shipped ∷ cancelled ∷ [])
    × (length after.shipments ≡ 2)
unfolding run serve create_from_order create_groups new_shipment insert_shipment created_event
    emit_outbox has_group find_shipment transition scan_one get change mark_shipped mark_delivered
    cancel can_transition_to write_transition written update_rows event_at sweep advance advance_all
    due_for_advance due_rows is_due insert_by_creation targets announced
run_example = (refl, refl, refl)
