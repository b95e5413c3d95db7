-- ===== src/Order/Tests.antt =====
-- Runs of the order store on one order of two shops.
use commerce_platform.Common.{some, none, ◌≡◌, refl, String, Bool, true, List, [], ◌∷◌}
use commerce_platform.Common.Table.{lookup, insert}
use commerce_platform.Common.Int.{ℤ, pos, ◌*ℤ◌, ◌/ℤ◌, ◌%ℤ◌, int32}
use commerce_platform.Order.{
  Money, Line, Order, pending_payment, confirmed, fulfilled, units_nanos, groups_from, sort_texts,
  insert_text, shop_groups, can_transition_to, confirm, cancel, fulfill,
}
use commerce_platform.Order.Store.{
  get, apply, apply_tx, apply_shipment_delivered, delivered_tx, fulfill_when_delivered, deduped,
  begin_deduped, insert_order, insert_order_tx, insert_lines, outbox_created, outbox_transition,
  persist_transition, update_row, transition_event, order_row, insert_delivery, count_delivered,
  attached, insert_line, has_line, money_message, lines_proto,
}
use commerce_platform.Common.{arith, ok}
use commerce_platform.Order.Store.{Db}
use commerce_platform.Order.Keys.{
  Keys, completed, claim, claimed, busy, answered, claim_key, release_key, order_for_key,
  complete_key, insert_with_key, insert_with_key_tx,
}
use commerce_platform.Order.Redelivery.{redelivery}
use commerce_platform.Order.Lines.{in_order}
use commerce_platform.Order.Kept.{Same}
use commerce_platform.Order.Keys.Histories.{
  KeyCall, claim_call, release_call, reap_call, store_call, run_keys,
}
use commerce_platform.Order.Keys.Claims.{held_by, one_holder, retry_gets_order}
use commerce_platform.Order.Trails.{trail, Agrees, expire}
use commerce_platform.Order.Paths.{
  Call, insert_call, confirm_call, cancel_call, expire_call, delivered_call, run, serve, empty,
  events_follow_status,
}

abbrev pub euros : ℤ → Money
euros c = record { currency = "EUR"; cents = c }

abbrev line : String → String → Line
line p shop = record {
  product_id = p;
  title = "";
  quantity = pos 1;
  unit_price = euros (pos 250);
  line_total = euros (pos 250);
  shop_id = shop;
}

abbrev pub order : Order
order = record {
  id = "o";
  owner_id = "u";
  status = pending_payment;
  lines = line "b" "s1" ∷ line "a" "" ∷ [];
  subtotal = euros (pos 500);
  discount = euros (pos 0);
  tax = euros (pos 0);
  total = euros (pos 500);
  ship_to = record {
    full_name = "";
    line1 = "";
    line2 = "";
    city = "";
    region = "";
    postal_code = "";
    country_code = "";
    phone = "";
  };
  cart_id = "c";
  coupon_code = "";
  payment_id = "p";
  reservation_id = "r";
  pricing_signature = "";
  cancel_reason = "";
}

abbrev pub parse_uuid : String → Bool
parse_uuid s = true

-- The first shop delivers twice, under two event ids.
abbrev calls : List Call
calls =
    insert_call order
    ∷ confirm_call "o" "e1"
    ∷ expire_call "o" "e2"
    ∷ delivered_call "o" "s1" "e3"
    ∷ delivered_call "o" "s1" "e4"
    ∷ delivered_call "o" "" "e5"
    ∷ cancel_call "o" "e6" "late"
    ∷ []

events_follow_status_example : Agrees "o" (run parse_uuid calls empty)
events_follow_status_example = events_follow_status parse_uuid calls "o"

run_example :
    trail "o" (run parse_uuid calls empty).outbox ≡ pending_payment ∷ confirmed ∷ fulfilled ∷ []
unfolding run serve empty expire trail get apply apply_tx apply_shipment_delivered delivered_tx
    fulfill_when_delivered deduped begin_deduped insert_order insert_order_tx insert_lines
    outbox_created outbox_transition persist_transition update_row transition_event order_row
    insert_delivery count_delivered attached insert_line has_line money_message lines_proto
    units_nanos groups_from sort_texts insert_text shop_groups can_transition_to confirm cancel
    fulfill lookup insert int32 ◌*ℤ◌ ◌/ℤ◌ ◌%ℤ◌
run_example = refl

-- A claim by `u` at 100, completed by the order.
abbrev claimed_keys : Keys
claimed_keys = ("k", held_by "u" "f" 100) ∷ []

abbrev completed_keys : Keys
completed_keys = ("k", record (held_by "u" "f" 100) { status = completed "o" }) ∷ []

claims : claim_key 100 "k" "u" "f" [] ≡ (claimed_keys, claim claimed)
unfolding claim_key lookup insert
claims = refl

-- Another key is claimed and released, and the reaper runs.
abbrev meanwhile : List KeyCall
meanwhile = claim_call 200 "l" "v" "g" ∷ reap_call 300 10 ∷ release_call "l" ∷ []

one_holder_example :
    let after = (run_keys parse_uuid meanwhile (empty, claimed_keys)).1 in
    claim_key 700 "k" "u" "f" after ≡ (after, claim busy)
one_holder_example =
    one_holder parse_uuid 100 700 "k" "u" "f" "u" "f" empty [] claimed_keys meanwhile claims
      (omega arith, (omega arith, (refl, tt))) (omega arith)

abbrev pub inserted : Db
inserted = (insert_order order empty).0

completes : insert_with_key order "k" empty claimed_keys ≡ ((inserted, completed_keys), ok tt)
unfolding insert_with_key insert_with_key_tx complete_key insert_order insert_order_tx insert_lines
    order_row outbox_created has_line money_message units_nanos empty lookup insert int32 ◌*ℤ◌ ◌/ℤ◌
    ◌%ℤ◌
completes = refl

-- The key is claimed and released again, the order is confirmed, and the reaper runs.
abbrev afterwards : List KeyCall
afterwards =
    claim_call 5000 "k" "u" "f"
    ∷ release_call "k"
    ∷ store_call (confirm_call "o" "e1")
    ∷ reap_call 5000 86400
    ∷ []

no_lines : attached "EUR" "o" empty.order_lines ≡ []
unfolding attached empty
no_lines = refl

retry_gets_order_example :
    let (orders, after) = run_keys parse_uuid afterwards (inserted, completed_keys) in
    (claim_key 5000 "k" "u" "f" after ≡ (after, claim (answered "o")))
    × (release_key "k" after ≡ after)
    × (r : Order) × (order_for_key parse_uuid "k" orders after ≡ ok r)
    × Same order r
    × (r.lines ≡ in_order "EUR" order.lines)
retry_gets_order_example =
    retry_gets_order parse_uuid 100 5000 "k" "u" "f" "u" "f" order empty inserted [] claimed_keys
      completed_keys afterwards refl refl no_lines claims completes
      (tt, (tt, (tt, (omega arith, tt))))

-- The order as it is read, once it is confirmed.
abbrev pub read_order : Order
read_order = record order { status = confirmed; lines = line "a" "" ∷ line "b" "s1" ∷ [] }

pub confirms : (apply parse_uuid "o" "e1" confirm inserted).1 ≡ ok (some read_order)
unfolding apply apply_tx deduped begin_deduped get attached insert_line persist_transition
    update_row outbox_transition transition_event lines_proto confirm can_transition_to insert_order
    insert_order_tx insert_lines order_row outbox_created has_line money_message units_nanos empty
    lookup insert int32 ◌*ℤ◌ ◌/ℤ◌ ◌%ℤ◌
confirms = refl

redelivery_example :
    let later =
      run parse_uuid (expire_call "o" "e2" ∷ []) (apply parse_uuid "o" "e1" confirm inserted).0 in
    (apply parse_uuid "o" "e1" confirm later ≡ (later, ok none))
    × (apply_shipment_delivered parse_uuid "o" "s1" "e1" later ≡ (later, ok none))
redelivery_example =
    redelivery parse_uuid "e1" "o" "o" "s1" confirm confirm read_order inserted
      (expire_call "o" "e2" ∷ []) refl confirms
