-- ===== src/Order/Saga/Tests.antt =====
-- Runs of the saga: a checkout, a failed commit, a sweep and the approval of a return.
use commerce_platform.Common.{
  All, some, ◌≡◌, refl, ◌≤◌, length, String, Bool, true, false, not, [], ◌∷◌, arith, str_eq, ok,
  err, Error, new_error, unavailable,
}
use commerce_platform.Common.Table.{lookup, insert}
use commerce_platform.Common.Int.{ℤ, pos, ◌*ℤ◌, ◌/ℤ◌, ◌%ℤ◌, int32}
use commerce_platform.Order.{Order, cancelled, units_nanos}
use commerce_platform.Order.Store.{
  MoneyMessage, money_message, get, attached, insert_line, insert_order, insert_order_tx,
  insert_lines, order_row, outbox_created, has_line,
}
use commerce_platform.Order.Paths.{run, empty}
use commerce_platform.Order.Tests.{order, read_order, inserted, confirms, euros, parse_uuid}
use commerce_platform.Order.Returns.{
  Return, requested, approved, ReturnLineRow, ReturnsDb, decide, decide_return, get_return, rows_of,
  insert_row, read_lines, write_decision, emit_return_event, return_event, unrestocked_lines,
  pending_rows, return_approved,
}
use commerce_platform.Order.Returns.Requests.{ResolvedLine, return_of}
use commerce_platform.Order.Returns.Refunds.{refunds_of, IsRefund, whole_return_refunds_total}
use commerce_platform.Order.Saga.{Services, World, Quote, CartItem, marks_of}
use commerce_platform.Order.Saga.Checkout.{CreateInput, create_order}
use commerce_platform.Order.Saga.Checkout.Rows.{Accounts, open_reservations, open_payments}
use commerce_platform.Order.Saga.Checkout.Accounts.{create_order_settles}
use commerce_platform.Order.Saga.Events.{on_payment_authorized, commit_failed}
use commerce_platform.Order.Saga.Events.Delivery.{commit_never_retried}
use commerce_platform.Order.Saga.Sweeper.{
  sweep, pending_rows as pending_orders, pending_compensations, clamp_limit, is_pending_row,
  insert_by_update,
}
use commerce_platform.Order.Saga.Sweeper.Settles.{sweep_settles}
use commerce_platform.Order.Saga.Refunding.{
  decide_and_refund, restock_stage, restock_call, restock_failed,
}
use commerce_platform.Order.Saga.Refunding.Restocks.{restock_calls}
use commerce_platform.Order.Saga.Refunding.Decided.{refund_calls}
use commerce_platform.Order.Saga.Refunding.Approvals.{approval_settles, restock_asked_again}

abbrev message : ℤ → MoneyMessage
message u = record { currency_code = "EUR"; units = u; nanos = pos 0 }

abbrev quote : Quote
quote = record {
  lines = [];
  subtotal = message (pos 5);
  discount = message (pos 0);
  tax = message (pos 0);
  total = message (pos 5);
  coupon_code = "";
  pricing_signature = "";
}

abbrev item : CartItem
item = record { product_id = "a"; quantity = pos 1 }

abbrev down : Error
down = new_error unavailable "DOWN"

-- Every service answers.
abbrev services : Services
services = record {
  get_cart = λ cs cart. ok (item ∷ []);
  quote_price = λ cs items currency coupon to. ok quote;
  reserve = λ cs ref items ttl. ok "r";
  commit = λ cs r. ok tt;
  release = λ cs r. ok tt;
  create_payment = λ cs ref m token. ok ("p", "secret");
  void = λ cs p. ok tt;
  clear_cart = λ cs cart. ok tt;
  refund = λ cs p m k. ok tt;
  adjust_stock = λ cs p n r. ok tt;
}

abbrev no_inventory : Services
no_inventory = record services { commit = λ cs r. err down; adjust_stock = λ cs p n r. err down }

abbrev world : World
world = record {
  db = inserted;
  keys = [];
  marks = [];
  returns = record { returns = []; return_lines = []; outbox = [] };
  calls = [];
}

abbrev input : CreateInput
input = record {
  owner_id = "u";
  cart_id = "c";
  currency = "EUR";
  coupon_code = "";
  method_token = "m";
  ship_to = order.ship_to;
  idempotency_key = "k";
}

create_order_settles_example :
    Accounts
      (open_reservations world.calls)
      (open_payments world.calls)
      world.db
      (create_order parse_uuid services (λ xs. "") (λ n. "0") input "o2" 7 world)
create_order_settles_example =
    create_order_settles parse_uuid services (λ cs ref items ttl. refl) (λ cs ref m token. refl)
      (λ xs. "") (λ n. "0") input "o2" 7 world

commit_never_retried_example :
    let first = on_payment_authorized parse_uuid no_inventory "e1" "o" world in
    (first.1 ≡ err commit_failed)
    × (let later : World = record first.0 { db = run parse_uuid [] first.0.db } in
        on_payment_authorized parse_uuid no_inventory "e1" "o" later ≡ (later, ok tt))
commit_never_retried_example =
    commit_never_retried parse_uuid no_inventory "e1" "o" read_order world down [] refl confirms
      refl refl refl

-- A cancelled order, whose reservation and payment are still held.
abbrev held_world : World
held_world = record world {
  db = record empty { orders = ("o", record order { status = cancelled }) ∷ [] };
}

abbrev is_named : String → Bool
is_named s = not (str_eq s "")

fits :
    length (pending_orders (λ id. 0) 10 held_world held_world.db.orders)
    ≤ clamp_limit (λ id. 0) 10 100
unfolding pending_orders clamp_limit marks_of lookup is_pending_row insert_by_update
fits = omega arith

sweep_settles_example :
    let after = sweep is_named services (λ id. 0) 10 100 held_world in
    (after.db ≡ held_world.db) × (pending_compensations (λ id. 0) 10 100 after ≡ [])
sweep_settles_example =
    sweep_settles is_named services (λ id. 0) 10 100 100 held_world (λ cs r. refl) (λ cs p. refl)
      refl (refl, tt) fits

abbrev row : ReturnLineRow
row = record {
  return_id = "t";
  product_id = "a";
  quantity = 1;
  refund_amount_cents = pos 250;
  restocked = false;
}

abbrev asked : Return
asked = record {
  id = "t";
  order_id = "o";
  owner_id = "u";
  status = requested;
  reason = "";
  lines = [];
  refund_total = euros (pos 250);
  decided_by = "";
  decision_note = "";
}

abbrev asked_world : World
asked_world = record world {
  returns = record { returns = ("t", asked) ∷ []; return_lines = row ∷ []; outbox = [] };
}

abbrev answered_return : Return
answered_return = record asked {
  status = approved;
  lines = record { product_id = "a"; quantity = pos 1; refund_amount = euros (pos 250) } ∷ [];
  decided_by = "op";
  decision_note = "n";
}

abbrev decided : ReturnsDb
decided = record {
  returns = ("t", record answered_return { lines = [] }) ∷ [];
  return_lines = row ∷ [];
  outbox =
      return_approved "t" "o" "u"
        (record { currency_code = "EUR"; units = pos 2; nanos = pos 500000000 })
      ∷ [];
}

decides :
    decide_return parse_uuid "t" "op" true "n" asked_world.returns ≡ ok (answered_return, decided)
unfolding decide_return get_return decide write_decision emit_return_event return_event rows_of
    insert_row read_lines money_message units_nanos lookup insert int32 ◌*ℤ◌ ◌/ℤ◌ ◌%ℤ◌
decides = refl

abbrev stored : Order
stored = record read_order { status = order.status }

reads : get parse_uuid "o" "" inserted ≡ ok stored
unfolding get attached lookup insert insert_line insert_order insert_order_tx insert_lines order_row
    outbox_created has_line money_message units_nanos empty int32 ◌*ℤ◌ ◌/ℤ◌ ◌%ℤ◌
reads = refl

keyed : (r : Return) → lookup "t" asked_world.returns.returns ≡ some r → r.id ≡ "t"
unfolding lookup
keyed r e = ground (arith, e)

approval_settles_example :
    let first = decide_and_refund services parse_uuid "op" "t" true "n" asked_world in
    (first.1 ≡ ok answered_return)
    × (first.0.calls
        ≡ restock_calls "t"
            (unrestocked_lines "t" decided)
            (refund_calls stored answered_return []))
    × (unrestocked_lines "t" first.0.returns ≡ [])
    × (decide_and_refund services parse_uuid "op2" "t" true "" first.0 ≡ (
      record first.0 { calls = refund_calls stored answered_return first.0.calls },
      ok answered_return,
    ))
approval_settles_example =
    approval_settles services (λ cs p m k. refl) (λ cs p n r. refl) parse_uuid "op" "op2" "t" "n" ""
      asked_world stored answered_return decided keyed decides reads

pending : unrestocked_lines "t" asked_world.returns ≡ row ∷ []
unfolding unrestocked_lines pending_rows rows_of insert_row
pending = refl

restock_asked_again_example :
    let first = restock_stage no_inventory answered_return asked_world in
    (first.1 ≡ err restock_failed)
    × (unrestocked_lines "t" first.0.returns ≡ row ∷ [])
    × ((restock_stage services answered_return first.0).0.calls
        ≡ restock_calls "t" [] (restock_call "t" row true ∷ restock_call "t" row false ∷ []))
restock_asked_again_example =
    restock_asked_again no_inventory services answered_return asked_world row [] down pending refl
      (λ cs p n k. refl)

abbrev resolved : ResolvedLine
resolved = record { product_id = "a"; quantity = pos 2; value = pos 500 }

whole_return_refunds_total_example :
    let r = return_of "t" (record order { total = euros (pos 450) }) "u" "" (resolved ∷ []) in
    (r.refund_total.cents ≡ pos 450) × (pos (refunds_of r.lines) ≡ pos 450) × All IsRefund r.lines
whole_return_refunds_total_example =
    whole_return_refunds_total "t" "u" "" (record order { total = euros (pos 450) }) 450 500
      (resolved ∷ []) refl refl (omega arith) (refl, tt) refl (omega arith) (omega arith)
