-- ===== src/Payment/Tests.antt =====
-- Runs of the payment service on two payments.
use commerce_platform.Common.{suc, ◌≡◌, refl, false, some, List, [], ◌∷◌, ok, err}
use commerce_platform.Common.Table.{lookup, insert}
use commerce_platform.Common.{arith}
use commerce_platform.Common.Int.{ℤ, pos, ◌+ℤ◌, ◌-ℤ◌, ◌*ℤ◌, ◌/ℤ◌, ◌%ℤ◌, int32, int64}
use commerce_platform.Payment.{
  Payment, Money, Db, authorized, voided, payment_refunded, create, create_tx, transition,
  transition_tx, can_transition, event_for, set_status, refund, refund_tx, resolve_refund_amount,
  insert_refund, set_refunded, has_refund, refund_already_applied, load, get, transact, money,
  not_refundable,
}
use commerce_platform.Payment.Server.{
  authorize, create_payment, confirm_payment, refund_payment, confirm_target, reply, to_proto,
  cents_from,
}
use commerce_platform.Payment.Refunds.{
  refunded_for, announced, Accounts, PaysBack, pays_back, refund_exact,
}
use commerce_platform.Payment.Books.{Books}
use commerce_platform.Payment.Run.{
  Request, create_request, confirm_request, refund_request, void_request, serve, run, empty,
  payments_are_sound,
}
use commerce_platform.Payment.Retry.{refund_retry}
use commerce_platform.Payment.Void.{void_ends_refunds}

abbrev euros : ℤ → ℤ → Money
euros u n = record { currency_code = "EUR"; units = u; nanos = n }

-- 10.50, authorized, of which 4.00 were refunded with the key `k`.
abbrev requests : List Request
requests =
    create_request "p" "pi_1" 7 "o" (euros (pos 10) (pos 500000000)) "pm"
    ∷ confirm_request "p" authorize
    ∷ refund_request "p" (euros (pos 4) (pos 0)) "k"
    ∷ []

abbrev part_refunded : Payment
part_refunded = record {
  id = "p";
  order_id = "o";
  amount_cents = pos 1050;
  currency = "EUR";
  status = authorized;
  method_token = "pm";
  client_secret = "pi_1";
  created_at = 7;
  refunded_cents = pos 400;
}

abbrev store : Db
store = record {
  payments = ("p", part_refunded) ∷ [];
  refunds = record { payment_id = "p"; amount_cents = 400; idempotency_key = "k" } ∷ [];
  outbox = payment_refunded "p" "o" (euros (pos 4) (pos 0)) ∷ [];
}

payments_are_sound_example : Books "p" (run requests empty)
payments_are_sound_example = payments_are_sound requests "p"

run_example : lookup "p" (run requests empty).payments ≡ some part_refunded
unfolding run empty serve create_payment confirm_payment refund_payment confirm_target reply
    to_proto cents_from create create_tx transition transition_tx can_transition event_for
    set_status refund refund_tx resolve_refund_amount insert_refund set_refunded has_refund
    refund_already_applied load get transact money lookup insert int32 int64 ◌+ℤ◌ ◌-ℤ◌ ◌*ℤ◌ ◌/ℤ◌
    ◌%ℤ◌
run_example = refl

store-Accounts :
    Accounts "p" (refunded_for "p" store.refunds) (announced "p" store.outbox) (some part_refunded)
unfolding refunded_for announced
store-Accounts = (refl, refl, omega arith, omega arith, refl, refl, omega arith)

store_row : lookup "p" store.payments ≡ some part_refunded
unfolding lookup
store_row = refl

refund_exact_example :
    PaysBack
      (pays_back
        (refund_already_applied "p" "k2" store)
        authorized
        1050
        (refunded_for "p" store.refunds)
        (pos 0))
      "p"
      "p"
      "k2"
      part_refunded
      store
      (refund "p" (pos 0) "k2" store)
refund_exact_example =
    refund_exact "p" "p" "k2" (pos 0) part_refunded store store_row store-Accounts

all_paid_back :
    pays_back
      (refund_already_applied "p" "k2" store)
      authorized
      1050
      (refunded_for "p" store.refunds)
      (pos 0)
    ≡ ok (suc 649)
unfolding pays_back refund_already_applied has_refund refunded_for
all_paid_back = refl

abbrev after_refund : Db
after_refund = run (void_request "p" ∷ []) (refund "p" (pos 0) "k2" store).0

refund_retry_example : (refund "p" (pos 5) "k2" after_refund).0 ≡ after_refund
refund_retry_example =
    refund_retry "p" "k2" (pos 0) (pos 5) 649 part_refunded store (void_request "p" ∷ []) refl
      store_row store-Accounts all_paid_back

fresh_key : refund_already_applied "p" "k2" store ≡ false
unfolding refund_already_applied has_refund
fresh_key = refl

void_ends_refunds_example :
    let (db', o) = transition "p" voided "" store in
    let later = run (confirm_request "p" authorize ∷ void_request "p" ∷ []) db' in
    (o ≡ ok (record part_refunded { status = voided }))
    × (lookup "p" later.payments ≡ some (record part_refunded { status = voided }))
    × (refund "p" (pos 0) "k2" later ≡ (later, err not_refundable))
void_ends_refunds_example =
    void_ends_refunds "p" "k2" (pos 0) part_refunded store
      (confirm_request "p" authorize ∷ void_request "p" ∷ []) store_row refl fresh_key
