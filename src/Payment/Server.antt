-- ===== src/Payment/Server.antt =====
-- The handlers of the payment service (services/payment/internal/grpcsvc/server.go).
use commerce_platform.Common.{
  ℕ, String, Bool, true, false, Option, none, some, if◌then◌else◌, str_eq, Outcome, ok, err,
  new_error, invalid_argument,
}
use commerce_platform.Common.Int.{ℤ, pos, ◌+ℤ◌, ◌*ℤ◌, ◌/ℤ◌, ltb_ℤ, leb_ℤ, int64}
use commerce_platform.Payment.{
  Payment, PaymentStatus, Money, Db, authorized, failed, voided, money, get, create, transition,
  refund,
}

abbrev pub decline_token : String
decline_token = "pm_card_declined"

pub data ConfirmOutcome : Type 0 where
  unspecified authorize fail : ConfirmOutcome

-- The message that a caller gets. Its `created_at` is the time that the code prints.
pub record PaymentMessage : Type 0 where
  pub payment_id : String
  pub order_id : String
  pub amount : Money
  pub status : PaymentStatus
  pub created_at : ℕ
  pub refunded : Option Money
  pub client_secret : Option String

unfoldable pub to_proto : Payment → Bool → PaymentMessage
unfolding money
to_proto p with_secret = record {
  payment_id = p.id;
  order_id = p.order_id;
  amount = money p.currency p.amount_cents;
  status = p.status;
  created_at = p.created_at;
  refunded =
      if ltb_ℤ (pos 0) p.refunded_cents then some (money p.currency p.refunded_cents) else none;
  client_secret = if with_secret then some p.client_secret else none;
}

-- `return toProto(p, …), nil`, after `if err != nil { return nil, err }`.
unfoldable pub reply : Bool → Db × Outcome Payment → Db × Outcome PaymentMessage
unfolding to_proto
reply with_secret (db, ok p) = (db, ok (to_proto p with_secret))
reply with_secret (db, err e) = (db, err e)

-- `amt.GetUnits()*100 + int64(amt.GetNanos())/10_000_000`.
unfoldable pub cents_from : Money → ℤ
unfolding int64
cents_from m = int64 (int64 (m.units *ℤ pos 100) +ℤ m.nanos /ℤ 10000000)

-- `CreatePayment`, where the row's `id`, the `secret` and `now` are drawn.
unfoldable pub create_payment :
    String → String → ℕ → String → Money → String → Db → Db × Outcome PaymentMessage
create_payment id secret now order_id amount method_token db =
    if str_eq order_id ""
    then (db, err (new_error invalid_argument "ORDER_ID_REQUIRED"))
    else if leb_ℤ (cents_from amount) (pos 0)
    then (db, err (new_error invalid_argument "BAD_AMOUNT"))
    else reply true
        (create id secret now order_id (cents_from amount) amount.currency_code method_token db)

-- The status and the reason that an outcome asks for.
unfoldable pub confirm_target : ConfirmOutcome → String → Outcome (PaymentStatus × String)
confirm_target fail token = ok (failed, "SHOPPER_ABANDONED")
confirm_target authorize token =
    if str_eq token decline_token then ok (failed, "CARD_DECLINED") else ok (authorized, "")
confirm_target unspecified token = err (new_error invalid_argument "OUTCOME_REQUIRED")

unfoldable pub confirm_payment : String → ConfirmOutcome → Db → Db × Outcome PaymentMessage
confirm_payment id outcome db = elim (get id db) [
  | err e ↦ (db, err e)
  | ok cur ↦ elim (confirm_target outcome cur.method_token) [
    | err e ↦ (db, err e)
    | ok (to, reason) ↦ reply false (transition id to reason db)
  ]
]

unfoldable pub refund_payment : String → Money → String → Db → Db × Outcome PaymentMessage
refund_payment id amount key db =
    if ltb_ℤ (cents_from amount) (pos 0)
    then (db, err (new_error invalid_argument "BAD_AMOUNT"))
    else reply false (refund id (cents_from amount) key db)

unfoldable pub void_payment : String → Db → Db × Outcome PaymentMessage
void_payment id db = reply false (transition id voided "" db)
