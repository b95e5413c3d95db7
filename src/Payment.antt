-- ===== src/Payment.antt =====
-- The payment store (services/payment/internal/store/store.go), with the SQL statements of each
-- method as updates of the tables of services/payment/internal/store/migrations. A payment's row
-- is locked by each method that changes it, so methods run one after the other. Currencies are
-- texts of the three characters that the column takes.
pub mod Refunds
pub mod Server
pub mod Books
pub mod Run
pub mod Void
pub mod Kept
pub mod Retry
mod Tests
use commerce_platform.Common.{
  ℕ, ◌+◌, String, Bool, true, false, not, ◌&&◌, ◌||◌, Option, none, some, List, [], ◌∷◌, ◌++◌,
  if◌then◌else◌, leb, str_eq, Outcome, ok, err, Error, new_error, ◌>>=◌, ◌>>◌, reject_if, internal,
  failed_precondition, not_found,
}
use commerce_platform.Common.Table.{Table, lookup, insert, has_row}
use commerce_platform.Common.Int.{
  ℤ, pos, negsuc, ◌+ℤ◌, ◌-ℤ◌, ◌*ℤ◌, ◌/ℤ◌, ◌%ℤ◌, ltb_ℤ, leb_ℤ, int32, int64,
}

-- The values that the CHECK on `status` allows.
pub data PaymentStatus : Type 0 where
  requires_confirmation authorized failed refunded voided : PaymentStatus

abbrev pub is_authorized : PaymentStatus → Bool
is_authorized authorized = true
is_authorized _ = false

abbrev pub is_failed : PaymentStatus → Bool
is_failed failed = true
is_failed _ = false

abbrev pub is_refunded : PaymentStatus → Bool
is_refunded refunded = true
is_refunded _ = false

abbrev pub is_voided : PaymentStatus → Bool
is_voided voided = true
is_voided _ = false

-- `==` on statuses.
abbrev pub same_status : PaymentStatus → PaymentStatus → Bool
same_status requires_confirmation requires_confirmation = true
same_status authorized authorized = true
same_status failed failed = true
same_status refunded refunded = true
same_status voided voided = true
same_status _ _ = false

pub record Payment : Type 0 where
  pub id : String
  pub order_id : String
  pub amount_cents : ℤ
  pub currency : String
  pub status : PaymentStatus
  pub method_token : String
  pub client_secret : String
  pub created_at : ℕ
  pub refunded_cents : ℤ

-- A row of `refunds`. The amount carries `CHECK (amount_cents > 0)`.
pub record RefundRow : Type 0 where
  pub payment_id : String
  pub amount_cents : ℕ
  pub idempotency_key : String

pub record Money : Type 0 where
  pub currency_code : String
  pub units : ℤ
  pub nanos : ℤ

-- The payloads of the outbox rows, each keyed by the order.
pub data Event : Type 0 where
  payment_authorized : String → String → Money → Event
  payment_failed : String → String → String → Event
  payment_refunded : String → String → Money → Event

pub record Db : Type 0 where
  pub payments : Table Payment
  pub refunds : List RefundRow
  pub outbox : List Event

abbrev pub db_error : Error
db_error = new_error internal "DB_ERROR"

abbrev pub no_payment : Error
no_payment = new_error not_found "PAYMENT_NOT_FOUND"

abbrev pub bad_transition : Error
bad_transition = new_error failed_precondition "BAD_TRANSITION"

abbrev pub not_refundable : Error
not_refundable = new_error failed_precondition "NOT_REFUNDABLE"

abbrev pub refund_exceeds_balance : Error
refund_exceeds_balance = new_error failed_precondition "REFUND_EXCEEDS_BALANCE"

-- A transaction: its writes are kept on success, and rolled back on an error.
unfoldable pub transact : (Db → Outcome (Payment × Db)) → Db → Db × Outcome Payment
transact t db = elim (t db) [ ok (p, db') ↦ (db', ok p) | err e ↦ (db, err e) ]

-- `loadForUpdate`, and the SELECT of `Get`.
unfoldable pub load : String → Db → Outcome Payment
load id db = elim (lookup id db.payments) [ some p ↦ ok p | none ↦ err no_payment ]

-- `Get`.
unfoldable pub get : String → Db → Outcome Payment
unfolding load
get id db = load id db

-- `Create`, where the row's `id`, the `secret` and `now` are drawn.
unfoldable pub create_tx :
    String → String → ℕ → String → ℤ → String → String → Db → Outcome (Payment × Db)
create_tx id secret now order_id amount_cents currency method_token db =
    let p : Payment = record {
      id = id;
      order_id = order_id;
      amount_cents = amount_cents;
      currency = currency;
      status = requires_confirmation;
      method_token = method_token;
      client_secret = secret;
      created_at = now;
      refunded_cents = pos 0;
    } in
    if has_row id db.payments
    then err db_error
    else ok (p, record db { payments = insert id p db.payments })

unfoldable pub create :
    String → String → ℕ → String → ℤ → String → String → Db → Db × Outcome Payment
unfolding transact create_tx
create id secret now order_id amount_cents currency method_token =
    transact (create_tx id secret now order_id amount_cents currency method_token)

unfoldable pub money : String → ℤ → Money
money currency cents = record {
  currency_code = currency;
  units = cents /ℤ 100;
  nanos = int32 (int32 (cents %ℤ 100) *ℤ pos 10000000);
}

unfoldable pub can_transition : PaymentStatus → PaymentStatus → Bool
can_transition requires_confirmation to = is_authorized to || is_failed to || is_voided to
can_transition authorized to = is_voided to
can_transition _ to = false

unfoldable pub event_for : Payment → PaymentStatus → String → List Event
unfolding money
event_for p authorized reason =
    payment_authorized p.id p.order_id (money p.currency p.amount_cents) ∷ []
event_for p failed reason = payment_failed p.id p.order_id reason ∷ []
event_for p _ reason = []

-- The UPDATE of the status and the outbox row of `Transition`.
unfoldable pub set_status : String → Payment → PaymentStatus → String → Db → Payment × Db
unfolding event_for
set_status id p to reason db =
    let p' = record p { status = to } in
    (
      p',
      record db {
        payments = insert id p' db.payments;
        outbox = db.outbox ++ event_for p' to reason;
      },
    )

unfoldable pub transition_tx : String → PaymentStatus → String → Db → Outcome (Payment × Db)
unfolding load can_transition
transition_tx id to reason db = do
  p ← load id db
  if same_status p.status to then ok (p, db) else do
    reject_if (not (can_transition p.status to)) bad_transition
    ok (set_status id p to reason db)

unfoldable pub transition : String → PaymentStatus → String → Db → Db × Outcome Payment
unfolding transact transition_tx
transition id to reason = transact (transition_tx id to reason)

-- `SELECT EXISTS (… WHERE payment_id = $1 AND idempotency_key = $2)`.
unfoldable pub has_refund : String → String → List RefundRow → Bool
has_refund id key [] = false
has_refund id key (r ∷ rs) =
    (str_eq r.payment_id id && str_eq r.idempotency_key key) || has_refund id key rs

unfoldable pub refund_already_applied : String → String → Db → Bool
unfolding has_refund
refund_already_applied id key db = if str_eq key "" then false else has_refund id key db.refunds

-- The amount, and whether nothing is left to refund.
unfoldable pub resolve_refund_amount : Payment → ℤ → Outcome (ℤ × Bool)
resolve_refund_amount p requested = do
  reject_if (not (is_authorized p.status) && not (is_refunded p.status)) not_refundable
  let remaining = int64 (p.amount_cents -ℤ p.refunded_cents)
  let amount = if leb_ℤ requested (pos 0) then remaining else requested
  if leb_ℤ amount (pos 0)
      then ok (pos 0, true)
      else do reject_if (ltb_ℤ remaining amount) refund_exceeds_balance; ok (amount, false)

-- The INSERT into `refunds`: its CHECK and its unique index.
unfoldable pub insert_refund : String → ℤ → String → Db → Outcome Db
unfolding refund_already_applied
insert_refund id (negsuc n) key db = err db_error
insert_refund id (pos n) key db = do
  reject_if (leb n 0) db_error
  reject_if (refund_already_applied id key db) db_error
  ok (record db {
    refunds =
        db.refunds ++ record { payment_id = id; amount_cents = n; idempotency_key = key } ∷ [];
  })

-- The UPDATE and the outbox row of `Refund`.
unfoldable pub set_refunded : String → Payment → ℤ → Db → Payment × Db
set_refunded id p amount db =
    let total = int64 (p.refunded_cents +ℤ amount) in
    let p' = record p {
      refunded_cents = total;
      status = if leb_ℤ p.amount_cents total then refunded else p.status;
    } in
    (
      p',
      record db {
        payments = insert id p' db.payments;
        outbox = db.outbox ++ payment_refunded p.id p.order_id (money p.currency amount) ∷ [];
      },
    )

unfoldable pub refund_tx : String → ℤ → String → Db → Outcome (Payment × Db)
unfolding load
refund_tx id requested key db = do
  p ← load id db
  if refund_already_applied id key db then ok (p, db) else do
    (amount, settled) ← resolve_refund_amount p requested
    if settled
        then ok (p, db)
        else do db' ← insert_refund id amount key db; ok (set_refunded id p amount db')

unfoldable pub refund : String → ℤ → String → Db → Db × Outcome Payment
unfolding transact refund_tx
refund id requested key = transact (refund_tx id requested key)
