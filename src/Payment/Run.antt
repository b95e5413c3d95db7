-- ===== src/Payment/Run.antt =====
-- Every history of the payment service, by the requests that its handlers take.
use commerce_platform.Common.{
  ℕ, ◌≡◌, refl, subst, String, Bool, true, false, none, some, List, [], ◌∷◌, arith, if◌then◌else◌,
  str_eq, eq_iff, Outcome, ok, err, Error, new_error, invalid_argument, Option-cases, Outcome-cases,
  inl, inr,
}
use commerce_platform.Common.Table.{lookup, insert, lookup-insert}
use commerce_platform.Common.Int.{ℤ, pos, leb_ℤ, ltb_ℤ, int64-IsInt64, IsInt64, ◌<ℤ◌}
use commerce_platform.Payment.{
  Payment, PaymentStatus, Money, Db, requires_confirmation, voided, create, create_tx, transition,
  refund, get, transact,
}
use commerce_platform.Payment.Server.{
  ConfirmOutcome, PaymentMessage, reply, cents_from, create_payment, confirm_payment,
  refund_payment, void_payment, confirm_target,
}
use commerce_platform.Payment.Refunds.{refunded_for, announced, Accounts}
use commerce_platform.Payment.Books.{Books, refund-Books, transition-Books}

-- A reply is about the tables that the store left.
pub reply-tables : (s : Bool) (r : Db × Outcome Payment) → (reply s r).0 ≡ r.0
unfolding reply
reply-tables s (db, ok p) = refl
reply-tables s (db, err e) = refl

cents_from-IsInt64 : (m : Money) → IsInt64 (cents_from m)
unfolding cents_from
cents_from-IsInt64 m = int64-IsInt64 _

new_row-Accounts :
    (same : Bool) (id q : String) (p : Payment) (db : Db)
    → str_eq id q ≡ same
    → p.id ≡ id
    → IsInt64 p.amount_cents
    → pos 0 <ℤ p.amount_cents
    → p.status ≡ requires_confirmation
    → p.refunded_cents ≡ pos 0
    → lookup id db.payments ≡ none
    → Books id db
    → Books q db
    → Accounts q
        (refunded_for q db.refunds)
        (announced q db.outbox)
        (if same then some p else lookup q db.payments)
new_row-Accounts true id q p db e hi hb hp hs hr none_there bi bq =
    let (no_rows, no_events) : Accounts id (refunded_for id db.refunds) (announced id db.outbox)
        none =
      subst (λ o. Accounts id (refunded_for id db.refunds) (announced id db.outbox) o) none_there
        bi in
    subst (λ i. Accounts i (refunded_for i db.refunds) (announced i db.outbox) (some p))
      ((eq_iff id q).0 e)
      (
        hi,
        ground (arith, hp),
        ground (arith, hp),
        ground (arith, hb),
        rw (hr, no_rows) refl,
        omega (arith, no_rows, no_events),
        rw hs no_rows,
      )
new_row-Accounts false id q p db e hi hb hp hs hr none_there bi bq = bq

pub new_payment : String → String → ℕ → String → ℤ → String → String → Payment
new_payment id secret now order_id amount currency token = record {
  id = id;
  order_id = order_id;
  amount_cents = amount;
  currency = currency;
  status = requires_confirmation;
  method_token = token;
  client_secret = secret;
  created_at = now;
  refunded_cents = pos 0;
}

pub create_new :
    (id secret : String) (now : ℕ) (order_id : String) (amount : ℤ) (currency token : String)
    (db : Db)
    → lookup id db.payments ≡ none
    → (create id secret now order_id amount currency token db).0 ≡ record db {
      payments = insert id (new_payment id secret now order_id amount currency token) db.payments;
    }
unfolding create create_tx transact new_payment
create_new id secret now order_id amount currency token db e = ground (arith, e)

pub create_taken :
    (id secret : String) (now : ℕ) (order_id : String) (amount : ℤ) (currency token : String)
    (p : Payment) (db : Db)
    → lookup id db.payments ≡ some p
    → (create id secret now order_id amount currency token db).0 ≡ db
unfolding create create_tx transact
create_taken id secret now order_id amount currency token p db e = ground (arith, e)

create-Books :
    (id secret : String) (now : ℕ) (order_id : String) (amount : ℤ) (currency token q : String)
    (db : Db)
    → IsInt64 amount
    → pos 0 <ℤ amount
    → Books id db
    → Books q db
    → Books q (create id secret now order_id amount currency token db).0
unfolding new_payment
create-Books id secret now order_id amount currency token q db hb hp bi bq =
    elim (Option-cases (lookup id db.payments)) [
      | inl e ↦
          let p' = new_payment id secret now order_id amount currency token in
          rw
            (
              create_new id secret now order_id amount currency token db e,
              lookup-insert id q p' db.payments,
            )
            (new_row-Accounts _ id q p' db refl refl hb hp refl refl e bi bq)
      | inr (p, e) ↦ rw (create_taken id secret now order_id amount currency token p db e) bq
    ]

-- The requests that the service takes.
pub data Request : Type 0 where
  create_request : String → String → ℕ → String → Money → String → Request
  confirm_request : String → ConfirmOutcome → Request
  refund_request : String → Money → String → Request
  void_request : String → Request

unfoldable pub serve : Request → Db → Db
serve (create_request id secret now order_id amount token) db =
    (create_payment id secret now order_id amount token db).0
serve (confirm_request id outcome) db = (confirm_payment id outcome db).0
serve (refund_request id amount key) db = (refund_payment id amount key db).0
serve (void_request id) db = (void_payment id db).0

unfoldable pub run : List Request → Db → Db
unfolding serve
run [] db = db
run (r ∷ rs) db = run rs (serve r db)

-- A reply keeps the books when the store's tables do.
reply-Books :
    (q : String) (s : Bool) (r : Db × Outcome Payment) → Books q r.0 → Books q (reply s r).0
reply-Books q s r b = rw (reply-tables s r) b

test-Books :
    (q : String) (test : Bool) (x y : Db × Outcome PaymentMessage)
    → Books q x.0
    → (test ≡ false → Books q y.0)
    → Books q (if test then x else y).0
test-Books q true x y bx by_rest = bx
test-Books q false x y bx by_rest = by_rest refl

unfoldable pub target_reply :
    String → Outcome (PaymentStatus × String) → Db → Db × Outcome PaymentMessage
target_reply id (err e) db = (db, err e)
target_reply id (ok (to, reason)) db = reply false (transition id to reason db)

target_reply-Books :
    (id q : String) (o : Outcome (PaymentStatus × String)) (db : Db)
    → Books id db
    → Books q db
    → Books q (target_reply id o db).0
unfolding target_reply
target_reply-Books id q (err e) db bi bq = bq
target_reply-Books id q (ok (to, reason)) db bi bq =
    reply-Books q false (transition id to reason db) (transition-Books id q to reason db bi bq)

pub confirm_found :
    (id : String) (outcome : ConfirmOutcome) (db : Db) (p : Payment)
    → get id db ≡ ok p
    → confirm_payment id outcome db ≡ target_reply id (confirm_target outcome p.method_token) db
unfolding confirm_payment target_reply
confirm_found id outcome db p e = ground (arith, e)

pub confirm_missing :
    (id : String) (outcome : ConfirmOutcome) (db : Db) (e : Error)
    → get id db ≡ err e
    → confirm_payment id outcome db ≡ (db, err e)
unfolding confirm_payment
confirm_missing id outcome db e h = ground (arith, h)

confirm-Books :
    (id q : String) (outcome : ConfirmOutcome) (db : Db)
    → Books id db
    → Books q db
    → Books q (confirm_payment id outcome db).0
confirm-Books id q outcome db bi bq = elim (Outcome-cases (get id db)) [
  | inl (p, e) ↦ rw (confirm_found id outcome db p e) (target_reply-Books id q _ db bi bq)
  | inr (e, h) ↦ rw (confirm_missing id outcome db e h) bq
]

positive_amount : (z : ℤ) → leb_ℤ z (pos 0) ≡ false → pos 0 <ℤ z
positive_amount z h = ground arith

serve-Books :
    (r : Request) (db : Db) → ((i : String) → Books i db) → (q : String) → Books q (serve r db)
unfolding serve create_payment refund_payment void_payment
serve-Books (create_request id secret now order_id amount token) db b q =
    let cents = cents_from amount in
    let made = create id secret now order_id cents amount.currency_code token db in
    let bad_amount : Db × Outcome PaymentMessage =
      (db, err (new_error invalid_argument "BAD_AMOUNT")) in
    test-Books q (str_eq order_id "") (db, err (new_error invalid_argument "ORDER_ID_REQUIRED"))
      (if leb_ℤ cents (pos 0) then bad_amount else reply true made) (b q)
      (λ named. test-Books q (leb_ℤ cents (pos 0)) bad_amount (reply true made) (b q) (λ positive.
        reply-Books q true made (
          create-Books id secret now order_id cents amount.currency_code token q db
            (cents_from-IsInt64 amount) (positive_amount cents positive) (b id) (b q))))
serve-Books (confirm_request id outcome) db b q = confirm-Books id q outcome db (b id) (b q)
serve-Books (refund_request id amount key) db b q =
    let cents = cents_from amount in
    test-Books q (ltb_ℤ cents (pos 0)) (db, err (new_error invalid_argument "BAD_AMOUNT"))
      (reply false (refund id cents key db)) (b q)
      (λ sign.
        reply-Books q false (refund id cents key db) (refund-Books id q key cents db (b id) (b q)))
serve-Books (void_request id) db b q =
    reply-Books q false (transition id voided "" db)
      (transition-Books id q voided "" db (b id) (b q))

pub run-Books :
    (rs : List Request) (db : Db) → ((i : String) → Books i db) → (q : String) → Books q (run rs db)
unfolding run
run-Books [] db b q = b q
run-Books (r ∷ rs) db b q = run-Books rs (serve r db) (serve-Books r db b) q

unfoldable pub empty : Db
empty = record { payments = []; refunds = []; outbox = [] }

empty-Books : (q : String) → Books q empty
unfolding empty lookup refunded_for announced
empty-Books q = (refl, refl)

-- After any history of requests, accepted or not, that begins with empty tables, each payment has a
-- positive amount that fits an int64, its refunded cents are exactly the sum of its refund rows and
-- of its refund events, it is REFUNDED exactly when that sum is the whole amount, the sum is below
-- the amount while it is AUTHORIZED or VOIDED, and 0 before it was confirmed and when it FAILED; and
-- the refund rows and the refund events of an id that is no payment add up to 0.
pub payments_are_sound : (rs : List Request) (q : String) → Books q (run rs empty)
payments_are_sound rs q = run-Books rs empty (λ i. empty-Books i) q
