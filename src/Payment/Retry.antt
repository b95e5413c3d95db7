-- ===== src/Payment/Retry.antt =====
-- A refund that is asked for again with its idempotency key.
use commerce_platform.Common.{
  ℕ, suc, ◌≡◌, refl, ap, ◌∙◌, String, true, false, some, List, [], ◌∷◌, ◌++◌, arith, str_eq,
  eq_refl, ok, Option-cases, Bool-cases, Outcome-cases, inl, inr,
}
use commerce_platform.Common.Table.{lookup}
use commerce_platform.Common.Int.{ℤ, pos, negsuc, pos_part}
use commerce_platform.Payment.{
  Payment, RefundRow, Db, PaymentStatus, create, create_tx, transition, transition_tx, set_status,
  refund, refund_tx, insert_refund, set_refunded, has_refund, refund_already_applied, load,
  transact, resolve_refund_amount,
}
use commerce_platform.Payment.Refunds.{
  refunded_for, announced, Accounts, pays_back, resolved, refund_of, inserted, refund-resolved,
  resolve_refund_amount_lem,
}
use commerce_platform.Payment.Run.{Request, run}
use commerce_platform.Payment.Kept.{run_keeps}

has_refund-append :
    (id key : String) (rs : List RefundRow) (r : RefundRow)
    → has_refund id key rs ≡ true
    → has_refund id key (rs ++ r ∷ []) ≡ true
unfolding has_refund
has_refund-append id key (x ∷ rs) r h = ground (arith, has_refund-append id key rs r)
has_refund-append id key [] r h = ground arith

has_refund_last :
    (id key : String) (rs : List RefundRow) (n : ℕ)
    → has_refund id key
        (rs ++ record { payment_id = id; amount_cents = n; idempotency_key = key } ∷ [])
      ≡ true
unfolding has_refund
has_refund_last id key (x ∷ rs) n = ground (arith, has_refund_last id key rs n)
has_refund_last id key [] n = ground (arith, eq_refl id, eq_refl key)

-- The refund row of that payment and key stays.
abbrev Keeps : String → String → Db → Db → Type 0
Keeps id key db db' = has_refund id key db.refunds ≡ true → has_refund id key db'.refunds ≡ true

insert_refund-Keeps :
    (id key i k : String) (z : ℤ) (db db' : Db)
    → insert_refund i z k db ≡ ok db'
    → Keeps id key db db'
unfolding insert_refund
insert_refund-Keeps id key i k (pos n) db db' e h = ground (
  arith,
  has_refund-append id key db.refunds
      (record { payment_id = i; amount_cents = n; idempotency_key = k }) h,
)
insert_refund-Keeps id key i k (negsuc n) db db' e h = ground arith

refund-Keeps :
    (id key i k : String) (requested : ℤ) (db : Db) → Keeps id key db (refund i requested k db).0
unfolding refund refund_tx load transact set_refunded
refund-Keeps id key i k requested db h = elim (Option-cases (lookup i db.payments)) [
  | inl e ↦ ground (arith, e, h)
  | inr (p, e) ↦ elim (Outcome-cases (resolve_refund_amount p requested)) [
    | inr (failure, r) ↦ ground (arith, e, r, h)
    | inl ((z, settled), r) ↦ elim (Outcome-cases (insert_refund i z k db)) [
      | inr (failure, n) ↦ ground (arith, e, r, n, h)
      | inl (db', n) ↦
          let kept = insert_refund-Keeps id key i k z db db' n h in ground (arith, e, r, n, h, kept)
    ]
  ]
]

transition-Keeps :
    (id key i reason : String) (to : PaymentStatus) (db : Db)
    → Keeps id key db (transition i to reason db).0
unfolding transition transition_tx load transact set_status
transition-Keeps id key i reason to db h = ground arith

create-Keeps :
    (id key i secret : String) (now : ℕ) (order_id : String) (amount : ℤ) (currency token : String)
    (db : Db)
    → Keeps id key db (create i secret now order_id amount currency token db).0
unfolding create create_tx transact
create-Keeps id key i secret now order_id amount currency token db h = ground arith

run-Keeps : (id key : String) (rs : List Request) (db : Db) → Keeps id key db (run rs db)
run-Keeps id key rs db =
    run_keeps (λ d. has_refund id key d.refunds ≡ true) (create-Keeps id key)
      (λ i to reason. transition-Keeps id key i reason to) (λ i z k. refund-Keeps id key i k z) rs
      db

-- With a key that was used, `Refund` leaves the tables as they are.
used_key_changes_nothing :
    (id key : String) (requested : ℤ) (db : Db)
    → str_eq key "" ≡ false
    → has_refund id key db.refunds ≡ true
    → (refund id requested key db).0 ≡ db
unfolding refund refund_tx load transact refund_already_applied
used_key_changes_nothing id key requested db named used =
    elim (Option-cases (lookup id db.payments)) [
      | inl e ↦ ground (arith, e)
      | inr (p, e) ↦ ground (arith, e, named, used)
    ]

-- A refund that pays something back leaves a row with its key.
written-has_refund :
    (id key : String) (requested : ℤ) (d : ℕ) (p : Payment) (db : Db)
    → lookup id db.payments ≡ some p
    → Accounts id (refunded_for id db.refunds) (announced id db.outbox) (some p)
    → pays_back
        (refund_already_applied id key db)
        p.status
        (pos_part p.amount_cents)
        (refunded_for id db.refunds)
        requested
      ≡ ok (suc d)
    → has_refund id key (refund id requested key db).0.refunds ≡ true
unfolding refund_of set_refunded inserted pays_back
written-has_refund id key requested d p db e (hi, ha, hp, hb, hn, hk, h) eo =
    elim (Bool-cases (refund_already_applied id key db)) [
      | inl used ↦ absurd (ground (arith, used, eo))
      | inr fresh ↦
          let due : pays_back false p.status (pos_part p.amount_cents) (refunded_for id db.refunds)
                requested
              ≡ ok (suc d) =
            ground (arith, fresh, eo) in
          let r = resolve_refund_amount_lem p p.status _ _ requested refl ha hn hp hb h in
          rw (refund-resolved id key requested p db (ok (suc d)) e fresh (r ∙ ap resolved due))
            (has_refund_last id key db.refunds (suc d))
    ]

-- Once a refund with an idempotency key that is not empty paid something back, a refund of that
-- payment with that key changes no table, whatever its amount and whatever requests were served in
-- between.
pub refund_retry :
    (id key : String) (requested again : ℤ) (d : ℕ) (p : Payment) (db : Db) (rs : List Request)
    → str_eq key "" ≡ false
    → lookup id db.payments ≡ some p
    → Accounts id (refunded_for id db.refunds) (announced id db.outbox) (some p)
    → pays_back
        (refund_already_applied id key db)
        p.status
        (pos_part p.amount_cents)
        (refunded_for id db.refunds)
        requested
      ≡ ok (suc d)
    → let later = run rs (refund id requested key db).0 in (refund id again key later).0 ≡ later
refund_retry id key requested again d p db rs named e ac paid =
    used_key_changes_nothing id key again _ named
      (run-Keeps id key rs _ (written-has_refund id key requested d p db e ac paid))
