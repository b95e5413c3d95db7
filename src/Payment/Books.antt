-- ===== src/Payment/Books.antt =====
-- What each method of the payment store keeps: the rows that name a payment agree.
use commerce_platform.Common.{
  ℕ, ◌+◌, ◌<◌, ◌≡◌, refl, subst, String, Bool, true, false, none, some, ◌++◌, arith, if◌then◌else◌,
  str_eq, eq_iff, Outcome, ok, err, Option-cases, inl, inr,
}
use commerce_platform.Common.Table.{lookup, lookup-insert}
use commerce_platform.Common.Int.{ℤ, pos, pos_part, ◌+ℤ◌, leb_ℤ, int_laws}
use commerce_platform.Payment.{
  Payment, PaymentStatus, Db, requires_confirmation, authorized, failed, refunded, voided, load,
  transition, transition_tx, can_transition, event_for, set_status, refund, refund_tx,
  refund_already_applied, transact, same_status, bad_transition, no_payment,
}
use commerce_platform.Payment.Refunds.{
  refunded_for, announced, announced-append, Settled, Accounts, PaysBack, pays_back, paid,
  refund_exact,
}

-- The rows that name a payment agree.
abbrev pub Books : String → Db → Type 0
Books q db = Accounts q (refunded_for q db.refunds) (announced q db.outbox) (lookup q db.payments)

paid-Settled :
    (applied : Bool) (st : PaymentStatus) (a n d : ℕ) (requested : ℤ)
    → Settled st n a
    → 0 < a
    → pays_back applied st a n requested ≡ ok d
    → Settled (if leb_ℤ (pos a) (pos (n + d)) then refunded else st) (n + d) a
unfolding pays_back
paid-Settled true authorized a n d requested h hp e = ground arith
paid-Settled true refunded a n d requested h hp e = ground arith
paid-Settled true requires_confirmation a n d requested h hp e = ground arith
paid-Settled true failed a n d requested h hp e = ground arith
paid-Settled true voided a n d requested h hp e = ground arith
paid-Settled false authorized a n d requested h hp e = ground arith
paid-Settled false refunded a n d requested h hp e = ground arith
paid-Settled false requires_confirmation a n d requested h hp e = ground arith
paid-Settled false failed a n d requested h hp e = ground arith
paid-Settled false voided a n d requested h hp e = ground arith

paid-Accounts :
    (id : String) (p : Payment) (n k d : ℕ) (applied : Bool) (requested : ℤ)
    → Accounts id n k (some p)
    → pays_back applied p.status (pos_part p.amount_cents) n requested ≡ ok d
    → Accounts id (n + d) (k + d) (some (paid p d))
unfolding paid
paid-Accounts id p n k d applied requested (hi, ha, hp, hb, hn, hk, h) e =
    let total : p.refunded_cents +ℤ pos d ≡ pos (n + d) = grind int_laws in
    let s = paid-Settled applied p.status (pos_part p.amount_cents) n d requested h hp e in
    (hi, ha, hp, hb, total, omega (arith, hk), ground (arith, total, ha, s))

-- The two ways to name the row of a payment that is there.
found-Accounts :
    (id : String) (p : Payment) (db : Db)
    → lookup id db.payments ≡ some p
    → Books id db
    → Accounts id (refunded_for id db.refunds) (announced id db.outbox) (some p)
found-Accounts id p db e b =
    subst (λ o. Accounts id (refunded_for id db.refunds) (announced id db.outbox) o) e b

paid_row-Accounts :
    (same : Bool) (id q : String) (p : Payment) (d : ℕ) (db : Db)
    → str_eq id q ≡ same
    → Accounts id (refunded_for id db.refunds + d) (announced id db.outbox + d) (some (paid p d))
    → Books q db
    → Accounts q
        (refunded_for q db.refunds + (if same then d else 0))
        (announced q db.outbox + (if same then d else 0))
        (if same then some (paid p d) else lookup q db.payments)
paid_row-Accounts true id q p d db e a b =
    subst
      (λ i.
        Accounts i (refunded_for i db.refunds + d) (announced i db.outbox + d) (some (paid p d)))
      ((eq_iff id q).0 e) a
paid_row-Accounts false id q p d db e a b =
    let rows : refunded_for q db.refunds + 0 ≡ refunded_for q db.refunds = omega arith in
    let events : announced q db.outbox + 0 ≡ announced q db.outbox = omega arith in
    rw (rows, events) b

refund_by_case :
    (id q key : String) (requested : ℤ) (p : Payment) (db : Db) (o : Outcome ℕ)
    → lookup id db.payments ≡ some p
    → Books id db
    → Books q db
    → pays_back
        (refund_already_applied id key db)
        p.status
        (pos_part p.amount_cents)
        (refunded_for id db.refunds)
        requested
      ≡ o
    → PaysBack o id q key p db (refund id requested key db)
    → Books q (refund id requested key db).0
refund_by_case id q key requested p db (err e) el bi bq eo h = rw h bq
refund_by_case id q key requested p db (ok d) el bi bq eo h =
    let (_, row, rows, events, _) = h in
    let a = paid-Accounts id p _ _ d _ requested (found-Accounts id p db el bi) eo in
    rw (row, rows, events) (paid_row-Accounts _ id q p d db refl a bq)

pub refund-Books :
    (id q key : String) (requested : ℤ) (db : Db)
    → Books id db
    → Books q db
    → Books q (refund id requested key db).0
unfolding refund refund_tx load transact
refund-Books id q key requested db bi bq = elim (Option-cases (lookup id db.payments)) [
  | inl e ↦ ground (arith, e, bq)
  | inr (p, e) ↦
      refund_by_case id q key requested p db _ e bi bq refl
        (refund_exact id q key requested p db e (found-Accounts id p db e bi))
]

-- A transition leaves what was paid back: it starts where nothing was.
moved-Settled :
    (st to : PaymentStatus) (n a : ℕ)
    → Settled st n a
    → 0 < a
    → can_transition st to ≡ true
    → Settled to n a
unfolding can_transition
moved-Settled requires_confirmation authorized n a h hp e = ground arith
moved-Settled requires_confirmation failed n a h hp e = h
moved-Settled requires_confirmation voided n a h hp e = ground arith
moved-Settled authorized voided n a h hp e = h
moved-Settled requires_confirmation requires_confirmation n a h hp e = h
moved-Settled requires_confirmation refunded n a h hp e = ground arith
moved-Settled authorized authorized n a h hp e = h
moved-Settled authorized requires_confirmation n a h hp e = ground arith
moved-Settled authorized failed n a h hp e = ground arith
moved-Settled authorized refunded n a h hp e = ground arith
moved-Settled failed to n a h hp e = ground arith
moved-Settled refunded to n a h hp e = ground arith
moved-Settled voided to n a h hp e = ground arith

pub transition_missing :
    (id : String) (to : PaymentStatus) (reason : String) (db : Db)
    → lookup id db.payments ≡ none
    → transition id to reason db ≡ (db, err no_payment)
unfolding transition transition_tx transact load
transition_missing id to reason db e = ground (arith, e)

-- What `Transition` returns and leaves, by its two tests.
unfoldable pub transition_of :
    Bool → Bool → String → Payment → PaymentStatus → String → Db → Db × Outcome Payment
transition_of true can id p to reason db = (db, ok p)
transition_of false false id p to reason db = (db, err bad_transition)
transition_of false true id p to reason db =
    let (p', db') = set_status id p to reason db in (db', ok p')

pub transition_lem :
    (id : String) (to : PaymentStatus) (reason : String) (p : Payment) (db : Db)
    → lookup id db.payments ≡ some p
    → transition id to reason db
      ≡ transition_of (same_status p.status to) (can_transition p.status to) id p to reason db
unfolding transition transition_tx transact load transition_of
transition_lem id to reason p db e = ground (arith, e)

-- No event of a transition announces a refund.
announced-event_for :
    (q : String) (p : Payment) (to : PaymentStatus) (reason : String)
    → announced q (event_for p to reason) ≡ 0
unfolding announced event_for
announced-event_for q p authorized reason = refl
announced-event_for q p failed reason = refl
announced-event_for q p requires_confirmation reason = refl
announced-event_for q p refunded reason = refl
announced-event_for q p voided reason = refl

moved_row-Accounts :
    (same : Bool) (id q : String) (p : Payment) (to : PaymentStatus) (db : Db)
    → str_eq id q ≡ same
    → Accounts id (refunded_for id db.refunds) (announced id db.outbox) (some p)
    → can_transition p.status to ≡ true
    → Books q db
    → Accounts q
        (refunded_for q db.refunds)
        (announced q db.outbox)
        (if same then some (record p { status = to }) else lookup q db.payments)
moved_row-Accounts true id q p to db e (hi, ha, hp, hb, hn, hk, h) can b =
    subst
      (λ i.
        Accounts i (refunded_for i db.refunds) (announced i db.outbox)
          (some (record p { status = to })))
      ((eq_iff id q).0 e) (hi, ha, hp, hb, hn, hk, moved-Settled p.status to _ _ h hp can)
moved_row-Accounts false id q p to db e a can b = b

set_status-Books :
    (id q : String) (p : Payment) (to : PaymentStatus) (reason : String) (db : Db)
    → lookup id db.payments ≡ some p
    → can_transition p.status to ≡ true
    → Books id db
    → Books q db
    → Books q (set_status id p to reason db).1
unfolding set_status
set_status-Books id q p to reason db e can bi bq =
    let p' : Payment = record p { status = to } in
    let a = moved_row-Accounts _ id q p to db refl (found-Accounts id p db e bi) can bq in
    let none_announced = announced-event_for q p' to reason in
    let events : announced q (db.outbox ++ event_for p' to reason) ≡ announced q db.outbox =
      omega (arith, announced-append q db.outbox (event_for p' to reason), none_announced) in
    rw (lookup-insert id q p' db.payments, events) a

transition_by_case :
    (same can : Bool) (id q : String) (p : Payment) (to : PaymentStatus) (reason : String) (db : Db)
    → lookup id db.payments ≡ some p
    → can_transition p.status to ≡ can
    → Books id db
    → Books q db
    → Books q (transition_of same can id p to reason db).0
unfolding transition_of
transition_by_case true can id q p to reason db e h bi bq = bq
transition_by_case false false id q p to reason db e h bi bq = bq
transition_by_case false true id q p to reason db e h bi bq =
    set_status-Books id q p to reason db e h bi bq

pub transition-Books :
    (id q : String) (to : PaymentStatus) (reason : String) (db : Db)
    → Books id db
    → Books q db
    → Books q (transition id to reason db).0
transition-Books id q to reason db bi bq = elim (Option-cases (lookup id db.payments)) [
  | inl e ↦ rw (transition_missing id to reason db e) bq
  | inr (p, e) ↦
      rw (transition_lem id to reason p db e)
        (transition_by_case _ _ id q p to reason db e refl bi bq)
]
