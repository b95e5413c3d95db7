-- ===== src/Payment/Refunds.antt =====
-- `Refund` and `Transition` on one payment: the rows of `refunds` account for what was refunded.
use commerce_platform.Common.{
  ℕ, zero, suc, ◌+◌, ◌-◌, ◌≤◌, ◌==◌, ltb, not, ◌*◌, ◌/◌, ◌<◌, ◌≡◌, refl, String, Bool, true, false,
  Option, none, some, List, [], ◌∷◌, ◌++◌, arith, if◌then◌else◌, str_eq, eq_iff, Outcome, ok, err,
  Bool-cases, inl, inr,
}
use commerce_platform.Common.Table.{lookup, insert, lookup-insert}
use commerce_platform.Common.Int.{
  ℤ, pos, pos_part, ◌+ℤ◌, ◌-ℤ◌, ◌*ℤ◌, ◌/ℤ◌, ◌%ℤ◌, leb_ℤ, int32, int64, int64_pos, pos_add, int_laws,
}
use commerce_platform.Payment.{
  Payment, PaymentStatus, RefundRow, Money, Event, Db, requires_confirmation, authorized, failed,
  refunded, voided, payment_authorized, payment_failed, payment_refunded, money, load, refund,
  refund_tx, resolve_refund_amount, insert_refund, set_refunded, refund_already_applied, transact,
  not_refundable, refund_exceeds_balance,
}

-- The cents on the refund rows of a payment.
unfoldable pub refunded_for : String → List RefundRow → ℕ
refunded_for id [] = 0
refunded_for id (r ∷ rs) =
    let rest = refunded_for id rs in if str_eq r.payment_id id then r.amount_cents + rest else rest

-- The cents of an amount on the wire.
abbrev pub cents_of : Money → ℕ
cents_of m = pos_part m.units * 100 + pos_part m.nanos / 10000000

-- The cents that the `payment_refunded` events of a payment announce.
unfoldable pub announced : String → List Event → ℕ
announced id [] = 0
announced id (payment_refunded i o m ∷ es) =
    let rest = announced id es in if str_eq i id then cents_of m + rest else rest
announced id (payment_authorized i o m ∷ es) = announced id es
announced id (payment_failed i o m ∷ es) = announced id es

refunded_for-append :
    (id : String) (rs : List RefundRow) (r : RefundRow)
    → refunded_for id (rs ++ r ∷ [])
      ≡ refunded_for id rs + (if str_eq r.payment_id id then r.amount_cents else 0)
unfolding refunded_for
refunded_for-append id [] r = ground arith
refunded_for-append id (x ∷ rs) r = ground (arith, refunded_for-append id rs r)

pub announced-append :
    (id : String) (es fs : List Event) → announced id (es ++ fs) ≡ announced id es + announced id fs
unfolding announced
announced-append id [] fs = omega arith
announced-append id (payment_refunded i o m ∷ es) fs = ground (arith, announced-append id es fs)
announced-append id (payment_authorized i o m ∷ es) fs = announced-append id es fs
announced-append id (payment_failed i o m ∷ es) fs = announced-append id es fs

-- The wire form of an amount carries all of its cents.
cents_of-money : (c : String) (n : ℕ) → cents_of (money c (pos n)) ≡ n
unfolding money int32 ◌*ℤ◌ ◌/ℤ◌ ◌%ℤ◌
cents_of-money c n = ground arith

abbrev refundable : PaymentStatus → Bool
refundable authorized = true
refundable refunded = true
refundable _ = false

-- What a refund pays back of a payment of `a` cents, of which `n` were paid back before.
unfoldable pub pays_back : Bool → PaymentStatus → ℕ → ℕ → ℤ → Outcome ℕ
pays_back true st a n requested = ok 0
pays_back false st a n requested =
    let due = if leb_ℤ requested (pos 0) then a - n else pos_part requested in
    if not (refundable st)
    then err not_refundable
    else if ltb (a - n) due
    then err refund_exceeds_balance
    else ok due

-- A payment after `d` more cents were paid back.
unfoldable pub paid : Payment → ℕ → Payment
paid p d =
    let total = p.refunded_cents +ℤ pos d in
    record p {
      refunded_cents = total;
      status = if leb_ℤ p.amount_cents total then refunded else p.status;
    }

-- How far a payment of that status can have been paid back.
abbrev pub Settled : PaymentStatus → ℕ → ℕ → Type 0
Settled authorized n a = n < a
Settled voided n a = n < a
Settled refunded n a = n ≡ a
Settled _ n a = n ≡ 0

-- The rows that name a payment agree with its own row, or there are none.
abbrev pub Accounts : String → ℕ → ℕ → Option Payment → Type 0
Accounts id rows events none = (rows ≡ 0) × (events ≡ 0)
Accounts id rows events (some p) =
    let a = pos_part p.amount_cents in
    (p.id ≡ id)
    × (p.amount_cents ≡ pos a)
    × (0 < a)
    × (a < 9223372036854775808)
    × (p.refunded_cents ≡ pos rows)
    × (events ≡ rows)
    × Settled p.status rows a

remaining : (a n : ℕ) → n ≤ a → a < 9223372036854775808 → int64 (pos a -ℤ pos n) ≡ pos (a - n)
unfolding int64 ◌-ℤ◌
remaining a n h hb = ground arith

abbrev pub resolved : Outcome ℕ → Outcome (ℤ × Bool)
resolved (err e) = err e
resolved (ok d) = ok (pos d, d == 0)

pub resolve_refund_amount_lem :
    (p : Payment) (st : PaymentStatus) (a n : ℕ) (requested : ℤ)
    → p.status ≡ st
    → p.amount_cents ≡ pos a
    → p.refunded_cents ≡ pos n
    → 0 < a
    → a < 9223372036854775808
    → Settled st n a
    → resolve_refund_amount p requested ≡ resolved (pays_back false st a n requested)
unfolding resolve_refund_amount pays_back
resolve_refund_amount_lem p authorized a n requested hs ha hn hp hb h =
    ground (arith, hs, ha, hn, remaining a n (omega arith) hb)
resolve_refund_amount_lem p refunded a n requested hs ha hn hp hb h =
    ground (arith, hs, ha, hn, remaining a n (omega arith) hb)
resolve_refund_amount_lem p requires_confirmation a n requested hs ha hn hp hb h =
    ground (arith, hs)
resolve_refund_amount_lem p failed a n requested hs ha hn hp hb h = ground (arith, hs)
resolve_refund_amount_lem p voided a n requested hs ha hn hp hb h = ground (arith, hs)

pays_back-bound :
    (applied : Bool) (st : PaymentStatus) (a n d : ℕ) (requested : ℤ)
    → Settled st n a
    → 0 < a
    → pays_back applied st a n requested ≡ ok d
    → n + d ≤ a
unfolding pays_back
pays_back-bound true authorized a n d requested h hp e = ground arith
pays_back-bound true refunded a n d requested h hp e = ground arith
pays_back-bound true requires_confirmation a n d requested h hp e = ground arith
pays_back-bound true failed a n d requested h hp e = ground arith
pays_back-bound true voided a n d requested h hp e = ground arith
pays_back-bound false authorized a n d requested h hp e = ground arith
pays_back-bound false refunded a n d requested h hp e = ground arith
pays_back-bound false requires_confirmation a n d requested h hp e = ground arith
pays_back-bound false failed a n d requested h hp e = ground arith
pays_back-bound false voided a n d requested h hp e = ground arith

status_stays :
    (st : PaymentStatus) (n a : ℕ)
    → Settled st n a
    → 0 < a
    → (if leb_ℤ (pos a) (pos n) then refunded else st) ≡ st
status_stays authorized n a h hp = ground arith
status_stays refunded n a h hp = ground arith
status_stays requires_confirmation n a h hp = ground arith
status_stays failed n a h hp = ground arith
status_stays voided n a h hp = ground arith

-- Paying nothing back changes nothing.
paid_zero : (id : String) (p : Payment) (n k : ℕ) → Accounts id n k (some p) → paid p 0 ≡ p
unfolding paid
paid_zero id p n k (_, ha, hp, _, hn, _, h) =
    let total : p.refunded_cents +ℤ pos 0 ≡ pos n = grind int_laws in
    let stays = status_stays p.status n (pos_part p.amount_cents) h hp in
    ground (arith, total, ha, hn, stays)

-- What a refund of `d` cents writes: nothing at all for none, and else the payment's row, one row of
-- refunds under the key, and one event.
abbrev pub Writes : ℕ → String → String → Payment → Db → Db → Type 0
Writes zero id key p db db' = db' ≡ db
Writes (suc d) id key p db db' = db' ≡ record {
  payments = insert id (paid p (suc d)) db.payments;
  refunds =
      db.refunds ++ record { payment_id = id; amount_cents = suc d; idempotency_key = key } ∷ [];
  outbox = db.outbox ++ payment_refunded p.id p.order_id (money p.currency (pos (suc d))) ∷ [];
}

-- What a refund leaves: on an error the tables as they were, else `d` more cents paid back of the
-- payment, on its row, on the refund rows and in the events, by those writes and no others.
abbrev pub PaysBack :
    Outcome ℕ → String → String → String → Payment → Db → Db × Outcome Payment → Type 0
PaysBack (err e) id q key p db r = r ≡ (db, err e)
PaysBack (ok d) id q key p db r =
    (r.1 ≡ ok (paid p d))
    × (lookup q r.0.payments ≡ (if str_eq id q then some (paid p d) else lookup q db.payments))
    × (refunded_for q r.0.refunds ≡ refunded_for q db.refunds + (if str_eq id q then d else 0))
    × (announced q r.0.outbox ≡ announced q db.outbox + (if str_eq id q then d else 0))
    × Writes d id key p db r.0

settled_PaysBack :
    (id q key : String) (p : Payment) (db : Db) (k : ℕ)
    → lookup id db.payments ≡ some p
    → Accounts id (refunded_for id db.refunds) k (some p)
    → PaysBack (ok 0) id q key p db (db, ok p)
settled_PaysBack id q key p db k e h =
    let same = paid_zero id p (refunded_for id db.refunds) k h in
    (ground (arith, same), ground (arith, same, eq_iff id q), ground arith, ground arith, refl)

-- The sum of the cents stays in an int64.
total_id :
    (r : ℤ) (n d a : ℕ)
    → r ≡ pos n
    → n + d ≤ a
    → a < 9223372036854775808
    → int64 (r +ℤ pos d) ≡ r +ℤ pos d
total_id r n d a e b hb = rw (e, pos_add n d) (int64_pos (n + d) (omega arith))

unfoldable pub inserted : String → ℕ → String → Db → Db
inserted id n key db = record db {
  refunds = db.refunds ++ record { payment_id = id; amount_cents = n; idempotency_key = key } ∷ [];
}

insert_refund_lem :
    (id key : String) (d : ℕ) (db : Db)
    → refund_already_applied id key db ≡ false
    → insert_refund id (pos (suc d)) key db ≡ ok (inserted id (suc d) key db)
unfolding insert_refund inserted
insert_refund_lem id key d db fresh = ground (arith, fresh)

set_refunded-PaysBack :
    (id q key : String) (p : Payment) (db : Db) (d k : ℕ)
    → Accounts id (refunded_for id db.refunds) k (some p)
    → refunded_for id db.refunds + suc d ≤ pos_part p.amount_cents
    → let (p', db') = set_refunded id p (pos (suc d)) (inserted id (suc d) key db) in
      PaysBack (ok (suc d)) id q key p db (db', ok p')
unfolding set_refunded inserted paid announced
set_refunded-PaysBack id q key p db d k (hi, ha, hp, hb, hn, hk, h) b =
    let total = total_id p.refunded_cents (refunded_for id db.refunds) (suc d) _ hn b hb in
    rw total (
      refl,
      lookup-insert id q _ db.payments,
      refunded_for-append q db.refunds _,
      ground (
        arith,
        hi,
        announced-append q db.outbox
            (payment_refunded p.id p.order_id (money p.currency (pos (suc d))) ∷ []),
        cents_of-money p.currency (suc d),
      ),
      refl,
    )

-- What `Refund` returns and leaves, by the resolved amount.
unfoldable pub refund_of : Outcome ℕ → String → String → Payment → Db → Db × Outcome Payment
refund_of (err e) id key p db = (db, err e)
refund_of (ok zero) id key p db = (db, ok p)
refund_of (ok (suc d)) id key p db =
    let (p', db') = set_refunded id p (pos (suc d)) (inserted id (suc d) key db) in (db', ok p')

refund_used :
    (id key : String) (requested : ℤ) (p : Payment) (db : Db)
    → lookup id db.payments ≡ some p
    → refund_already_applied id key db ≡ true
    → refund id requested key db ≡ (db, ok p)
unfolding refund refund_tx transact load
refund_used id key requested p db el used = ground (arith, el, used)

-- `Refund` once the amount was resolved.
pub refund-resolved :
    (id key : String) (requested : ℤ) (p : Payment) (db : Db) (o : Outcome ℕ)
    → lookup id db.payments ≡ some p
    → refund_already_applied id key db ≡ false
    → resolve_refund_amount p requested ≡ resolved o
    → refund id requested key db ≡ refund_of o id key p db
unfolding refund refund_tx transact load refund_of
refund-resolved id key requested p db (err e) el fresh r = ground (arith, el, fresh, r)
refund-resolved id key requested p db (ok zero) el fresh r = ground (arith, el, fresh, r)
refund-resolved id key requested p db (ok (suc d)) el fresh r =
    let put = insert_refund_lem id key d db fresh in ground (arith, el, fresh, r, put)

PaysBack-by_case :
    (id q key : String) (requested : ℤ) (p : Payment) (db : Db) (k : ℕ) (o : Outcome ℕ)
    → lookup id db.payments ≡ some p
    → Accounts id (refunded_for id db.refunds) k (some p)
    → pays_back false p.status (pos_part p.amount_cents) (refunded_for id db.refunds) requested ≡ o
    → PaysBack o id q key p db (refund_of o id key p db)
unfolding refund_of
PaysBack-by_case id q key requested p db k (err e) el ac eo = refl
PaysBack-by_case id q key requested p db k (ok zero) el ac eo =
    settled_PaysBack id q key p db k el ac
PaysBack-by_case id q key requested p db k (ok (suc d)) el ac eo =
    let (hi, ha, hp, hb, hn, hk, h) = ac in
    set_refunded-PaysBack id q key p db d k ac
      (pays_back-bound false p.status _ _ (suc d) requested h hp eo)

-- For a payment whose rows agree, `Refund` does what the plain account says. With an idempotency key
-- that was used it succeeds and no table changes. Otherwise a payment that is neither AUTHORIZED nor
-- REFUNDED, or an amount above what is left, is an error of its own and changes nothing; anything
-- else pays back exactly the amount asked for, or all that is left where it is 0 or less: on the
-- payment's row, in the refund rows and in the events, of this payment alone, which becomes REFUNDED
-- when all of it was paid back, with one refund row under the key and one event as the only other
-- writes; and where that is 0 cents no table changes. No statement fails.
pub refund_exact :
    (id q key : String) (requested : ℤ) (p : Payment) (db : Db)
    → lookup id db.payments ≡ some p
    → Accounts id (refunded_for id db.refunds) (announced id db.outbox) (some p)
    → PaysBack
        (pays_back
          (refund_already_applied id key db)
          p.status
          (pos_part p.amount_cents)
          (refunded_for id db.refunds)
          requested)
        id
        q
        key
        p
        db
        (refund id requested key db)
unfolding pays_back
refund_exact id q key requested p db e ac = elim (Bool-cases (refund_already_applied id key db)) [
  | inl used ↦
      rw (used, refund_used id key requested p db e used)
        (settled_PaysBack id q key p db (announced id db.outbox) e ac)
  | inr fresh ↦
      let (hi, ha, hp, hb, hn, hk, h) = ac in
      let r = resolve_refund_amount_lem p p.status _ _ requested refl ha hn hp hb h in
      rw (fresh, refund-resolved id key requested p db _ e fresh r)
        (PaysBack-by_case id q key requested p db _ _ e ac refl)
]
