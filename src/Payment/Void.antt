-- ===== src/Payment/Void.antt =====
-- Histories of requests after a payment was voided: canTransition and Refund of
-- services/payment/internal/store/store.go, by the handlers of
-- services/payment/internal/grpcsvc/server.go.
use commerce_platform.Common.{
  ℕ, ◌≡◌, refl, ◌∙◌, String, Bool, true, false, some, List, [], ◌∷◌, ◌++◌, arith, str_eq, eq_iff,
  ok, err, Option-cases, Outcome-cases, Bool-cases, inl, inr,
}
use commerce_platform.Common.Table.{Table, lookup, insert, lookup-insert, lookup-insert_self}
use commerce_platform.Common.Int.{ℤ, pos, negsuc}
use commerce_platform.Payment.{
  Payment, PaymentStatus, RefundRow, Db, authorized, voided, can_transition, transition, set_status,
  create, insert_refund, set_refunded, refund, refund_tx, load, transact, resolve_refund_amount,
  refund_already_applied, has_refund, not_refundable, same_status,
}
use commerce_platform.Payment.Books.{transition_lem, transition_of, transition_missing}
use commerce_platform.Payment.Run.{Request, new_payment, create_new, create_taken, run}
use commerce_platform.Payment.Kept.{run_keeps}

-- A payment is voided, and no refund of it was made under a key.
abbrev Ended : String → String → Payment → Db → Type 0
Ended id key p db =
    (lookup id db.payments ≡ some (record p { status = voided }))
    × (refund_already_applied id key db ≡ false)

refused_when_voided :
    (id key : String) (requested : ℤ) (p : Payment) (db : Db)
    → Ended id key p db
    → refund id requested key db ≡ (db, err not_refundable)
unfolding refund refund_tx load transact resolve_refund_amount
refused_when_voided id key requested p db (e, fresh) = ground (arith, e, fresh)

-- A refund of a voided payment leaves the tables alone, whatever its key.
untouched :
    (id key : String) (requested : ℤ) (p : Payment) (db : Db)
    → lookup id db.payments ≡ some (record p { status = voided })
    → (refund id requested key db).0 ≡ db
unfolding refund refund_tx load transact resolve_refund_amount
untouched id key requested p db e = ground (arith, e)

has_refund-append :
    (id key : String) (rs : List RefundRow) (r : RefundRow)
    → str_eq r.payment_id id ≡ false
    → has_refund id key (rs ++ r ∷ []) ≡ has_refund id key rs
unfolding has_refund
has_refund-append id key [] r other = ground (arith, other)
has_refund-append id key (x ∷ rs) r other = ground (arith, has_refund-append id key rs r other)

moved-Ended :
    (same can : Bool) (id key i : String) (to : PaymentStatus) (reason : String) (p p' : Payment)
    (db : Db)
    → Ended id key p db
    → lookup i db.payments ≡ some p'
    → can_transition p'.status to ≡ can
    → Ended id key p (transition_of same can i p' to reason db).0
unfolding transition_of set_status can_transition refund_already_applied
moved-Ended true can id key i to reason p p' db en there c = en
moved-Ended false false id key i to reason p p' db en there c = en
moved-Ended false true id key i to reason p p' db (e, fresh) there c = (
  ground
      (arith, e, there, c, eq_iff i id, lookup-insert i id (record p' { status = to }) db.payments),
  fresh,
)

transition-Ended :
    (id key i : String) (to : PaymentStatus) (reason : String) (p : Payment) (db : Db)
    → Ended id key p db
    → Ended id key p (transition i to reason db).0
transition-Ended id key i to reason p db en = elim (Option-cases (lookup i db.payments)) [
  | inl none_there ↦ rw (transition_missing i to reason db none_there) en
  | inr (p', there) ↦
      rw (transition_lem i to reason p' db there)
        (moved-Ended _ _ id key i to reason p p' db en there refl)
]

elsewhere :
    (k j : String) (row : Payment) (t : Table Payment)
    → str_eq k j ≡ false
    → lookup j (insert k row t) ≡ lookup j t
elsewhere k j row t other = ground (arith, other, lookup-insert k j row t)

-- A refund of another payment.
other_refund-Ended :
    (id key i k : String) (z : ℤ) (p p' : Payment) (db db' : Db)
    → str_eq i id ≡ false
    → insert_refund i z k db ≡ ok db'
    → Ended id key p db
    → Ended id key p (set_refunded i p' z db').1
unfolding insert_refund set_refunded refund_already_applied
other_refund-Ended id key i k (negsuc n) p p' db db' other w (e, fresh) = absurd (ground (arith, w))
other_refund-Ended id key i k (pos n) p p' db db' other w (e, fresh) =
    let r : RefundRow = record { payment_id = i; amount_cents = n; idempotency_key = k } in
    let same : db' ≡ record db { refunds = db.refunds ++ r ∷ [] } = ground (arith, w) in
    rw same (
      elsewhere i id _ db.payments other ∙ e,
      ground (arith, fresh, has_refund-append id key db.refunds r other),
    )

refund-Ended :
    (id key i k : String) (amount : ℤ) (p : Payment) (db : Db)
    → Ended id key p db
    → Ended id key p (refund i amount k db).0
unfolding refund refund_tx load transact
refund-Ended id key i k amount p db (e, fresh) = elim (Bool-cases (str_eq i id)) [
  | inl same ↦
      let there : lookup i db.payments ≡ some (record p { status = voided }) =
        ground (arith, e, same, eq_iff i id) in
      rw (untouched i k amount p db there) (e, fresh)
  | inr other ↦ elim (Option-cases (lookup i db.payments)) [
    | inl h ↦ ground (arith, e, fresh, h)
    | inr (p', h) ↦ elim (Outcome-cases (resolve_refund_amount p' amount)) [
      | inr (x, r) ↦ ground (arith, e, fresh, h, r)
      | inl ((z, settled), r) ↦ elim (Outcome-cases (insert_refund i z k db)) [
        | inr (x, w) ↦ ground (arith, e, fresh, h, r, w)
        | inl (db', w) ↦
            let ended = other_refund-Ended id key i k z p p' db db' other w (e, fresh) in
            ground (arith, e, fresh, h, r, w, ended)
      ]
    ]
  ]
]

create-Ended :
    (id key i secret : String) (now : ℕ) (order_id : String) (amount : ℤ) (currency token : String)
    (p : Payment) (db : Db)
    → Ended id key p db
    → Ended id key p (create i secret now order_id amount currency token db).0
unfolding refund_already_applied
create-Ended id key i secret now order_id amount currency token p db (e, fresh) =
    elim (Option-cases (lookup i db.payments)) [
      | inl none_there ↦ rw (create_new i secret now order_id amount currency token db none_there) (
        ground (
          arith,
          e,
          none_there,
          eq_iff i id,
          lookup-insert i id (new_payment i secret now order_id amount currency token) db.payments,
        ),
        fresh,
      )
      | inr (p', there) ↦
          rw (create_taken i secret now order_id amount currency token p' db there) (e, fresh)
    ]

-- An AUTHORIZED payment can be voided however much of it was refunded: `Transition` succeeds and the
-- row keeps its refunded cents. After any further history of requests to the service, the row is
-- still that one, and each refund of the payment with a key that had not been used before it was
-- voided is refused as NOT_REFUNDABLE and changes nothing.
pub void_ends_refunds :
    (id key : String) (requested : ℤ) (p : Payment) (db : Db) (rs : List Request)
    → lookup id db.payments ≡ some p
    → p.status ≡ authorized
    → refund_already_applied id key db ≡ false
    → let (db', o) = transition id voided "" db in
      let later = run rs db' in
      (o ≡ ok (record p { status = voided }))
      × (lookup id later.payments ≡ some (record p { status = voided }))
      × (refund id requested key later ≡ (later, err not_refundable))
unfolding set_status transition_of can_transition refund_already_applied
void_ends_refunds id key requested p db rs e s fresh =
    let there = lookup-insert_self id (record p { status = voided }) db.payments in
    let moved : transition id voided "" db ≡ transition_of false true id p voided "" db =
      rw (transition_lem id voided "" p db e) (
        let same : same_status p.status voided ≡ false = ground (arith, s) in
        let can : can_transition p.status voided ≡ true = ground (arith, s) in
        rw (same, can) refl) in
    let ended =
      run_keeps (Ended id key p)
        (λ i secret now order_id amount currency token d.
          create-Ended id key i secret now order_id amount currency token p d)
        (λ i to reason d. transition-Ended id key i to reason p d)
        (λ i z k d. refund-Ended id key i k z p d) rs _ (there, fresh) in
    rw moved (refl, ended.0, refused_when_voided id key requested p _ ended)
