-- ===== src/Payment/Kept.antt =====
-- Induction on a history of requests to services/payment/internal/grpcsvc/server.go, for a statement
-- on the tables, from the methods of the store.
use commerce_platform.Common.{
  ℕ, String, Bool, true, false, List, [], ◌∷◌, if◌then◌else◌, str_eq, Outcome, ok, err,
  Outcome-cases, inl, inr,
}
use commerce_platform.Common.Int.{ℤ, pos, leb_ℤ, ltb_ℤ}
use commerce_platform.Payment.{PaymentStatus, Payment, Db, voided, create, transition, refund, get}
use commerce_platform.Payment.Server.{
  PaymentMessage, ConfirmOutcome, reply, cents_from, create_payment, confirm_payment,
  refund_payment, void_payment, confirm_target,
}
use commerce_platform.Payment.Run.{
  Request, create_request, confirm_request, refund_request, void_request, serve, run, target_reply,
  reply-tables, confirm_found, confirm_missing,
}

module _ {ℓ} (P : Db → Type ℓ)
    (create-P : (i secret : String) (now : ℕ) (order_id : String) (amount : ℤ)
        (currency token : String) (db : Db)
      → P db
      → P (create i secret now order_id amount currency token db).0)
    (transition-P : (i : String) (to : PaymentStatus) (reason : String) (db : Db)
      → P db
      → P (transition i to reason db).0)
    (refund-P : (i : String) (z : ℤ) (k : String) (db : Db) → P db → P (refund i z k db).0) where
  reply-P : (s : Bool) (r : Db × Outcome Payment) → P r.0 → P (reply s r).0
  reply-P s r h = rw (reply-tables s r) h

  test-P :
      (test : Bool) (x y : Db × Outcome PaymentMessage)
      → P x.0
      → P y.0
      → P (if test then x else y).0
  test-P true x y hx hy = hx
  test-P false x y hx hy = hy

  target_reply-P :
      (i : String) (o : Outcome (PaymentStatus × String)) (db : Db)
      → P db
      → P (target_reply i o db).0
  unfolding target_reply
  target_reply-P i (err e) db h = h
  target_reply-P i (ok (to, reason)) db h = reply-P false _ (transition-P i to reason db h)

  confirm-P :
      (i : String) (outcome : ConfirmOutcome) (db : Db) → P db → P (confirm_payment i outcome db).0
  confirm-P i outcome db h = elim (Outcome-cases (get i db)) [
    | inl (p, e) ↦
        rw (confirm_found i outcome db p e)
          (target_reply-P i (confirm_target outcome p.method_token) db h)
    | inr (e, m) ↦ rw (confirm_missing i outcome db e m) h
  ]

  serve-P : (r : Request) (db : Db) → P db → P (serve r db)
  unfolding serve create_payment refund_payment void_payment
  serve-P (create_request i secret now order_id amount token) db h =
      test-P (str_eq order_id "") _ _ h (
        test-P (leb_ℤ (cents_from amount) (pos 0)) _ _ h
          (reply-P true _ (create-P i secret now order_id _ amount.currency_code token db h)))
  serve-P (confirm_request i outcome) db h = confirm-P i outcome db h
  serve-P (refund_request i amount k) db h =
      test-P (ltb_ℤ (cents_from amount) (pos 0)) _ _ h
        (reply-P false _ (refund-P i (cents_from amount) k db h))
  serve-P (void_request i) db h = reply-P false _ (transition-P i voided "" db h)

  pub run_keeps : (rs : List Request) (db : Db) → P db → P (run rs db)
  unfolding run
  run_keeps [] db h = h
  run_keeps (r ∷ rs) db h = run_keeps rs (serve r db) (serve-P r db h)
