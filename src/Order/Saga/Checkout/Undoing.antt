-- ===== src/Order/Saga/Checkout/Undoing.antt =====
-- The compensations of a checkout, and its last stages
-- (services/order/internal/saga/saga.go).
use commerce_platform.Common.{
  ◌≡◌, refl, ◌∙◌, ap, String, Bool, false, none, some, List, ◌∷◌, arith, str_eq, eq_refl, Outcome,
  ok, err,
}
use commerce_platform.Order.{Order}
use commerce_platform.Order.Store.{Db}
use commerce_platform.Order.Keys.{Keys, insert_with_key}
use commerce_platform.Order.Saga.{
  Quote, Services, World, released, payment_opened, voided, called, succeeded, compensate_release,
  compensate_void, release_reservation, void_payment, after_call, Marks, set_released, set_voided,
}
use commerce_platform.Order.Saga.Checkout.{
  CreateInput, order_of, clear_stage, after_insert, insert_stage, after_payment, opened_id,
}
use commerce_platform.Order.Saga.Checkout.Rows.{
  removed, open_reservations, open_payments, Leaves, Accounts, Stored, Named, insert_with_key_lem,
}

removed_first : (x : String) (xs : List String) → removed x (x ∷ xs) ≡ xs
removed_first x xs = ground (arith, eq_refl x)

module _ (parse_uuid : String → Bool) (services : Services) where
  -- Outside the tables: a checkout's order has no row yet, so its compensations set no column.
  after_call_lem :
      (change : Marks → Marks) (answer : Outcome (Unit {0})) (w : World)
      → (after_call parse_uuid change "" answer w).0 ≡ w
  unfolding after_call
  after_call_lem change (ok u) w = refl
  after_call_lem change (err e) w = refl

  release_reservation_lem :
      (order_id rid : String) (w : World)
      → str_eq rid "" ≡ false
      → release_reservation parse_uuid services order_id rid w
        ≡ after_call parse_uuid set_released order_id
            (services.release w.calls rid)
            (called (released rid (succeeded (services.release w.calls rid))) w)
  unfolding release_reservation
  release_reservation_lem order_id rid w named = ground (arith, named)

  compensate_release_calls :
      (rid : String) (w : World)
      → str_eq rid "" ≡ false
      → compensate_release parse_uuid services "" rid w
        ≡ called (released rid (succeeded (services.release w.calls rid))) w
  unfolding compensate_release
  compensate_release_calls rid w named =
      ap (λ x. x.0) (release_reservation_lem "" rid w named)
      ∙ after_call_lem set_released (services.release w.calls rid)
          (called (released rid (succeeded (services.release w.calls rid))) w)

  void_payment_lem :
      (order_id pid : String) (w : World)
      → str_eq pid "" ≡ false
      → void_payment parse_uuid services order_id pid w
        ≡ after_call parse_uuid set_voided order_id
            (services.void w.calls pid)
            (called (voided pid (succeeded (services.void w.calls pid))) w)
  unfolding void_payment
  void_payment_lem order_id pid w named = ground (arith, named)

  compensate_void_calls :
      (pid : String) (w : World)
      → str_eq pid "" ≡ false
      → compensate_void parse_uuid services "" pid w
        ≡ called (voided pid (succeeded (services.void w.calls pid))) w
  unfolding compensate_void
  compensate_void_calls pid w named =
      ap (λ x. x.0) (void_payment_lem "" pid w named)
      ∙ after_call_lem set_voided (services.void w.calls pid)
          (called (voided pid (succeeded (services.void w.calls pid))) w)

  -- A compensation of a checkout asks once, and changes nothing else.
  compensate_release_lem :
      (rid : String) (rs ps : List String) (db : Db) (w : World)
      → str_eq rid "" ≡ false
      → Leaves (rid ∷ rs) ps db w
      → Leaves rs ps db (compensate_release parse_uuid services "" rid w)
  unfolding open_reservations open_payments
  compensate_release_lem rid rs ps db w named (hr, hp, hd) =
      rw (compensate_release_calls rid w named) (rw hr (removed_first rid rs), hp, hd)

  compensate_void_lem :
      (pid : String) (rs ps : List String) (db : Db) (w : World)
      → str_eq pid "" ≡ false
      → Leaves rs (pid ∷ ps) db w
      → Leaves rs ps db (compensate_void parse_uuid services "" pid w)
  unfolding open_reservations open_payments
  compensate_void_lem pid rs ps db w named (hr, hp, hd) =
      rw (compensate_void_calls pid w named) (hr, rw hp (removed_first pid ps), hd)

  -- The answer of `Reserve` and of `CreatePayment` is a name.
  after_insert_lem :
      (input : CreateInput) (o : Order) (secret : String) (rs ps : List String) (db : Db)
      (w : World) (r : (Db × Keys) × Outcome (Unit {0}))
      → Stored o r
      → str_eq o.reservation_id "" ≡ false
      → str_eq o.payment_id "" ≡ false
      → Leaves (o.reservation_id ∷ rs) (o.payment_id ∷ ps) db w
      → Accounts rs ps db (after_insert parse_uuid services input o secret w r)
  unfolding after_insert clear_stage open_reservations open_payments
  after_insert_lem input o secret rs ps db w (tables, err e) s named_r named_p before =
      compensate_void_lem o.payment_id rs ps db
        (compensate_release parse_uuid services "" o.reservation_id w) named_p
        (compensate_release_lem o.reservation_id rs (o.payment_id ∷ ps) db w named_r before)
  after_insert_lem input o secret rs ps db w ((db', keys), ok u) s named_r named_p (hr, hp, hd) =
      (hr, hp, s)

  pub after_payment_lem :
      (input : CreateInput) (id : String) (q : Quote) (rid : String) (rs ps : List String) (db : Db)
      (w : World) (answer : Outcome (String × String))
      → str_eq rid "" ≡ false
      → Named (opened_id answer)
      → Leaves (rid ∷ rs) ps db w
      → Accounts rs ps db (
          after_payment parse_uuid services input id q rid
            (called (payment_opened id q.total (opened_id answer)) w)
            answer)
  unfolding after_payment insert_stage open_reservations open_payments order_of
  after_payment_lem input id q rid rs ps db w (err e) named_r named_p before =
      compensate_release_lem rid rs ps db (called (payment_opened id q.total none) w) named_r before
  after_payment_lem input id q rid rs ps db w (ok (pid, secret)) named_r named_p (hr, hp, hd) =
      after_insert_lem input (order_of id input q pid rid) secret rs ps db
        (called (payment_opened id q.total (some pid)) w)
        (insert_with_key (order_of id input q pid rid) input.idempotency_key w.db w.keys)
        (insert_with_key_lem (order_of id input q pid rid) input.idempotency_key w.db w.keys)
        named_r named_p (hr, ap (λ xs. pid ∷ xs) hp, hd)
