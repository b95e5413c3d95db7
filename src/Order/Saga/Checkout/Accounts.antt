-- ===== src/Order/Saga/Checkout/Accounts.antt =====
-- What a checkout leaves behind at the other services: a reservation and a payment for its order, or
-- nothing that it did not ask to be undone.
use commerce_platform.Common.{
  ℕ, refl, ap, String, Bool, true, some, List, [], ◌∷◌, str_eq, Outcome, ok, err, Bool-cases, inl,
  inr,
}
use commerce_platform.Common.Int.{ℤ, pos}
use commerce_platform.Order.{Order}
use commerce_platform.Order.Store.{MoneyMessage, Db, get}
use commerce_platform.Order.Keys.{
  ClaimResult, claim, claimed, busy, answered, key_reused, claim_key, fingerprint_of,
}
use commerce_platform.Order.Saga.{
  CartItem, Quote, Services, World, Rpc, cart_read, priced, reserved, called, succeeded,
}
use commerce_platform.Order.Saga.Checkout.{
  CreateInput, CreateResult, reservation_ttl, payment_stage, after_reserve, reserve_stage,
  after_quote, quote_stage, after_cart, cart_stage, release_claim, replay, replay_answer,
  claim_stage, keyed_checkout, create_order, opened_id, reserved_id, currency_or_usd,
}
use commerce_platform.Order.Saga.Checkout.Rows.{
  open_reservations, open_payments, Leaves, Accounts, Named,
}
use commerce_platform.Order.Saga.Checkout.Undoing.{after_payment_lem}

module _ (parse_uuid : String → Bool) (services : Services)
    (reserve_answers : (cs : List Rpc) (ref : String) (items : List CartItem) (ttl : ℕ)
      → Named (reserved_id (services.reserve cs ref items ttl)))
    (payment_answers : (cs : List Rpc) (ref : String) (m : MoneyMessage) (token : String)
      → Named (opened_id (services.create_payment cs ref m token))) where
  after_reserve_lem :
      (input : CreateInput) (id : String) (items : List CartItem) (q : Quote) (rs ps : List String)
      (db : Db) (w : World) (answer : Outcome String)
      → Named (reserved_id answer)
      → Leaves rs ps db w
      → Accounts rs ps db (
          after_reserve parse_uuid services input id q
            (called (reserved id items (reserved_id answer)) w)
            answer)
  unfolding after_reserve payment_stage open_reservations open_payments
  after_reserve_lem input id items q rs ps db w (err e) named before = before
  after_reserve_lem input id items q rs ps db w (ok rid) named (hr, hp, hd) =
      let w' = called (reserved id items (some rid)) w in
      after_payment_lem parse_uuid services input id q rid rs ps db w'
        (services.create_payment w'.calls id q.total input.method_token) named
        (payment_answers w'.calls id q.total input.method_token) (ap (λ xs. rid ∷ xs) hr, hp, hd)

  after_quote_lem :
      (input : CreateInput) (id : String) (items : List CartItem) (rs ps : List String) (db : Db)
      (w : World) (answer : Outcome Quote)
      → Leaves rs ps db w
      → Accounts rs ps db (
          after_quote parse_uuid services input id items
            (called (priced items (succeeded answer)) w)
            answer)
  unfolding after_quote reserve_stage open_reservations open_payments
  after_quote_lem input id items rs ps db w (err e) before = before
  after_quote_lem input id items rs ps db w (ok q) before =
      let w' = called (priced items true) w in
      after_reserve_lem input id items q rs ps db w'
        (services.reserve w'.calls id items reservation_ttl)
        (reserve_answers w'.calls id items reservation_ttl) before

  after_cart_lem :
      (input : CreateInput) (id : String) (rs ps : List String) (db : Db) (w : World)
      (answer : Outcome (List CartItem))
      → Leaves rs ps db w
      → Accounts rs ps db (
          after_cart parse_uuid services input id
            (called (cart_read input.cart_id (succeeded answer)) w)
            answer)
  unfolding after_cart quote_stage open_reservations open_payments
  after_cart_lem input id rs ps db w (err e) before = before
  after_cart_lem input id rs ps db w (ok []) before = before
  after_cart_lem input id rs ps db w (ok (x ∷ xs)) before =
      let w' = called (cart_read input.cart_id true) w in
      after_quote_lem input id (x ∷ xs) rs ps db w'
        (services.quote_price w'.calls (x ∷ xs) input.currency input.coupon_code input.ship_to)
        before

  cart_stage_lem :
      (input : CreateInput) (id : String) (rs ps : List String) (db : Db) (w : World)
      → Leaves rs ps db w
      → Accounts rs ps db (cart_stage parse_uuid services input id w)
  unfolding cart_stage
  cart_stage_lem input id rs ps db w before =
      after_cart_lem input id rs ps db w (services.get_cart w.calls input.cart_id) before

  release_claim_lem :
      (key : String) (rs ps : List String) (db : Db) (r : World × Outcome CreateResult)
      → Accounts rs ps db r
      → Accounts rs ps db (release_claim parse_uuid services key r)
  unfolding release_claim
  release_claim_lem key rs ps db (w, ok r) a = a
  release_claim_lem key rs ps db (w, err e) a = a

  replay_answer_lem :
      (rs ps : List String) (db : Db) (w : World) (answer : Outcome Order)
      → Leaves rs ps db w
      → Accounts rs ps db (replay_answer parse_uuid services w answer)
  unfolding replay_answer
  replay_answer_lem rs ps db w (ok o) before = before
  replay_answer_lem rs ps db w (err e) before = before

  replay_lem :
      (order_id : String) (input : CreateInput) (rs ps : List String) (db : Db) (w : World)
      → Leaves rs ps db w
      → Accounts rs ps db (replay parse_uuid services order_id input w)
  unfolding replay
  replay_lem order_id input rs ps db w before =
      replay_answer_lem rs ps db w (get parse_uuid order_id input.owner_id w.db) before

  claim_stage_lem :
      (input : CreateInput) (id : String) (rs ps : List String) (db : Db) (w : World)
      (c : ClaimResult)
      → Leaves rs ps db w
      → Accounts rs ps db (claim_stage parse_uuid services input id w c)
  unfolding claim_stage
  claim_stage_lem input id rs ps db w key_reused before = before
  claim_stage_lem input id rs ps db w (claim busy) before = before
  claim_stage_lem input id rs ps db w (claim claimed) before =
      release_claim_lem input.idempotency_key rs ps db (cart_stage parse_uuid services input id w)
        (cart_stage_lem input id rs ps db w before)
  claim_stage_lem input id rs ps db w (claim (answered order_id)) before =
      elim (Bool-cases (str_eq order_id "")) [
        | inl e ↦ rw e (
            release_claim_lem input.idempotency_key rs ps db
              (cart_stage parse_uuid services input id w)
              (cart_stage_lem input id rs ps db w before))
        | inr e ↦ rw e (replay_lem order_id input rs ps db w before)
      ]

  keyed_checkout_lem :
      (digest : List String → String) (format_int : ℤ → String) (input : CreateInput) (id : String)
      (now : ℕ) (rs ps : List String) (db : Db) (w : World)
      → Leaves rs ps db w
      → Accounts rs ps db (keyed_checkout parse_uuid services digest format_int input id now w)
  unfolding keyed_checkout
  keyed_checkout_lem digest format_int input id now rs ps db w before =
      let print =
        fingerprint_of digest format_int input.owner_id input.cart_id input.currency
          input.coupon_code (pos 0) in
      let res = claim_key now input.idempotency_key input.owner_id print w.keys in
      elim (Bool-cases (str_eq input.idempotency_key "")) [
        | inl e ↦ rw e (cart_stage_lem input id rs ps db w before)
        | inr e ↦ rw e (claim_stage_lem input id rs ps db (record w { keys = res.0 }) res.1 before)
      ]

  -- When no id that `Reserve` or `CreatePayment` answers is empty: a call of `CreateOrder` that fails
  -- leaves the tables of orders as they were, and the same reservations that were made and not asked to
  -- be released, and payments that were opened and not asked to be voided. A call that
  -- succeeds without replaying an earlier order adds one reservation and one payment, those of the order
  -- that it answers, whose row is then in the table; a replay adds nothing.
  pub create_order_settles :
      (digest : List String → String) (format_int : ℤ → String) (input : CreateInput) (id : String)
      (now : ℕ) (w : World)
      → Accounts
          (open_reservations w.calls)
          (open_payments w.calls)
          w.db
          (create_order parse_uuid services digest format_int input id now w)
  unfolding create_order
  create_order_settles digest format_int input id now w =
      elim (Bool-cases (str_eq input.owner_id "")) [
        | inl e ↦ rw e (refl, refl, refl)
        | inr e ↦ elim (Bool-cases (str_eq input.cart_id "")) [
          | inl f ↦ rw (e, f) (refl, refl, refl)
          | inr f ↦
              rw (e, f)
                (keyed_checkout_lem digest format_int
                  (record input { currency = currency_or_usd input.currency }) id now
                  (open_reservations w.calls) (open_payments w.calls) w.db w (refl, refl, refl))
        ]
      ]
