-- ===== src/Order/Saga/Checkout.antt =====
-- `CreateOrder` of services/order/internal/saga/saga.go, in its stages. SHA-256 and `FormatInt` are
-- parameters; the order's id and the time are drawn.
pub mod Rows
pub mod Undoing
pub mod Accounts
use Prim.Native.Char.{code}
use Prim.Native.String.{String as Text}
use commerce_platform.Common.{
  ℕ, ◌+◌, String, Bool, true, false, not, Option, none, some, List, [], ◌∷◌, if◌then◌else◌, ltb,
  leb, ◌==◌, str_eq, Outcome, ok, err, Error, new_error, ◌>>=◌, ◌>>◌, reject_if, unauthenticated,
  invalid_argument, conflict, unavailable, failed_precondition,
}
use commerce_platform.Common.Int.{ℤ, pos, ◌+ℤ◌, ◌*ℤ◌, ◌/ℤ◌, int64}
use commerce_platform.Order.{Order, Line, Address, Money, pending_payment}
use commerce_platform.Order.Store.{Db, MoneyMessage, get}
use commerce_platform.Order.Keys.{
  Keys, Claim, ClaimResult, claim, claimed, busy, answered, key_reused, claim_key, release_key,
  fingerprint_of, insert_with_key,
}
use commerce_platform.Order.Saga.{
  CartItem, QuoteLine, Quote, Services, World, cart_read, priced, reserved, payment_opened,
  cart_cleared, called, succeeded, compensate_release, compensate_void,
}

pub record CreateInput : Type 0 where
  pub owner_id : String
  pub cart_id : String
  pub currency : String
  pub coupon_code : String
  pub method_token : String
  pub ship_to : Address
  pub idempotency_key : String

pub record CreateResult : Type 0 where
  pub order : Order
  pub payment_secret : String
  pub replayed : Bool

-- `len` of a text: its bytes in UTF-8.
abbrev char_length : ℕ → ℕ
char_length c = if ltb c 128 then 1 else if ltb c 2048 then 2 else if ltb c 65536 then 3 else 4

unfoldable pub byte_length : String → ℕ
byte_length Text.[] = 0
byte_length (Text.◌∷◌ c s) = char_length (code c) + byte_length s

unfoldable pub currency_or_usd : String → String
unfolding byte_length
currency_or_usd c = if byte_length c == 3 then c else "USD"

-- `moneyFrom`.
unfoldable pub money_from : MoneyMessage → Money
money_from m = record {
  currency = m.currency_code;
  cents = int64 (int64 (m.units *ℤ pos 100) +ℤ m.nanos /ℤ 10000000);
}

unfoldable pub lines_from_quote : List QuoteLine → List Line
unfolding money_from
lines_from_quote [] = []
lines_from_quote (l ∷ ls) =
    record {
      product_id = l.product_id;
      title = l.title;
      quantity = l.quantity;
      unit_price = money_from l.unit_price;
      line_total = money_from l.line_total;
      shop_id = l.shop_id;
    }
    ∷ lines_from_quote ls

-- `reservationTTL`, in seconds.
abbrev pub reservation_ttl : ℕ
reservation_ttl = 900

unfoldable pub order_of : String → CreateInput → Quote → String → String → Order
unfolding lines_from_quote money_from
order_of id input quote payment_id reservation_id = record {
  id = id;
  owner_id = input.owner_id;
  status = pending_payment;
  lines = lines_from_quote quote.lines;
  subtotal = money_from quote.subtotal;
  discount = money_from quote.discount;
  tax = money_from quote.tax;
  total = money_from quote.total;
  ship_to = input.ship_to;
  cart_id = input.cart_id;
  coupon_code = quote.coupon_code;
  payment_id = payment_id;
  reservation_id = reservation_id;
  pricing_signature = quote.pricing_signature;
  cancel_reason = "";
}

abbrev pub is_nil {ℓ} : {A : Type ℓ} → List A → Bool
is_nil [] = true
is_nil (x ∷ xs) = false

abbrev pub opened_id : Outcome (String × String) → Option String
opened_id (ok p) = some p.0
opened_id (err e) = none

abbrev pub reserved_id : Outcome String → Option String
reserved_id (ok r) = some r
reserved_id (err e) = none

-- Each step calls a service and goes on by its answer.
module _ (parse_uuid : String → Bool) (services : Services) where
  -- Step 6: the cart is cleared, whatever the answer.
  unfoldable pub clear_stage : CreateInput → Order → String → World → World × Outcome CreateResult
  clear_stage input o secret w =
      let answer = services.clear_cart w.calls input.cart_id in
      (
        called (cart_cleared input.cart_id (succeeded answer)) w,
        ok (record { order = o; payment_secret = secret; replayed = false }),
      )

  -- Step 5, once the order was inserted or not: on an error both compensations are made.
  unfoldable pub after_insert :
      CreateInput
      → Order
      → String
      → World
      → (Db × Keys) × Outcome (Unit {0})
      → World × Outcome CreateResult
  after_insert input o secret w (tables, err e) =
      let released = compensate_release parse_uuid services "" o.reservation_id w in
      (compensate_void parse_uuid services "" o.payment_id released, err e)
  after_insert input o secret w ((db, keys), ok _) =
      clear_stage input o secret (record w { db = db; keys = keys })

  unfoldable pub insert_stage : CreateInput → Order → String → World → World × Outcome CreateResult
  insert_stage input o secret w =
      after_insert input o secret w (insert_with_key o input.idempotency_key w.db w.keys)

  -- Step 4: on an error the reservation is released.
  unfoldable pub after_payment :
      CreateInput
      → String
      → Quote
      → String
      → World
      → Outcome (String × String)
      → World × Outcome CreateResult
  after_payment input id quote reservation_id w (err e) = (
    compensate_release parse_uuid services "" reservation_id w,
    err (new_error unavailable "PAYMENT_INIT_FAILED"),
  )
  after_payment input id quote reservation_id w (ok (payment_id, secret)) =
      insert_stage input (order_of id input quote payment_id reservation_id) secret w

  unfoldable pub payment_stage :
      CreateInput → String → Quote → String → World → World × Outcome CreateResult
  payment_stage input id quote reservation_id w =
      let answer = services.create_payment w.calls id quote.total input.method_token in
      after_payment input id quote reservation_id
        (called (payment_opened id quote.total (opened_id answer)) w) answer

  -- Step 3.
  unfoldable pub after_reserve :
      CreateInput → String → Quote → World → Outcome String → World × Outcome CreateResult
  after_reserve input id quote w (err e) = (w, err (new_error failed_precondition "RESERVE_FAILED"))
  after_reserve input id quote w (ok reservation_id) = payment_stage input id quote reservation_id w

  unfoldable pub reserve_stage :
      CreateInput → String → List CartItem → Quote → World → World × Outcome CreateResult
  reserve_stage input id items quote w =
      let answer = services.reserve w.calls id items reservation_ttl in
      after_reserve input id quote (called (reserved id items (reserved_id answer)) w) answer

  -- Step 2.
  unfoldable pub after_quote :
      CreateInput → String → List CartItem → World → Outcome Quote → World × Outcome CreateResult
  after_quote input id items w (err e) = (w, err (new_error failed_precondition "QUOTE_FAILED"))
  after_quote input id items w (ok quote) = reserve_stage input id items quote w

  unfoldable pub quote_stage :
      CreateInput → String → List CartItem → World → World × Outcome CreateResult
  quote_stage input id items w =
      let answer =
        services.quote_price w.calls items input.currency input.coupon_code input.ship_to in
      after_quote input id items (called (priced items (succeeded answer)) w) answer

  -- Step 1.
  unfoldable pub after_cart :
      CreateInput → String → World → Outcome (List CartItem) → World × Outcome CreateResult
  after_cart input id w (err e) = (w, err (new_error unavailable "CART_UNAVAILABLE"))
  after_cart input id w (ok items) =
      if is_nil items
      then (w, err (new_error failed_precondition "CART_EMPTY"))
      else quote_stage input id items w

  unfoldable pub cart_stage : CreateInput → String → World → World × Outcome CreateResult
  cart_stage input id w =
      let answer = services.get_cart w.calls input.cart_id in
      after_cart input id (called (cart_read input.cart_id (succeeded answer)) w) answer

  -- The deferred function: a checkout that failed gives its claim back.
  unfoldable pub release_claim :
      String → World × Outcome CreateResult → World × Outcome CreateResult
  release_claim key (w, ok r) = (w, ok r)
  release_claim key (w, err e) = (record w { keys = release_key key w.keys }, err e)

  -- An order that an earlier attempt with the key made.
  unfoldable pub replay_answer : World → Outcome Order → World × Outcome CreateResult
  replay_answer w (err e) = (w, err e)
  replay_answer w (ok o) = (w, ok (record { order = o; payment_secret = ""; replayed = true }))

  unfoldable pub replay : String → CreateInput → World → World × Outcome CreateResult
  replay order_id input w = replay_answer w (get parse_uuid order_id input.owner_id w.db)

  -- What is done with the answer to the claim.
  unfoldable pub claim_stage :
      CreateInput → String → World → ClaimResult → World × Outcome CreateResult
  claim_stage input id w key_reused = (w, err (new_error invalid_argument "IDEMPOTENCY_KEY_REUSED"))
  claim_stage input id w (claim busy) = (w, err (new_error conflict "CHECKOUT_IN_PROGRESS"))
  claim_stage input id w (claim claimed) =
      release_claim input.idempotency_key (cart_stage input id w)
  claim_stage input id w (claim (answered order_id)) =
      if str_eq order_id ""
      then release_claim input.idempotency_key (cart_stage input id w)
      else replay order_id input w

  module _ (digest : List String → String) (format_int : ℤ → String) where
    -- Step 0.
    unfoldable pub keyed_checkout : CreateInput → String → ℕ → World → World × Outcome CreateResult
    keyed_checkout input id now w =
        let print =
          fingerprint_of digest format_int input.owner_id input.cart_id input.currency
            input.coupon_code (pos 0) in
        let (keys, res) = claim_key now input.idempotency_key input.owner_id print w.keys in
        if str_eq input.idempotency_key ""
        then cart_stage input id w
        else claim_stage input id (record w { keys = keys }) res

    -- `CreateOrder`.
    unfoldable pub create_order : CreateInput → String → ℕ → World → World × Outcome CreateResult
    create_order input id now w =
        if str_eq input.owner_id ""
        then (w, err (new_error unauthenticated "NOT_AUTHENTICATED"))
        else if str_eq input.cart_id ""
        then (w, err (new_error invalid_argument "CART_ID_REQUIRED"))
        else keyed_checkout (record input { currency = currency_or_usd input.currency }) id now w
