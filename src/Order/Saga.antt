-- ===== src/Order/Saga.antt =====
-- The checkout saga (services/order/internal/saga/saga.go): the services it calls, what it keeps,
-- and its compensations with services/order/internal/store/compensation.go.
pub mod Checkout
pub mod Events
pub mod Sweeper
pub mod Refunding
pub mod Consumer
mod Tests
use commerce_platform.Common.{
  ℕ, String, Bool, true, false, not, ◌||◌, Option, none, some, List, [], ◌∷◌, if◌then◌else◌, str_eq,
  Outcome, ok, err, Error, ◌>>=◌, ◌>>◌, reject_if,
}
use commerce_platform.Common.Table.{Table, lookup, insert, has_row}
use commerce_platform.Common.Int.{ℤ}
use commerce_platform.Order.{Order, Address}
use commerce_platform.Order.Store.{Db, MoneyMessage, no_order}
use commerce_platform.Order.Keys.{Keys}
use commerce_platform.Order.Returns.{ReturnsDb}

pub record CartItem : Type 0 where
  pub product_id : String
  pub quantity : ℤ

pub record QuoteLine : Type 0 where
  pub product_id : String
  pub title : String
  pub quantity : ℤ
  pub shop_id : String
  pub unit_price : MoneyMessage
  pub line_total : MoneyMessage

pub record Quote : Type 0 where
  pub lines : List QuoteLine
  pub subtotal : MoneyMessage
  pub discount : MoneyMessage
  pub tax : MoneyMessage
  pub total : MoneyMessage
  pub coupon_code : String
  pub pricing_signature : String

-- A call of another service, with what it answered: the id, or whether it succeeded.
pub data Rpc : Type 0 where
  cart_read : String → Bool → Rpc
  priced : List CartItem → Bool → Rpc
  reserved : String → List CartItem → Option String → Rpc
  committed : String → Bool → Rpc
  released : String → Bool → Rpc
  payment_opened : String → MoneyMessage → Option String → Rpc
  voided : String → Bool → Rpc
  cart_cleared : String → Bool → Rpc
  refunded : String → MoneyMessage → String → Bool → Rpc
  restocked : String → ℤ → String → Bool → Rpc

-- The other services: what each answers to a request, after the calls that were made before.
pub record Services : Type 0 where
  pub get_cart : List Rpc → String → Outcome (List CartItem)
  pub quote_price : List Rpc → List CartItem → String → String → Address → Outcome Quote
  pub reserve : List Rpc → String → List CartItem → ℕ → Outcome String
  pub commit : List Rpc → String → Outcome (Unit {0})
  pub release : List Rpc → String → Outcome (Unit {0})
  pub create_payment : List Rpc → String → MoneyMessage → String → Outcome (String × String)
  pub void : List Rpc → String → Outcome (Unit {0})
  pub clear_cart : List Rpc → String → Outcome (Unit {0})
  pub refund : List Rpc → String → MoneyMessage → String → Outcome (Unit {0})
  pub adjust_stock : List Rpc → String → ℤ → String → Outcome (Unit {0})

-- The columns `reservation_released_at` and `payment_voided_at` of an order: are they set?
pub record Marks : Type 0 where
  pub reservation_released : Bool
  pub payment_voided : Bool

-- The order service's tables, and the calls that it has made, the last one first.
pub record World : Type 0 where
  pub db : Db
  pub keys : Keys
  pub marks : Table Marks
  pub returns : ReturnsDb
  pub calls : List Rpc

abbrev pub succeeded {ℓ} : {A : Type ℓ} → Outcome A → Bool
succeeded (ok a) = true
succeeded (err e) = false

abbrev pub called : Rpc → World → World
called c w = record w { calls = c ∷ w.calls }

abbrev pub marks_or_none : Option Marks → Marks
marks_or_none none = record { reservation_released = false; payment_voided = false }
marks_or_none (some m) = m

unfoldable pub marks_of : String → World → Marks
marks_of id w = marks_or_none (lookup id w.marks)

abbrev pub set_released : Marks → Marks
set_released m = record m { reservation_released = true }

abbrev pub set_voided : Marks → Marks
set_voided m = record m { payment_voided = true }

-- What `uuid.Parse` accepts is a parameter.
module _ (parse_uuid : String → Bool) where
  -- `MarkReservationReleased` and `MarkPaymentVoided`, with the change of the columns.
  unfoldable pub mark : (Marks → Marks) → String → World → World × Outcome (Unit {0})
  unfolding marks_of
  mark change id w =
      if not (parse_uuid id)
      then (w, err no_order)
      else if has_row id w.db.orders
      then (record w { marks = insert id (change (marks_of id w)) w.marks }, ok tt)
      else (w, ok tt)

  -- The end of `ReleaseReservation` and `VoidPayment`, after the call.
  unfoldable pub after_call :
      (Marks → Marks) → String → Outcome (Unit {0}) → World → World × Outcome (Unit {0})
  after_call change order_id (err e) w = (w, err e)
  after_call change order_id (ok _) w =
      if str_eq order_id "" then (w, ok tt) else mark change order_id w

  module _ (services : Services) where
    unfoldable pub release_reservation : String → String → World → World × Outcome (Unit {0})
    release_reservation order_id res_id w =
        let answer = services.release w.calls res_id in
        if str_eq res_id ""
        then (w, ok tt)
        else after_call set_released order_id answer (called (released res_id (succeeded answer)) w)

    unfoldable pub void_payment : String → String → World → World × Outcome (Unit {0})
    void_payment order_id payment_id w =
        let answer = services.void w.calls payment_id in
        if str_eq payment_id ""
        then (w, ok tt)
        else after_call set_voided order_id answer (called (voided payment_id (succeeded answer)) w)

    -- `compensateRelease` and `compensateVoid`: an error is only logged.
    unfoldable pub compensate_release : String → String → World → World
    compensate_release order_id res_id w = (release_reservation order_id res_id w).0

    unfoldable pub compensate_void : String → String → World → World
    compensate_void order_id payment_id w = (void_payment order_id payment_id w).0
