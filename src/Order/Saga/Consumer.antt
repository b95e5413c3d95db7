-- ===== src/Order/Saga/Consumer.antt =====
-- The handler of the order service's records (services/order/internal/consumer/consumer.go). What
-- proto.Unmarshal makes of a value is a parameter, and so is the decimal form of an integer.
use Prim.Native.String.{◌++◌ as append_text}
use commerce_platform.Common.{String, Bool, Option, none, some, if◌then◌else◌, str_eq, Outcome, ok}
use commerce_platform.Common.Int.{ℤ}
use commerce_platform.Kafka.{KafkaRecord}
use commerce_platform.Order.Saga.{Services, World}
use commerce_platform.Order.Saga.Events.{
  on_payment_authorized, on_payment_failed, on_reservation_expired, on_shipment_delivered,
}

-- What is read of the four messages.
pub record Decoder : Type 0 where
  pub payment_authorized : String → Option String
  pub payment_failed : String → Option (String × String)
  pub reservation_expired : String → Option String
  pub shipment_delivered : String → Option (String × String)

-- `fmt.Sprintf("%s:%d:%d", …)`: the coordinates of a record.
unfoldable pub event_id : (ℤ → String) → KafkaRecord → String
event_id format_int r =
    append_text r.topic (
      append_text ":"
        (append_text (format_int r.partition) (append_text ":" (format_int r.offset))))

-- A value that cannot be decoded is skipped.
abbrev pub unless_undecodable {ℓ} :
    {A : Type ℓ}
    → Option A
    → (A → World → World × Outcome (Unit {0}))
    → World
    → World × Outcome (Unit {0})
unless_undecodable none next w = (w, ok tt)
unless_undecodable (some a) next w = next a w

-- `Handler`.
unfoldable pub handle :
    (String → Bool)
    → Services
    → Decoder
    → (ℤ → String)
    → KafkaRecord
    → World
    → World × Outcome (Unit {0})
unfolding event_id
handle parse_uuid services decoder format_int r =
    let event = event_id format_int r in
    if str_eq r.topic "commerce.payment.authorized"
    then unless_undecodable (decoder.payment_authorized r.value)
        (λ order_id. on_payment_authorized parse_uuid services event order_id)
    else if str_eq r.topic "commerce.payment.failed"
    then unless_undecodable (decoder.payment_failed r.value)
        (λ (order_id, reason). on_payment_failed parse_uuid services event order_id reason)
    else if str_eq r.topic "commerce.inventory.reservation_expired"
    then unless_undecodable (decoder.reservation_expired r.value)
        (λ order_ref. on_reservation_expired parse_uuid services event order_ref)
    else if str_eq r.topic "commerce.fulfillment.delivered"
    then unless_undecodable (decoder.shipment_delivered r.value)
        (λ (order_id, shop_id). on_shipment_delivered parse_uuid services event order_id shop_id)
    else (λ w. (w, ok tt))
