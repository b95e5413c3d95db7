-- ===== src/Kafka/Tests.antt =====
-- Runs of the consumer on a handler that is down at first.
use commerce_platform.Common.{
  ◌≡◌, refl, ◌⊎◌, inr, ◌≤◌, true, false, some, List, [], ◌∷◌, arith, if◌then◌else◌, leb, length, ok,
  err, Error, new_error, unavailable,
}
use commerce_platform.Common.Int.{pos}
use commerce_platform.Kafka.{
  KafkaRecord, Effect, Surroundings, DeadLetter, configured, Poll, Group, run, handle_fetches,
}
use commerce_platform.Kafka.Delivery.{failed_poll_loses}
use commerce_platform.Kafka.Ending.{Ends, fetches_end}
use commerce_platform.Kafka.Outbox.{
  Message, Broker, Moment, inserted, tick, live, fresh, insert_row, drain_until_empty, drain_once,
  publish_rows, mark_published, unpublished,
}
use commerce_platform.Kafka.Outbox.Sequence.{InSequence, published_in_order}

abbrev first : KafkaRecord
first = record {
  topic = "commerce.payment.authorized";
  partition = pos 0;
  offset = pos 7;
  key = "o";
  value = "";
}

abbrev second : KafkaRecord
second = record first { offset = pos 8 }

abbrev down : Error
down = new_error unavailable "DOWN"

-- Down for the first four effects.
abbrev recovering : Surroundings
recovering = record {
  handler = λ w r. if leb 4 (length w) then ok tt else err down;
  publish = λ w r e. if leb 4 (length w) then ok tt else err down;
  ended = λ w. false;
}

abbrev config : DeadLetter
config = record { attempts = pos 2; backoff = pos 0; retryable = some (λ e. true) }

abbrev polls : List Poll
polls =
    record { failed = false; records = first ∷ second ∷ []; commits = false }
    ∷ record { failed = false; records = []; commits = true }
    ∷ []

abbrev group : Group
group =
    run (configured (some config)) recovering 5 polls
      (record { effects = []; polled = []; committed = [] })

recovers :
    (w : List Effect) (r : KafkaRecord) (e : Error)
    → 4 ≤ length w
    → (recovering.ended w ≡ true)
      ⊎ ((recovering.handler w r ≡ ok tt) × (recovering.publish w r e ≡ ok tt))
recovers w r e h = inr (ground (arith, h), ground (arith, h))

fetches_end_example :
    Ends (handle_fetches (configured (some config)) recovering 5 (first ∷ second ∷ []) [])
fetches_end_example =
    fetches_end (configured (some config)) recovering 4 recovers 4 (first ∷ second ∷ []) []
      (omega arith)

abbrev started : Group
started = record { effects = []; polled = []; committed = [] }

failed_poll_loses_example :
    let empty_poll : Poll = record { failed = false; records = []; commits = true } in
    let lost : Poll = record { failed = true; records = first ∷ []; commits = true } in
    let g = run (configured (some config)) recovering 5 (lost ∷ empty_poll ∷ []) started in
    (g.committed ≡ first ∷ []) × (g.effects ≡ [])
failed_poll_loses_example =
    failed_poll_loses (configured (some config)) recovering 5 (first ∷ []) true started refl

abbrev message : Message
message = record { topic = "commerce.order.created"; key = "o"; payload = "" }

-- A broker that takes one message only, and one that takes all.
abbrev short_broker : Broker
short_broker = record {
  publish = λ sent m. if leb 1 (length sent) then err down else ok tt;
  updates = true;
  ended = λ sent. false;
}

abbrev broker : Broker
broker = record short_broker { publish = λ sent m. ok tt }

abbrev moments : List Moment
moments =
    inserted message
    ∷ inserted (record message { payload = "2" })
    ∷ tick 4 short_broker
    ∷ inserted (record message { payload = "3" })
    ∷ tick 4 broker
    ∷ []

published_in_order_example : InSequence (live 2 moments fresh)
published_in_order_example = published_in_order 2 moments (tt, (tt, (refl, (tt, (refl, tt)))))

all_sent : length (live 2 moments fresh).sent ≡ 3
unfolding live insert_row drain_until_empty drain_once publish_rows mark_published unpublished
all_sent = refl
