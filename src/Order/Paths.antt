-- ===== src/Order/Paths.antt =====
-- The events of an order follow its state machine, in any history of the store.
use commerce_platform.Common.{refl, String, Bool, List, [], ◌∷◌, Outcome}
use commerce_platform.Common.Table.{lookup}
use commerce_platform.Order.{Order, pending_payment, confirm, cancel}
use commerce_platform.Order.Store.{
  Db, apply, apply_tx, apply_shipment_delivered, delivered_tx, insert_order,
}
use commerce_platform.Order.Trails.{
  trail, Agrees, Lawful, confirm-Lawful, cancel-Lawful, expire, expire-Lawful,
}
use commerce_platform.Order.Steps.{apply_tx-Agrees, deduped-Agrees}
use commerce_platform.Order.Methods.{delivered_tx-Agrees, insert_order-Agrees}

-- What the saga asks of the store.
pub data Call : Type 0 where
  insert_call : Order → Call
  confirm_call : String → String → Call
  cancel_call : String → String → String → Call
  expire_call : String → String → Call
  delivered_call : String → String → String → Call

module _ (parse_uuid : String → Bool) where
  unfoldable pub serve : Call → Db → Db
  serve (insert_call o) db = (insert_order (record o { status = pending_payment }) db).0
  serve (confirm_call id event) db = (apply parse_uuid id event confirm db).0
  serve (cancel_call id event reason) db = (apply parse_uuid id event (cancel reason) db).0
  serve (expire_call id event) db = (apply parse_uuid id event expire db).0
  serve (delivered_call id shop event) db = (apply_shipment_delivered parse_uuid id shop event db).0

  unfoldable pub run : List Call → Db → Db
  unfolding serve
  run [] db = db
  run (c ∷ cs) db = run cs (serve c db)

  apply-Agrees :
      (q id event : String) (change : Order → Outcome Order) (db : Db)
      → ((o : Order) → Lawful o (change o))
      → ((i : String) → Agrees i db)
      → Agrees q (apply parse_uuid id event change db).0
  unfolding apply
  apply-Agrees q id event change db law b =
      deduped-Agrees q event (apply_tx parse_uuid id change) db
        (λ d x h bd. apply_tx-Agrees parse_uuid q id change d x law h bd) b

  serve-Agrees :
      (c : Call) (db : Db) → ((i : String) → Agrees i db) → (q : String) → Agrees q (serve c db)
  unfolding serve apply_shipment_delivered
  serve-Agrees (insert_call o) db b q = insert_order-Agrees q _ db refl b
  serve-Agrees (confirm_call id event) db b q =
      apply-Agrees q id event confirm db (λ o. confirm-Lawful o o.status refl) b
  serve-Agrees (cancel_call id event reason) db b q =
      apply-Agrees q id event (cancel reason) db (λ o. cancel-Lawful reason o o.status refl) b
  serve-Agrees (expire_call id event) db b q =
      apply-Agrees q id event expire db (λ o. expire-Lawful o o.status refl) b
  serve-Agrees (delivered_call id shop event) db b q =
      deduped-Agrees q event (delivered_tx parse_uuid id shop) db
        (λ d x h bd. delivered_tx-Agrees parse_uuid q id shop d x h bd) b

  run-Agrees :
      (cs : List Call) (db : Db)
      → ((i : String) → Agrees i db)
      → (q : String) → Agrees q (run cs db)
  unfolding run
  run-Agrees [] db b q = b q
  run-Agrees (c ∷ cs) db b q = run-Agrees cs (serve c db) (serve-Agrees c db b) q

unfoldable pub empty : Db
empty = record {
  orders = [];
  order_lines = [];
  processed_events = [];
  deliveries = [];
  outbox = [];
}

empty-Agrees : (q : String) → Agrees q empty
unfolding empty trail lookup
empty-Agrees q = refl

-- After any history of insertions, confirmations, cancellations, expiries and deliveries, repeated
-- and failing ones included, that begins with empty tables, the events in the outbox that name an
-- order are, in their order, exactly one way through the state machine to the status of its row:
-- created, then confirmed and then fulfilled or cancelled, or cancelled at once, each at most once;
-- and no event names an order that is not there.
pub events_follow_status :
    (parse_uuid : String → Bool) (cs : List Call) (q : String) → Agrees q (run parse_uuid cs empty)
events_follow_status parse_uuid cs q = run-Agrees parse_uuid cs empty empty-Agrees q
