-- ===== src/Order/Saga/Events/Delivery.antt =====
-- Events that are delivered again to the saga's handlers
-- (services/order/internal/saga/saga.go, with Apply of services/order/internal/store/store.go).
use commerce_platform.Common.{
  ◌≡◌, refl, ◌∙◌, String, Bool, false, none, some, List, str_eq, ok, err, Error,
}
use commerce_platform.Order.{Order, confirmed, confirm}
use commerce_platform.Order.Store.{apply}
use commerce_platform.Order.Paths.{Call, run}
use commerce_platform.Order.Redelivery.{redelivery}
use commerce_platform.Order.Saga.{Services, World, committed, called}
use commerce_platform.Order.Saga.Events.{
  commit_order, after_commit, commit_failed, applied, on_payment_authorized,
}

module _ (parse_uuid : String → Bool) (services : Services) where
  -- A commit that fails is the handler's error.
  commit_order-err :
      (o : Order) (w : World) (e : Error)
      → o.status ≡ confirmed
      → str_eq o.reservation_id "" ≡ false
      → services.commit w.calls o.reservation_id ≡ err e
      → commit_order parse_uuid services o w
        ≡ (called (committed o.reservation_id false) w, err commit_failed)
  unfolding commit_order after_commit
  commit_order-err o w e c named h = rw (c, named, h) refl

  -- What the handler does when `Apply` confirmed the order, and when it finds a duplicate.
  authorized_first :
      (event id : String) (o : Order) (w : World)
      → (apply parse_uuid id event confirm w.db).1 ≡ ok (some o)
      → on_payment_authorized parse_uuid services event id w
        ≡ commit_order parse_uuid services o
            (record w { db = (apply parse_uuid id event confirm w.db).0 })
  unfolding on_payment_authorized applied
  authorized_first event id o w h = rw h refl

  authorized_duplicate :
      (event id : String) (w : World)
      → apply parse_uuid id event confirm w.db ≡ (w.db, ok none)
      → on_payment_authorized parse_uuid services event id w ≡ (w, ok tt)
  unfolding on_payment_authorized applied
  authorized_duplicate event id w h = rw h refl

  -- An order that `Apply` confirms for a `PaymentAuthorized` event with an id, whose reservation the
  -- inventory then fails to commit: the handler returns COMMIT_FAILED, and when the event is delivered
  -- again, after any further history of calls of the store, it returns no error and changes nothing,
  -- no call of `Commit` included.
  pub commit_never_retried :
      (event id : String) (o : Order) (w : World) (e : Error) (cs : List Call)
      → str_eq event "" ≡ false
      → (apply parse_uuid id event confirm w.db).1 ≡ ok (some o)
      → o.status ≡ confirmed
      → str_eq o.reservation_id "" ≡ false
      → services.commit w.calls o.reservation_id ≡ err e
      → let first = on_payment_authorized parse_uuid services event id w in
        (first.1 ≡ err commit_failed)
        × (let later : World = record first.0 { db = run parse_uuid cs first.0.db } in
            on_payment_authorized parse_uuid services event id later ≡ (later, ok tt))
  commit_never_retried event id o w e cs named h c reserved failed =
      let w1 : World = record w { db = (apply parse_uuid id event confirm w.db).0 } in
      let first = authorized_first event id o w h ∙ commit_order-err o w1 e c reserved failed in
      let again = (redelivery parse_uuid event id id "" confirm confirm o w.db cs named h).0 in
      rw first (
        refl,
        authorized_duplicate event id
            (record (called (committed o.reservation_id false) w1) { db = run parse_uuid cs w1.db })
            again,
      )
