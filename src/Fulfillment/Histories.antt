-- ===== src/Fulfillment/Histories.antt =====
-- The events of a shipment follow its state machine, and an order has one shipment for each shop
-- (services/fulfillment/internal/store/store.go).
use commerce_platform.Common.{
  ◌≡◌, refl, sym, subst, inl, inr, ℕ, String, Bool, true, false, not, ◌&&◌, some, List, [], ◌∷◌,
  arith, if◌then◌else◌, str_eq, eq_iff, eq_refl, append_nil, Outcome, ok, err, Bool-cases,
  Option-cases, ◌>>=◌,
}
use commerce_platform.Order.{Address, contains}
use commerce_platform.Fulfillment.{
  ShipmentStatus, pending, shipped, delivered, cancelled, same_status, can_transition_to, Shipment,
  ShopItems, Db, has_group, find_shipment, insert_shipment, new_shipment, create_groups, committed,
  create_from_order, scan_one, change, written, update_rows, write_transition, after_change,
  after_scan, transition,
}
use commerce_platform.Fulfillment.Carrier.{
  AdvanceTarget, advance, advance_all, sweep, due_for_advance,
}
use commerce_platform.Fulfillment.Lives.{
  announced, Life, LifeOf, Told, OneEach, Sound, found_id, Life-step, Moved, change-eq-ok,
  announced-event_at, emitted_shipments,
}
use commerce_platform.Fulfillment.Rows.{
  find-update_rows_other, find-update_rows, OneEach-update_rows, insert_shipment-Sound,
}

abbrev SoundResult : Outcome (List Shipment × Db) → Type 0
SoundResult (ok (ss, db)) = Sound db
SoundResult (err e) = Unit

first-SoundResult :
    (s : Shipment) (x : Outcome (List Shipment × Db))
    → SoundResult x
    → SoundResult (x >>= λ (ss, db'). ok (s ∷ ss, db'))
first-SoundResult s (ok (ss, db)) h = h
first-SoundResult s (err e) h = tt

create_groups-Sound :
    (draw : List Shipment → String) (now : ℕ) (order_id owner_id : String) (to : Address)
    (gs : List ShopItems) (db : Db)
    → Sound db
    → SoundResult (create_groups draw now order_id owner_id to gs db)
unfolding create_groups new_shipment
create_groups-Sound draw now order_id owner_id to [] db h = h
create_groups-Sound draw now order_id owner_id to (g ∷ gs) db h =
    let s = new_shipment now (draw db.shipments) order_id owner_id to g in
    elim (Bool-cases (has_group order_id g.shop_id db.shipments)) [
      | inl e ↦ rw e (create_groups-Sound draw now order_id owner_id to gs db h)
      | inr new ↦ elim (Option-cases (find_shipment (draw db.shipments) db.shipments)) [
        | inr (t, e) ↦ rw (new, e) tt
        | inl free ↦
            rw (new, free)
              (first-SoundResult s
                (create_groups draw now order_id owner_id to gs (insert_shipment s db))
                (create_groups-Sound draw now order_id owner_id to gs (insert_shipment s db)
                  (insert_shipment-Sound s db refl free new h)))
      ]
    ]

committed-Sound :
    (db : Db) (x : Outcome (List Shipment × Db))
    → Sound db
    → SoundResult x
    → Sound (committed db x).0
committed-Sound db (ok (ss, db')) h r = r
committed-Sound db (err e) h r = h

create_from_order-Sound :
    (draw : List Shipment → String) (now : ℕ) (order_id owner_id : String) (to : Address)
    (gs : List ShopItems) (event : String) (db : Db)
    → Sound db
    → Sound (create_from_order draw now order_id owner_id to gs event db).0
unfolding create_from_order
create_from_order-Sound draw now order_id owner_id to gs event db h =
    let seen : Db = record db { processed_events = event ∷ db.processed_events } in
    elim (Bool-cases (not (str_eq event "") && contains event db.processed_events)) [
      | inl e ↦ rw e h
      | inr e ↦ rw e (elim (Bool-cases (str_eq event "")) [
        | inl n ↦ rw n (
            committed-Sound db (create_groups draw now order_id owner_id to gs db) h
              (create_groups-Sound draw now order_id owner_id to gs db h))
        | inr n ↦ rw n (
            committed-Sound db (create_groups draw now order_id owner_id to gs seen) h
              (create_groups-Sound draw now order_id owner_id to gs seen h))
      ])
    ]

-- The row that `Transition` reads.
scan_one-eq-ok :
    (parse_uuid : String → Bool) (id : String) (db : Db) (s : Shipment)
    → scan_one parse_uuid id db ≡ ok s
    → find_shipment id db.shipments ≡ some s
unfolding scan_one
scan_one-eq-ok parse_uuid id db s h = elim (Bool-cases (parse_uuid id)) [
  | inr e ↦ absurd (ground (arith, e, h))
  | inl e ↦ elim (Option-cases (find_shipment id db.shipments)) [
    | inl n ↦ absurd (ground (arith, e, n, h))
    | inr (t, f) ↦ ground (arith, e, f, h)
  ]
]

target_not_pending :
    (st to : ShipmentStatus) → can_transition_to st to ≡ true → same_status to pending ≡ false
unfolding can_transition_to
target_not_pending pending pending c = absurd (ground (arith, c))
target_not_pending shipped pending c = absurd (ground (arith, c))
target_not_pending delivered pending c = absurd (ground (arith, c))
target_not_pending cancelled pending c = absurd (ground (arith, c))
target_not_pending st shipped c = refl
target_not_pending st delivered c = refl
target_not_pending st cancelled c = refl

write_transition-Told :
    (now : ℕ) (s row : Shipment) (db : Db) (q : String)
    → find_shipment s.id db.shipments ≡ some row
    → can_transition_to row.status s.status ≡ true
    → Told s.id db
    → Told q db
    → Told q (write_transition now s db)
unfolding write_transition written
write_transition-Told now s row db q there can at told =
    let d : Db = record db { shipments = update_rows now s db.shipments } in
    let event = λ (i : String).
      announced-event_at i s.status s d (target_not_pending row.status s.status can) in
    elim (Bool-cases (str_eq s.id q)) [
      | inr e ↦
          rw
            (
              emitted_shipments s.status s d,
              event q,
              find-update_rows_other q now s db.shipments e,
              e,
            )
            (rw (append_nil (announced q db.outbox)) told)
      | inl e ↦
          let life : Life row.status (announced s.id db.outbox) =
            subst (λ x. LifeOf x (announced s.id db.outbox)) there at in
          subst (λ i. Told i (write_transition now s db)) ((eq_iff s.id q).0 e)
            (rw
              (
                emitted_shipments s.status s d,
                event s.id,
                find-update_rows now s row db.shipments there,
                eq_refl s.id,
              )
              (Life-step row.status s.status (announced s.id db.outbox) can life))
    ]

write_transition-Sound :
    (now : ℕ) (s row : Shipment) (db : Db)
    → find_shipment s.id db.shipments ≡ some row
    → can_transition_to row.status s.status ≡ true
    → Sound db
    → Sound (write_transition now s db)
unfolding write_transition
write_transition-Sound now s row db there can (o, told) =
    let d : Db = record db { shipments = update_rows now s db.shipments } in
    (
      rw (emitted_shipments s.status s d) (OneEach-update_rows now s db.shipments o),
      λ q. write_transition-Told now s row db q there can (told s.id) (told q),
    )

module _ (parse_uuid : String → Bool) where
  after_change-Sound :
      (now : ℕ) (to : ShipmentStatus) (row : Shipment) (db : Db) (x : Outcome Shipment)
      → find_shipment row.id db.shipments ≡ some row
      → ((s : Shipment) → x ≡ ok s → Moved to row s)
      → Sound db
      → Sound (after_change parse_uuid now db x).0
  after_change-Sound now to row db (err e) there moved h = h
  after_change-Sound now to row db (ok s) there moved h =
      let (same, st, can) = moved s refl in
      write_transition-Sound now s row db (rw same there) (rw st can) h

  after_scan-Sound :
      (next : Shipment → Db × Outcome Shipment) (db : Db) (x : Outcome Shipment)
      → ((s : Shipment) → x ≡ ok s → Sound (next s).0)
      → Sound db
      → Sound (after_scan next db x).0
  after_scan-Sound next db (err e) n h = h
  after_scan-Sound next db (ok s) n h = n s refl

  transition-Sound :
      (now : ℕ) (id : String) (to : ShipmentStatus) (carrier tracking reason : String) (db : Db)
      → Sound db
      → Sound (transition parse_uuid now id to carrier tracking reason db).0
  unfolding transition
  transition-Sound now id to carrier tracking reason db h =
      after_scan-Sound _ db (scan_one parse_uuid id db) changed h
    where
      changed :
          (s : Shipment)
          → scan_one parse_uuid id db ≡ ok s
          → Sound
              (if same_status s.status to
                then (db, ok s)
                else after_change parse_uuid now db (change to carrier tracking reason s)).0
      changed s e =
          let there = scan_one-eq-ok parse_uuid id db s e in
          let at = found_id id db.shipments s there in
          elim (Bool-cases (same_status s.status to)) [
            | inl b ↦ rw b h
            | inr b ↦ rw b (
                after_change-Sound now to s db (change to carrier tracking reason s)
                  (subst (λ i. find_shipment i db.shipments ≡ some s) (sym at) there)
                  (λ s' c. change-eq-ok to carrier tracking reason s s' b c) h)
          ]

  advance_all-Sound :
      (now : ℕ) (ts : List AdvanceTarget) (db : Db)
      → Sound db
      → Sound (advance_all parse_uuid now ts db)
  unfolding advance_all advance
  advance_all-Sound now [] db h = h
  advance_all-Sound now (t ∷ ts) db h =
      advance_all-Sound now ts (advance parse_uuid now t db)
        (transition-Sound now t.id t.to _ _ "" db h)

-- A call of the store, at a time; a sweep of the carrier makes several.
pub data Call : Type 0 where
  create_call : ℕ → String → String → Address → List ShopItems → String → Call
  transition_call : ℕ → String → ShipmentStatus → String → String → String → Call
  sweep_call : ℕ → ℕ → ℕ → Call

-- A history of calls, one transaction after the other.
module _ (parse_uuid : String → Bool) (draw : List Shipment → String) where
  unfoldable pub serve : Call → Db → Db
  serve (create_call now order_id owner_id to gs event) db =
      (create_from_order draw now order_id owner_id to gs event db).0
  serve (transition_call now id to carrier tracking reason) db =
      (transition parse_uuid now id to carrier tracking reason db).0
  serve (sweep_call now p s) db = sweep parse_uuid now p s db

  unfoldable pub run : List Call → Db → Db
  run [] db = db
  run (c ∷ cs) db = run cs (serve c db)

  run-Sound : (cs : List Call) (db : Db) → Sound db → Sound (run cs db)
  unfolding run serve sweep
  run-Sound [] db h = h
  run-Sound (create_call now order_id owner_id to gs event ∷ cs) db h =
      run-Sound cs (create_from_order draw now order_id owner_id to gs event db).0
        (create_from_order-Sound draw now order_id owner_id to gs event db h)
  run-Sound (transition_call now id to carrier tracking reason ∷ cs) db h =
      run-Sound cs (transition parse_uuid now id to carrier tracking reason db).0
        (transition-Sound parse_uuid now id to carrier tracking reason db h)
  run-Sound (sweep_call now p s ∷ cs) db h =
      run-Sound cs (sweep parse_uuid now p s db)
        (advance_all-Sound parse_uuid now (due_for_advance p s 100 db) db h)

  -- After any history of `CreateFromOrder`, `Transition` and sweeps of the carrier from empty tables,
  -- whatever ids are drawn, an order has at most one shipment for each shop, and the events that name
  -- an id are, in their order, the way of that shipment through its state machine to its status: it is
  -- created, shipped and delivered once, or cancelled once instead. An id without a shipment has none.
  pub shipments_follow_events :
      (cs : List Call) (id : String)
      → let db = run cs (record { shipments = []; processed_events = []; outbox = [] }) in
        OneEach db.shipments × Told id db
  unfolding find_shipment announced
  shipments_follow_events cs id =
      let (o, told) =
        run-Sound cs (record { shipments = []; processed_events = []; outbox = [] })
          (tt, λ q. refl) in
      (o, told id)
