-- ===== src/Fulfillment/Lives.antt =====
-- What the events of a shipment announce, and the change of a status
-- (services/fulfillment/internal/domain/shipment.go).
use commerce_platform.Common.{
  ◌≡◌, refl, sym, ap, ◌∙◌, ◌⊎◌, inl, inr, String, true, false, Option, none, some, List, [], ◌∷◌,
  ◌++◌, arith, if◌then◌else◌, str_eq, eq_iff, ok, Bool-cases,
}
use commerce_platform.Fulfillment.{
  ShipmentStatus, pending, shipped, delivered, cancelled, same_status, can_transition_to, Shipment,
  ShipmentEvent, shipment_created, shipment_shipped, shipment_delivered, shipment_cancelled, Db,
  has_group, find_shipment, change, mark_shipped, mark_delivered, cancel, event_at, emitted,
}

-- The statuses that the events of a shipment announce, in their order.
unfoldable pub announced : String → List ShipmentEvent → List ShipmentStatus
announced id [] = []
announced id (shipment_created i o w p ∷ es) =
    let rest = announced id es in if str_eq i id then pending ∷ rest else rest
announced id (shipment_shipped i o w c t p ∷ es) =
    let rest = announced id es in if str_eq i id then shipped ∷ rest else rest
announced id (shipment_delivered i o w p ∷ es) =
    let rest = announced id es in if str_eq i id then delivered ∷ rest else rest
announced id (shipment_cancelled i o w r p ∷ es) =
    let rest = announced id es in if str_eq i id then cancelled ∷ rest else rest

-- What was announced of a shipment that is in a status.
abbrev pub Life : ShipmentStatus → List ShipmentStatus → Type 0
Life pending es = es ≡ pending ∷ []
Life shipped es = es ≡ pending ∷ shipped ∷ []
Life delivered es = es ≡ pending ∷ shipped ∷ delivered ∷ []
Life cancelled es = (es ≡ pending ∷ cancelled ∷ []) ⊎ (es ≡ pending ∷ shipped ∷ cancelled ∷ [])

-- Nothing is announced of a shipment that is not there.
abbrev pub LifeOf : Option Shipment → List ShipmentStatus → Type 0
LifeOf none es = es ≡ []
LifeOf (some s) es = Life s.status es

abbrev pub Told : String → Db → Type 0
Told id db = LifeOf (find_shipment id db.shipments) (announced id db.outbox)

abbrev pub OneEach : List Shipment → Type 0
OneEach [] = Unit
OneEach (s ∷ ss) = (has_group s.order_id s.shop_id ss ≡ false) × OneEach ss

abbrev pub Sound : Db → Type 0
Sound db = OneEach db.shipments × ((id : String) → Told id db)

pub announced-append :
    (id : String) (xs ys : List ShipmentEvent)
    → announced id (xs ++ ys) ≡ announced id xs ++ announced id ys
unfolding announced
announced-append id [] ys = refl
announced-append id (shipment_created i o w p ∷ xs) ys = ground (arith, announced-append id xs ys)
announced-append id (shipment_shipped i o w c t p ∷ xs) ys =
    ground (arith, announced-append id xs ys)
announced-append id (shipment_delivered i o w p ∷ xs) ys = ground (arith, announced-append id xs ys)
announced-append id (shipment_cancelled i o w r p ∷ xs) ys =
    ground (arith, announced-append id xs ys)

pub find-append :
    (id : String) (ss : List Shipment) (s : Shipment)
    → find_shipment id ss ≡ none
    → find_shipment id (ss ++ s ∷ []) ≡ (if str_eq s.id id then some s else none)
unfolding find_shipment
find-append id [] s h = refl
find-append id (t ∷ ss) s h = elim (Bool-cases (str_eq t.id id)) [
  | inl e ↦ absurd (ground (arith, e, h))
  | inr e ↦ rw e (find-append id ss s (ground (arith, e, h)))
]

pub find-append_other :
    (id : String) (ss : List Shipment) (s : Shipment)
    → str_eq s.id id ≡ false
    → find_shipment id (ss ++ s ∷ []) ≡ find_shipment id ss
unfolding find_shipment
find-append_other id [] s h = rw h refl
find-append_other id (t ∷ ss) s h = elim (Bool-cases (str_eq t.id id)) [
  | inl e ↦ rw e refl
  | inr e ↦ rw e (find-append_other id ss s h)
]

pub found_id :
    (id : String) (ss : List Shipment) (s : Shipment) → find_shipment id ss ≡ some s → s.id ≡ id
unfolding find_shipment
found_id id [] s h = absurd (ground (arith, h))
found_id id (t ∷ ss) s h = elim (Bool-cases (str_eq t.id id)) [
  | inl e ↦
      let same : t ≡ s = ground (arith, e, h) in ap (λ x. x.id) (sym same) ∙ (eq_iff t.id id).0 e
  | inr e ↦ found_id id ss s (ground (arith, e, h))
]

pub Life-step :
    (st to : ShipmentStatus) (es : List ShipmentStatus)
    → can_transition_to st to ≡ true
    → Life st es
    → Life to (es ++ to ∷ [])
unfolding can_transition_to
Life-step pending shipped es c h = ap (λ t. t ++ shipped ∷ []) h
Life-step pending cancelled es c h = inl (ap (λ t. t ++ cancelled ∷ []) h)
Life-step pending pending es c h = absurd (ground (arith, c))
Life-step pending delivered es c h = absurd (ground (arith, c))
Life-step shipped delivered es c h = ap (λ t. t ++ delivered ∷ []) h
Life-step shipped cancelled es c h = inr (ap (λ t. t ++ cancelled ∷ []) h)
Life-step shipped pending es c h = absurd (ground (arith, c))
Life-step shipped shipped es c h = absurd (ground (arith, c))
Life-step delivered to es c h = absurd (ground (arith, c))
Life-step cancelled to es c h = absurd (ground (arith, c))

status-cases :
    (st : ShipmentStatus) → (st ≡ pending) ⊎ (st ≡ shipped) ⊎ (st ≡ delivered) ⊎ (st ≡ cancelled)
status-cases pending = inl refl
status-cases shipped = inr (inl refl)
status-cases delivered = inr (inr (inl refl))
status-cases cancelled = inr (inr (inr refl))

-- The change of `Transition` follows the state machine, and keeps the keys.
abbrev pub Moved : ShipmentStatus → Shipment → Shipment → Type 0
Moved to s s' = (s'.id ≡ s.id) × (s'.status ≡ to) × (can_transition_to s.status to ≡ true)

pub change-eq-ok :
    (to : ShipmentStatus) (carrier tracking reason : String) (s s' : Shipment)
    → same_status s.status to ≡ false
    → change to carrier tracking reason s ≡ ok s'
    → Moved to s s'
unfolding change mark_shipped mark_delivered cancel can_transition_to
change-eq-ok pending carrier tracking reason s s' d h = absurd (ground (arith, h))
change-eq-ok shipped carrier tracking reason s s' d h = elim (status-cases s.status) [
  | inl e ↦ (ground (arith, e, h), ground (arith, e, h), ground (arith, e))
  | inr (inl e) ↦ absurd (ground (arith, e, d))
  | inr (inr (inl e)) ↦ absurd (ground (arith, e, h))
  | inr (inr (inr e)) ↦ absurd (ground (arith, e, h))
]
change-eq-ok delivered carrier tracking reason s s' d h = elim (status-cases s.status) [
  | inl e ↦ absurd (ground (arith, e, h))
  | inr (inl e) ↦ (ground (arith, e, h), ground (arith, e, h), ground (arith, e))
  | inr (inr (inl e)) ↦ absurd (ground (arith, e, d))
  | inr (inr (inr e)) ↦ absurd (ground (arith, e, h))
]
change-eq-ok cancelled carrier tracking reason s s' d h = elim (status-cases s.status) [
  | inl e ↦ (ground (arith, e, h), ground (arith, e, h), ground (arith, e))
  | inr (inl e) ↦ (ground (arith, e, h), ground (arith, e, h), ground (arith, e))
  | inr (inr (inl e)) ↦ absurd (ground (arith, e, h))
  | inr (inr (inr e)) ↦ absurd (ground (arith, e, d))
]

pub announced-event_at :
    (id : String) (st : ShipmentStatus) (s : Shipment) (db : Db)
    → same_status st pending ≡ false
    → announced id (emitted (event_at st s) db).outbox
      ≡ announced id db.outbox ++ (if str_eq s.id id then st ∷ [] else [])
unfolding event_at announced
announced-event_at id pending s db h = absurd (ground (arith, h))
announced-event_at id shipped s db h =
    announced-append id db.outbox
      (shipment_shipped s.id s.order_id s.owner_id s.carrier s.tracking_number s.shop_id ∷ [])
announced-event_at id delivered s db h =
    announced-append id db.outbox (shipment_delivered s.id s.order_id s.owner_id s.shop_id ∷ [])
announced-event_at id cancelled s db h =
    announced-append id db.outbox
      (shipment_cancelled s.id s.order_id s.owner_id s.cancel_reason s.shop_id ∷ [])

pub emitted_shipments :
    (st : ShipmentStatus) (s : Shipment) (db : Db)
    → (emitted (event_at st s) db).shipments ≡ db.shipments
unfolding event_at
emitted_shipments pending s db = refl
emitted_shipments shipped s db = refl
emitted_shipments delivered s db = refl
emitted_shipments cancelled s db = refl
