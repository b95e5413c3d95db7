-- ===== src/Order/Trails.antt =====
-- The statuses that the events of an order announce, and the changes that follow the state machine
-- of services/order/internal/domain/order.go.
use commerce_platform.Common.{
  ◌≡◌, refl, ◌⊎◌, inl, inr, String, true, Option, none, some, List, [], ◌∷◌, ◌++◌, arith,
  if◌then◌else◌, str_eq, Outcome, ok, err,
}
use commerce_platform.Common.Table.{lookup}
use commerce_platform.Order.{
  Status, Order, pending_payment, confirmed, cancelled, fulfilled, is_pending, confirm, cancel,
  fulfill, can_transition_to,
}
use commerce_platform.Order.Store.{
  Event, Db, order_created, order_confirmed, order_cancelled, order_fulfilled, money_message,
  transition_event,
}

-- The statuses that the events of an order announce, in their order.
unfoldable pub trail : String → List Event → List Status
trail id [] = []
trail id (order_created i o c m ∷ es) =
    let rest = trail id es in if str_eq i id then pending_payment ∷ rest else rest
trail id (order_confirmed i o p a ls ∷ es) =
    let rest = trail id es in if str_eq i id then confirmed ∷ rest else rest
trail id (order_cancelled i o r ∷ es) =
    let rest = trail id es in if str_eq i id then cancelled ∷ rest else rest
trail id (order_fulfilled i o ∷ es) =
    let rest = trail id es in if str_eq i id then fulfilled ∷ rest else rest

-- The ways through the state machine that end at a status.
abbrev pub LeadsTo : Status → List Status → Type 0
LeadsTo pending_payment t = t ≡ pending_payment ∷ []
LeadsTo confirmed t = t ≡ pending_payment ∷ confirmed ∷ []
LeadsTo fulfilled t = t ≡ pending_payment ∷ confirmed ∷ fulfilled ∷ []
LeadsTo cancelled t =
    (t ≡ pending_payment ∷ cancelled ∷ []) ⊎ (t ≡ pending_payment ∷ confirmed ∷ cancelled ∷ [])

-- The row of an order and its events agree, or there are none.
abbrev pub Follows : String → List Status → Option Order → Type 0
Follows id t none = t ≡ []
Follows id t (some o) = (o.id ≡ id) × LeadsTo o.status t

abbrev pub Agrees : String → Db → Type 0
Agrees q db = Follows q (trail q db.outbox) (lookup q db.orders)

pub trail-append :
    (id : String) (es fs : List Event) → trail id (es ++ fs) ≡ trail id es ++ trail id fs
unfolding trail
trail-append id [] fs = refl
trail-append id (order_created i o c m ∷ es) fs = ground (arith, trail-append id es fs)
trail-append id (order_confirmed i o p a ls ∷ es) fs = ground (arith, trail-append id es fs)
trail-append id (order_cancelled i o r ∷ es) fs = ground (arith, trail-append id es fs)
trail-append id (order_fulfilled i o ∷ es) fs = ground (arith, trail-append id es fs)

pub LeadsTo-step :
    (st to : Status) (t : List Status)
    → LeadsTo st t
    → can_transition_to st to ≡ true
    → LeadsTo to (t ++ to ∷ [])
unfolding can_transition_to
LeadsTo-step pending_payment confirmed t h e = rw h refl
LeadsTo-step pending_payment cancelled t h e = inl (rw h refl)
LeadsTo-step confirmed cancelled t h e = inr (rw h refl)
LeadsTo-step confirmed fulfilled t h e = rw h refl
LeadsTo-step pending_payment pending_payment t h e = ground arith
LeadsTo-step pending_payment fulfilled t h e = ground arith
LeadsTo-step confirmed pending_payment t h e = ground arith
LeadsTo-step confirmed confirmed t h e = ground arith
LeadsTo-step cancelled to t h e = ground arith
LeadsTo-step fulfilled to t h e = ground arith

pub trail-transition_event :
    (q : String) (st to : Status) (o : Order)
    → can_transition_to st to ≡ true
    → trail q (transition_event to o) ≡ (if str_eq o.id q then to ∷ [] else [])
unfolding trail transition_event can_transition_to
trail-transition_event q st confirmed o e = refl
trail-transition_event q st cancelled o e = refl
trail-transition_event q st fulfilled o e = refl
trail-transition_event q pending_payment pending_payment o e = ground arith
trail-transition_event q confirmed pending_payment o e = ground arith
trail-transition_event q cancelled pending_payment o e = ground arith
trail-transition_event q fulfilled pending_payment o e = ground arith

-- A change of an order that keeps its id and follows the state machine.
abbrev pub Lawful : Order → Outcome Order → Type 0
Lawful o (err e) = Unit {0}
Lawful o (ok o') =
    (o'.id ≡ o.id) × ((o'.status ≡ o.status) ⊎ (can_transition_to o.status o'.status ≡ true))

pub confirm-Lawful : (o : Order) (st : Status) → o.status ≡ st → Lawful o (confirm o)
unfolding confirm can_transition_to
confirm-Lawful o pending_payment e = rw e (refl, inr refl)
confirm-Lawful o confirmed e = rw e (refl, inl refl)
confirm-Lawful o cancelled e = rw e tt
confirm-Lawful o fulfilled e = rw e tt

pub cancel-Lawful :
    (reason : String) (o : Order) (st : Status) → o.status ≡ st → Lawful o (cancel reason o)
unfolding cancel can_transition_to
cancel-Lawful reason o pending_payment e = rw e (refl, inr refl)
cancel-Lawful reason o confirmed e = rw e (refl, inr refl)
cancel-Lawful reason o cancelled e = rw e (refl, inl refl)
cancel-Lawful reason o fulfilled e = rw e tt

fulfill-Lawful : (o : Order) (st : Status) → o.status ≡ st → Lawful o (fulfill o)
unfolding fulfill can_transition_to
fulfill-Lawful o pending_payment e = rw e tt
fulfill-Lawful o confirmed e = rw e (refl, inr refl)
fulfill-Lawful o cancelled e = rw e tt
fulfill-Lawful o fulfilled e = rw e (refl, inl refl)

-- The change of `OnReservationExpired`.
unfoldable pub expire : Order → Outcome Order
expire o = if is_pending o.status then cancel "RESERVATION_EXPIRED" o else ok o

pub expire-Lawful : (o : Order) (st : Status) → o.status ≡ st → Lawful o (expire o)
unfolding expire cancel can_transition_to
expire-Lawful o pending_payment e = rw e (refl, inr refl)
expire-Lawful o confirmed e = rw e (refl, inl refl)
expire-Lawful o cancelled e = rw e (refl, inl refl)
expire-Lawful o fulfilled e = rw e (refl, inl refl)

pub trail_created :
    (q : String) (o : Order)
    → trail q (order_created o.id o.owner_id o.cart_id (money_message o.total) ∷ [])
      ≡ (if str_eq o.id q then pending_payment ∷ [] else [])
unfolding trail
trail_created q o = refl
