-- ===== src/Inventory/Sums.antt =====
-- The invariant of the stock store, and the sums over reservation items that it speaks of.
use commerce_platform.Common.{
  ℕ, ◌+◌, ◌<◌, ◌≡◌, refl, String, Bool, true, false, ◌&&◌, none, some, List, [], ◌∷◌, ◌++◌, All,
  if◌then◌else◌, str_eq, eq_iff, arith, Bool-cases, inl, inr,
}
use commerce_platform.Common.Table.{Table, lookup, insert, lookup-insert, has_row}
use commerce_platform.Inventory.{Reservation, ReservationItem, Db, is_held, level, items_of}

abbrev pub held_in : Table Reservation → String → Bool
held_in rs rid = elim (lookup rid rs) [ none ↦ false | some r ↦ is_held r.status ]

-- The units of product `p` on the items of HELD reservations.
unfoldable pub held_for : Table Reservation → String → List ReservationItem → ℕ
held_for rs p [] = 0
held_for rs p (it ∷ its) =
    (if str_eq it.product_id p && held_in rs it.reservation_id then it.quantity else 0)
    + held_for rs p its

-- The units of product `p` on all of the items.
unfoldable pub units_of : String → List ReservationItem → ℕ
units_of p [] = 0
units_of p (it ∷ its) = (if str_eq it.product_id p then it.quantity else 0) + units_of p its

abbrev pub int4_limit : ℕ
int4_limit = 2147483648

pub record IsValid (db : Db) : Type 0 where
  -- `reserved` is what the HELD reservations add up to
  pub sums : (p : String) → (level p db).reserved ≡ held_for db.reservations p db.items
  pub on_hand_bound : (p : String) → (level p db).on_hand < int4_limit
  pub reserved_bound : (p : String) → (level p db).reserved < int4_limit
  -- each item is of a product with a row, and of a reservation with a row
  pub stocked : All (λ it. has_row it.product_id db.stock ≡ true) db.items
  pub known : All (λ it. has_row it.reservation_id db.reservations ≡ true) db.items

pub held_for-append_one :
    (rs : Table Reservation) (p : String) (xs : List ReservationItem) (it : ReservationItem)
    → held_for rs p (xs ++ it ∷ [])
      ≡ held_for rs p xs
        + (if str_eq it.product_id p && held_in rs it.reservation_id then it.quantity else 0)
unfolding held_for
held_for-append_one rs p [] it = omega arith
held_for-append_one rs p (x ∷ xs) it = omega (arith, held_for-append_one rs p xs it)

-- A reservation that no item names does not count.
pub held_for-insert_new :
    (rs : Table Reservation) (rid p : String) (r : Reservation) (its : List ReservationItem)
    → lookup rid rs ≡ none
    → All (λ it. has_row it.reservation_id rs ≡ true) its
    → held_for (insert rid r rs) p its ≡ held_for rs p its
unfolding held_for
held_for-insert_new rs rid p r [] e h = refl
held_for-insert_new rs rid p r (it ∷ its) e h = ground (
  arith,
  held_for-insert_new rs rid p r its e h.1,
  lookup-insert rid it.reservation_id r rs,
  eq_iff rid it.reservation_id,
)

pub units_of-append_one :
    (rid p : String) (xs : List ReservationItem) (it : ReservationItem)
    → units_of p (items_of rid (xs ++ it ∷ []))
      ≡ units_of p (items_of rid xs)
        + (if str_eq it.reservation_id rid && str_eq it.product_id p then it.quantity else 0)
unfolding units_of items_of
units_of-append_one rid p [] it = ground arith
units_of-append_one rid p (x ∷ xs) it = ground (arith, units_of-append_one rid p xs it)

-- A reservation that has just been made has no items yet.
pub items_of_new :
    (rs : Table Reservation) (rid : String) (its : List ReservationItem)
    → lookup rid rs ≡ none
    → All (λ it. has_row it.reservation_id rs ≡ true) its
    → items_of rid its ≡ []
unfolding items_of
items_of_new rs rid [] e h = refl
items_of_new rs rid (it ∷ its) e h =
    ground (arith, items_of_new rs rid its e h.1, eq_iff it.reservation_id rid)

-- Closing a HELD reservation takes its units, and no others, off what is held.
pub held_for-close :
    (rs : Table Reservation) (rid p : String) (r : Reservation) (its : List ReservationItem)
    → held_in rs rid ≡ true
    → is_held r.status ≡ false
    → held_for (insert rid r rs) p its + units_of p (items_of rid its) ≡ held_for rs p its
unfolding held_for units_of items_of
held_for-close rs rid p r [] h c = omega arith
held_for-close rs rid p r (it ∷ its) h c = ground (
  arith,
  held_for-close rs rid p r its h c,
  lookup-insert rid it.reservation_id r rs,
  eq_iff rid it.reservation_id,
  eq_iff it.reservation_id rid,
)

pub All-items_of {κ} :
    (P : ReservationItem → Type κ) (rid : String) (its : List ReservationItem)
    → All P its
    → All P (items_of rid its)
unfolding items_of
All-items_of P rid [] h = h
All-items_of P rid (it ∷ its) h = elim (Bool-cases (str_eq it.reservation_id rid)) [
  | inl e ↦ rw e (h.0, All-items_of P rid its h.1)
  | inr e ↦ rw e (All-items_of P rid its h.1)
]
