-- ===== src/Cart/Lines.antt =====
-- The lines of a cart: counted by product, under a change of one line, a removal and the sort.
use commerce_platform.Common.{
  ℕ, ◌+◌, ◌*◌, ◌≤◌, ◌≡◌, refl, String, none, some, List, [], ◌∷◌, All, arith, if◌then◌else◌, str_eq,
  eq_iff, leb, Bool-cases, inl, inr,
}
use commerce_platform.Common.Int.{ℤ, pos, pos_part, ◌≤ℤ◌}
use commerce_platform.Cart.{
  Item, find, update_found, insert_by_added, sort_by_added, max_line_quantity,
}

-- How many units of a product the lines hold, and on how many lines.
unfoldable pub units : String → List Item → ℕ
units p [] = 0
units p (it ∷ its) = (if str_eq it.product_id p then pos_part it.quantity else 0) + units p its

unfoldable pub lines_for : String → List Item → ℕ
lines_for p [] = 0
lines_for p (it ∷ its) = (if str_eq it.product_id p then 1 else 0) + lines_for p its

abbrev pub InRange : ℤ → Type 0
InRange q = (pos 1 ≤ℤ q) × (q ≤ℤ pos max_line_quantity)

-- A product has one line at most, and every line holds between 1 and 999 units.
pub record IsValid (its : List Item) : Type 0 where
  pub one_line : (p : String) → lines_for p its ≤ 1
  pub in_range : All (λ it. InRange it.quantity) its

pub units-insert_by_added :
    (p : String) (it : Item) (xs : List Item) → units p (insert_by_added it xs) ≡ units p (it ∷ xs)
unfolding units insert_by_added
units-insert_by_added p it [] = refl
units-insert_by_added p it (x ∷ xs) = ground (arith, units-insert_by_added p it xs)

pub units-sort_by_added : (p : String) (xs : List Item) → units p (sort_by_added xs) ≡ units p xs
unfolding units sort_by_added
units-sort_by_added p [] = refl
units-sort_by_added p (x ∷ xs) =
    ground (arith, units-insert_by_added p x (sort_by_added xs), units-sort_by_added p xs)

lines_for-insert_by_added :
    (p : String) (it : Item) (xs : List Item)
    → lines_for p (insert_by_added it xs) ≡ lines_for p (it ∷ xs)
unfolding lines_for insert_by_added
lines_for-insert_by_added p it [] = refl
lines_for-insert_by_added p it (x ∷ xs) = ground (arith, lines_for-insert_by_added p it xs)

pub lines_for-sort_by_added :
    (p : String) (xs : List Item) → lines_for p (sort_by_added xs) ≡ lines_for p xs
unfolding lines_for sort_by_added
lines_for-sort_by_added p [] = refl
lines_for-sort_by_added p (x ∷ xs) =
    ground (arith, lines_for-insert_by_added p x (sort_by_added xs), lines_for-sort_by_added p xs)

module _ (P : Item → Type 0) where
  All-insert_by_added :
      (it : Item) (xs : List Item) → P it → All P xs → All P (insert_by_added it xs)
  unfolding insert_by_added
  All-insert_by_added it [] h hs = (h, hs)
  All-insert_by_added it (x ∷ xs) h hs = elim (Bool-cases (leb it.added_at x.added_at)) [
    | inl e ↦ rw e (h, hs)
    | inr e ↦ rw e (hs.0, All-insert_by_added it xs h hs.1)
  ]

  All-sort_by_added : (xs : List Item) → All P xs → All P (sort_by_added xs)
  unfolding sort_by_added
  All-sort_by_added [] hs = hs
  All-sort_by_added (x ∷ xs) hs = All-insert_by_added x _ hs.0 (All-sort_by_added xs hs.1)

pub sort_by_added-IsValid : (xs : List Item) → IsValid xs → IsValid (sort_by_added xs)
sort_by_added-IsValid xs v = record {
  one_line = λ p. rw (lines_for-sort_by_added p xs) (v.one_line p);
  in_range = All-sort_by_added _ xs v.in_range;
}

pub units_of_none : (p : String) (xs : List Item) → lines_for p xs ≡ 0 → units p xs ≡ 0
unfolding units lines_for
units_of_none p [] h = refl
units_of_none p (x ∷ xs) h = ground (arith, units_of_none p xs)

pub find-none : (p : String) (xs : List Item) → find p xs ≡ none → lines_for p xs ≡ 0
unfolding find lines_for
find-none p [] h = refl
find-none p (x ∷ xs) h = ground (arith, find-none p xs)

-- The line that is found holds all units of its product.
pub find-some :
    (p : String) (xs : List Item) {it : Item}
    → find p xs ≡ some it
    → lines_for p xs ≤ 1
    → All (λ x. InRange x.quantity) xs
    → (it.quantity ≡ pos (units p xs)) × InRange it.quantity × (lines_for p xs ≡ 1)
unfolding find lines_for units
find-some p [] h one r = absurd (cc)
find-some p (x ∷ xs) {it} h one r = elim (Bool-cases (str_eq x.product_id p)) [
  | inl here ↦
      let rest : lines_for p xs ≡ 0 = ground arith in ground (arith, units_of_none p xs rest)
  | inr there ↦ ground (arith, find-some p xs {it = it})
]

pub units-update_found :
    (p r : String) (f : ℤ → ℤ) (xs : List Item) {it : Item}
    → find p xs ≡ some it
    → lines_for p xs ≤ 1
    → units r (update_found p f xs) ≡ (if str_eq p r then pos_part (f it.quantity) else units r xs)
unfolding find lines_for units update_found
units-update_found p r f [] h one = absurd (cc)
units-update_found p r f (x ∷ xs) {it} h one = elim (Bool-cases (str_eq x.product_id p)) [
  | inl here ↦
      let rest : lines_for p xs ≡ 0 = ground arith in
      ground (arith, units_of_none p xs rest, eq_iff x.product_id p, eq_iff p r)
  | inr there ↦ ground (
    arith,
    units-update_found p r f xs {it = it},
    eq_iff x.product_id p,
    eq_iff p r,
    eq_iff x.product_id r,
  )
]

pub units_between :
    (p : String) (xs : List Item)
    → All (λ x. InRange x.quantity) xs
    → (lines_for p xs ≤ units p xs) × (units p xs ≤ max_line_quantity * lines_for p xs)
unfolding units lines_for
units_between p [] h = (omega arith, omega arith)
units_between p (x ∷ xs) h = ground (arith, units_between p xs h.1)
