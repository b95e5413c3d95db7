-- ===== src/Cart/Puts.antt =====
-- A line changed or appended in a valid cart, and the sums that an int32 holds.
use commerce_platform.Common.{
  ℕ, ◌+◌, ◌<◌, ◌≡◌, refl, String, List, [], ◌∷◌, ◌++◌, All, All-append, arith, if◌then◌else◌,
  str_eq, eq_iff, Bool-cases, Option-cases, inl, inr, ◌==◌, min,
}
use commerce_platform.Common.Int.{ℤ, pos, pos_part, ◌≤ℤ◌, ◌+ℤ◌, int32, int32_id, pos_add}
use commerce_platform.Cart.{
  Item, Cart, find, update_found, put_line, touch, max_line_quantity, clamp_qty,
}
use commerce_platform.Cart.Lines.{
  units, lines_for, InRange, IsValid, units-sort_by_added, sort_by_added-IsValid, find-none,
  find-some, units-update_found, units_of_none, units_between,
}

pub lines_for-update_found :
    (p r : String) (f : ℤ → ℤ) (xs : List Item) → lines_for r (update_found p f xs) ≡ lines_for r xs
unfolding lines_for update_found
lines_for-update_found p r f [] = refl
lines_for-update_found p r f (x ∷ xs) = ground (arith, lines_for-update_found p r f xs)

update_found-InRange :
    (p : String) (f : ℤ → ℤ) (xs : List Item)
    → ((q : ℤ) → InRange q → InRange (f q))
    → All (λ x. InRange x.quantity) xs
    → All (λ x. InRange x.quantity) (update_found p f xs)
unfolding update_found
update_found-InRange p f [] k h = h
update_found-InRange p f (x ∷ xs) k h = elim (Bool-cases (str_eq x.product_id p)) [
  | inl e ↦ rw e (k x.quantity h.0, h.1)
  | inr e ↦ rw e (h.0, update_found-InRange p f xs k h.1)
]

units-append_one :
    (r : String) (xs : List Item) (it : Item)
    → units r (xs ++ it ∷ [])
      ≡ units r xs + (if str_eq it.product_id r then pos_part it.quantity else 0)
unfolding units
units-append_one r [] it = omega arith
units-append_one r (x ∷ xs) it = omega (arith, units-append_one r xs it)

lines_for-append_one :
    (r : String) (xs : List Item) (it : Item)
    → lines_for r (xs ++ it ∷ []) ≡ lines_for r xs + (if str_eq it.product_id r then 1 else 0)
unfolding lines_for
lines_for-append_one r [] it = omega arith
lines_for-append_one r (x ∷ xs) it = omega (arith, lines_for-append_one r xs it)

-- After a line was changed or appended, in a valid list.
pub record Puts (it : Item) (f : ℤ → ℤ) (xs ys : List Item) : Type 0 where
  pub valid : IsValid ys
  pub counted :
      (r : String)
      → units r ys ≡ (
          if str_eq it.product_id r
          then (if lines_for r xs == 0
              then pos_part it.quantity
              else pos_part (f (pos (units r xs))))
          else units r xs)

pub put_line-Puts :
    (it : Item) (f : ℤ → ℤ) (xs : List Item)
    → IsValid xs
    → InRange it.quantity
    → ((q : ℤ) → InRange q → InRange (f q))
    → Puts it f xs (put_line it f xs)
unfolding put_line
put_line-Puts it f xs v h k = elim (Option-cases (find it.product_id xs)) [
  | inl new ↦
      let none_yet = find-none it.product_id xs new in
      rw (new, put_line)
        (record {
          valid = record {
            one_line = λ p. ground (
              arith,
              lines_for-append_one p xs it,
              v.one_line p,
              none_yet,
              eq_iff it.product_id p,
            );
            in_range = All-append _ xs _ v.in_range (h, tt);
          };
          counted = λ r. ground (
            arith,
            units-append_one r xs it,
            none_yet,
            units_of_none it.product_id xs none_yet,
            eq_iff it.product_id r,
          );
        })
  | inr (old, e) ↦
      let (amount, _, one) = find-some it.product_id xs e (v.one_line it.product_id) v.in_range in
      rw (e, put_line)
        (record {
          valid = record {
            one_line = λ p. rw (lines_for-update_found it.product_id p f xs) (v.one_line p);
            in_range = update_found-InRange it.product_id f xs k v.in_range;
          };
          counted = λ r. ground (
            arith,
            units-update_found it.product_id r f xs e (v.one_line it.product_id),
            amount,
            one,
            eq_iff it.product_id r,
          );
        })
]

pub clamp_qty-InRange : (q : ℤ) → pos 1 ≤ℤ q → InRange (clamp_qty q)
unfolding clamp_qty
clamp_qty-InRange q h = ground arith

pub clamp_qty-min : (d : ℤ) → pos 1 ≤ℤ d → clamp_qty d ≡ pos (min max_line_quantity (pos_part d))
unfolding clamp_qty
clamp_qty-min d h = ground arith

-- With room for the sum in an int32, adding to a line stops at 999.
pub clamp_sum :
    (q d : ℤ)
    → InRange q
    → pos 1 ≤ℤ d
    → pos_part d + max_line_quantity < 2147483648
    → clamp_qty (int32 (q +ℤ d)) ≡ pos (min max_line_quantity (pos_part q + pos_part d))
unfolding clamp_qty
clamp_sum q d h k fits =
    ground (arith, pos_add (pos_part q) (pos_part d), int32_id (pos (pos_part q + pos_part d)))

pub touch-counted :
    (now : ℕ) (c : Cart) (r : String) → units r (touch now c).items ≡ units r c.items
unfolding touch
touch-counted now c r = units-sort_by_added r c.items

pub touch-IsValid : (now : ℕ) (c : Cart) → IsValid c.items → IsValid (touch now c).items
unfolding touch
touch-IsValid now c v = sort_by_added-IsValid c.items v

-- The line of a product after `d` units were added.
pub added_line :
    (at now : ℕ) (p : String) (d : ℤ) (c : Cart) (r : String)
    → IsValid c.items
    → pos 1 ≤ℤ d
    → pos_part d + max_line_quantity < 2147483648
    → let it : Item = record { product_id = p; quantity = clamp_qty d; added_at = at } in
      let ys = put_line it (λ q. clamp_qty (int32 (q +ℤ d))) c.items in
      IsValid ys
      × (units r ys ≡ (
          if str_eq p r
          then min max_line_quantity (units r c.items + pos_part d)
          else units r c.items))
added_line at now p d c r v k fits =
    let it : Item = record { product_id = p; quantity = clamp_qty d; added_at = at } in
    let f = λ (q : ℤ). clamp_qty (int32 (q +ℤ d)) in
    let puts = put_line-Puts it f c.items v (clamp_qty-InRange d k) keep in
    (
      puts.valid,
      ground (
        arith,
        puts.counted r,
        units_between r c.items v.in_range,
        units_of_none r c.items,
        v.one_line r,
        clamp_sum (pos (units r c.items)) d,
        clamp_qty-min d,
      ),
    )
  where
    keep : (q : ℤ) → InRange q → InRange (clamp_qty (int32 (q +ℤ d)))
    keep q h = rw (clamp_sum q d h k fits) (omega arith)
