-- ===== src/Cart/Merge.antt =====
-- `MergeFrom` and `Remove`: the units of every product.
use commerce_platform.Common.{
  ℕ, ◌+◌, ◌<◌, ◌≤◌, ◌≡◌, String, List, [], ◌∷◌, All, arith, if◌then◌else◌, str_eq, eq_iff, min, ◌∙◌,
}
use commerce_platform.Common.Int.{ℤ, pos, pos_part, ◌+ℤ◌, int32}
use commerce_platform.Cart.{
  Item, Cart, put_line, drop_lines, max_line_quantity, clamp_qty, remove, merge_items, merge_from,
}
use commerce_platform.Cart.Lines.{units, lines_for, InRange, IsValid, units_of_none, units_between}
use commerce_platform.Cart.Puts.{Puts, put_line-Puts, clamp_sum, touch-counted, touch-IsValid}

pub drop_lines-IsValid :
    (p r : String) (xs : List Item)
    → All (λ x. InRange x.quantity) xs
    → All (λ x. InRange x.quantity) (drop_lines p xs)
      × (units r (drop_lines p xs) ≡ (if str_eq p r then 0 else units r xs))
      × (lines_for r (drop_lines p xs) ≤ lines_for r xs)
unfolding drop_lines units lines_for
drop_lines-IsValid p r [] h = (h, ground arith, omega arith)
drop_lines-IsValid p r (x ∷ xs) h =
    ground (arith, drop_lines-IsValid p r xs h.1, eq_iff x.product_id p, eq_iff p r)

IsValid-tail : (o : Item) (os : List Item) → IsValid (o ∷ os) → IsValid os
unfolding lines_for
IsValid-tail o os v = record {
  one_line = λ p. omega (arith, v.one_line p);
  in_range = v.in_range.1;
}

pub InRange-small : (q : ℤ) → InRange q → pos_part q + max_line_quantity < 2147483648
InRange-small q h = ground arith

sum-InRange :
    (q d : ℤ)
    → InRange q
    → InRange d
    → InRange (pos (min max_line_quantity (pos_part q + pos_part d)))
sum-InRange q d h k = ground arith

-- The loop of `MergeFrom` adds the units of two valid carts, product by product, up to 999.
pub merge_items_lem :
    (xs os : List Item) (r : String)
    → IsValid xs
    → IsValid os
    → IsValid (merge_items xs os)
      × (units r (merge_items xs os) ≡ min max_line_quantity (units r xs + units r os))
unfolding merge_items units lines_for
merge_items_lem xs [] r v w = (v, ground (arith, units_between r xs v.in_range, v.one_line r))
merge_items_lem xs (o ∷ os) r v w =
    let ys = put_line o (λ q. clamp_qty (int32 (q +ℤ o.quantity))) xs in
    let puts = put_line-Puts o (λ q. clamp_qty (int32 (q +ℤ o.quantity))) xs v w.in_range.0 keep in
    let (v', counts) = merge_items_lem ys os r puts.valid (IsValid-tail o os w) in
    (v', counts ∙ joined ys puts)
  where
    keep : (q : ℤ) → InRange q → InRange (clamp_qty (int32 (q +ℤ o.quantity)))
    keep q h =
        rw (clamp_sum q o.quantity h w.in_range.0.0 (InRange-small o.quantity w.in_range.0))
          (sum-InRange q o.quantity h w.in_range.0)

    joined :
        (ys : List Item)
        → Puts o (λ q. clamp_qty (int32 (q +ℤ o.quantity))) xs ys
        → min max_line_quantity (units r ys + units r os)
          ≡ min max_line_quantity (units r xs + units r (o ∷ os))
    joined ys puts = ground (
      arith,
      puts.counted r,
      units_between r xs v.in_range,
      units_of_none r xs,
      v.one_line r,
      w.one_line r,
      w.in_range.0,
      units_of_none r os,
      clamp_sum (pos (units r xs)) o.quantity,
    )

-- Merging one valid cart into another gives a valid cart, which holds of every product the sum
-- of what the two held, up to 999.
pub merge_from_counts :
    (now : ℕ) (c o : Cart) (r : String)
    → IsValid c.items
    → IsValid o.items
    → let c' = merge_from now c o in
      IsValid c'.items
      × (units r c'.items ≡ min max_line_quantity (units r c.items + units r o.items))
unfolding merge_from
merge_from_counts now c o r v w =
    let c1 = record c { items = merge_items c.items o.items } in
    let (v', counts) = merge_items_lem c.items o.items r v w in
    (touch-IsValid now c1 v', touch-counted now c1 r ∙ counts)

-- `Remove` from a valid cart leaves a valid cart with no unit of the product, and with as many
-- of every other product as before.
pub remove_counts :
    (now : ℕ) (p : String) (c : Cart) (r : String)
    → IsValid c.items
    → let c' = remove now p c in
      IsValid c'.items × (units r c'.items ≡ (if str_eq p r then 0 else units r c.items))
unfolding remove
remove_counts now p c r v =
    let c1 = record c { items = drop_lines p c.items } in
    let v1 : IsValid c1.items = record {
      one_line = λ q. omega (arith, (drop_lines-IsValid p q c.items v.in_range).2, v.one_line q);
      in_range = (drop_lines-IsValid p r c.items v.in_range).0;
    } in
    (
      touch-IsValid now c1 v1,
      touch-counted now c1 r ∙ (drop_lines-IsValid p r c.items v.in_range).1,
    )
