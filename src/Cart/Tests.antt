-- ===== src/Cart/Tests.antt =====
-- Carts in use, and the cart theorems at concrete inputs.
use commerce_platform.Common.{
  ℕ, ◌+◌, ◌≡◌, refl, ◌≢◌, String, Bool, true, none, some, List, [], ◌∷◌, arith, ok, min,
  if◌then◌else◌, str_eq, eq_iff,
}
use commerce_platform.Common.Table.{lookup}
use commerce_platform.Common.Int.{pos, ◌+ℤ◌, int32}
use commerce_platform.Cart.{
  Item, Cart, add, set_quantity, remove, merge_from, max_line_quantity, check_product_id, find,
  put_line, clamp_qty, touch, sort_by_added, insert_by_added, update_found, drop_lines,
}
use commerce_platform.Cart.Lines.{IsValid, units, lines_for}
use commerce_platform.Cart.Merge.{merge_from_counts, remove_counts}
use commerce_platform.Cart.Quantities.{add_counts, set_quantity_counts}
use commerce_platform.Cart.Wrap.{add_wraps}
use commerce_platform.Cart.Server.{loaded, merge, merge_moves, merge_self_loses}

abbrev any_uuid : String → Bool
any_uuid _ = true

abbrev item : String → ℕ → ℕ → Item
item p q t = record { product_id = p; quantity = pos q; added_at = t }

abbrev small : Cart
small = record { id = "c1"; items = item "mug" 2 5 ∷ item "pen" 998 6 ∷ []; updated_at = 6 }

abbrev one_pen : Cart
one_pen = record { id = "c2"; items = item "pen" 3 9 ∷ []; updated_at = 9 }

mug_is_not_pen : ◌≢◌ {A = String} "mug" "pen"
mug_is_not_pen = ground (arith, eq_iff "mug" "pen")

small-IsValid : IsValid small.items
unfolding lines_for
small-IsValid = record {
  one_line = λ p. ground (arith, eq_iff "mug" p, eq_iff "pen" p, mug_is_not_pen);
  in_range = omega arith;
}

one_pen-IsValid : IsValid one_pen.items
unfolding lines_for
one_pen-IsValid = record { one_line = λ p. ground arith; in_range = omega arith }

abbrev four_mugs : Cart
four_mugs = record { id = "c1"; items = item "mug" 6 5 ∷ item "pen" 998 6 ∷ []; updated_at = 8 }

add_four : add any_uuid 7 8 "mug" (pos 4) small ≡ ok four_mugs
unfolding add check_product_id put_line find update_found clamp_qty touch sort_by_added
    insert_by_added ◌+ℤ◌ int32
add_four = refl

add_counts_example :
    IsValid four_mugs.items
    × (units "mug" four_mugs.items ≡ (
        if str_eq "mug" "mug"
        then min max_line_quantity (units "mug" small.items + 4)
        else units "mug" small.items))
add_counts_example =
    add_counts any_uuid 7 8 "mug" (pos 4) small "mug" small-IsValid (omega arith) add_four

abbrev no_mugs : Cart
no_mugs = record { id = "c1"; items = item "pen" 998 6 ∷ []; updated_at = 8 }

set_none : set_quantity any_uuid 7 8 "mug" (pos 0) small ≡ ok no_mugs
unfolding set_quantity remove drop_lines touch sort_by_added insert_by_added
set_none = refl

set_quantity_counts_example :
    IsValid no_mugs.items
    × (units "pen" no_mugs.items
        ≡ (if str_eq "mug" "pen" then min max_line_quantity 0 else units "pen" small.items))
set_quantity_counts_example =
    set_quantity_counts any_uuid 7 8 "mug" (pos 0) small "pen" small-IsValid set_none

remove_counts_example :
    let c' = remove 8 "mug" small in
    IsValid c'.items
    × (units "mug" c'.items ≡ (if str_eq "mug" "mug" then 0 else units "mug" small.items))
remove_counts_example = remove_counts 8 "mug" small "mug" small-IsValid

merge_from_counts_example :
    let c' = merge_from 8 small one_pen in
    IsValid c'.items
    × (units "pen" c'.items
        ≡ min max_line_quantity (units "pen" small.items + units "pen" one_pen.items))
merge_from_counts_example = merge_from_counts 8 small one_pen "pen" small-IsValid one_pen-IsValid

add_wraps_example :
    (c' : Cart) × (add any_uuid 7 8 "pen" (pos 2147483647) small ≡ ok c') × ¬ IsValid c'.items
unfolding check_product_id find
add_wraps_example =
    add_wraps any_uuid 7 8 "pen" (pos 2147483647) small {it = item "pen" 998 6} small-IsValid refl
      refl (omega arith) (omega arith)

named : ◌≢◌ {A = String} "c1" ""
named = ground (arith, eq_iff "c1" "")

other_named : ◌≢◌ {A = String} "c2" ""
other_named = ground (arith, eq_iff "c2" "")

merge_moves_example :
    let s : List (String × Cart) = ("c1", small) ∷ ("c2", one_pen) ∷ [] in
    let m = merge_from 9 (loaded 9 "c1" s) (loaded 9 "c2" s) in
    (s' : List (String × Cart)) × (merge 9 "c2" "c1" s ≡ ok (m, s'))
    × (lookup "c1" s'
        ≡ (if str_eq "c2" "c1" then none else if str_eq "c1" "c1" then some m else lookup "c1" s))
merge_moves_example =
    merge_moves 9 "c2" "c1" "c1" (("c1", small) ∷ ("c2", one_pen) ∷ []) other_named named

merge_self_loses_example :
    (m : Cart) × (s' : List (String × Cart)) × (merge 9 "c1" "c1" (("c1", small) ∷ []) ≡ ok (m, s'))
    × (lookup "c1" s' ≡ none)
merge_self_loses_example = merge_self_loses 9 "c1" (("c1", small) ∷ []) named
