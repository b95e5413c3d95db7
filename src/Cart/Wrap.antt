-- ===== src/Cart/Wrap.antt =====
-- Where the int32 sum of `Add` wraps.
use commerce_platform.Common.{
  ℕ, ◌+◌, ◌<◌, ◌≤◌, ◌≡◌, String, Bool, some, List, arith, eq_refl, ok, ◌∙◌,
}
use commerce_platform.Common.Int.{ℤ, pos_part, ◌+ℤ◌, int32}
use commerce_platform.Cart.{
  Item, Cart, find, update_found, put_line, sort_by_added, touch, clamp_qty, add, check_product_id,
}
use commerce_platform.Cart.Lines.{
  units, lines_for, InRange, IsValid, units-sort_by_added, lines_for-sort_by_added, find-some,
  units-update_found, units_between,
}
use commerce_platform.Cart.Puts.{lines_for-update_found}

clamp_wraps :
    (q d : ℤ)
    → InRange q
    → pos_part d < 2147483648
    → 2147483648 ≤ pos_part q + pos_part d
    → pos_part (clamp_qty (int32 (q +ℤ d))) ≡ 0
unfolding clamp_qty int32 ◌+ℤ◌
clamp_wraps q d h small wraps = ground arith

-- A product on one line with no units: the line is not in range.
not_IsValid : (p : String) (xs : List Item) → lines_for p xs ≡ 1 → units p xs ≡ 0 → ¬ IsValid xs
not_IsValid p xs one none_left v = absurd (omega (arith, units_between p xs v.in_range))

put_line-found :
    (it old : Item) (f : ℤ → ℤ) (xs : List Item)
    → find it.product_id xs ≡ some old
    → put_line it f xs ≡ update_found it.product_id f xs
unfolding put_line
put_line-found it old f xs e = rw (e, put_line)

-- A line whose change leaves nothing positive makes the cart invalid.
spoiled :
    (now : ℕ) (it old : Item) (f : ℤ → ℤ) (c : Cart)
    → find it.product_id c.items ≡ some old
    → lines_for it.product_id c.items ≡ 1
    → pos_part (f old.quantity) ≡ 0
    → ¬ IsValid (touch now (record c { items = put_line it f c.items })).items
unfolding touch
spoiled now it old f c e one gone =
    let p = it.product_id in
    rw (put_line-found it old f c.items e) (
      not_IsValid p (sort_by_added (update_found p f c.items))
        (lines_for-sort_by_added p (update_found p f c.items)
          ∙ lines_for-update_found p p f c.items
          ∙ one)
        (units-sort_by_added p (update_found p f c.items)
          ∙ ground (arith, units-update_found p p f c.items e, eq_refl p)))

module _ (parse_uuid : String → Bool) where
  -- `Add` wraps an int32. Where the line of the product in a valid cart and the quantity to
  -- add reach 2 ^ 31 together, `Add` of an accepted product succeeds, and the cart that it
  -- leaves is not valid.
  pub add_wraps :
      (at now : ℕ) (p : String) (delta : ℤ) (c : Cart) {it : Item}
      → IsValid c.items
      → check_product_id parse_uuid p ≡ ok tt
      → find p c.items ≡ some it
      → pos_part delta < 2147483648
      → 2147483648 ≤ pos_part it.quantity + pos_part delta
      → (c' : Cart) × (add parse_uuid at now p delta c ≡ ok c') × ¬ IsValid c'.items
  unfolding add
  add_wraps at now p delta c {it} v known e small wraps =
      let line : Item = record { product_id = p; quantity = clamp_qty delta; added_at = at } in
      let f = λ (q : ℤ). clamp_qty (int32 (q +ℤ delta)) in
      let c1 = record c { items = put_line line f c.items } in
      let (_, h, one) = find-some p c.items e (v.one_line p) v.in_range in
      (
        touch now c1,
        ground (arith, known),
        spoiled now line it f c e one (clamp_wraps it.quantity delta h small wraps),
      )
