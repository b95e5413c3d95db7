-- ===== src/Cart/Quantities.antt =====
-- What each operation of a cart does to the units of every product.
use commerce_platform.Common.{
  ℕ, ◌+◌, ◌<◌, ◌≡◌, String, Bool, List, arith, if◌then◌else◌, str_eq, Bool-cases, inl, inr, min, ok,
  ◌∙◌,
}
use commerce_platform.Common.Int.{ℤ, pos, pos_part, ◌≤ℤ◌, ◌+ℤ◌, int32, leb_ℤ}
use commerce_platform.Cart.{
  Item, Cart, put_line, touch, max_line_quantity, clamp_qty, add, set_quantity, remove,
  check_product_id,
}
use commerce_platform.Cart.Lines.{units, IsValid}
use commerce_platform.Cart.Puts.{
  put_line-Puts, clamp_qty-InRange, clamp_qty-min, touch-counted, touch-IsValid, added_line,
}
use commerce_platform.Cart.Merge.{remove_counts}

set_line :
    (at : ℕ) (p : String) (d : ℤ) (xs : List Item) (r : String)
    → IsValid xs
    → pos 1 ≤ℤ d
    → let ys =
        put_line
          (record { product_id = p; quantity = clamp_qty d; added_at = at })
          (λ _. clamp_qty d)
          xs in
      IsValid ys
      × (units r ys ≡ (if str_eq p r then min max_line_quantity (pos_part d) else units r xs))
set_line at p d xs r v k =
    let it : Item = record { product_id = p; quantity = clamp_qty d; added_at = at } in
    let puts =
      put_line-Puts it (λ _. clamp_qty d) xs v (clamp_qty-InRange d k)
        (λ q _. clamp_qty-InRange d k) in
    (puts.valid, ground (arith, puts.counted r, clamp_qty-min d))

module _ (parse_uuid : String → Bool) where
  -- `Add` of a positive quantity that cannot wrap an int32, to a valid cart: when it succeeds the cart is valid, the
  -- product has as many units more, up to 999, and every other product as many as before.
  pub add_counts :
      (at now : ℕ) (p : String) (delta : ℤ) (c : Cart) (r : String) {c' : Cart}
      → IsValid c.items
      → pos_part delta + max_line_quantity < 2147483648
      → add parse_uuid at now p delta c ≡ ok c'
      → IsValid c'.items
        × (units r c'.items ≡ (
            if str_eq p r
            then min max_line_quantity (units r c.items + pos_part delta)
            else units r c.items))
  unfolding add check_product_id
  add_counts at now p delta c r {c'} v fits h =
      let k : pos 1 ≤ℤ delta = ground arith in
      let it : Item = record { product_id = p; quantity = clamp_qty delta; added_at = at } in
      let ys = put_line it (λ q. clamp_qty (int32 (q +ℤ delta))) c.items in
      let (v', counts) = added_line at now p delta c r v k fits in
      let same : touch now (record c { items = ys }) ≡ c' = ground arith in
      rw (← same) (
        touch-IsValid now (record c { items = ys }) v',
        touch-counted now (record c { items = ys }) r ∙ counts,
      )

  -- `SetQuantity` on a valid cart: when it succeeds the cart is valid, the product has exactly the quantity,
  -- up to 999, none for zero, and every other product has as many units as before.
  pub set_quantity_counts :
      (at now : ℕ) (p : String) (qty : ℤ) (c : Cart) (r : String) {c' : Cart}
      → IsValid c.items
      → set_quantity parse_uuid at now p qty c ≡ ok c'
      → IsValid c'.items
        × (units r c'.items
            ≡ (if str_eq p r then min max_line_quantity (pos_part qty) else units r c.items))
  unfolding set_quantity check_product_id
  set_quantity_counts at now p qty c r {c'} v h = elim (Bool-cases (leb_ℤ qty (pos 0))) [
    | inl none_left ↦
        let same : remove now p c ≡ c' = ground arith in
        let zero_qty : pos_part qty ≡ 0 = ground arith in
        rw (← same, zero_qty) (remove_counts now p c r v)
    | inr some_left ↦
        let k : pos 1 ≤ℤ qty = ground arith in
        let it : Item = record { product_id = p; quantity = clamp_qty qty; added_at = at } in
        let c1 = record c { items = put_line it (λ _. clamp_qty qty) c.items } in
        let (v', counts) = set_line at p qty c.items r v k in
        let same : touch now c1 ≡ c' = ground arith in
        rw (← same) (touch-IsValid now c1 v', touch-counted now c1 r ∙ counts)
  ]
