-- ===== src/Order/Returns/Refunds.antt =====
-- The refund of a return: the parts sum to the share of the total, rounded down once.
use native.Mathlib.Nat.{le-div_iff_mul-le, div-mul-le_self, mul-div_cancel}
use native.Mathlib.Nat.{div-le_self, le_trans, zero-div}
use commerce_platform.Common.{
  ℕ, ◌+◌, ◌-◌, ◌*◌, ◌/◌, ◌<◌, ◌≤◌, ◌≡◌, refl, sym, ap, ◌∙◌, String, List, [], ◌∷◌, All, arith,
}
use commerce_platform.Common.Int.{
  ℤ, pos, pos_part, neg_part, ◌+ℤ◌, ◌-ℤ◌, ◌*ℤ◌, ◌/ℤ◌, int64, int64_pos, pos_add, pos_mul,
}
use commerce_platform.Order.{Order}
use commerce_platform.Order.Returns.{ReturnLine}
use commerce_platform.Order.Returns.Requests.{ResolvedLine, allot, return_of}

abbrev pub int64_limit : ℕ
int64_limit = 9223372036854775808

-- The value of the lines, and the cents that are refunded for them.
abbrev pub value_of : List ResolvedLine → ℕ
value_of [] = 0
value_of (l ∷ ls) = pos_part l.value + value_of ls

abbrev pub refunds_of : List ReturnLine → ℕ
refunds_of [] = 0
refunds_of (l ∷ ls) = pos_part l.refund_amount.cents + refunds_of ls

abbrev pub IsWorth : ResolvedLine → Type 0
IsWorth l = neg_part l.value ≡ 0

abbrev pub IsRefund : ReturnLine → Type 0
IsRefund l = neg_part l.refund_amount.cents ≡ 0

div_mono : (a b s : ℕ) → 0 < s → a ≤ b → a / s ≤ b / s
div_mono a b s hs h = (le-div_iff_mul-le hs).1 (le_trans (div-mul-le_self a s) h)

pos_sub : (a b : ℕ) → b ≤ a → pos a -ℤ pos b ≡ pos (a - b)
unfolding ◌-ℤ◌
pos_sub a b h = ground arith

mul_mono : (t a b : ℕ) → a ≤ b → t * a ≤ t * b
mul_mono t a b h = grind arith

-- One round of the loop, on natural numbers: the value, its refund and the sum do not wrap.
record Round (t s c v : ℕ) (z : ℤ) : Type 0 where
  value_round : int64 (pos c +ℤ z) ≡ pos (c + v)
  product_round : int64 (pos t *ℤ pos (c + v)) ≡ pos (t * (c + v))
  refund_round :
      int64 (pos (t * (c + v) / s) -ℤ pos (t * c / s)) ≡ pos (t * (c + v) / s - t * c / s)
  total_round : int64 (pos (t * c / s) +ℤ pos (t * (c + v) / s - t * c / s)) ≡ pos (t * (c + v) / s)
  grows : t * c / s ≤ t * (c + v) / s

rounds :
    (t s c v : ℕ) (z : ℤ)
    → 0 < s
    → z ≡ pos v
    → c + v < int64_limit
    → t * (c + v) < int64_limit
    → Round t s c v z
rounds t s c v z hs e hc ht =
    let grown = div_mono (t * c) (t * (c + v)) s hs (mul_mono t c (c + v) (omega arith)) in
    let cut = div-le_self (t * (c + v)) s in
    record {
      value_round = rw (e, pos_add c v) (int64_pos (c + v) hc);
      product_round = rw (pos_mul t (c + v)) (int64_pos (t * (c + v)) ht);
      refund_round =
          rw (pos_sub (t * (c + v) / s) (t * c / s) grown)
            (int64_pos (t * (c + v) / s - t * c / s) (omega (arith, cut)));
      total_round =
          let whole : t * c / s + (t * (c + v) / s - t * c / s) ≡ t * (c + v) / s = omega arith in
          rw (pos_add (t * c / s) (t * (c + v) / s - t * c / s), whole)
            (int64_pos (t * (c + v) / s) (omega (arith, cut)));
      grows = grown;
    }

allot_lem :
    (t s c : ℕ) (currency : String) (ls : List ResolvedLine)
    → 0 < s
    → All IsWorth ls
    → c + value_of ls < int64_limit
    → t * (c + value_of ls) < int64_limit
    → let (lines, sum) = allot (pos t) s currency (pos c) (pos (t * c / s)) (pos (t * c / s)) ls in
      (sum ≡ pos (t * (c + value_of ls) / s))
      × (t * c / s + refunds_of lines ≡ t * (c + value_of ls) / s)
      × All IsRefund lines
unfolding allot ◌/ℤ◌
allot_lem t s c currency [] hs w hc ht =
    let same : c + 0 ≡ c = omega arith in rw same (refl, omega arith, tt)
allot_lem t s c currency (l ∷ ls) hs w hc ht =
    let v = pos_part l.value in
    let e : l.value ≡ pos v = ground (arith, w) in
    let below = mul_mono t (c + v) (c + (v + value_of ls)) (omega arith) in
    let r = rounds t s c v l.value hs e (omega arith) (omega (arith, below)) in
    let same : c + (v + value_of ls) ≡ c + v + value_of ls = omega arith in
    let ih = allot_lem t s (c + v) currency ls hs w.1 (omega arith) (rw (← same) ht) in
    let kept = r.grows in
    rw (r.value_round, r.product_round, r.refund_round, r.total_round, same)
      (ih.0, omega (arith, ih.1), (refl, ih.2))

allot_whole :
    (t s : ℕ) (currency : String) (ls : List ResolvedLine)
    → 0 < s
    → All IsWorth ls
    → value_of ls < int64_limit
    → t * value_of ls < int64_limit
    → let (lines, sum) = allot (pos t) s currency (pos 0) (pos 0) (pos 0) ls in
      (sum ≡ pos (t * value_of ls / s))
      × (refunds_of lines ≡ t * value_of ls / s)
      × All IsRefund lines
allot_whole t s currency ls hs w hv ht =
    let nothing : t * 0 ≡ 0 = omega arith in
    let none_yet : t * 0 / s ≡ 0 = rw nothing (zero-div s) in
    let whole : 0 + value_of ls ≡ value_of ls = omega arith in
    let h =
      rw (none_yet, whole) at (allot_lem t s 0 currency ls hs w (omega arith) (rw whole ht)) in
    (h.0, omega (arith, h.1), h.2)

-- For an order with a positive subtotal, lines whose values are not negative, and a product of the
-- order's total and their value that fits an int64: the refunds of the lines of a return are not
-- negative, their sum is the return's total, and this is the order's total times the value divided
-- by the subtotal, rounded down once.
pub return_of_shares :
    (id owner_id reason : String) (o : Order) (t s : ℕ) (ls : List ResolvedLine)
    → o.total.cents ≡ pos t
    → o.subtotal.cents ≡ pos s
    → 0 < s
    → All IsWorth ls
    → value_of ls < int64_limit
    → t * value_of ls < int64_limit
    → let r = return_of id o owner_id reason ls in
      (r.refund_total.cents ≡ pos (t * value_of ls / s))
      × (refunds_of r.lines ≡ t * value_of ls / s)
      × All IsRefund r.lines
unfolding return_of
return_of_shares id owner_id reason o t s ls ht hs hp w hv hm =
    rw (ht, hs) (allot_whole t s o.total.currency ls hp w hv hm)

-- For an order with a positive subtotal, lines whose values are not negative and add up to that
-- subtotal, and a product of the order's total and its subtotal that fits an int64: the return
-- refunds the order's total exactly, tax and discount included, and the refunds written on its lines
-- are not negative and add up to the same total.
pub whole_return_refunds_total :
    (id owner_id reason : String) (o : Order) (t s : ℕ) (ls : List ResolvedLine)
    → o.total.cents ≡ pos t
    → o.subtotal.cents ≡ pos s
    → 0 < s
    → All IsWorth ls
    → value_of ls ≡ s
    → s < int64_limit
    → t * s < int64_limit
    → let r = return_of id o owner_id reason ls in
      (r.refund_total.cents ≡ o.total.cents)
      × (pos (refunds_of r.lines) ≡ o.total.cents)
      × All IsRefund r.lines
whole_return_refunds_total id owner_id reason o t s ls ht hs hp w hv hb hm =
    let h = return_of_shares id owner_id reason o t s ls ht hs hp w (rw hv hb) (rw hv hm) in
    let share : t * value_of ls / s ≡ t = rw hv (mul-div_cancel t hp) in
    (h.0 ∙ ap pos share ∙ sym ht, ap pos (h.1 ∙ share) ∙ sym ht, h.2)
