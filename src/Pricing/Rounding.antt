-- ===== src/Pricing/Rounding.antt =====
-- The rounding of percentages, taxes and wire amounts.
use commerce_platform.Common.{
  ℕ, ◌+◌, ◌*◌, ◌/◌, ◌<◌, ◌≤◌, ◌≡◌, String, arith, ltb, if◌then◌else◌, inl, inr, min, ◌==◌,
  Bool-cases,
}
use commerce_platform.Common.Int.{
  ℤ, pos, negsuc, pos_part, ◌+ℤ◌, ◌*ℤ◌, ◌/ℤ◌, ◌%ℤ◌, ◌≤ℤ◌, int32, int64, IsInt64, pos_mul, pos_add,
  int64_pos,
}
use commerce_platform.Pricing.{Money, money, from_units_nanos, units_nanos, percent_off, tax_bps}

-- `int32(cents % 100) * 10_000_000` does not wrap: it is below 10 ^ 9.
nanos_back : (z : ℤ) → int32 (int32 (z %ℤ 100) *ℤ pos 10_000_000) /ℤ 10_000_000 ≡ z %ℤ 100
unfolding int32 ◌*ℤ◌ ◌/ℤ◌ ◌%ℤ◌
nanos_back (pos n) = ground arith
nanos_back (negsuc n) = ground arith

units_back : (z : ℤ) → IsInt64 z → int64 (int64 (z /ℤ 100 *ℤ pos 100) +ℤ z %ℤ 100) ≡ z
unfolding int64 ◌*ℤ◌ ◌/ℤ◌ ◌%ℤ◌ ◌+ℤ◌
units_back (pos n) h = ground arith
units_back (negsuc n) h = ground arith

-- Splitting any int64 of cents into units and nanos for the wire, and reading it back, gives the
-- amount again, negative amounts included.
pub from_units_nanos-units_nanos :
    (m : Money)
    → IsInt64 m.cents
    → let (units, nanos) = units_nanos m in from_units_nanos m.currency units nanos ≡ m
unfolding from_units_nanos units_nanos
from_units_nanos-units_nanos m h = rw (nanos_back m.cents, units_back m.cents h)

pub mul_mono : (n a b : ℕ) → a ≤ b → n * a ≤ n * b
mul_mono n a b h = grind arith

mul_min_le : (n p : ℕ) → n * min p 100 ≤ n * 100
mul_min_le n p = mul_mono n (min p 100) 100 (omega arith)

-- For an amount that is not negative, and a product that fits, the percentage in closed form.
pub percent_off_pos :
    (c : String) (n p : ℕ)
    → n * 100 + 50 < 9223372036854775808
    → percent_off (money c (pos n)) (pos p)
      ≡ money c (pos (if p == 0 then 0 else (n * min p 100 + 50) / 100))
unfolding percent_off ◌/ℤ◌
percent_off_pos c n p h = elim (Bool-cases (ltb 100 p)) [
  | inl big ↦ ground (
    arith,
    pos_mul n 100,
    pos_add (n * 100) 50,
    int64_pos (n * 100),
    int64_pos (n * 100 + 50),
    mul_min_le n p,
  )
  | inr small ↦ ground (
    arith,
    pos_mul n p,
    pos_add (n * p) 50,
    int64_pos (n * p),
    int64_pos (n * p + 50),
    mul_min_le n p,
  )
]

percent_off_rounds :
    (c : String) (n p : ℕ)
    → n * 100 + 50 < 9223372036854775808
    → let z = (percent_off (money c (pos n)) (pos p)).cents in
      (pos 0 ≤ℤ z)
      × (z ≤ℤ pos n)
      × (100 * pos_part z ≤ n * min p 100 + 50)
      × (n * min p 100 < 100 * pos_part z + 50)
percent_off_rounds c n p h = rw (percent_off_pos c n p h) (ground (arith, mul_min_le n p))

-- For an amount that is not negative, and a product that fits, the tax in closed form.
pub tax_bps_pos :
    (c : String) (n b : ℕ)
    → n * b + 5000 < 9223372036854775808
    → tax_bps (money c (pos n)) (pos b)
      ≡ money c (pos (if b == 0 then 0 else (n * b + 5000) / 10_000))
unfolding tax_bps ◌/ℤ◌
tax_bps_pos c n b h =
    ground (arith, pos_mul n b, pos_add (n * b) 5000, int64_pos (n * b), int64_pos (n * b + 5000))

tax_bps_rounds :
    (c : String) (n b : ℕ)
    → b ≤ 10_000
    → n * b + 5000 < 9223372036854775808
    → let z = (tax_bps (money c (pos n)) (pos b)).cents in
      (pos 0 ≤ℤ z)
      × (z ≤ℤ pos n)
      × (10_000 * pos_part z ≤ n * b + 5000)
      × (n * b < 10_000 * pos_part z + 5000)
tax_bps_rounds c n b r h = rw (tax_bps_pos c n b h) (ground (arith, mul_mono n b 10_000 r))

-- A share of an amount, be it a percentage or a tax at a rate in basis points of up to 100 %, lies
-- within half a cent of the exact one, halves rounded up, and between zero and the amount; a
-- percentage above 100 counts as 100. The amount is not negative, and its products with 100 and with
-- the rate fit an int64.
pub shares_round :
    (c : String) (n p b : ℕ)
    → b ≤ 10_000
    → n * 100 + 50 < 9223372036854775808
    → n * b + 5000 < 9223372036854775808
    → let off = (percent_off (money c (pos n)) (pos p)).cents in
      let tax = (tax_bps (money c (pos n)) (pos b)).cents in
      ((pos 0 ≤ℤ off)
        × (off ≤ℤ pos n)
        × (100 * pos_part off ≤ n * min p 100 + 50)
        × (n * min p 100 < 100 * pos_part off + 50))
      × ((pos 0 ≤ℤ tax)
          × (tax ≤ℤ pos n)
          × (10_000 * pos_part tax ≤ n * b + 5000)
          × (n * b < 10_000 * pos_part tax + 5000))
shares_round c n p b r h k = (percent_off_rounds c n p h, tax_bps_rounds c n b r k)
