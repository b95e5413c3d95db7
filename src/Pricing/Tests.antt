-- ===== src/Pricing/Tests.antt =====
-- Prices of concrete carts, and the pricing theorems at concrete inputs.
use commerce_platform.Common.{
  ℕ, ◌+◌, ◌*◌, ◌<◌, ◌≤◌, ◌≡◌, refl, String, none, some, List, [], ◌∷◌, arith, ok, map, min,
}
use commerce_platform.Common.Int.{ℤ, pos, negsuc, pos_part, ◌≤ℤ◌, ◌+ℤ◌, ◌-ℤ◌, ◌*ℤ◌, ◌/ℤ◌, int64}
use commerce_platform.Pricing.{
  money, from_units_nanos, units_nanos, percent_off, tax_bps, Coupon, percent, Line, Quote, price,
  total_lines, discount_of, quote_of, mul_qty, add, sub, sign,
}
use commerce_platform.Pricing.Rounding.{from_units_nanos-units_nanos, shares_round}
use commerce_platform.Pricing.Totals.{gross, with_total, price_adds_up}

from_units_nanos-units_nanos_example :
    let (units, nanos) = units_nanos (money "USD" (negsuc 1234)) in
    from_units_nanos "USD" units nanos ≡ money "USD" (negsuc 1234)
from_units_nanos-units_nanos_example =
    from_units_nanos-units_nanos (money "USD" (negsuc 1234)) (omega arith)

shares_round_example :
    let off = (percent_off (money "USD" (pos 1999)) (pos 15)).cents in
    let tax = (tax_bps (money "USD" (pos 1999)) (pos 825)).cents in
    ((pos 0 ≤ℤ off)
      × (off ≤ℤ pos 1999)
      × (100 * pos_part off ≤ 1999 * min 15 100 + 50)
      × (1999 * min 15 100 < 100 * pos_part off + 50))
    × ((pos 0 ≤ℤ tax)
        × (tax ≤ℤ pos 1999)
        × (10_000 * pos_part tax ≤ 1999 * 825 + 5000)
        × (1999 * 825 < 10_000 * pos_part tax + 5000))
shares_round_example = shares_round "USD" 1999 15 825 (omega arith) (omega arith) (omega arith)

abbrev no_digest : List String → String
no_digest _ = "digest"

abbrev no_format : ℤ → String
no_format _ = "n"

abbrev line : String → ℕ → ℕ → Line
line p q u = record {
  product_id = p;
  title = p;
  quantity = pos q;
  unit_price = money "USD" (pos u);
  line_total = money "" (pos 0);
  shop_id = "";
}

abbrev two_lines : List Line
two_lines = line "mug" 2 999 ∷ line "pen" 1 1 ∷ []

abbrev save10 : Coupon
save10 = record {
  code = "SAVE10";
  kind = percent;
  percent_off = pos 10;
  amount_off = money "USD" (pos 0);
  expires_at = none;
  max_uses = pos 0;
  used_count = pos 0;
}

abbrev quoted : Quote
quoted = record {
  lines = map with_total two_lines;
  subtotal = money "USD" (pos 1999);
  discount = money "USD" (pos 200);
  tax = money "USD" (pos 148);
  total = money "USD" (pos 1947);
  coupon = "SAVE10";
  signature = "digest";
}

price_two : price no_digest no_format "USD" two_lines (some save10) (pos 825) 7 ≡ ok quoted
unfolding price total_lines discount_of quote_of mul_qty add sub tax_bps sign with_total int64 ◌+ℤ◌
    ◌-ℤ◌ ◌*ℤ◌ ◌/ℤ◌
price_two = refl

price_adds_up_example :
    (quoted.lines ≡ map with_total two_lines)
    × (quoted.subtotal ≡ money "USD" (pos (gross two_lines)))
    × (pos 0 ≤ℤ quoted.discount.cents)
    × (quoted.discount.cents ≤ℤ quoted.subtotal.cents)
    × (pos 0 ≤ℤ quoted.tax.cents)
    × (quoted.tax.cents +ℤ quoted.discount.cents ≤ℤ quoted.subtotal.cents)
    × (quoted.total.cents +ℤ quoted.discount.cents ≡ quoted.subtotal.cents +ℤ quoted.tax.cents)
unfolding gross
price_adds_up_example =
    price_adds_up no_digest no_format "USD" two_lines (some save10) 825 7 (omega arith)
      (omega arith) (omega arith) (omega arith) price_two
