-- ===== src/Pricing.antt =====
-- Pricing math (services/pricing/internal/domain/money.go and quote.go): money in minor units as
-- an int64, coupons, and the quote. What Go's int64 arithmetic wraps is wrapped here.
pub mod Rounding
pub mod Totals
mod Tests
use Prim.Native.String.{compare as compare_text, ◌++◌ as append_text}
use Prim.Native.Nat.{Ordering}
use commerce_platform.Common.{
  ℕ, ◌+◌, String, Bool, true, false, ◌&&◌, Option, none, some, List, [], ◌∷◌, ◌++◌, ltb, leb,
  if◌then◌else◌, Outcome, ok, err, new_error, ◌>>=◌, ◌>>◌, reject_if, invalid_argument,
  failed_precondition,
}
use commerce_platform.Common.Int.{
  ℤ, pos, negsuc, ◌+ℤ◌, ◌-ℤ◌, ◌*ℤ◌, ◌/ℤ◌, ◌%ℤ◌, ltb_ℤ, leb_ℤ, int32, int64,
}

-- A currency amount in minor units; `cents` is an int64.
pub record Money : Type 0 where
  pub currency : String
  pub cents : ℤ

abbrev pub money : String → ℤ → Money
money c n = record { currency = c; cents = n }

-- `FromUnitsNanos`: one cent is 10 ^ 7 nanos.
unfoldable pub from_units_nanos : String → ℤ → ℤ → Money
from_units_nanos currency units nanos =
    money currency (int64 (int64 (units *ℤ pos 100) +ℤ nanos /ℤ 10_000_000))

-- `UnitsNanos`.
unfoldable pub units_nanos : Money → ℤ × ℤ
units_nanos m = (m.cents /ℤ 100, int32 (int32 (m.cents %ℤ 100) *ℤ pos 10_000_000))

unfoldable pub mul_qty : Money → ℤ → Money
mul_qty m q = money m.currency (int64 (m.cents *ℤ q))

unfoldable pub add : Money → Money → Money
add m o = money m.currency (int64 (m.cents +ℤ o.cents))

-- `Sub` stops at zero.
unfoldable pub sub : Money → Money → Money
sub m o =
    let v = int64 (m.cents -ℤ o.cents) in money m.currency (if ltb_ℤ v (pos 0) then pos 0 else v)

-- `PercentOff`: p % of an amount, to the nearest cent, half up.
unfoldable pub percent_off : Money → ℤ → Money
percent_off m p =
    if leb_ℤ p (pos 0)
    then money m.currency (pos 0)
    else (let p' = if ltb_ℤ (pos 100) p then pos 100 else p in
        money m.currency (int64 (int64 (m.cents *ℤ p') +ℤ pos 50) /ℤ 100))

-- `TaxBps`: a rate in basis points, half up.
unfoldable pub tax_bps : Money → ℤ → Money
tax_bps m bps =
    if leb_ℤ bps (pos 0)
    then money m.currency (pos 0)
    else money m.currency (int64 (int64 (m.cents *ℤ bps) +ℤ pos 5000) /ℤ 10_000)

-- `Min`.
unfoldable pub min_money : Money → Money → Money
min_money a b = if ltb_ℤ a.cents b.cents then a else b

-- A kind that is neither of the two constants is `other`.
pub data CouponKind : Type 0 where
  percent amount other : CouponKind

pub record Coupon : Type 0 where
  pub code : String
  pub kind : CouponKind
  pub percent_off : ℤ
  pub amount_off : Money
  -- `none` is the zero time
  pub expires_at : Option ℕ
  pub max_uses : ℤ
  pub used_count : ℤ

unfoldable pub is_expired : Option ℕ → ℕ → Bool
is_expired none now = false
is_expired (some t) now = ltb t now

-- `Valid`: the reason why the coupon cannot be applied, `none` if it can.
unfoldable pub invalid_reason : Coupon → ℕ → Option String
unfolding is_expired
invalid_reason c now =
    if is_expired c.expires_at now
    then some "EXPIRED"
    else if ltb_ℤ (pos 0) c.max_uses && leb_ℤ c.max_uses c.used_count
    then some "EXHAUSTED"
    else none

pub record Line : Type 0 where
  pub product_id : String
  pub title : String
  pub quantity : ℤ
  pub unit_price : Money
  pub line_total : Money
  pub shop_id : String

pub record Quote : Type 0 where
  pub lines : List Line
  pub subtotal : Money
  pub discount : Money
  pub tax : Money
  pub total : Money
  pub coupon : String
  pub signature : String

-- The loop of `Price`, which fills the line totals and adds them up.
unfoldable pub total_lines : Money → List Line → Outcome (List Line × Money)
total_lines subtotal [] = ok ([], subtotal)
total_lines subtotal (l ∷ ls) =
    let l' = record l { line_total = mul_qty l.unit_price l.quantity } in
    let rest = total_lines (add subtotal l'.line_total) ls in
    if leb_ℤ l.quantity (pos 0)
    then err (new_error invalid_argument "BAD_QUANTITY")
    else (do (ls', sum) ← rest; ok (l' ∷ ls', sum))

-- The `switch` on the coupon's kind.
unfoldable pub discount_by : CouponKind → String → Coupon → Money → Money
unfolding percent_off min_money
discount_by percent currency c subtotal = percent_off subtotal c.percent_off
discount_by amount currency c subtotal = min_money (money currency c.amount_off.cents) subtotal
discount_by other currency c subtotal = money currency (pos 0)

-- The discount and the code of the coupon that was applied.
unfoldable pub discount_of : String → Option Coupon → ℕ → Money → Outcome (Money × String)
unfolding invalid_reason discount_by
discount_of currency none now subtotal = ok (money currency (pos 0), "")
discount_of currency (some c) now subtotal = elim (invalid_reason c now) [
  | some reason ↦ err (new_error failed_precondition (append_text "COUPON_" reason))
  | none ↦ ok (discount_by c.kind currency c subtotal, c.code)
]

abbrev text_ltb : String → String → Bool
text_ltb a b = elim (compare_text a b) [ Ordering.lt ↦ true | _ ↦ false ]

-- `sort.Slice` by product id, which the server makes distinct.
unfoldable pub insert_by_product : Line → List Line → List Line
insert_by_product l [] = l ∷ []
insert_by_product l (m ∷ ms) =
    if text_ltb m.product_id l.product_id then m ∷ insert_by_product l ms else l ∷ m ∷ ms

unfoldable pub sort_by_product : List Line → List Line
unfolding insert_by_product
sort_by_product [] = []
sort_by_product (l ∷ ls) = insert_by_product l (sort_by_product ls)

-- SHA-256 in hexadecimal, of the texts that are written to it, and `strconv.FormatInt`.
module _ (digest : List String → String) (format_int : ℤ → String) where
  unfoldable pub line_texts : List Line → List String
  line_texts [] = []
  line_texts (l ∷ ls) =
      l.product_id
      ∷ ":"
      ∷ format_int l.quantity
      ∷ "@"
      ∷ format_int l.unit_price.cents
      ∷ ";"
      ∷ line_texts ls

  -- `signature`.
  unfoldable pub sign : String → List Line → Money → Money → Money → String
  unfolding line_texts sort_by_product
  sign currency lines discount tax total = digest (
      "cur="
      ∷ currency
      ∷ ";disc="
      ∷ format_int discount.cents
      ∷ ";tax="
      ∷ format_int tax.cents
      ∷ ";total="
      ∷ format_int total.cents
      ∷ ";"
      ∷ line_texts (sort_by_product lines))

  -- The end of `Price`, once the discount is known.
  unfoldable pub quote_of : String → List Line → Money → Money → String → ℤ → Quote
  quote_of currency lines subtotal discount coupon bps =
      let taxable = sub subtotal discount in
      let tax = tax_bps taxable bps in
      let total = add taxable tax in
      record {
        lines = lines;
        subtotal = subtotal;
        discount = discount;
        tax = tax;
        total = total;
        coupon = coupon;
        signature = sign currency lines discount tax total;
      }

  -- `Price`.
  unfoldable pub price : String → List Line → Option Coupon → ℤ → ℕ → Outcome Quote
  price currency [] coupon bps now = err (new_error invalid_argument "EMPTY_QUOTE")
  price currency (l ∷ ls) coupon bps now = do
    (lines, subtotal) ← total_lines (money currency (pos 0)) (l ∷ ls)
    (discount, code) ← discount_of currency coupon now subtotal
    ok (quote_of currency lines subtotal discount code bps)
