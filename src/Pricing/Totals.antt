-- ===== src/Pricing/Totals.antt =====
-- The sums of a quote: subtotal, discount, tax and total fit together.
use commerce_platform.Common.{
  ℕ, ◌+◌, ◌-◌, ◌*◌, ◌<◌, ◌≤◌, ◌≡◌, refl, String, Bool, true, false, arith, Option, none, some, List,
  [], ◌∷◌, All, map, if◌then◌else◌, inl, inr, ok, err, Error, new_error, invalid_argument, ◌&&◌,
  Bool-cases, Outcome-cases, ◌==◌, min, ap, ◌/◌, ◌∙◌,
}
use commerce_platform.Common.Int.{
  ℤ, pos, negsuc, pos_part, ◌≤ℤ◌, ◌+ℤ◌, ltb_ℤ, leb_ℤ, pos_mul, pos_add, int64_pos, ◌-ℤ◌,
}
use commerce_platform.Pricing.{
  Money, money, mul_qty, add, sub, percent_off, tax_bps, min_money, Coupon, CouponKind, percent,
  amount, other, Line, Quote, total_lines, discount_by, discount_of, quote_of, price,
}
use commerce_platform.Pricing.Rounding.{percent_off_pos, tax_bps_pos, mul_mono}

-- What the lines cost, with no bound on the sum.
unfoldable pub gross : List Line → ℕ
gross [] = 0
gross (l ∷ ls) = pos_part l.unit_price.cents * pos_part l.quantity + gross ls

-- No unit price is negative.
abbrev pub IsPriced : List Line → Type 0
IsPriced ls = All (λ l. pos 0 ≤ℤ l.unit_price.cents) ls

-- A line with its total filled in.
unfoldable pub with_total : Line → Line
with_total l = record l { line_total = mul_qty l.unit_price l.quantity }

mul_qty_pos :
    (l : Line)
    → pos 0 ≤ℤ l.unit_price.cents
    → leb_ℤ l.quantity (pos 0) ≡ false
    → pos_part l.unit_price.cents * pos_part l.quantity < 9223372036854775808
    → (mul_qty l.unit_price l.quantity).cents
      ≡ pos (pos_part l.unit_price.cents * pos_part l.quantity)
unfolding mul_qty
mul_qty_pos l p q fits = ground (
  arith,
  pos_mul (pos_part l.unit_price.cents) (pos_part l.quantity),
  int64_pos (pos_part l.unit_price.cents * pos_part l.quantity),
)

add_pos :
    (c : String) (a b : ℕ) (m : Money)
    → m.cents ≡ pos b
    → a + b < 9223372036854775808
    → add (money c (pos a)) m ≡ money c (pos (a + b))
unfolding add
add_pos c a b m e fits = rw (e, pos_add a b, int64_pos (a + b) fits)

unfoldable pub all_positive : List Line → Bool
all_positive [] = true
all_positive (l ∷ ls) = ltb_ℤ (pos 0) l.quantity && all_positive ls

abbrev bad_quantity : Error
bad_quantity = new_error invalid_argument "BAD_QUANTITY"

-- The loop of `Price` in closed form.
total_lines_sum :
    (c : String) (a : ℕ) (ls : List Line)
    → IsPriced ls
    → a + gross ls < 9223372036854775808
    → total_lines (money c (pos a)) ls ≡ (
        if all_positive ls
        then ok (map with_total ls, money c (pos (a + gross ls)))
        else err bad_quantity)
unfolding total_lines gross all_positive with_total
total_lines_sum c a [] p fits = ground arith
total_lines_sum c a (l ∷ ls) p fits = elim (Bool-cases (leb_ℤ l.quantity (pos 0))) [
  | inl bad ↦ ground arith
  | inr good ↦
      let u = pos_part l.unit_price.cents * pos_part l.quantity in
      let e =
        add_pos c a u (mul_qty l.unit_price l.quantity) (mul_qty_pos l p.0 good (omega arith))
          (omega arith) in
      let assoc : a + u + gross ls ≡ a + (u + gross ls) = omega arith in
      ground (arith, e, assoc, total_lines_sum c (a + u) ls p.1 (omega arith))
]

-- The discount lies between zero and the subtotal.
discount_within :
    (k : CouponKind) (c : String) (cp : Coupon) (g : ℕ)
    → g * 100 + 50 < 9223372036854775808
    → pos 0 ≤ℤ cp.amount_off.cents
    → (d : ℕ) × (discount_by k c cp (money c (pos g)) ≡ money c (pos d)) × (d ≤ g)
unfolding discount_by
discount_within percent c cp g fits h = by_percent cp.percent_off
  where
    by_percent : (p : ℤ) → (d : ℕ) × (percent_off (money c (pos g)) p ≡ money c (pos d)) × (d ≤ g)
    by_percent (pos p) =
        (_, percent_off_pos c g p fits, ground (arith, mul_mono g (min p 100) 100 (omega arith)))
    by_percent (negsuc p) = (0, unfold percent_off in ground arith, omega arith)
discount_within amount c cp g fits h =
    (min (pos_part cp.amount_off.cents) g, unfold min_money in ground arith, omega arith)
discount_within other c cp g fits h = (0, refl, omega arith)

-- A coupon with an amount takes nothing negative off.
abbrev pub IsCoupon : Option Coupon → Type 0
IsCoupon none = Unit
IsCoupon (some cp) = pos 0 ≤ℤ cp.amount_off.cents

discount_of_within :
    (c : String) (cp : Option Coupon) (now g : ℕ) {out : Money × String}
    → g * 100 + 50 < 9223372036854775808
    → IsCoupon cp
    → discount_of c cp now (money c (pos g)) ≡ ok out
    → (d : ℕ) × (out.0 ≡ money c (pos d)) × (d ≤ g)
unfolding discount_of
discount_of_within c none now g fits h e = (0, ground arith, omega arith)
discount_of_within c (some cp) now g {out} fits h e =
    let (d, eq, le) = discount_within cp.kind c cp g fits h in (d, ground (arith, eq), le)

figures_add_up :
    (c : String) (ls : List Line) (g d t : ℕ) (q : Quote)
    → d ≤ g
    → t ≤ g - d
    → q.lines ≡ ls
    → q.subtotal ≡ money c (pos g)
    → q.discount ≡ money c (pos d)
    → q.tax ≡ money c (pos t)
    → q.total ≡ money c (pos (g - d + t))
    → (q.lines ≡ ls)
      × (q.subtotal ≡ money c (pos g))
      × (pos 0 ≤ℤ q.discount.cents)
      × (q.discount.cents ≤ℤ q.subtotal.cents)
      × (pos 0 ≤ℤ q.tax.cents)
      × (q.tax.cents +ℤ q.discount.cents ≤ℤ q.subtotal.cents)
      × (q.total.cents +ℤ q.discount.cents ≡ q.subtotal.cents +ℤ q.tax.cents)
figures_add_up c ls g d t q d_le t_le e1 e2 e3 e4 e5 =
    ground (arith, pos_add t d, pos_add (g - d + t) d, pos_add g t)

module _ (digest : List String → String) (format_int : ℤ → String) where
  -- The figures of a quote whose subtotal is `g` and whose discount is `d`.
  quote_of_figures :
      (c code : String) (ls : List Line) (g d b : ℕ)
      → d ≤ g
      → b ≤ 10_000
      → g * 10_000 + 5000 < 9223372036854775808
      → let q = quote_of digest format_int c ls (money c (pos g)) (money c (pos d)) code (pos b) in
        (t : ℕ) × (q.tax ≡ money c (pos t)) × (t ≤ g - d) × (q.total ≡ money c (pos (g - d + t)))
  unfolding quote_of
  quote_of_figures c code ls g d b le r fits =
      let n = g - d in
      let t = (if b == 0 then 0 else (n * b + 5000) / 10_000) in
      let e1 : sub (money c (pos g)) (money c (pos d)) ≡ money c (pos n) =
        unfold sub ◌-ℤ◌ in ground (arith, int64_pos n) in
      let bound : n * b ≤ n * 10_000 = mul_mono n b 10_000 r in
      let e2 : tax_bps (money c (pos n)) (pos b) ≡ money c (pos t) =
        tax_bps_pos c n b (omega arith) in
      let t_le : t ≤ n = ground arith in
      let e3 : add (money c (pos n)) (money c (pos t)) ≡ money c (pos (n + t)) =
        add_pos c n t (money c (pos t)) refl (omega arith) in
      (t, rw (e1, e2), t_le, rw (e1, e2, e3))

  price_parts :
      (c : String) (l : Line) (ls : List Line) (cp : Option Coupon) (b : ℤ) (now : ℕ) {q : Quote}
      → IsPriced (l ∷ ls)
      → gross (l ∷ ls) < 9223372036854775808
      → price digest format_int c (l ∷ ls) cp b now ≡ ok q
      → let subtotal = money c (pos (gross (l ∷ ls))) in
        (out : Money × String) × (discount_of c cp now subtotal ≡ ok out)
        × (q ≡ quote_of digest format_int c (map with_total (l ∷ ls)) subtotal out.0 out.1 b)
  unfolding price
  price_parts c l ls cp b now {q} p fits h =
      let subtotal = money c (pos (gross (l ∷ ls))) in
      let closed = total_lines_sum c 0 (l ∷ ls) p (omega arith) in
      let zero_add : 0 + gross (l ∷ ls) ≡ gross (l ∷ ls) = omega arith in
      elim (Outcome-cases (discount_of c cp now subtotal)) [
        | inl (out, e) ↦ (out, e, ground (arith, closed, zero_add, e))
        | inr (x, e) ↦ absurd (ground (arith, closed, zero_add, e))
      ]

  quote_fields :
      (c code : String) (ls : List Line) (s d : Money) (b : ℤ)
      → let q = quote_of digest format_int c ls s d code b in
        (q.lines ≡ ls) × (q.subtotal ≡ s) × (q.discount ≡ d)
  unfolding quote_of
  quote_fields c code ls s d b = (refl, refl, refl)

  -- A quote adds up. Where no unit price is negative, the rate is at most 100 %, a coupon takes
  -- no negative amount off and the undiscounted sum leaves room in an int64 for the tax, `Price` gives, when it
  -- succeeds, the lines with their totals filled in, a subtotal that is their exact sum, a discount between zero and the subtotal,
  -- a tax no larger than what is taxed, and a total such that total and discount make subtotal and tax.
  pub price_adds_up :
      (c : String) (ls : List Line) (cp : Option Coupon) (b now : ℕ) {q : Quote}
      → IsPriced ls
      → IsCoupon cp
      → b ≤ 10_000
      → gross ls * 10_000 + 5000 < 9223372036854775808
      → price digest format_int c ls cp (pos b) now ≡ ok q
      → (q.lines ≡ map with_total ls)
        × (q.subtotal ≡ money c (pos (gross ls)))
        × (pos 0 ≤ℤ q.discount.cents)
        × (q.discount.cents ≤ℤ q.subtotal.cents)
        × (pos 0 ≤ℤ q.tax.cents)
        × (q.tax.cents +ℤ q.discount.cents ≤ℤ q.subtotal.cents)
        × (q.total.cents +ℤ q.discount.cents ≡ q.subtotal.cents +ℤ q.tax.cents)
  price_adds_up c [] cp b now p k r fits h = absurd (unfold price in ground arith)
  price_adds_up c (l ∷ ls) cp b now {q} p k r fits h =
      let g = gross (l ∷ ls) in
      let (out, cut, made) = price_parts c l ls cp (pos b) now p (omega arith) h in
      let (d, d_eq, d_le) = discount_of_within c cp now g (omega arith) k cut in
      let (t, t_eq, t_le, total_eq) =
        quote_of_figures c out.1 (map with_total (l ∷ ls)) g d b d_le r fits in
      let (e1, e2, e3) =
        quote_fields c out.1 (map with_total (l ∷ ls)) (money c (pos g)) (money c (pos d))
          (pos b) in
      let q' =
        quote_of digest format_int c (map with_total (l ∷ ls)) (money c (pos g)) (money c (pos d))
          out.1 (pos b) in
      let same : q ≡ q' =
        made
        ∙ ap
            (λ m.
              quote_of digest format_int c (map with_total (l ∷ ls)) (money c (pos g)) m out.1
                (pos b))
            d_eq in
      rw same (figures_add_up c (map with_total (l ∷ ls)) g d t q' d_le t_le e1 e2 e3 t_eq total_eq)
