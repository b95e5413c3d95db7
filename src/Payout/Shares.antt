-- ===== src/Payout/Shares.antt =====
-- How the lines of an order are shared out among its shops (groupsFrom of
-- services/payout/internal/consumer/consumer.go).
use commerce_platform.Common.{
  ◌≡◌, refl, ap, ◌∙◌, ℕ, ◌+◌, ◌<◌, String, Bool, true, false, ◌||◌, List, [], ◌∷◌, arith,
  if◌then◌else◌, str_eq, eq_iff, eq_refl, All, Bool-cases, inl, inr,
}
use commerce_platform.Common.Int.{ℤ, pos, pos_part, neg_part, ◌+ℤ◌, int64, int64_pos, pos_add}
use commerce_platform.Order.{Money}
use commerce_platform.Payout.{ShopAmount, OrderLine, add, add_share, groups_from, from_units_nanos}

-- The cents of a line, and of the group of a shop.
unfoldable pub worth : OrderLine → ℤ
worth l = (from_units_nanos l.line_total).cents

unfoldable pub amount_in : String → List ShopAmount → ℤ
amount_in shop [] = pos 0
amount_in shop (g ∷ gs) = if str_eq g.shop_id shop then g.amount.cents else amount_in shop gs

-- The exact sum over the lines of a shop.
unfoldable pub total_of : String → List OrderLine → ℕ
total_of shop [] = 0
total_of shop (l ∷ ls) =
    let rest = total_of shop ls in if str_eq l.shop_id shop then pos_part (worth l) + rest else rest

unfoldable pub has_shop : String → List ShopAmount → Bool
has_shop shop [] = false
has_shop shop (g ∷ gs) = str_eq g.shop_id shop || has_shop shop gs

abbrev pub Once : List ShopAmount → Type 0
Once [] = Unit
Once (g ∷ gs) = (has_shop g.shop_id gs ≡ false) × Once gs

amount-add_share :
    (q shop : String) (m : Money) (gs : List ShopAmount)
    → amount_in q (add_share shop m gs)
      ≡ (if str_eq shop q then int64 (amount_in q gs +ℤ m.cents) else amount_in q gs)
unfolding amount_in add_share add
amount-add_share q shop m [] = elim (Bool-cases (str_eq shop q)) [
  | inl e ↦ rw e refl
  | inr e ↦ rw e refl
]
amount-add_share q shop m (g ∷ gs) = elim (Bool-cases (str_eq g.shop_id shop)) [
  | inl e ↦
      let same : str_eq g.shop_id q ≡ str_eq shop q =
        ap (λ i. str_eq i q) ((eq_iff g.shop_id shop).0 e) in
      elim (Bool-cases (str_eq shop q)) [
        | inl f ↦ rw (e, same, f) refl
        | inr f ↦ rw (e, same, f) refl
      ]
  | inr e ↦ elim (Bool-cases (str_eq g.shop_id q)) [
    | inl f ↦
        let other : str_eq shop q ≡ false =
          ground
            (arith, e, f, eq_iff g.shop_id q, eq_iff shop q, eq_refl shop, eq_iff g.shop_id shop) in
        rw (e, f, other) refl
    | inr f ↦ rw (e, f) (amount-add_share q shop m gs)
  ]
]

has_shop-add_share :
    (q shop : String) (m : Money) (gs : List ShopAmount)
    → has_shop q (add_share shop m gs) ≡ str_eq shop q || has_shop q gs
unfolding has_shop add_share
has_shop-add_share q shop m [] = ground arith
has_shop-add_share q shop m (g ∷ gs) = ground (
  arith,
  has_shop-add_share q shop m gs,
  eq_iff g.shop_id shop,
  eq_iff g.shop_id q,
  eq_iff shop q,
)

Once-add_share :
    (shop : String) (m : Money) (gs : List ShopAmount) → Once gs → Once (add_share shop m gs)
unfolding add_share has_shop
Once-add_share shop m [] o = (refl, tt)
Once-add_share shop m (g ∷ gs) (h, o) = elim (Bool-cases (str_eq g.shop_id shop)) [
  | inl e ↦ rw e (h, o)
  | inr e ↦ rw e (
    ground (
      arith,
      has_shop-add_share g.shop_id shop m gs,
      h,
      e,
      eq_iff shop g.shop_id,
      eq_iff g.shop_id shop,
    ),
    Once-add_share shop m gs o,
  )
]

Once-groups_from : (gs : List ShopAmount) (ls : List OrderLine) → Once gs → Once (groups_from gs ls)
unfolding groups_from
Once-groups_from gs [] o = o
Once-groups_from gs (l ∷ ls) o =
    Once-groups_from (add_share l.shop_id (from_units_nanos l.line_total) gs) ls
      (Once-add_share l.shop_id (from_units_nanos l.line_total) gs o)

total_in :
    (q : String) (l : OrderLine) (ls : List OrderLine)
    → str_eq l.shop_id q ≡ true
    → total_of q (l ∷ ls) ≡ pos_part (worth l) + total_of q ls
unfolding total_of
total_in q l ls e = rw e refl

total_out :
    (q : String) (l : OrderLine) (ls : List OrderLine)
    → str_eq l.shop_id q ≡ false
    → total_of q (l ∷ ls) ≡ total_of q ls
unfolding total_of
total_out q l ls e = rw e refl

is_pos : (z : ℤ) → neg_part z ≡ 0 → z ≡ pos (pos_part z)
is_pos z h = ground (arith, h)

-- A line's cents are added to its shop's, which do not overflow.
added :
    (q : String) (a : ℕ) (gs : List ShopAmount) (l : OrderLine)
    → neg_part (worth l) ≡ 0
    → str_eq l.shop_id q ≡ true
    → amount_in q gs ≡ pos a
    → a + pos_part (worth l) < 9223372036854775808
    → amount_in q (add_share l.shop_id (from_units_nanos l.line_total) gs)
      ≡ pos (a + pos_part (worth l))
unfolding worth
added q a gs l w e h fits =
    let m = from_units_nanos l.line_total in
    let sum : amount_in q gs +ℤ m.cents ≡ pos (a + pos_part m.cents) =
      ap (λ z. z +ℤ m.cents) h
      ∙ ap (λ z. pos a +ℤ z) (is_pos m.cents w)
      ∙ pos_add a (pos_part m.cents) in
    amount-add_share q l.shop_id m gs ∙ rw e (ap int64 sum ∙ int64_pos (a + pos_part m.cents) fits)

not_added :
    (q : String) (gs : List ShopAmount) (l : OrderLine)
    → str_eq l.shop_id q ≡ false
    → amount_in q (add_share l.shop_id (from_units_nanos l.line_total) gs) ≡ amount_in q gs
not_added q gs l e = amount-add_share q l.shop_id (from_units_nanos l.line_total) gs ∙ rw e refl

none_left : (q : String) (a : ℕ) → a ≡ a + total_of q []
unfolding total_of
none_left q a = omega arith

sum-groups_from :
    (q : String) (a : ℕ) (gs : List ShopAmount) (ls : List OrderLine)
    → All (λ l. neg_part (worth l) ≡ 0) ls
    → amount_in q gs ≡ pos a
    → a + total_of q ls < 9223372036854775808
    → amount_in q (groups_from gs ls) ≡ pos (a + total_of q ls)
unfolding groups_from
sum-groups_from q a gs [] w h fits = h ∙ ap pos (none_left q a)
sum-groups_from q a gs (l ∷ ls) (wl, w) h fits =
    let m = from_units_nanos l.line_total in
    elim (Bool-cases (str_eq l.shop_id q)) [
      | inl e ↦
          let t = total_in q l ls e in
          let v = pos_part (worth l) in
          let one = added q a gs l wl e h (omega (arith, fits, t)) in
          sum-groups_from q (a + v) (add_share l.shop_id m gs) ls w one (omega (arith, fits, t))
          ∙ ap pos (omega (arith, t))
      | inr e ↦
          let t = total_out q l ls e in
          sum-groups_from q a (add_share l.shop_id m gs) ls w (not_added q gs l e ∙ h)
            (omega (arith, fits, t))
          ∙ ap pos (omega (arith, t))
    ]

-- For an order whose lines have no negative total and sum to less than 2^63 cents for a shop, the
-- consumer makes at most one group for each shop, and the group of that shop holds exactly the sum of
-- its lines.
pub shares_add_up :
    (shop : String) (ls : List OrderLine)
    → All (λ l. neg_part (worth l) ≡ 0) ls
    → total_of shop ls < 9223372036854775808
    → let gs = groups_from [] ls in Once gs × (amount_in shop gs ≡ pos (total_of shop ls))
unfolding amount_in
shares_add_up shop ls w fits = (
  Once-groups_from [] ls tt,
  sum-groups_from shop 0 [] ls w refl (omega (arith, fits)) ∙ ap pos (omega arith),
)
