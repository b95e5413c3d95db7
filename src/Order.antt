-- ===== src/Order.antt =====
-- The order aggregate (services/order/internal/domain/order.go): its lines, its shop groups and
-- its state machine.
pub mod Store
pub mod Trails
pub mod Steps
pub mod Methods
pub mod Paths
pub mod Keys
pub mod Redelivery
pub mod Lines
pub mod Kept
pub mod Returns
pub mod Saga
mod Tests
use Prim.Native.Nat.{Ordering}
use Prim.Native.String.{compare as compare_text}
use commerce_platform.Common.{
  ℕ, String, Bool, true, false, not, ◌||◌, Option, none, some, List, [], ◌∷◌, if◌then◌else◌, str_eq,
  Outcome, ok, err, Error, new_error, ◌>>=◌, ◌>>◌, reject_if, failed_precondition,
}
use commerce_platform.Common.Int.{ℤ, pos, ◌+ℤ◌, ◌*ℤ◌, ◌/ℤ◌, ◌%ℤ◌, int32, int64}

pub data Status : Type 0 where
  pending_payment confirmed cancelled fulfilled : Status

abbrev pub is_pending : Status → Bool
is_pending pending_payment = true
is_pending _ = false

abbrev pub is_confirmed : Status → Bool
is_confirmed confirmed = true
is_confirmed _ = false

abbrev pub is_cancelled : Status → Bool
is_cancelled cancelled = true
is_cancelled _ = false

abbrev pub is_fulfilled : Status → Bool
is_fulfilled fulfilled = true
is_fulfilled _ = false

pub record Money : Type 0 where
  pub currency : String
  pub cents : ℤ

-- `UnitsNanos`.
unfoldable pub units_nanos : Money → ℤ × ℤ
units_nanos m = (m.cents /ℤ 100, int32 (int32 (m.cents %ℤ 100) *ℤ pos 10000000))

-- The shop is the empty text for a first-party line.
pub record Line : Type 0 where
  pub product_id : String
  pub title : String
  pub quantity : ℤ
  pub unit_price : Money
  pub line_total : Money
  pub shop_id : String

pub record Address : Type 0 where
  pub full_name : String
  pub line1 : String
  pub line2 : String
  pub city : String
  pub region : String
  pub postal_code : String
  pub country_code : String
  pub phone : String

-- The times at which an order was made and changed are left out.
pub record Order : Type 0 where
  pub id : String
  pub owner_id : String
  pub status : Status
  pub lines : List Line
  pub subtotal : Money
  pub discount : Money
  pub tax : Money
  pub total : Money
  pub ship_to : Address
  pub cart_id : String
  pub coupon_code : String
  pub payment_id : String
  pub reservation_id : String
  pub pricing_signature : String
  pub cancel_reason : String

abbrev pub contains : String → List String → Bool
contains s [] = false
contains s (x ∷ xs) = str_eq x s || contains s xs

-- The loop of `ShopGroups`, with the shops that were seen.
unfoldable pub groups_from : List String → List Line → List String
groups_from seen [] = []
groups_from seen (l ∷ ls) =
    let again = groups_from seen ls in
    let first = groups_from (l.shop_id ∷ seen) ls in
    if contains l.shop_id seen then again else l.shop_id ∷ first

abbrev text_ltb : String → String → Bool
text_ltb a b = elim (compare_text a b) [ Ordering.lt ↦ true | _ ↦ false ]

-- `sort.Strings`.
unfoldable pub insert_text : String → List String → List String
insert_text x [] = x ∷ []
insert_text x (y ∷ ys) = if text_ltb y x then y ∷ insert_text x ys else x ∷ y ∷ ys

unfoldable pub sort_texts : List String → List String
unfolding insert_text
sort_texts [] = []
sort_texts (x ∷ xs) = insert_text x (sort_texts xs)

unfoldable pub shop_groups : Order → List String
unfolding groups_from sort_texts
shop_groups o = sort_texts (groups_from [] o.lines)

unfoldable pub can_transition_to : Status → Status → Bool
can_transition_to pending_payment to = is_confirmed to || is_cancelled to
can_transition_to confirmed to = is_fulfilled to || is_cancelled to
can_transition_to _ to = false

abbrev pub bad_transition : Error
bad_transition = new_error failed_precondition "BAD_TRANSITION"

unfoldable pub confirm : Order → Outcome Order
unfolding can_transition_to
confirm o = if is_confirmed o.status then ok o else do
  reject_if (not (can_transition_to o.status confirmed)) bad_transition
  ok (record o { status = confirmed })

unfoldable pub cancel : String → Order → Outcome Order
unfolding can_transition_to
cancel reason o = if is_cancelled o.status then ok o else do
  reject_if (not (can_transition_to o.status cancelled)) bad_transition
  ok (record o { status = cancelled; cancel_reason = reason })

unfoldable pub fulfill : Order → Outcome Order
unfolding can_transition_to
fulfill o = if is_fulfilled o.status then ok o else do
  reject_if (not (can_transition_to o.status fulfilled)) bad_transition
  ok (record o { status = fulfilled })
