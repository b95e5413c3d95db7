-- ===== src/Cart.antt =====
-- The shopping cart (services/cart/internal/domain/cart.go) and the server over its store
-- (services/cart/internal/grpcsvc/server.go, services/cart/internal/store/redis.go).
pub mod Lines
pub mod Puts
pub mod Merge
pub mod Quantities
pub mod Wrap
pub mod Server
mod Tests
use commerce_platform.Common.{
  ℕ, ◌+◌, String, Bool, true, false, ◌&&◌, not, Option, none, some, List, [], ◌∷◌, ◌++◌, ltb, leb,
  if◌then◌else◌, str_eq, Outcome, ok, err, new_error, ◌>>=◌, ◌>>◌, reject_if, invalid_argument,
}
use commerce_platform.Common.Int.{ℤ, pos, ◌+ℤ◌, ltb_ℤ, leb_ℤ, int32}

-- `MaxLineQuantity`.
abbrev pub max_line_quantity : ℕ
max_line_quantity = 999

-- `quantity` is an int32; times are readings of the clock.
pub record Item : Type 0 where
  pub product_id : String
  pub quantity : ℤ
  pub added_at : ℕ

pub record Cart : Type 0 where
  pub id : String
  pub items : List Item
  pub updated_at : ℕ

unfoldable pub new_cart : String → ℕ → Cart
new_cart id now = record { id = id; items = []; updated_at = now }

-- `TotalQuantity`, from the sum so far.
unfoldable pub total_from : ℤ → List Item → ℤ
total_from n [] = n
total_from n (it ∷ its) = total_from (int32 (n +ℤ it.quantity)) its

unfoldable pub total_quantity : Cart → ℤ
unfolding total_from
total_quantity c = total_from (pos 0) c.items

unfoldable pub find : String → List Item → Option Item
find p [] = none
find p (it ∷ its) = if str_eq it.product_id p then some it else find p its

-- A write through the pointer that `find` returns: the first line of the product.
unfoldable pub update_found : String → (ℤ → ℤ) → List Item → List Item
update_found p f [] = []
update_found p f (it ∷ its) =
    if str_eq it.product_id p
    then record it { quantity = f it.quantity } ∷ its
    else it ∷ update_found p f its

-- `clampQty`.
unfoldable pub clamp_qty : ℤ → ℤ
clamp_qty q = if ltb_ℤ (pos max_line_quantity) q then pos max_line_quantity else q

-- `sort.Slice` by the time at which a line was added.
unfoldable pub insert_by_added : Item → List Item → List Item
insert_by_added it [] = it ∷ []
insert_by_added it (x ∷ xs) =
    if leb it.added_at x.added_at then it ∷ x ∷ xs else x ∷ insert_by_added it xs

unfoldable pub sort_by_added : List Item → List Item
sort_by_added [] = []
sort_by_added (it ∷ its) = insert_by_added it (sort_by_added its)

unfoldable pub touch : ℕ → Cart → Cart
touch now c = record c { items = sort_by_added c.items; updated_at = now }

-- The `if it := c.find(…)` of `Add`, `SetQuantity` and `MergeFrom`: change the line, or append one.
unfoldable pub put_line : Item → (ℤ → ℤ) → List Item → List Item
put_line it f its = elim (find it.product_id its) [
  | some _ ↦ update_found it.product_id f its
  | none ↦ its ++ it ∷ []
]

-- `Remove` without the `touch`.
unfoldable pub drop_lines : String → List Item → List Item
drop_lines p [] = []
drop_lines p (it ∷ its) =
    let rest = drop_lines p its in if str_eq it.product_id p then rest else it ∷ rest

unfoldable pub remove : ℕ → String → Cart → Cart
remove now p c = touch now (record c { items = drop_lines p c.items })

unfoldable pub clear : ℕ → Cart → Cart
clear now c = touch now (record c { items = [] })

-- The loop of `MergeFrom`.
unfoldable pub merge_items : List Item → List Item → List Item
merge_items its [] = its
merge_items its (o ∷ os) =
    merge_items (put_line o (λ q. clamp_qty (int32 (q +ℤ o.quantity))) its) os

-- `MergeFrom`.
unfoldable pub merge_from : ℕ → Cart → Cart → Cart
merge_from now c o = touch now (record c { items = merge_items c.items o.items })

-- What `uuid.Parse` accepts is a parameter. A call reads the clock for a new line, and again
-- in `touch`.
module _ (parse_uuid : String → Bool) where
  unfoldable pub check_product_id : String → Outcome (Unit {0})
  check_product_id p = do
    reject_if (str_eq p "") (new_error invalid_argument "PRODUCT_ID_REQUIRED")
    reject_if (not (parse_uuid p)) (new_error invalid_argument "PRODUCT_ID_INVALID")

  unfoldable pub add : ℕ → ℕ → String → ℤ → Cart → Outcome Cart
  add at now p delta c = do
    check_product_id p
    reject_if (leb_ℤ delta (pos 0)) (new_error invalid_argument "BAD_QUANTITY")
    let it : Item = record { product_id = p; quantity = clamp_qty delta; added_at = at }
    ok (touch now (record c { items = put_line it (λ q. clamp_qty (int32 (q +ℤ delta))) c.items }))

  unfoldable pub set_quantity : ℕ → ℕ → String → ℤ → Cart → Outcome Cart
  set_quantity at now p qty c =
      let put =
        check_product_id p
        >> ok (
            touch now (record c {
              items =
                  put_line (record { product_id = p; quantity = clamp_qty qty; added_at = at })
                    (λ _. clamp_qty qty) c.items;
            })) in
      reject_if (ltb_ℤ qty (pos 0)) (new_error invalid_argument "BAD_QUANTITY")
      >> (if leb_ℤ qty (pos 0) then ok (remove now p c) else put)
