-- ===== src/Cart/Server.antt =====
-- The handlers of the cart service over its key-value store
-- (services/cart/internal/grpcsvc/server.go). Expiry of a cart, and the failure of the store, are left out.
use commerce_platform.Common.{
  ℕ, ◌≡◌, String, Bool, ◌||◌, none, some, arith, if◌then◌else◌, str_eq, eq_refl, eq_iff, Outcome,
  ok, new_error, invalid_argument, ◌>>=◌, ◌>>◌, reject_if, ◌≢◌, ◌∙◌,
}
use commerce_platform.Common.Int.{ℤ}
use commerce_platform.Common.Table.{Table, lookup, insert, erase, lookup-insert, lookup-erase}
use commerce_platform.Cart.{Cart, new_cart, add, set_quantity, remove, clear, merge_from, touch}

abbrev pub Carts : Type 0
Carts = Table Cart

-- `load`: an absent cart is an empty one.
unfoldable pub load : ℕ → String → Carts → Outcome Cart
load now id s = do
  reject_if (str_eq id "") (new_error invalid_argument "CART_ID_REQUIRED")
  ok (elim (lookup id s) [ none ↦ new_cart id now | some c ↦ record c { id = id } ])

-- `save`.
unfoldable pub save : Cart → Carts → Carts
save c s = insert c.id c s

module _ (parse_uuid : String → Bool) where
  unfoldable pub add_item : ℕ → ℕ → String → String → ℤ → Carts → Outcome Carts
  add_item at now id p qty s = do
    c ← load now id s
    c' ← add parse_uuid at now p qty c
    ok (save c' s)

  unfoldable pub set_item_quantity : ℕ → ℕ → String → String → ℤ → Carts → Outcome Carts
  set_item_quantity at now id p qty s = do
    c ← load now id s
    c' ← set_quantity parse_uuid at now p qty c
    ok (save c' s)

unfoldable pub remove_item : ℕ → String → String → Carts → Outcome Carts
remove_item now id p s = do c ← load now id s; ok (save (remove now p c) s)

unfoldable pub clear_cart : ℕ → String → Carts → Outcome Carts
clear_cart now id s = do c ← load now id s; ok (save (clear now c) s)

-- `Merge`: the target is saved, and then the source is deleted.
unfoldable pub merge : ℕ → String → String → Carts → Outcome (Cart × Carts)
merge now from_id to_id s = do
  reject_if (str_eq from_id "" || str_eq to_id "") (new_error invalid_argument "CART_IDS_REQUIRED")
  from ← load now from_id s
  to ← load now to_id s
  let merged = merge_from now to from
  ok (merged, erase from_id (save merged s))

-- The cart under a name, empty where there is none.
unfoldable pub loaded : ℕ → String → Carts → Cart
loaded now id s = elim (lookup id s) [ none ↦ new_cart id now | some c ↦ record c { id = id } ]

load_lem : (now : ℕ) (id : String) (s : Carts) → id ≢ "" → load now id s ≡ ok (loaded now id s)
unfolding load loaded
load_lem now id s h = ground (arith, eq_iff id "")

loaded-id : (now : ℕ) (id : String) (s : Carts) → (loaded now id s).id ≡ id
unfolding loaded new_cart
loaded-id now id s = ground arith

-- `Merge` of two names succeeds and returns `MergeFrom` of the cart under the source's name into the
-- cart under the target's, an absent cart being an empty one. Afterwards the source's name holds no
-- cart, the target's name, where it is another one, holds the cart that is returned, and every other
-- name holds what it held.
pub merge_moves :
    (now : ℕ) (from_id to_id j : String) (s : Carts)
    → from_id ≢ ""
    → to_id ≢ ""
    → let m = merge_from now (loaded now to_id s) (loaded now from_id s) in
      (s' : Carts) × (merge now from_id to_id s ≡ ok (m, s'))
      × (lookup j s'
          ≡ (if str_eq from_id j then none else if str_eq to_id j then some m else lookup j s))
unfolding merge save
merge_moves now from_id to_id j s hf ht =
    let m = merge_from now (loaded now to_id s) (loaded now from_id s) in
    let e : m.id ≡ to_id = unfold merge_from touch in loaded-id now to_id s in
    (
      erase from_id (save m s),
      ground (
        arith,
        load_lem now from_id s hf,
        load_lem now to_id s ht,
        eq_iff from_id "",
        eq_iff to_id "",
      ),
      ground (arith, lookup-erase from_id j (insert m.id m s), lookup-insert m.id j m s, e),
    )

-- `Merge` of a cart into itself loses it: the call succeeds, and its name holds no cart any more.
pub merge_self_loses :
    (now : ℕ) (id : String) (s : Carts)
    → id ≢ ""
    → (m : Cart) × (s' : Carts) × (merge now id id s ≡ ok (m, s')) × (lookup id s' ≡ none)
merge_self_loses now id s h =
    let (s', run, row) = merge_moves now id id id s h h in (_, s', run, row ∙ rw (eq_refl id))
