-- ===== src/Inventory/Server.antt =====
-- The handlers of services/inventory/internal/grpcsvc/server.go: what they check before the store.
use commerce_platform.Common.{
  ◌&&◌, ◌||◌, ℕ, String, Bool, true, false, Option, List, [], ◌∷◌, if◌then◌else◌, str_eq, Outcome,
  ok, err, new_error, ◌>>◌, reject_if, invalid_argument,
}
use commerce_platform.Common.Int.{ℤ, pos, pos_part, leb_ℤ, ltb_ℤ, int32}
use commerce_platform.Auth.{Principal, require_role, allowed}
use commerce_platform.Inventory.{
  Level, Line, Db, available, level, reserve, commit, release, adjust_stock,
}

pub record StockLevel : Type 0 where
  pub product_id : String
  pub on_hand : ℤ
  pub reserved : ℤ
  pub available : ℤ

unfoldable pub stock_level : String → Level → StockLevel
unfolding available
stock_level p l = record {
  product_id = p;
  on_hand = int32 (pos l.on_hand);
  reserved = int32 (pos l.reserved);
  available = int32 (available l);
}

-- `CheckAvailability`.
unfoldable pub check_availability : List String → Db → List StockLevel
unfolding stock_level
check_availability [] db = []
check_availability (p ∷ ps) db = stock_level p (level p db) ∷ check_availability ps db

-- `defaultTTL`, `minTTL` and `maxTTL`, in seconds, and the switch on them.
unfoldable pub reservation_ttl : ℤ → ℕ
reservation_ttl ttl =
    if leb_ℤ ttl (pos 0) && leb_ℤ (pos 0) ttl
    then 900
    else if ltb_ℤ ttl (pos 60)
    then 60
    else if ltb_ℤ (pos 3600) ttl
    then 3600
    else pos_part ttl

abbrev pub is_nil {ℓ} : {A : Type ℓ} → List A → Bool
is_nil [] = true
is_nil (x ∷ xs) = false

-- The loop over the items.
unfoldable pub has_bad_quantity : List Line → Bool
has_bad_quantity [] = false
has_bad_quantity (l ∷ ls) = leb_ℤ l.quantity (pos 0) || has_bad_quantity ls

unfoldable pub check_reserve : String → List Line → Outcome (Unit {0})
unfolding has_bad_quantity
check_reserve order_ref lines = do
  reject_if (str_eq order_ref "") (new_error invalid_argument "ORDER_REF_REQUIRED")
  reject_if (is_nil lines) (new_error invalid_argument "NO_ITEMS")
  reject_if (has_bad_quantity lines) (new_error invalid_argument "BAD_QUANTITY")
  ok tt

-- `Reserve`, with the id that is drawn and the clock.
unfoldable pub serve_reserve : String → ℕ → String → List Line → ℤ → Db → Db × Outcome (String × ℕ)
unfolding check_reserve reservation_ttl
serve_reserve rid now order_ref lines ttl db =
    allowed (check_reserve order_ref lines) db
      (reserve rid now order_ref lines (reservation_ttl ttl) db)

-- `Commit` and `Release` only pass the id on.
unfoldable pub serve_commit : (String → Bool) → String → Db → Db × Outcome (Unit {0})
serve_commit parse_uuid rid db = commit parse_uuid rid db

unfoldable pub serve_release : (String → Bool) → String → Db → Db × Outcome (Unit {0})
serve_release parse_uuid rid db = release parse_uuid rid db

-- `AdjustStock`, for inventory managers.
unfoldable pub check_adjust : Option Principal → String → Outcome (Unit {0})
unfolding require_role
check_adjust p product_id = do
  require_role "inventory_manager" p
  reject_if (str_eq product_id "") (new_error invalid_argument "PRODUCT_ID_REQUIRED")
  ok tt

abbrev pub with_level : String → Db × Outcome Level → Db × Outcome StockLevel
with_level p (db, ok l) = (db, ok (stock_level p l))
with_level p (db, err e) = (db, err e)

unfoldable pub serve_adjust : Option Principal → String → ℤ → Db → Db × Outcome StockLevel
unfolding check_adjust stock_level
serve_adjust p product_id delta db =
    allowed (check_adjust p product_id) db
      (with_level product_id (adjust_stock product_id delta db))
