-- ===== src/Inventory/Tests.antt =====
-- Runs of the stock store, and its theorems at concrete inputs.
use commerce_platform.Common.{
  ◌+◌, ◌≤◌, ◌<◌, ◌≡◌, refl, String, Bool, true, false, none, some, List, [], ◌∷◌, arith, ok, err,
  length,
}
use commerce_platform.Common.Table.{lookup, insert}
use commerce_platform.Common.Int.{pos, negsuc, ◌+ℤ◌, ◌-ℤ◌}
use commerce_platform.Inventory.{
  Line, Reservation, Db, held, committed, released, level, reserve, commit, release, adjust_stock,
  expire_due, due_rows, insufficient_stock, reservation_is_held, ensure_stock_row, finish_tx,
  settle, expire_rows, insert_by_expiry,
}
use commerce_platform.Inventory.Sums.{held_for, IsValid, int4_limit}
use commerce_platform.Inventory.Reserve.{ordered}
use commerce_platform.Inventory.Settlement.{
  Finishes, commit_exact, release_exact, settles_once, reserve-release_restores,
  reserve-commit_sells,
}
use commerce_platform.Inventory.Adjust.{Adjusts, adjust_stock_exact}
use commerce_platform.Inventory.Run.{
  Op, ensure_op, reserve_op, commit_op, empty, run, run-IsValid, empty-IsValid, reserved_is_held,
}
use commerce_platform.Inventory.Sweep.{expire_due_sweeps}

-- Every id is well formed.
abbrev any_uuid : String → Bool
any_uuid _ = true

abbrev seeded : List Op
seeded = ensure_op "mug" (pos 10) ∷ ensure_op "pen" (pos 4) ∷ []

abbrev shop : Db
shop = run any_uuid seeded empty

shop-IsValid : IsValid shop
shop-IsValid = run-IsValid any_uuid seeded empty empty-IsValid

abbrev two_lines : List Line
two_lines =
    record { product_id = "mug"; quantity = pos 3 }
    ∷ record { product_id = "pen"; quantity = pos 4 }
    ∷ []

abbrev too_many : List Line
too_many =
    record { product_id = "mug"; quantity = pos 3 }
    ∷ record { product_id = "pen"; quantity = pos 5 }
    ∷ []

reserve_two : (reserve "r1" 100 "o1" two_lines 900 shop).1 ≡ ok ("r1", 1000)
unfolding reserve run ensure_stock_row empty lookup insert ◌+ℤ◌ ◌-ℤ◌
reserve_two = refl

-- The first line is rolled back with the second.
reserve-too_many : reserve "r1" 100 "o1" too_many 900 shop ≡ (shop, err insufficient_stock)
unfolding reserve run ensure_stock_row empty lookup insert ◌+ℤ◌ ◌-ℤ◌
reserve-too_many = refl

abbrev held_shop : Db
held_shop =
    run any_uuid
      (ensure_op "mug" (pos 10)
        ∷ ensure_op "pen" (pos 4)
        ∷ reserve_op "r1" 100 "o1" two_lines 900
        ∷ [])
      empty

held_shop-IsValid : IsValid held_shop
held_shop-IsValid = run-IsValid any_uuid _ empty empty-IsValid

commit_two : level "mug" (commit any_uuid "r1" held_shop).0 ≡ record { on_hand = 7; reserved = 0 }
unfolding commit finish_tx settle reservation_is_held level reserve run ensure_stock_row empty
    lookup insert ◌+ℤ◌ ◌-ℤ◌
commit_two = refl

sweep_late : (expire_due any_uuid 1001 50 held_shop).1 ≡ ok 1
unfolding expire_due expire_rows due_rows insert_by_expiry release finish_tx settle
    reservation_is_held level reserve run ensure_stock_row empty lookup insert ◌+ℤ◌ ◌-ℤ◌
sweep_late = refl

commit_exact_example :
    let (db', res) = commit any_uuid "r1" held_shop in
    (res ≡ ok tt)
    × IsValid db'
    × Finishes true "r1" committed held_shop (reservation_is_held any_uuid "r1" held_shop) db'
commit_exact_example = commit_exact any_uuid "r1" held_shop held_shop-IsValid

release_exact_example :
    let (db', res) = release any_uuid "r1" held_shop in
    (res ≡ ok tt)
    × IsValid db'
    × Finishes false "r1" released held_shop (reservation_is_held any_uuid "r1" held_shop) db'
release_exact_example = release_exact any_uuid "r1" held_shop held_shop-IsValid

settles_once_example :
    let sold = (commit any_uuid "r1" held_shop).0 in
    let freed = (release any_uuid "r1" held_shop).0 in
    ((commit any_uuid "r1" sold ≡ (sold, ok tt)) × (release any_uuid "r1" sold ≡ (sold, ok tt)))
    × ((release any_uuid "r1" freed ≡ (freed, ok tt))
        × (commit any_uuid "r1" freed ≡ (freed, ok tt)))
settles_once_example = settles_once any_uuid "r1" held_shop held_shop-IsValid

reserve-release_restores_example :
    level "mug" (release any_uuid "r1" (reserve "r1" 100 "o1" two_lines 900 shop).0).0
    ≡ level "mug" shop
reserve-release_restores_example =
    reserve-release_restores any_uuid "r1" 100 "o1" two_lines 900 "mug" shop shop-IsValid refl
      reserve_two

reserve-commit_sells_example :
    let l = level "mug" (commit any_uuid "r1" (reserve "r1" 100 "o1" two_lines 900 shop).0).0 in
    (l.on_hand + ordered "mug" two_lines ≡ (level "mug" shop).on_hand)
    × (l.reserved ≡ (level "mug" shop).reserved)
reserve-commit_sells_example =
    reserve-commit_sells any_uuid "r1" 100 "o1" two_lines 900 "mug" shop shop-IsValid refl
      reserve_two

adjust_stock_exact_example :
    IsValid (adjust_stock "mug" (negsuc 11) shop).0
    × Adjusts "mug" (negsuc 11) "mug" shop (adjust_stock "mug" (negsuc 11) shop)
adjust_stock_exact_example = adjust_stock_exact "mug" (negsuc 11) "mug" shop shop-IsValid

reserved_is_held_example :
    let db = run any_uuid (reserve_op "r1" 100 "o1" two_lines 900 ∷ commit_op "r1" ∷ []) empty in
    ((level "mug" db).reserved ≡ held_for db.reservations "mug" db.items)
    × ((level "mug" db).on_hand < int4_limit)
    × ((level "mug" db).reserved < int4_limit)
reserved_is_held_example =
    reserved_is_held any_uuid (reserve_op "r1" 100 "o1" two_lines 900 ∷ commit_op "r1" ∷ []) "mug"

abbrev due_reservation : Reservation
due_reservation = record { order_ref = "o1"; status = held; expires_at = 1000 }

due_row : lookup "r1" held_shop.reservations ≡ some due_reservation
unfolding reserve run ensure_stock_row empty lookup insert ◌+ℤ◌ ◌-ℤ◌
due_row = refl

one_due : length (due_rows 1001 held_shop.reservations) ≤ 50
unfolding due_rows insert_by_expiry reserve run ensure_stock_row empty lookup insert ◌+ℤ◌ ◌-ℤ◌
one_due = omega arith

expire_due_sweeps_example :
    let (db', res) = expire_due any_uuid 1001 50 held_shop in
    (res ≡ ok (length (due_rows 1001 held_shop.reservations)))
    × (reservation_is_held any_uuid "r1" db' ≡ none)
expire_due_sweeps_example =
    expire_due_sweeps any_uuid 1001 50 "r1" due_reservation held_shop held_shop-IsValid one_due
      due_row (omega arith)
