-- ===== src/Payout/Tests.antt =====
-- Runs of the payouts on an order of two shops.
use commerce_platform.Common.{◌≡◌, refl, ◌<◌, String, true, some, List, [], ◌∷◌, arith, All, length}
use commerce_platform.Common.Int.{ℤ, pos, neg_part, ◌+ℤ◌, ◌*ℤ◌, ◌/ℤ◌, ◌%ℤ◌, int64, int32}
use commerce_platform.Order.{units_nanos}
use commerce_platform.Order.Store.{money_message}
use commerce_platform.Payout.{
  OrderLine, Db, groups_from, from_units_nanos, add, add_share, on_order_confirmed,
  create_from_order, create_shares, new_payout, insert_payout, has_share, find_payout, sweep,
  pay_all, pay, scan_one, get, mark_paid, can_transition_to, write_paid, update_rows,
  due_payout_ids, due_rows, insert_by_creation,
}
use commerce_platform.Payout.Shares.{worth, total_of, amount_in, Once, shares_add_up}

abbrev line : String → ℤ → OrderLine
line shop units = record {
  shop_id = shop;
  line_total = record { currency_code = "EUR"; units = units; nanos = pos 500000000 };
}

abbrev lines : List OrderLine
lines = line "a" (pos 1) ∷ line "" (pos 2) ∷ line "a" (pos 3) ∷ []

worths : All (λ l. neg_part (worth l) ≡ 0) lines
unfolding worth from_units_nanos ◌+ℤ◌ ◌*ℤ◌ ◌/ℤ◌ int64
worths = (refl, (refl, (refl, tt)))

fits : total_of "a" lines < 9223372036854775808
unfolding total_of worth from_units_nanos ◌+ℤ◌ ◌*ℤ◌ ◌/ℤ◌ int64
fits = omega arith

shares_add_up_example :
    let gs = groups_from [] lines in Once gs × (amount_in "a" gs ≡ pos (total_of "a" lines))
shares_add_up_example = shares_add_up "a" lines worths fits

abbrev created : Db
created =
    (on_order_confirmed (λ ps. "p1") 1 "e" (some ("o", lines))
      (record { payouts = []; processed_events = []; outbox = [] })).0

-- One payout of 5 euros, and none for the platform; the sweep pays it once.
run_example : length (sweep (λ s. true) 9 5 (sweep (λ s. true) 8 5 created)).outbox ≡ 2
unfolding sweep pay_all pay scan_one get mark_paid can_transition_to write_paid update_rows
    due_payout_ids due_rows insert_by_creation on_order_confirmed create_from_order create_shares
    new_payout insert_payout has_share find_payout groups_from add_share add from_units_nanos
    money_message units_nanos ◌+ℤ◌ ◌*ℤ◌ ◌/ℤ◌ ◌%ℤ◌ int64 int32
run_example = refl
