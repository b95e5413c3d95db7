-- ===== src/Inventory/Run.antt =====
-- Every history of the stock store, by the operations that its callers can make.
use commerce_platform.Common.{
  ℕ, ◌<◌, ◌≡◌, refl, String, Bool, List, [], ◌∷◌, arith, Outcome, ok, err, take,
}
use commerce_platform.Common.Table.{lookup}
use commerce_platform.Common.Int.{ℤ}
use commerce_platform.Inventory.{
  Line, Reservation, Db, level, ensure_stock_row, ensure_stock_row_tx, reserve, commit, release,
  adjust_stock, expire_due, expire_rows, due_rows, emit_reservation_expired, lines_of, items_of,
}
use commerce_platform.Inventory.Sums.{held_for, IsValid, int4_limit}
use commerce_platform.Inventory.Oversell.{reserve_never_oversells, transact-eq-ok, transact-eq-err}
use commerce_platform.Inventory.Adjust.{ensure_stock_row_tx-IsValid, adjust_stock_exact}
use commerce_platform.Inventory.Settlement.{commit_exact, release_exact}

ensure_by_outcome :
    (p : String) (n : ℤ) (db : Db) (o : Outcome (Unit {0}))
    → (ensure_stock_row p n db).1 ≡ o
    → IsValid db
    → IsValid (ensure_stock_row p n db).0
unfolding ensure_stock_row
ensure_by_outcome p n db (ok tt) h v =
    ensure_stock_row_tx-IsValid p n db _ (transact-eq-ok (ensure_stock_row_tx p n) db h) v
ensure_by_outcome p n db (err e) h v = rw (transact-eq-err (ensure_stock_row_tx p n) db h) v

emit-IsValid :
    (rid order_ref : String) (items : List Line) (db : Db)
    → IsValid db
    → IsValid (emit_reservation_expired rid order_ref items db)
unfolding emit_reservation_expired level
emit-IsValid rid order_ref items db v = record {
  sums = v.sums;
  on_hand_bound = v.on_hand_bound;
  reserved_bound = v.reserved_bound;
  stocked = v.stocked;
  known = v.known;
}

module _ (parse_uuid : String → Bool) where
  -- The state after one more row of the sweep, which cannot fail in a valid store.
  unfoldable pub swept : String × Reservation → Db → Db
  swept (rid, r) db =
      emit_reservation_expired rid r.order_ref (lines_of (items_of rid db.items))
        (release parse_uuid rid db).0

  pub swept-IsValid : (x : String × Reservation) (db : Db) → IsValid db → IsValid (swept x db)
  unfolding swept
  swept-IsValid (rid, r) db v =
      emit-IsValid rid r.order_ref (lines_of (items_of rid db.items)) _
        (release_exact parse_uuid rid db v).1

  pub expire_rows-cons :
      (x : String × Reservation) (xs : List (String × Reservation)) (db : Db)
      → IsValid db
      → expire_rows parse_uuid (x ∷ xs) db ≡ expire_rows parse_uuid xs (swept x db)
  unfolding expire_rows swept
  expire_rows-cons (rid, r) xs db v =
      let (done, _, _) = release_exact parse_uuid rid db v in ground (arith, done)

  pub expire_rows-IsValid :
      (xs : List (String × Reservation)) (db : Db)
      → IsValid db
      → IsValid (expire_rows parse_uuid xs db).0 × ((expire_rows parse_uuid xs db).1 ≡ ok tt)
  expire_rows-IsValid [] db v = unfold expire_rows in (v, refl)
  expire_rows-IsValid (x ∷ xs) db v =
      rw (expire_rows-cons x xs db v) (expire_rows-IsValid xs (swept x db) (swept-IsValid x db v))

  expire_due-IsValid :
      (now limit : ℕ) (db : Db) → IsValid db → IsValid (expire_due parse_uuid now limit db).0
  unfolding expire_due
  expire_due-IsValid now limit db v =
      let (v', done) = expire_rows-IsValid (take limit (due_rows now db.reservations)) db v in
      ground (arith, done, v')

-- The calls that the server, the consumer and the sweeper make.
pub data Op : Type 0 where
  ensure_op : String → ℤ → Op
  reserve_op : String → ℕ → String → List Line → ℕ → Op
  commit_op release_op : String → Op
  adjust_op : String → ℤ → Op
  expire_op : ℕ → ℕ → Op

unfoldable pub empty : Db
empty = record { stock = []; reservations = []; items = []; outbox = [] }

module _ (parse_uuid : String → Bool) where
  pub apply : Op → Db → Db
  apply (ensure_op p n) db = (ensure_stock_row p n db).0
  apply (reserve_op rid now order_ref lns ttl) db = (reserve rid now order_ref lns ttl db).0
  apply (commit_op rid) db = (commit parse_uuid rid db).0
  apply (release_op rid) db = (release parse_uuid rid db).0
  apply (adjust_op p delta) db = (adjust_stock p delta db).0
  apply (expire_op now limit) db = (expire_due parse_uuid now limit db).0

  unfoldable pub run : List Op → Db → Db
  unfolding apply
  run [] db = db
  run (op ∷ ops) db = run ops (apply op db)

  apply-IsValid : (op : Op) (db : Db) → IsValid db → IsValid (apply op db)
  unfolding apply
  apply-IsValid (ensure_op p n) db v = ensure_by_outcome p n db _ refl v
  apply-IsValid (reserve_op rid now order_ref lns ttl) db v =
      (reserve_never_oversells rid now order_ref lns ttl rid db v).0
  apply-IsValid (commit_op rid) db v = (commit_exact parse_uuid rid db v).1
  apply-IsValid (release_op rid) db v = (release_exact parse_uuid rid db v).1
  apply-IsValid (adjust_op p delta) db v = (adjust_stock_exact p delta p db v).0
  apply-IsValid (expire_op now limit) db v = expire_due-IsValid parse_uuid now limit db v

  pub run-IsValid : (ops : List Op) (db : Db) → IsValid db → IsValid (run ops db)
  unfolding run
  run-IsValid [] db v = v
  run-IsValid (op ∷ ops) db v = run-IsValid ops (apply op db) (apply-IsValid op db v)

pub empty-IsValid : IsValid empty
unfolding empty level lookup held_for
empty-IsValid = record {
  sums = λ p. refl;
  on_hand_bound = λ p. omega arith;
  reserved_bound = λ p. omega arith;
  stocked = tt;
  known = tt;
}

-- After any history of calls, successful or not, that begins with empty tables, the units of a
-- product that are reserved are exactly those on the items of its HELD reservations, and both
-- counts fit their columns.
pub reserved_is_held :
    (parse_uuid : String → Bool) (ops : List Op) (p : String)
    → let db = run parse_uuid ops empty in
      ((level p db).reserved ≡ held_for db.reservations p db.items)
      × ((level p db).on_hand < int4_limit)
      × ((level p db).reserved < int4_limit)
reserved_is_held parse_uuid ops p =
    let v = run-IsValid parse_uuid ops empty empty-IsValid in
    (v.sums p, v.on_hand_bound p, v.reserved_bound p)
