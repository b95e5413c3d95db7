-- ===== src/Inventory/Adjust.antt =====
-- `AdjustStock` and `EnsureStockRow`, which write a level from outside any reservation.
use commerce_platform.Common.{
  ℕ, ◌+◌, ◌<◌, ◌≤◌, ◌≡◌, refl, String, none, arith, Outcome, ok, err, Error, if◌then◌else◌, ◌-◌,
  ◌⊎◌, Option-cases, inl, inr, str_eq, eq_iff, All-map,
}
use commerce_platform.Common.Table.{lookup, insert, lookup-insert, has_row-insert}
use commerce_platform.Common.Int.{ℤ, pos_part, neg_part, ◌+ℤ◌}
use commerce_platform.Inventory.{
  Level, Db, level, transact, ensure_stock_row_tx, adjust_stock, adjust_stock_tx, adjusted,
  pg_integer, outbox_stock, is_int4,
}
use commerce_platform.Inventory.Sums.{IsValid, int4_limit}

-- A row of stock whose `reserved` is left alone.
set_on_hand-IsValid :
    (p : String) (n : ℕ) (db : Db)
    → n < int4_limit
    → IsValid db
    → IsValid (record db { stock = insert p (record (level p db) { on_hand = n }) db.stock })
unfolding level
set_on_hand-IsValid p n db b v = record {
  sums = λ q. ground (arith, v.sums q, lookup-insert p q l' db.stock, eq_iff p q);
  on_hand_bound = λ q. ground (arith, v.on_hand_bound q, lookup-insert p q l' db.stock, eq_iff p q);
  reserved_bound =
      λ q. ground (arith, v.reserved_bound q, lookup-insert p q l' db.stock, eq_iff p q);
  stocked = All-map _ _ db.items (λ it h. has_row-insert p it.product_id l' db.stock h) v.stocked;
  known = v.known;
}
  where
    l' : Level
    l' = record (level p db) { on_hand = n }

pg_integer_bound : (z : ℤ) {n : ℕ} → pg_integer z ≡ ok n → n < int4_limit
unfolding pg_integer
pg_integer_bound z h = ground arith

pub ensure_stock_row_tx-IsValid :
    (p : String) (n : ℤ) (db db' : Db)
    → ensure_stock_row_tx p n db ≡ ok (tt, db')
    → IsValid db
    → IsValid db'
unfolding ensure_stock_row_tx level
ensure_stock_row_tx-IsValid p z db db' h v = elim (Option-cases (lookup p db.stock)) [
  | inr (l, e) ↦ let same : db ≡ db' = ground arith in rw (← same) v
  | inl e ↦ by_column e (pg_integer z) refl h
]
  where
    by_column :
        lookup p db.stock ≡ none
        → (o : Outcome ℕ) → pg_integer z ≡ o
        → ensure_stock_row_tx p z db ≡ ok (tt, db')
        → IsValid db'
    by_column e (ok n) c h =
        let put : record db { stock = insert p (record (level p db) { on_hand = n }) db.stock }
            ≡ db' =
          ground arith in
        rw (← put) (set_on_hand-IsValid p n db (pg_integer_bound z c) v)
    by_column e (err x) c h = absurd (ground arith)

outbox_stock-IsValid :
    (p : String) (h r : ℤ) (db : Db) → IsValid db → IsValid (outbox_stock p h r db)
unfolding outbox_stock level
outbox_stock-IsValid p h r db v = record {
  sums = v.sums;
  on_hand_bound = v.on_hand_bound;
  reserved_bound = v.reserved_bound;
  stocked = v.stocked;
  known = v.known;
}

-- The change, or its sum with what is there, is no INTEGER.
abbrev pub Overflows : ℕ → ℤ → Type 0
Overflows n delta = (int4_limit < neg_part delta) ⊎ (int4_limit ≤ n + pos_part delta)

-- How `AdjustStock` of product `p` ended, for the level of a product `q`.
abbrev pub Adjusts : String → ℤ → String → Db → Db × Outcome Level → Type 0
Adjusts p delta q db (db', ok l) =
    ¬ Overflows (level p db).on_hand delta
    × (l.on_hand ≡ (level p db).on_hand + pos_part delta - neg_part delta)
    × (l.reserved ≡ (level p db).reserved)
    × (level q db' ≡ (if str_eq p q then l else level q db))
Adjusts p delta q db (db', err e) = (db' ≡ db) × Overflows (level p db).on_hand delta

adjusted_lem :
    (n : ℕ) (delta : ℤ) {m : ℕ}
    → n < int4_limit
    → adjusted n delta ≡ ok m
    → ¬ Overflows n delta × (m ≡ n + pos_part delta - neg_part delta) × (m < int4_limit)
unfolding adjusted is_int4 ◌+ℤ◌
adjusted_lem n delta b h = (ground arith, ground arith, ground arith)

adjusted_fails :
    (n : ℕ) (delta : ℤ) {e : Error} → n < int4_limit → adjusted n delta ≡ err e → Overflows n delta
unfolding adjusted is_int4 ◌+ℤ◌
adjusted_fails n delta b h = ground arith

adjust_by_sum :
    (p : String) (delta : ℤ) (q : String) (db : Db) (o : Outcome ℕ)
    → adjusted (level p db).on_hand delta ≡ o
    → IsValid db
    → IsValid (adjust_stock p delta db).0 × Adjusts p delta q db (adjust_stock p delta db)
unfolding adjust_stock
adjust_by_sum p delta q db (err e) h v =
    rw (h, adjust_stock_tx, transact) (v, (refl, adjusted_fails _ delta (v.on_hand_bound p) h))
adjust_by_sum p delta q db (ok n) h v =
    rw (h, adjust_stock_tx, transact)
      (
        outbox_stock-IsValid p _ _ _
            (set_on_hand-IsValid p n db (adjusted_lem _ delta (v.on_hand_bound p) h).2 v),
        (
          (adjusted_lem _ delta (v.on_hand_bound p) h).0,
          (adjusted_lem _ delta (v.on_hand_bound p) h).1,
          refl,
          ground (arith, lookup-insert p q (record (level p db) { on_hand = n }) db.stock),
        ),
      )

-- `AdjustStock` keeps the store valid. When it succeeds, `on_hand` of its product has moved by
-- `delta` and stopped at zero, which is what it returns, `reserved` is left alone, and so is every other
-- product. It fails exactly where the change, or its sum with what is on hand, is no INTEGER, and then changes
-- nothing.
pub adjust_stock_exact :
    (p : String) (delta : ℤ) (q : String) (db : Db)
    → IsValid db
    → IsValid (adjust_stock p delta db).0 × Adjusts p delta q db (adjust_stock p delta db)
adjust_stock_exact p delta q db v = adjust_by_sum p delta q db _ refl v
