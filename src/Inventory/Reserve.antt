-- ===== src/Inventory/Reserve.antt =====
-- `Reserve` keeps the invariant, and never promises more than is on hand.
use commerce_platform.Common.{
  ℕ, ◌+◌, ◌<◌, ◌≤◌, ◌≡◌, refl, String, true, some, List, [], ◌∷◌, ◌++◌, All-map, All-append,
  if◌then◌else◌, str_eq, eq_iff, eq_refl, arith, ok, >>=-eq-ok, Option-cases, inl, inr, ◌∙◌,
}
use commerce_platform.Common.Table.{
  lookup, insert, lookup-insert, lookup-insert_self, has_row, has_row-insert,
}
use commerce_platform.Common.Int.{ℤ, pos, negsuc, pos_part, ◌+ℤ◌, ◌-ℤ◌, int32}
use commerce_platform.Inventory.{
  Level, Line, ReservationItem, stock_changed, Db, level, reserve_at, reserve_line, reserve_lines,
  items_of,
}
use commerce_platform.Inventory.Sums.{
  held_in, IsValid, int4_limit, held_for-append_one, units_of, units_of-append_one,
}

-- The state after a line of `n` units of `p` is reserved.
unfoldable pub held_line : String → String → ℕ → Level → Db → Db
held_line rid p n l db = record db {
  stock = insert p (record l { reserved = l.reserved + n }) db.stock;
  items = db.items ++ record { reservation_id = rid; product_id = p; quantity = n } ∷ [];
  outbox =
      db.outbox
      ++ stock_changed p (int32 (pos l.on_hand)) (int32 (pos (l.reserved + n)))
          (int32 (pos l.on_hand -ℤ pos (l.reserved + n)))
        ∷ [];
}

-- What a line of quantity `q` that is reserved has passed.
abbrev pub Reserves : String → String → ℤ → Level → Db → Db → Type 0
Reserves rid p (negsuc _) l db db' = ⊥
Reserves rid p (pos n) l db db' =
    (0 < n)
    × (l.reserved + n ≤ l.on_hand)
    × (l.reserved + n < int4_limit)
    × (db' ≡ held_line rid p n l db)

reserve_at-Reserves :
    (rid p : String) (q : ℤ) (l : Level) (db : Db) {db' : Db}
    → reserve_at rid (record { product_id = p; quantity = q }) l db ≡ ok db'
    → Reserves rid p q l db db'
unfolding reserve_at held_line ◌+ℤ◌ ◌-ℤ◌
reserve_at-Reserves rid p (pos n) l db h = ground arith
reserve_at-Reserves rid p (negsuc n) l db h = ground arith

-- One more line keeps the invariant.
held_line-IsValid :
    (rid p : String) (n : ℕ) (l : Level) (db : Db)
    → lookup p db.stock ≡ some l
    → held_in db.reservations rid ≡ true
    → l.reserved + n < int4_limit
    → IsValid db
    → IsValid (held_line rid p n l db)
unfolding held_line level
held_line-IsValid rid p n l db e hr b v = record {
  sums = λ q. ground (
    arith,
    v.sums q,
    lookup-insert p q l' db.stock,
    eq_iff p q,
    held_for-append_one db.reservations q db.items item,
  );
  on_hand_bound = λ q. ground (arith, v.on_hand_bound q, lookup-insert p q l' db.stock, eq_iff p q);
  reserved_bound =
      λ q. ground (arith, v.reserved_bound q, lookup-insert p q l' db.stock, eq_iff p q);
  stocked =
      All-append _ db.items _
        (All-map _ _ db.items (λ it h. has_row-insert p it.product_id l' db.stock h) v.stocked)
        (ground (arith, lookup-insert_self p l' db.stock), tt);
  known = All-append _ db.items _ v.known (hr_row, tt);
}
  where
    l' : Level
    l' = record l { reserved = l.reserved + n }

    item : ReservationItem
    item = record { reservation_id = rid; product_id = p; quantity = n }

    hr_row : has_row rid db.reservations ≡ true
    hr_row = ground arith

-- The units of product `q` that the lines ask for.
unfoldable pub ordered : String → List Line → ℕ
ordered q [] = 0
ordered q (ln ∷ lns) = (if str_eq ln.product_id q then pos_part ln.quantity else 0) + ordered q lns

-- From `db`, the lines have been reserved.
pub record Reserved (rid : String) (lns : List Line) (db db' : Db) : Type 0 where
  pub same_reservations : db'.reservations ≡ db.reservations
  pub same_on_hand : (q : String) → (level q db').on_hand ≡ (level q db).on_hand
  pub added : (q : String) → (level q db').reserved ≡ (level q db).reserved + ordered q lns
  pub covered : (q : String) → 0 < ordered q lns → (level q db').reserved ≤ (level q db').on_hand
  pub recorded :
      (q : String)
      → units_of q (items_of rid db'.items) ≡ units_of q (items_of rid db.items) + ordered q lns

held_line-Reserved :
    (rid p : String) (n : ℕ) (l : Level) (db : Db)
    → lookup p db.stock ≡ some l
    → l.reserved + n ≤ l.on_hand
    → Reserved rid (record { product_id = p; quantity = pos n } ∷ []) db (held_line rid p n l db)
unfolding held_line level ordered
held_line-Reserved rid p n l db e fits = record {
  same_reservations = refl;
  same_on_hand = λ q. ground (arith, lookup-insert p q l' db.stock, eq_iff p q);
  added = λ q. ground (arith, lookup-insert p q l' db.stock, eq_iff p q);
  covered = λ q. ground (arith, lookup-insert p q l' db.stock, eq_iff p q);
  recorded = λ q. ground (arith, units_of-append_one rid q db.items item, eq_refl rid);
}
  where
    l' : Level
    l' = record l { reserved = l.reserved + n }

    item : ReservationItem
    item = record { reservation_id = rid; product_id = p; quantity = n }

line_by_quantity :
    (rid p : String) (z : ℤ) (l : Level) (db : Db) {db' : Db}
    → lookup p db.stock ≡ some l
    → held_in db.reservations rid ≡ true
    → IsValid db
    → Reserves rid p z l db db'
    → IsValid db' × Reserved rid (record { product_id = p; quantity = z } ∷ []) db db'
line_by_quantity rid p (negsuc n) l db e hr v r = absurd r
line_by_quantity rid p (pos n) l db e hr v (p0, fits, b, same) =
    rw same (held_line-IsValid rid p n l db e hr b v, held_line-Reserved rid p n l db e fits)

reserve_line-Reserved :
    (rid : String) (ln : Line) (db : Db) {db' : Db}
    → reserve_line rid ln db ≡ ok db'
    → held_in db.reservations rid ≡ true
    → IsValid db
    → IsValid db' × Reserved rid (ln ∷ []) db db'
unfolding reserve_line
reserve_line-Reserved rid ln db h hr v = elim (Option-cases (lookup ln.product_id db.stock)) [
  | inl missing ↦ absurd (ground arith)
  | inr (l, e) ↦
      line_by_quantity rid ln.product_id ln.quantity l db e hr v
        (reserve_at-Reserves rid ln.product_id ln.quantity l db (ground arith))
]

Reserved-cons :
    (rid : String) (ln : Line) (lns : List Line) (a b c : Db)
    → Reserved rid (ln ∷ []) a b
    → Reserved rid lns b c
    → Reserved rid (ln ∷ lns) a c
unfolding ordered
Reserved-cons rid ln lns a b c f g = record {
  same_reservations = g.same_reservations ∙ f.same_reservations;
  same_on_hand = λ q. g.same_on_hand q ∙ f.same_on_hand q;
  added = λ q. omega (arith, f.added q, g.added q);
  covered = λ q. ground (arith, f.covered q, g.covered q, f.added q, g.added q, g.same_on_hand q);
  recorded = λ q. omega (arith, f.recorded q, g.recorded q);
}

Reserved-nil : (rid : String) (db : Db) → Reserved rid [] db db
unfolding ordered
Reserved-nil rid db = record {
  same_reservations = refl;
  same_on_hand = λ q. refl;
  added = λ q. omega arith;
  covered = λ q h. absurd (omega arith);
  recorded = λ q. omega arith;
}

-- Every line of a successful loop is added to what is reserved, and covered by the stock.
pub reserve_lines-Reserved :
    (rid : String) (lns : List Line) (db : Db) {db' : Db}
    → reserve_lines rid lns db ≡ ok db'
    → held_in db.reservations rid ≡ true
    → IsValid db
    → IsValid db' × Reserved rid lns db db'
unfolding reserve_lines
reserve_lines-Reserved rid [] db {db'} h hr v =
    let e : db ≡ db' = ground arith in rw (← e) (v, Reserved-nil rid db)
reserve_lines-Reserved rid (ln ∷ lns) db {db'} h hr v =
    let (mid, first, rest) = >>=-eq-ok (reserve_line rid ln db) (reserve_lines rid lns) h in
    let (v1, r1) = reserve_line-Reserved rid ln db first hr v in
    let (v2, r2) = reserve_lines-Reserved rid lns mid rest (rw r1.same_reservations hr) v1 in
    (v2, Reserved-cons rid ln lns db mid db' r1 r2)
