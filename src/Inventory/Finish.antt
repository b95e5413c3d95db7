-- ===== src/Inventory/Finish.antt =====
-- `Commit` and `Release`: what a reservation held is taken off the stock, once.
use commerce_platform.Common.{
  ℕ, ◌-◌, ◌<◌, ◌≡◌, refl, String, Bool, true, false, some, List, [], ◌∷◌, All, All-map, str_eq,
  eq_iff, arith, ok, Option-cases, inl, inr, ◌∙◌, if◌then◌else◌,
}
use commerce_platform.Common.Table.{lookup, insert, lookup-insert, has_row, has_row-insert}
use commerce_platform.Common.Int.{pos, ◌-ℤ◌}
use commerce_platform.Inventory.{
  Level, Reservation, ReservationStatus, ReservationItem, Db, is_held, level, Delta, commit_delta,
  release_delta, apply_stock_delta, apply_stock_deltas, items_of, settle, set_status, outbox_stock,
}
use commerce_platform.Inventory.Sums.{
  held_in, IsValid, units_of, held_for-close, All-items_of, int4_limit,
}

-- The closure that `finish` is given: does it take the units off `on_hand` too?
abbrev pub delta_of : Bool → Delta
delta_of true = commit_delta
delta_of false = release_delta

-- A level after `n` units were settled.
abbrev pub drawn : Bool → ℕ → Level → Level
drawn takes n l = record {
  on_hand = if takes then l.on_hand - n else l.on_hand;
  reserved = l.reserved - n;
}

-- The state after one item of a product at level `l` was settled.
unfoldable settled_item : Bool → ReservationItem → Level → Db → Db
settled_item takes it l db =
    let l' = drawn takes it.quantity l in
    outbox_stock it.product_id (pos l'.on_hand) (pos l'.reserved)
      (record db { stock = insert it.product_id l' db.stock })

apply_stock_delta_lem :
    (takes : Bool) (it : ReservationItem) (l : Level) (db : Db)
    → lookup it.product_id db.stock ≡ some l
    → l.on_hand < int4_limit
    → l.reserved < int4_limit
    → apply_stock_delta (delta_of takes) it db ≡ ok (settled_item takes it l db)
unfolding apply_stock_delta settled_item commit_delta release_delta ◌-ℤ◌
apply_stock_delta_lem true it l db e b c = ground arith
apply_stock_delta_lem false it l db e b c = ground arith

-- From `db`, the items have been settled.
pub record Settles (takes : Bool) (its : List ReservationItem) (db db' : Db) : Type 0 where
  pub same_reservations : db'.reservations ≡ db.reservations
  pub same_items : db'.items ≡ db.items
  pub drawn_levels : (q : String) → level q db' ≡ drawn takes (units_of q its) (level q db)
  pub same_rows : (q : String) → has_row q db'.stock ≡ has_row q db.stock

settled_item-Settles :
    (takes : Bool) (it : ReservationItem) (l : Level) (db : Db)
    → lookup it.product_id db.stock ≡ some l
    → Settles takes (it ∷ []) db (settled_item takes it l db)
unfolding settled_item level units_of outbox_stock
settled_item-Settles takes it l db e = record {
  same_reservations = refl;
  same_items = refl;
  drawn_levels =
      λ q. ground (arith, lookup-insert it.product_id q l' db.stock, eq_iff it.product_id q);
  same_rows =
      λ q. ground (arith, lookup-insert it.product_id q l' db.stock, eq_iff it.product_id q);
}
  where
    l' : Level
    l' = drawn takes it.quantity l

Settles-nil : (takes : Bool) (db : Db) → Settles takes [] db db
unfolding units_of
Settles-nil takes db = record {
  same_reservations = refl;
  same_items = refl;
  drawn_levels = λ q. ground arith;
  same_rows = λ q. refl;
}

Settles-cons :
    (takes : Bool) (it : ReservationItem) (its : List ReservationItem) (a b c : Db)
    → Settles takes (it ∷ []) a b
    → Settles takes its b c
    → Settles takes (it ∷ its) a c
unfolding units_of
Settles-cons takes it its a b c f g = record {
  same_reservations = g.same_reservations ∙ f.same_reservations;
  same_items = g.same_items ∙ f.same_items;
  drawn_levels = λ q. ground (arith, f.drawn_levels q, g.drawn_levels q);
  same_rows = λ q. g.same_rows q ∙ f.same_rows q;
}

-- No level reaches the end of its column.
abbrev InRange : Db → Type 0
InRange db =
    (q : String) → ((level q db).on_hand < int4_limit) × ((level q db).reserved < int4_limit)

Settles-InRange :
    (takes : Bool) (its : List ReservationItem) (db db' : Db)
    → Settles takes its db db'
    → InRange db
    → InRange db'
Settles-InRange takes its db db' s h q = ground (arith, s.drawn_levels q, h q)

in_row :
    (p : String) (l : Level) (db : Db)
    → lookup p db.stock ≡ some l
    → ((level p db).on_hand < int4_limit) × ((level p db).reserved < int4_limit)
    → (l.on_hand < int4_limit) × (l.reserved < int4_limit)
unfolding level
in_row p l db e h = ground arith

-- With a row of stock for every item, the loop of `finish` runs to its end.
apply_stock_deltas-Settles :
    (takes : Bool) (its : List ReservationItem) (db : Db)
    → All (λ it. has_row it.product_id db.stock ≡ true) its
    → InRange db
    → (db' : Db) × (apply_stock_deltas (delta_of takes) its db ≡ ok db') × Settles takes its db db'
unfolding apply_stock_deltas
apply_stock_deltas-Settles takes [] db rows h = (db, refl, Settles-nil takes db)
apply_stock_deltas-Settles takes (it ∷ its) db rows h =
    elim (Option-cases (lookup it.product_id db.stock)) [
      | inl missing ↦ absurd (ground arith)
      | inr (l, e) ↦
          let mid = settled_item takes it l db in
          let s1 = settled_item-Settles takes it l db e in
          let (h1, h2) = in_row it.product_id l db e (h it.product_id) in
          let (db', run, s2) =
            apply_stock_deltas-Settles takes its mid
              (All-map _ _ its (λ it' r. s1.same_rows it'.product_id ∙ r) rows.1)
              (Settles-InRange takes (it ∷ []) db mid s1 h) in
          (
            db',
            rw (apply_stock_delta_lem takes it l db e h1 h2) run,
            Settles-cons takes it its db mid db' s1 s2,
          )
    ]

-- From `db`, the HELD reservation `rid` has been closed with status `target`.
pub record Closes (takes : Bool) (rid : String) (target : ReservationStatus) (r : Reservation)
    (db db' : Db) : Type 0 where
  pub rows :
      (j : String)
      → lookup j db'.reservations
        ≡ (if str_eq rid j then some (record r { status = target }) else lookup j db.reservations)
  pub same_items : db'.items ≡ db.items
  pub drawn_levels :
      (q : String) → level q db' ≡ drawn takes (units_of q (items_of rid db.items)) (level q db)

settled-IsValid :
    (takes : Bool) (rid : String) (target : ReservationStatus) (r : Reservation) (db db' : Db)
    → held_in db.reservations rid ≡ true
    → is_held target ≡ false
    → IsValid db
    → Settles takes (items_of rid db.items) db db'
    → IsValid (set_status rid target r db')
      × Closes takes rid target r db (set_status rid target r db')
unfolding set_status level
settled-IsValid takes rid target r db db' h c v s = (
  record {
    sums = λ q.
        rw (s.same_reservations, s.same_items)
          (ground (
            arith,
            s.drawn_levels q,
            v.sums q,
            held_for-close db.reservations rid q (record r { status = target }) db.items h c,
          ));
    on_hand_bound = λ q. ground (arith, s.drawn_levels q, v.on_hand_bound q);
    reserved_bound = λ q. ground (arith, s.drawn_levels q, v.reserved_bound q);
    stocked =
        rw s.same_items (All-map _ _ db.items (λ it e. s.same_rows it.product_id ∙ e) v.stocked);
    known =
        rw (s.same_items, s.same_reservations)
          (All-map _ _ db.items (λ it e. has_row-insert rid it.reservation_id _ db.reservations e)
            v.known);
  },
  record {
    rows = λ j. rw s.same_reservations (lookup-insert rid j _ db.reservations);
    same_items = s.same_items;
    drawn_levels = s.drawn_levels;
  },
)

-- `settle` of a HELD reservation runs to its end in a valid store, and leaves a valid store.
pub settle-Closes :
    (takes : Bool) (rid : String) (target : ReservationStatus) (r : Reservation) (db : Db)
    → held_in db.reservations rid ≡ true
    → is_held target ≡ false
    → IsValid db
    → (db' : Db) × (settle rid target (delta_of takes) r db ≡ ok db')
      × IsValid db'
      × Closes takes rid target r db db'
unfolding settle
settle-Closes takes rid target r db h c v =
    let (mid, run, s) =
      apply_stock_deltas-Settles takes (items_of rid db.items) db
        (All-items_of _ rid db.items v.stocked) (λ q. (v.on_hand_bound q, v.reserved_bound q)) in
    let (v', cl) = settled-IsValid takes rid target r db mid h c v s in
    (set_status rid target r mid, rw run refl, v', cl)
