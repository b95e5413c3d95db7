-- ===== src/Inventory/Sweep.antt =====
-- `ExpireDue` leaves no reservation HELD past its expiry, given a limit that is large enough.
use commerce_platform.Common.{
  ℕ, ◌<◌, ◌≤◌, ◌≡◌, refl, String, Bool, true, false, Option, none, some, List, [], ◌∷◌, arith, ok,
  inl, inr, ◌⊎◌, Bool-cases, str_eq, eq_iff, length, take-all, ltb, lt→ltb, ◌&&◌, if◌then◌else◌,
}
use commerce_platform.Common.Table.{Table, lookup}
use commerce_platform.Inventory.{
  Reservation, Db, is_held, insert_by_expiry, due_rows, expire_rows, expire_due,
  reservation_is_held, emit_reservation_expired, released,
}
use commerce_platform.Inventory.Sums.{IsValid}
use commerce_platform.Inventory.Settlement.{Finishes, release_exact, not_held_after}
use commerce_platform.Inventory.Run.{swept, swept-IsValid, expire_rows-cons, expire_rows-IsValid}

-- Is a row with this key among the rows?
abbrev Listed : String → List (String × Reservation) → Type 0
Listed rid [] = ⊥
Listed rid (x ∷ xs) = (x.0 ≡ rid) ⊎ Listed rid xs

Listed-insert_by_expiry :
    (rid : String) (y : String × Reservation) (ys : List (String × Reservation))
    → (y.0 ≡ rid) ⊎ Listed rid ys
    → Listed rid (insert_by_expiry y ys)
unfolding insert_by_expiry
Listed-insert_by_expiry rid y [] d = d
Listed-insert_by_expiry rid y (z ∷ zs) d = ground (arith, Listed-insert_by_expiry rid y zs)

Listed-if :
    (rid : String) (c : Bool) (y : String × Reservation) (ys : List (String × Reservation))
    → Listed rid ys
    → Listed rid (if c then insert_by_expiry y ys else ys)
Listed-if rid true y ys m = Listed-insert_by_expiry rid y ys (inr m)
Listed-if rid false y ys m = m

-- The query finds every reservation that is HELD past its expiry.
Listed-due_rows :
    (now : ℕ) (rid : String) (rs : Table Reservation) {r : Reservation}
    → lookup rid rs ≡ some r
    → is_held r.status ≡ true
    → r.expires_at < now
    → Listed rid (due_rows now rs)
unfolding due_rows lookup
Listed-due_rows now rid [] e h t = absurd (cc)
Listed-due_rows now rid ((j, v) ∷ rs) {r} e h t = elim (Bool-cases (str_eq j rid)) [
  | inl here ↦
      let same : v ≡ r = ground arith in
      let test : (is_held v.status && ltb v.expires_at now) ≡ true =
        rw (same, h, lt→ltb r.expires_at now t) refl in
      rw test (Listed-insert_by_expiry rid (j, v) (due_rows now rs) (inl ((eq_iff j rid).0 here)))
  | inr there ↦
      let e' : lookup rid rs ≡ some r = ground arith in
      Listed-if rid _ (j, v) _ (Listed-due_rows now rid rs e' h t)
]

module _ (parse_uuid : String → Bool) where
  still_not_held :
      (takes : Bool) (rid j : String) (db db' : Db) (o : Option Reservation)
      → Finishes takes j released db o db'
      → reservation_is_held parse_uuid rid db ≡ none
      → reservation_is_held parse_uuid rid db' ≡ none
  unfolding reservation_is_held
  still_not_held takes rid j db db' none f n = rw f n
  still_not_held takes rid j db db' (some r) f n = ground (arith, f.rows rid, eq_iff j rid)

  -- A swept row is not HELD, and what was not HELD stays so.
  swept-not_held :
      (x : String × Reservation) (rid : String) (db : Db)
      → IsValid db
      → (x.0 ≡ rid) ⊎ (reservation_is_held parse_uuid rid db ≡ none)
      → reservation_is_held parse_uuid rid (swept parse_uuid x db) ≡ none
  unfolding swept emit_reservation_expired reservation_is_held
  swept-not_held (j, r) rid db v (inl e) = rw (← e) (
      not_held_after parse_uuid false j released db _ _ refl refl
        (release_exact parse_uuid j db v).2)
  swept-not_held (j, r) rid db v (inr n) =
      still_not_held false rid j db _ _ (release_exact parse_uuid j db v).2 n

  expire_rows-not_held :
      (xs : List (String × Reservation)) (rid : String) (db : Db)
      → IsValid db
      → Listed rid xs ⊎ (reservation_is_held parse_uuid rid db ≡ none)
      → reservation_is_held parse_uuid rid (expire_rows parse_uuid xs db).0 ≡ none
  expire_rows-not_held [] rid db v (inl m) = absurd m
  expire_rows-not_held [] rid db v (inr n) = unfold expire_rows in n
  expire_rows-not_held (x ∷ xs) rid db v d = rw (expire_rows-cons parse_uuid x xs db v) (
      expire_rows-not_held xs rid (swept parse_uuid x db) (swept-IsValid parse_uuid x db v)
        (next d))
    where
      next :
          Listed rid (x ∷ xs) ⊎ (reservation_is_held parse_uuid rid db ≡ none)
          → Listed rid xs ⊎ (reservation_is_held parse_uuid rid (swept parse_uuid x db) ≡ none)
      next (inl (inl e)) = inr (swept-not_held x rid db v (inl e))
      next (inl (inr m)) = inl m
      next (inr n) = inr (swept-not_held x rid db v (inr n))

  -- `ExpireDue` in a valid store, with a limit that the due rows fit, succeeds with their number,
  -- and afterwards no reservation that was HELD past its expiry is HELD.
  pub expire_due_sweeps :
      (now limit : ℕ) (rid : String) (r : Reservation) (db : Db)
      → IsValid db
      → length (due_rows now db.reservations) ≤ limit
      → lookup rid db.reservations ≡ some r
      → r.expires_at < now
      → let (db', res) = expire_due parse_uuid now limit db in
        (res ≡ ok (length (due_rows now db.reservations)))
        × (reservation_is_held parse_uuid rid db' ≡ none)
  unfolding expire_due
  expire_due_sweeps now limit rid r db v fits row late =
      let due = due_rows now db.reservations in
      let (_, done) = expire_rows-IsValid parse_uuid due db v in
      let gone = expire_rows-not_held due rid db v (start (Bool-cases (is_held r.status))) in
      ground (arith, done, gone, take-all limit due fits)
    where
      start :
          (is_held r.status ≡ true) ⊎ (is_held r.status ≡ false)
          → Listed rid (due_rows now db.reservations)
            ⊎ (reservation_is_held parse_uuid rid db ≡ none)
      start (inl h) = inl (Listed-due_rows now rid db.reservations row h late)
      start (inr h) = inr (unfold reservation_is_held in ground arith)
