-- ===== src/Inventory/Settlement.antt =====
-- `Commit` and `Release` as transactions: exact, total, applied once, and undoing `Reserve`.
use commerce_platform.Common.{
  ℕ, ◌+◌, ◌≡◌, refl, String, Bool, true, false, none, some, Option, List, arith, eq_refl, ok,
  Option-cases, inl, inr,
}
use commerce_platform.Common.Table.{lookup}
use commerce_platform.Inventory.{
  Line, Reservation, ReservationStatus, committed, released, Db, is_held, level, Delta,
  commit_delta, release_delta, items_of, transact, finish_tx, finish, commit, release, reserve,
  reservation_is_held,
}
use commerce_platform.Inventory.Sums.{held_in, IsValid, units_of}
use commerce_platform.Inventory.Reserve.{ordered}
use commerce_platform.Inventory.Oversell.{reserve_never_oversells}
use commerce_platform.Inventory.Finish.{delta_of, drawn, Closes, settle-Closes}

-- How a call that closes `rid` ended: by whether the reservation was there and HELD.
abbrev pub Finishes : Bool → String → ReservationStatus → Db → Option Reservation → Db → Type 0
Finishes takes rid target db none db' = db' ≡ db
Finishes takes rid target db (some r) db' = Closes takes rid target r db db'

module _ (parse_uuid : String → Bool) where
  is_held_sound :
      (rid : String) (db : Db) (r : Reservation)
      → reservation_is_held parse_uuid rid db ≡ some r
      → (parse_uuid rid ≡ true) × (lookup rid db.reservations ≡ some r) × (is_held r.status ≡ true)
  unfolding reservation_is_held
  is_held_sound rid db r h = ground arith

  finish_by :
      (takes : Bool) (rid : String) (target : ReservationStatus) (db : Db) (o : Option Reservation)
      → reservation_is_held parse_uuid rid db ≡ o
      → is_held target ≡ false
      → IsValid db
      → let (db', res) = finish parse_uuid rid target (delta_of takes) db in
        (res ≡ ok tt) × IsValid db' × Finishes takes rid target db o db'
  unfolding finish finish_tx transact
  finish_by takes rid target db none h c v = rw (h, finish, transact, finish_tx) (refl, v, refl)
  finish_by takes rid target db (some r) h c v =
      let (uuid, row, status) = is_held_sound rid db r h in
      let (db', run, v', cl) = settle-Closes takes rid target r db (ground arith) c v in
      rw (h, finish, transact, finish_tx, run) (refl, v', cl)

  -- `Commit` in a valid store succeeds and leaves it valid. Of a known, HELD reservation it
  -- takes the units of each of its items off both `on_hand` and `reserved`, and marks it COMMITTED; on any other
  -- id it changes nothing.
  pub commit_exact :
      (rid : String) (db : Db)
      → IsValid db
      → let (db', res) = commit parse_uuid rid db in
        (res ≡ ok tt)
        × IsValid db'
        × Finishes true rid committed db (reservation_is_held parse_uuid rid db) db'
  unfolding commit
  commit_exact rid db v = finish_by true rid committed db _ refl refl v

  -- `Release` in a valid store succeeds and leaves it valid. Of a known, HELD reservation it
  -- takes the units of each of its items off `reserved` alone, and marks it RELEASED; on any other id
  -- it changes nothing.
  pub release_exact :
      (rid : String) (db : Db)
      → IsValid db
      → let (db', res) = release parse_uuid rid db in
        (res ≡ ok tt)
        × IsValid db'
        × Finishes false rid released db (reservation_is_held parse_uuid rid db) db'
  unfolding release
  release_exact rid db v = finish_by false rid released db _ refl refl v

  pub not_held_after :
      (takes : Bool) (rid : String) (target : ReservationStatus) (db db' : Db)
      (o : Option Reservation)
      → reservation_is_held parse_uuid rid db ≡ o
      → is_held target ≡ false
      → Finishes takes rid target db o db'
      → reservation_is_held parse_uuid rid db' ≡ none
  unfolding reservation_is_held
  not_held_after takes rid target db db' none h c f = rw f h
  not_held_after takes rid target db db' (some r) h c f = ground (arith, f.rows rid, eq_refl rid)

  -- A call that closes a reservation which is not HELD is the identity.
  not_held-finish :
      (rid : String) (target : ReservationStatus) (delta : Delta) (db : Db)
      → reservation_is_held parse_uuid rid db ≡ none
      → finish parse_uuid rid target delta db ≡ (db, ok tt)
  unfolding finish finish_tx transact
  not_held-finish rid target delta db h = rw (h, finish, transact, finish_tx)

  commit_settles_once :
      (rid : String) (db : Db)
      → IsValid db
      → let db' = (commit parse_uuid rid db).0 in
        (commit parse_uuid rid db' ≡ (db', ok tt)) × (release parse_uuid rid db' ≡ (db', ok tt))
  commit_settles_once rid db v =
      let (_, _, f) = commit_exact rid db v in
      let gone = not_held_after true rid committed db _ _ refl refl f in
      (
        unfold commit in not_held-finish rid committed commit_delta _ gone,
        unfold release in not_held-finish rid released release_delta _ gone,
      )

  release_settles_once :
      (rid : String) (db : Db)
      → IsValid db
      → let db' = (release parse_uuid rid db).0 in
        (release parse_uuid rid db' ≡ (db', ok tt)) × (commit parse_uuid rid db' ≡ (db', ok tt))
  release_settles_once rid db v =
      let (_, _, f) = release_exact rid db v in
      let gone = not_held_after false rid released db _ _ refl refl f in
      (
        unfold release in not_held-finish rid released release_delta _ gone,
        unfold commit in not_held-finish rid committed commit_delta _ gone,
      )

  -- A reservation is settled once: after `Commit`, and likewise after `Release`, of an id in a valid
  -- store, a later `Commit` and a later `Release` of it succeed and change nothing.
  pub settles_once :
      (rid : String) (db : Db)
      → IsValid db
      → let sold = (commit parse_uuid rid db).0 in
        let freed = (release parse_uuid rid db).0 in
        ((commit parse_uuid rid sold ≡ (sold, ok tt))
          × (release parse_uuid rid sold ≡ (sold, ok tt)))
        × ((release parse_uuid rid freed ≡ (freed, ok tt))
            × (commit parse_uuid rid freed ≡ (freed, ok tt)))
  settles_once rid db v = (commit_settles_once rid db v, release_settles_once rid db v)

  held_row :
      (rid : String) (db : Db)
      → parse_uuid rid ≡ true
      → held_in db.reservations rid ≡ true
      → (r : Reservation) × (reservation_is_held parse_uuid rid db ≡ some r)
  unfolding reservation_is_held
  held_row rid db u h = elim (Option-cases (lookup rid db.reservations)) [
    | inl missing ↦ absurd (ground arith)
    | inr (r, e) ↦ (r, ground arith)
  ]

  -- What closing does to the levels, once the reservation is known to be HELD.
  closed_levels :
      (takes : Bool) (rid : String) (target : ReservationStatus) (q : String) (db db' : Db)
      (o : Option Reservation)
      → ((r : Reservation) × (o ≡ some r))
      → Finishes takes rid target db o db'
      → level q db' ≡ drawn takes (units_of q (items_of rid db.items)) (level q db)
  closed_levels takes rid target q db db' none (r, e) f = cc
  closed_levels takes rid target q db db' (some _) _ f = f.drawn_levels q

  -- A successful `Reserve` in a valid store, followed by `Release` of its reservation, leaves the
  -- level of every product as it was.
  pub reserve-release_restores :
      (rid : String) (now : ℕ) (order_ref : String) (lns : List Line) (ttl : ℕ) (q : String)
      (db : Db) {x : String × ℕ}
      → IsValid db
      → parse_uuid rid ≡ true
      → (reserve rid now order_ref lns ttl db).1 ≡ ok x
      → level q (release parse_uuid rid (reserve rid now order_ref lns ttl db).0).0 ≡ level q db
  reserve-release_restores rid now order_ref lns ttl q db v u h =
      let (v', p) = reserve_never_oversells rid now order_ref lns ttl q db v in
      let db1 = (reserve rid now order_ref lns ttl db).0 in
      let (id, at, fresh, marked, same, added, covered, units) = rw h at p in
      let levels =
        closed_levels false rid released q db1 _ _ (held_row rid db1 u marked)
          (release_exact rid db1 v').2 in
      ground (arith, levels, units, same, added)

  -- A successful `Reserve` in a valid store, followed by `Commit` of its reservation, takes
  -- exactly the units ordered of a product off its `on_hand`, and leaves its `reserved` as it was before.
  pub reserve-commit_sells :
      (rid : String) (now : ℕ) (order_ref : String) (lns : List Line) (ttl : ℕ) (q : String)
      (db : Db) {x : String × ℕ}
      → IsValid db
      → parse_uuid rid ≡ true
      → (reserve rid now order_ref lns ttl db).1 ≡ ok x
      → let l = level q (commit parse_uuid rid (reserve rid now order_ref lns ttl db).0).0 in
        (l.on_hand + ordered q lns ≡ (level q db).on_hand) × (l.reserved ≡ (level q db).reserved)
  reserve-commit_sells rid now order_ref lns ttl q db v u h =
      let (v', p) = reserve_never_oversells rid now order_ref lns ttl q db v in
      let db1 = (reserve rid now order_ref lns ttl db).0 in
      let (id, at, fresh, marked, same, added, covered, units) = rw h at p in
      let levels =
        closed_levels true rid committed q db1 _ _ (held_row rid db1 u marked)
          (commit_exact rid db1 v').2 in
      ground (arith, levels, units, same, added, covered)
