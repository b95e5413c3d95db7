-- ===== src/Order/Saga/Sweeper/Settles.antt =====
-- What a sweep of the reconciler achieves (services/order/internal/reconcile/reconciler.go) when the
-- other services answer.
use commerce_platform.Common.{
  ◌≡◌, ◌↔◌, refl, sym, subst, ◌∙◌, ℕ, zero, suc, ◌≤◌, String, Bool, true, false, not, ◌&&◌, ◌||◌,
  List, [], ◌∷◌, arith, ltb, leb, str_eq, eq_iff, eq_refl, take, take-all, length, All, All-map, ok,
  Bool-cases, inl, inr,
}
use commerce_platform.Common.Table.{Table, lookup, has_row}
use commerce_platform.Order.{Order}
use commerce_platform.Order.Store.{Db}
use commerce_platform.Order.Saga.{Services, World, Rpc, marks_of}
use commerce_platform.Order.Saga.Sweeper.{
  PendingCompensation, is_pending_row, row_of, insert_by_update, pending_rows, clamp_limit,
  pending_compensations, retry_release, sweep_one, sweep_all, sweep,
}
use commerce_platform.Order.Saga.Sweeper.Columns.{
  swept, settled, swept-settled, settled_kept, settled-row, not_pending_kept, Known, Marked,
  retry_release-Marked, retry_void-Marked,
}

-- From here on both services answer, and no order's id is the empty text.
module _ (parse_uuid : String → Bool) (services : Services)
    (releases : (cs : List Rpc) (rid : String) → services.release cs rid ≡ ok tt)
    (voids : (cs : List Rpc) (pid : String) → services.void cs pid ≡ ok tt)
    (no_id : parse_uuid "" ≡ false) where
  named : (id : String) → parse_uuid id ≡ true → str_eq id "" ≡ false
  named id h = elim (Bool-cases (str_eq id "")) [
    | inr e ↦ e
    | inl e ↦
        absurd (ground (arith, no_id, subst (λ i. parse_uuid i ≡ true) ((eq_iff id "").0 e) h))
  ]

  sweep_one-Marked :
      (p : PendingCompensation) (w : World)
      → Known parse_uuid services p.order_id w.db
      → Marked parse_uuid services (swept p) p.order_id w (sweep_one parse_uuid services p w)
  unfolding sweep_one
  sweep_one-Marked p w known =
      let w1 = retry_release parse_uuid services p w in
      let n = named p.order_id known.0 in
      let (d1, m1) = retry_release-Marked parse_uuid services p w releases n known in
      let known1 = subst (λ d. Known parse_uuid services p.order_id d) (sym d1) known in
      let (d2, m2) = retry_void-Marked parse_uuid services p w1 voids n known1 in
      (d2 ∙ d1, λ j. ground (arith, m1 j, m2 j))

  abbrev Settled : World → PendingCompensation → Type 0
  Settled w p = settled p (marks_of p.order_id w) ≡ true

  abbrev AllKnown : Db → List PendingCompensation → Type 0
  AllKnown db ps = All (λ p. Known parse_uuid services p.order_id db) ps

  sweep_one-Settled :
      (p q : PendingCompensation) (w : World)
      → Known parse_uuid services q.order_id w.db
      → Settled w p
      → Settled (sweep_one parse_uuid services q w) p
  sweep_one-Settled p q w known s =
      let (_, m) = sweep_one-Marked q w known in
      subst (λ x. settled p x ≡ true) (sym (m p.order_id))
        (ground (arith, s, settled_kept p q (marks_of p.order_id w)))

  sweep_all_db :
      (ps : List PendingCompensation) (w : World)
      → AllKnown w.db ps
      → (sweep_all parse_uuid services ps w).db ≡ w.db
  unfolding sweep_all
  sweep_all_db [] w k = refl
  sweep_all_db (p ∷ ps) w k =
      let (d, _) = sweep_one-Marked p w k.0 in
      sweep_all_db ps (sweep_one parse_uuid services p w) (subst (λ x. AllKnown x ps) (sym d) k.1)
      ∙ d

  sweep_all_keeps :
      (q : PendingCompensation) (ps : List PendingCompensation) (w : World)
      → AllKnown w.db ps
      → Settled w q
      → Settled (sweep_all parse_uuid services ps w) q
  unfolding sweep_all
  sweep_all_keeps q [] w k s = s
  sweep_all_keeps q (p ∷ ps) w k s =
      let (d, _) = sweep_one-Marked p w k.0 in
      sweep_all_keeps q ps (sweep_one parse_uuid services p w)
        (subst (λ x. AllKnown x ps) (sym d) k.1) (sweep_one-Settled q p w k.0 s)

  sweep_all-Settled :
      (ps : List PendingCompensation) (w : World)
      → AllKnown w.db ps
      → All (Settled (sweep_all parse_uuid services ps w)) ps
  unfolding sweep_all
  sweep_all-Settled [] w k = tt
  sweep_all-Settled (p ∷ ps) w k =
      let (d, m) = sweep_one-Marked p w k.0 in
      let w1 = sweep_one parse_uuid services p w in
      let k1 = subst (λ x. AllKnown x ps) (sym d) k.1 in
      let now : Settled w1 p =
        subst (λ x. settled p x ≡ true) (sym (m p.order_id))
          (ground (arith, eq_refl p.order_id, swept-settled p (marks_of p.order_id w))) in
      (sweep_all_keeps p ps w1 k1 now, sweep_all-Settled ps w1 k1)

  -- A sweep only sets columns.
  sweep_all_grows :
      (id : String) (ps : List PendingCompensation) (w : World)
      → AllKnown w.db ps
      → let m = marks_of id w in
        let m' = marks_of id (sweep_all parse_uuid services ps w) in
        (not m.reservation_released || m'.reservation_released ≡ true)
        × (not m.payment_voided || m'.payment_voided ≡ true)
  unfolding sweep_all
  sweep_all_grows id [] w k = (ground arith, ground arith)
  sweep_all_grows id (p ∷ ps) w k =
      let (d, m) = sweep_one-Marked p w k.0 in
      let (h1, h2) =
        sweep_all_grows id ps (sweep_one parse_uuid services p w)
          (subst (λ x. AllKnown x ps) (sym d) k.1) in
      (ground (arith, h1, m id), ground (arith, h2, m id))

  module _ (updated : String → ℕ) (settled_before : ℕ) where
    All-insert_by_update {κ} :
        (P : PendingCompensation → Type κ) (p : PendingCompensation) (ps : List PendingCompensation)
        → P p × All P ps ↔ All P (insert_by_update updated settled_before p ps)
    unfolding insert_by_update
    All-insert_by_update P p [] = (λ h. h, λ h. h)
    All-insert_by_update P p (q ∷ qs) =
        elim (Bool-cases (leb (updated p.order_id) (updated q.order_id))) [
          | inl e ↦ rw e (λ h. h, λ h. h)
          | inr e ↦ rw e (
            λ (hp, (hq, hqs)). (hq, (All-insert_by_update P p qs).0 (hp, hqs)),
            λ (hq, hqs). let (hp, hr) = (All-insert_by_update P p qs).1 hqs in (hp, (hq, hr)),
          )
        ]

    pending_rows_nil : (w : World) → pending_rows updated settled_before w [] ≡ []
    unfolding pending_rows
    pending_rows_nil w = refl

    pending_rows_in :
        (w : World) (id : String) (o : Order) (os : Table Order)
        → is_pending_row (marks_of id w) o && ltb (updated id) settled_before ≡ true
        → pending_rows updated settled_before w ((id, o) ∷ os)
          ≡ insert_by_update updated settled_before
              (row_of (marks_of id w) id o)
              (pending_rows updated settled_before w os)
    unfolding pending_rows
    pending_rows_in w id o os h = rw h refl

    pending_rows_out :
        (w : World) (id : String) (o : Order) (os : Table Order)
        → is_pending_row (marks_of id w) o && ltb (updated id) settled_before ≡ false
        → pending_rows updated settled_before w ((id, o) ∷ os)
          ≡ pending_rows updated settled_before w os
    unfolding pending_rows
    pending_rows_out w id o os h = rw h refl

    -- Every row of the list is a row of the table.
    All-pending_rows {κ} :
        (P : String → Type κ) (w : World) (os : Table Order)
        → All (λ r. P r.0) os
        → All (λ p. P p.order_id) (pending_rows updated settled_before w os)
    unfolding row_of
    All-pending_rows P w [] h = rw (pending_rows_nil w) tt
    All-pending_rows P w ((id, o) ∷ os) (h, hs) =
        elim (Bool-cases (is_pending_row (marks_of id w) o && ltb (updated id) settled_before)) [
          | inl e ↦ rw (pending_rows_in w id o os e) (
              (All-insert_by_update (λ p. P p.order_id) (row_of (marks_of id w) id o)
                  (pending_rows updated settled_before w os)).0
                (h, All-pending_rows P w os hs))
          | inr e ↦ rw (pending_rows_out w id o os e) (All-pending_rows P w os hs)
        ]

    -- Once the rows are settled and the columns only grew, no row is left.
    none_left :
        (w w' : World) (os : Table Order)
        → ((id : String)
            → (not (marks_of id w).reservation_released || (marks_of id w').reservation_released
                ≡ true)
              × (not (marks_of id w).payment_voided || (marks_of id w').payment_voided ≡ true))
        → All (Settled w') (pending_rows updated settled_before w os)
        → pending_rows updated settled_before w' os ≡ []
    unfolding row_of
    none_left w w' [] grows h = pending_rows_nil w'
    none_left w w' ((id, o) ∷ os) grows h =
        let (hr, hv) = grows id in
        elim (Bool-cases (is_pending_row (marks_of id w) o && ltb (updated id) settled_before)) [
          | inl e ↦
              let (hp, hs) =
                (All-insert_by_update (Settled w') (row_of (marks_of id w) id o)
                    (pending_rows updated settled_before w os)).1
                  (subst (λ ps. All (Settled w') ps) (pending_rows_in w id o os e) h) in
              let out = settled-row id o (marks_of id w) (marks_of id w') hr hv hp in
              pending_rows_out w' id o os (ground (arith, out)) ∙ none_left w w' os grows hs
          | inr e ↦
              let hs = subst (λ ps. All (Settled w') ps) (pending_rows_out w id o os e) h in
              pending_rows_out w' id o os
                (ground (arith, e, not_pending_kept o (marks_of id w) (marks_of id w') hr hv))
              ∙ none_left w w' os grows hs
        ]

All-both :
    (P Q : String → Type 0) (os : Table Order)
    → All (λ r. P r.0) os
    → All (λ r. Q r.0) os
    → All (λ r. P r.0 × Q r.0) os
All-both P Q [] h k = tt
All-both P Q (r ∷ os) h k = ((h.0, k.0), All-both P Q os h.1 k.1)

take_nil : (n : ℕ) → take {A = PendingCompensation} n [] ≡ []
take_nil zero = refl
take_nil (suc n) = refl

rows_there : (os : Table Order) → All (λ r. has_row r.0 os ≡ true) os
unfolding lookup
rows_there [] = tt
rows_there ((id, o) ∷ os) =
    (ground (arith, eq_refl id), All-map _ _ os (λ r h. ground (arith, h)) (rows_there os))

-- When `Release` and `Void` answer without an error, the empty text is no UUID, the ids of all orders
-- are UUIDs, and the limit lets the query return all of its rows, a sweep leaves the orders as they
-- were, and the same query finds no compensation that is still owed.
pub sweep_settles :
    (parse_uuid : String → Bool) (services : Services) (updated : String → ℕ)
    (settled_before batch limit : ℕ) (w : World)
    → ((cs : List Rpc) (rid : String) → services.release cs rid ≡ ok tt)
    → ((cs : List Rpc) (pid : String) → services.void cs pid ≡ ok tt)
    → parse_uuid "" ≡ false
    → All (λ r. parse_uuid r.0 ≡ true) w.db.orders
    → length (pending_rows updated settled_before w w.db.orders)
      ≤ clamp_limit updated settled_before batch
    → let after = sweep parse_uuid services updated settled_before batch w in
      (after.db ≡ w.db) × (pending_compensations updated settled_before limit after ≡ [])
unfolding sweep pending_compensations
sweep_settles parse_uuid services updated settled_before batch limit w rel void no_id ids fits =
    let ps = pending_rows updated settled_before w w.db.orders in
    let known : All (λ p. Known parse_uuid services p.order_id w.db) ps =
      All-pending_rows parse_uuid services rel void no_id updated settled_before
        (λ id. Known parse_uuid services id w.db) w w.db.orders
        (All-both (λ id. parse_uuid id ≡ true) (λ id. has_row id w.db.orders ≡ true) w.db.orders ids
          (rows_there w.db.orders)) in
    let d = sweep_all_db parse_uuid services rel void no_id ps w known in
    let left =
      none_left parse_uuid services rel void no_id updated settled_before w
        (sweep_all parse_uuid services ps w) w.db.orders
        (λ id. sweep_all_grows parse_uuid services rel void no_id id ps w known)
        (sweep_all-Settled parse_uuid services rel void no_id ps w known) in
    rw (take-all (clamp_limit updated settled_before batch) ps fits)
      (d, rw (d, left) (take_nil (clamp_limit updated settled_before limit)))
