-- ===== src/Order/Saga/Sweeper.antt =====
-- The reconciler (services/order/internal/reconcile/reconciler.go): compensations that are still
-- owed (PendingCompensations of services/order/internal/store/compensation.go) are tried again.
pub mod Columns
pub mod Settles
use commerce_platform.Common.{
  ℕ, String, Bool, true, false, not, ◌&&◌, ◌||◌, Option, none, some, List, [], ◌∷◌, if◌then◌else◌,
  ltb, leb, ◌==◌, str_eq, take, Outcome, ok, err,
}
use commerce_platform.Common.Table.{Table, lookup}
use commerce_platform.Order.{Order, is_cancelled}
use commerce_platform.Order.Saga.{
  Services, World, Marks, marks_of, release_reservation, void_payment,
}

-- The ids that are still owed, "" for one that is not.
pub record PendingCompensation : Type 0 where
  pub order_id : String
  pub reservation_id : String
  pub payment_id : String

-- `CASE WHEN … IS NULL THEN id ELSE '' END`.
abbrev pub owed : Bool → String → String
owed set id = if set then "" else id

-- The WHERE of the query, without the time; `updated` gives a row's `updated_at`.
unfoldable pub is_pending_row : Marks → Order → Bool
is_pending_row m o =
    is_cancelled o.status
    && ((not m.reservation_released && not (str_eq o.reservation_id ""))
        || (not m.payment_voided && not (str_eq o.payment_id "")))

unfoldable pub row_of : Marks → String → Order → PendingCompensation
row_of m id o = record {
  order_id = id;
  reservation_id = owed m.reservation_released o.reservation_id;
  payment_id = owed m.payment_voided o.payment_id;
}

module _ (updated : String → ℕ) (settled_before : ℕ) where
  -- `ORDER BY updated_at`.
  unfoldable pub insert_by_update :
      PendingCompensation → List PendingCompensation → List PendingCompensation
  insert_by_update p [] = p ∷ []
  insert_by_update p (q ∷ qs) =
      if leb (updated p.order_id) (updated q.order_id)
      then p ∷ q ∷ qs
      else q ∷ insert_by_update p qs

  unfoldable pub pending_rows : World → Table Order → List PendingCompensation
  unfolding is_pending_row row_of insert_by_update
  pending_rows w [] = []
  pending_rows w ((id, o) ∷ os) =
      let rest = pending_rows w os in
      if is_pending_row (marks_of id w) o && ltb (updated id) settled_before
      then insert_by_update (row_of (marks_of id w) id o) rest
      else rest

  -- The limit of `PendingCompensations`.
  unfoldable pub clamp_limit : ℕ → ℕ
  clamp_limit n = if n == 0 || ltb 500 n then 100 else n

  unfoldable pub pending_compensations : ℕ → World → List PendingCompensation
  unfolding pending_rows clamp_limit
  pending_compensations limit w = take (clamp_limit limit) (pending_rows w w.db.orders)

module _ (parse_uuid : String → Bool) (services : Services) where
  unfoldable pub retry_release : PendingCompensation → World → World
  retry_release p w =
      if str_eq p.reservation_id ""
      then w
      else (release_reservation parse_uuid services p.order_id p.reservation_id w).0

  unfoldable pub retry_void : PendingCompensation → World → World
  retry_void p w =
      if str_eq p.payment_id ""
      then w
      else (void_payment parse_uuid services p.order_id p.payment_id w).0

  -- The body of the loop of `Sweep`: an error of the release does not stop the void.
  unfoldable pub sweep_one : PendingCompensation → World → World
  sweep_one p w = retry_void p (retry_release p w)

  unfoldable pub sweep_all : List PendingCompensation → World → World
  sweep_all [] w = w
  sweep_all (p ∷ ps) w = sweep_all ps (sweep_one p w)

  -- `Sweep`.
  unfoldable pub sweep : (String → ℕ) → ℕ → ℕ → World → World
  unfolding sweep_all
  sweep updated settled_before batch w =
      sweep_all (pending_compensations updated settled_before batch w) w
