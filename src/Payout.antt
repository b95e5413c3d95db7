-- ===== src/Payout.antt =====
-- Payouts to shops: services/payout/internal/domain/payout.go, the table and methods of
-- services/payout/internal/store/store.go, the sweeps of services/payout/internal/settlement/sweeper.go
-- and the consumer of services/payout/internal/consumer/consumer.go.
pub mod Shares
mod Tests
use commerce_platform.Common.{
  ℕ, ◌+◌, String, Bool, true, false, not, ◌&&◌, ◌||◌, Option, none, some, List, [], ◌∷◌, ◌++◌,
  if◌then◌else◌, ltb, leb, ◌==◌, take, str_eq, Outcome, ok, err, Error, new_error, ◌>>=◌, ◌>>◌,
  reject_if, internal, not_found, failed_precondition,
}
use commerce_platform.Common.Int.{ℤ, pos, ◌+ℤ◌, ◌*ℤ◌, ◌/ℤ◌, int64}
use commerce_platform.Order.{Money, contains}
use commerce_platform.Order.Store.{MoneyMessage, money_message}

pub data PayoutStatus : Type 0 where
  pending paid : PayoutStatus

abbrev pub is_pending : PayoutStatus → Bool
is_pending pending = true
is_pending paid = false

abbrev pub is_paid : PayoutStatus → Bool
is_paid pending = false
is_paid paid = true

-- `FromUnitsNanos`, of a message.
unfoldable pub from_units_nanos : MoneyMessage → Money
from_units_nanos m = record {
  currency = m.currency_code;
  cents = int64 (int64 (m.units *ℤ pos 100) +ℤ m.nanos /ℤ 10000000);
}

-- `Add`: the currency of an empty amount is that of the other.
unfoldable pub add : Money → Money → Money
add a b = record {
  currency = if str_eq a.currency "" then b.currency else a.currency;
  cents = int64 (a.cents +ℤ b.cents);
}

pub record Payout : Type 0 where
  pub id : String
  pub order_id : String
  pub shop_id : String
  pub amount : Money
  pub status : PayoutStatus
  pub created_at : ℕ
  pub paid_at : Option ℕ

unfoldable pub can_transition_to : PayoutStatus → PayoutStatus → Bool
can_transition_to st to = is_pending st && is_paid to

-- `MarkPaid` of the aggregate.
unfoldable pub mark_paid : Payout → Outcome Payout
unfolding can_transition_to
mark_paid p = if is_paid p.status then ok p else do
  reject_if (not (can_transition_to p.status paid)) (new_error failed_precondition "BAD_TRANSITION")
  ok (record p { status = paid })

pub record ShopAmount : Type 0 where
  pub shop_id : String
  pub amount : Money

-- The payloads of the outbox rows: the payout, its order, its shop.
pub data PayoutEvent : Type 0 where
  payout_created : String → String → String → MoneyMessage → PayoutEvent
  payout_paid : String → String → String → PayoutEvent

pub record Db : Type 0 where
  pub payouts : List Payout
  pub processed_events : List String
  pub outbox : List PayoutEvent

abbrev pub db_error : Error
db_error = new_error internal "DB_ERROR"

abbrev pub no_payout : Error
no_payout = new_error not_found "PAYOUT_NOT_FOUND"

-- UNIQUE (order_id, shop_id), and the primary key.
unfoldable pub has_share : String → String → List Payout → Bool
has_share order_id shop_id [] = false
has_share order_id shop_id (p ∷ ps) =
    (str_eq p.order_id order_id && str_eq p.shop_id shop_id) || has_share order_id shop_id ps

unfoldable pub find_payout : String → List Payout → Option Payout
find_payout id [] = none
find_payout id (p ∷ ps) = if str_eq p.id id then some p else find_payout id ps

abbrev pub is_there : Option Payout → Bool
is_there none = false
is_there (some p) = true

unfoldable pub new_payout : ℕ → String → String → ShopAmount → Payout
new_payout now id order_id g = record {
  id = id;
  order_id = order_id;
  shop_id = g.shop_id;
  amount = g.amount;
  status = pending;
  created_at = now;
  paid_at = none;
}

unfoldable pub insert_payout : Payout → Db → Db
insert_payout p db = record db {
  payouts = db.payouts ++ p ∷ [];
  outbox = db.outbox ++ payout_created p.id p.order_id p.shop_id (money_message p.amount) ∷ [];
}

-- The loop of `CreateFromOrder`: what the platform sells itself is not paid out. `draw` gives the id of
-- a new row.
unfoldable pub create_shares :
    (List Payout → String) → ℕ → String → List ShopAmount → Db → Outcome (List Payout × Db)
create_shares draw now order_id [] db = ok ([], db)
create_shares draw now order_id (g ∷ gs) db =
    let p = new_payout now (draw db.payouts) order_id g in
    let skipped = create_shares draw now order_id gs db in
    let rest = create_shares draw now order_id gs (insert_payout p db) in
    if str_eq g.shop_id "" || has_share order_id g.shop_id db.payouts
    then skipped
    else if is_there (find_payout (draw db.payouts) db.payouts)
    then err db_error
    else rest >>= λ (ps, db'). ok (p ∷ ps, db')

abbrev pub committed : Db → Outcome (List Payout × Db) → Db × Outcome (List Payout)
committed db (ok (ps, db')) = (db', ok ps)
committed db (err e) = (db, err e)

-- `CreateFromOrder`.
unfoldable pub create_from_order :
    (List Payout → String) → ℕ → String → List ShopAmount → String → Db → Db × Outcome (List Payout)
create_from_order draw now order_id groups event db =
    let seen = record db { processed_events = event ∷ db.processed_events } in
    let begun = if str_eq event "" then db else seen in
    if not (str_eq event "") && contains event db.processed_events
    then (db, ok [])
    else committed db (create_shares draw now order_id groups begun)

-- `scanOne` by id: a text that is no UUID is an error of the database.
unfoldable pub scan_one : (String → Bool) → String → Db → Outcome Payout
scan_one parse_uuid id db = do
  reject_if (not (parse_uuid id)) db_error
  elim (find_payout id db.payouts) [ none ↦ err no_payout | some p ↦ ok p ]

-- `Get`.
unfoldable pub get : (String → Bool) → String → String → Db → Outcome Payout
unfolding scan_one
get parse_uuid id shop_id db = do
  p ← scan_one parse_uuid id db
  reject_if (not (str_eq shop_id "") && not (str_eq p.shop_id shop_id)) no_payout
  ok p

unfoldable pub update_rows : ℕ → Payout → List Payout → List Payout
update_rows now p [] = []
update_rows now p (row ∷ rows) =
    (if str_eq row.id p.id then record row { status = p.status; paid_at = some now } else row)
    ∷ update_rows now p rows

unfoldable pub write_paid : ℕ → Payout → Db → Db
unfolding update_rows
write_paid now p db = record db {
  payouts = update_rows now p db.payouts;
  outbox = db.outbox ++ payout_paid p.id p.order_id p.shop_id ∷ [];
}

abbrev pub after_mark : (String → Bool) → ℕ → Db → Outcome Payout → Db × Outcome Payout
after_mark parse_uuid now db (err e) = (db, err e)
after_mark parse_uuid now db (ok p) =
    let db' = write_paid now p db in (db', get parse_uuid p.id "" db')

abbrev pub after_scan : (Payout → Db × Outcome Payout) → Db → Outcome Payout → Db × Outcome Payout
after_scan next db (err e) = (db, err e)
after_scan next db (ok p) = next p

-- `MarkPaid` of the store.
unfoldable pub pay : (String → Bool) → ℕ → String → Db → Db × Outcome Payout
pay parse_uuid now id db =
    after_scan
      (λ p. if is_paid p.status then (db, ok p) else after_mark parse_uuid now db (mark_paid p)) db
      (scan_one parse_uuid id db)

-- `ORDER BY created_at`.
unfoldable pub insert_by_creation : Payout → List Payout → List Payout
insert_by_creation p [] = p ∷ []
insert_by_creation p (q ∷ qs) =
    if leb p.created_at q.created_at then p ∷ q ∷ qs else q ∷ insert_by_creation p qs

unfoldable pub due_rows : ℕ → List Payout → List Payout
unfolding insert_by_creation
due_rows before [] = []
due_rows before (p ∷ ps) =
    let rest = due_rows before ps in
    if is_pending p.status && ltb p.created_at before then insert_by_creation p rest else rest

abbrev pub ids_of : List Payout → List String
ids_of [] = []
ids_of (p ∷ ps) = p.id ∷ ids_of ps

-- `DuePayoutIDs`.
unfoldable pub due_payout_ids : ℕ → ℕ → Db → List String
unfolding due_rows
due_payout_ids before limit db =
    ids_of (take (if limit == 0 then 100 else limit) (due_rows before db.payouts))

-- The loop of `sweep`, and `sweep`: an error is only logged.
unfoldable pub pay_all : (String → Bool) → ℕ → List String → Db → Db
pay_all parse_uuid now [] db = db
pay_all parse_uuid now (id ∷ ids) db = pay_all parse_uuid now ids (pay parse_uuid now id db).0

unfoldable pub sweep : (String → Bool) → ℕ → ℕ → Db → Db
sweep parse_uuid now before db = pay_all parse_uuid now (due_payout_ids before 100 db) db

-- `orderv1.OrderLine`, as far as the consumer reads it.
pub record OrderLine : Type 0 where
  pub shop_id : String
  pub line_total : MoneyMessage

abbrev pub no_money : Money
no_money = record { currency = ""; cents = pos 0 }

-- `byShop[shop].Add`, with the shops in the order of their first lines.
unfoldable pub add_share : String → Money → List ShopAmount → List ShopAmount
unfolding add
add_share shop m [] = record { shop_id = shop; amount = add no_money m } ∷ []
add_share shop m (g ∷ gs) =
    if str_eq g.shop_id shop
    then record g { amount = add g.amount m } ∷ gs
    else g ∷ add_share shop m gs

-- `groupsFrom`, with the groups so far.
unfoldable pub groups_from : List ShopAmount → List OrderLine → List ShopAmount
unfolding add_share from_units_nanos
groups_from gs [] = gs
groups_from gs (l ∷ ls) = groups_from (add_share l.shop_id (from_units_nanos l.line_total) gs) ls

-- `Handler`, of a record of the topic: what cannot be decoded is skipped.
unfoldable pub on_order_confirmed :
    (List Payout → String)
    → ℕ
    → String
    → Option (String × List OrderLine)
    → Db
    → Db × Outcome (List Payout)
unfolding groups_from
on_order_confirmed draw now event none db = (db, ok [])
on_order_confirmed draw now event (some (order_id, lines)) db =
    create_from_order draw now order_id (groups_from [] lines) event db
