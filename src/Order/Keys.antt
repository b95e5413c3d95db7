-- ===== src/Order/Keys.antt =====
-- The idempotency keys of checkouts (services/order/internal/store/idempotency.go), with the table
-- idempotency_keys. Times are in seconds of one
-- clock, which the process and the database read; SHA-256 is a parameter.
pub mod Rows
pub mod Histories
pub mod Claims
use commerce_platform.Common.{
  ℕ, ◌+◌, ◌-◌, ◌<◌, ◌≤◌, ◌≡◌, refl, String, Bool, true, false, not, ◌&&◌, ◌||◌, Option, none, some,
  List, [], ◌∷◌, length, arith, if◌then◌else◌, ltb, str_eq, eq_iff, eq_refl, Outcome, ok, err,
  Error, new_error, ◌>>=◌, ◌>>◌, reject_if, conflict, not_found, failed_precondition, Option-cases,
  Bool-cases, inl, inr,
}
use commerce_platform.Common.Table.{Table, lookup, insert, erase, lookup-insert_self, lookup-erase}
use commerce_platform.Common.Int.{ℤ}
use commerce_platform.Order.{Order}
use commerce_platform.Order.Store.{Db, insert_order, insert_order_tx, get, no_order}

-- `StaleInFlightAfter`.
abbrev pub stale_after : ℕ
stale_after = 900

-- A completed row names its order.
pub data KeyStatus : Type 0 where
  in_flight : KeyStatus
  completed : String → KeyStatus

pub record KeyRow : Type 0 where
  pub owner_id : String
  pub fingerprint : String
  pub status : KeyStatus
  pub created_at : ℕ

pub data Claim : Type 0 where
  claimed busy : Claim
  answered : String → Claim

-- `ErrIdempotencyKeyReused` is an error of its own, outside the taxonomy.
pub data ClaimResult : Type 0 where
  claim : Claim → ClaimResult
  key_reused : ClaimResult

abbrev pub Keys : Type 0
Keys = Table KeyRow

-- `Fingerprint`: the texts that are written to the hash.
unfoldable pub fingerprint_of :
    (List String → String) → (ℤ → String) → String → String → String → String → ℤ → String
fingerprint_of digest format_int owner_id cart_id currency coupon total_cents = digest (
    owner_id
    ∷ "\0"
    ∷ cart_id
    ∷ "\0"
    ∷ currency
    ∷ "\0"
    ∷ coupon
    ∷ "\0"
    ∷ format_int total_cents
    ∷ [])

-- The decision on a row that is there, and the UPDATE that takes a stale one over.
unfoldable pub claim_existing : ℕ → String → String → String → KeyRow → Keys → Keys × ClaimResult
claim_existing now key owner_id fingerprint row keys =
    if not (str_eq row.owner_id owner_id) || not (str_eq row.fingerprint fingerprint)
    then (keys, key_reused)
    else (elim row.status [
      | completed order_id ↦ (keys, claim (answered order_id))
      | in_flight ↦
          if ltb (now - row.created_at) stale_after
          then (keys, claim busy)
          else if ltb (row.created_at + stale_after) now
          then (insert key (record row { created_at = now }) keys, claim claimed)
          else (keys, claim busy)
    ])

-- `ClaimIdempotencyKey` at the time `now`; nothing comes between its two statements.
unfoldable pub claim_key : ℕ → String → String → String → Keys → Keys × ClaimResult
claim_key now key owner_id fingerprint keys = elim (lookup key keys) [
  | none ↦
      let row : KeyRow = record {
        owner_id = owner_id;
        fingerprint = fingerprint;
        status = in_flight;
        created_at = now;
      } in
      (insert key row keys, claim claimed)
  | some row ↦ claim_existing now key owner_id fingerprint row keys
]

abbrev pub is_in_flight : KeyStatus → Bool
is_in_flight in_flight = true
is_in_flight (completed id) = false

-- `ReleaseIdempotencyKey`.
unfoldable pub release_key : String → Keys → Keys
release_key key keys = if str_eq key "" then keys else (elim (lookup key keys) [
  | none ↦ keys
  | some row ↦ if is_in_flight row.status then erase key keys else keys
])

-- The WHERE of `ReapIdempotencyKeys`.
unfoldable pub is_reaped : ℕ → ℕ → KeyRow → Bool
is_reaped now retain row =
    if is_in_flight row.status
    then ltb (row.created_at + stale_after) now
    else ltb (row.created_at + retain) now

-- `ReapIdempotencyKeys`, with the number of rows that it deleted.
unfoldable pub reap_keys : ℕ → ℕ → Keys → Keys × ℕ
unfolding is_reaped
reap_keys now retain [] = ([], 0)
reap_keys now retain ((k, row) ∷ rows) =
    let (rest, n) = reap_keys now retain rows in
    if is_reaped now retain row then (rest, n + 1) else ((k, row) ∷ rest, n)

abbrev pub claim_lost : Error
claim_lost = new_error conflict "IDEMPOTENCY_CLAIM_LOST"

-- The UPDATE that completes a key: an error when it changes no row.
unfoldable pub complete_key : String → String → Keys → Outcome Keys
complete_key key order_id keys = elim (lookup key keys) [
  | none ↦ err claim_lost
  | some row ↦
      if is_in_flight row.status
      then ok (insert key (record row { status = completed order_id }) keys)
      else err claim_lost
]

unfoldable pub insert_with_key_tx : Order → String → Db → Keys → Outcome (Db × Keys)
insert_with_key_tx o key db keys = do
  db' ← insert_order_tx o db
  keys' ← complete_key key o.id keys
  ok (db', keys')

-- `InsertWithKey`: both tables or neither.
unfoldable pub insert_with_key : Order → String → Db → Keys → (Db × Keys) × Outcome (Unit {0})
insert_with_key o key db keys =
    let (plain, res) = insert_order o db in
    if str_eq key "" then ((plain, keys), res) else (elim (insert_with_key_tx o key db keys) [
      | ok after ↦ (after, ok tt)
      | err e ↦ ((db, keys), err e)
    ])

-- `OrderForKey`.
unfoldable pub order_for_key : (String → Bool) → String → Db → Keys → Outcome Order
order_for_key parse_uuid key db keys = elim (lookup key keys) [
  | none ↦ err no_order
  | some row ↦ elim row.status [
    | in_flight ↦ err no_order
    | completed order_id ↦ get parse_uuid order_id "" db
  ]
]
