-- ===== src/Order/Keys/Rows.antt =====
-- What each operation on the idempotency keys (services/order/internal/store/idempotency.go) leaves
-- of the row of one key.
use commerce_platform.Common.{
  ℕ, ◌+◌, ◌≤◌, ◌≡◌, refl, ◌∙◌, ◌⊎◌, inl, inr, String, false, some, [], ◌∷◌, arith, str_eq, ok, ◌≢◌,
  Option-cases, Bool-cases, Outcome-cases,
}
use commerce_platform.Common.Table.{lookup, insert, lookup-insert, lookup-erase}
use commerce_platform.Order.{Order}
use commerce_platform.Order.Store.{Db, insert_order, insert_order_tx}
use commerce_platform.Order.Keys.{
  Keys, KeyRow, KeyStatus, in_flight, completed, is_in_flight, stale_after, claim_key,
  claim_existing, release_key, is_reaped, reap_keys, complete_key, insert_with_key,
  insert_with_key_tx,
}

existing_elsewhere :
    (now : ℕ) (k key owner_id fingerprint : String) (st : KeyStatus) (row : KeyRow) (keys : Keys)
    → row.status ≡ st
    → str_eq k key ≡ false
    → lookup key (claim_existing now k owner_id fingerprint row keys).0 ≡ lookup key keys
unfolding claim_existing
existing_elsewhere now k key owner_id fingerprint (completed id) row keys s other =
    ground (arith, s, other)
existing_elsewhere now k key owner_id fingerprint in_flight row keys s other =
    ground (arith, s, other, lookup-insert k key (record row { created_at = now }) keys)

-- A claim writes no row but that of its key.
pub claim_elsewhere :
    (now : ℕ) (k key owner_id fingerprint : String) (keys : Keys)
    → str_eq k key ≡ false
    → lookup key (claim_key now k owner_id fingerprint keys).0 ≡ lookup key keys
unfolding claim_key lookup
claim_elsewhere now k key owner_id fingerprint keys other = elim (Option-cases (lookup k keys)) [
  | inl e ↦ rw (claim_key, e) (lookup-insert k key _ keys ∙ rw other refl)
  | inr (row, e) ↦
      rw (claim_key, e)
        (existing_elsewhere now k key owner_id fingerprint row.status row keys refl other)
]

-- A claim of a row that is not stale leaves it.
pub claim_held :
    (now : ℕ) (key owner_id fingerprint : String) (st : KeyStatus) (row : KeyRow) (keys : Keys)
    → row.status ≡ st
    → lookup key keys ≡ some row
    → (is_in_flight st ≡ false) ⊎ (now ≤ row.created_at + stale_after)
    → (claim_key now key owner_id fingerprint keys).0 ≡ keys
unfolding claim_key claim_existing
claim_held now key owner_id fingerprint (completed id) row keys s e h = ground (arith, s, e)
claim_held now key owner_id fingerprint in_flight row keys s e h = ground (arith, s, e, h)

pub release_elsewhere :
    (k key : String) (keys : Keys)
    → str_eq k key ≡ false
    → lookup key (release_key k keys) ≡ lookup key keys
unfolding release_key
release_elsewhere k key keys other = ground (arith, other, lookup-erase k key keys)

pub release_completed :
    (key : String) (row : KeyRow) (keys : Keys)
    → lookup key keys ≡ some row
    → is_in_flight row.status ≡ false
    → release_key key keys ≡ keys
unfolding release_key
release_completed key row keys e c = ground (arith, e, c)

-- A row that the reaper's condition passes over stays.
pub reap_kept :
    (now retain : ℕ) (key : String) (row : KeyRow) (keys : Keys)
    → lookup key keys ≡ some row
    → is_reaped now retain row ≡ false
    → lookup key (reap_keys now retain keys).0 ≡ some row
unfolding reap_keys lookup
reap_kept now retain key row [] e h = ground (arith, e)
reap_kept now retain key row ((k, other) ∷ keys) e h =
    ground (arith, e, h, reap_kept now retain key row keys)

pub complete_elsewhere :
    (k key id : String) (keys keys' : Keys)
    → str_eq k key ≡ false
    → complete_key k id keys ≡ ok keys'
    → lookup key keys' ≡ lookup key keys
unfolding complete_key
complete_elsewhere k key id keys keys' other h = elim (Option-cases (lookup k keys)) [
  | inl e ↦ absurd (ground (arith, e, h))
  | inr (row, e) ↦
      let row' : KeyRow = record row { status = completed id } in
      let same : keys' ≡ insert k row' keys = ground (arith, e, h) in
      rw same (lookup-insert k key row' keys ∙ rw other refl)
]

pub complete_completed :
    (key id : String) (row : KeyRow) (keys keys' : Keys)
    → lookup key keys ≡ some row
    → is_in_flight row.status ≡ false
    → complete_key key id keys ≢ ok keys'
unfolding complete_key
complete_completed key id row keys keys' e c h = ground (arith, e, c, h)

-- How `InsertWithKey` can end.
pub insert_with_key-cases :
    (o : Order) (key : String) (db : Db) (keys : Keys)
    → ((insert_with_key o key db keys).0 ≡ ((insert_order o db).0, keys))
      ⊎ ((d : Db) × (keys' : Keys) × (insert_order_tx o db ≡ ok d)
          × (complete_key key o.id keys ≡ ok keys')
          × ((insert_with_key o key db keys).0 ≡ (d, keys')))
      ⊎ ((insert_with_key o key db keys).0 ≡ (db, keys))
unfolding insert_with_key insert_with_key_tx
insert_with_key-cases o key db keys = elim (Bool-cases (str_eq key "")) [
  | inl plain ↦ inl (ground (arith, plain))
  | inr named ↦ elim (Outcome-cases (insert_order_tx o db)) [
    | inr (e, h) ↦ inr (inr (ground (arith, named, h)))
    | inl (d, h) ↦ elim (Outcome-cases (complete_key key o.id keys)) [
      | inr (e, c) ↦ inr (inr (ground (arith, named, h, c)))
      | inl (keys', c) ↦ inr (inl (d, keys', h, c, ground (arith, named, h, c)))
    ]
  ]
]
