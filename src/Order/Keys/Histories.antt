-- ===== src/Order/Keys/Histories.antt =====
-- Histories of the idempotency keys (services/order/internal/store/idempotency.go) and of the orders
-- beside them, and the row of a key that they leave alone.
use commerce_platform.Common.{
  ℕ, ◌+◌, ◌≤◌, ◌≡◌, refl, ◌∙◌, ◌⊎◌, inl, inr, String, Bool, true, false, some, List, [], ◌∷◌, All,
  arith, str_eq, eq_iff, Bool-cases,
}
use commerce_platform.Common.Table.{lookup}
use commerce_platform.Order.{Order, Line}
use commerce_platform.Order.Store.{Db}
use commerce_platform.Order.Paths.{Call, serve}
use commerce_platform.Order.Kept.{Holds, serve-Holds, insert_order-Holds, insert_order_tx-Holds}
use commerce_platform.Order.Keys.{
  Keys, KeyRow, is_in_flight, stale_after, claim_key, release_key, is_reaped, reap_keys,
  insert_with_key,
}
use commerce_platform.Order.Keys.Rows.{
  claim_elsewhere, claim_held, release_elsewhere, release_completed, reap_kept, complete_elsewhere,
  complete_completed, insert_with_key-cases,
}

-- The calls of the keys, with the times at which they are made, and the other calls of the store.
pub data KeyCall : Type 0 where
  claim_call : ℕ → String → String → String → KeyCall
  release_call : String → KeyCall
  reap_call : ℕ → ℕ → KeyCall
  checkout_call : Order → String → KeyCall
  store_call : Call → KeyCall

module _ (parse_uuid : String → Bool) where
  unfoldable pub serve_key : KeyCall → Db × Keys → Db × Keys
  serve_key (claim_call now key owner_id fingerprint) (db, keys) =
      (db, (claim_key now key owner_id fingerprint keys).0)
  serve_key (release_call key) (db, keys) = (db, release_key key keys)
  serve_key (reap_call now retain) (db, keys) = (db, (reap_keys now retain keys).0)
  serve_key (checkout_call o key) (db, keys) = (insert_with_key o key db keys).0
  serve_key (store_call c) (db, keys) = (serve parse_uuid c db, keys)

  unfoldable pub run_keys : List KeyCall → Db × Keys → Db × Keys
  unfolding serve_key
  run_keys [] both = both
  run_keys (c ∷ cs) both = run_keys cs (serve_key c both)

-- A call that leaves an in-flight row alone: no claim and no reaper comes later than `until`, and its
-- key is neither released nor completed.
abbrev pub Undisturbed : String → ℕ → KeyCall → Type 0
Undisturbed key until (claim_call now k owner_id fingerprint) = now ≤ until
Undisturbed key until (release_call k) = str_eq k key ≡ false
Undisturbed key until (reap_call now retain) = now ≤ until
Undisturbed key until (checkout_call o k) = str_eq k key ≡ false
Undisturbed key until (store_call c) = Unit {0}

-- A call of the reaper before the time of retention is over, or any other call.
abbrev pub Retains : ℕ → KeyCall → Type 0
Retains created_at (reap_call now retain) = now ≤ created_at + retain
Retains created_at _ = Unit {0}

claim_keeps :
    (now : ℕ) (k key owner_id fingerprint : String) (row : KeyRow) (keys : Keys)
    → lookup key keys ≡ some row
    → (is_in_flight row.status ≡ false) ⊎ (now ≤ row.created_at + stale_after)
    → lookup key (claim_key now k owner_id fingerprint keys).0 ≡ some row
claim_keeps now k key owner_id fingerprint row keys e h = elim (Bool-cases (str_eq k key)) [
  | inr other ↦ claim_elsewhere now k key owner_id fingerprint keys other ∙ e
  | inl same ↦
      let at : k ≡ key = (eq_iff k key).0 same in
      rw (at, claim_held now key owner_id fingerprint row.status row keys refl e h) e
]

checkout_elsewhere :
    (o : Order) (k key : String) (db : Db) (keys : Keys)
    → str_eq k key ≡ false
    → lookup key (insert_with_key o k db keys).0.1 ≡ lookup key keys
checkout_elsewhere o k key db keys other = elim (insert_with_key-cases o k db keys) [
  | inl plain ↦ rw plain refl
  | inr (inl (d, keys', h, c, done)) ↦ rw done (complete_elsewhere k key o.id keys keys' other c)
  | inr (inr failed) ↦ rw failed refl
]

checkout_completed :
    (o : Order) (k key : String) (row : KeyRow) (db : Db) (keys : Keys)
    → lookup key keys ≡ some row
    → is_in_flight row.status ≡ false
    → lookup key (insert_with_key o k db keys).0.1 ≡ some row
checkout_completed o k key row db keys e c = elim (Bool-cases (str_eq k key)) [
  | inr other ↦ checkout_elsewhere o k key db keys other ∙ e
  | inl same ↦ elim (insert_with_key-cases o k db keys) [
    | inl plain ↦ rw plain e
    | inr (inr failed) ↦ rw failed e
    | inr (inl (d, keys', h, w, done)) ↦
        let there : lookup k keys ≡ some row = rw ((eq_iff k key).0 same) e in
        absurd (complete_completed k o.id row keys keys' there c w)
  ]
]

checkout-Holds :
    (o x : Order) (ls : List Line) (k : String) (db : Db) (keys : Keys)
    → Holds o ls db
    → Holds o ls (insert_with_key x k db keys).0.0
checkout-Holds o x ls k db keys h = elim (insert_with_key-cases x k db keys) [
  | inl plain ↦ rw plain (insert_order-Holds o x ls db h)
  | inr (inl (d, keys', w, c, done)) ↦ rw done (insert_order_tx-Holds o x ls db d w h)
  | inr (inr failed) ↦ rw failed h
]

reaped_early :
    (now retain : ℕ) (row : KeyRow)
    → is_in_flight row.status ≡ true
    → now ≤ row.created_at + stale_after
    → is_reaped now retain row ≡ false
unfolding is_reaped
reaped_early now retain row s h = ground (arith, s, h)

retained :
    (now retain : ℕ) (row : KeyRow)
    → is_in_flight row.status ≡ false
    → now ≤ row.created_at + retain
    → is_reaped now retain row ≡ false
unfolding is_reaped
retained now retain row s h = ground (arith, s, h)

module _ (parse_uuid : String → Bool) (key : String) (row : KeyRow) where
  serve_key-in_flight :
      (c : KeyCall) (db : Db) (keys : Keys)
      → is_in_flight row.status ≡ true
      → Undisturbed key (row.created_at + stale_after) c
      → lookup key keys ≡ some row
      → lookup key (serve_key parse_uuid c (db, keys)).1 ≡ some row
  unfolding serve_key
  serve_key-in_flight (claim_call now k owner_id fingerprint) db keys s u e =
      claim_keeps now k key owner_id fingerprint row keys e (inr u)
  serve_key-in_flight (release_call k) db keys s u e = release_elsewhere k key keys u ∙ e
  serve_key-in_flight (reap_call now retain) db keys s u e =
      reap_kept now retain key row keys e (reaped_early now retain row s u)
  serve_key-in_flight (checkout_call o k) db keys s u e = checkout_elsewhere o k key db keys u ∙ e
  serve_key-in_flight (store_call c) db keys s u e = e

  pub run_keys-in_flight :
      (cs : List KeyCall) (db : Db) (keys : Keys)
      → is_in_flight row.status ≡ true
      → All (Undisturbed key (row.created_at + stale_after)) cs
      → lookup key keys ≡ some row
      → lookup key (run_keys parse_uuid cs (db, keys)).1 ≡ some row
  unfolding run_keys
  run_keys-in_flight [] db keys s u e = e
  run_keys-in_flight (c ∷ cs) db keys s u e =
      run_keys-in_flight cs _ _ s u.1 (serve_key-in_flight c db keys s u.0 e)

  serve_key-completed :
      (c : KeyCall) (db : Db) (keys : Keys)
      → is_in_flight row.status ≡ false
      → Retains row.created_at c
      → lookup key keys ≡ some row
      → lookup key (serve_key parse_uuid c (db, keys)).1 ≡ some row
  unfolding serve_key
  serve_key-completed (claim_call now k owner_id fingerprint) db keys s u e =
      claim_keeps now k key owner_id fingerprint row keys e (inl s)
  serve_key-completed (release_call k) db keys s u e = elim (Bool-cases (str_eq k key)) [
    | inr other ↦ release_elsewhere k key keys other ∙ e
    | inl same ↦
        let at : k ≡ key = (eq_iff k key).0 same in rw (at, release_completed key row keys e s) e
  ]
  serve_key-completed (reap_call now retain) db keys s u e =
      reap_kept now retain key row keys e (retained now retain row s u)
  serve_key-completed (checkout_call o k) db keys s u e = checkout_completed o k key row db keys e s
  serve_key-completed (store_call c) db keys s u e = e

  pub run_keys-completed :
      (cs : List KeyCall) (db : Db) (keys : Keys)
      → is_in_flight row.status ≡ false
      → All (Retains row.created_at) cs
      → lookup key keys ≡ some row
      → lookup key (run_keys parse_uuid cs (db, keys)).1 ≡ some row
  unfolding run_keys
  run_keys-completed [] db keys s u e = e
  run_keys-completed (c ∷ cs) db keys s u e =
      run_keys-completed cs _ _ s u.1 (serve_key-completed c db keys s u.0 e)

module _ (parse_uuid : String → Bool) (o : Order) (ls : List Line) where
  serve_key-Holds :
      (c : KeyCall) (db : Db) (keys : Keys)
      → Holds o ls db
      → Holds o ls (serve_key parse_uuid c (db, keys)).0
  unfolding serve_key
  serve_key-Holds (claim_call now k owner_id fingerprint) db keys h = h
  serve_key-Holds (release_call k) db keys h = h
  serve_key-Holds (reap_call now retain) db keys h = h
  serve_key-Holds (checkout_call x k) db keys h = checkout-Holds o x ls k db keys h
  serve_key-Holds (store_call c) db keys h = serve-Holds parse_uuid o ls c db h

  pub run_keys-Holds :
      (cs : List KeyCall) (db : Db) (keys : Keys)
      → Holds o ls db
      → Holds o ls (run_keys parse_uuid cs (db, keys)).0
  unfolding run_keys
  run_keys-Holds [] db keys h = h
  run_keys-Holds (c ∷ cs) db keys h = run_keys-Holds cs _ _ (serve_key-Holds c db keys h)
