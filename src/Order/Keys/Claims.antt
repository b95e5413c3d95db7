-- ===== src/Order/Keys/Claims.antt =====
-- Claims of an idempotency key over histories (services/order/internal/store/idempotency.go): the row of
-- its holder, and the row of its order.
use commerce_platform.Common.{
  List, [], All, ◌∙◌, ℕ, ◌+◌, ◌≤◌, ◌≡◌, refl, String, Bool, true, false, ◌&&◌, some, arith, str_eq,
  eq_iff, ok, Option-cases, Outcome-cases, inl, inr,
}
use commerce_platform.Common.Table.{lookup, insert, lookup-insert_self}
use commerce_platform.Order.{Order}
use commerce_platform.Order.Store.{Db, insert_order_tx, get, attached}
use commerce_platform.Order.Lines.{in_order}
use commerce_platform.Order.Kept.{Same, inserted-Holds, get-held}
use commerce_platform.Order.Keys.Histories.{
  KeyCall, Undisturbed, Retains, run_keys, run_keys-in_flight, run_keys-completed, run_keys-Holds,
}
use commerce_platform.Order.Keys.{
  Keys, KeyRow, KeyStatus, in_flight, completed, Claim, claimed, busy, answered, ClaimResult, claim,
  key_reused, stale_after, claim_key, claim_existing, release_key, complete_key, insert_with_key,
  insert_with_key_tx, order_for_key,
}

-- The row that a holder's claim leaves.
abbrev pub held_by : String → String → ℕ → KeyRow
held_by owner_id fingerprint now = record {
  owner_id = owner_id;
  fingerprint = fingerprint;
  status = in_flight;
  created_at = now;
}

existing_row :
    (now : ℕ) (key owner_id fingerprint : String) (st : KeyStatus) (row : KeyRow)
    (keys keys' : Keys)
    → row.status ≡ st
    → claim_existing now key owner_id fingerprint row keys ≡ (keys', claim claimed)
    → keys' ≡ insert key (held_by owner_id fingerprint now) keys
unfolding claim_existing
existing_row now key owner_id fingerprint in_flight row keys keys' s h =
    ground (arith, s, h, eq_iff row.owner_id owner_id, eq_iff row.fingerprint fingerprint)
existing_row now key owner_id fingerprint (completed id) row keys keys' s h = ground (arith, s, h)

claimed_row :
    (now : ℕ) (key owner_id fingerprint : String) (keys keys' : Keys)
    → claim_key now key owner_id fingerprint keys ≡ (keys', claim claimed)
    → lookup key keys' ≡ some (held_by owner_id fingerprint now)
unfolding claim_key
claimed_row now key owner_id fingerprint keys keys' h = elim (Option-cases (lookup key keys)) [
  | inl e ↦
      let same : keys' ≡ insert key (held_by owner_id fingerprint now) keys =
        ground (arith, e, h) in
      rw same (lookup-insert_self key (held_by owner_id fingerprint now) keys)
  | inr (row, e) ↦
      let existing : claim_existing now key owner_id fingerprint row keys ≡ (keys', claim claimed) =
        ground (arith, e, h) in
      let same =
        existing_row now key owner_id fingerprint row.status row keys keys' refl existing in
      rw same (lookup-insert_self key (held_by owner_id fingerprint now) keys)
]

-- What a claim by that owner for that request finds at a key.
abbrev pub Finds : Bool → Claim → Keys → Keys × ClaimResult → Type 0
Finds true c keys r = r ≡ (keys, claim c)
Finds false c keys r = r ≡ (keys, key_reused)

abbrev pub same_request : String → String → String → String → Bool
same_request owner_id fingerprint other_owner other_print =
    str_eq owner_id other_owner && str_eq fingerprint other_print

Finds-busy :
    (same : Bool) (now later : ℕ) (key owner_id fingerprint other_owner other_print : String)
    (keys : Keys)
    → same_request owner_id fingerprint other_owner other_print ≡ same
    → lookup key keys ≡ some (held_by owner_id fingerprint now)
    → later ≤ now + stale_after
    → Finds same busy keys (claim_key later key other_owner other_print keys)
unfolding claim_key claim_existing
Finds-busy true now later key owner_id fingerprint other_owner other_print keys e there t =
    ground (arith, e, there)
Finds-busy false now later key owner_id fingerprint other_owner other_print keys e there t =
    ground (arith, e, there)

Finds-answered :
    (same : Bool) (later : ℕ) (key other_owner other_print id : String) (row : KeyRow) (keys : Keys)
    → same_request row.owner_id row.fingerprint other_owner other_print ≡ same
    → lookup key keys ≡ some (record row { status = completed id })
    → Finds same (answered id) keys (claim_key later key other_owner other_print keys)
unfolding claim_key claim_existing
Finds-answered true later key other_owner other_print id row keys e there = ground (arith, e, there)
Finds-answered false later key other_owner other_print id row keys e there =
    ground (arith, e, there)

-- A completed key is not released, and leads to its order.
completed_lem :
    (parse_uuid : String → Bool) (key id : String) (row : KeyRow) (db : Db) (keys : Keys)
    → lookup key keys ≡ some (record row { status = completed id })
    → (release_key key keys ≡ keys)
      × (order_for_key parse_uuid key db keys ≡ get parse_uuid id "" db)
unfolding release_key order_for_key
completed_lem parse_uuid key id row db keys there = (ground (arith, there), ground (arith, there))

complete_key_lem :
    (key id owner_id fingerprint : String) (now : ℕ) (keys keys' : Keys)
    → lookup key keys ≡ some (held_by owner_id fingerprint now)
    → complete_key key id keys ≡ ok keys'
    → keys' ≡ insert key (record (held_by owner_id fingerprint now) { status = completed id }) keys
unfolding complete_key
complete_key_lem key id owner_id fingerprint now keys keys' there h = ground (arith, there, h)

-- A transaction that completed a key.
insert_with_key-eq-ok :
    (o : Order) (key : String) (db db' : Db) (keys keys' : Keys)
    → str_eq key "" ≡ false
    → insert_with_key o key db keys ≡ ((db', keys'), ok tt)
    → (insert_order_tx o db ≡ ok db') × (complete_key key o.id keys ≡ ok keys')
unfolding insert_with_key insert_with_key_tx
insert_with_key-eq-ok o key db db' keys keys' named w =
    elim (Outcome-cases (insert_order_tx o db)) [
      | inr (e, h) ↦ absurd (ground (arith, named, h, w))
      | inl (d, h) ↦ elim (Outcome-cases (complete_key key o.id keys)) [
        | inr (e, hk) ↦ absurd (ground (arith, named, h, hk, w))
        | inl (k, hk) ↦ (ground (arith, named, h, hk, w), ground (arith, named, h, hk, w))
      ]
    ]

-- The order and the row that a claim and its completion leave.
completed_row :
    (now : ℕ) (key owner_id fingerprint : String) (o : Order) (db db' : Db)
    (keys keys' keys'' : Keys)
    → str_eq key "" ≡ false
    → claim_key now key owner_id fingerprint keys ≡ (keys', claim claimed)
    → insert_with_key o key db keys' ≡ ((db', keys''), ok tt)
    → (insert_order_tx o db ≡ ok db')
      × (lookup key keys''
          ≡ some (record (held_by owner_id fingerprint now) { status = completed o.id }))
completed_row now key owner_id fingerprint o db db' keys keys' keys'' named h w =
    let there = claimed_row now key owner_id fingerprint keys keys' h in
    let (written, done) = insert_with_key-eq-ok o key db db' keys' keys'' named w in
    let same = complete_key_lem key o.id owner_id fingerprint now keys' keys'' there done in
    (written, rw same (lookup-insert_self key _ keys'))

-- Once a claim of a key succeeded, and for 900 seconds, the key has that one holder: after any history
-- of claims, reapings, checkouts and changes of orders in that time, in which this key is neither
-- released nor completed, a claim of it changes nothing and does not succeed: the same owner and
-- request is told that it is in flight, any other that the key was reused.
pub one_holder :
    (parse_uuid : String → Bool) (now later : ℕ)
    (key owner_id fingerprint other_owner other_print : String) (db : Db) (keys keys' : Keys)
    (cs : List KeyCall)
    → claim_key now key owner_id fingerprint keys ≡ (keys', claim claimed)
    → All (Undisturbed key (now + stale_after)) cs
    → later ≤ now + stale_after
    → let after = (run_keys parse_uuid cs (db, keys')).1 in
      Finds
        (same_request owner_id fingerprint other_owner other_print)
        busy
        after
        (claim_key later key other_owner other_print after)
one_holder parse_uuid now later key owner_id fingerprint other_owner other_print db keys keys' cs h
      u t =
    let there =
      run_keys-in_flight parse_uuid key (held_by owner_id fingerprint now) cs db keys' refl u
        (claimed_row now key owner_id fingerprint keys keys' h) in
    Finds-busy _ now later key owner_id fingerprint other_owner other_print _ refl there t

-- A claim that succeeded and was completed by `InsertWithKey`, with a key that is not empty, a UUID
-- for the order, and no line of such an order in the tables before. After any history of claims, releases and checkouts, of this key too, of
-- changes of orders, and of reapings before the time of retention is over, a claim of the key changes
-- nothing and is answered with that order, if the owner and the request are the same, or told that
-- the key was reused; a release changes nothing; and `OrderForKey` succeeds with that order: its id,
-- owner and total, and its lines by product.
pub retry_gets_order :
    (parse_uuid : String → Bool) (now later : ℕ)
    (key owner_id fingerprint other_owner other_print : String) (o : Order) (db db' : Db)
    (keys keys' keys'' : Keys) (cs : List KeyCall)
    → str_eq key "" ≡ false
    → parse_uuid o.id ≡ true
    → attached o.total.currency o.id db.order_lines ≡ []
    → claim_key now key owner_id fingerprint keys ≡ (keys', claim claimed)
    → insert_with_key o key db keys' ≡ ((db', keys''), ok tt)
    → All (Retains now) cs
    → let (orders, after) = run_keys parse_uuid cs (db', keys'') in
      Finds
        (same_request owner_id fingerprint other_owner other_print)
        (answered o.id)
        after
        (claim_key later key other_owner other_print after)
      × (release_key key after ≡ after)
      × (r : Order) × (order_for_key parse_uuid key orders after ≡ ok r)
      × Same o r
      × (r.lines ≡ in_order o.total.currency o.lines)
retry_gets_order parse_uuid now later key owner_id fingerprint other_owner other_print o db db' keys
      keys' keys'' cs named uuid no_lines h w kept =
    let row : KeyRow = record (held_by owner_id fingerprint now) { status = completed o.id } in
    let (written, found) =
      completed_row now key owner_id fingerprint o db db' keys keys' keys'' named h w in
    let there = run_keys-completed parse_uuid key row cs db' keys'' refl kept found in
    let ls = in_order o.total.currency o.lines in
    let held =
      run_keys-Holds parse_uuid o ls cs db' keys'' (inserted-Holds o db db' no_lines written) in
    let (r, got, same, lines) = get-held parse_uuid o ls _ uuid held in
    let (stays, leads) = completed_lem parse_uuid key o.id row _ _ there in
    (
      Finds-answered _ later key other_owner other_print o.id row _ refl there,
      stays,
      r,
      leads ∙ got,
      same,
      lines,
    )
