-- ===== src/Order/Saga/Refunding/Decided.antt =====
-- A decided return is read back as it was answered (DecideReturn and getReturn of
-- services/order/internal/store/returns.go).
use commerce_platform.Common.{
  ◌≡◌, ◌⊎◌, refl, sym, ap, subst, ◌∙◌, String, Bool, true, ◌&&◌, some, List, [], ◌∷◌, arith,
  if◌then◌else◌, str_eq, ok, Bool-cases, Option-cases, inl, inr, >>=-eq-ok,
}
use commerce_platform.Common.Table.{lookup, lookup-insert_self}
use commerce_platform.Order.{Order}
use commerce_platform.Order.Returns.{
  Return, ReturnStatus, requested, approved, rejected, ReturnLineRow, ReturnsDb, insert_row,
  rows_of, read_lines, unrestocked_lines, mark_rows, get_return, decide, decide_return,
  write_decision, emit_return_event, same_status,
}
use commerce_platform.Order.Saga.{Rpc}
use commerce_platform.Order.Saga.Refunding.{refund_call, owes_refund}
use commerce_platform.Order.Saga.Refunding.Restocks.{mark_all}

-- The calls after the refund, when one is owed and it succeeds.
unfoldable pub refund_calls : Order → Return → List Rpc → List Rpc
refund_calls o r cs = if owes_refund o r then refund_call o r true ∷ cs else cs

insert_row-mark_rows :
    (k p : String) (l : ReturnLineRow) (ms : List ReturnLineRow)
    → insert_row
        (if str_eq l.return_id k && str_eq l.product_id p then record l { restocked = true } else l)
        (mark_rows k p ms)
      ≡ mark_rows k p (insert_row l ms)
unfolding insert_row mark_rows
insert_row-mark_rows k p l [] = refl
insert_row-mark_rows k p l (m ∷ ms) = ground (arith, insert_row-mark_rows k p l ms)

rows_of-mark_rows :
    (id k p : String) (rows : List ReturnLineRow)
    → rows_of id (mark_rows k p rows) ≡ mark_rows k p (rows_of id rows)
unfolding rows_of mark_rows
rows_of-mark_rows id k p [] = refl
rows_of-mark_rows id k p (l ∷ ls) =
    elim (Bool-cases (str_eq l.return_id k && str_eq l.product_id p)) [
      | inr e ↦
          ground (arith, e, rows_of-mark_rows id k p ls, insert_row-mark_rows k p l (rows_of id ls))
      | inl e ↦
          ground (arith, e, rows_of-mark_rows id k p ls, insert_row-mark_rows k p l (rows_of id ls))
    ]

read_lines-mark_rows :
    (cur k p : String) (rows : List ReturnLineRow)
    → read_lines cur (mark_rows k p rows) ≡ read_lines cur rows
unfolding read_lines mark_rows
read_lines-mark_rows cur k p [] = refl
read_lines-mark_rows cur k p (l ∷ ls) =
    elim (Bool-cases (str_eq l.return_id k && str_eq l.product_id p)) [
      | inl e ↦ ground (arith, e, read_lines-mark_rows cur k p ls)
      | inr e ↦ ground (arith, e, read_lines-mark_rows cur k p ls)
    ]

-- A return is read the same after its lines were marked.
pub read_lines-mark_all :
    (cur id k : String) (ls rows : List ReturnLineRow)
    → read_lines cur (rows_of id (mark_all k ls rows)) ≡ read_lines cur (rows_of id rows)
unfolding mark_all
read_lines-mark_all cur id k [] rows = refl
read_lines-mark_all cur id k (l ∷ ls) rows =
    read_lines-mark_all cur id k ls (mark_rows k l.product_id rows)
    ∙ ap (read_lines cur) (rows_of-mark_rows id k l.product_id rows)
    ∙ read_lines-mark_rows cur k l.product_id (rows_of id rows)

module _ (parse_uuid : String → Bool) where
  pub get_return_row :
      (id : String) (row : Return) (db : ReturnsDb)
      → parse_uuid id ≡ true
      → lookup id db.returns ≡ some row
      → get_return parse_uuid id "" db
        ≡ ok (record row {
          lines = read_lines row.refund_total.currency (rows_of id db.return_lines);
        })
  unfolding get_return
  get_return_row id row db h e = rw (h, e) refl

  pub get_return-eq-ok :
      (id : String) (db : ReturnsDb) (r : Return)
      → get_return parse_uuid id "" db ≡ ok r
      → (row : Return) × (parse_uuid id ≡ true)
        × (lookup id db.returns ≡ some row)
        × (r ≡ record row {
          lines = read_lines row.refund_total.currency (rows_of id db.return_lines);
        })
  unfolding get_return
  get_return-eq-ok id db r h = elim (Bool-cases (parse_uuid id)) [
    | inr e ↦ absurd (ground (arith, e, h))
    | inl e ↦ elim (Option-cases (lookup id db.returns)) [
      | inl n ↦ absurd (ground (arith, e, n, h))
      | inr (row, s) ↦ (row, e, s, ground (arith, h, get_return_row id row db e s))
    ]
  ]

status-cases : (s : ReturnStatus) → (s ≡ requested) ⊎ (s ≡ approved) ⊎ (s ≡ rejected)
status-cases requested = inl refl
status-cases approved = inr (inl refl)
status-cases rejected = inr (inr refl)

decide_approves :
    (decided_by note : String) (r r' : Return)
    → decide true decided_by note r ≡ ok r'
    → ((r.status ≡ approved) × (r' ≡ r))
      ⊎ ((r.status ≡ requested)
          × (r' ≡ record r { status = approved; decided_by = decided_by; decision_note = note }))
unfolding decide
decide_approves decided_by note r r' h = elim (status-cases r.status) [
  | inl e ↦ inr (e, ground (arith, e, h))
  | inr (inl e) ↦ inl (e, ground (arith, e, h))
  | inr (inr e) ↦ absurd (ground (arith, e, h))
]

pub decide_again :
    (decided_by note : String) (r : Return)
    → r.status ≡ approved
    → decide true decided_by note r ≡ ok r
unfolding decide
decide_again decided_by note r e = rw e refl

write_decision_row :
    (r row : Return) (db : ReturnsDb)
    → lookup r.id db.returns ≡ some row
    → let db' = write_decision r db in
      (lookup r.id db'.returns
        ≡ some (record row {
          status = r.status;
          decided_by = r.decided_by;
          decision_note = r.decision_note;
        }))
      × (db'.return_lines ≡ db.return_lines)
unfolding write_decision emit_return_event
write_decision_row r row db h =
    let new : Return = record row {
      status = r.status;
      decided_by = r.decided_by;
      decision_note = r.decision_note;
    } in
    (ground (arith, h, lookup-insert_self r.id new db.returns), ground (arith, h))

module _ (parse_uuid : String → Bool) where
  requested-read :
      (decided_by note id : String) (r : Return) (db : ReturnsDb)
      → ((row : Return) → lookup id db.returns ≡ some row → row.id ≡ id)
      → get_return parse_uuid id "" db ≡ ok r
      → let r' : Return = record r {
        status = approved;
        decided_by = decided_by;
        decision_note = note;
      } in
        get_return parse_uuid id "" (write_decision r' db) ≡ ok r'
  requested-read decided_by note id r db keyed hg =
      let (row, named, there, same) = get_return-eq-ok parse_uuid id db r hg in
      let at = keyed row there in
      let r0 : Return = record row {
        lines = read_lines row.refund_total.currency (rows_of id db.return_lines);
      } in
      let r' : Return = record r0 {
        status = approved;
        decided_by = decided_by;
        decision_note = note;
      } in
      let new : Return = record row {
        status = approved;
        decided_by = decided_by;
        decision_note = note;
      } in
      let (found, kept) = write_decision_row r' row db (rw at there) in
      subst
        (λ r.
          get_return parse_uuid id "" (
            write_decision
              (record r { status = approved; decided_by = decided_by; decision_note = note }) db)
          ≡ ok (record r { status = approved; decided_by = decided_by; decision_note = note }))
        (sym same)
        (get_return_row parse_uuid id new (write_decision r' db) named
            (subst (λ i. lookup i (write_decision r' db).returns ≡ some new) at found)
          ∙ rw kept refl)

  -- An approved return is read back as it was answered.
  pub approved-read :
      (decided_by note id : String) (r : Return) (db db' : ReturnsDb)
      → ((row : Return) → lookup id db.returns ≡ some row → row.id ≡ id)
      → decide_return parse_uuid id decided_by true note db ≡ ok (r, db')
      → (get_return parse_uuid id "" db' ≡ ok r) × (r.status ≡ approved)
  unfolding decide_return
  approved-read decided_by note id r db db' keyed h =
      let (r0, hg, h1) = >>=-eq-ok (get_return parse_uuid id "" db) _ h in
      let (r1, hd, h2) = >>=-eq-ok (decide true decided_by note r0) _ h1 in
      let here : r1 ≡ r = ground (arith, h2) in
      let there : (if same_status r1.status r0.status then db else write_decision r1 db) ≡ db' =
        ground (arith, h2) in
      elim (decide_approves decided_by note r0 r1 hd) [
        | inl (s, same) ↦
            let kept : db ≡ db' = ground (arith, there, same, s) in
            (
              subst (λ d. get_return parse_uuid id "" d ≡ ok r) kept (hg ∙ ap ok (sym same ∙ here)),
              subst (λ x. x.status ≡ approved) (sym same ∙ here) s,
            )
        | inr (s, same) ↦
            let written : write_decision r1 db ≡ db' = ground (arith, there, same, s) in
            (
              subst (λ d. get_return parse_uuid id "" d ≡ ok r) written
                  (subst (λ x. get_return parse_uuid id "" (write_decision x db) ≡ ok r) (sym same)
                    (requested-read decided_by note id r0 db keyed hg ∙ ap ok (sym same ∙ here))),
              subst (λ x. x.status ≡ approved) (sym same ∙ here) refl,
            )
      ]

-- The store's tables after the lines were marked.
abbrev pub all_marked : String → ReturnsDb → ReturnsDb
all_marked id db = record db {
  return_lines = mark_all id (unrestocked_lines id db) db.return_lines;
}
