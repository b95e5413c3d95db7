-- ===== src/Order/Saga/Refunding/Approvals.antt =====
-- An approval of a return, and its repetition (DecideReturn of
-- services/order/internal/saga/returns.go and of services/order/internal/store/returns.go).
use Prim.Native.String.{◌++◌ as append_text}
use commerce_platform.Common.{
  ◌≡◌, refl, ap, ◌∙◌, String, Bool, true, false, some, List, [], ◌∷◌, Outcome, ok, err, Error,
  Bool-cases, inl, inr,
}
use commerce_platform.Common.Table.{lookup}
use commerce_platform.Common.Int.{ℤ, pos}
use commerce_platform.Order.{Order}
use commerce_platform.Order.Store.{get, MoneyMessage, money_message}
use commerce_platform.Order.Returns.{
  Return, approved, is_approved, ReturnLineRow, ReturnsDb, unrestocked_lines, get_return,
  decide_return,
}
use commerce_platform.Order.Saga.{Services, World, Rpc, called}
use commerce_platform.Order.Saga.Refunding.{
  restock_call, refund_call, owes_refund, and_then, restock_line, restock_lines, restock_stage,
  after_adjust, after_refund, refund_stage, after_decision, decide_and_refund, restock_failed,
}
use commerce_platform.Order.Saga.Refunding.Restocks.{
  mark_all, restock_calls, restock_lines_done, none_unrestocked,
}
use commerce_platform.Order.Saga.Refunding.Decided.{
  refund_calls, read_lines-mark_all, get_return_row, get_return-eq-ok, decide_again, approved-read,
  all_marked,
}

module _ (services : Services)
    (refunds : (cs : List Rpc) (p : String) (m : MoneyMessage) (k : String)
      → services.refund cs p m k ≡ ok tt)
    (adjusts : (cs : List Rpc) (p : String) (n : ℤ) (r : String)
      → services.adjust_stock cs p n r ≡ ok tt) where
  restock_stage_done :
      (r : Return) (w : World)
      → restock_stage services r w ≡ (
        record w {
          returns = all_marked r.id w.returns;
          calls = restock_calls r.id (unrestocked_lines r.id w.returns) w.calls;
        },
        ok r,
      )
  unfolding restock_stage
  restock_stage_done r w =
      ap (λ x. and_then x (λ w'. (w', ok r)))
        (restock_lines_done services r.id (unrestocked_lines r.id w.returns) w adjusts)

  after_refund_done :
      (o : Order) (r : Return) (w : World) (answer : Outcome (Unit {0}))
      → answer ≡ ok tt
      → after_refund services o r w answer ≡ (
        record w {
          returns = all_marked r.id w.returns;
          calls =
              restock_calls r.id
                (unrestocked_lines r.id w.returns)
                (refund_call o r true ∷ w.calls);
        },
        ok r,
      )
  unfolding after_refund
  after_refund_done o r w answer h = rw h (restock_stage_done r (called (refund_call o r true) w))

  refund_stage_done :
      (o : Order) (r : Return) (w : World)
      → refund_stage services r w (ok o) ≡ (
        record w {
          returns = all_marked r.id w.returns;
          calls = restock_calls r.id (unrestocked_lines r.id w.returns) (refund_calls o r w.calls);
        },
        ok r,
      )
  unfolding refund_stage refund_calls
  refund_stage_done o r w = elim (Bool-cases (owes_refund o r)) [
    | inl e ↦ rw e (
        after_refund_done o r w _
          (refunds w.calls o.payment_id (money_message r.refund_total) r.id))
    | inr e ↦ rw e (restock_stage_done r w)
  ]

  module _ (parse_uuid : String → Bool) where
    decide_and_refund_done :
        (decided_by id note : String) (w : World) (o : Order) (r : Return) (db : ReturnsDb)
        → decide_return parse_uuid id decided_by true note w.returns ≡ ok (r, db)
        → r.status ≡ approved
        → get parse_uuid r.order_id "" w.db ≡ ok o
        → decide_and_refund services parse_uuid decided_by id true note w ≡ (
          record w {
            returns = all_marked r.id db;
            calls = restock_calls r.id (unrestocked_lines r.id db) (refund_calls o r w.calls);
          },
          ok r,
        )
    unfolding decide_and_refund after_decision
    decide_and_refund_done decided_by id note w o r db h s ho =
        rw (h, ap is_approved s, ho) (refund_stage_done o r (record w { returns = db }))

    decide_return_again :
        (decided_by id note : String) (r : Return) (db : ReturnsDb)
        → get_return parse_uuid id "" db ≡ ok r
        → r.status ≡ approved
        → decide_return parse_uuid id decided_by true note db ≡ ok (r, db)
    unfolding decide_return
    decide_return_again decided_by id note r db h s =
        rw (h, decide_again decided_by note r s, s) refl

    marked-read :
        (id k : String) (ls : List ReturnLineRow) (r : Return) (db : ReturnsDb)
        → get_return parse_uuid id "" db ≡ ok r
        → get_return parse_uuid id "" (record db { return_lines = mark_all k ls db.return_lines })
          ≡ ok r
    marked-read id k ls r db h =
        let (row, named, there, same) = get_return-eq-ok parse_uuid id db r h in
        get_return_row parse_uuid id row
          (record db { return_lines = mark_all k ls db.return_lines }) named there
        ∙ rw (same, read_lines-mark_all row.refund_total.currency id k ls db.return_lines) refl

    -- When `Refund` and `AdjustStock` answer without an error, the row of the return carries its own
    -- id, the store takes the approval, and the order is there: the approval is answered with the
    -- return that the store made of it; the calls made are the refund, when one is owed, and one
    -- restock for each line that was not restocked, and afterwards no line is left to restock. A
    -- second approval, by whomever and with whatever note, is answered the same, restocks nothing
    -- and changes no table: it only asks for the refund again, under the same idempotency key.
    pub approval_settles :
        (decided_by other id note remark : String) (w : World) (o : Order) (r : Return)
        (db : ReturnsDb)
        → ((row : Return) → lookup id w.returns.returns ≡ some row → row.id ≡ id)
        → decide_return parse_uuid id decided_by true note w.returns ≡ ok (r, db)
        → get parse_uuid r.order_id "" w.db ≡ ok o
        → let first = decide_and_refund services parse_uuid decided_by id true note w in
          (first.1 ≡ ok r)
          × (first.0.calls
              ≡ restock_calls r.id (unrestocked_lines r.id db) (refund_calls o r w.calls))
          × (unrestocked_lines r.id first.0.returns ≡ [])
          × (decide_and_refund services parse_uuid other id true remark first.0
              ≡ (record first.0 { calls = refund_calls o r first.0.calls }, ok r))
    unfolding restock_calls mark_all
    approval_settles decided_by other id note remark w o r db keyed h ho =
        let (read, s) = approved-read parse_uuid decided_by note id r w.returns db keyed h in
        let w1 : World = record w {
          returns = all_marked r.id db;
          calls = restock_calls r.id (unrestocked_lines r.id db) (refund_calls o r w.calls);
        } in
        let none_left = none_unrestocked r.id db in
        let again =
          decide_return_again other id remark r w1.returns
            (marked-read id r.id (unrestocked_lines r.id db) r db read) s in
        let second = decide_and_refund_done other id remark w1 o r w1.returns again s ho in
        rw (decide_and_refund_done decided_by id note w o r db h s ho)
          (refl, refl, none_left, second ∙ rw none_left refl)

restock_line_failed :
    (services : Services) (id : String) (l : ReturnLineRow) (w : World) (e : Error)
    → services.adjust_stock w.calls l.product_id (pos l.quantity) (append_text "RETURN:" id) ≡ err e
    → restock_line services id l w ≡ (called (restock_call id l false) w, err restock_failed)
unfolding restock_line after_adjust
restock_line_failed services id l w e h = rw h refl

restock_stage_failed :
    (services : Services) (r : Return) (w : World) (l : ReturnLineRow) (ls : List ReturnLineRow)
    (e : Error)
    → unrestocked_lines r.id w.returns ≡ l ∷ ls
    → services.adjust_stock w.calls l.product_id (pos l.quantity) (append_text "RETURN:" r.id)
      ≡ err e
    → restock_stage services r w ≡ (called (restock_call r.id l false) w, err restock_failed)
unfolding restock_stage restock_lines
restock_stage_failed services r w l ls e pending fails = rw pending (
    ap (λ x. and_then (and_then x (restock_lines services r.id ls)) (λ w'. (w', ok r)))
      (restock_line_failed services r.id l w e fails))

-- A line whose restock answers an error stays to be restocked, so the decision fails with
-- RESTOCK_FAILED; once the service answers, a later attempt makes for that line the very same call
-- of `AdjustStock` again, which has no idempotency key, and then those of the other lines.
pub restock_asked_again :
    (services later : Services) (r : Return) (w : World) (l : ReturnLineRow)
    (ls : List ReturnLineRow) (e : Error)
    → unrestocked_lines r.id w.returns ≡ l ∷ ls
    → services.adjust_stock w.calls l.product_id (pos l.quantity) (append_text "RETURN:" r.id)
      ≡ err e
    → ((cs : List Rpc) (p : String) (n : ℤ) (k : String) → later.adjust_stock cs p n k ≡ ok tt)
    → let first = restock_stage services r w in
      (first.1 ≡ err restock_failed)
      × (unrestocked_lines r.id first.0.returns ≡ l ∷ ls)
      × ((restock_stage later r first.0).0.calls
          ≡ restock_calls r.id ls (restock_call r.id l true ∷ restock_call r.id l false ∷ w.calls))
unfolding restock_stage restock_calls
restock_asked_again services later r w l ls e pending fails answers =
    let again =
      restock_lines_done later r.id (l ∷ ls) (called (restock_call r.id l false) w) answers in
    rw (restock_stage_failed services r w l ls e pending fails)
      (refl, pending, rw pending (ap (λ x. (and_then x (λ w'. (w', ok r))).0.calls) again))
