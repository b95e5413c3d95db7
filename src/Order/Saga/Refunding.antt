-- ===== src/Order/Saga/Refunding.antt =====
-- `DecideReturn` of services/order/internal/saga/returns.go: an approved return is refunded, and its
-- units go back into the stock.
pub mod Restocks
pub mod Decided
pub mod Approvals
use Prim.Native.String.{◌++◌ as append_text}
use commerce_platform.Common.{
  String, Bool, true, false, not, ◌&&◌, List, [], ◌∷◌, if◌then◌else◌, str_eq, Outcome, ok, err,
  Error, new_error, unavailable,
}
use commerce_platform.Common.Int.{pos, leb_ℤ}
use commerce_platform.Order.{Order}
use commerce_platform.Order.Store.{get, money_message}
use commerce_platform.Order.Returns.{
  Return, ReturnLineRow, ReturnsDb, is_approved, unrestocked_lines, mark_restocked, decide_return,
}
use commerce_platform.Order.Saga.{Services, World, Rpc, refunded, restocked, called}

abbrev pub refund_failed : Error
refund_failed = new_error unavailable "REFUND_FAILED"

abbrev pub restock_failed : Error
restock_failed = new_error unavailable "RESTOCK_FAILED"

-- The call of `AdjustStock` for a line, and of `Refund`, with whether it succeeded.
unfoldable pub restock_call : String → ReturnLineRow → Bool → Rpc
restock_call id l b = restocked l.product_id (pos l.quantity) (append_text "RETURN:" id) b

unfoldable pub refund_call : Order → Return → Bool → Rpc
refund_call o r b = refunded o.payment_id (money_message r.refund_total) r.id b

-- Is there money to give back?
unfoldable pub owes_refund : Order → Return → Bool
owes_refund o r = not (str_eq o.payment_id "") && not (leb_ℤ r.refund_total.cents (pos 0))

-- What follows a step that can fail.
abbrev pub and_then {ℓ} :
    {A : Type ℓ} → World × Outcome (Unit {0}) → (World → World × Outcome A) → World × Outcome A
and_then (w, err e) next = (w, err e)
and_then (w, ok _) next = next w

module _ (services : Services) where
  unfoldable pub after_adjust :
      String → ReturnLineRow → World → Outcome (Unit {0}) → World × Outcome (Unit {0})
  after_adjust id l w (err e) = (called (restock_call id l false) w, err restock_failed)
  after_adjust id l w (ok _) =
      let w' = called (restock_call id l true) w in
      (record w' { returns = mark_restocked id l.product_id w'.returns }, ok tt)

  unfoldable pub restock_line : String → ReturnLineRow → World → World × Outcome (Unit {0})
  restock_line id l w =
      after_adjust id l w
        (services.adjust_stock w.calls l.product_id (pos l.quantity) (append_text "RETURN:" id))

  -- The loop over the lines that are not restocked.
  unfoldable pub restock_lines : String → List ReturnLineRow → World → World × Outcome (Unit {0})
  restock_lines id [] w = (w, ok tt)
  restock_lines id (l ∷ ls) w = and_then (restock_line id l w) (restock_lines id ls)

  unfoldable pub restock_stage : Return → World → World × Outcome Return
  restock_stage r w =
      and_then (restock_lines r.id (unrestocked_lines r.id w.returns) w) (λ w'. (w', ok r))

  unfoldable pub after_refund : Order → Return → World → Outcome (Unit {0}) → World × Outcome Return
  after_refund o r w (err e) = (called (refund_call o r false) w, err refund_failed)
  after_refund o r w (ok _) = restock_stage r (called (refund_call o r true) w)

  unfoldable pub refund_stage : Return → World → Outcome Order → World × Outcome Return
  refund_stage r w (err e) = (w, err e)
  refund_stage r w (ok o) =
      if owes_refund o r
      then after_refund o r w
          (services.refund w.calls o.payment_id (money_message r.refund_total) r.id)
      else restock_stage r w

  module _ (parse_uuid : String → Bool) where
    -- What follows the decision of the store.
    unfoldable pub after_decision : World → Outcome (Return × ReturnsDb) → World × Outcome Return
    after_decision w (err e) = (w, err e)
    after_decision w (ok (r, db)) =
        let w' : World = record w { returns = db } in
        if is_approved r.status
        then refund_stage r w' (get parse_uuid r.order_id "" w.db)
        else (w', ok r)

    -- `DecideReturn`.
    unfoldable pub decide_and_refund :
        String → String → Bool → String → World → World × Outcome Return
    decide_and_refund decided_by id approve note w =
        after_decision w (decide_return parse_uuid id decided_by approve note w.returns)
