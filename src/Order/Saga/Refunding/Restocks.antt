-- ===== src/Order/Saga/Refunding/Restocks.antt =====
-- The units of an approved return go back once (services/order/internal/saga/returns.go).
use Prim.Native.String.{◌++◌ as append_text}
use commerce_platform.Common.{
  ◌≡◌, refl, ◌∙◌, String, Bool, true, false, not, ◌&&◌, ◌||◌, List, [], ◌∷◌, arith, if◌then◌else◌,
  str_eq, eq_iff, eq_refl, All, All-map, ok, Bool-cases, inl, inr,
}
use commerce_platform.Common.Int.{ℤ, pos}
use commerce_platform.Order.Returns.{
  ReturnLineRow, ReturnsDb, insert_row, rows_of, pending_rows, unrestocked_lines, mark_rows,
  mark_restocked,
}
use commerce_platform.Order.Saga.{Services, World, Rpc}
use commerce_platform.Order.Saga.Refunding.{restock_call, after_adjust, restock_line, restock_lines}

-- The rows after the lines `ls` were marked, and the calls that restock them, the last one first.
unfoldable pub mark_all : String → List ReturnLineRow → List ReturnLineRow → List ReturnLineRow
mark_all id [] rows = rows
mark_all id (l ∷ ls) rows = mark_all id ls (mark_rows id l.product_id rows)

unfoldable pub restock_calls : String → List ReturnLineRow → List Rpc → List Rpc
restock_calls id [] cs = cs
restock_calls id (l ∷ ls) cs = restock_calls id ls (restock_call id l true ∷ cs)

abbrev has_product : String → List ReturnLineRow → Bool
has_product p [] = false
has_product p (l ∷ ls) = str_eq l.product_id p || has_product p ls

-- A row of the return is restocked, or one of the lines.
abbrev covered : String → List ReturnLineRow → ReturnLineRow → Bool
covered id ls l = not (str_eq l.return_id id) || l.restocked || has_product l.product_id ls

pending-insert_row :
    (p : String) (l : ReturnLineRow) (ms : List ReturnLineRow)
    → has_product p (pending_rows (insert_row l ms))
      ≡ (if not l.restocked && str_eq l.product_id p then true else has_product p (pending_rows ms))
unfolding pending_rows insert_row
pending-insert_row p l [] = ground arith
pending-insert_row p l (m ∷ ms) = ground (arith, pending-insert_row p l ms)

-- The lines of the query cover every row.
unrestocked-covered :
    (id : String) (rows : List ReturnLineRow)
    → All (λ l. covered id (pending_rows (rows_of id rows)) l ≡ true) rows
unfolding rows_of
unrestocked-covered id [] = tt
unrestocked-covered id (l ∷ ls) = (
  ground (arith, eq_refl l.product_id, pending-insert_row l.product_id l (rows_of id ls)),
  All-map _ _ ls (λ m h. ground (arith, h, pending-insert_row m.product_id l (rows_of id ls)))
      (unrestocked-covered id ls),
)

mark_rows-covered :
    (id : String) (k : ReturnLineRow) (ks rows : List ReturnLineRow)
    → All (λ l. covered id (k ∷ ks) l ≡ true) rows
    → All (λ l. covered id ks l ≡ true) (mark_rows id k.product_id rows)
unfolding mark_rows
mark_rows-covered id k ks [] h = tt
mark_rows-covered id k ks (l ∷ ls) (h, hs) = (
  ground (arith, h, eq_iff l.product_id k.product_id, eq_iff k.product_id l.product_id),
  mark_rows-covered id k ks ls hs,
)

mark_all-covered :
    (id : String) (ks rows : List ReturnLineRow)
    → All (λ l. covered id ks l ≡ true) rows
    → All (λ l. covered id [] l ≡ true) (mark_all id ks rows)
unfolding mark_all
mark_all-covered id [] rows h = h
mark_all-covered id (k ∷ ks) rows h =
    mark_all-covered id ks (mark_rows id k.product_id rows) (mark_rows-covered id k ks rows h)

pending-insert_restocked :
    (l : ReturnLineRow) (ms : List ReturnLineRow)
    → l.restocked ≡ true
    → pending_rows (insert_row l ms) ≡ pending_rows ms
unfolding pending_rows insert_row
pending-insert_restocked l [] h = ground (arith, h)
pending-insert_restocked l (m ∷ ms) h = ground (arith, h, pending-insert_restocked l ms h)

nothing_pending :
    (id : String) (rows : List ReturnLineRow)
    → All (λ l. covered id [] l ≡ true) rows
    → pending_rows (rows_of id rows) ≡ []
unfolding rows_of pending_rows
nothing_pending id [] h = refl
nothing_pending id (l ∷ ls) (h, hs) = elim (Bool-cases (str_eq l.return_id id)) [
  | inr e ↦ rw e (nothing_pending id ls hs)
  | inl e ↦
      rw e (
        pending-insert_restocked l (rows_of id ls) (ground (arith, h, e))
        ∙ nothing_pending id ls hs)
]

-- Nothing is left to restock once the lines of the query were marked.
pub none_unrestocked :
    (id : String) (db : ReturnsDb)
    → unrestocked_lines id
        (record db { return_lines = mark_all id (unrestocked_lines id db) db.return_lines })
      ≡ []
unfolding unrestocked_lines
none_unrestocked id db =
    nothing_pending id (mark_all id (pending_rows (rows_of id db.return_lines)) db.return_lines) (
      mark_all-covered id (pending_rows (rows_of id db.return_lines)) db.return_lines
        (unrestocked-covered id db.return_lines))

module _ (services : Services) where
  restock_line_done :
      (id : String) (l : ReturnLineRow) (w : World)
      → ((cs : List Rpc) (p : String) (n : ℤ) (r : String) → services.adjust_stock cs p n r ≡ ok tt)
      → restock_line services id l w ≡ (
        record w {
          returns = mark_restocked id l.product_id w.returns;
          calls = restock_call id l true ∷ w.calls;
        },
        ok tt,
      )
  unfolding restock_line after_adjust
  restock_line_done id l w answers =
      rw (answers w.calls l.product_id (pos l.quantity) (append_text "RETURN:" id)) refl

  pub restock_lines_done :
      (id : String) (ls : List ReturnLineRow) (w : World)
      → ((cs : List Rpc) (p : String) (n : ℤ) (r : String) → services.adjust_stock cs p n r ≡ ok tt)
      → restock_lines services id ls w ≡ (
        record w {
          returns = record w.returns { return_lines = mark_all id ls w.returns.return_lines };
          calls = restock_calls id ls w.calls;
        },
        ok tt,
      )
  unfolding restock_lines mark_all restock_calls mark_restocked
  restock_lines_done id [] w answers = refl
  restock_lines_done id (l ∷ ls) w answers = rw (restock_line_done id l w answers) (
      restock_lines_done id ls
        (record w {
          returns = mark_restocked id l.product_id w.returns;
          calls = restock_call id l true ∷ w.calls;
        })
        answers)
