-- ===== src/Order/Lines.antt =====
-- The lines of an order (services/order/internal/store/store.go: insertOrderTx and attachLines), as
-- they are written and read back.
use mathlib.Core.List.{append_assoc}
use commerce_platform.Common.{
  ◌≡◌, refl, sym, ◌∙◌, String, false, List, [], ◌∷◌, ◌++◌, arith, str_eq, ok, Bool-cases, inl, inr,
  >>=-eq-ok, reject_if, ◌≢◌, eq_refl, append_nil,
}
use commerce_platform.Order.{Line}
use commerce_platform.Order.Store.{Db, insert_lines, has_line, db_error, attached, insert_line}

attached-other :
    (cur id i : String) (l : Line) (ls : List (String × Line))
    → str_eq i id ≡ false
    → attached cur id (ls ++ (i, l) ∷ []) ≡ attached cur id ls
unfolding attached
attached-other cur id i l [] other = ground (arith, other)
attached-other cur id i l ((j, m) ∷ ls) other = rw (attached-other cur id i l ls other) refl

-- The lines of an order as they are read: by product, and in the currency of its total.
unfoldable pub in_order : String → List Line → List Line
in_order cur [] = []
in_order cur (l ∷ ls) =
    let l' : Line = record l {
      unit_price = record { currency = cur; cents = l.unit_price.cents };
      line_total = record { currency = cur; cents = l.line_total.cents };
    } in
    insert_line l' (in_order cur ls)

abbrev pub tagged : String → List Line → List (String × Line)
tagged id [] = []
tagged id (l ∷ ls) = (id, l) ∷ tagged id ls

pub attached-tagged :
    (cur id : String) (ls : List Line) → attached cur id (tagged id ls) ≡ in_order cur ls
unfolding attached in_order
attached-tagged cur id [] = refl
attached-tagged cur id (l ∷ ls) = rw (eq_refl id, attached-tagged cur id ls) refl

insert_line_some : (l : Line) (ls : List Line) → insert_line l ls ≢ []
unfolding insert_line
insert_line_some l [] h = ground (arith, h)
insert_line_some l (m ∷ ms) h = ground (arith, h)

pub attached-append :
    (cur id : String) (xs ys : List (String × Line))
    → attached cur id xs ≡ []
    → attached cur id (xs ++ ys) ≡ attached cur id ys
unfolding attached
attached-append cur id [] ys none_there = refl
attached-append cur id ((i, l) ∷ xs) ys none_there = elim (Bool-cases (str_eq i id)) [
  | inl same ↦
      let l' : Line = record l {
        unit_price = record { currency = cur; cents = l.unit_price.cents };
        line_total = record { currency = cur; cents = l.line_total.cents };
      } in
      absurd (insert_line_some l' (attached cur id xs) (rw same at none_there))
  | inr other ↦ rw other (attached-append cur id xs ys (rw other at none_there))
]

pub insert_lines_rows :
    (id : String) (ls : List Line) (db d : Db)
    → insert_lines id ls db ≡ ok d
    → d.order_lines ≡ db.order_lines ++ tagged id ls
unfolding insert_lines
insert_lines_rows id [] db d h =
    let same : db ≡ d = ground (arith, h) in rw (← same) (sym (append_nil db.order_lines))
insert_lines_rows id (l ∷ ls) db d h =
    let more : Db = record db { order_lines = db.order_lines ++ (id, l) ∷ [] } in
    let (_, _, h1) =
      >>=-eq-ok (reject_if (has_line id l.product_id db.order_lines) db_error)
        (λ _. insert_lines id ls more) h in
    insert_lines_rows id ls more d h1 ∙ append_assoc db.order_lines ((id, l) ∷ []) (tagged id ls)

pub insert_lines-attached :
    (cur id i : String) (ls : List Line) (db d : Db)
    → str_eq i id ≡ false
    → insert_lines i ls db ≡ ok d
    → attached cur id d.order_lines ≡ attached cur id db.order_lines
unfolding insert_lines
insert_lines-attached cur id i [] db d other h =
    let same : db ≡ d = ground (arith, h) in rw (← same) refl
insert_lines-attached cur id i (l ∷ ls) db d other h =
    let (_, _, h1) =
      >>=-eq-ok (reject_if (has_line i l.product_id db.order_lines) db_error)
        (λ _. insert_lines i ls (record db { order_lines = db.order_lines ++ (i, l) ∷ [] })) h in
    insert_lines-attached cur id i ls (record db { order_lines = db.order_lines ++ (i, l) ∷ [] }) d
      other h1
    ∙ attached-other cur id i l db.order_lines other
