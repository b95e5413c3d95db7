-- ===== src/Order/Returns/Requests.antt =====
-- `RequestReturn` of services/order/internal/saga/returns.go: which units can be returned, and the
-- refund of each line.
use commerce_platform.Common.{
  ℕ, String, Bool, true, false, not, Option, none, some, List, [], ◌∷◌, ◌&&◌, if◌then◌else◌, str_eq,
  Outcome, ok, err, Error, new_error, ◌>>=◌, ◌>>◌, reject_if, invalid_argument, failed_precondition,
}
use commerce_platform.Common.Int.{
  ℤ, pos, pos_part, ◌+ℤ◌, ◌-ℤ◌, ◌*ℤ◌, ◌/ℤ◌, leb_ℤ, ltb_ℤ, int32, int64,
}
use commerce_platform.Order.{Order, Line, is_fulfilled}
use commerce_platform.Order.Store.{Db, get}
use commerce_platform.Order.Returns.{
  Return, ReturnLine, ReturnsDb, requested, insert_return, returned_qty,
}

-- Quantity 0 asks for all of the units that are left.
pub record ReturnLineReq : Type 0 where
  pub product_id : String
  pub quantity : ℤ

pub record ResolvedLine : Type 0 where
  pub product_id : String
  pub quantity : ℤ
  pub value : ℤ

abbrev pub line_not_in_order : Error
line_not_in_order = new_error invalid_argument "LINE_NOT_IN_ORDER"

abbrev pub qty_exceeds_returnable : Error
qty_exceeds_returnable = new_error failed_precondition "QTY_EXCEEDS_RETURNABLE"

abbrev pub not_returnable : Error
not_returnable = new_error failed_precondition "NOT_RETURNABLE"

abbrev pub nothing_to_return : Error
nothing_to_return = new_error failed_precondition "NOTHING_TO_RETURN"

-- `byProduct`: of two lines of a product the later one stays in the map.
unfoldable pub by_product : String → List Line → Option Line
by_product p [] = none
by_product p (l ∷ ls) = elim (by_product p ls) [
  | some m ↦ some m
  | none ↦ if str_eq l.product_id p then some l else none
]

unfoldable pub whole_lines : List Line → List ReturnLineReq
whole_lines [] = []
whole_lines (l ∷ ls) = record { product_id = l.product_id; quantity = pos 0 } ∷ whole_lines ls

-- The units of one requested line, of which `already` units were returned: none when nothing is left.
unfoldable pub resolve_qty : ℤ → ℤ → ℤ → Outcome (Option ℤ)
resolve_qty ordered already wanted =
    let returnable = int32 (ordered -ℤ already) in
    let qty = if leb_ℤ wanted (pos 0) && leb_ℤ (pos 0) wanted then returnable else wanted in
    if leb_ℤ qty (pos 0)
    then ok none
    else if ltb_ℤ returnable qty
    then err qty_exceeds_returnable
    else ok (some qty)

unfoldable pub resolve_line :
    String → List Line → ReturnsDb → ReturnLineReq → Outcome (Option ResolvedLine)
unfolding resolve_qty by_product
resolve_line order_id lines db req = elim (by_product req.product_id lines) [
  | none ↦ err line_not_in_order
  | some ol ↦ do
    already ← returned_qty order_id req.product_id db
    qty ← resolve_qty ol.quantity already req.quantity
    elim qty [
      | none ↦ ok none
      | some q ↦ ok (
          some (record {
            product_id = req.product_id;
            quantity = q;
            value = int64 (ol.unit_price.cents *ℤ q);
          }))
    ]
]

abbrev pub keep : Option ResolvedLine → List ResolvedLine → List ResolvedLine
keep none ls = ls
keep (some l) ls = l ∷ ls

-- The loop of `resolveReturnLines`.
unfoldable pub resolve_lines :
    String → List Line → ReturnsDb → List ReturnLineReq → Outcome (List ResolvedLine)
unfolding resolve_line
resolve_lines order_id lines db [] = ok []
resolve_lines order_id lines db (req ∷ reqs) =
    let rest = resolve_lines order_id lines db reqs in
    resolve_line order_id lines db req >>= λ l. rest >>= λ ls. ok (keep l ls)

abbrev pub is_nil {ℓ} : {A : Type ℓ} → List A → Bool
is_nil [] = true
is_nil (x ∷ xs) = false

unfoldable pub resolve_return_lines :
    Order → ReturnsDb → List ReturnLineReq → Outcome (List ResolvedLine)
unfolding resolve_lines whole_lines
resolve_return_lines o db reqs =
    resolve_lines o.id o.lines db (if is_nil reqs then whole_lines o.lines else reqs)

-- The loop that allots the refund of a return, of `t` cents in all for `s` cents of goods: the value
-- so far, its refund, and the sum of the refunds.
unfoldable pub allot : ℤ → ℕ → String → ℤ → ℤ → ℤ → List ResolvedLine → List ReturnLine × ℤ
allot t s currency cum_value cum_refund total [] = ([], total)
allot t s currency cum_value cum_refund total (l ∷ ls) =
    let value = int64 (cum_value +ℤ l.value) in
    let new_cum = int64 (t *ℤ value) /ℤ s in
    let refund = int64 (new_cum -ℤ cum_refund) in
    let (rest, sum) = allot t s currency value new_cum (int64 (total +ℤ refund)) ls in
    let line : ReturnLine = record {
      product_id = l.product_id;
      quantity = l.quantity;
      refund_amount = record { currency = currency; cents = refund };
    } in
    (line ∷ rest, sum)

-- The return that is opened, under the id that is drawn.
unfoldable pub return_of : String → Order → String → String → List ResolvedLine → Return
unfolding allot
return_of id o owner_id reason ls =
    let cur = o.total.currency in
    let (lines, sum) =
      allot o.total.cents (pos_part o.subtotal.cents) cur (pos 0) (pos 0) (pos 0) ls in
    record {
      id = id;
      order_id = o.id;
      owner_id = owner_id;
      status = requested;
      reason = reason;
      lines = lines;
      refund_total = record { currency = cur; cents = sum };
      decided_by = "";
      decision_note = "";
    }

-- Every test of `RequestReturn`, and the return that it would insert.
unfoldable pub prepare_return :
    (String → Bool)
    → String
    → String
    → String
    → String
    → List ReturnLineReq
    → Db
    → ReturnsDb
    → Outcome Return
unfolding return_of resolve_return_lines
prepare_return parse_uuid id owner_id order_id reason reqs orders db = do
  o ← get parse_uuid order_id owner_id orders
  reject_if (not (is_fulfilled o.status)) not_returnable
  reject_if (leb_ℤ o.subtotal.cents (pos 0)) not_returnable
  ls ← resolve_return_lines o db reqs
  reject_if (is_nil ls) nothing_to_return
  ok (return_of id o owner_id reason ls)

-- `RequestReturn`.
unfoldable pub request_return :
    (String → Bool)
    → String
    → String
    → String
    → String
    → List ReturnLineReq
    → Db
    → ReturnsDb
    → ReturnsDb × Outcome Return
unfolding prepare_return
request_return parse_uuid id owner_id order_id reason reqs orders db =
    elim (prepare_return parse_uuid id owner_id order_id reason reqs orders db) [
      | err e ↦ (db, err e)
      | ok r ↦
          let (db', inserted) = insert_return r db in
          elim inserted [ err e ↦ (db', err e) | ok _ ↦ (db', ok r) ]
    ]
