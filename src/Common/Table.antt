-- ===== src/Common/Table.antt =====
-- A database table with a text key, as an association list: one row to a key.
use Prim.Native.String.{String}
use mathlib.Core.Path.{◌≡◌, refl}
use mathlib.Core.Bool.{Bool, true, false}
use mathlib.Core.Option.{Option, none, some}
use mathlib.Core.List.{List, [], ◌∷◌}
use text.Mathlib.Text.{◌==◌ as str_eq}
use text.Mathlib.TextEquality.{eq_iff}
use text.Mathlib.TextPositions.{eq_refl}
use native.Mathlib.Omega.{arith}
use commerce_platform.Common.Tests.{if◌then◌else◌}

abbrev pub Table {ℓ} : Type ℓ → Type ℓ
Table V = List (String × V)

module _ {ℓ} {V : Type ℓ} where
  -- `SELECT … WHERE key = k`.
  unfoldable pub lookup : String → Table V → Option V
  lookup key [] = none
  lookup key ((other, row) ∷ rows) = if str_eq other key then some row else lookup key rows

  -- `INSERT … ON CONFLICT (key) DO UPDATE`, and `UPDATE … WHERE key = k` on a row that is there.
  unfoldable pub insert : String → V → Table V → Table V
  insert key new [] = (key, new) ∷ []
  insert key new ((other, row) ∷ rows) =
      if str_eq other key then (key, new) ∷ rows else (other, row) ∷ insert key new rows

  pub lookup-insert :
      (k j : String) (v : V) (m : Table V)
      → lookup j (insert k v m) ≡ (if str_eq k j then some v else lookup j m)
  unfolding lookup insert
  lookup-insert k j v ((i, w) ∷ m) =
      ground (arith, lookup-insert k j v m, eq_iff i j, eq_iff i k, eq_iff k j)
  lookup-insert k j v [] = refl

  pub lookup-insert_self : (k : String) (v : V) (m : Table V) → lookup k (insert k v m) ≡ some v
  lookup-insert_self k v m = simp (lookup-insert, eq_refl)

  -- Is there a row with that key?
  abbrev pub has_row : String → Table V → Bool
  has_row k m = elim (lookup k m) [ none ↦ false | some _ ↦ true ]

  pub has_row-insert :
      (k j : String) (v : V) (m : Table V) → has_row j m ≡ true → has_row j (insert k v m) ≡ true
  has_row-insert k j v m h = ground (arith, lookup-insert k j v m)

  -- `DELETE … WHERE key = k`.
  unfoldable pub erase : String → Table V → Table V
  erase k [] = []
  erase k ((j, v) ∷ m) = let rest = erase k m in if str_eq j k then rest else (j, v) ∷ rest

  pub lookup-erase :
      (k j : String) (m : Table V)
      → lookup j (erase k m) ≡ (if str_eq k j then none else lookup j m)
  unfolding lookup erase
  lookup-erase k j [] = ground arith
  lookup-erase k j ((i, w) ∷ m) =
      ground (arith, eq_iff k j, eq_iff i k, eq_iff i j, lookup-erase k j m)
