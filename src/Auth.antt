-- ===== src/Auth.antt =====
-- Who calls, and with which roles: pkg/auth/auth.go, and RequireRole of pkg/grpcx/interceptors.go.
use commerce_platform.Common.{
  String, Bool, false, ◌||◌, Option, none, some, List, [], ◌∷◌, if◌then◌else◌, str_eq, Outcome, ok,
  err, new_error, unauthenticated, permission_denied,
}

-- The name and the e-mail address of a principal are left out.
pub record Principal : Type 0 where
  pub subject : String
  pub roles : List String

abbrev pub contains_role : String → List String → Bool
contains_role r [] = false
contains_role r (have ∷ rs) = str_eq have r || contains_role r rs

unfoldable pub has_role : String → Principal → Bool
has_role r p = contains_role r p.roles

unfoldable pub require_role : String → Option Principal → Outcome (Unit {0})
unfolding has_role
require_role r none = err (new_error unauthenticated "NOT_AUTHENTICATED")
require_role r (some p) =
    if has_role r p then ok tt else err (new_error permission_denied "MISSING_ROLE")

-- A handler that goes on only when a test was passed, and otherwise leaves the tables alone.
abbrev pub allowed {ℓ κ} :
    {Db : Type κ} → {A : Type ℓ} → Outcome (Unit {0}) → Db → Db × Outcome A → Db × Outcome A
allowed (ok u) db res = res
allowed (err e) db res = (db, err e)
