-- ===== src/Errs/Tests.antt =====
-- Runs of the mapping of errors at concrete errors.
use commerce_platform.Common.{String, Option, none, some, ◌≡◌, refl, permission_denied, new_error}
use commerce_platform.Errs.{
  Code, Status, AnyError, domain, wrapped, of_status, plain, as_domain, to_status, from_grpc,
  Answers, from_grpc-to_status, grpc_code, http_for_code,
}

-- A `status.FromError` that reads only a bare status.
abbrev from_error : AnyError → Option Status
from_error (of_status s) = some s
from_error _ = none

abbrev code_name : Code → String
code_name Code.permission_denied = "PermissionDenied"
code_name _ = "Internal"

abbrev denied : AnyError
denied = wrapped "layer" (domain (new_error permission_denied "NOPE"))

from_grpc-to_status_example :
    Answers code_name
      (as_domain denied)
      (from_error denied)
      (from_grpc from_error code_name (of_status (to_status from_error (some denied))))
from_grpc-to_status_example = from_grpc-to_status from_error code_name (λ s. refl) denied

from_grpc_example :
    from_grpc from_error code_name (of_status (to_status from_error (some denied)))
    ≡ record { status = 403; code = "PermissionDenied"; reason = "NOPE" }
unfolding from_grpc to_status as_domain grpc_code http_for_code
from_grpc_example = refl

from_grpc_plain :
    from_grpc from_error code_name (of_status (to_status from_error (some (plain "secret"))))
    ≡ record { status = 500; code = "Internal"; reason = "INTERNAL" }
unfolding from_grpc to_status as_domain grpc_code http_for_code
from_grpc_plain = refl
