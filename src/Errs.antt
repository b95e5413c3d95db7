-- ===== src/Errs.antt =====
-- The error taxonomy (pkg/errs/errs.go, pkg/errs/http.go): kinds, gRPC codes and HTTP statuses.
-- `status.FromError` and `Code.String` of google.golang.org/grpc are parameters.
mod Tests
use commerce_platform.Common.{
  String, ℕ, Bool, true, false, Option, none, some, ◌≡◌, refl, if◌then◌else◌, arith, Error, Kind,
}

-- The codes of google.golang.org/grpc/codes, in its order.
pub data Code : Type 0 where
  ok canceled unknown invalid_argument deadline_exceeded not_found already_exists : Code
  permission_denied resource_exhausted failed_precondition aborted out_of_range : Code
  unimplemented internal unavailable data_loss unauthenticated : Code

pub record Status : Type 0 where
  pub code : Code
  pub message : String

-- A Go error: an error of the taxonomy, one that wraps another by `%w`, a gRPC status, any other.
pub data AnyError : Type 0 where
  domain : Error → AnyError
  wrapped : String → AnyError → AnyError
  of_status : Status → AnyError
  plain : String → AnyError

-- `errors.As(err, &de)`: the first error of the taxonomy down the chain.
unfoldable pub as_domain : AnyError → Option Error
as_domain (domain e) = some e
as_domain (wrapped m e) = as_domain e
as_domain (of_status s) = none
as_domain (plain m) = none

unfoldable pub grpc_code : Kind → Code
grpc_code Kind.invalid_argument = Code.invalid_argument
grpc_code Kind.not_found = Code.not_found
grpc_code Kind.already_exists = Code.already_exists
grpc_code Kind.permission_denied = Code.permission_denied
grpc_code Kind.unauthenticated = Code.unauthenticated
grpc_code Kind.failed_precondition = Code.failed_precondition
grpc_code Kind.conflict = Code.aborted
grpc_code Kind.resource_exhausted = Code.resource_exhausted
grpc_code Kind.unavailable = Code.unavailable
grpc_code Kind.deadline_exceeded = Code.deadline_exceeded
grpc_code _ = Code.internal

unfoldable pub http_status : Kind → ℕ
http_status Kind.invalid_argument = 400
http_status Kind.unauthenticated = 401
http_status Kind.permission_denied = 403
http_status Kind.not_found = 404
http_status Kind.already_exists = 409
http_status Kind.conflict = 409
http_status Kind.failed_precondition = 412
http_status Kind.resource_exhausted = 429
http_status Kind.unavailable = 503
http_status Kind.deadline_exceeded = 504
http_status _ = 500

unfoldable pub http_for_code : Code → ℕ
http_for_code Code.ok = 200
http_for_code Code.invalid_argument = 400
http_for_code Code.out_of_range = 400
http_for_code Code.unauthenticated = 401
http_for_code Code.permission_denied = 403
http_for_code Code.not_found = 404
http_for_code Code.already_exists = 409
http_for_code Code.aborted = 409
http_for_code Code.failed_precondition = 412
http_for_code Code.resource_exhausted = 429
http_for_code Code.unavailable = 503
http_for_code Code.deadline_exceeded = 504
http_for_code Code.unimplemented = 501
http_for_code _ = 500

pub record HttpError : Type 0 where
  pub status : ℕ
  pub code : String
  pub reason : String

-- The codes whose message is not passed on.
abbrev pub hides_reason : Code → Bool
hides_reason Code.internal = true
hides_reason Code.unknown = true
hides_reason Code.data_loss = true
hides_reason _ = false

-- `ToStatus`: the status of an error, none for `nil`.
unfoldable pub to_status : (AnyError → Option Status) → Option AnyError → Status
unfolding as_domain grpc_code
to_status from_error none = record { code = Code.ok; message = "" }
to_status from_error (some e) = elim (as_domain e) [
  | some d ↦ record { code = grpc_code d.kind; message = d.reason }
  | none ↦ elim (from_error e) [
    | some st ↦ st
    | none ↦ record { code = Code.internal; message = "INTERNAL" }
  ]
]

-- `FromGRPC`.
unfoldable pub from_grpc : (AnyError → Option Status) → (Code → String) → AnyError → HttpError
unfolding http_for_code
from_grpc from_error code_name e = elim (from_error e) [
  | none ↦ record { status = 500; code = "INTERNAL"; reason = "INTERNAL" }
  | some st ↦ record {
    status = http_for_code st.code;
    code = code_name st.code;
    reason = if hides_reason st.code then "INTERNAL" else st.message;
  }
]

http_for_code-grpc_code :
    (k : Kind)
    → (http_for_code (grpc_code k) ≡ http_status k)
      × (hides_reason (grpc_code k) ≡ (elim k [ Kind.internal ↦ true | _ ↦ false ]))
unfolding http_for_code grpc_code http_status
http_for_code-grpc_code k = ground arith

-- What the caller of the BFF gets for an error of a service.
abbrev pub Answers : (Code → String) → Option Error → Option Status → HttpError → Type 0
Answers code_name (some d) s h =
    (h.status ≡ http_status d.kind)
    × (h.code ≡ code_name (grpc_code d.kind))
    × (h.reason ≡ (elim d.kind [ Kind.internal ↦ "INTERNAL" | _ ↦ d.reason ]))
Answers code_name none (some s) h =
    (h.status ≡ http_for_code s.code)
    × (h.code ≡ code_name s.code)
    × (h.reason ≡ (if hides_reason s.code then "INTERNAL" else s.message))
Answers code_name none none h =
    (h.status ≡ 500) × (h.code ≡ code_name Code.internal) × (h.reason ≡ "INTERNAL")

abbrev carried : Error → Status
carried d = record { code = grpc_code d.kind; message = d.reason }

Answers-by_case :
    (from_error : AnyError → Option Status) (code_name : Code → String)
    → ((s : Status) → from_error (of_status s) ≡ some s)
    → (e : AnyError) (d : Option Error) (s : Option Status) → as_domain e ≡ d
    → from_error e ≡ s
    → Answers code_name d s
        (from_grpc from_error code_name (of_status (to_status from_error (some e))))
unfolding from_grpc to_status http_status
Answers-by_case from_error code_name reads e (some d) s hd hs =
    ground (arith, hd, reads (carried d), http_for_code-grpc_code d.kind)
Answers-by_case from_error code_name reads e none (some s) hd hs = ground (arith, hd, hs, reads s)
Answers-by_case from_error code_name reads e none none hd hs =
    ground (arith, hd, hs, reads (record { code = Code.internal; message = "INTERNAL" }))

-- When `status.FromError` reads back the status an error carries, an error that goes through
-- `ToStatus` at the service and `FromGRPC` at the BFF is answered as the taxonomy says: the first
-- domain error of its chain by the HTTP status and the gRPC code of its kind and its own reason
-- (INTERNAL for the internal kind); without one, a gRPC status by its own code; and any other error
-- by 500 and INTERNAL, whatever its text.
pub from_grpc-to_status :
    (from_error : AnyError → Option Status) (code_name : Code → String)
    → ((s : Status) → from_error (of_status s) ≡ some s)
    → (e : AnyError)
    → Answers code_name
        (as_domain e)
        (from_error e)
        (from_grpc from_error code_name (of_status (to_status from_error (some e))))
from_grpc-to_status from_error code_name reads e =
    Answers-by_case from_error code_name reads e (as_domain e) (from_error e) refl refl
