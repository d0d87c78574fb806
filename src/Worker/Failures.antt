-- ===== src/Worker/Failures.antt =====
-- The class of a failure and its retry policy: _classify_failure and _retry_policy of
-- backend/services/tenant_sync_worker.py, and the backoff that _process_job computes.
use integrado_web_xd.Prelude.{
  ℕ, ◌*◌, ◌-◌, ◌^◌, min, String, List, [], ◌∷◌, ◌&&◌, ◌||◌, not, leb, ltb, nat_eq, if◌then◌else◌,
}
use integrado_web_xd.Prelude.Text.{mentions}

-- The class of an exception, as the tests of `_classify_failure` tell them apart.
pub data FailureKind : Type 0 where
  http_status : ℕ → FailureKind
  transport : FailureKind
  other : FailureKind

pub record Failure : Type 0 where
  pub kind : FailureKind
  pub message : String

pub data FailureType : Type 0 where
  auth permanent transient : FailureType

abbrev auth_tokens : List String
auth_tokens = "unauthorized" ∷ "forbidden" ∷ "token invalido" ∷ "api key" ∷ []

abbrev permanent_tokens : List String
permanent_tokens =
    "nao informado" ∷ "inexistente" ∷ "nao suportado" ∷ "invalid" ∷ "malformed" ∷ "schema" ∷ []

abbrev transient_tokens : List String
transient_tokens =
    "timeout" ∷ "timed out" ∷ "connection" ∷ "temporar" ∷ "unavailable" ∷ "too many requests"
    ∷ "429" ∷ []

unfoldable pub classify_http : ℕ → FailureType
classify_http code =
    if nat_eq code 401 || nat_eq code 403
    then auth
    else if leb 400 code && ltb code 500 && not (nat_eq code 408 || nat_eq code 429)
    then permanent
    else transient

unfoldable pub classify_message : String → FailureType
classify_message message =
    if mentions message auth_tokens
    then auth
    else if mentions message permanent_tokens
    then permanent
    else if mentions message transient_tokens
    then transient
    else transient

unfoldable pub classify_failure : Failure → FailureType
unfolding classify_http classify_message
classify_failure f = elim f.kind [
  | http_status code ↦ classify_http code
  | transport ↦ transient
  | other ↦ classify_message f.message
]

pub record RetryPolicy : Type 0 where
  pub failure_type : FailureType
  pub max_attempts : ℕ
  pub base_backoff_minutes : ℕ
  pub max_backoff_minutes : ℕ

abbrev pub policy_of : FailureType → RetryPolicy
policy_of permanent = record {
  failure_type = permanent;
  max_attempts = 3;
  base_backoff_minutes = 1;
  max_backoff_minutes = 5;
}
policy_of auth = record {
  failure_type = auth;
  max_attempts = 2;
  base_backoff_minutes = 1;
  max_backoff_minutes = 5;
}
policy_of transient = record {
  failure_type = transient;
  max_attempts = 5;
  base_backoff_minutes = 2;
  max_backoff_minutes = 30;
}

unfoldable pub retry_policy : Failure → RetryPolicy
retry_policy f = policy_of (classify_failure f)

-- `min(base * (2 ** max(0, attempts - 1)), cap)`; `-` stops at 0 as `max` does here.
unfoldable pub backoff_minutes : RetryPolicy → ℕ → ℕ
backoff_minutes p attempts = min (p.base_backoff_minutes * 2 ^ (attempts - 1)) p.max_backoff_minutes

abbrev pub type_name : FailureType → String
type_name auth = "auth"
type_name permanent = "permanent"
type_name transient = "transient"
