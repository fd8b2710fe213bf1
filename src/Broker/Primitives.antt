-- ===== src/Broker/Primitives.antt =====
-- What the broker takes from hashlib, hmac, base64 and json, and the exceptions that pass through
-- it. Equality of bytes under `hmac.compare_digest` is that of the texts compared.
use cross_patch.Prelude.{
  ℕ, ◌≡◌, ◌↔◌, String, Bool, true, ◌&&◌, Option, List, Result, ok, err, ltb, str_eq, all, codes,
  if◌then◌else◌,
}
use cross_patch.Runner.Catalog.{ExecutionPlan}
use cross_patch.Broker.Documents.{BoundExecutionPlan, WarrantDocument}

abbrev pub is_ascii : String → Bool
is_ascii s = all (λ c. ltb c 128) (codes s)

pub record Primitives : Type 1 where
  pub Bytes : Type 0
  pub byte_length : Bytes → ℕ
  pub same_bytes : Bytes → Bytes → Bool
  pub same_bytes_iff : (a b : Bytes) → (same_bytes a b ≡ true) ↔ (a ≡ b)
  -- hashlib.sha256(data).hexdigest()
  pub sha256 : Bytes → String
  pub sha256_ascii : (message : Bytes) → is_ascii (sha256 message) ≡ true
  -- hmac.new(key, data, sha256).hexdigest()
  pub hmac_sha256 : Bytes → Bytes → String
  pub hmac_sha256_ascii : (key message : Bytes) → is_ascii (hmac_sha256 key message) ≡ true
  -- str.encode("utf-8")
  pub encode : String → Bytes
  -- base64.b64decode(text, validate=True), `none` for its ValueError, and b64encode
  pub b64decode : String → Option Bytes
  pub b64encode : Bytes → String
  -- isoformat(timespec="microseconds")
  pub isoformat : ℕ → String
  -- _APPROVAL_DOMAIN + metadata + canonical_warrant_bytes(document)
  pub mac_input : String → Bytes → Bytes
  -- the JSON texts of the canonical forms
  pub plan_json : ExecutionPlan → Bytes
  pub bound_plan_json : BoundExecutionPlan → Bytes
  pub bound_plans_json : List BoundExecutionPlan → Bytes
  pub warrant_json : WarrantDocument → Bytes
  pub paths_json : List String → Bytes

-- ValueError and its subclasses by what handlers tell apart; `other` is any other Exception, and
-- `cancelled` one of KeyboardInterrupt, SystemExit and CancelledError.
pub data Exn : Type 0 where
  policy_rejected : String → Exn
  tamper_rejected : String → Exn
  value_error : String → Exn
  key_error type_error lookup_error runtime_error : Exn
  other : String → Exn
  cancelled : Exn

-- `hmac.compare_digest` of two texts: only ASCII is accepted.
unfoldable pub compare_digest : String → String → Result Exn Bool
compare_digest a b = if is_ascii a && is_ascii b then ok (str_eq a b) else err type_error
