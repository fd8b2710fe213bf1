-- ===== src/Broker/Warrant.antt =====
-- `patch_bytes` and `validate_warrant_integrity` of backend/src/crosspatch/broker/warrant.py.
use Prim.Native.String.{◌++◌ as append}
use cross_patch.Prelude.{
  String, not, none, some, List, [], ◌∷◌, Result, ok, err, str_eq, ◌==◌, raise_if, ◌>>=◌, ◌>>◌,
  if◌then◌else◌,
}
use cross_patch.Broker.Documents.{BoundExecutionPlan, as_execution_plan, WarrantDocument}
use cross_patch.Broker.Primitives.{Primitives, Exn, value_error}

abbrev pub warrant_format : String
warrant_format = "crosspatch-warrant-v1"

module _ (P : Primitives) where
  open P use {
    Bytes, byte_length, sha256, b64decode, b64encode, plan_json, bound_plans_json, warrant_json,
  }

  unfoldable pub patch_bytes : WarrantDocument → Result Exn Bytes
  patch_bytes d = elim (b64decode d.patch_b64) [
    | none ↦ err (value_error "patch bytes are not strict base64")
    | some decoded ↦
        if str_eq (b64encode decoded) d.patch_b64
        then ok decoded
        else err (value_error "patch bytes are not canonically encoded")
  ]

  -- ExecutionPlan.sha256, and `validate_binding`
  unfoldable pub validate_binding : BoundExecutionPlan → Result Exn (Unit {0})
  unfolding as_execution_plan
  validate_binding b =
      raise_if (not (str_eq (sha256 (plan_json (as_execution_plan b))) b.plan_sha256))
        (value_error (append "execution plan binding changed: " b.plan_id))

  unfoldable pub validate_bindings : List BoundExecutionPlan → Result Exn (Unit {0})
  unfolding validate_binding
  validate_bindings [] = ok tt
  validate_bindings (b ∷ bs) = let rest = validate_bindings bs in (validate_binding b >>= λ _. rest)

  unfoldable pub canonical_warrant_hash : WarrantDocument → String
  canonical_warrant_hash d = sha256 (warrant_json d)

  unfoldable pub validate_warrant_integrity : WarrantDocument → Result Exn (Unit {0})
  unfolding patch_bytes
  validate_warrant_integrity d = do
    patch ← patch_bytes d
    raise_if (byte_length patch == 0) (value_error "patch bytes must not be empty")
    raise_if (not (str_eq (sha256 patch) d.patch_sha256))
        (value_error "patch bytes do not match patch_sha256")
    validate_bindings d.execution_plans
    raise_if (not (str_eq (sha256 (bound_plans_json d.execution_plans)) d.test_plan_sha256))
        (value_error "test plan does not match test_plan_sha256")
