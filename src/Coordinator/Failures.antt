-- ===== src/Coordinator/Failures.antt =====
-- backend/src/crosspatch/orchestration/failures.py, and the exceptions that the coordinator meets.
use cross_patch.Prelude.{String}
use cross_patch.Domain.Enums.{Seat, Effort}
use cross_patch.Escalation
use cross_patch.Coordinator.Outputs.{SeatOutput}

-- The subclasses of OrchestrationFailure, and the class itself.
pub data OrchestrationFailure : Type 0 where
  orchestration_failure model_refusal output_cutoff truncated_response : OrchestrationFailure
  incomplete_response network_failure invalid_schema : OrchestrationFailure
  missing_evidence_reference sdk_exception guardrail_stop : OrchestrationFailure
  unknown_verdict : (verdict : String) → OrchestrationFailure
  escalation_failure : OrchestrationFailure
  -- _RetryFailureAlreadyPersisted, a subclass of EscalationFailure
  retry_failure_already_persisted : OrchestrationFailure

-- Exceptions by what `failure_reason` and the handlers tell apart. `cancelled` is a BaseException
-- that is no Exception.
pub data Exn : Type 0 where
  failure : OrchestrationFailure → Exn
  timeout connection_error refusal_error guardrail_error behavior_error : Exn
  tracker_error : Escalation.Error → Exn
  -- _DuplicateRetryAttempt
  duplicate_attempt : Seat → Effort → (phase : String) → SeatOutput → Exn
  permission_error lookup_error : Exn
  other : String → Exn
  cancelled : Exn

unfoldable pub reason_of : OrchestrationFailure → String
reason_of orchestration_failure = "sdk_exception"
reason_of model_refusal = "refusal"
reason_of output_cutoff = "cutoff"
reason_of truncated_response = "truncated"
reason_of incomplete_response = "incomplete_response"
reason_of network_failure = "network_failure"
reason_of invalid_schema = "invalid_schema"
reason_of missing_evidence_reference = "missing_evidence_references"
reason_of sdk_exception = "sdk_exception"
reason_of guardrail_stop = "guardrail_stop"
reason_of (unknown_verdict _) = "unknown_verdict"
reason_of escalation_failure = "escalation_exhausted"
reason_of retry_failure_already_persisted = "escalation_exhausted"

unfoldable pub failure_reason : Exn → String
unfolding reason_of
failure_reason (failure f) = reason_of f
failure_reason timeout = "timeout"
failure_reason connection_error = "network_failure"
failure_reason refusal_error = "refusal"
failure_reason guardrail_error = "guardrail_stop"
failure_reason behavior_error = "invalid_schema"
failure_reason _ = "sdk_exception"
