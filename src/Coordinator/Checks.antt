-- ===== src/Coordinator/Checks.antt =====
-- What a seat is asked, and how its answer is checked: `_validate` and `_request` of the
-- Coordinator in backend/src/crosspatch/orchestration/coordinator.py.
use cross_patch.Prelude.{
  String, Bool, true, false, not, Option, none, some, List, [], ◌∷◌, map, ok, err, if◌then◌else◌,
}
use cross_patch.Domain.Enums.{Seat, Verdict, seat_eq, verdict_of}
use cross_patch.Domain.Event.{is_remand_target}
use cross_patch.Coordinator.Failures.{
  failure, other, OrchestrationFailure, invalid_schema, missing_evidence_reference, unknown_verdict,
}
use cross_patch.Coordinator.Outputs.{
  SeatOutput, magistrate_output, seat_of_output, evidence_ids, IncidentInput, AgentRunInput,
  UntrustedAgentSummary, is_accepted, SeatDict,
}
use cross_patch.Coordinator.Session.{
  Environment, Returned, structured, mapping, something, Action, pure, raise, ask, ◌>>=◌, Call,
}

-- The answer to a mapping, or another object, that is no structured output.
unfoldable pub mapping_failure : Seat → Option String → OrchestrationFailure
mapping_failure Seat.magistrate (some v) = elim (verdict_of v) [
  | none ↦ unknown_verdict v
  | some _ ↦ invalid_schema
]
mapping_failure _ _ = invalid_schema

unfoldable pub has_valid_remand : SeatOutput → Bool
has_valid_remand (magistrate_output m) = elim m.verdict [
  | Verdict.remand ↦ elim m.remand_target [ none ↦ false | some t ↦ is_remand_target t ]
  | _ ↦ elim m.remand_target [ none ↦ true | some t ↦ false ]
]
has_valid_remand _ = true

module _ (env : Environment) where
  unfoldable pub answered : SeatOutput → Bool → Action SeatOutput
  answered o contained = if contained then pure o else raise (failure missing_evidence_reference)

  unfoldable pub cite : String → SeatOutput → List String → Action SeatOutput
  unfolding answered
  cite i o [] = raise (failure missing_evidence_reference)
  cite i o (id ∷ ids) = do
    contained ← ask env.answer_contained (Call.contains_all i (id ∷ ids))
    answered o contained

  unfoldable pub check_citations : String → Seat → SeatOutput → Action SeatOutput
  unfolding cite
  check_citations i Seat.bailiff o = pure o
  check_citations i s o = cite i o (evidence_ids o)

  -- `_validate`
  unfoldable pub validate : String → Seat → Returned → Action SeatOutput
  unfolding check_citations
  validate i s (structured o) =
      if not (seat_eq (seat_of_output o) s)
      then raise (failure invalid_schema)
      else if not (has_valid_remand o)
      then raise (failure invalid_schema)
      else check_citations i s o
  validate i s (mapping v) = raise (failure (mapping_failure s v))
  validate i s something = raise (failure invalid_schema)

  -- `summarize_output`
  unfoldable pub summarize_output : Seat × SeatOutput → UntrustedAgentSummary
  summarize_output (s, o) = record {
    seat = s;
    semantic_sha256 = env.semantic_fingerprint s o;
    material = env.semantic_payload s o;
  }

  unfoldable pub run_input : IncidentInput → String → SeatDict SeatOutput → AgentRunInput
  run_input inc phase outputs = record {
    incident_id = inc.incident_id;
    scenario = inc.scenario;
    candidate_plan_id = inc.candidate_plan_id;
    phase = phase;
    evidence = inc.evidence;
    citable_evidence_ids = map (λ e. e.evidence_id) inc.evidence;
    prior_outputs = map summarize_output outputs;
  }

  -- `_request`
  unfoldable pub request : IncidentInput → String → Action AgentRunInput
  unfolding run_input
  request inc phase st =
      let input = run_input inc phase st.outputs in
      if is_accepted input then (ok input, st) else (err (other "ValidationError"), st)
