-- ===== src/Scenarios/Room.antt =====
-- A room of seats that answer, for the runs in `Deliberations`.
use cross_patch.Prelude.{
  String, Bool, true, false, Option, none, some, [], ◌∷◌, ok, str_eq, if◌then◌else◌,
}
use cross_patch.Domain.Enums.{Seat, Verdict}
use cross_patch.Escalation.{assign, empty}
use cross_patch.Coordinator.Outputs.{
  MechanismCode, InspectorOutput, ProsecutorOutput, CounselOutput, MagistrateOutput, SeatOutput,
  inspector_output, prosecutor_output, counsel_output, magistrate_output, bailiff_output,
  IncidentInput,
}
use cross_patch.Coordinator.Session.{
  Environment, State, Call, Returned, structured, something, handoff,
}
use cross_patch.Coordinator.Verdicts.{CoordinatorResult, Outcome, run_incident}
use cross_patch.Coordinator.Resumption.{resume_after_revision}

abbrev pub sha_a : String
sha_a = "aaaaaaaaaaaaaaaaaaaaaaaaaaaaaaaaaaaaaaaaaaaaaaaaaaaaaaaaaaaaaaaa"

abbrev pub sha_b : String
sha_b = "bbbbbbbbbbbbbbbbbbbbbbbbbbbbbbbbbbbbbbbbbbbbbbbbbbbbbbbbbbbbbbbb"

abbrev pub finding : InspectorOutput
finding = record {
  mechanism = MechanismCode.check_then_insert_race;
  evidence_ids = "ev_1" ∷ [];
  falsifiers = [];
  analysis = "";
}

abbrev pub challenge : ProsecutorOutput
challenge = record {
  root = record {
    rival_mechanism = none;
    counterexample_ids = "counter-1" ∷ [];
    test_ids = "test-1" ∷ [];
    evidence_ids = "ev_1" ∷ [];
    analysis = "";
  };
}

abbrev pub patch : String → CounselOutput
patch diff = record {
  normalized_diff = diff;
  test_intentions = [];
  evidence_ids = "ev_1" ∷ [];
  analysis = "";
}

abbrev pub ruling : Verdict → Option Seat → MagistrateOutput
ruling v target = record {
  verdict = v;
  finding_codes = [];
  required_changes = [];
  remand_target = target;
  evidence_ids = "ev_1" ∷ [];
  analysis = "";
}

abbrev pub output_of : Seat → String → SeatOutput
output_of Seat.inspector phase = inspector_output finding
output_of Seat.prosecutor phase = prosecutor_output challenge
output_of Seat.counsel phase =
    counsel_output (patch (if str_eq phase "patch-proposal" then "first" else "second"))
output_of Seat.magistrate phase = magistrate_output (
    if str_eq phase "verdict-review"
    then ruling Verdict.remand (some Seat.counsel)
    else ruling Verdict.clear none)
output_of Seat.bailiff phase = bailiff_output (record { warrant_id = "warrant-1" })

abbrev pub answered_seat : Call → Returned
answered_seat (Call.run_seat s e phase input) = structured (output_of s phase)
answered_seat (Call.execute_approved_warrant i w reference) =
    structured (bailiff_output (record { warrant_id = w }))
answered_seat _ = something

abbrev pub fingerprint : SeatOutput → String
fingerprint (counsel_output o) = if str_eq o.normalized_diff "first" then sha_a else sha_b
fingerprint _ = sha_a

abbrev pub room : Bool → Environment
room contained = record {
  deferred_retry = false;
  semantic_payload = λ s o. [];
  semantic_fingerprint = λ s o. fingerprint o;
  answer_done = λ cs c. ok tt;
  answer_seat = λ cs c. ok (answered_seat c);
  answer_handoff = λ cs c. ok (handoff finding challenge);
  answer_text = λ cs c. ok "warrant-1";
  answer_reference = λ cs c. ok (some "approval-1");
  answer_contained = λ cs c. ok contained;
}

abbrev pub incident : IncidentInput
incident = record {
  incident_id = "incident-1";
  scenario = "webhook-race";
  candidate_plan_id = "victim.duplicate-race.candidate";
  evidence = [];
}

abbrev pub start : State
start = record {
  tracker = empty;
  incident_outputs = [];
  incident_phases = [];
  outputs = [];
  calls = [];
}

abbrev pub no_result : CoordinatorResult
no_result = record {
  verdict = Verdict.block;
  seat_outputs = [];
  pending_warrant_id = none;
  failure_reason = none;
}

abbrev pub result_of : Outcome CoordinatorResult → CoordinatorResult
result_of (some (ok r, u)) = r
result_of _ = no_result

abbrev pub state_of : Outcome CoordinatorResult → State
state_of (some (_, u)) = u
state_of none = start

abbrev pub no_evidence : String
no_evidence = "missing_evidence_references"

-- The remand is resolved in one round.
abbrev pub cleared : Outcome CoordinatorResult
cleared = run_incident (room true) 2 incident start

-- The citation authority finds no evidence.
abbrev pub refused : Outcome CoordinatorResult
refused = run_incident (room false) 1 incident start

abbrev pub first_patch : SeatOutput
first_patch = output_of Seat.counsel "patch-proposal"

-- A patch was proposed, and a human gave guidance.
abbrev pub guided : State
guided = record {
  tracker =
      assign "incident-1" Seat.counsel
        (record {
          effort_index = 0;
          escalation_count = 0;
          fingerprint = sha_a;
          retry_pending = false;
          pending_reason = none;
        })
        empty;
  incident_outputs = ("incident-1", (Seat.counsel, first_patch) ∷ []) ∷ [];
  incident_phases = [];
  outputs = [];
  calls = Call.contains_all "incident-1" ("ev_1" ∷ []) ∷ [];
}

abbrev pub revised : Outcome CoordinatorResult
revised = resume_after_revision (room true) 1 incident guided

abbrev pub summary : Outcome CoordinatorResult → Option (Verdict × Option String)
summary (some (ok r, u)) = some (r.verdict, r.failure_reason)
summary _ = none
