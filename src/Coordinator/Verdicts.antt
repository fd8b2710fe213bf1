-- ===== src/Coordinator/Verdicts.antt =====
-- `_resolve_verdict`, `_fail_closed` and `run_incident` of the Coordinator in
-- backend/src/crosspatch/orchestration/coordinator.py.
use cross_patch.Prelude.{
  ℕ, zero, suc, String, Bool, true, false, Option, none, some, [], Result, ok, err, insert,
  if◌then◌else◌,
}
use cross_patch.Domain.Enums.{Seat, Verdict}
use cross_patch.Domain.Event.{is_remand_target}
use cross_patch.Coordinator.Failures.{
  Exn, failure, cancelled, invalid_schema, retry_failure_already_persisted, failure_reason,
}
use cross_patch.Coordinator.Outputs.{
  SeatOutput, magistrate_output, MagistrateOutput, IncidentInput, SeatDict,
}
use cross_patch.Coordinator.Session.{
  Environment, State, Action, pure, raise, ask, ◌>>=◌, ◌>>◌, Call,
}
use cross_patch.Coordinator.SeatRuns.{run_seat, run_initial_handoff, escalate}

pub record CoordinatorResult : Type 0 where
  pub verdict : Verdict
  pub seat_outputs : SeatDict SeatOutput
  pub pending_warrant_id : Option String
  pub failure_reason : Option String

-- What a run that may be out of fuel leaves.
abbrev pub Outcome : Type 0 → Type 0
Outcome A = Option (Result Exn A × State)

-- `isinstance(magistrate, MagistrateOutput)`
unfoldable pub as_magistrate : SeatOutput → Action MagistrateOutput
as_magistrate (magistrate_output m) = pure m
as_magistrate _ = raise (failure invalid_schema)

unfoldable pub checked_target : Option Seat → Action Seat
checked_target none = raise (failure invalid_schema)
checked_target (some t) = if is_remand_target t then pure t else raise (failure invalid_schema)

-- `self._incident_outputs[incident_id] = dict(outputs)`
unfoldable pub save_outputs : String → Action (Unit {0})
save_outputs i st =
    (ok tt, record st { incident_outputs = insert i st.outputs st.incident_outputs })

unfoldable pub current_outputs : Action (SeatDict SeatOutput)
current_outputs st = (ok st.outputs, st)

unfoldable pub is_remand : MagistrateOutput → Bool
is_remand m = elim m.verdict [ Verdict.remand ↦ true | _ ↦ false ]

-- Goes on with the verdict that was returned; an exception ends the loop.
unfoldable pub on_round :
    (MagistrateOutput → State → Outcome CoordinatorResult)
    → Result Exn MagistrateOutput × State
    → Outcome CoordinatorResult
on_round f (ok m, st) = f m st
on_round f (err e, st) = some (err e, st)

module _ (env : Environment) where
  unfoldable pub patch_again : IncidentInput → Seat → Action (Unit {0})
  patch_again inc Seat.counsel = pure tt
  patch_again inc target = do run_seat env inc Seat.counsel "remand-patch" none false; pure tt

  -- The body of the loop of `_resolve_verdict`.
  unfoldable pub remand_round : IncidentInput → MagistrateOutput → Action MagistrateOutput
  unfolding patch_again checked_target as_magistrate
  remand_round inc m = do
    ask env.answer_done (Call.record_verdict inc.incident_id m)
    target ← checked_target m.remand_target
    escalate env inc target "remand" "remand-revision"
    patch_again inc target
    run_seat env inc Seat.prosecutor "remand-challenge" none false
    o ← run_seat env inc Seat.magistrate "remand-review" none false
    as_magistrate o

  unfoldable pub deliver :
      IncidentInput → MagistrateOutput → SeatDict SeatOutput → Verdict → Action CoordinatorResult
  deliver inc m outputs Verdict.clear = do
    warrant ← ask env.answer_text (Call.open_approval inc.incident_id m outputs)
    pure (record {
      verdict = Verdict.clear;
      seat_outputs = outputs;
      pending_warrant_id = some warrant;
      failure_reason = none;
    })
  deliver inc m outputs v = do
    ask env.answer_done (Call.record_verdict inc.incident_id m)
    pure (record {
      verdict = v;
      seat_outputs = outputs;
      pending_warrant_id = none;
      failure_reason = none;
    })

  -- What `_resolve_verdict` does after its loop.
  unfoldable pub finish_verdict : IncidentInput → MagistrateOutput → Action CoordinatorResult
  unfolding save_outputs current_outputs deliver
  finish_verdict inc m = do
    save_outputs inc.incident_id
    outputs ← current_outputs
    deliver inc m outputs m.verdict

  -- `_resolve_verdict`, on fuel
  unfoldable pub resolve_verdict :
      ℕ → IncidentInput → MagistrateOutput → State → Outcome CoordinatorResult
  unfolding is_remand remand_round finish_verdict on_round
  resolve_verdict zero inc m st = none
  resolve_verdict (suc fuel) inc m st = elim (is_remand m) [
    | false ↦ some (finish_verdict inc m st)
    | true ↦ on_round (resolve_verdict fuel inc) (remand_round inc m st)
  ]

  unfoldable pub resolve_from :
      ℕ → IncidentInput → Result Exn MagistrateOutput × State → Outcome CoordinatorResult
  unfolding resolve_verdict on_round
  resolve_from fuel inc p = on_round (resolve_verdict fuel inc) p

  unfoldable pub report_failure : String → Exn → Action (Unit {0})
  report_failure i (failure retry_failure_already_persisted) = pure tt
  report_failure i e = ask env.answer_done (Call.fail_closed_abstain i (failure_reason e))

  -- `_fail_closed`
  unfoldable pub fail_closed : String → Exn → Action CoordinatorResult
  unfolding report_failure save_outputs current_outputs
  fail_closed i e = do
    report_failure i e
    save_outputs i
    outputs ← current_outputs
    pure (record {
      verdict = Verdict.abstain;
      seat_outputs = outputs;
      pending_warrant_id = none;
      failure_reason = some (failure_reason e);
    })

  -- `except Exception`
  unfoldable pub closed :
      String → Result Exn CoordinatorResult × State → Result Exn CoordinatorResult × State
  unfolding fail_closed
  closed i (ok r, st) = (ok r, st)
  closed i (err cancelled, st) = (err cancelled, st)
  closed i (err e, st) = fail_closed i e st

  unfoldable pub guarded : String → Outcome CoordinatorResult → Outcome CoordinatorResult
  unfolding closed
  guarded i none = none
  guarded i (some p) = some (closed i p)

  -- What `run_incident` does before it resolves the verdict.
  unfoldable pub deliberate : IncidentInput → Action MagistrateOutput
  unfolding as_magistrate
  deliberate inc = do
    run_initial_handoff env inc
    run_seat env inc Seat.inspector "mechanism-revision" none false
    run_seat env inc Seat.counsel "patch-proposal" none false
    run_seat env inc Seat.prosecutor "patch-challenge" none false
    o ← run_seat env inc Seat.magistrate "verdict-review" none false
    as_magistrate o

  unfoldable pub after_review :
      ℕ → IncidentInput → Result Exn (Unit {0}) × State → Outcome CoordinatorResult
  unfolding guarded resolve_from deliberate
  after_review fuel inc (err e, st) = some (err e, st)
  after_review fuel inc (ok _, st) =
      guarded inc.incident_id (resolve_from fuel inc (deliberate inc st))

  -- `run_incident`
  unfoldable pub run_incident : ℕ → IncidentInput → State → Outcome CoordinatorResult
  unfolding after_review
  run_incident fuel inc st =
      after_review fuel inc
        (ask env.answer_done (Call.begin_review inc.incident_id) (record st { outputs = [] }))
