-- ===== src/Scenarios/Deposits.antt =====
-- The warrant of the broker's runs, stored in the database, claimed and finished.
use cross_patch.Prelude.{arith, ◌≤◌, ◌≡◌, refl, none, some, List, [], ◌∷◌, ok, Dict, lookup, insert}
use cross_patch.Broker.Documents.{WarrantState}
use cross_patch.Broker.Parsing.{
  Codec, parse_warrant_json, parse_approval_json, parse_authority_json,
}
use cross_patch.Broker.Store.{claimed, Validator}
use cross_patch.Broker.Durable.{
  add_approved, has_nonce, WarrantRow, AuthorityRow, Rows, nonce_digest,
}
use cross_patch.Broker.Durable.Claiming.{bindings_match, claim_warrant}
use cross_patch.Broker.Durable.Claiming.Claims.{IsConsumable, durable_claim-IsConsumable}
use cross_patch.Broker.Durable.Claiming.Liveness.{claim_warrant-add_approved}
use cross_patch.Broker.Durable.Claiming.Nonces.{HasDistinctNonces, commit-HasDistinctNonces}
use cross_patch.Broker.Durable.Claiming.SingleUse.{
  Transaction, add, replace, claim, commit, total_claims, durable_single_use,
}
use cross_patch.Broker.Durable.Claiming.Refinement.{Refines}
use cross_patch.Broker.Durable.Claiming.Simulation.{
  durable_answers, memory_answers, all_calls, commit_all, perform_all, durable_answers-Refines,
}
use cross_patch.Scenarios.Warrants.{texts, document, approval, snapshot}

-- Every text is that of the one warrant.
abbrev codec : Codec texts
codec = record {
  load_warrant = λ _. ok document;
  load_approval = λ _. ok approval;
  load_authority = λ _. ok snapshot;
  approval_json = λ a. a.warrant_id;
  authority_json = λ a. a.warrant_id;
  result_json = λ r. r.warrant_id;
}

abbrev accept_all : Validator
accept_all d a now authority = ok authority

abbrev row : WarrantRow texts
row = record {
  incident_id = "incident-1";
  nonce_sha256 = "sha256";
  document_json = "warrant-1";
  approval_json = "warrant-1";
  state = WarrantState.approved;
  expires_at = 100;
  claimed_at = none;
  nonce_consumed_at = none;
  finished_at = none;
  result_json = none;
  created_at = 20;
  updated_at = 20;
}

abbrev authorities : Dict (AuthorityRow texts)
authorities =
    ("incident-1", record { snapshot_json = "warrant-1"; version = 1; updated_at = 20 }) ∷ []

abbrev rows : Rows texts
rows = record { warrants = ("warrant-1", row) ∷ []; authorities = authorities }

abbrev consuming_rows : Rows texts
consuming_rows = record {
  warrants =
      (
        "warrant-1",
        record row {
          state = WarrantState.consuming;
          claimed_at = some 30;
          nonce_consumed_at = some 30;
          updated_at = 30;
        },
      )
      ∷ [];
  authorities = authorities;
}

durably_claimed :
    claim_warrant texts codec "warrant-1" accept_all (some 30) rows
    ≡ (ok (claimed document approval snapshot), consuming_rows)
unfolding claim_warrant lookup insert parse_warrant_json parse_approval_json parse_authority_json
    bindings_match nonce_digest
durably_claimed = refl

durable_claim-IsConsumable_example :
    IsConsumable texts codec "warrant-1" accept_all
      (some 30)
      rows
      document
      approval
      snapshot
      consuming_rows
durable_claim-IsConsumable_example =
    durable_claim-IsConsumable texts codec "warrant-1" accept_all (some 30) rows consuming_rows
      document approval snapshot durably_claimed

abbrev transactions : List Transaction
transactions =
    add document approval snapshot 20
    ∷ claim "warrant-1" accept_all (some 30)
    ∷ replace snapshot 31
    ∷ claim "warrant-1" accept_all (some 32)
    ∷ []

durable_single_use_example : total_claims texts codec "warrant-1" transactions rows ≤ 1
durable_single_use_example = durable_single_use texts codec "warrant-1" transactions rows

no_rows-HasDistinctNonces : HasDistinctNonces texts []
unfolding lookup
no_rows-HasDistinctNonces = record { at = λ i j w x p q n. cc p }

commit-HasDistinctNonces_example :
    HasDistinctNonces texts
      (commit texts codec
        (add document approval snapshot 20)
        (record { warrants = []; authorities = authorities })).warrants
commit-HasDistinctNonces_example =
    commit-HasDistinctNonces texts codec (add document approval snapshot 20)
      (record { warrants = []; authorities = authorities }) no_rows-HasDistinctNonces

abbrev no_rows : Rows texts
no_rows = record { warrants = []; authorities = [] }

deposited : add_approved texts codec document approval snapshot 20 no_rows ≡ (ok tt, rows)
unfolding add_approved lookup insert has_nonce
deposited = refl

claim_warrant-add_approved_example :
    (claim_warrant texts codec "warrant-1" accept_all (some 30) rows).0
    ≡ ok (claimed document approval snapshot)
claim_warrant-add_approved_example =
    claim_warrant-add_approved texts codec document approval snapshot snapshot 20 30 accept_all
      no_rows rows deposited refl refl refl (omega arith) refl

no_rows-Refines : Refines texts codec no_rows []
unfolding lookup
no_rows-Refines = record { at = λ i. tt }

durable_answers-Refines_example :
    (durable_answers texts codec transactions no_rows
      ≡ memory_answers (all_calls texts codec transactions no_rows) [])
    × Refines texts codec
        (commit_all texts codec transactions no_rows)
        (perform_all (all_calls texts codec transactions no_rows) [])
durable_answers-Refines_example =
    durable_answers-Refines texts codec transactions no_rows [] ((refl, refl), (tt, (tt, (tt, tt))))
      no_rows-Refines
