-- ===== src/Broker/Store.antt =====
-- `InMemoryWarrantStore` of backend/src/crosspatch/broker/broker.py. Each method runs under the
-- store's lock, so it is one step; it returns its result, or the exception that it raises, with
-- the records that it leaves.
pub mod Claims
pub mod Outcomes
pub mod SingleUse
use cross_patch.Prelude.{
  ℕ, String, Bool, Option, none, some, Result, ok, err, Dict, lookup, insert, str_eq, ltb, ◌>>=◌,
  if◌then◌else◌,
}
use cross_patch.Broker.Documents.{
  Reading, naive, aware, WarrantDocument, WarrantApproval, AuthoritySnapshot, BrokerStatus,
  WarrantState, BrokerResult,
}
use cross_patch.Broker.Primitives.{
  Exn, policy_rejected, tamper_rejected, value_error, key_error, runtime_error,
}

-- `_StoredWarrant`
pub record StoredWarrant : Type 0 where
  pub document : WarrantDocument
  pub approval : WarrantApproval
  pub state : WarrantState
  pub result : Option BrokerResult

-- `_ClaimOutcome`: a `_ClaimedWarrant`, or a rejection with its error code.
pub data ClaimOutcome : Type 0 where
  claimed : WarrantDocument → WarrantApproval → AuthoritySnapshot → ClaimOutcome
  rejection : BrokerStatus → (error_code : String) → ClaimOutcome

abbrev pub Records : Type 0
Records = Dict StoredWarrant

abbrev pub Validator : Type 0
Validator = WarrantDocument → WarrantApproval → ℕ → AuthoritySnapshot → Result Exn AuthoritySnapshot

abbrev pub AuthorityLoader : Type 0
AuthorityLoader = String → Result Exn AuthoritySnapshot

-- `str(error) or default`
unfoldable pub message_or : String → String → String
message_or m default = if str_eq m "" then default else m

unfoldable pub add_approved :
    WarrantDocument → WarrantApproval → Records → Result Exn (Unit {0}) × Records
add_approved d a records = elim (lookup d.warrant_id records) [
  | some _ ↦ (err (value_error "warrant id already exists"), records)
  | none ↦ (
    ok tt,
    insert d.warrant_id
        (record { document = d; approval = a; state = WarrantState.approved; result = none })
        records,
  )
]

unfoldable pub in_state : StoredWarrant → WarrantState → StoredWarrant
in_state w s = record w { state = s }

-- The two `except` clauses and the last lines of `claim_warrant`.
unfoldable pub conclude :
    String
    → StoredWarrant
    → Result Exn AuthoritySnapshot
    → Records
    → Result Exn ClaimOutcome × Records
unfolding in_state message_or
conclude i w (ok authority) records = (
  ok (claimed w.document w.approval authority),
  insert i (in_state w WarrantState.consuming) records,
)
conclude i w (err (policy_rejected m)) records = (
  ok (rejection BrokerStatus.policy_rejected (message_or m "PATCH_POLICY_REJECTED")),
  insert i (in_state w WarrantState.rejected) records,
)
conclude i w (err (tamper_rejected m)) records = (
  ok (rejection BrokerStatus.tamper_rejected (message_or m "WARRANT_TAMPER_REJECTED")),
  insert i (in_state w WarrantState.rejected) records,
)
conclude i w (err (value_error m)) records = (
  ok (rejection BrokerStatus.tamper_rejected (message_or m "WARRANT_TAMPER_REJECTED")),
  insert i (in_state w WarrantState.rejected) records,
)
conclude i w (err e) records = (err e, records)

unfoldable pub present :
    String
    → Validator
    → AuthorityLoader
    → Reading
    → StoredWarrant
    → Records
    → Result Exn ClaimOutcome × Records
unfolding conclude
present i validator loader (naive _) w records = (err runtime_error, records)
present i validator loader (aware now) w records =
    if ltb w.document.expires_at now
    then (
      ok (rejection BrokerStatus.expired "WARRANT_EXPIRED"),
      insert i (in_state w WarrantState.expired) records,
    )
    else conclude i w
        (loader w.document.warrant_id >>= λ authority.
          validator w.document w.approval now authority)
        records

unfoldable pub by_state :
    WarrantState
    → String
    → Validator
    → AuthorityLoader
    → Reading
    → StoredWarrant
    → Records
    → Result Exn ClaimOutcome × Records
unfolding present
by_state WarrantState.approved i validator loader clock w records =
    present i validator loader clock w records
by_state _ i validator loader clock w records =
    (ok (rejection BrokerStatus.replay_rejected "WARRANT_ALREADY_CLAIMED"), records)

unfoldable pub claim_warrant :
    String → Validator → AuthorityLoader → Reading → Records → Result Exn ClaimOutcome × Records
unfolding by_state
claim_warrant i validator loader clock records = elim (lookup i records) [
  | none ↦ (ok (rejection BrokerStatus.not_found "WARRANT_NOT_FOUND"), records)
  | some w ↦ by_state w.state i validator loader clock w records
]

unfoldable pub finish_record :
    WarrantState → String → BrokerResult → StoredWarrant → Records → Result Exn (Unit {0}) × Records
finish_record WarrantState.consuming i result w records =
    (ok tt, insert i (record w { result = some result; state = WarrantState.consumed }) records)
finish_record _ i result w records = (err runtime_error, records)

unfoldable pub finish : String → BrokerResult → Records → Result Exn (Unit {0}) × Records
unfolding finish_record
finish i result records = elim (lookup i records) [
  | none ↦ (err key_error, records)
  | some w ↦ finish_record w.state i result w records
]
