-- ===== src/Broker/Store/Claims.antt =====
-- What a successful claim has found and leaves.
use cross_patch.Prelude.{
  ℕ, ◌≤◌, String, ◌≡◌, ◌≢◌, refl, some, Result, ok, err, lookup, insert, ltb, arith, ◌>>=◌,
  >>=-eq-ok, Option-cases, Bool-cases, inl, inr, lookup-insert_self,
}
use cross_patch.Broker.Documents.{
  Reading, naive, aware, WarrantDocument, WarrantApproval, AuthoritySnapshot, BrokerStatus,
  WarrantState, BrokerResult,
}
use cross_patch.Broker.Primitives.{Exn, policy_rejected, tamper_rejected, value_error}
use cross_patch.Broker.Store.{
  StoredWarrant, claimed, rejection, Records, Validator, AuthorityLoader, claim_warrant, conclude,
  present, by_state, in_state, finish, finish_record,
}

-- The warrant `w` is stored under `i` and may be executed, and the claim marks it.
pub record IsClaimed (i : String) (v : Validator) (l : AuthorityLoader) (clock : Reading)
    (records : Records) (d : WarrantDocument) (a : WarrantApproval) (authority : AuthoritySnapshot)
    (left : Records) : Type 0 where
  pub stored : StoredWarrant
  pub found : lookup i records ≡ some stored
  pub approved : stored.state ≡ WarrantState.approved
  pub document : stored.document ≡ d
  pub approval : stored.approval ≡ a
  pub now : ℕ
  pub read : clock ≡ aware now
  pub in_time : now ≤ stored.document.expires_at
  pub loaded : AuthoritySnapshot
  pub loads : l stored.document.warrant_id ≡ ok loaded
  pub validated : v stored.document stored.approval now loaded ≡ ok authority
  pub marked : insert i (record stored { state = WarrantState.consuming }) records ≡ left

conclude_claimed :
    (i : String) (w : StoredWarrant) (r : Result Exn AuthoritySnapshot) (records : Records)
    (d : WarrantDocument) (a : WarrantApproval) (authority : AuthoritySnapshot) (left : Records)
    → conclude i w r records ≡ (ok (claimed d a authority), left)
    → (r ≡ ok authority)
      × (w.document ≡ d)
      × (w.approval ≡ a)
      × (insert i (record w { state = WarrantState.consuming }) records ≡ left)
unfolding conclude in_state
conclude_claimed i w (ok x) records d a authority left h = ground arith
conclude_claimed i w (err (policy_rejected m)) records d a authority left h = ground arith
conclude_claimed i w (err (tamper_rejected m)) records d a authority left h = ground arith
conclude_claimed i w (err (value_error m)) records d a authority left h = ground arith
conclude_claimed i w (err x) records d a authority left h = ground arith

present_claimed :
    (i : String) (v : Validator) (l : AuthorityLoader) (clock : Reading) (w : StoredWarrant)
    (records : Records) (d : WarrantDocument) (a : WarrantApproval) (authority : AuthoritySnapshot)
    (left : Records)
    → lookup i records ≡ some w
    → w.state ≡ WarrantState.approved
    → present i v l clock w records ≡ (ok (claimed d a authority), left)
    → IsClaimed i v l clock records d a authority left
unfolding present
present_claimed i v l (naive n) w records d a authority left found approved h = ground arith
present_claimed i v l (aware now) w records d a authority left found approved h =
    elim (Bool-cases (ltb w.document.expires_at now)) [
      | inl late ↦ ground arith
      | inr in_time ↦
          let (r, document, approval, marked) =
            conclude_claimed i w (l w.document.warrant_id >>= λ x. v w.document w.approval now x)
              records d a authority left (ground arith) in
          let (loaded, loads, validated) =
            >>=-eq-ok (l w.document.warrant_id) (λ x. v w.document w.approval now x) r in
          record {
            stored = w;
            found = found;
            approved = approved;
            document = document;
            approval = approval;
            now = now;
            read = refl;
            in_time = ground arith;
            loaded = loaded;
            loads = loads;
            validated = validated;
            marked = marked;
          }
    ]

by_state_claimed :
    (s : WarrantState) (i : String) (v : Validator) (l : AuthorityLoader) (clock : Reading)
    (w : StoredWarrant) (records : Records) (d : WarrantDocument) (a : WarrantApproval)
    (authority : AuthoritySnapshot) (left : Records)
    → w.state ≡ s
    → lookup i records ≡ some w
    → by_state s i v l clock w records ≡ (ok (claimed d a authority), left)
    → IsClaimed i v l clock records d a authority left
unfolding by_state
by_state_claimed WarrantState.approved i v l clock w records d a authority left s found h =
    present_claimed i v l clock w records d a authority left found s h
by_state_claimed _ i v l clock w records d a authority left s found h = ground arith

-- A claim that succeeds has found the warrant APPROVED, unexpired and accepted by the validator
-- under the snapshot that was loaded, returns its document and approval, and leaves it CONSUMING.
pub claim_warrant-IsClaimed :
    (i : String) (v : Validator) (l : AuthorityLoader) (clock : Reading) (records : Records)
    (d : WarrantDocument) (a : WarrantApproval) (authority : AuthoritySnapshot) (left : Records)
    → claim_warrant i v l clock records ≡ (ok (claimed d a authority), left)
    → IsClaimed i v l clock records d a authority left
unfolding claim_warrant
claim_warrant-IsClaimed i v l clock records d a authority left h =
    elim (Option-cases (lookup i records)) [
      | inl missing ↦ ground arith
      | inr (w, found) ↦
          by_state_claimed w.state i v l clock w records d a authority left refl found
            (rw (claim_warrant, found) at h)
    ]

-- A result is stored for a claimed warrant, which is spent.
pub finish_claimed :
    (i : String) (w : StoredWarrant) (records : Records) (result : BrokerResult)
    → finish i result (insert i (record w { state = WarrantState.consuming }) records) ≡ (
      ok tt,
      insert i
          (record w { result = some result; state = WarrantState.consumed })
          (insert i (record w { state = WarrantState.consuming }) records),
    )
unfolding finish finish_record
finish_claimed i w records result = rw (finish, lookup-insert_self) refl

conclude_rejected :
    (i : String) (w : StoredWarrant) (r : Result Exn AuthoritySnapshot) (records : Records)
    (s : BrokerStatus) (code : String) (left : Records)
    → conclude i w r records ≡ (ok (rejection s code), left)
    → s ≢ BrokerStatus.executed
unfolding conclude in_state
conclude_rejected i w (ok x) records s code left h e = ground arith
conclude_rejected i w (err (policy_rejected m)) records s code left h e = ground arith
conclude_rejected i w (err (tamper_rejected m)) records s code left h e = ground arith
conclude_rejected i w (err (value_error m)) records s code left h e = ground arith
conclude_rejected i w (err x) records s code left h e = ground arith

present_rejected :
    (i : String) (v : Validator) (l : AuthorityLoader) (clock : Reading) (w : StoredWarrant)
    (records : Records) (s : BrokerStatus) (code : String) (left : Records)
    → present i v l clock w records ≡ (ok (rejection s code), left)
    → s ≢ BrokerStatus.executed
unfolding present
present_rejected i v l (naive n) w records s code left h e = ground arith
present_rejected i v l (aware now) w records s code left h e =
    elim (Bool-cases (ltb w.document.expires_at now)) [
      | inl late ↦ ground arith
      | inr in_time ↦
          conclude_rejected i w (l w.document.warrant_id >>= λ x. v w.document w.approval now x)
            records s code left (ground arith) e
    ]

by_state_rejected :
    (t : WarrantState) (i : String) (v : Validator) (l : AuthorityLoader) (clock : Reading)
    (w : StoredWarrant) (records : Records) (s : BrokerStatus) (code : String) (left : Records)
    → by_state t i v l clock w records ≡ (ok (rejection s code), left)
    → s ≢ BrokerStatus.executed
unfolding by_state
by_state_rejected WarrantState.approved i v l clock w records s code left h e =
    present_rejected i v l clock w records s code left h e
by_state_rejected _ i v l clock w records s code left h e = ground arith

-- A claim that is rejected is not reported as an execution.
pub rejected_not_executed :
    (i : String) (v : Validator) (l : AuthorityLoader) (clock : Reading) (records : Records)
    (s : BrokerStatus) (code : String) (left : Records)
    → claim_warrant i v l clock records ≡ (ok (rejection s code), left)
    → s ≢ BrokerStatus.executed
unfolding claim_warrant
rejected_not_executed i v l clock records s code left h e = elim (Option-cases (lookup i records)) [
  | inl missing ↦ ground arith
  | inr (w, found) ↦
      by_state_rejected w.state i v l clock w records s code left (rw (claim_warrant, found) at h) e
]
