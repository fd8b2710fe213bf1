-- ===== src/Broker/Store/Outcomes.antt =====
-- What becomes of a stored warrant when a claim returns.
use cross_patch.Prelude.{
  String, ◌≡◌, ◌≢◌, refl, ap, subst, some, Result, ok, err, lookup, insert, lookup-insert_self, ltb,
  arith, ◌>>=◌, Bool-cases, inl, inr,
}
use cross_patch.Broker.Documents.{
  Reading, naive, aware, WarrantDocument, WarrantApproval, AuthoritySnapshot, WarrantState,
}
use cross_patch.Broker.Primitives.{Exn, policy_rejected, tamper_rejected, value_error}
use cross_patch.Broker.Store.{
  StoredWarrant, ClaimOutcome, Records, Validator, AuthorityLoader, claim_warrant, conclude,
  present, by_state, in_state,
}

-- The warrant of the identifier `i` is stored, and is no longer APPROVED.
pub record IsSettled (i : String) (d : WarrantDocument) (a : WarrantApproval) (records : Records)
    : Type 0 where
  pub stored : StoredWarrant
  pub found : lookup i records ≡ some stored
  pub document : stored.document ≡ d
  pub approval : stored.approval ≡ a
  pub decided : stored.state ≢ WarrantState.approved

inserted-IsSettled :
    (i : String) (w : StoredWarrant) (s : WarrantState) (records left : Records)
    → s ≢ WarrantState.approved
    → insert i (in_state w s) records ≡ left
    → IsSettled i w.document w.approval left
unfolding in_state
inserted-IsSettled i w s records left decided h = record {
  stored = in_state w s;
  found =
      subst (λ r. lookup i r ≡ some (in_state w s)) h (lookup-insert_self i (in_state w s) records);
  document = refl;
  approval = refl;
  decided = decided;
}

conclude-IsSettled :
    (i : String) (w : StoredWarrant) (r : Result Exn AuthoritySnapshot) (records left : Records)
    (outcome : ClaimOutcome)
    → conclude i w r records ≡ (ok outcome, left)
    → IsSettled i w.document w.approval left
unfolding conclude
conclude-IsSettled i w (ok x) records left outcome h =
    inserted-IsSettled i w WarrantState.consuming records left (λ e. cc e) (ap (λ p. p.1) h)
conclude-IsSettled i w (err (policy_rejected m)) records left outcome h =
    inserted-IsSettled i w WarrantState.rejected records left (λ e. cc e) (ap (λ p. p.1) h)
conclude-IsSettled i w (err (tamper_rejected m)) records left outcome h =
    inserted-IsSettled i w WarrantState.rejected records left (λ e. cc e) (ap (λ p. p.1) h)
conclude-IsSettled i w (err (value_error m)) records left outcome h =
    inserted-IsSettled i w WarrantState.rejected records left (λ e. cc e) (ap (λ p. p.1) h)
conclude-IsSettled i w (err x) records left outcome h = absurd (ground arith)

present-IsSettled :
    (i : String) (v : Validator) (l : AuthorityLoader) (clock : Reading) (w : StoredWarrant)
    (records left : Records) (outcome : ClaimOutcome)
    → present i v l clock w records ≡ (ok outcome, left)
    → IsSettled i w.document w.approval left
unfolding present
present-IsSettled i v l (naive n) w records left outcome h = absurd (ground arith)
present-IsSettled i v l (aware n) w records left outcome h =
    elim (Bool-cases (ltb w.document.expires_at n)) [
      | inl late ↦
          inserted-IsSettled i w WarrantState.expired records left (λ e. cc e)
            (ap (λ (p : Result Exn ClaimOutcome × Records). p.1) (rw (present, late) at h))
      | inr on_time ↦
          conclude-IsSettled i w (l w.document.warrant_id >>= λ x. v w.document w.approval n x)
            records left outcome (rw (present, on_time) at h)
    ]

by_state-IsSettled :
    (s : WarrantState) (i : String) (v : Validator) (l : AuthorityLoader) (clock : Reading)
    (w : StoredWarrant) (records left : Records) (outcome : ClaimOutcome)
    → w.state ≡ s
    → lookup i records ≡ some w
    → by_state s i v l clock w records ≡ (ok outcome, left)
    → IsSettled i w.document w.approval left
unfolding by_state
by_state-IsSettled WarrantState.approved i v l clock w records left outcome s found h =
    present-IsSettled i v l clock w records left outcome h
by_state-IsSettled _ i v l clock w records left outcome s found h = record {
  stored = w;
  found = subst (λ r. lookup i r ≡ some w) (ap (λ p. p.1) h) found;
  document = refl;
  approval = refl;
  decided = λ e. cc (e, s);
}

-- A claim of a stored warrant that returns, whatever its outcome, leaves the warrant stored with
-- its document and approval, and no longer APPROVED.
pub claim_warrant-IsSettled :
    (i : String) (v : Validator) (l : AuthorityLoader) (clock : Reading) (w : StoredWarrant)
    (records left : Records) (outcome : ClaimOutcome)
    → lookup i records ≡ some w
    → claim_warrant i v l clock records ≡ (ok outcome, left)
    → IsSettled i w.document w.approval left
unfolding claim_warrant
claim_warrant-IsSettled i v l clock w records left outcome found h =
    by_state-IsSettled w.state i v l clock w records left outcome refl found
      (rw (claim_warrant, found) at h)
