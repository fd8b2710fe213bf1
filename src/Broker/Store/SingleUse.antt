-- ===== src/Broker/Store/SingleUse.antt =====
-- A warrant is claimed at most once, whatever calls the store receives, in whatever order.
use cross_patch.Prelude.{
  ℕ, ◌+◌, ◌≤◌, String, ◌≡◌, refl, false, Option, none, some, List, [], ◌∷◌, Result, ok, err, lookup,
  lookup-insert, lookup-insert_self, eq_iff, str_eq, arith, if◌then◌else◌, Bool-cases, if_elim, ltb,
  ◌≢◌, inl, inr, Option-cases, ◌>>=◌,
}
use cross_patch.Broker.Documents.{
  Reading, naive, aware, WarrantDocument, WarrantApproval, AuthoritySnapshot, WarrantState,
  BrokerResult,
}
use cross_patch.Broker.Primitives.{Exn, policy_rejected, tamper_rejected, value_error}
use cross_patch.Broker.Store.{
  StoredWarrant, ClaimOutcome, claimed, Records, Validator, AuthorityLoader, add_approved,
  claim_warrant, finish, conclude, present, by_state, finish_record, in_state,
}

-- The calls that brokers and approvers make, as they pass the lock.
pub data Call : Type 0 where
  add : WarrantDocument → WarrantApproval → Call
  claim : String → Validator → AuthorityLoader → Reading → Call
  complete : String → BrokerResult → Call

unfoldable pub perform : Call → Records → Records
perform (add d a) records = (add_approved d a records).1
perform (claim i v l clock) records = (claim_warrant i v l clock records).1
perform (complete i result) records = (finish i result records).1

abbrev won : Result Exn ClaimOutcome → ℕ
won (ok (claimed _ _ _)) = 1
won _ = 0

-- 1 if the call is a claim of the warrant `i` that succeeds.
pub wins : String → Call → Records → ℕ
wins i (claim j v l clock) records =
    if str_eq j i then won (claim_warrant j v l clock records).0 else 0
wins i _ records = 0

pub total_wins : String → List Call → Records → ℕ
total_wins i [] records = 0
total_wins i (c ∷ cs) records = wins i c records + total_wins i cs (perform c records)

-- 1 while a claim may still succeed.
abbrev open_state : WarrantState → ℕ
open_state WarrantState.approved = 1
open_state _ = 0

abbrev open_slot : Option StoredWarrant → ℕ
open_slot none = 1
open_slot (some w) = open_state w.state

conclude-open :
    (i : String) (w : StoredWarrant) (r : Result Exn AuthoritySnapshot) (records : Records)
    → lookup i records ≡ some w
    → w.state ≡ WarrantState.approved
    → won (conclude i w r records).0 + open_slot (lookup i (conclude i w r records).1) ≤ 1
unfolding conclude
conclude-open i w (ok a) records e s = rw lookup-insert_self (omega arith)
conclude-open i w (err (policy_rejected m)) records e s = rw lookup-insert_self (omega arith)
conclude-open i w (err (tamper_rejected m)) records e s = rw lookup-insert_self (omega arith)
conclude-open i w (err (value_error m)) records e s = rw lookup-insert_self (omega arith)
conclude-open i w (err x) records e s = rw (e, s) (omega arith)

conclude-other :
    (i j : String) (w : StoredWarrant) (r : Result Exn AuthoritySnapshot) (records : Records)
    → str_eq i j ≡ false
    → lookup j (conclude i w r records).1 ≡ lookup j records
unfolding conclude
conclude-other i j w (ok a) records e = rw (lookup-insert, e)
conclude-other i j w (err (policy_rejected m)) records e = rw (lookup-insert, e)
conclude-other i j w (err (tamper_rejected m)) records e = rw (lookup-insert, e)
conclude-other i j w (err (value_error m)) records e = rw (lookup-insert, e)
conclude-other i j w (err x) records e = refl

present-open :
    (i : String) (v : Validator) (l : AuthorityLoader) (clock : Reading) (w : StoredWarrant)
    (records : Records)
    → lookup i records ≡ some w
    → w.state ≡ WarrantState.approved
    → won (present i v l clock w records).0 + open_slot (lookup i (present i v l clock w records).1)
      ≤ 1
unfolding present in_state
present-open i v l (naive n) w records e s = rw (e, s) (omega arith)
present-open i v l (aware n) w records e s =
    if_elim (λ (p : Result Exn ClaimOutcome × Records). won p.0 + open_slot (lookup i p.1) ≤ 1)
      (ltb w.document.expires_at n) (λ _. rw lookup-insert_self (omega arith))
      (λ _.
        conclude-open i w (l w.document.warrant_id >>= λ a. v w.document w.approval n a) records e
          s)

present-other :
    (i j : String) (v : Validator) (l : AuthorityLoader) (clock : Reading) (w : StoredWarrant)
    (records : Records)
    → str_eq i j ≡ false
    → lookup j (present i v l clock w records).1 ≡ lookup j records
unfolding present
present-other i j v l (naive n) w records h = refl
present-other i j v l (aware n) w records h =
    if_elim (λ (p : Result Exn ClaimOutcome × Records). lookup j p.1 ≡ lookup j records)
      (ltb w.document.expires_at n) (λ _. rw (lookup-insert, h))
      (λ _. conclude-other i j w _ records h)

by_state-open :
    (s : WarrantState) (i : String) (v : Validator) (l : AuthorityLoader) (clock : Reading)
    (w : StoredWarrant) (records : Records)
    → lookup i records ≡ some w
    → w.state ≡ s
    → won (by_state s i v l clock w records).0
        + open_slot (lookup i (by_state s i v l clock w records).1)
      ≤ open_state s
unfolding by_state
by_state-open WarrantState.approved i v l clock w records e h =
    present-open i v l clock w records e h
by_state-open _ i v l clock w records e h = rw (e, h) (omega arith)

by_state-other :
    (s : WarrantState) (i j : String) (v : Validator) (l : AuthorityLoader) (clock : Reading)
    (w : StoredWarrant) (records : Records)
    → str_eq i j ≡ false
    → lookup j (by_state s i v l clock w records).1 ≡ lookup j records
unfolding by_state
by_state-other WarrantState.approved i j v l clock w records h =
    present-other i j v l clock w records h
by_state-other _ i j v l clock w records h = refl

claim-open :
    (i : String) (v : Validator) (l : AuthorityLoader) (clock : Reading) (records : Records)
    → won (claim_warrant i v l clock records).0
        + open_slot (lookup i (claim_warrant i v l clock records).1)
      ≤ open_slot (lookup i records)
unfolding claim_warrant
claim-open i v l clock records = elim (Option-cases (lookup i records)) [
  | inl e ↦ rw (e, claim_warrant) (rw e (omega arith))
  | inr (w, e) ↦ rw (e, claim_warrant) (by_state-open w.state i v l clock w records e refl)
]

claim-other :
    (i j : String) (v : Validator) (l : AuthorityLoader) (clock : Reading) (records : Records)
    → str_eq i j ≡ false
    → lookup j (claim_warrant i v l clock records).1 ≡ lookup j records
unfolding claim_warrant
claim-other i j v l clock records h = elim (Option-cases (lookup i records)) [
  | inl e ↦ rw (e, claim_warrant)
  | inr (w, e) ↦ rw (e, claim_warrant) (by_state-other w.state i j v l clock w records h)
]

add-open :
    (d : WarrantDocument) (a : WarrantApproval) (j : String) (records : Records)
    → open_slot (lookup j (add_approved d a records).1) ≤ open_slot (lookup j records)
unfolding add_approved
add-open d a j records = elim (Option-cases (lookup d.warrant_id records)) [
  | inl e ↦
      rw (e, add_approved, lookup-insert)
        (if_elim (λ o. open_slot o ≤ open_slot (lookup j records)) (str_eq d.warrant_id j)
          (λ h. rw (← (eq_iff d.warrant_id j).0 h) (rw e (omega arith))) (λ _. omega arith))
  | inr (w, e) ↦ rw (e, add_approved) (omega arith)
]

finish_record-open :
    (s : WarrantState) (i : String) (result : BrokerResult) (w : StoredWarrant) (j : String)
    (records : Records)
    → open_slot (lookup j (finish_record s i result w records).1) ≤ open_slot (lookup j records)
unfolding finish_record
finish_record-open WarrantState.consuming i result w j records = rw lookup-insert (
    if_elim (λ o. open_slot o ≤ open_slot (lookup j records)) (str_eq i j) (λ _. omega arith)
      (λ _. omega arith))
finish_record-open _ i result w j records = omega arith

finish-open :
    (i : String) (result : BrokerResult) (j : String) (records : Records)
    → open_slot (lookup j (finish i result records).1) ≤ open_slot (lookup j records)
unfolding finish
finish-open i result j records = elim (Option-cases (lookup i records)) [
  | inl e ↦ rw (e, finish) (omega arith)
  | inr (w, e) ↦ rw (e, finish) (finish_record-open w.state i result w j records)
]

perform-open :
    (i : String) (c : Call) (records : Records)
    → wins i c records + open_slot (lookup i (perform c records)) ≤ open_slot (lookup i records)
unfolding wins perform
perform-open i (add d a) records = omega (arith, add-open d a i records)
perform-open i (claim j v l clock) records = elim (Bool-cases (str_eq j i)) [
  | inl h ↦ rw (h, (eq_iff j i).0 h) (claim-open i v l clock records)
  | inr h ↦ rw h (rw (claim-other j i v l clock records h) (omega arith))
]
perform-open i (complete j result) records = omega (arith, finish-open j result i records)

wins-le-open :
    (i : String) (cs : List Call) (records : Records)
    → total_wins i cs records ≤ open_slot (lookup i records)
unfolding total_wins
wins-le-open i [] records = omega arith
wins-le-open i (c ∷ cs) records =
    omega (arith, perform-open i c records, wins-le-open i cs (perform c records))

open_slot-le-one : (o : Option StoredWarrant) → open_slot o ≤ 1
open_slot-le-one o = ground arith

-- From any records on, whatever approvals, claims (with any validators, authorities and clocks)
-- and completions the store receives, in whatever order, at most one claim of a warrant succeeds.
pub single_use : (i : String) (cs : List Call) (records : Records) → total_wins i cs records ≤ 1
single_use i cs records =
    omega (arith, wins-le-open i cs records, open_slot-le-one (lookup i records))

closed_state : (s : WarrantState) → s ≢ WarrantState.approved → open_state s ≡ 0
closed_state s h = ground arith

-- A stored warrant whose state is not APPROVED is never claimed again, whatever calls follow.
pub spent_never_claimed :
    (i : String) (cs : List Call) (records : Records) (w : StoredWarrant)
    → lookup i records ≡ some w
    → w.state ≢ WarrantState.approved
    → total_wins i cs records ≡ 0
spent_never_claimed i cs records w e s =
    let bound : total_wins i cs records ≤ open_slot (some w) =
      rw e at (wins-le-open i cs records) in
    omega (arith, closed_state w.state s)
