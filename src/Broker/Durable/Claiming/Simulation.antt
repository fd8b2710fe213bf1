-- ===== src/Broker/Durable/Claiming/Simulation.antt =====
-- The transactions of the database, as calls of the store in memory.
use mathlib.Core.List.{append_assoc}
use cross_patch.Prelude.{All, sym, ◌≡◌, refl, ap, List, [], ◌∷◌, ◌++◌, Result, ok, err}
use cross_patch.Broker.Primitives.{Primitives, Exn}
use cross_patch.Broker.Parsing.{Codec}
use cross_patch.Broker.Store
use cross_patch.Broker.Store.{Records, ClaimOutcome}
use cross_patch.Broker.Store.SingleUse
use cross_patch.Broker.Store.SingleUse.{perform}
use cross_patch.Broker.Durable
use cross_patch.Broker.Durable.{Rows}
use cross_patch.Broker.Durable.Claiming
use cross_patch.Broker.Durable.Claiming.SingleUse.{
  Transaction, add, replace, claim, complete, commit,
}
use cross_patch.Broker.Durable.Claiming.Refinement.{
  Refines, published_loader, reading, claim_warrant-Agree,
}
use cross_patch.Broker.Durable.Claiming.Writes.{
  finish-err, add_approved-err, replace_authority-warrants, finish-Refines, add_approved-Refines,
}

-- A call is made if the transaction that it stands for returned.
when_ok : {A : Type 0} → Result Exn A → SingleUse.Call → List SingleUse.Call
when_ok (ok _) c = c ∷ []
when_ok (err _) c = []

abbrev claim_answer : SingleUse.Call → Records → List (Result Exn ClaimOutcome)
claim_answer (SingleUse.claim i v loader clock) records =
    (Store.claim_warrant i v loader clock records).0 ∷ []
claim_answer _ records = []

-- The answers to the claims among the calls.
unfoldable pub memory_answers : List SingleUse.Call → Records → List (Result Exn ClaimOutcome)
memory_answers [] records = []
memory_answers (c ∷ cs) records = claim_answer c records ++ memory_answers cs (perform c records)

unfoldable pub perform_all : List SingleUse.Call → Records → Records
perform_all [] records = records
perform_all (c ∷ cs) records = perform_all cs (perform c records)

memory_answers-append :
    (cs ds : List SingleUse.Call) (records : Records)
    → memory_answers (cs ++ ds) records
      ≡ memory_answers cs records ++ memory_answers ds (perform_all cs records)
unfolding memory_answers perform_all
memory_answers-append [] ds records = refl
memory_answers-append (c ∷ cs) ds records =
    rw (memory_answers-append cs ds (perform c records))
      (sym (append_assoc (claim_answer c records) _ _))

perform_all-append :
    (cs ds : List SingleUse.Call) (records : Records)
    → perform_all (cs ++ ds) records ≡ perform_all ds (perform_all cs records)
unfolding perform_all
perform_all-append [] ds records = refl
perform_all-append (c ∷ cs) ds records = perform_all-append cs ds (perform c records)

module _ (P : Primitives) (C : Codec P) where
  -- The calls of the store in memory that a transaction stands for: a claim is given the authority
  -- that the database publishes, and a transaction that fails is no call.
  unfoldable pub calls_of : Transaction → Rows P → List SingleUse.Call
  unfolding when_ok
  calls_of (add d a authority now) t =
      when_ok (Durable.add_approved P C d a authority now t).0 (SingleUse.add d a)
  calls_of (replace authority now) t = []
  calls_of (claim i v clock) t =
      SingleUse.claim i v (published_loader P C t) (reading P C clock) ∷ []
  calls_of (complete i result clock) t =
      when_ok (Claiming.finish P C i result clock t).0 (SingleUse.complete i result)

  unfoldable pub all_calls : List Transaction → Rows P → List SingleUse.Call
  all_calls [] t = []
  all_calls (c ∷ cs) t = calls_of c t ++ all_calls cs (commit P C c t)

  abbrev claim_answers : Transaction → Rows P → List (Result Exn ClaimOutcome)
  claim_answers (claim i v clock) t = (Claiming.claim_warrant P C i v clock t).0 ∷ []
  claim_answers _ t = []

  -- The answers to the claims among the transactions.
  unfoldable pub durable_answers : List Transaction → Rows P → List (Result Exn ClaimOutcome)
  durable_answers [] t = []
  durable_answers (c ∷ cs) t = claim_answers c t ++ durable_answers cs (commit P C c t)

  unfoldable pub commit_all : List Transaction → Rows P → Rows P
  commit_all [] t = t
  commit_all (c ∷ cs) t = commit_all cs (commit P C c t)

  -- The documents that are added load from their canonical bytes.
  abbrev pub Loads : Transaction → Type 0
  Loads (add d a authority now) =
      (C.load_warrant (P.warrant_json d) ≡ ok d) × (C.load_approval (C.approval_json a) ≡ ok a)
  Loads _ = Unit

  record IsSimulated (c : Transaction) (t : Rows P) (records : Records) : Type 0 where
    answers : claim_answers c t ≡ memory_answers (calls_of c t) records
    after : Refines P C (commit P C c t) (perform_all (calls_of c t) records)

  -- A transaction that may fail.
  write-IsSimulated :
      (c : Transaction) (m : SingleUse.Call) (r : Result Exn (Unit {0})) (t : Rows P)
      (records : Records)
      → calls_of c t ≡ when_ok r m
      → claim_answers c t ≡ []
      → claim_answer m records ≡ []
      → (r ≡ ok tt → Refines P C (commit P C c t) (perform m records))
      → ((e : Exn) → r ≡ err e → commit P C c t ≡ t)
      → Refines P C t records
      → IsSimulated c t records
  unfolding when_ok memory_answers perform_all
  write-IsSimulated c m (ok _) t records calls none_now none_then kept left r = record {
    answers = rw (calls, none_now, memory_answers, none_then) refl;
    after = rw (calls, perform_all) (kept refl);
  }
  write-IsSimulated c m (err e) t records calls none_now none_then kept left r = record {
    answers = rw (calls, none_now, memory_answers) refl;
    after = rw (calls, perform_all, left e refl) r;
  }

  step-IsSimulated :
      (c : Transaction) (t : Rows P) (records : Records)
      → Loads c
      → Refines P C t records
      → IsSimulated c t records
  unfolding calls_of memory_answers perform_all perform commit
  step-IsSimulated (add d a authority now) t records (h, k) r =
      write-IsSimulated (add d a authority now) (SingleUse.add d a) _ t records refl refl refl
        (λ e.
          add_approved-Refines P C d a authority now t _ records r h k
            (ap (λ o. (o, (Durable.add_approved P C d a authority now t).1)) e))
        (λ e h. add_approved-err P C d a authority now t e h) r
  step-IsSimulated (replace authority now) t records l r = record {
    answers = refl;
    after = record { at = λ i. rw (replace_authority-warrants P C authority now t) (r.at i) };
  }
  step-IsSimulated (claim i v clock) t records l r =
      let agree = claim_warrant-Agree P C i v clock t records r in
      record { answers = ap (λ o. o ∷ []) agree.answer; after = agree.after }
  step-IsSimulated (complete i result clock) t records l r =
      write-IsSimulated (complete i result clock) (SingleUse.complete i result) _ t records refl
        refl refl
        (λ e.
          finish-Refines P C i result clock t _ records r
            (ap (λ o. (o, (Claiming.finish P C i result clock t).1)) e))
        (λ e h. finish-err P C i result clock t e h) r

  -- The store in the database refines the store in memory: from rows that refine records, the claims
  -- of any transactions, in the order in which they commit, are answered as the claims of the
  -- calls that the transactions stand for are answered in memory, and the rows refine the
  -- records again. The documents that are added must load from their canonical bytes.
  pub durable_answers-Refines :
      (cs : List Transaction) (t : Rows P) (records : Records)
      → All Loads cs
      → Refines P C t records
      → (durable_answers cs t ≡ memory_answers (all_calls cs t) records)
        × Refines P C (commit_all cs t) (perform_all (all_calls cs t) records)
  unfolding durable_answers all_calls commit_all memory_answers perform_all
  durable_answers-Refines [] t records l r = (refl, r)
  durable_answers-Refines (c ∷ cs) t records (l, ls) r =
      let step = step-IsSimulated c t records l r in
      let (answers, after) = durable_answers-Refines cs (commit P C c t) _ ls step.after in
      (
        rw
            (
              memory_answers-append (calls_of c t) (all_calls cs (commit P C c t)) records,
              step.answers,
              answers,
            )
            refl,
        rw (perform_all-append (calls_of c t) (all_calls cs (commit P C c t)) records) after,
      )
