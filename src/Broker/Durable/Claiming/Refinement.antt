-- ===== src/Broker/Durable/Claiming/Refinement.antt =====
-- When the store in the database refines the store in memory, and that a claim keeps it.
use mathlib.Core.Option
use cross_patch.Prelude.{
  ℕ, String, ◌≡◌, refl, sym, subst, true, ◌||◌, Option, none, some, Result, ok, err, inl, inr,
  lookup, insert, lookup-insert, str_eq, eq_iff, ltb, arith, Bool-cases, ◌>>=◌,
}
use cross_patch.Broker.Documents.{
  Reading, naive, aware, WarrantDocument, WarrantApproval, AuthoritySnapshot, WarrantState,
}
use cross_patch.Broker.Primitives.{Primitives, Exn, policy_rejected, tamper_rejected, value_error}
use cross_patch.Broker.Parsing.{Codec, parse_authority_json}
use cross_patch.Broker.Store
use cross_patch.Broker.Store.{
  StoredWarrant, Records, ClaimOutcome, Validator, AuthorityLoader, claimed, rejection, message_or,
  conclude, present, by_state, in_state, finish_record,
}
use cross_patch.Broker.Durable.Claiming
use cross_patch.Broker.Durable.Claiming.{
  stored_documents, bindings_match, judge, judge_documents, judge_authority, judge_validated,
  settle, claim_row, finish_row,
}
use cross_patch.Broker.Durable.{WarrantRow, AuthorityRow, Rows}

module _ (P : Primitives) (C : Codec P) where
  -- The row's documents load as the warrant's, its columns repeat the document, the states are the
  -- same, and the row's result is the canonical JSON of the warrant's, if it has one.
  pub record IsStored (i : String) (row : WarrantRow P) (w : StoredWarrant) : Type 0 where
    pub loads : stored_documents P C row ≡ ok (w.document, w.approval)
    pub bound : bindings_match P C i row w.document ≡ true
    pub state : row.state ≡ w.state
    pub result : row.result_json ≡ Option.map C.result_json w.result

  abbrev pub IsImage : String → Option (WarrantRow P) → Option StoredWarrant → Type 0
  IsImage i none none = Unit
  IsImage i (some row) (some w) = IsStored i row w
  IsImage i _ _ = ⊥

  pub record Refines (t : Rows P) (records : Records) : Type 0 where
    pub at : (i : String) → IsImage i (lookup i t.warrants) (lookup i records)

  -- The same answer, and stores that still refine each other.
  pub record Agree {A : Type 0} (p : Result Exn A × Rows P) (q : Result Exn A × Records)
      : Type 0 where
    pub answer : p.0 ≡ q.0
    pub after : Refines p.1 q.1

  pub insert-Refines :
      (i : String) (row : WarrantRow P) (w : StoredWarrant) (t : Rows P) (records : Records)
      → IsStored i row w
      → Refines t records
      → Refines (record t { warrants = insert i row t.warrants }) (insert i w records)
  insert-Refines i row w t records s r = record {
    at = λ j.
        rw (lookup-insert i j row t.warrants, lookup-insert i j w records)
          (elim (Bool-cases (str_eq i j)) [
            | inl e ↦ rw e (subst (λ k. IsStored k row w) ((eq_iff i j).0 e) s)
            | inr e ↦ rw e (r.at j)
          ]);
  }

  -- A change of the columns that carry neither documents nor indices.
  moved :
      {i : String} {row : WarrantRow P} {w : StoredWarrant} (s : WarrantState) (now : ℕ)
      → IsStored i row w
      → IsStored i (record row { state = s; updated_at = now }) (in_state w s)
  unfolding in_state stored_documents bindings_match
  moved s now h = record { loads = h.loads; bound = h.bound; state = refl; result = h.result }

  -- The same outcome of the validator is written the same way.
  settle-conclude :
      (i : String) (now : ℕ) (row : WarrantRow P) (w : StoredWarrant) (t : Rows P)
      (records : Records) (r : Result Exn AuthoritySnapshot)
      → IsStored i row w
      → Refines t records
      → Agree
          (settle P C i now row t (judge_validated P C w.document w.approval r))
          (conclude i w r records)
  unfolding settle judge_validated conclude in_state stored_documents bindings_match
  settle-conclude i now row w t records (ok a) s r = record {
    answer = refl;
    after =
        insert-Refines i _ _ t records
          (record { loads = s.loads; bound = s.bound; state = refl; result = s.result }) r;
  }
  settle-conclude i now row w t records (err (policy_rejected m)) s r = record {
    answer = refl;
    after = insert-Refines i _ _ t records (moved WarrantState.rejected now s) r;
  }
  settle-conclude i now row w t records (err (tamper_rejected m)) s r = record {
    answer = refl;
    after = insert-Refines i _ _ t records (moved WarrantState.rejected now s) r;
  }
  settle-conclude i now row w t records (err (value_error m)) s r = record {
    answer = refl;
    after = insert-Refines i _ _ t records (moved WarrantState.rejected now s) r;
  }
  settle-conclude i now row w t records (err _) s r = record { answer = refl; after = r }

  loaded : Option (AuthorityRow P) → Result Exn AuthoritySnapshot
  loaded none = err (value_error "AUTHORITY_SNAPSHOT_MISSING")
  loaded (some authority) = parse_authority_json P C authority.snapshot_json

  row_authority : Rows P → Option (WarrantRow P) → Result Exn AuthoritySnapshot
  unfolding loaded
  row_authority t none = err (value_error "AUTHORITY_SNAPSHOT_MISSING")
  row_authority t (some row) = loaded (lookup row.incident_id t.authorities)

  -- The loader that reads the authority which the database publishes for the warrant's incident.
  pub published_loader : Rows P → AuthorityLoader
  unfolding row_authority
  published_loader t i = row_authority t (lookup i t.warrants)

  judge_authority-loaded :
      (v : Validator) (now : ℕ) (d : WarrantDocument) (a : WarrantApproval)
      (o : Option (AuthorityRow P))
      → judge_authority P C v now d a o
        ≡ judge_validated P C d a (loaded o >>= λ authority. v d a now authority)
  unfolding judge_authority loaded judge_validated message_or
  judge_authority-loaded v now d a none = refl
  judge_authority-loaded v now d a (some authority) = refl

  published_loader-found :
      (i : String) (row : WarrantRow P) (w : StoredWarrant) (t : Rows P)
      → IsStored i row w
      → lookup i t.warrants ≡ some row
      → published_loader t w.document.warrant_id ≡ loaded (lookup row.incident_id t.authorities)
  unfolding published_loader row_authority bindings_match
  published_loader-found i row w t s e =
      let same : i ≡ w.document.warrant_id =
        (eq_iff i w.document.warrant_id).0 (ground (arith, s.bound)) in
      rw (← same, e) refl

  same_end :
      (i : String) (row : WarrantRow P) (d : WarrantDocument) (now : ℕ)
      → bindings_match P C i row d ≡ true
      → (ltb row.expires_at now || ltb d.expires_at now) ≡ ltb d.expires_at now
  unfolding bindings_match
  same_end i row d now h = ground arith

  judge-present :
      (i : String) (v : Validator) (now : ℕ) (row : WarrantRow P) (w : StoredWarrant) (t : Rows P)
      (records : Records)
      → IsStored i row w
      → Refines t records
      → lookup i t.warrants ≡ some row
      → Agree
          (settle P C i now row t (judge P C i v now row t.authorities))
          (present i v (published_loader t) (aware now) w records)
  unfolding judge judge_documents judge_authority present settle in_state
  judge-present i v now row w t records s r e =
      rw (s.loads, s.bound, same_end i row w.document now s.bound, judge, judge_documents)
        (elim (Bool-cases (ltb w.document.expires_at now)) [
          | inl late ↦ rw late (record {
            answer = refl;
            after = insert-Refines i _ _ t records (moved WarrantState.expired now s) r;
          })
          | inr timely ↦
              rw
                (
                  timely,
                  judge_authority-loaded v now w.document w.approval,
                  published_loader-found i row w t s e,
                )
                (settle-conclude i now row w t records _ s r)
        ])

  pub reading : Option ℕ → Reading
  reading none = naive 0
  reading (some now) = aware now

  claim_row-by_state :
      (state : WarrantState) (i : String) (v : Validator) (clock : Option ℕ) (row : WarrantRow P)
      (w : StoredWarrant) (t : Rows P) (records : Records)
      → IsStored i row w
      → Refines t records
      → lookup i t.warrants ≡ some row
      → Agree
          (claim_row P C state i v clock row t)
          (by_state state i v (published_loader t) (reading clock) w records)
  unfolding claim_row by_state reading present
  claim_row-by_state WarrantState.approved i v none row w t records s r e = record {
    answer = refl;
    after = r;
  }
  claim_row-by_state WarrantState.approved i v (some now) row w t records s r e =
      judge-present i v now row w t records s r e
  claim_row-by_state _ i v clock row w t records s r e = record { answer = refl; after = r }

  -- A claim in the database gives the answer of a claim in memory.
  pub claim_warrant-Agree :
      (i : String) (v : Validator) (clock : Option ℕ) (t : Rows P) (records : Records)
      → Refines t records
      → Agree
          (Claiming.claim_warrant P C i v clock t)
          (Store.claim_warrant i v (published_loader t) (reading clock) records)
  unfolding Claiming.claim_warrant Store.claim_warrant
  claim_warrant-Agree i v clock t records r =
      both (lookup i t.warrants) (lookup i records) refl refl (r.at i)
    where
      both :
          (o : Option (WarrantRow P)) (q : Option StoredWarrant)
          → lookup i t.warrants ≡ o
          → lookup i records ≡ q
          → IsImage i o q
          → Agree
              (Claiming.claim_warrant P C i v clock t)
              (Store.claim_warrant i v (published_loader t) (reading clock) records)
      both none none e f s =
          rw (e, f, Claiming.claim_warrant, Store.claim_warrant)
            (record { answer = refl; after = r })
      both (some row) none e f s = absurd s
      both none (some w) e f s = absurd s
      both (some row) (some w) e f s =
          rw (e, f, Claiming.claim_warrant, Store.claim_warrant)
            (subst
              (λ state.
                Agree (claim_row P C state i v clock row t)
                  (by_state w.state i v (published_loader t) (reading clock) w records))
              (sym s.state) (claim_row-by_state w.state i v clock row w t records s r e))
