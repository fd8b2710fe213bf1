-- ===== src/Broker/Durable/Claiming/Writes.antt =====
-- What the database adds or finishes, the store in memory adds or finishes.
use cross_patch.Prelude.{
  Option-cases, err, ℕ, String, ◌≡◌, refl, subst, ap, Option, none, some, ok, inl, inr, Dict,
  lookup, insert, str_eq, eq_refl, arith, Bool-cases,
}
use cross_patch.Broker.Documents.{
  WarrantDocument, WarrantApproval, AuthoritySnapshot, WarrantState, BrokerResult,
}
use cross_patch.Broker.Primitives.{Exn, Primitives}
use cross_patch.Broker.Parsing.{Codec}
use cross_patch.Broker.Store
use cross_patch.Broker.Store.{
  StoredWarrant, Records, ClaimOutcome, Validator, AuthorityLoader, claimed, rejection, message_or,
  conclude, present, by_state, in_state, finish_record,
}
use cross_patch.Broker.Durable.Claiming
use cross_patch.Broker.Durable.Claiming.{
  stored_documents, bindings_match, judge, judge_documents, judge_authority, judge_validated,
  settle, claim_row, finish_row,
}
use cross_patch.Broker.Durable
use cross_patch.Broker.Durable.{fresh_row, added, WarrantRow, AuthorityRow, Rows, nonce_digest}
use cross_patch.Broker.Durable.Claiming.Liveness.{parse_warrant_json_self, parse_approval_json_self}
use cross_patch.Broker.Durable.Claiming.Refinement.{IsStored, IsImage, Refines, insert-Refines}

module _ (P : Primitives) (C : Codec P) where
  finish_row-Refines :
      (state : WarrantState) (i : String) (result : BrokerResult) (clock : Option ℕ)
      (row : WarrantRow P) (w : StoredWarrant) (t u : Rows P) (records : Records)
      → IsStored P C i row w
      → Refines P C t records
      → finish_row P C state i result clock row t ≡ (ok tt, u)
      → Refines P C u (finish_record state i result w records).1
  unfolding finish_row finish_record stored_documents bindings_match
  finish_row-Refines WarrantState.consuming i result none row w t u records s r h = absurd (cc h)
  finish_row-Refines WarrantState.consuming i result (some now) row w t u records s r h =
      subst
        (λ v.
          Refines P C v
            (insert i (record w { result = some result; state = WarrantState.consumed }) records))
        (ap (λ p. p.1) h)
        (insert-Refines P C i _ _ t records
          (record { loads = s.loads; bound = s.bound; state = refl; result = refl }) r)
  finish_row-Refines _ i result clock row w t u records s r h = absurd (cc h)

  -- What `finish` returns in the database, it returns in memory.
  pub finish-Refines :
      (i : String) (result : BrokerResult) (clock : Option ℕ) (t u : Rows P) (records : Records)
      → Refines P C t records
      → Claiming.finish P C i result clock t ≡ (ok tt, u)
      → Refines P C u (Store.finish i result records).1
  unfolding Claiming.finish Store.finish
  finish-Refines i result clock t u records r h =
      both (lookup i t.warrants) (lookup i records) refl refl (r.at i)
    where
      both :
          (o : Option (WarrantRow P)) (q : Option StoredWarrant)
          → lookup i t.warrants ≡ o
          → lookup i records ≡ q
          → IsImage P C i o q
          → Refines P C u (Store.finish i result records).1
      both none none e f s = absurd (cc (rw (e, Claiming.finish) at h))
      both (some row) none e f s = absurd s
      both none (some w) e f s = absurd s
      both (some row) (some w) e f s =
          rw (f, Store.finish)
            (subst (λ state. Refines P C u (finish_record state i result w records).1) s.state
              (finish_row-Refines row.state i result clock row w t u records s r
                (rw (e, Claiming.finish) at h)))

  fresh-loads :
      (d : WarrantDocument) (a : WarrantApproval) (now : ℕ)
      → C.load_warrant (P.warrant_json d) ≡ ok d
      → C.load_approval (C.approval_json a) ≡ ok a
      → stored_documents P C (fresh_row P C d a now) ≡ ok (d, a)
  unfolding stored_documents fresh_row
  fresh-loads d a now h k =
      rw (parse_warrant_json_self P C d h, parse_approval_json_self P C a k) refl

  fresh-IsStored :
      (d : WarrantDocument) (a : WarrantApproval) (now : ℕ)
      → stored_documents P C (fresh_row P C d a now) ≡ ok (d, a)
      → IsStored P C d.warrant_id
          (fresh_row P C d a now)
          (record { document = d; approval = a; state = WarrantState.approved; result = none })
  unfolding fresh_row bindings_match
  fresh-IsStored d a now h = record {
    loads = h;
    bound = ground (arith, eq_refl d.warrant_id, eq_refl d.incident_id, eq_refl (nonce_digest P d));
    state = refl;
    result = refl;
  }

  added-fresh :
      (d : WarrantDocument) (row : WarrantRow P) (authorities : Dict (AuthorityRow P))
      (t u : Rows P)
      → added P C d row authorities t ≡ (ok tt, u)
      → (lookup d.warrant_id t.warrants ≡ none) × (insert d.warrant_id row t.warrants ≡ u.warrants)
  unfolding added
  added-fresh d row authorities t u h = ground arith

  add_approved-fresh :
      (d : WarrantDocument) (a : WarrantApproval) (authority : AuthoritySnapshot) (now : ℕ)
      (t u : Rows P)
      → Durable.add_approved P C d a authority now t ≡ (ok tt, u)
      → (lookup d.warrant_id t.warrants ≡ none)
        × (insert d.warrant_id (fresh_row P C d a now) t.warrants ≡ u.warrants)
  unfolding Durable.add_approved
  add_approved-fresh d a authority now t u h =
      elim (Bool-cases (str_eq d.incident_id authority.incident_id)) [
        | inr other ↦ absurd (cc (rw (Durable.add_approved, other) at h))
        | inl same ↦ added-fresh d _ _ t u (rw (Durable.add_approved, same) at h)
      ]

  absent :
      (i : String) (t : Rows P) (records : Records)
      → Refines P C t records
      → lookup i t.warrants ≡ none
      → lookup i records ≡ none
  absent i t records r e = image (lookup i records) (rw e at (r.at i))
    where
      image : (q : Option StoredWarrant) → IsImage P C i none q → q ≡ none
      image none s = refl
      image (some w) s = absurd s

  -- A warrant that the database adds is added in memory.
  pub add_approved-Refines :
      (d : WarrantDocument) (a : WarrantApproval) (authority : AuthoritySnapshot) (now : ℕ)
      (t u : Rows P) (records : Records)
      → Refines P C t records
      → C.load_warrant (P.warrant_json d) ≡ ok d
      → C.load_approval (C.approval_json a) ≡ ok a
      → Durable.add_approved P C d a authority now t ≡ (ok tt, u)
      → Refines P C u (Store.add_approved d a records).1
  unfolding Durable.add_approved Store.add_approved added
  add_approved-Refines d a authority now t u records r loads_d loads_a h =
      let (fresh, written) = add_approved-fresh d a authority now t u h in
      let new =
        insert-Refines P C d.warrant_id (fresh_row P C d a now) _ t records
          (fresh-IsStored d a now (fresh-loads d a now loads_d loads_a)) r in
      rw (absent d.warrant_id t records r fresh, Store.add_approved)
        (record { at = λ j. rw (← written) (new.at j) })

  -- A transaction that fails leaves the rows as they were.
  added-err :
      (d : WarrantDocument) (row : WarrantRow P) (authorities : Dict (AuthorityRow P)) (t : Rows P)
      (e : Exn)
      → (added P C d row authorities t).0 ≡ err e
      → (added P C d row authorities t).1 ≡ t
  unfolding added
  added-err d row authorities t e h = ground arith

  pub add_approved-err :
      (d : WarrantDocument) (a : WarrantApproval) (authority : AuthoritySnapshot) (now : ℕ)
      (t : Rows P) (e : Exn)
      → (Durable.add_approved P C d a authority now t).0 ≡ err e
      → (Durable.add_approved P C d a authority now t).1 ≡ t
  unfolding Durable.add_approved
  add_approved-err d a authority now t e h =
      elim (Bool-cases (str_eq d.incident_id authority.incident_id)) [
        | inr other ↦ rw (other, Durable.add_approved) refl
        | inl same ↦
            rw (same, Durable.add_approved)
              (added-err d _ _ t e (rw (same, Durable.add_approved) at h))
      ]

  pub replace_authority-warrants :
      (authority : AuthoritySnapshot) (now : ℕ) (t : Rows P)
      → (Durable.replace_authority P C authority now t).1.warrants ≡ t.warrants
  unfolding Durable.replace_authority
  replace_authority-warrants authority now t = ground arith

  finish_row-err :
      (state : WarrantState) (i : String) (result : BrokerResult) (clock : Option ℕ)
      (row : WarrantRow P) (t : Rows P) (e : Exn)
      → (finish_row P C state i result clock row t).0 ≡ err e
      → (finish_row P C state i result clock row t).1 ≡ t
  unfolding finish_row
  finish_row-err WarrantState.consuming i result none row t e h = refl
  finish_row-err WarrantState.consuming i result (some now) row t e h = absurd (cc h)
  finish_row-err _ i result clock row t e h = refl

  pub finish-err :
      (i : String) (result : BrokerResult) (clock : Option ℕ) (t : Rows P) (e : Exn)
      → (Claiming.finish P C i result clock t).0 ≡ err e
      → (Claiming.finish P C i result clock t).1 ≡ t
  unfolding Claiming.finish
  finish-err i result clock t e h = elim (Option-cases (lookup i t.warrants)) [
    | inl absent ↦ rw (absent, Claiming.finish) refl
    | inr (row, found) ↦
        rw (found, Claiming.finish)
          (finish_row-err row.state i result clock row t e (rw (found, Claiming.finish) at h))
  ]
