-- ===== src/Broker/Durable/Claiming/SingleUse.antt =====
-- A stored warrant is claimed at most once, whatever transactions the database runs.
use cross_patch.Prelude.{
  ℕ, ◌+◌, ◌≤◌, String, ◌≡◌, refl, Option, none, some, List, [], ◌∷◌, Result, ok, Dict, lookup,
  lookup-insert, eq_iff, str_eq, arith, if◌then◌else◌, Option-cases, inl, inr, if_elim, not,
}
use cross_patch.Broker.Documents.{
  WarrantDocument, WarrantApproval, AuthoritySnapshot, WarrantState, BrokerResult,
}
use cross_patch.Broker.Primitives.{Primitives, Exn}
use cross_patch.Broker.Parsing.{Codec}
use cross_patch.Broker.Store.{ClaimOutcome, claimed, Validator}
use cross_patch.Broker.Durable.{
  WarrantRow, AuthorityRow, Rows, add_approved, replace_authority, added, fresh_row, has_nonce,
}
use cross_patch.Broker.Durable.Claiming.{
  Judgement, rejects, expires, accepts, raises, judge, settle, claim_row, claim_warrant, finish_row,
  finish,
}

-- The transactions of approvers, publishers and brokers, in the order in which they commit.
pub data Transaction : Type 0 where
  add : WarrantDocument → WarrantApproval → AuthoritySnapshot → (now : ℕ) → Transaction
  replace : AuthoritySnapshot → (now : ℕ) → Transaction
  claim : String → Validator → (clock : Option ℕ) → Transaction
  complete : String → BrokerResult → (clock : Option ℕ) → Transaction

abbrev won : Result Exn ClaimOutcome → ℕ
won (ok (claimed _ _ _)) = 1
won _ = 0

abbrev open_state : WarrantState → ℕ
open_state WarrantState.approved = 1
open_state _ = 0

module _ (P : Primitives) (C : Codec P) where
  unfoldable pub commit : Transaction → Rows P → Rows P
  commit (add d a authority now) t = (add_approved P C d a authority now t).1
  commit (replace authority now) t = (replace_authority P C authority now t).1
  commit (claim i v clock) t = (claim_warrant P C i v clock t).1
  commit (complete i result clock) t = (finish P C i result clock t).1

  -- 1 if the transaction is a claim of the warrant `i` that succeeds.
  pub claims : String → Transaction → Rows P → ℕ
  claims i (claim j v clock) t = if str_eq j i then won (claim_warrant P C j v clock t).0 else 0
  claims i _ t = 0

  pub total_claims : String → List Transaction → Rows P → ℕ
  total_claims i [] t = 0
  total_claims i (c ∷ cs) t = claims i c t + total_claims i cs (commit c t)

  abbrev open_slot : Option (WarrantRow P) → ℕ
  open_slot none = 1
  open_slot (some row) = open_state row.state

  -- While the slot of `i` is open, one claim may still succeed.
  abbrev Closes : String → ℕ → Rows P → Rows P → Type 0
  Closes i n t u = n + open_slot (lookup i u.warrants) ≤ open_slot (lookup i t.warrants)

  settle-Closes :
      (i j : String) (now : ℕ) (row : WarrantRow P) (t : Rows P) (x : Judgement)
      → lookup j t.warrants ≡ some row
      → row.state ≡ WarrantState.approved
      → Closes i
          (if str_eq j i then won (settle P C j now row t x).0 else 0)
          t
          (settle P C j now row t x).1
  unfolding settle
  settle-Closes i j now row t (rejects status code) e s =
      rw lookup-insert (ground (arith, eq_iff j i))
  settle-Closes i j now row t expires e s = rw lookup-insert (ground (arith, eq_iff j i))
  settle-Closes i j now row t (accepts d a authority) e s =
      rw lookup-insert (ground (arith, eq_iff j i))
  settle-Closes i j now row t (raises x) e s = ground arith

  unchanged-Closes : (i j : String) (t : Rows P) → Closes i (if str_eq j i then 0 else 0) t t
  unchanged-Closes i j t = ground arith

  claim_row-Closes :
      (s : WarrantState) (i j : String) (v : Validator) (clock : Option ℕ) (row : WarrantRow P)
      (t : Rows P)
      → lookup j t.warrants ≡ some row
      → row.state ≡ s
      → Closes i
          (if str_eq j i then won (claim_row P C s j v clock row t).0 else 0)
          t
          (claim_row P C s j v clock row t).1
  unfolding claim_row
  claim_row-Closes WarrantState.approved i j v none row t e s = unchanged-Closes i j t
  claim_row-Closes WarrantState.approved i j v (some now) row t e s =
      settle-Closes i j now row t (judge P C j v now row t.authorities) e s
  claim_row-Closes _ i j v clock row t e s = unchanged-Closes i j t

  claim-Closes :
      (i j : String) (v : Validator) (clock : Option ℕ) (t : Rows P)
      → Closes i (claims i (claim j v clock) t) t (commit (claim j v clock) t)
  unfolding claims commit claim_warrant
  claim-Closes i j v clock t = elim (Option-cases (lookup j t.warrants)) [
    | inl e ↦ rw (commit, e, claim_warrant) (unchanged-Closes i j t)
    | inr (row, e) ↦
        rw (commit, e, claim_warrant) (claim_row-Closes row.state i j v clock row t e refl)
  ]

  finish_row-Closes :
      (s : WarrantState) (i j : String) (result : BrokerResult) (clock : Option ℕ)
      (row : WarrantRow P) (t : Rows P)
      → lookup j t.warrants ≡ some row
      → row.state ≡ s
      → Closes i 0 t (finish_row P C s j result clock row t).1
  unfolding finish_row
  finish_row-Closes WarrantState.consuming i j result none row t e s = omega arith
  finish_row-Closes WarrantState.consuming i j result (some now) row t e s =
      rw lookup-insert (ground (arith, eq_iff j i))
  finish_row-Closes _ i j result clock row t e s = omega arith

  finish-Closes :
      (i j : String) (result : BrokerResult) (clock : Option ℕ) (t : Rows P)
      → Closes i 0 t (commit (complete j result clock) t)
  unfolding commit finish
  finish-Closes i j result clock t = elim (Option-cases (lookup j t.warrants)) [
    | inl e ↦ rw (commit, e, finish) (omega arith)
    | inr (row, e) ↦
        rw (commit, e, finish) (finish_row-Closes row.state i j result clock row t e refl)
  ]

  added-Closes :
      (i : String) (d : WarrantDocument) (row : WarrantRow P) (authorities : Dict (AuthorityRow P))
      (t : Rows P)
      → Closes i 0 t (added P C d row authorities t).1
  unfolding added
  added-Closes i d row authorities t = elim (Option-cases (lookup d.warrant_id t.warrants)) [
    | inr (old, e) ↦ rw (e, added) (omega arith)
    | inl e ↦
        rw (e, added)
          (if_elim (λ (p : Result Exn (Unit {0}) × Rows P). Closes i 0 t p.1)
            (has_nonce P row.nonce_sha256 t.warrants) (λ _. omega arith)
            (λ _. rw lookup-insert (ground (arith, eq_iff d.warrant_id i))))
  ]

  add-Closes :
      (i : String) (d : WarrantDocument) (a : WarrantApproval) (authority : AuthoritySnapshot)
      (now : ℕ) (t : Rows P)
      → Closes i 0 t (commit (add d a authority now) t)
  unfolding commit add_approved
  add-Closes i d a authority now t =
      if_elim (λ (p : Result Exn (Unit {0}) × Rows P). Closes i 0 t p.1)
        (not (str_eq d.incident_id authority.incident_id)) (λ _. omega arith)
        (λ _. added-Closes i d (fresh_row P C d a now) _ t)

  replace-Closes :
      (i : String) (authority : AuthoritySnapshot) (now : ℕ) (t : Rows P)
      → Closes i 0 t (commit (replace authority now) t)
  unfolding commit replace_authority
  replace-Closes i authority now t =
      elim (Option-cases (lookup authority.incident_id t.authorities)) [
        | inl e ↦ rw (commit, e, replace_authority) (omega arith)
        | inr (row, e) ↦ rw (commit, e, replace_authority) (omega arith)
      ]

  commit-Closes :
      (i : String) (c : Transaction) (t : Rows P) → Closes i (claims i c t) t (commit c t)
  unfolding claims
  commit-Closes i (add d a authority now) t = add-Closes i d a authority now t
  commit-Closes i (replace authority now) t = replace-Closes i authority now t
  commit-Closes i (claim j v clock) t = claim-Closes i j v clock t
  commit-Closes i (complete j result clock) t = finish-Closes i j result clock t

  total_claims-le :
      (i : String) (cs : List Transaction) (t : Rows P)
      → total_claims i cs t ≤ open_slot (lookup i t.warrants)
  unfolding total_claims
  total_claims-le i [] t = omega arith
  total_claims-le i (c ∷ cs) t =
      omega (arith, commit-Closes i c t, total_claims-le i cs (commit c t))

  open_slot-le : (o : Option (WarrantRow P)) → open_slot o ≤ 1
  open_slot-le o = ground arith

  -- From any rows on, whatever transactions add warrants, replace authorities, claim and finish, in
  -- whatever order they commit, at most one claim of a warrant in the database succeeds.
  pub durable_single_use :
      (i : String) (cs : List Transaction) (t : Rows P) → total_claims i cs t ≤ 1
  durable_single_use i cs t =
      omega (arith, total_claims-le i cs t, open_slot-le (lookup i t.warrants))
