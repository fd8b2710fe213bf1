-- ===== src/Broker/Durable/Claiming/Nonces.antt =====
-- No two stored warrants share a nonce.
use cross_patch.Prelude.{
  ℕ, String, ◌≡◌, ◌≢◌, refl, sym, ap, ◌∙◌, false, not, Option, none, some, [], ◌∷◌, Result, Dict,
  lookup, insert, lookup-insert, eq_iff, eq_refl, str_eq, arith, if◌then◌else◌, Bool-cases,
  Option-cases, inl, inr, ◌⊎◌, if_elim,
}
use cross_patch.Broker.Documents.{WarrantDocument, WarrantState, BrokerResult}
use cross_patch.Broker.Primitives.{Primitives, Exn}
use cross_patch.Broker.Parsing.{Codec}
use cross_patch.Broker.Store.{Validator}
use cross_patch.Broker.Durable.{
  WarrantRow, AuthorityRow, Rows, add_approved, replace_authority, added, fresh_row, has_nonce,
}
use cross_patch.Broker.Durable.Claiming.{
  Judgement, rejects, expires, accepts, raises, judge, settle, claim_row, claim_warrant, finish_row,
  finish,
}
use cross_patch.Broker.Durable.Claiming.SingleUse.{
  Transaction, add, replace, claim, complete, commit,
}

module _ (P : Primitives) where
  -- Rows with one nonce are one row.
  pub record HasDistinctNonces (ws : Dict (WarrantRow P)) : Type 0 where
    pub at :
        (i j : String) (w x : WarrantRow P)
        → lookup i ws ≡ some w
        → lookup j ws ≡ some x
        → w.nonce_sha256 ≡ x.nonce_sha256
        → i ≡ j

  inserted :
      (k i : String) (row w : WarrantRow P) (ws : Dict (WarrantRow P))
      → lookup i (insert k row ws) ≡ some w
      → ((k ≡ i) × (row ≡ w)) ⊎ ((str_eq k i ≡ false) × (lookup i ws ≡ some w))
  inserted k i row w ws h =
      let e : (if str_eq k i then some row else lookup i ws) ≡ some w =
        sym (lookup-insert k i row ws) ∙ h in
      elim (Bool-cases (str_eq k i)) [
        | inl same ↦ inl ((eq_iff k i).0 same, cc (rw same at e))
        | inr other ↦ inr (other, rw other at e)
      ]

  insert-HasDistinctNonces :
      (k : String) (row : WarrantRow P) (ws : Dict (WarrantRow P))
      → ((j : String) (x : WarrantRow P)
          → lookup j ws ≡ some x
          → str_eq k j ≡ false
          → row.nonce_sha256 ≢ x.nonce_sha256)
      → HasDistinctNonces ws
      → HasDistinctNonces (insert k row ws)
  insert-HasDistinctNonces k row ws h d = record {
    at = λ i j w x p q n. elim (inserted k i row w ws p) [
      | inl (ki, wr) ↦ elim (inserted k j row x ws q) [
        | inl (kj, _) ↦ sym ki ∙ kj
        | inr (kj, found) ↦ absurd (h j x found kj (ap (λ r. r.nonce_sha256) wr ∙ n))
      ]
      | inr (ki, found) ↦ elim (inserted k j row x ws q) [
        | inl (kj, rx) ↦ absurd (h i w found ki (ap (λ r. r.nonce_sha256) rx ∙ sym n))
        | inr (kj, second) ↦ d.at i j w x found second n
      ]
    ];
  }

  -- An update that keeps the nonce.
  updated-HasDistinctNonces :
      (k : String) (old row : WarrantRow P) (ws : Dict (WarrantRow P))
      → lookup k ws ≡ some old
      → old.nonce_sha256 ≡ row.nonce_sha256
      → HasDistinctNonces ws
      → HasDistinctNonces (insert k row ws)
  updated-HasDistinctNonces k old row ws found kept d =
      insert-HasDistinctNonces k row ws
        (λ j x second other n.
          cc (other, ap (str_eq k) (d.at k j old x found second (kept ∙ n)), eq_refl k))
        d

  has_nonce-lookup :
      (n j : String) (x : WarrantRow P) (ws : Dict (WarrantRow P))
      → has_nonce P n ws ≡ false
      → lookup j ws ≡ some x
      → n ≢ x.nonce_sha256
  unfolding has_nonce lookup
  has_nonce-lookup n j x [] h q e = cc q
  has_nonce-lookup n j x ((k, w) ∷ ws) h q e =
      ground (arith, has_nonce-lookup n j x ws, eq_iff w.nonce_sha256 n)

  module _ (C : Codec P) where
    settle-HasDistinctNonces :
        (i : String) (now : ℕ) (row : WarrantRow P) (t : Rows P) (x : Judgement)
        → lookup i t.warrants ≡ some row
        → HasDistinctNonces t.warrants
        → HasDistinctNonces (settle P C i now row t x).1.warrants
    unfolding settle
    settle-HasDistinctNonces i now row t (rejects status code) e d =
        updated-HasDistinctNonces i row _ t.warrants e refl d
    settle-HasDistinctNonces i now row t expires e d =
        updated-HasDistinctNonces i row _ t.warrants e refl d
    settle-HasDistinctNonces i now row t (accepts x a authority) e d =
        updated-HasDistinctNonces i row _ t.warrants e refl d
    settle-HasDistinctNonces i now row t (raises x) e d = d

    claim_row-HasDistinctNonces :
        (s : WarrantState) (i : String) (v : Validator) (clock : Option ℕ) (row : WarrantRow P)
        (t : Rows P)
        → lookup i t.warrants ≡ some row
        → HasDistinctNonces t.warrants
        → HasDistinctNonces (claim_row P C s i v clock row t).1.warrants
    unfolding claim_row
    claim_row-HasDistinctNonces WarrantState.approved i v none row t e d = d
    claim_row-HasDistinctNonces WarrantState.approved i v (some now) row t e d =
        settle-HasDistinctNonces i now row t (judge P C i v now row t.authorities) e d
    claim_row-HasDistinctNonces _ i v clock row t e d = d

    finish_row-HasDistinctNonces :
        (s : WarrantState) (i : String) (result : BrokerResult) (clock : Option ℕ)
        (row : WarrantRow P) (t : Rows P)
        → lookup i t.warrants ≡ some row
        → HasDistinctNonces t.warrants
        → HasDistinctNonces (finish_row P C s i result clock row t).1.warrants
    unfolding finish_row
    finish_row-HasDistinctNonces WarrantState.consuming i result none row t e d = d
    finish_row-HasDistinctNonces WarrantState.consuming i result (some now) row t e d =
        updated-HasDistinctNonces i row _ t.warrants e refl d
    finish_row-HasDistinctNonces _ i result clock row t e d = d

    added-HasDistinctNonces :
        (x : WarrantDocument) (row : WarrantRow P) (authorities : Dict (AuthorityRow P))
        (t : Rows P)
        → HasDistinctNonces t.warrants
        → HasDistinctNonces (added P C x row authorities t).1.warrants
    unfolding added
    added-HasDistinctNonces x row authorities t d =
        elim (Option-cases (lookup x.warrant_id t.warrants)) [
          | inr (old, e) ↦ rw (e, added) d
          | inl e ↦
              rw (e, added)
                (if_elim (λ (p : Result Exn (Unit {0}) × Rows P). HasDistinctNonces p.1.warrants)
                  (has_nonce P row.nonce_sha256 t.warrants) (λ _. d)
                  (λ fresh.
                    insert-HasDistinctNonces x.warrant_id row t.warrants
                      (λ j y found _. has_nonce-lookup row.nonce_sha256 j y t.warrants fresh found)
                      d))
        ]

    -- Every transaction, whether it commits or fails, keeps the rows such that no two of them share
    -- a nonce.
    pub commit-HasDistinctNonces :
        (c : Transaction) (t : Rows P)
        → HasDistinctNonces t.warrants
        → HasDistinctNonces (commit P C c t).warrants
    unfolding commit add_approved replace_authority claim_warrant finish
    commit-HasDistinctNonces (add x a authority now) t d =
        if_elim (λ (p : Result Exn (Unit {0}) × Rows P). HasDistinctNonces p.1.warrants)
          (not (str_eq x.incident_id authority.incident_id)) (λ _. d)
          (λ _. added-HasDistinctNonces x (fresh_row P C x a now) _ t d)
    commit-HasDistinctNonces (replace authority now) t d =
        elim (Option-cases (lookup authority.incident_id t.authorities)) [
          | inl e ↦ rw (commit, e, replace_authority) d
          | inr (row, e) ↦ rw (commit, e, replace_authority) d
        ]
    commit-HasDistinctNonces (claim i v clock) t d = elim (Option-cases (lookup i t.warrants)) [
      | inl e ↦ rw (commit, e, claim_warrant) d
      | inr (row, e) ↦
          rw (commit, e, claim_warrant) (claim_row-HasDistinctNonces row.state i v clock row t e d)
    ]
    commit-HasDistinctNonces (complete i result clock) t d =
        elim (Option-cases (lookup i t.warrants)) [
          | inl e ↦ rw (commit, e, finish) d
          | inr (row, e) ↦
              rw (commit, e, finish)
                (finish_row-HasDistinctNonces row.state i result clock row t e d)
        ]
