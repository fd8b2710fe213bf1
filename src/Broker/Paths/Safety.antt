-- ===== src/Broker/Paths/Safety.antt =====
-- What a path that the policy accepts is.
use cross_patch.Prelude.{
  ◌≡◌, refl, sym, ◌∙◌, ap, ap₂, Bool, true, false, not, ◌||◌, List, [], ◌∷◌, Result, ok, ◌==◌,
  ==_iff, arith, raise_if, >>=-eq-ok, ◌>>=◌, All, codes, Bool-cases, inl, inr, if_elim,
}
use cross_patch.Broker.Paths.{
  Codes, path_policy_violation, codes_eq, member, any, as_posix, parts, is_absolute, is_protected,
  normalize_candidate_path, insert_path, sorted, codes_le, Repository, has_symlink, validate_path,
  validate_each, validate_patch_paths,
}

pub raised-false : {E : Type 0} (b : Bool) (e : E) → raise_if b e ≡ ok tt → b ≡ false
raised-false true e h = cc
raised-false false e h = refl

pub codes_eq→≡ : (xs ys : Codes) → codes_eq xs ys ≡ true → xs ≡ ys
unfolding codes_eq
codes_eq→≡ [] [] h = refl
codes_eq→≡ (a ∷ xs) (b ∷ ys) h =
    ap₂ (λ c cs. c ∷ cs) ((==_iff a b).0 (ground arith)) (codes_eq→≡ xs ys (ground arith))
codes_eq→≡ [] (b ∷ ys) h = cc
codes_eq→≡ (a ∷ xs) [] h = cc

pub codes_eq_refl : (xs : Codes) → codes_eq xs xs ≡ true
unfolding codes_eq
codes_eq_refl [] = refl
codes_eq_refl (a ∷ xs) = ground (arith, codes_eq_refl xs, ==_iff a a)

-- Unicode-normalized, relative, written as its parts, none of which is "..", and not protected.
pub record IsSafe (normalize : Codes → Codes) (p : Codes) : Type 0 where
  pub normal : normalize p ≡ p
  pub plain : any (λ c. c == 0 || c == 92) p ≡ false
  pub relative : is_absolute p ≡ false
  pub canonical : p ≡ as_posix p
  pub stays : member (codes "..") (parts p) ≡ false
  pub unprotected : is_protected p ≡ false

pub record IsNormalized (normalize : Codes → Codes) (value p : Codes) : Type 0 where
  pub same : p ≡ value
  pub normal : normalize p ≡ p
  pub plain : any (λ c. c == 0 || c == 92) p ≡ false
  pub relative : is_absolute p ≡ false
  pub canonical : p ≡ as_posix p
  pub stays : member (codes "..") (parts p) ≡ false

-- Inversion of a test that raises nothing.
pub after_raise_if :
    {E A : Type 0} (b : Bool) (e : E) (rest : Result E A) {a : A}
    → (raise_if b e >>= λ _. rest) ≡ ok a
    → (b ≡ false) × (rest ≡ ok a)
after_raise_if true e rest h = cc
after_raise_if false e rest h = (refl, h)

last_tests :
    (value : Codes) (p : Codes)
    → (raise_if
          (not (codes_eq value (as_posix value)) || member (codes "..") (parts value))
          path_policy_violation
        >>= λ _. ok (as_posix value))
      ≡ ok p
    → (codes_eq value (as_posix value) ≡ true)
      × (member (codes "..") (parts value) ≡ false)
      × (as_posix value ≡ p)
last_tests value p h = ground arith

pub normalize_candidate_path-IsNormalized :
    (normalize : Codes → Codes) (value p : Codes)
    → normalize_candidate_path normalize value ≡ ok p
    → IsNormalized normalize value p
unfolding normalize_candidate_path
normalize_candidate_path-IsNormalized normalize value p h =
    let (_, h1) = after_raise_if (codes_eq value []) _ _ h in
    let (normal, h2) = after_raise_if (not (codes_eq (normalize value) value)) _ _ h1 in
    let (plain, h3) = after_raise_if (any (λ c. c == 0 || c == 92) value) _ _ h2 in
    let (relative, h4) = after_raise_if (is_absolute value) _ _ h3 in
    let (canonical, stays, posix) = last_tests value p h4 in
    let same : p ≡ value = sym posix ∙ sym (codes_eq→≡ value (as_posix value) canonical) in
    rw same (record {
      same = refl;
      normal = codes_eq→≡ (normalize value) value (ground (arith, normal));
      plain = plain;
      relative = relative;
      canonical = codes_eq→≡ value (as_posix value) canonical;
      stays = stays;
    })

-- No part of the path is a link, and it resolves inside the repository.
pub record IsContained (r : Repository) (p : Codes) : Type 0 where
  pub unlinked : has_symlink r [] (parts p) ≡ false
  pub inside : r.resolves_inside p ≡ true

abbrev pub IsAllowed : (Codes → Codes) → Repository → Codes → Type 0
IsAllowed normalize r p = IsSafe normalize p × IsContained r p

module _ (normalize : Codes → Codes) (r : Repository) where
  validate_path-IsAllowed :
      (value p : Codes)
      → validate_path normalize r value ≡ ok p
      → (p ≡ value) × IsAllowed normalize r p
  unfolding validate_path
  validate_path-IsAllowed value p h =
      let (q, normalized, h1) = >>=-eq-ok (normalize_candidate_path normalize value) _ h in
      let n = normalize_candidate_path-IsNormalized normalize value q normalized in
      let (unprotected, h2) = after_raise_if (is_protected q) _ _ h1 in
      let (unlinked, h3) = after_raise_if (has_symlink r [] (parts q)) _ _ h2 in
      let (inside, h4) = after_raise_if (not (r.resolves_inside q)) _ _ h3 in
      let same : q ≡ p = cc in
      rw (← same) (
        n.same,
        (
          record {
            normal = n.normal;
            plain = n.plain;
            relative = n.relative;
            canonical = n.canonical;
            stays = n.stays;
            unprotected = unprotected;
          },
          record { unlinked = unlinked; inside = ground (arith, inside) },
        ),
      )

  validate_each-IsAllowed :
      (values ps : List Codes)
      → validate_each normalize r values ≡ ok ps
      → (ps ≡ values) × All (IsAllowed normalize r) ps
  unfolding validate_each
  validate_each-IsAllowed [] ps h = let same : [] ≡ ps = cc in rw (← same) (refl, tt)
  validate_each-IsAllowed (value ∷ values) ps h =
      let (p, valid, h1) = >>=-eq-ok (validate_path normalize r value) _ h in
      let (qs, rest, h2) = >>=-eq-ok (validate_each normalize r values) _ h1 in
      let (same, allowed) = validate_path-IsAllowed value p valid in
      let (sames, all_allowed) = validate_each-IsAllowed values qs rest in
      let whole : p ∷ qs ≡ ps = cc in
      rw (← whole) (ap₂ (λ c cs. c ∷ cs) same sames, (allowed, all_allowed))

All-insert_path :
    (P : Codes → Type 0) (q : Codes) (qs : List Codes) → P q → All P qs → All P (insert_path q qs)
unfolding insert_path
All-insert_path P q [] p ps = (p, tt)
All-insert_path P q (x ∷ xs) p (px, pxs) =
    if_elim (All P) (codes_eq q x) (λ _. (px, pxs))
      (λ _.
        if_elim (All P) (codes_le q x) (λ _. (p, (px, pxs)))
          (λ _. (px, All-insert_path P q xs p pxs)))

pub All-sorted : (P : Codes → Type 0) (ps : List Codes) → All P ps → All P (sorted ps)
unfolding sorted
All-sorted P [] h = tt
All-sorted P (p ∷ ps) (h, hs) = All-insert_path P p (sorted ps) h (All-sorted P ps hs)

member-insert_self : (p : Codes) (ps : List Codes) → member p (insert_path p ps) ≡ true
unfolding insert_path
member-insert_self p [] = ground (arith, codes_eq_refl p)
member-insert_self p (q ∷ qs) = ground (arith, codes_eq_refl p, member-insert_self p qs)

member-insert_path :
    (p q : Codes) (qs : List Codes) → member p qs ≡ true → member p (insert_path q qs) ≡ true
unfolding insert_path
member-insert_path p q [] h = ground arith
member-insert_path p q (x ∷ xs) h = ground (arith, member-insert_path p q xs)

pub member-sorted : (p : Codes) (ps : List Codes) → member p ps ≡ true → member p (sorted ps) ≡ true
unfolding sorted
member-sorted p [] h = cc
member-sorted p (q ∷ qs) h = elim (Bool-cases (codes_eq p q)) [
  | inl e ↦ rw (codes_eq→≡ p q e) (member-insert_self q (sorted qs))
  | inr e ↦ member-insert_path p q (sorted qs) (member-sorted p qs (ground arith))
]

pub All-map {ℓ} :
    {A : Type ℓ} (P Q : A → Type 0) (xs : List A) → ((x : A) → P x → Q x) → All P xs → All Q xs
All-map P Q [] f h = tt
All-map P Q (x ∷ xs) f (h, hs) = (f x h, All-map P Q xs f hs)

-- Every path is among the paths.
pub all_member : (ps : List Codes) → All (λ p. member p ps ≡ true) ps
all_member [] = tt
all_member (p ∷ ps) = (
  ground (arith, codes_eq_refl p),
  All-map (λ q. member q ps ≡ true) _ ps (λ q h. ground arith) (all_member ps),
)

-- The accepted paths are allowed, and they are those that were given.
pub validate_patch_paths-IsAllowed :
    (normalize : Codes → Codes) (r : Repository) (values ps : List Codes)
    → validate_patch_paths normalize r values ≡ ok ps
    → (ps ≡ sorted values) × All (IsAllowed normalize r) ps
unfolding validate_patch_paths
validate_patch_paths-IsAllowed normalize r values ps h =
    let (qs, valid, h1) = >>=-eq-ok (validate_each normalize r values) _ h in
    let (same, allowed) = validate_each-IsAllowed normalize r values qs valid in
    let (_, h2) = after_raise_if (elim qs [ [] ↦ true | _ ↦ false ]) _ _ h1 in
    let whole : sorted qs ≡ ps = cc in rw (← whole) (ap sorted same, All-sorted _ qs allowed)
