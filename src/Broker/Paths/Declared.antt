-- ===== src/Broker/Paths/Declared.antt =====
-- What `validate_declared_patch_paths` accepts.
use cross_patch.Prelude.{
  ◌≡◌, refl, sym, ◌∙◌, ap₂, true, not, Option, some, List, [], ◌∷◌, ok, arith, >>=-eq-ok, All,
}
use cross_patch.Broker.Paths.{Codes, member, starts_with, sorted, Repository, validate_patch_paths}
use cross_patch.Broker.Paths.Diff.{
  splitlines, sections, derive_patch_paths, paths_eq, validate_declared_patch_paths,
}
use cross_patch.Broker.Paths.Safety.{
  after_raise_if, codes_eq→≡, IsAllowed, All-map, All-sorted, all_member, member-sorted,
  validate_patch_paths-IsAllowed,
}
use cross_patch.Broker.Paths.Derivation.{IsHeader, IsSection, derive_patch_paths-IsSection}

-- The accepted paths are allowed, each section of the patch is about one of them, and they are the
-- paths that were declared.
pub record IsCovered (normalize : Codes → Codes) (decode : Codes → Option Codes) (r : Repository)
    (patch : Codes) (declared ps : List Codes) : Type 0 where
  pub text : Codes
  pub decoded : decode patch ≡ some text
  pub headers :
      All (λ line. starts_with "diff " line ≡ true → IsHeader normalize ps line) (splitlines text)
  pub starts : (sections (splitlines text)).0 ≡ []
  pub about : All (IsSection normalize ps) (sections (splitlines text)).1
  pub allowed : All (IsAllowed normalize r) ps
  pub all_declared : All (λ p. member p declared ≡ true) ps
  pub all_accepted : All (λ p. member p ps ≡ true) declared

module _ (normalize : Codes → Codes) (decode : Codes → Option Codes) where
  paths_eq→≡ : (ps qs : List Codes) → paths_eq normalize decode ps qs ≡ true → ps ≡ qs
  unfolding paths_eq
  paths_eq→≡ [] [] h = refl
  paths_eq→≡ (p ∷ ps) (q ∷ qs) h =
      ap₂ (λ c cs. c ∷ cs) (codes_eq→≡ p q (ground arith)) (paths_eq→≡ ps qs (ground arith))
  paths_eq→≡ [] (q ∷ qs) h = cc
  paths_eq→≡ (p ∷ ps) [] h = cc

  -- If the path policy accepts a patch for the paths that a warrant declares, the paths that it
  -- returns are the declared ones and no others; each is Unicode-normalized, relative, without
  -- "..", not protected, reached through no symbolic link and inside the repository; and each
  -- line of the patch that starts with "diff " is a header that names one of them, twice. The patch
  -- is its sections, each a header and the lines up to the next; the two file markers of the
  -- header's path stand once each among them, and none of these lines renames, copies, changes a
  -- mode or is binary.
  pub validate_declared_patch_paths-IsCovered :
      (r : Repository) (patch : Codes) (declared ps : List Codes)
      → validate_declared_patch_paths normalize decode r patch declared ≡ ok ps
      → IsCovered normalize decode r patch declared ps
  unfolding validate_declared_patch_paths
  validate_declared_patch_paths-IsCovered r patch declared ps h =
      let (qs, derived, h1) = >>=-eq-ok (derive_patch_paths normalize decode patch) _ h in
      let (ds, valid, h2) = >>=-eq-ok (validate_patch_paths normalize r declared) _ h1 in
      let (equal, h3) = after_raise_if (not (paths_eq normalize decode ds qs)) _ _ h2 in
      let (vs, _, h4) = >>=-eq-ok (validate_patch_paths normalize r qs) _ h3 in
      let (_, h5) = after_raise_if (not (paths_eq normalize decode vs qs)) _ _ h4 in
      let whole : qs ≡ ps = cc in
      let same : ds ≡ qs = paths_eq→≡ ds qs (ground (arith, equal)) in
      let (text, decoded, headers, starts, about) =
        derive_patch_paths-IsSection normalize decode patch qs derived in
      let (from, allowed) = validate_patch_paths-IsAllowed normalize r declared ds valid in
      let listed : qs ≡ sorted declared = sym same ∙ from in
      rw (← whole) (record {
        text = text;
        decoded = decoded;
        headers = headers;
        starts = starts;
        about = about;
        allowed = rw same at allowed;
        all_declared =
            rw listed (All-sorted (λ p. member p declared ≡ true) declared (all_member declared));
        all_accepted = rw listed (
            All-map (λ p. member p declared ≡ true) _ declared (λ p m. member-sorted p declared m)
              (all_member declared));
      })
