-- ===== src/Broker/Paths/Derivation.antt =====
-- What `derive_patch_paths` derives.
use cross_patch.Prelude.{
  ◌≡◌, refl, sym, subst, ◌∙◌, ◌||◌, ◌++◌, codes, ap₂, true, false, not, Option, none, some, List,
  [], ◌∷◌, ok, arith, >>=-eq-ok, All, Bool-cases, inl, inr, length, ltb, ◌==◌,
}
use cross_patch.Broker.Paths.{
  Codes, codes_eq, member, any, starts_with, is_protected, normalize_candidate_path, sorted,
}
use cross_patch.Broker.Paths.Diff.{
  Section, sections, splitlines, diff_header, or_violation, check_body, section_path, section_paths,
  from_sections, has_duplicate, count, filter, has_index, unsafe_control_prefixes,
  derive_patch_paths, is_blank, has_last_lf,
}
use cross_patch.Broker.Paths.Safety.{
  after_raise_if, codes_eq→≡, codes_eq_refl, IsSafe, normalize_candidate_path-IsNormalized, All-map,
  member-sorted,
}

-- The line is a header that names one safe path twice, which is among the paths.
pub record IsHeader (normalize : Codes → Codes) (ps : List Codes) (line : Codes) : Type 0 where
  pub path : Codes
  pub header : diff_header line ≡ some (path, path)
  pub safe : IsSafe normalize path
  pub derived : member path ps ≡ true

-- The section is about that path: among its lines the two file markers of the path stand once each,
-- and none renames, copies, changes a mode or is binary.
pub record IsSection (normalize : Codes → Codes) (ps : List Codes) (s : Section) : Type 0 where
  pub heads : IsHeader normalize ps s.0
  pub old_marker : count (codes "--- a/" ++ heads.path) s.1 ≡ 1
  pub new_marker : count (codes "+++ b/" ++ heads.path) s.1 ≡ 1
  pub uncontrolled :
      any (λ line. any (λ prefix. starts_with prefix line) unsafe_control_prefixes) s.1 ≡ false

or_violation-ok : {A : Type 0} (o : Option A) (a : A) → or_violation o ≡ ok a → o ≡ some a
or_violation-ok none a h = cc
or_violation-ok (some b) a h = cc

-- Every line that starts with "diff " begins a section.
sections-All :
    (Q : Codes → Type 0) (lines : List Codes)
    → All (λ s. Q s.0) (sections lines).1
    → All (λ line. starts_with "diff " line ≡ true → Q line) lines
unfolding sections
sections-All Q [] a = tt
sections-All Q (line ∷ lines) a = elim (Bool-cases (starts_with "diff " line)) [
  | inl e ↦
      let (q, rest) : Q line × All (λ s. Q s.0) (sections lines).1 = rw (e, sections) at a in
      (λ _. q, sections-All Q lines rest)
  | inr e ↦ (
    λ t. let x : true ≡ false = sym t ∙ e in absurd (cc x),
    sections-All Q lines (rw (e, sections) at a),
  )
]

module _ (normalize : Codes → Codes) where
  check_body-markers :
      (path : Codes) (body : List Codes)
      → check_body normalize path body ≡ ok tt
      → (any (λ line. any (λ prefix. starts_with prefix line) unsafe_control_prefixes) body ≡ false)
        × (count (codes "--- a/" ++ path) body ≡ 1)
        × (count (codes "+++ b/" ++ path) body ≡ 1)
  unfolding check_body
  check_body-markers path body h =
      let (controlled, h1) =
        after_raise_if
          (any (λ line. any (λ prefix. starts_with prefix line) unsafe_control_prefixes) body) _ _
          h in
      let (_, h2) = after_raise_if (not (has_index (filter (starts_with "index ") body))) _ _ h1 in
      let (once, _) =
        after_raise_if
          (not (count (codes "--- a/" ++ path) body == 1)
            || not (count (codes "+++ b/" ++ path) body == 1))
          _ _ h2 in
      (controlled, ground (arith, once), ground (arith, once))

  section_path-IsHeader :
      (header p : Codes) (body : List Codes)
      → section_path normalize (header, body) ≡ ok p
      → (diff_header header ≡ some (p, p))
        × IsSafe normalize p
        × (check_body normalize p body ≡ ok tt)
  unfolding section_path
  section_path-IsHeader header p body h =
      let ((old, new), found, h1) = >>=-eq-ok (or_violation (diff_header header)) _ h in
      let (a, first, h2) = >>=-eq-ok (normalize_candidate_path normalize old) _ h1 in
      let (b, second, h3) = >>=-eq-ok (normalize_candidate_path normalize new) _ h2 in
      let (same, h4) = after_raise_if (not (codes_eq a b)) _ _ h3 in
      let (unprotected, h5) = after_raise_if (is_protected a) _ _ h4 in
      let (_, checked, h6) = >>=-eq-ok (check_body normalize a body) _ h5 in
      let n = normalize_candidate_path-IsNormalized normalize old a first in
      let m = normalize_candidate_path-IsNormalized normalize new b second in
      let equal : a ≡ b = codes_eq→≡ a b (ground (arith, same)) in
      let named : a ≡ p = cc in
      rw (← named) (
        or_violation-ok (diff_header header) (old, new) found
            ∙ ap₂ (λ x y. some (x, y)) (sym n.same) (sym m.same ∙ sym equal),
        record {
          normal = n.normal;
          plain = n.plain;
          relative = n.relative;
          canonical = n.canonical;
          stays = n.stays;
          unprotected = unprotected;
        },
        checked,
      )

  -- The path of a section is among other paths.
  moved :
      (qs ps : List Codes) (s : Section) (i : IsSection normalize qs s)
      → member i.heads.path ps ≡ true
      → IsSection normalize ps s
  moved qs ps s i m = record {
    heads = record {
      path = i.heads.path;
      header = i.heads.header;
      safe = i.heads.safe;
      derived = m;
    };
    old_marker = i.old_marker;
    new_marker = i.new_marker;
    uncontrolled = i.uncontrolled;
  }

  section_paths-IsSection :
      (rest : List Section) (ps : List Codes)
      → section_paths normalize rest ≡ ok ps
      → All (IsSection normalize ps) rest
  unfolding section_paths
  section_paths-IsSection [] ps h = tt
  section_paths-IsSection ((header, body) ∷ rest) ps h =
      let (p, found, h1) = >>=-eq-ok (section_path normalize (header, body)) _ h in
      let (qs, others, h2) = >>=-eq-ok (section_paths normalize rest) _ h1 in
      let (headed, safe, checked) = section_path-IsHeader header p body found in
      let (uncontrolled, old, new) = check_body-markers p body checked in
      let whole : p ∷ qs ≡ ps = cc in
      subst (λ xs. All (IsSection normalize xs) ((header, body) ∷ rest)) whole
        (
          record {
            heads = record {
              path = p;
              header = headed;
              safe = safe;
              derived = ground (arith, codes_eq_refl p);
            };
            old_marker = old;
            new_marker = new;
            uncontrolled = uncontrolled;
          },
          All-map (IsSection normalize qs) _ rest
              (λ s i. moved qs (p ∷ qs) s i (ground (arith, i.heads.derived)))
              (section_paths-IsSection rest qs others),
        )

  -- What is derived from a text that was split into sections.
  from_sections-IsSection :
      (split : List Codes × List Section) (ps : List Codes)
      → from_sections normalize split ≡ ok ps
      → (split.0 ≡ []) × All (IsSection normalize ps) split.1
  unfolding from_sections
  from_sections-IsSection (before, []) ps h = absurd (cc h)
  from_sections-IsSection (_ ∷ _, s ∷ rest) ps h = absurd (cc h)
  from_sections-IsSection ([], s ∷ rest) ps h =
      let (qs, derived, h1) = >>=-eq-ok (section_paths normalize (s ∷ rest)) _ h in
      let (_, h2) = after_raise_if (has_duplicate qs) _ _ h1 in
      let whole : sorted qs ≡ ps = cc in
      (
        refl,
        All-map (IsSection normalize qs) _ (s ∷ rest)
            (λ s i. moved qs ps s i (rw (← whole) (member-sorted i.heads.path qs i.heads.derived)))
            (section_paths-IsSection (s ∷ rest) qs derived),
      )

  -- If paths are derived from a patch, it decodes, each of its lines that starts with "diff " is a
  -- header that names one safe path, which is derived, and its sections, which are all of it, are
  -- about these paths.
  pub derive_patch_paths-IsSection :
      (decode : Codes → Option Codes) (patch : Codes) (ps : List Codes)
      → derive_patch_paths normalize decode patch ≡ ok ps
      → (text : Codes) × (decode patch ≡ some text)
        × All
            (λ line. starts_with "diff " line ≡ true → IsHeader normalize ps line)
            (splitlines text)
        × ((sections (splitlines text)).0 ≡ [])
        × All (IsSection normalize ps) (sections (splitlines text)).1
  unfolding derive_patch_paths
  derive_patch_paths-IsSection decode patch ps h =
      let (_, h1) = after_raise_if (is_blank patch) _ _ h in
      let (_, h2) = after_raise_if (ltb 1048576 (length patch)) _ _ h1 in
      let (_, h3) = after_raise_if (any (λ b. b == 0) patch) _ _ h2 in
      let (_, h4) = after_raise_if (any (λ b. b == 13) patch) _ _ h3 in
      let (_, h5) = after_raise_if (not (has_last_lf patch)) _ _ h4 in
      let (text, decoded, h6) = >>=-eq-ok (or_violation (decode patch)) _ h5 in
      let (first, about) = from_sections-IsSection (sections (splitlines text)) ps h6 in
      (
        text,
        or_violation-ok (decode patch) text decoded,
        sections-All (IsHeader normalize ps) (splitlines text) (
            All-map (IsSection normalize ps) _ (sections (splitlines text)).1 (λ s i. i.heads)
              about),
        first,
        about,
      )
