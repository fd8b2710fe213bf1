-- ===== src/Broker/Paths/Diff.antt =====
-- `derive_patch_paths` and `validate_declared_patch_paths` of
-- backend/src/crosspatch/broker/paths.py. Decoding UTF-8 is a parameter.
use cross_patch.Prelude.{
  ℕ, String, Bool, true, false, not, ◌&&◌, ◌||◌, Option, none, some, List, [], ◌∷◌, ◌++◌, Result,
  ok, err, codes, leb, ltb, ◌==◌, ◌>>=◌, ◌>>◌, raise_if, all, if◌then◌else◌, length,
}
use cross_patch.Broker.Paths.{
  Codes, Violation, path_policy_violation, patch_format_violation, codes_eq, any, member,
  after_prefix, starts_with, add_code, normalize_candidate_path, is_protected, sorted, Repository,
  validate_patch_paths,
}

-- Where `splitlines` breaks a text that has no carriage return.
unfoldable pub is_line_end : ℕ → Bool
is_line_end c =
    (leb 10 c && leb c 12) || (leb 28 c && leb c 30) || c == 133 || c == 8232 || c == 8233

unfoldable pub splitlines : Codes → List Codes
splitlines [] = []
splitlines (c ∷ cs) = if is_line_end c then [] ∷ splitlines cs else add_code c (splitlines cs)

abbrev pub Section : Type 0
Section = Codes × List Codes

-- The lines before the first that starts with "diff ", and each such line with the lines up to the
-- next one.
unfoldable pub sections : List Codes → List Codes × List Section
sections [] = ([], [])
sections (line ∷ lines) =
    let (before, rest) = sections lines in
    if starts_with "diff " line then ([], (line, before) ∷ rest) else (line ∷ before, rest)

-- `\s`
abbrev is_space : ℕ → Bool
is_space c =
    (leb 9 c && leb c 13)
    || (leb 28 c && leb c 32)
    || c == 133
    || c == 160
    || c == 5760
    || (leb 8192 c && leb c 8202)
    || c == 8232
    || c == 8233
    || c == 8239
    || c == 8287
    || c == 12288

-- [^\s"\\]
abbrev is_path_char : ℕ → Bool
is_path_char c = not (is_space c || c == 34 || c == 92)

-- The longest prefix of characters in the class, and the rest.
unfoldable pub span : (ℕ → Bool) → Codes → Codes × Codes
span p [] = ([], [])
span p (c ∷ cs) = let (taken, rest) = span p cs in if p c then (c ∷ taken, rest) else ([], c ∷ cs)

abbrev pub is_blank : Codes → Bool
is_blank [] = true
is_blank _ = false

abbrev second_path : Codes → Option Codes → Option (Codes × Codes)
second_path old none = none
second_path old (some rest) =
    if is_blank old || is_blank rest || not (all is_path_char rest) then none else some (old, rest)

abbrev both_paths : Option Codes → Option (Codes × Codes)
both_paths none = none
both_paths (some text) =
    let (old, rest) = span is_path_char text in second_path old (after_prefix (codes " b/") rest)

-- `_DIFF_HEADER.fullmatch(header)`
unfoldable pub diff_header : Codes → Option (Codes × Codes)
unfolding span
diff_header header = both_paths (after_prefix (codes "diff --git a/") header)

abbrev is_hash_char : ℕ → Bool
is_hash_char c = (leb b'0' c && leb c b'9') || (leb b'a' c && leb c b'f')

abbrev is_hash : Codes → Bool
is_hash h = leb 7 (length h) && leb (length h) 64

abbrev second_hash : Option Codes → Bool
second_hash none = false
second_hash (some text) =
    let (hash, rest) = span is_hash_char text in
    is_hash hash && (codes_eq rest (codes " 100644") || codes_eq rest (codes " 100755"))

abbrev both_hashes : Option Codes → Bool
both_hashes none = false
both_hashes (some text) =
    let (hash, rest) = span is_hash_char text in
    is_hash hash && second_hash (after_prefix (codes "..") rest)

-- `_INDEX_LINE.fullmatch(line)`
unfoldable pub is_index_line : Codes → Bool
unfolding span
is_index_line line = both_hashes (after_prefix (codes "index ") line)

abbrev pub unsafe_control_prefixes : List String
unsafe_control_prefixes =
    "rename from " ∷ "rename to " ∷ "copy from " ∷ "copy to " ∷ "similarity index "
    ∷ "dissimilarity index " ∷ "old mode " ∷ "new mode " ∷ "new file mode " ∷ "deleted file mode "
    ∷ "GIT binary patch" ∷ "Binary files " ∷ []

unfoldable pub filter : (Codes → Bool) → List Codes → List Codes
filter p [] = []
filter p (x ∷ xs) = if p x then x ∷ filter p xs else filter p xs

-- The patch has one index line, and it is of a regular file.
abbrev pub has_index : List Codes → Bool
has_index (line ∷ []) = is_index_line line
has_index _ = false

-- `body.count(line)`
unfoldable pub count : Codes → List Codes → ℕ
count line body = length (filter (codes_eq line) body)

unfoldable pub has_duplicate : List Codes → Bool
has_duplicate [] = false
has_duplicate (p ∷ ps) = member p ps || has_duplicate ps

unfoldable pub has_last_lf : Codes → Bool
has_last_lf [] = false
has_last_lf (c ∷ []) = c == 10
has_last_lf (c ∷ cs) = has_last_lf cs

abbrev pub or_violation : {A : Type 0} → Option A → Result Violation A
or_violation none = err patch_format_violation
or_violation (some a) = ok a

module _ (normalize : Codes → Codes) where
  -- `body` is checked for the section's path.
  unfoldable pub check_body : Codes → List Codes → Result Violation (Unit {0})
  check_body path body = do
    raise_if (any (λ line. any (λ prefix. starts_with prefix line) unsafe_control_prefixes) body)
        patch_format_violation
    raise_if (not (has_index (filter (starts_with "index ") body))) patch_format_violation
    raise_if
        (not (count (codes "--- a/" ++ path) body == 1)
          || not (count (codes "+++ b/" ++ path) body == 1))
        patch_format_violation
    raise_if (not (any (starts_with "@@ ") body)) patch_format_violation

  -- The body of the loop over the sections.
  unfoldable pub section_path : Section → Result Violation Codes
  section_path (header, body) = do
    (old, new) ← or_violation (diff_header header)
    old_path ← normalize_candidate_path normalize old
    new_path ← normalize_candidate_path normalize new
    raise_if (not (codes_eq old_path new_path)) patch_format_violation
    raise_if (is_protected old_path) path_policy_violation
    check_body old_path body
    ok old_path

  unfoldable pub section_paths : List Section → Result Violation (List Codes)
  section_paths [] = ok []
  section_paths (s ∷ rest) = do path ← section_path s; paths ← section_paths rest; ok (path ∷ paths)

  unfoldable pub from_sections : List Codes × List Section → Result Violation (List Codes)
  from_sections (before, []) = err patch_format_violation
  from_sections (_ ∷ _, _) = err patch_format_violation
  from_sections ([], s ∷ rest) = do
    derived ← section_paths (s ∷ rest)
    raise_if (has_duplicate derived) patch_format_violation
    ok (sorted derived)

  module _ (decode : Codes → Option Codes) where
    unfoldable pub derive_patch_paths : Codes → Result Violation (List Codes)
    derive_patch_paths patch = do
      raise_if (is_blank patch) patch_format_violation
      raise_if (ltb 1048576 (length patch)) patch_format_violation
      raise_if (any (λ b. b == 0) patch) patch_format_violation
      raise_if (any (λ b. b == 13) patch) patch_format_violation
      raise_if (not (has_last_lf patch)) patch_format_violation
      text ← or_violation (decode patch)
      from_sections (sections (splitlines text))

    unfoldable pub paths_eq : List Codes → List Codes → Bool
    paths_eq [] [] = true
    paths_eq (p ∷ ps) (q ∷ qs) = codes_eq p q && paths_eq ps qs
    paths_eq _ _ = false

    unfoldable pub validate_declared_patch_paths :
        Repository → Codes → List Codes → Result Violation (List Codes)
    validate_declared_patch_paths r patch declared_paths = do
      derived ← derive_patch_paths patch
      declared ← validate_patch_paths normalize r declared_paths
      raise_if (not (paths_eq declared derived)) path_policy_violation
      validated ← validate_patch_paths normalize r derived
      raise_if (not (paths_eq validated derived)) path_policy_violation
      ok derived
