-- ===== src/Broker/Paths.antt =====
-- `_normalize_candidate_path`, `_is_protected` and `validate_patch_paths` of
-- backend/src/crosspatch/broker/paths.py. Texts are lists of code points; NFKC normalization and
-- what the file system has under the repository's root are parameters.
pub mod Diff
pub mod Derivation
pub mod Safety
pub mod Declared
use cross_patch.Prelude.{
  ℕ, String, Bool, true, false, not, ◌&&◌, ◌||◌, Option, none, some, List, [], ◌∷◌, ◌++◌, Result,
  ok, err, codes, leb, ◌==◌, ◌>>=◌, ◌>>◌, raise_if, all, if◌then◌else◌,
}

abbrev pub Codes : Type 0
Codes = List ℕ

-- PathPolicyViolation, and its subclass PatchFormatViolation.
pub data Violation : Type 0 where
  path_policy_violation patch_format_violation : Violation

unfoldable pub codes_eq : Codes → Codes → Bool
codes_eq [] [] = true
codes_eq (a ∷ xs) (b ∷ ys) = (a == b) && codes_eq xs ys
codes_eq _ _ = false

abbrev pub any {ℓ} : {A : Type ℓ} → (A → Bool) → List A → Bool
any p [] = false
any p (x ∷ xs) = p x || any p xs

-- `path in paths`
abbrev pub member : Codes → List Codes → Bool
member p ps = any (codes_eq p) ps

-- `text.startswith(prefix)`, and what follows the prefix.
unfoldable pub after_prefix : Codes → Codes → Option Codes
after_prefix [] text = some text
after_prefix (a ∷ xs) [] = none
after_prefix (a ∷ xs) (b ∷ ys) = if a == b then after_prefix xs ys else none

abbrev pub is_prefixed : Option Codes → Bool
is_prefixed none = false
is_prefixed (some _) = true

abbrev pub starts_with : String → Codes → Bool
starts_with prefix text = is_prefixed (after_prefix (codes prefix) text)

-- Comparison of texts by code points.
unfoldable pub codes_le : Codes → Codes → Bool
codes_le [] ys = true
codes_le (a ∷ xs) [] = false
codes_le (a ∷ xs) (b ∷ ys) = if a == b then codes_le xs ys else leb a b

-- `text.split("/")`
unfoldable pub add_code : ℕ → List Codes → List Codes
add_code c [] = (c ∷ []) ∷ []
add_code c (part ∷ parts) = (c ∷ part) ∷ parts

unfoldable pub split_slash : Codes → List Codes
unfolding add_code
split_slash [] = [] ∷ []
split_slash (c ∷ cs) = if c == b'/' then [] ∷ split_slash cs else add_code c (split_slash cs)

abbrev is_dropped : Codes → Bool
is_dropped part = codes_eq part [] || codes_eq part (codes ".")

unfoldable pub kept_parts : List Codes → List Codes
kept_parts [] = []
kept_parts (part ∷ parts) = if is_dropped part then kept_parts parts else part ∷ kept_parts parts

-- The parts of a PurePosixPath that is not absolute.
unfoldable pub parts : Codes → List Codes
parts path = kept_parts (split_slash path)

unfoldable pub join_slash : List Codes → Codes
join_slash [] = []
join_slash (part ∷ []) = part
join_slash (part ∷ rest) = part ++ b'/' ∷ join_slash rest

-- `PurePosixPath(path).as_posix()`
unfoldable pub as_posix : Codes → Codes
as_posix path = elim (parts path) [ [] ↦ codes "." | p ∷ ps ↦ join_slash (p ∷ ps) ]

abbrev is_letter : ℕ → Bool
is_letter c = (leb b'A' c && leb c b'Z') || (leb b'a' c && leb c b'z')

-- `_DRIVE_PREFIX`, and an absolute Windows path without backslashes: a drive and a root, which may
-- be two slashes.
unfoldable pub has_drive : Codes → Bool
has_drive (c ∷ d ∷ rest) = d == b':' && (is_letter c || starts_with "/" rest)
has_drive _ = false

unfoldable pub is_absolute : Codes → Bool
is_absolute path = starts_with "/" path || has_drive path

module _ (normalize : Codes → Codes) where
  unfoldable pub normalize_candidate_path : Codes → Result Violation Codes
  normalize_candidate_path value = do
    raise_if (codes_eq value []) path_policy_violation
    raise_if (not (codes_eq (normalize value) value)) path_policy_violation
    raise_if (any (λ c. c == 0 || c == 92) value) path_policy_violation
    raise_if (is_absolute value) path_policy_violation
    raise_if (not (codes_eq value (as_posix value)) || member (codes "..") (parts value))
        path_policy_violation
    ok (as_posix value)

abbrev protected_exact : List String
protected_exact =
    ".gitmodules" ∷ "compose.yaml" ∷ "compose.yml" ∷ "docker-compose.yaml" ∷ "docker-compose.yml"
    ∷ "package-lock.json" ∷ "package.json" ∷ "pnpm-lock.yaml" ∷ "pyproject.toml" ∷ "uv.lock"
    ∷ "yarn.lock" ∷ []

abbrev protected_prefixes : List String
protected_prefixes =
    ".git/" ∷ ".github/" ∷ ".superpowers/" ∷ "backend/src/crosspatch/broker/"
    ∷ "backend/src/crosspatch/runner/" ∷ "docs/" ∷ "infra/" ∷ []

unfoldable pub is_protected : Codes → Bool
is_protected path =
    any (λ name. codes_eq path (codes name)) protected_exact
    || any (λ prefix. starts_with prefix path) protected_prefixes
    || member (codes "tests") (parts path)

-- `set.add` and `sorted`: the paths in order, each once.
unfoldable pub insert_path : Codes → List Codes → List Codes
insert_path p [] = p ∷ []
insert_path p (q ∷ qs) =
    if codes_eq p q then q ∷ qs else if codes_le p q then p ∷ q ∷ qs else q ∷ insert_path p qs

unfoldable pub sorted : List Codes → List Codes
sorted [] = []
sorted (p ∷ ps) = insert_path p (sorted ps)

-- What the file system has under the root: whether a path made of these parts is a symbolic link,
-- and whether a path, resolved, lies in the root.
pub record Repository : Type 0 where
  pub is_symlink : List Codes → Bool
  pub resolves_inside : Codes → Bool

-- Whether a path that extends `above` by some of the parts is a link.
unfoldable pub has_symlink : Repository → List Codes → List Codes → Bool
has_symlink r above [] = false
has_symlink r above (part ∷ rest) =
    let current = above ++ part ∷ [] in r.is_symlink current || has_symlink r current rest

module _ (normalize : Codes → Codes) (r : Repository) where
  -- The body of the loop of `validate_patch_paths`.
  unfoldable pub validate_path : Codes → Result Violation Codes
  validate_path value = do
    normalized ← normalize_candidate_path normalize value
    raise_if (is_protected normalized) path_policy_violation
    raise_if (has_symlink r [] (parts normalized)) path_policy_violation
    raise_if (not (r.resolves_inside normalized)) path_policy_violation
    ok normalized

  unfoldable pub validate_each : List Codes → Result Violation (List Codes)
  validate_each [] = ok []
  validate_each (value ∷ rest) = do
    normalized ← validate_path value
    canonical ← validate_each rest
    ok (normalized ∷ canonical)

  unfoldable pub validate_patch_paths : List Codes → Result Violation (List Codes)
  validate_patch_paths paths = do
    canonical ← validate_each paths
    raise_if (elim canonical [ [] ↦ true | _ ↦ false ]) path_policy_violation
    ok (sorted canonical)
