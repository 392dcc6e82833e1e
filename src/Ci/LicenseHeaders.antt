-- ===== src/Ci/LicenseHeaders.antt =====
-- ci/check_license_headers.py: the check that source files carry the licence header. A file of the tree
-- is what the script reads of it; `root.rglob("*")`, sorted, is an argument of the definitions.
pub mod Verdict
use trustlist_core.Base.{
  ℕ, String, Bool, true, false, not, ◌||◌, List, [], ◌∷◌, ◌==◌, String-eq, if◌then◌else◌,
}
use trustlist_core.Base.Lists.{any, contains, keep}

-- `MARKER`
abbrev pub marker : String
marker = "Licensed under the Apache License, Version 2.0"

-- `CHECKED_SUFFIXES`
abbrev pub checked_suffixes : List String
checked_suffixes = ".py" ∷ ".ts" ∷ []

-- `SKIP_DIRS`
abbrev pub skip_dirs : List String
skip_dirs =
    ".git" ∷ "__pycache__" ∷ ".venv" ∷ "venv" ∷ ".mypy_cache" ∷ ".ruff_cache" ∷ ".pytest_cache"
    ∷ "node_modules" ∷ "versions" ∷ "dist" ∷ "coverage" ∷ []

-- A path under the root: `is_dir()`, `parts`, `suffix`, and the first 4096 characters of the text. The
-- parts are those of the absolute path.
pub record SourcePath : Type 0 where
  pub is_dir : Bool
  pub parts : List String
  pub suffix : String
  pub opening : String

-- the tests of the loop of `iter_source_files`
unfoldable pub is_checked : SourcePath → Bool
is_checked path =
    if path.is_dir
    then false
    else if any (λ part. contains part skip_dirs) path.parts
    then false
    else contains path.suffix checked_suffixes

-- `iter_source_files`
unfoldable pub iter_source_files : List SourcePath → List SourcePath
unfolding is_checked
iter_source_files tree = keep is_checked tree

-- `has_header`; `within` is Python's `in` on texts
unfoldable pub has_header : (String → String → Bool) → SourcePath → Bool
has_header within path = within marker path.opening

-- `not missing`
unfoldable pub is_empty : List SourcePath → Bool
is_empty [] = true
is_empty (path ∷ paths) = false

-- `main`, the exit code
unfoldable pub main : (String → String → Bool) → List SourcePath → ℕ
unfolding iter_source_files has_header is_empty
main within tree =
    let missing = keep (λ path. not (has_header within path)) (iter_source_files tree) in
    if is_empty missing then 0 else 1
