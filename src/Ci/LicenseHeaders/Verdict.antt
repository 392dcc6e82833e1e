-- ===== src/Ci/LicenseHeaders/Verdict.antt =====
-- What the exit code of the check says.
use trustlist_core.Base.{
  String, ◌≡◌, refl, Bool, false, not, ◌&&◌, String-eq, List, [], ◌∷◌, if◌then◌else◌, arith,
}
use trustlist_core.Base.Lists.{any, contains, keep}
use trustlist_core.Ci.LicenseHeaders.{
  SourcePath, skip_dirs, is_checked, iter_source_files, has_header, is_empty, main,
}

-- Some checked file has no header.
abbrev pub lacks_header : (String → String → Bool) → List SourcePath → Bool
lacks_header within tree = any (λ path. is_checked path && not (has_header within path)) tree

is_empty-keep :
    (within : String → String → Bool) (tree : List SourcePath)
    → not (is_empty (keep (λ path. not (has_header within path)) (iter_source_files tree)))
      ≡ lacks_header within tree
unfolding is_empty iter_source_files
is_empty-keep within [] = refl
is_empty-keep within (path ∷ tree) = ground (arith, is_empty-keep within tree)

-- The check exits with 1 if a checked file lacks the header, and with 0 if none does.
pub main_lem :
    (within : String → String → Bool) (tree : List SourcePath)
    → main within tree ≡ (if lacks_header within tree then 1 else 0)
unfolding main
main_lem within tree = ground (arith, is_empty-keep within tree)

-- If each path runs through a directory with a skipped name, for instance one above the root, the
-- check passes without reading a file.
pub main-skipped :
    (within : String → String → Bool) (tree : List SourcePath)
    → any (λ path. not (any (λ part. contains part skip_dirs) path.parts)) tree ≡ false
    → main within tree ≡ 0
unfolding main iter_source_files is_checked is_empty
main-skipped within [] skipped = refl
main-skipped within (path ∷ tree) skipped = ground (arith, main-skipped within tree, skipped)
