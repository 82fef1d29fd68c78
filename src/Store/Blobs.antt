-- ===== src/Store/Blobs.antt =====
-- LocalBlobStore (service/internal/store/local_blob.go). The file system is the list of the files with
-- their bytes, the one that a path finds first being the file there; a directory exists as far as files
-- lie below it. What the operating system answers comes with each call. A temporary file is gone again
-- at the end of the call that made it.
pub mod Laws
use aifstudio.Prelude.{
  ℕ, suc, Bool, true, false, not, ◌&&◌, ◌||◌, List, [], ◌∷◌, ◌++◌, Option, none, some,
  if◌then◌else◌, any,
}
use aifstudio.Text.{Text, text_eq, has_prefix, has_suffix, contains}
use aifstudio.FilePath.{clean, join2, slash, dot_dot}

abbrev pub Files : Type 0
Files = List (Text × List ℕ)

unfoldable pub get_file : Text → Files → Option (List ℕ)
get_file p [] = none
get_file p ((q, d) ∷ fs) = let rest = get_file p fs in if text_eq q p then some d else rest

unfoldable pub remove_file : Text → Files → Files
remove_file p [] = []
remove_file p ((q, d) ∷ fs) =
    let rest = remove_file p fs in if text_eq q p then rest else (q, d) ∷ rest

unfoldable pub put_file : Text → List ℕ → Files → Files
put_file p bytes fs = (p, bytes) ∷ remove_file p fs

-- filepath.Join ignores an empty element.
unfoldable pub join_path : Text → Text → Text
join_path dir [] = clean dir
join_path dir (c ∷ name) = join2 dir (c ∷ name)

-- absPath, with `none` for an error.
unfoldable pub abs_path : Text → Text → Option Text
abs_path root path =
    let p = join_path root path in
    if contains path dot_dot then none else if not (has_prefix p root) then none else some p

-- What the operating system answers to the calls of UploadBlob.
pub record UploadWorld : Type 0 where
  pub made_directory : Bool
  pub made_file : Bool
  pub copied : Bool
  pub closed : Bool
  pub renamed : Bool

-- UploadBlob, with whether it succeeds.
unfoldable pub upload_blob : Text → UploadWorld → Text → List ℕ → Files → Files × Bool
upload_blob root w path bytes fs = elim (abs_path root path) [
  | none ↦ (fs, false)
  | some p ↦
      if w.made_directory && w.made_file && w.copied && w.closed && w.renamed
      then (put_file p bytes fs, true)
      else (fs, false)
]

-- DownloadBlob: the bytes written, `none` for an error. `reads` says that an existing file opens and
-- reads to its end.
unfoldable pub download_blob : Text → Bool → Text → Files → Option (List ℕ)
download_blob root reads path fs = elim (abs_path root path) [
  | none ↦ none
  | some p ↦ if reads then get_file p fs else none
]

-- A file in the directory `dir` or deeper, or `dir` itself.
unfoldable pub is_below : Text → Text → Bool
is_below dir p =
    text_eq p dir || has_prefix p (if has_suffix dir (slash ∷ []) then dir else dir ++ (slash ∷ []))

-- The walk of DeleteBlobPrefix: it removes each file that it comes to and counts it, and stops at the
-- first one that cannot be removed.
unfoldable pub walk : (Text → Bool) → Text → Files → Files × ℕ × Bool
walk removes dir [] = ([], 0, true)
walk removes dir ((p, d) ∷ fs) =
    let (left, count, done) = walk removes dir fs in
    if not (is_below dir p)
    then ((p, d) ∷ left, count, done)
    else if removes p
    then (left, suc count, done)
    else ((p, d) ∷ fs, 0, false)

-- A path that leads through the file `p` as if it were a directory.
unfoldable pub is_through : Text → Text → Bool
is_through dir p = has_prefix dir (p ++ (slash ∷ []))

-- DeleteBlobPrefix: the number of removed files and whether it succeeds. `removes` says of a file that
-- the walk can reach it and remove it. A path through a file is no missing one, and the walk fails on
-- it. The removal of the directory tree at the end meets no file.
unfoldable pub delete_blob_prefix : Text → (Text → Bool) → Text → Files → Files × ℕ × Bool
delete_blob_prefix root removes prefix fs = elim (abs_path root prefix) [
  | none ↦ (fs, 0, false)
  | some dir ↦
      if any (λ f. is_through dir f.0) fs
      then (fs, 0, false)
      else if not (any (λ f. is_below dir f.0) fs)
      then (fs, 0, true)
      else walk removes dir fs
]
