-- ===== src/Runner/Archive.antt =====
-- service/internal/runner/extract.go: choosing the story file of a zip archive and writing it out.
-- The archive is the list of its entries as the zip reader lists them; what reading an entry and
-- writing its file gives is part of the entry.
pub mod Safe
pub mod Best
pub mod Errors
pub mod Tests
use aifstudio.Prelude.{
  ℕ, ◌+◌, ◌*◌, Bool, true, false, ◌||◌, List, [], ◌∷◌, ◌++◌, Option, none, some, ltb, if◌then◌else◌,
  length,
}
use aifstudio.Text.{Text, text, text_eq, has_prefix, to_lower, elem}
use aifstudio.FilePath.{clean, is_abs, ext, join2}

abbrev pub max_extract_files : ℕ
max_extract_files = 100

abbrev pub max_extract_total : ℕ
max_extract_total = 100 * 1024 * 1024

abbrev pub max_extract_per_file : ℕ
max_extract_per_file = 50 * 1024 * 1024

-- A file header of the archive, with what `f.Open`, `os.Create` and `io.Copy` through the limited
-- reader do with it: `copied` is the number of bytes, `none` an error on the way.
pub record Entry : Type 0 where
  pub name : Text
  pub is_dir : Bool
  pub uncompressed_size : ℕ
  pub opens : Bool
  pub creates : Bool
  pub copied : Option ℕ

pub data EntryError : Type 0 where
  open_failed create_failed copy_failed copied_too_large : EntryError

pub data ArchiveError : Type 0 where
  open_zip : ArchiveError
  empty too_many_files invalid_path unsupported_format too_large : ArchiveError
  extract_entry : EntryError → ArchiveError

-- The paths written so far, the latest first, and the error or the story's path.
pub data Outcome : Type 0 where
  failed : List Text → ArchiveError → Outcome
  story : List Text → Text → Outcome

abbrev pub if_exts : List Text
if_exts =
    text ".z3"
    ∷ text ".z4"
    ∷ text ".z5"
    ∷ text ".z6"
    ∷ text ".z7"
    ∷ text ".z8"
    ∷ text ".zblorb"
    ∷ text ".ulx"
    ∷ text ".gblorb"
    ∷ text ".gam"
    ∷ text ".t3"
    ∷ []

-- extractEntry: whether the file was created, and the error. A size at the limit of the reader is
-- one past the cap.
pub extract_entry_at : Entry → Bool × Option EntryError
extract_entry_at f =
    if f.opens
    then if f.creates
      then (
        true,
        elim f.copied [
          | none ↦ some copy_failed
          | some n ↦ if ltb max_extract_per_file n then some copied_too_large else none
        ],
      )
      else (false, some create_failed)
    else (false, some open_failed)

-- The traversal check of one name.
pub is_unsafe : Text → Bool
is_unsafe name = has_prefix (clean name) (text "..") || is_abs (clean name)

pub lower_ext : Text → Text
lower_ext name = to_lower (ext name)

unfoldable pub out_path : Text → Text → Text
out_path dest_dir e = join2 dest_dir (text "story" ++ e)

-- The loop's variables: totalUncompressed, bestFile and bestSize, and the files written.
pub record Scan : Type 0 where
  pub total : ℕ
  pub best_file : Text
  pub best_size : ℕ
  pub written : List Text

pub wants : Scan → ℕ → Bool
wants s size = text_eq s.best_file [] || ltb s.best_size size

-- One entry of the loop that is not a directory: the error or the variables after it. `int64` is
-- exact here, since the size is at most the cap per file and the total at most three caps.
pub visit : Text → Entry → Scan → Scan × Option ArchiveError
visit dest_dir f s =
    let size = f.uncompressed_size in
    let s' = record s { total = s.total + size } in
    let e = lower_ext f.name in
    let path = out_path dest_dir e in
    let (created, err) = extract_entry_at f in
    let s'' = record s' { written = if created then path ∷ s.written else s.written } in
    if is_unsafe f.name
    then (s, some invalid_path)
    else if ltb max_extract_per_file size
    then (s, some too_large)
    else if ltb max_extract_total s'.total
    then (s', some too_large)
    else if elem e if_exts
    then if wants s' size
      then elim err [
        | some x ↦ (s'', some (extract_entry x))
        | none ↦ (record s'' { best_file = path; best_size = size }, none)
      ]
      else (s', none)
    else (s', none)

conclude : Scan → Outcome
conclude s =
    if text_eq s.best_file []
    then failed s.written unsupported_format
    else story s.written s.best_file

-- The loop over `r.File`.
pub scan : Text → List Entry → Scan → Outcome
scan dest_dir [] s = conclude s
scan dest_dir (f ∷ fs) s = elim f.is_dir [
  | true ↦ scan dest_dir fs s
  | false ↦
      let (s', err) = visit dest_dir f s in
      elim err [ some e ↦ failed s'.written e | none ↦ scan dest_dir fs s' ]
]

pub start : Scan
start = record { total = 0; best_file = []; best_size = 0; written = [] }

-- extractZip; `none` is an archive that does not open.
pub extract_zip : Option (List Entry) → Text → Outcome
extract_zip none dest_dir = failed [] open_zip
extract_zip (some []) dest_dir = failed [] empty
extract_zip (some (f ∷ fs)) dest_dir =
    if ltb max_extract_files (length (f ∷ fs))
    then failed [] too_many_files
    else scan dest_dir (f ∷ fs) start
