-- ===== src/Runner/Archive/Safe.antt =====
-- extractZip (service/internal/runner/extract.go): no entry leads out of the destination, and the
-- limits on files, on one entry and on the whole archive hold for what it accepts.
use aifstudio.Prelude.{
  ℕ, ◌+◌, ◌≤◌, ◌≡◌, refl, false, List, [], ◌∷◌, Option, none, some, arith, All, In, length,
  Bool-cases, Option-cases, inl, inr, if◌then◌else◌,
}
use aifstudio.Text.{Text, elem}
use aifstudio.Text.Laws.{elem_sound}
use aifstudio.FilePath.{is_abs, clean, clean_parts}
use aifstudio.FilePath.Laws.{IsPlain, clean-IsPlain, clean-is_abs}
use aifstudio.Runner.Archive.{
  Entry, Outcome, failed, story, Scan, if_exts, lower_ext, out_path, is_unsafe, visit, conclude,
  scan, start, extract_zip, max_extract_files, max_extract_total, max_extract_per_file,
}

abbrev pub written : Outcome → List Text
written (failed w e) = w
written (story w p) = w

-- `story` with a supported extension, in the destination.
abbrev pub IsConfined : Text → Text → Type 0
IsConfined dest_dir p = (e : Text) × In e if_exts × (p ≡ out_path dest_dir e)

visit-IsConfined :
    (d : Text) (f : Entry) (s : Scan)
    → All (IsConfined d) s.written
    → All (IsConfined d) (visit d f s).0.written
unfolding visit
visit-IsConfined d f s h = elim (Bool-cases (elem (lower_ext f.name) if_exts)) [
  | inl e ↦
      let p : IsConfined d (out_path d (lower_ext f.name)) = (_, elem_sound _ _ e, refl) in
      ground arith
  | inr n ↦ ground arith
]

conclude-written : (s : Scan) → written (conclude s) ≡ s.written
unfolding conclude
conclude-written s = ground arith

scan-IsConfined :
    (d : Text) (fs : List Entry) (s : Scan)
    → All (IsConfined d) s.written
    → All (IsConfined d) (written (scan d fs s))
unfolding scan
scan-IsConfined d [] s h = rw (conclude-written s) h
scan-IsConfined d (f ∷ fs) s h = elim (Bool-cases f.is_dir) [
  | inl e ↦ rw (e, scan) (scan-IsConfined d fs s h)
  | inr e ↦ elim (Option-cases (visit d f s).1) [
    | inl ok ↦ rw (e, ok, scan) (scan-IsConfined d fs (visit d f s).0 (visit-IsConfined d f s h))
    | inr (x, bad) ↦ rw (e, bad, scan) (visit-IsConfined d f s h)
  ]
]

-- Whatever the archive holds and however the extraction ends, each file that it writes is `story`
-- with a supported extension, joined to the destination: no entry chooses where it is written.
pub extract_zip-IsConfined :
    (archive : Option (List Entry)) (d : Text)
    → All (IsConfined d) (written (extract_zip archive d))
unfolding extract_zip start
extract_zip-IsConfined none d = tt
extract_zip-IsConfined (some []) d = tt
extract_zip-IsConfined (some (f ∷ fs)) d =
    let whole : All (IsConfined d) (written (scan d (f ∷ fs) start)) =
      scan-IsConfined d (f ∷ fs) start tt in
    ground arith

-- The sizes of the entries that are no directories, added up.
abbrev pub total_size : List Entry → ℕ
total_size [] = 0
total_size (f ∷ fs) =
    let rest = total_size fs in if f.is_dir then rest else f.uncompressed_size + rest

abbrev pub IsAccepted : Entry → Type 0
IsAccepted f =
    f.is_dir ≡ false
    → (is_abs f.name ≡ false)
      × All IsPlain (clean_parts f.name)
      × (f.uncompressed_size ≤ max_extract_per_file)

pub visit_accepts :
    (d : Text) (f : Entry) (s : Scan)
    → (visit d f s).1 ≡ none
    → (is_unsafe f.name ≡ false)
      × (f.uncompressed_size ≤ max_extract_per_file)
      × ((visit d f s).0.total ≡ s.total + f.uncompressed_size)
      × ((visit d f s).0.total ≤ max_extract_total)
unfolding visit
visit_accepts d f s h = ground arith

safe-IsPlain :
    (f : Entry)
    → is_unsafe f.name ≡ false
    → (is_abs f.name ≡ false) × All IsPlain (clean_parts f.name)
unfolding is_unsafe
safe-IsPlain f h =
    let relative : is_abs (clean f.name) ≡ false = ground arith in
    (clean-is_abs f.name relative, clean-IsPlain f.name (ground arith) relative)

scan_accepts :
    (d : Text) (fs : List Entry) (s : Scan) (w : List Text) (p : Text)
    → scan d fs s ≡ story w p
    → s.total ≤ max_extract_total
    → All IsAccepted fs × (s.total + total_size fs ≤ max_extract_total)
unfolding scan
scan_accepts d [] s w p e h = (tt, omega arith)
scan_accepts d (f ∷ fs) s w p e h = elim (Bool-cases f.is_dir) [
  | inl dir ↦
      let (a, t) = scan_accepts d fs s w p (rw (dir, scan) at e) h in
      ((λ file. cc (dir, file), a), rw dir t)
  | inr file ↦ elim (Option-cases (visit d f s).1) [
    | inl ok ↦
        let (safe, small, total, fits) = visit_accepts d f s ok in
        let (a, t) = scan_accepts d fs (visit d f s).0 w p (rw (file, ok, scan) at e) fits in
        let (relative, plain) = safe-IsPlain f safe in
        ((λ _. (relative, plain, small), a), rw file (omega arith))
    | inr (x, bad) ↦ cc (rw (file, bad, scan) at e)
  ]
]

-- An accepted archive has between 1 and 100 entries. Of its entries that are no directories, each has
-- a name that is no absolute path and whose cleaned elements are not empty, not `.`, not `..` and
-- without a slash; each declares at most 50 MiB, and together they declare at most 100 MiB.
pub extract_zip_limits :
    (fs : List Entry) (d : Text) {w : List Text} {p : Text}
    → extract_zip (some fs) d ≡ story w p
    → (1 ≤ length fs)
      × (length fs ≤ max_extract_files)
      × All IsAccepted fs
      × (total_size fs ≤ max_extract_total)
unfolding extract_zip start
extract_zip_limits [] d e = cc
extract_zip_limits (f ∷ fs) d {w} {p} e =
    let few : length (f ∷ fs) ≤ max_extract_files = ground arith in
    let whole : scan d (f ∷ fs) start ≡ story w p = ground arith in
    let (a, t) = scan_accepts d (f ∷ fs) start w p whole (omega arith) in
    (omega arith, few, a, omega arith)
