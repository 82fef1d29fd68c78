-- ===== src/Store/Blobs/Laws.antt =====
-- Blobs that are uploaded, downloaded and deleted (service/internal/store/local_blob.go).
use aifstudio.Prelude.{
  ℕ, ◌+◌, ◌≡◌, refl, ap, Bool, true, false, ◌&&◌, List, [], ◌∷◌, Option, none, some, arith,
  if◌then◌else◌, any, length, Bool-cases, Option-cases, inl, inr,
}
use aifstudio.Text.{Text, text_eq}
use aifstudio.Text.Laws.{text_eq_iff, text_eq_refl}
use aifstudio.Store.Blobs.{
  Files, get_file, remove_file, put_file, abs_path, UploadWorld, upload_blob, download_blob,
  is_below, is_through, walk, delete_blob_prefix,
}

get_file-remove_file :
    (p q : Text) (fs : Files)
    → get_file q (remove_file p fs) ≡ (if text_eq p q then none else get_file q fs)
unfolding get_file remove_file
get_file-remove_file p q [] = ground arith
get_file-remove_file p q ((r, d) ∷ fs) =
    ground (arith, get_file-remove_file p q fs, text_eq_iff p q, text_eq_iff r p, text_eq_iff r q)

get_file-put_file :
    (p q : Text) (d : List ℕ) (fs : Files)
    → get_file q (put_file p d fs) ≡ (if text_eq p q then some d else get_file q fs)
unfolding get_file put_file
get_file-put_file p q d fs = ground (arith, get_file-remove_file p q fs)

-- Whether two blob paths name the same file.
abbrev pub same_file : Option Text → Option Text → Bool
same_file none q = false
same_file (some p) none = false
same_file (some p) (some q) = text_eq p q

-- What a successful upload has done.
stored :
    (root path : Text) (w : UploadWorld) (bytes : List ℕ) (fs : Files)
    → (upload_blob root w path bytes fs).1 ≡ true
    → (p : Text) × (abs_path root path ≡ some p)
      × ((upload_blob root w path bytes fs).0 ≡ put_file p bytes fs)
unfolding upload_blob
stored root path w bytes fs y =
    let worked = w.made_directory && w.made_file && w.copied && w.closed && w.renamed in
    elim (Option-cases (abs_path root path)) [
      | inl n ↦ absurd (ground (arith, n, y))
      | inr (p, e) ↦ elim (Bool-cases worked) [
        | inl t ↦ (p, e, rw (upload_blob, e, t) refl)
        | inr f ↦ absurd (ground (arith, e, f, y))
      ]
    ]

-- After a successful UploadBlob, DownloadBlob gives the uploaded bytes for each blob path of the same
-- file, the path of the upload being one, and for any other path what it gave before.
pub upload_blob-download_blob :
    (root path : Text) (w : UploadWorld) (bytes : List ℕ) (fs : Files)
    → (upload_blob root w path bytes fs).1 ≡ true
    → (q : Text)
    → (same_file (abs_path root path) (abs_path root path) ≡ true)
      × (download_blob root true q (upload_blob root w path bytes fs).0 ≡ (
          if same_file (abs_path root path) (abs_path root q)
          then some bytes
          else download_blob root true q fs))
unfolding download_blob
upload_blob-download_blob root path w bytes fs y q =
    let (p, e, put) = stored root path w bytes fs y in
    rw (e, put)
      (
        text_eq_refl p,
        elim (Option-cases (abs_path root q)) [
          | inl n ↦ rw (download_blob, n) refl
          | inr (r, f) ↦ rw (download_blob, f) (get_file-put_file p r bytes fs)
        ],
      )

-- The files at or below a directory, and the rest.
abbrev pub outside : Text → Files → Files
outside dir [] = []
outside dir (f ∷ fs) = if is_below dir f.0 then outside dir fs else f ∷ outside dir fs

walk-all :
    (removes : Text → Bool) (dir : Text) (fs : Files)
    → (walk removes dir fs).2 ≡ true
    → ((walk removes dir fs).0 ≡ outside dir fs)
      × ((walk removes dir fs).1 + length (outside dir fs) ≡ length fs)
unfolding walk
walk-all removes dir [] y = (refl, refl)
walk-all removes dir ((p, d) ∷ fs) y = elim (Bool-cases (is_below dir p)) [
  | inr n ↦
      let (a, b) = walk-all removes dir fs (ground (arith, n, y)) in
      rw n (ap (λ gs. (p, d) ∷ gs) a, omega (arith, b))
  | inl t ↦ elim (Bool-cases (removes p)) [
    | inr n ↦ absurd (ground (arith, t, n, y))
    | inl r ↦
        let (a, b) = walk-all removes dir fs (ground (arith, t, r, y)) in
        rw (t, r) (a, omega (arith, b))
  ]
]

none-below :
    (dir : Text) (fs : Files) → any (λ f. is_below dir f.0) fs ≡ false → outside dir fs ≡ fs
none-below dir [] n = refl
none-below dir (f ∷ fs) n = elim (Bool-cases (is_below dir f.0)) [
  | inl y ↦ absurd (ground (arith, y, n))
  | inr m ↦ rw m (ap (λ gs. f ∷ gs) (none-below dir fs (ground (arith, m, n))))
]

-- A successful DeleteBlobPrefix leaves exactly the files that are neither the prefix, taken as a path,
-- nor below it as a directory, in their order and with their bytes, and counts the files that are gone.
pub delete_blob_prefix_lem :
    (root prefix : Text) (removes : Text → Bool) (fs : Files)
    → (delete_blob_prefix root removes prefix fs).2 ≡ true
    → (dir : Text) × (abs_path root prefix ≡ some dir)
      × ((delete_blob_prefix root removes prefix fs).0 ≡ outside dir fs)
      × ((delete_blob_prefix root removes prefix fs).1 + length (outside dir fs) ≡ length fs)
unfolding delete_blob_prefix
delete_blob_prefix_lem root prefix removes fs y = elim (Option-cases (abs_path root prefix)) [
  | inl n ↦ absurd (ground (arith, n, y))
  | inr (dir, e) ↦ elim (Bool-cases (any (λ f. is_through dir f.0) fs)) [
    | inl through ↦ absurd (ground (arith, e, through, y))
    | inr free ↦ elim (Bool-cases (any (λ f. is_below dir f.0) fs)) [
      | inl some_below ↦
          let (a, b) = walk-all removes dir fs (ground (arith, e, free, some_below, y)) in
          (
            dir,
            e,
            rw (delete_blob_prefix, e, free, some_below) a,
            rw (delete_blob_prefix, e, free, some_below) b,
          )
      | inr m ↦
          let z = none-below dir fs m in
          (
            dir,
            e,
            rw (delete_blob_prefix, e, free, m, z) refl,
            rw (delete_blob_prefix, e, free, m, z) (omega arith),
          )
    ]
  ]
]

-- Nothing is left below a directory.
pub outside-none : (dir : Text) (fs : Files) → any (λ f. is_below dir f.0) (outside dir fs) ≡ false
outside-none dir [] = refl
outside-none dir (f ∷ fs) = elim (Bool-cases (is_below dir f.0)) [
  | inl y ↦ rw y (outside-none dir fs)
  | inr n ↦ rw (n, n) (outside-none dir fs)
]
