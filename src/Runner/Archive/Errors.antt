-- ===== src/Runner/Archive/Errors.antt =====
-- extractZip (service/internal/runner/extract.go): what each of its errors says of the archive, and
-- when it gives none.
use aifstudio.Prelude.{
  ℕ, ◌+◌, ◌<◌, ◌≡◌, refl, sym, ◌∙◌, ◌⊎◌, inl, inr, true, false, List, [], ◌∷◌, some, arith, All, In,
  length, Bool-cases, Option-cases, ltb,
}
use aifstudio.Text.{Text, elem}
use aifstudio.Text.Laws.{text_eq_iff}
use aifstudio.Runner.Archive.{
  Entry, EntryError, ArchiveError, empty, too_many_files, invalid_path, unsupported_format,
  too_large, extract_entry, failed, Scan, if_exts, lower_ext, is_unsafe, extract_entry_at, visit,
  conclude, scan, start, extract_zip, max_extract_files, max_extract_total, max_extract_per_file,
}
use aifstudio.Runner.Archive.Best.{
  IsCandidate, Choice, no_story, smaller, taken, visit-Choice, out_path-ne-nil,
}
use aifstudio.Runner.Archive.Safe.{total_size, visit_accepts}

-- Why the loop, started with `n` bytes counted, fails with an error.
pub data Reason (n : ℕ) (fs : List Entry) (e : ArchiveError) : Type 0 where
  unsafe_name :
      (f : Entry)
      → In f fs
      → f.is_dir ≡ false
      → is_unsafe f.name ≡ true
      → e ≡ invalid_path
      → Reason n fs e
  large_entry :
      (f : Entry)
      → In f fs
      → f.is_dir ≡ false
      → max_extract_per_file < f.uncompressed_size
      → e ≡ too_large
      → Reason n fs e
  large_total : max_extract_total < n + total_size fs → e ≡ too_large → Reason n fs e
  broken :
      (f : Entry) (x : EntryError)
      → In f fs
      → IsCandidate f
      → (extract_entry_at f).1 ≡ some x
      → e ≡ extract_entry x
      → Reason n fs e
  no_candidate : All (λ f. ¬ IsCandidate f) fs → e ≡ unsupported_format → Reason n fs e

visit-Reason :
    (d : Text) (f : Entry) (fs : List Entry) (s : Scan) (e : ArchiveError)
    → f.is_dir ≡ false
    → (visit d f s).1 ≡ some e
    → Reason s.total (f ∷ fs) e
unfolding visit
visit-Reason d f fs s e file h = elim (Bool-cases (is_unsafe f.name)) [
  | inl u ↦ unsafe_name f In.here file u (ground arith)
  | inr u ↦ elim (Bool-cases (ltb max_extract_per_file f.uncompressed_size)) [
    | inl l ↦ large_entry f In.here file (ground arith) (ground arith)
    | inr l ↦ elim (Bool-cases (ltb max_extract_total (s.total + f.uncompressed_size))) [
      | inl t ↦ large_total (ground arith) (ground arith)
      | inr t ↦ elim (Bool-cases (elem (lower_ext f.name) if_exts)) [
        | inl c ↦ elim (Option-cases (extract_entry_at f).1) [
          | inl ok ↦ absurd (ground arith)
          | inr (x, bad) ↦ broken f x In.here (file, c) bad (ground arith)
        ]
        | inr c ↦ absurd (ground arith)
      ]
    ]
  ]
]

Reason-cons_dir :
    {n : ℕ} {f : Entry} {fs : List Entry} {e : ArchiveError}
    → f.is_dir ≡ true
    → Reason n fs e
    → Reason n (f ∷ fs) e
Reason-cons_dir dir (unsafe_name g i file u q) = unsafe_name g (In.there i) file u q
Reason-cons_dir dir (large_entry g i file u q) = large_entry g (In.there i) file u q
Reason-cons_dir dir (large_total t q) = large_total (rw dir t) q
Reason-cons_dir dir (broken g x i c b q) = broken g x (In.there i) c b q
Reason-cons_dir dir (no_candidate a q) = no_candidate ((λ c. cc (dir, c.0)), a) q

Reason-cons_file :
    {n m : ℕ} {f : Entry} {fs : List Entry} {e : ArchiveError}
    → f.is_dir ≡ false
    → m ≡ n + f.uncompressed_size
    → (e ≡ unsupported_format → ¬ IsCandidate f)
    → Reason m fs e
    → Reason n (f ∷ fs) e
Reason-cons_file file t never (unsafe_name g i file' u q) = unsafe_name g (In.there i) file' u q
Reason-cons_file file t never (large_entry g i file' u q) = large_entry g (In.there i) file' u q
Reason-cons_file file t never (large_total l q) = large_total (rw file (omega arith)) q
Reason-cons_file file t never (broken g x i c b q) = broken g x (In.there i) c b q
Reason-cons_file file t never (no_candidate a q) = no_candidate (never q, a) q

visit_not_unsupported :
    (d : Text) (f : Entry) (s : Scan) → (visit d f s).1 ≡ some unsupported_format → ⊥
unfolding visit
visit_not_unsupported d f s h = ground arith

conclude_failed :
    (s : Scan) (w : List Text) (e : ArchiveError)
    → conclude s ≡ failed w e
    → (s.best_file ≡ []) × (e ≡ unsupported_format)
unfolding conclude
conclude_failed s w e h = (ground (arith, text_eq_iff s.best_file []), ground arith)

-- The scan ends with the unsupported-format error only if nothing was chosen on the way.
scan_unsupported :
    (d : Text) (fs : List Entry) (s : Scan) (w : List Text)
    → scan d fs s ≡ failed w unsupported_format
    → s.best_file ≡ []
unfolding scan
scan_unsupported d [] s w h = (conclude_failed s w _ h).0
scan_unsupported d (f ∷ fs) s w h = elim (Bool-cases f.is_dir) [
  | inl dir ↦ scan_unsupported d fs s w (rw (dir, scan) at h)
  | inr file ↦ elim (Option-cases (visit d f s).1) [
    | inl ok ↦
        let later = scan_unsupported d fs (visit d f s).0 w (rw (file, ok, scan) at h) in
        elim (visit-Choice d f s ok) [
          | no_story n b z ↦ sym b ∙ later
          | smaller k le b z ↦ sym b ∙ later
          | taken t o b z ↦ absurd (out_path-ne-nil d (lower_ext f.name) (sym b ∙ later))
        ]
    | inr (x, bad) ↦
        let stop : failed (visit d f s).0.written x ≡ failed w unsupported_format =
          (rw (file, bad, scan) at h) in
        absurd (visit_not_unsupported d f s (cc (bad, stop)))
  ]
]

not_taken :
    {d : Text} {f : Entry} {s s' : Scan}
    → s'.best_file ≡ []
    → s.best_file ≡ []
    → Choice d f s s'
    → elem (lower_ext f.name) if_exts ≡ true
    → ⊥
not_taken after before (no_story n b z) c = cc (n, c)
not_taken after before (smaller k le b z) c = k before
not_taken {d} {f} after before (taken t o b z) c =
    out_path-ne-nil d (lower_ext f.name) (sym b ∙ after)

scan-Reason :
    (d : Text) (fs : List Entry) (s : Scan) (w : List Text) (e : ArchiveError)
    → scan d fs s ≡ failed w e
    → Reason s.total fs e
unfolding scan
scan-Reason d [] s w e h = no_candidate tt (conclude_failed s w e h).1
scan-Reason d (f ∷ fs) s w e h = elim (Bool-cases f.is_dir) [
  | inl dir ↦ Reason-cons_dir dir (scan-Reason d fs s w e (rw (dir, scan) at h))
  | inr file ↦ elim (Option-cases (visit d f s).1) [
    | inl ok ↦
        let h' : scan d fs (visit d f s).0 ≡ failed w e = (rw (file, ok, scan) at h) in
        Reason-cons_file file (visit_accepts d f s ok).2
          (λ q c.
            not_taken (scan_unsupported d fs _ w (rw q at h'))
              (scan_unsupported d (f ∷ fs) s w (rw q at h)) (visit-Choice d f s ok) c.1)
          (scan-Reason d fs (visit d f s).0 w e h')
    | inr (x, bad) ↦
        let stop : failed (visit d f s).0.written x ≡ failed w e = (rw (file, bad, scan) at h) in
        visit-Reason d f fs s e file (cc (bad, stop))
  ]
]

-- extractZip fails on an archive that opens only for a reason that the archive shows: it has no
-- entry; it has more than 100; an entry that is no directory cleans to an absolute path or to one
-- that starts with two dots; such an entry declares more than 50 MiB, or all of them together more
-- than 100 MiB; a candidate's extraction fails; or no entry is a candidate. The error is that reason's.
pub extract_zip-Reason :
    (fs : List Entry) (d : Text) {w : List Text} {e : ArchiveError}
    → extract_zip (some fs) d ≡ failed w e
    → ((length fs ≡ 0) × (e ≡ empty))
      ⊎ ((max_extract_files < length fs) × (e ≡ too_many_files))
      ⊎ Reason 0 fs e
unfolding extract_zip start
extract_zip-Reason [] d h = inl (refl, ground arith)
extract_zip-Reason (f ∷ fs) d {w} {e} h =
    elim (Bool-cases (ltb max_extract_files (length (f ∷ fs)))) [
      | inl many ↦ inr (inl (ground arith, ground arith))
      | inr few ↦ inr (inr (scan-Reason d (f ∷ fs) start w e (ground arith)))
    ]
