-- ===== src/Runner/Archive/Best.antt =====
-- extractZip (service/internal/runner/extract.go): which entry becomes the story.
use aifstudio.Prelude.{
  ℕ, ◌≤◌, ◌≡◌, refl, sym, ◌∙◌, ◌≢◌, ◌⊎◌, inl, inr, true, false, List, [], ◌∷◌, none, some, arith,
  All, In, Bool-cases, Option-cases,
}
use aifstudio.Text.{Text, elem}
use aifstudio.Text.Laws.{text_eq_iff}
use aifstudio.FilePath.Laws.{join2-ne-nil}
use aifstudio.Runner.Archive.{
  Entry, story, Scan, if_exts, lower_ext, out_path, wants, visit, conclude, scan, start,
  extract_zip,
}

-- An entry that may become the story.
abbrev pub IsCandidate : Entry → Type 0
IsCandidate f = (f.is_dir ≡ false) × (elem (lower_ext f.name) if_exts ≡ true)

-- No candidate of the list declares more than `n` bytes.
abbrev pub Capped : ℕ → List Entry → Type 0
Capped n fs = All (λ g. IsCandidate g → g.uncompressed_size ≤ n) fs

pub out_path-ne-nil : (d e : Text) → out_path d e ≢ []
unfolding out_path
out_path-ne-nil d e = join2-ne-nil d _

-- The story of a scan that starts with the variables `s`: the one kept so far, or a later entry.
data Chosen (d : Text) (s : Scan) (fs : List Entry) (p : Text) : Type 0 where
  kept : p ≡ s.best_file → s.best_file ≢ [] → Capped s.best_size fs → Chosen d s fs p
  found :
      (f : Entry)
      → In f fs
      → IsCandidate f
      → p ≡ out_path d (lower_ext f.name)
      → (s.best_file ≡ []) ⊎ (s.best_size ≤ f.uncompressed_size)
      → Capped f.uncompressed_size fs
      → Chosen d s fs p

-- The three ways in which an entry is passed over or taken.
pub data Choice (d : Text) (f : Entry) (s s' : Scan) : Type 0 where
  no_story :
      elem (lower_ext f.name) if_exts ≡ false
      → s'.best_file ≡ s.best_file
      → s'.best_size ≡ s.best_size
      → Choice d f s s'
  smaller :
      s.best_file ≢ []
      → f.uncompressed_size ≤ s.best_size
      → s'.best_file ≡ s.best_file
      → s'.best_size ≡ s.best_size
      → Choice d f s s'
  taken :
      elem (lower_ext f.name) if_exts ≡ true
      → (s.best_file ≡ []) ⊎ (s.best_size ≤ f.uncompressed_size)
      → s'.best_file ≡ out_path d (lower_ext f.name)
      → s'.best_size ≡ f.uncompressed_size
      → Choice d f s s'

pub visit-Choice :
    (d : Text) (f : Entry) (s : Scan) → (visit d f s).1 ≡ none → Choice d f s (visit d f s).0
unfolding visit wants
visit-Choice d f s h = elim (Bool-cases (elem (lower_ext f.name) if_exts)) [
  | inl e ↦ elim (Bool-cases (wants s f.uncompressed_size)) [
    | inl w ↦ taken e (ground (arith, text_eq_iff s.best_file [])) (ground arith) (ground arith)
    | inr w ↦
        smaller (λ q. ground (arith, text_eq_iff s.best_file [])) (ground arith) (ground arith)
          (ground arith)
  ]
  | inr e ↦ no_story e (ground arith) (ground arith)
]

prepend :
    {d : Text} {f : Entry} {fs : List Entry} {s s' : Scan} {p : Text}
    → f.is_dir ≡ false
    → Choice d f s s'
    → Chosen d s' fs p
    → Chosen d s (f ∷ fs) p
prepend file (no_story n b z) (kept e k c) =
    kept (e ∙ b) (λ q. k (b ∙ q)) ((λ cand. cc (n, cand.1)), rw z at c)
prepend file (no_story n b z) (found g i cand e o c) =
    found g (In.there i) cand e (rw (b, z) at o) ((λ cand'. cc (n, cand'.1)), c)
prepend file (smaller k le b z) (kept e k' c) = kept (e ∙ b) k ((λ _. le), rw z at c)
prepend {f} {s} {s'} file (smaller k le b z) (found g i cand e o c) =
    let above : s.best_size ≤ g.uncompressed_size = elim o [
      | inl q ↦ absurd (k (sym b ∙ q))
      | inr q ↦ ground arith
    ] in
    found g (In.there i) cand e (inr above) ((λ _. omega arith), c)
prepend {d} {f} file (taken t o b z) (kept e k c) =
    found f In.here (file, t) (e ∙ b) o ((λ _. omega arith), rw z at c)
prepend {d} {f} {s} {s'} file (taken t o b z) (found g i cand e o' c) =
    let above : f.uncompressed_size ≤ g.uncompressed_size = elim o' [
      | inl q ↦ absurd (out_path-ne-nil d (lower_ext f.name) (sym b ∙ q))
      | inr q ↦ ground arith
    ] in
    found g (In.there i) cand e (ground arith) ((λ _. above), c)

prepend_dir :
    {d : Text} {f : Entry} {fs : List Entry} {s : Scan} {p : Text}
    → f.is_dir ≡ true
    → Chosen d s fs p
    → Chosen d s (f ∷ fs) p
prepend_dir dir (kept e k c) = kept e k ((λ cand. cc (dir, cand.0)), c)
prepend_dir dir (found g i cand e o c) =
    found g (In.there i) cand e o ((λ cand'. cc (dir, cand'.0)), c)

conclude-Chosen :
    (d : Text) (s : Scan) (w : List Text) (p : Text) → conclude s ≡ story w p → Chosen d s [] p
unfolding conclude
conclude-Chosen d s w p e = kept (ground arith) (λ q. ground (arith, text_eq_iff s.best_file [])) tt

scan-Chosen :
    (d : Text) (fs : List Entry) (s : Scan) (w : List Text) (p : Text)
    → scan d fs s ≡ story w p
    → Chosen d s fs p
unfolding scan
scan-Chosen d [] s w p e = conclude-Chosen d s w p e
scan-Chosen d (f ∷ fs) s w p e = elim (Bool-cases f.is_dir) [
  | inl dir ↦ prepend_dir dir (scan-Chosen d fs s w p (rw (dir, scan) at e))
  | inr file ↦ elim (Option-cases (visit d f s).1) [
    | inl ok ↦
        prepend file (visit-Choice d f s ok)
          (scan-Chosen d fs (visit d f s).0 w p (rw (file, ok, scan) at e))
    | inr (x, bad) ↦ cc (rw (file, bad, scan) at e)
  ]
]

start-Chosen :
    {d : Text} {fs : List Entry} {p : Text}
    → Chosen d start fs p
    → (f : Entry) × In f fs
      × IsCandidate f
      × (p ≡ out_path d (lower_ext f.name))
      × Capped f.uncompressed_size fs
unfolding start
start-Chosen (kept e k c) = absurd (k refl)
start-Chosen (found f i cand e o c) = (f, i, cand, e, c)

-- The story of an accepted archive is that of an entry of the archive that is no directory and has
-- a supported extension, and no other such entry declares a larger size.
pub extract_zip_largest :
    (fs : List Entry) (d : Text) {w : List Text} {p : Text}
    → extract_zip (some fs) d ≡ story w p
    → (f : Entry) × In f fs
      × IsCandidate f
      × (p ≡ out_path d (lower_ext f.name))
      × Capped f.uncompressed_size fs
unfolding extract_zip
extract_zip_largest [] d e = absurd (cc)
extract_zip_largest (f ∷ fs) d {w} {p} e =
    let whole : scan d (f ∷ fs) start ≡ story w p = ground arith in
    start-Chosen (scan-Chosen d (f ∷ fs) start w p whole)
