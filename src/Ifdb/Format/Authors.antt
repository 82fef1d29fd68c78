-- ===== src/Ifdb/Format/Authors.antt =====
-- splitAuthors (service/internal/ifdb/client.go)
use aifstudio.Prelude.{◌≡◌, ◌≢◌, List, [], ◌∷◌, ◌++◌, All, All-concat, Bool-cases, inl, inr}
use aifstudio.Text.{Text, text_eq, trim_space, split}
use aifstudio.Text.Laws.{text_eq_iff}
use aifstudio.Text.Lines.{Lacks, split-Lacks}
use aifstudio.Text.Trim.{trim_space_idem, All-trim_space}
use aifstudio.Ifdb.Format.{add_authors, add_parts, split_authors}

-- A single name.
abbrev pub IsAuthor : Text → Type 0
IsAuthor a = (a ≢ []) × (trim_space a ≡ a) × Lacks b',' a

add_authors-IsAuthor :
    (out subs : List Text)
    → All IsAuthor out
    → All (Lacks b',') subs
    → All IsAuthor (add_authors out subs)
unfolding add_authors
add_authors-IsAuthor out [] h l = h
add_authors-IsAuthor out (sub ∷ subs) h (l, ls) = elim (Bool-cases (text_eq (trim_space sub) [])) [
  | inl e ↦ rw e (add_authors-IsAuthor out subs h ls)
  | inr n ↦
      let one : IsAuthor (trim_space sub) = (
        λ q. cc (n, (text_eq_iff (trim_space sub) []).1 q),
        trim_space_idem sub,
        All-trim_space (λ c. c ≢ b',') sub l,
      ) in
      rw n (
        add_authors-IsAuthor (out ++ (trim_space sub ∷ [])) subs (All-concat IsAuthor out h one) ls)
]

add_parts-IsAuthor : (out ps : List Text) → All IsAuthor out → All IsAuthor (add_parts out ps)
unfolding add_parts
add_parts-IsAuthor out [] h = h
add_parts-IsAuthor out (p ∷ ps) h =
    add_parts-IsAuthor (add_authors out (split b',' p)) ps
      (add_authors-IsAuthor out (split b',' p) h (split-Lacks b',' p))

-- Whatever the catalogue's author line, each author that it is split into is not empty, has no space
-- at its ends, and holds no comma.
pub split_authors-IsAuthor : (single : Text) → All IsAuthor (split_authors single)
unfolding split_authors
split_authors-IsAuthor single = elim (Bool-cases (text_eq single [])) [
  | inl e ↦ rw e tt
  | inr n ↦ rw n (add_parts-IsAuthor [] _ tt)
]
