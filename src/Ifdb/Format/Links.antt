-- ===== src/Ifdb/Format/Links.antt =====
-- The links of viewgameToGame (service/internal/ifdb/client.go): which formats they carry.
use aifstudio.Prelude.{
  ◌≡◌, refl, ◌⊎◌, inl, inr, true, false, List, [], ◌∷◌, ◌++◌, Option, some, arith, In, here, there,
  In-append, In-last, All, All-map, All-concat, Bool-cases, Option-cases,
}
use aifstudio.Text.{Text, text, text_eq, has_suffix, to_lower, elem}
use aifstudio.Text.Laws.{text_eq_iff, elem_sound}
use aifstudio.Ifdb.Format.{
  known_formats, RawLink, DownloadLink, append_unique, by_field, by_path, Gathered, detect_format,
  add_link, gather, links_of,
}

t3_known : elem (text "t3") known_formats ≡ true
unfolding elem text_eq
t3_known = refl

gam_known : elem (text "gam") known_formats ≡ true
unfolding elem text_eq
gam_known = refl

by_field_known : (field : Text) {f : Text} → by_field field ≡ some f → elem f known_formats ≡ true
unfolding by_field
by_field_known field e = ground (arith, t3_known, gam_known)

by_path_known : (path : Text) (es : List Text) → (by_path path es ≡ []) ⊎ In (by_path path es) es
unfolding by_path
by_path_known path [] = inl refl
by_path_known path (e ∷ es) = elim (Bool-cases (has_suffix path (text "." ++ e))) [
  | inl h ↦ rw (h, by_path) (inr here)
  | inr h ↦ elim (by_path_known path es) [
    | inl n ↦ rw (h, by_path) (inl n)
    | inr i ↦ rw (h, by_path) (inr (there i))
  ]
]

module _ (url_path : Text → Option Text) where
  -- detectFormat gives the empty text or a known format.
  detect_format_known :
      (u f t : Text)
      → (detect_format url_path u f t ≡ []) ⊎ In (detect_format url_path u f t) known_formats
  unfolding detect_format
  detect_format_known u f t = elim (Option-cases (by_field f)) [
    | inr (x, e) ↦ rw (e, detect_format) (inr (elem_sound x known_formats (by_field_known f e)))
    | inl n ↦ elim (Option-cases (by_field t)) [
      | inr (x, e) ↦
          rw (n, e, detect_format) (inr (elem_sound x known_formats (by_field_known t e)))
      | inl m ↦ elim (Option-cases (url_path u)) [
        | inl q ↦ rw (n, m, q, detect_format) (inl refl)
        | inr (p, q) ↦ rw (n, m, q, detect_format) (by_path_known (to_lower p) known_formats)
      ]
    ]
  ]

abbrev pub Distinct : List Text → Type 0
Distinct [] = Unit
Distinct (x ∷ xs) = (elem x xs ≡ false) × Distinct xs

abbrev pub Used : List DownloadLink → Text → Type 0
Used links f = (l : DownloadLink) × In l links × (l.format ≡ f)

-- What holds of the links and formats gathered so far.
pub record IsGathered (g : Gathered) : Type 0 where
  pub known : All (λ l. In l.format known_formats) g.links
  pub listed : All (λ l. In l.format g.formats) g.links
  pub used : All (λ f. Used g.links f) g.formats
  pub once : Distinct g.formats

In-append_unique_self : (s : List Text) (v : Text) → In v (append_unique s v)
unfolding append_unique
In-append_unique_self s v = elim (Bool-cases (elem v s)) [
  | inl e ↦ rw e (elem_sound v s e)
  | inr n ↦ rw n (In-last s v)
]

In-append_unique : (s : List Text) (v : Text) {x : Text} → In x s → In x (append_unique s v)
unfolding append_unique
In-append_unique s v i = elim (Bool-cases (elem v s)) [
  | inl e ↦ rw e i
  | inr n ↦ rw n (In-append (v ∷ []) i)
]

All-append_unique :
    (P : Text → Type 0) (s : List Text) (v : Text) → All P s → P v → All P (append_unique s v)
unfolding append_unique
All-append_unique P s v h p = elim (Bool-cases (elem v s)) [
  | inl e ↦ rw e h
  | inr n ↦ rw n (All-concat P s h p)
]

elem-last :
    (x v : Text) (s : List Text)
    → elem x s ≡ false
    → text_eq x v ≡ false
    → elem x (s ++ (v ∷ [])) ≡ false
unfolding elem
elem-last x v [] h n = ground arith
elem-last x v (y ∷ s) h n = ground (arith, elem-last x v s)

Distinct-last :
    (s : List Text) (v : Text) → Distinct s → elem v s ≡ false → Distinct (s ++ (v ∷ []))
unfolding elem
Distinct-last [] v d n = (refl, tt)
Distinct-last (x ∷ s) v (e, d) n =
    let other : text_eq x v ≡ false = ground (arith, text_eq_iff x v, text_eq_iff v x) in
    (elem-last x v s e other, Distinct-last s v d (ground arith))

Distinct-append_unique : (s : List Text) (v : Text) → Distinct s → Distinct (append_unique s v)
unfolding append_unique
Distinct-append_unique s v d = elim (Bool-cases (elem v s)) [
  | inl e ↦ rw e d
  | inr n ↦ rw n (Distinct-last s v d n)
]

Used-append :
    (links : List DownloadLink) (l : DownloadLink) (f : Text)
    → Used links f
    → Used (links ++ (l ∷ [])) f
Used-append links l f (m, i, e) = (m, In-append (l ∷ []) i, e)

-- A link of a known format is added.
keep-IsGathered :
    (g : Gathered) (l : DownloadLink)
    → In l.format known_formats
    → IsGathered g
    → IsGathered
        (record g { links = g.links ++ (l ∷ []); formats = append_unique g.formats l.format })
keep-IsGathered g l k i = record {
  known = All-concat (λ m. In m.format known_formats) g.links i.known k;
  listed =
      All-concat (λ m. In m.format (append_unique g.formats l.format)) g.links
        (All-map (λ m. In m.format g.formats) (λ m. In m.format (append_unique g.formats l.format))
          (λ m j. In-append_unique g.formats l.format j) g.links i.listed)
        (In-append_unique_self g.formats l.format);
  used =
      All-append_unique (λ f. Used (g.links ++ (l ∷ [])) f) g.formats l.format
        (All-map (λ f. Used g.links f) (λ f. Used (g.links ++ (l ∷ [])) f)
          (λ f u. Used-append g.links l f u) g.formats i.used)
        (l, In-last g.links l, refl);
  once = Distinct-append_unique g.formats l.format i.once;
}

module _ (url_path : Text → Option Text) where
  format_known :
      (l : RawLink)
      → text_eq (detect_format url_path l.url l.format l.file_type) [] ≡ false
      → In (detect_format url_path l.url l.format l.file_type) known_formats
  format_known l n = elim (detect_format_known url_path l.url l.format l.file_type) [
    | inl e ↦ absurd (cc (n, (text_eq_iff _ _).1 e))
    | inr i ↦ i
  ]

  add_link-IsGathered :
      (l : RawLink) (g : Gathered) → IsGathered g → IsGathered (add_link url_path l g)
  unfolding add_link
  add_link-IsGathered l g i = elim (Bool-cases (text_eq l.url [])) [
    | inl e ↦ rw e i
    | inr u ↦ elim (Bool-cases (text_eq (detect_format url_path l.url l.format l.file_type) [])) [
      | inl e ↦
          rw (u, e) (record { known = i.known; listed = i.listed; used = i.used; once = i.once })
      | inr n ↦ rw (u, n) (keep-IsGathered g _ (format_known l n) i)
    ]
  ]

  gather-IsGathered :
      (ls : List RawLink) (g : Gathered) → IsGathered g → IsGathered (gather url_path ls g)
  unfolding gather
  gather-IsGathered [] g i = i
  gather-IsGathered (l ∷ ls) g i =
      gather-IsGathered ls (add_link url_path l g) (add_link-IsGathered l g i)

  -- Each download link of a catalogue entry carries a known format, which is in the entry's list of
  -- formats; that list names only formats of its links, each one once.
  pub links_of-IsGathered : (ls : List RawLink) → IsGathered (links_of url_path ls)
  unfolding links_of
  links_of-IsGathered ls =
      gather-IsGathered ls _ (record { known = tt; listed = tt; used = tt; once = tt })
