-- ===== src/Ifdb/Format/Preferred.antt =====
-- PreferredFormat (service/internal/ifdb/client.go): which link of a catalogue entry is played.
use aifstudio.Prelude.{
  ◌≡◌, refl, ap, ◌∙◌, ◌≢◌, ◌⊎◌, ◌↔◌, inl, inr, false, List, [], ◌∷◌, ◌++◌, Option, none, some,
  arith, In, here, there, All, Bool-cases, Option-cases, some_eq,
}
use aifstudio.Text.{Text, text_eq, elem}
use aifstudio.Text.Laws.{text_eq_iff, elem_sound, elem_complete}
use aifstudio.Ifdb.Format.{
  known_formats, RawLink, DownloadLink, links_of, preference, first_of_format, first_preferred,
  first_known, preferred_format,
}
use aifstudio.Ifdb.Format.Links.{links_of-IsGathered}

-- No link has the format.
abbrev pub Absent : List DownloadLink → Text → Type 0
Absent ls f = All (λ m. m.format ≢ f) ls

first_of_format-none :
    (f : Text) (ls : List DownloadLink) → first_of_format f ls ≡ none → Absent ls f
unfolding first_of_format
first_of_format-none f [] e = tt
first_of_format-none f (l ∷ ls) e =
    (λ q. ground (arith, text_eq_iff l.format f), first_of_format-none f ls (ground arith))

first_of_format-some :
    (f : Text) (ls : List DownloadLink) {l : DownloadLink}
    → first_of_format f ls ≡ some l
    → In l ls × (l.format ≡ f)
unfolding first_of_format
first_of_format-some f [] e = absurd (cc)
first_of_format-some f (m ∷ ls) {l} e = elim (Bool-cases (text_eq m.format f)) [
  | inl y ↦ let q : m ≡ l = ground arith in rw (← q) (here, (text_eq_iff m.format f).0 y)
  | inr n ↦ let (i, q) = first_of_format-some f ls (ground arith) in (there i, q)
]

-- The format stands in the order with only absent ones before it.
abbrev pub IsFirst : List DownloadLink → List Text → Text → Type 0
IsFirst ls order f =
    (before : List Text) × (after : List Text) × (order ≡ before ++ (f ∷ after))
    × All (λ p. Absent ls p) before

first_preferred-some :
    (fs : List Text) (ls : List DownloadLink) {l : DownloadLink}
    → first_preferred fs ls ≡ some l
    → In l ls × IsFirst ls fs l.format
unfolding first_preferred
first_preferred-some [] ls e = absurd (cc)
first_preferred-some (f ∷ fs) ls {l} e = elim (Option-cases (first_of_format f ls)) [
  | inr (m, y) ↦
      let q : m ≡ l = some_eq (rw (y, first_preferred) at e) in
      let (i, g) = first_of_format-some f ls (y ∙ ap some q) in (i, ([], fs, rw g refl, tt))
  | inl n ↦
      let (i, first) = first_preferred-some fs ls (rw (n, first_preferred) at e) in
      let (before, after, q, absent) = first in
      (i, (f ∷ before, after, ap (λ t. f ∷ t) q, (first_of_format-none f ls n, absent)))
]

first_preferred-none :
    (fs : List Text) (ls : List DownloadLink)
    → first_preferred fs ls ≡ none
    → All (λ p. Absent ls p) fs
unfolding first_preferred
first_preferred-none [] ls e = tt
first_preferred-none (f ∷ fs) ls e = elim (Option-cases (first_of_format f ls)) [
  | inr (m, y) ↦ absurd (cc (rw (y, first_preferred) at e))
  | inl n ↦ (first_of_format-none f ls n, first_preferred-none fs ls (rw (n, first_preferred) at e))
]

first_known-some :
    (ls : List DownloadLink) {l : DownloadLink}
    → first_known ls ≡ some l
    → In l ls × In l.format known_formats
unfolding first_known
first_known-some [] e = absurd (cc)
first_known-some (m ∷ ls) {l} e = elim (Bool-cases (elem m.format known_formats)) [
  | inl y ↦ let q : m ≡ l = ground arith in rw (← q) (here, elem_sound m.format known_formats y)
  | inr n ↦ let (i, k) = first_known-some ls (ground arith) in (there i, k)
]

first_known-none :
    (ls : List DownloadLink)
    → first_known ls ≡ none
    → All (λ l. elem l.format known_formats ≡ false) ls
unfolding first_known
first_known-none [] e = tt
first_known-none (m ∷ ls) e = (ground arith, first_known-none ls (ground arith))

-- The link that is played is one of the links and of a known format; its format is the first of the
-- order of preference that any link has, or no link has a format of that order.
pub preferred_format_order :
    (ls : List DownloadLink) {l : DownloadLink}
    → preferred_format ls ≡ some l
    → In l ls
      × (IsFirst ls preference l.format
          ⊎ (In l.format known_formats × All (λ p. Absent ls p) preference))
unfolding preferred_format
preferred_format_order ls {l} e = elim (Option-cases (first_preferred preference ls)) [
  | inr (m, y) ↦
      let q : m ≡ l = some_eq (rw (y, preferred_format) at e) in
      let (i, f) = first_preferred-some preference ls (y ∙ ap some q) in (i, inl f)
  | inl n ↦
      let (i, k) = first_known-some ls (rw (n, preferred_format) at e) in
      (i, inr (k, first_preferred-none preference ls n))
]

preferred_format-none :
    (ls : List DownloadLink)
    → preferred_format ls ≡ none
    → All (λ l. elem l.format known_formats ≡ false) ls
unfolding preferred_format
preferred_format-none ls e = elim (Option-cases (first_preferred preference ls)) [
  | inr (m, y) ↦ absurd (cc (rw (y, preferred_format) at e))
  | inl n ↦ first_known-none ls (rw (n, preferred_format) at e)
]

no_links_left :
    (ls : List DownloadLink)
    → All (λ l. In l.format known_formats) ls
    → All (λ l. elem l.format known_formats ≡ false) ls
    → ls ≡ []
no_links_left [] k n = refl
no_links_left (l ∷ ls) (k, _) (n, _) = absurd (cc (elem_complete k))

-- An entry of the catalogue whose links give at least one recognised download has a playable link,
-- and no other entry has one.
pub preferred_format-links_of :
    (url_path : Text → Option Text) (raw : List RawLink)
    → (preferred_format (links_of url_path raw).links ≡ none) ↔ ((links_of url_path raw).links ≡ [])
unfolding preferred_format first_preferred first_of_format first_known
preferred_format-links_of url_path raw = (
  λ e.
      no_links_left (links_of url_path raw).links (links_of-IsGathered url_path raw).known
        (preferred_format-none (links_of url_path raw).links e),
  λ e. rw e refl,
)
