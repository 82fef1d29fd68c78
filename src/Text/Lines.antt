-- ===== src/Text/Lines.antt =====
-- strings.Split and strings.Join at one character.
use aifstudio.Prelude.{
  ℕ, ◌≡◌, refl, ap, ◌≢◌, false, List, [], ◌∷◌, ◌++◌, All, ==_iff, Bool-cases, ◌==◌, arith, inl, inr,
  sym, ◌∙◌,
}
use aifstudio.Text.{Text, split, join, cons_head}

abbrev pub Lacks : ℕ → Text → Type 0
Lacks sep s = All (λ c. c ≢ sep) s

-- split never gives the empty list.
pub split-cons : (sep : ℕ) (s : Text) → (p : Text) × (ps : List Text) × (split sep s ≡ p ∷ ps)
unfolding split cons_head
split-cons sep [] = ([], [], refl)
split-cons sep (c ∷ s) = elim (Bool-cases (c == sep)) [
  | inl e ↦ ([], split sep s, rw e)
  | inr n ↦ let (p, ps, h) = split-cons sep s in (c ∷ p, ps, rw (n, h))
]

join-cons_head :
    (sep c : ℕ) (p : Text) (ps : List Text) → join sep ((c ∷ p) ∷ ps) ≡ c ∷ join sep (p ∷ ps)
unfolding join
join-cons_head sep c p [] = refl
join-cons_head sep c p (q ∷ ps) = refl

-- Joining the parts gives the text back.
pub join-split : (sep : ℕ) (s : Text) → join sep (split sep s) ≡ s
unfolding split join cons_head
join-split sep [] = refl
join-split sep (c ∷ s) = elim (Bool-cases (c == sep)) [
  | inl e ↦
      let (p, ps, h) = split-cons sep s in
      let same : c ≡ sep = (==_iff c sep).0 e in
      let whole : join sep (p ∷ ps) ≡ s = (rw h at (join-split sep s)) in
      rw (e, h) (cc (same, whole))
  | inr n ↦
      let (p, ps, h) = split-cons sep s in
      let whole : join sep (p ∷ ps) ≡ s = (rw h at (join-split sep s)) in
      rw (n, h) (join-cons_head sep c p ps ∙ ap (λ t. c ∷ t) whole)
]

cons_head-Lacks :
    (sep c : ℕ) (ps : List Text) → c ≢ sep → All (Lacks sep) ps → All (Lacks sep) (cons_head c ps)
unfolding cons_head
cons_head-Lacks sep c [] n h = ((n, tt), tt)
cons_head-Lacks sep c (p ∷ ps) n h = ((n, h.0), h.1)

-- No part holds the separator.
pub split-Lacks : (sep : ℕ) (s : Text) → All (Lacks sep) (split sep s)
unfolding split
split-Lacks sep [] = (tt, tt)
split-Lacks sep (c ∷ s) = elim (Bool-cases (c == sep)) [
  | inl e ↦ rw e (tt, split-Lacks sep s)
  | inr n ↦ rw n (cons_head-Lacks sep c (split sep s) (ground arith) (split-Lacks sep s))
]

cons_head-append :
    (sep c : ℕ) (s : Text) (ps : List Text)
    → cons_head c (split sep s) ++ ps ≡ cons_head c (split sep s ++ ps)
unfolding cons_head
cons_head-append sep c s ps = let (p, qs, h) = split-cons sep s in rw h

-- A separator splits the text into the parts before it and those after it.
pub split-append : (sep : ℕ) (s t : Text) → split sep (s ++ (sep ∷ t)) ≡ split sep s ++ split sep t
unfolding split
split-append sep [] t = rw ((==_iff sep sep).1 refl)
split-append sep (c ∷ s) t = elim (Bool-cases (c == sep)) [
  | inl e ↦ rw e (ap (λ l. [] ∷ l) (split-append sep s t))
  | inr n ↦
      rw n (ap (cons_head c) (split-append sep s t) ∙ sym (cons_head-append sep c s (split sep t)))
]

pub split_one : (sep : ℕ) (s : Text) → Lacks sep s → split sep s ≡ s ∷ []
unfolding split cons_head
split_one sep [] h = refl
split_one sep (c ∷ s) (n, h) =
    let other : (c == sep) ≡ false = ground arith in rw (other, split_one sep s h)
