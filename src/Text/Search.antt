-- ===== src/Text/Search.antt =====
-- strings.Index: where it finds a text, and that no occurrence comes before.
use aifstudio.Prelude.{
  ℕ, zero, suc, ◌+◌, ◌≡◌, refl, sym, ap, ◌∙◌, true, false, [], ◌∷◌, ◌++◌, none, some, arith, length,
  take, drop, Bool-cases, Option-cases, some_eq, inl, inr, drop-append, append-nil,
}
use aifstudio.Text.{Text, text_eq, has_prefix, has_suffix, contains, index}
use aifstudio.Text.Laws.{has_prefix_sound}

has_prefix-drop : (s p : Text) → has_prefix s p ≡ true → s ≡ p ++ drop (length p) s
has_prefix-drop s p h =
    let (r, e) = has_prefix_sound s p h in rw e (ap (λ t. p ++ t) (sym (drop-append p r)))

suc_add : (j n : ℕ) → suc j + n ≡ suc (j + n)
suc_add j n = omega arith

zero_add : (n : ℕ) → 0 + n ≡ n
zero_add n = omega arith

has_prefix-append_left : (s p g : Text) → has_prefix s (p ++ g) ≡ true → has_prefix s p ≡ true
unfolding has_prefix
has_prefix-append_left s [] g h = refl
has_prefix-append_left [] (d ∷ p) g h = h
has_prefix-append_left (c ∷ s) (d ∷ p) g h = ground (arith, has_prefix-append_left s p g)

-- The text around the place where a text with a given beginning is found.
pub index-append :
    (s p g : Text) {i : ℕ}
    → index s (p ++ g) ≡ some i
    → s ≡ take i s ++ (p ++ drop (i + length p) s)
unfolding index has_prefix
index-append [] [] [] {i} e = rw (← some_eq e) refl
index-append [] [] (d ∷ g) e = absurd (cc)
index-append [] (d ∷ p) g e = absurd (cc)
index-append (c ∷ s) p g {i} e = elim (Bool-cases (has_prefix (c ∷ s) (p ++ g))) [
  | inl h ↦
      let q : 0 ≡ i = some_eq (rw (h, index) at e) in
      rw (← q, zero_add (length p))
        (has_prefix-drop (c ∷ s) p (has_prefix-append_left (c ∷ s) p g h))
  | inr n ↦ elim (Option-cases (index s (p ++ g))) [
    | inl m ↦ absurd (cc (rw (n, m, index) at e))
    | inr (j, m) ↦
        let q : suc j ≡ i = some_eq (rw (n, m, index) at e) in
        rw (← q, suc_add j (length p)) (ap (λ t. c ∷ t) (index-append s p g m))
  ]
]

-- The text around the place that is found.
pub index_sound :
    (s p : Text) {i : ℕ} → index s p ≡ some i → s ≡ take i s ++ (p ++ drop (i + length p) s)
index_sound s p e = index-append s p [] (ap (index s) (append-nil p) ∙ e)

has_prefix-take : (n : ℕ) (s p : Text) → has_prefix (take n s) p ≡ true → has_prefix s p ≡ true
unfolding has_prefix
has_prefix-take n s [] h = refl
has_prefix-take zero s (d ∷ p) h = absurd (cc)
has_prefix-take (suc n) [] (d ∷ p) h = h
has_prefix-take (suc n) (c ∷ s) (d ∷ p) h = ground (arith, has_prefix-take n s p)

text_eq-has_prefix : (s p : Text) → text_eq s p ≡ true → has_prefix s p ≡ true
unfolding text_eq has_prefix
text_eq-has_prefix [] [] h = refl
text_eq-has_prefix [] (d ∷ p) h = h
text_eq-has_prefix (c ∷ s) [] h = refl
text_eq-has_prefix (c ∷ s) (d ∷ p) h = ground (arith, text_eq-has_prefix s p)

-- A text that is not found is no suffix.
pub index-has_suffix : (s p : Text) → index s p ≡ none → has_suffix s p ≡ false
unfolding index has_suffix
index-has_suffix [] p e = ground (arith, text_eq-has_prefix [] p)
index-has_suffix (c ∷ s) p e = ground (arith, text_eq-has_prefix (c ∷ s) p, index-has_suffix s p)

-- What stands before the place that is found does not contain the text.
pub index_first :
    (s : Text) (d : ℕ) (p : Text) {i : ℕ}
    → index s (d ∷ p) ≡ some i
    → contains (take i s) (d ∷ p) ≡ false
unfolding index contains has_prefix
index_first [] d p e = absurd (cc)
index_first (c ∷ s) d p {i} e = elim (Bool-cases (has_prefix (c ∷ s) (d ∷ p))) [
  | inl h ↦ let q : 0 ≡ i = some_eq (rw (h, index) at e) in rw (← q) refl
  | inr n ↦ elim (Option-cases (index s (d ∷ p))) [
    | inl m ↦ absurd (cc (rw (n, m, index) at e))
    | inr (j, m) ↦
        let q : suc j ≡ i = some_eq (rw (n, m, index) at e) in
        rw (← q) (ground (arith, n, index_first s d p m, has_prefix-take (suc j) (c ∷ s) (d ∷ p)))
  ]
]
