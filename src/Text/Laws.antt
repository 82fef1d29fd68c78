-- ===== src/Text/Laws.antt =====
-- What the tests of Go's `strings` package decide.
use aifstudio.Prelude.{
  ◌≡◌, refl, ap, ◌↔◌, inl, inr, Bool, true, false, ◌||◌, List, [], ◌∷◌, ◌++◌, ==_iff, and-eq-true,
  or-eq-true, In, any, ◌==◌,
}
use aifstudio.Text.{Text, text_eq, has_prefix, has_suffix, contains, elem}

pub text_eq_sound : (s t : Text) → text_eq s t ≡ true → s ≡ t
unfolding text_eq
text_eq_sound [] [] h = refl
text_eq_sound [] (d ∷ t) h = cc
text_eq_sound (c ∷ s) [] h = cc
text_eq_sound (c ∷ s) (d ∷ t) h =
    let (p, q) = and-eq-true (c == d) (text_eq s t) h in cc ((==_iff c d).0 p, text_eq_sound s t q)

pub text_eq_refl : (s : Text) → text_eq s s ≡ true
unfolding text_eq
text_eq_refl [] = refl
text_eq_refl (c ∷ s) = rw ((==_iff c c).1 refl) (text_eq_refl s)

-- Equality of texts decides their identity.
pub text_eq_iff : (s t : Text) → (text_eq s t ≡ true) ↔ (s ≡ t)
text_eq_iff s t = (text_eq_sound s t, λ e. rw e (text_eq_refl t))

pub has_prefix_sound : (s p : Text) → has_prefix s p ≡ true → (r : Text) × (s ≡ p ++ r)
unfolding has_prefix
has_prefix_sound s [] h = (s, refl)
has_prefix_sound [] (d ∷ p) h = ([], cc)
has_prefix_sound (c ∷ s) (d ∷ p) h =
    let (e, q) = and-eq-true (c == d) (has_prefix s p) h in
    let (r, f) = has_prefix_sound s p q in (r, cc ((==_iff c d).0 e, f))

pub has_prefix-append : (p r : Text) → has_prefix (p ++ r) p ≡ true
unfolding has_prefix
has_prefix-append [] r = refl
has_prefix-append (c ∷ p) r = rw ((==_iff c c).1 refl) (has_prefix-append p r)

pub has_suffix_sound : (s p : Text) → has_suffix s p ≡ true → (r : Text) × (s ≡ r ++ p)
unfolding has_suffix
has_suffix_sound [] p h = ([], text_eq_sound [] p h)
has_suffix_sound (c ∷ s) p h = elim (or-eq-true (text_eq (c ∷ s) p) (has_suffix s p) h) [
  | inl e ↦ ([], text_eq_sound (c ∷ s) p e)
  | inr k ↦ let (r, f) = has_suffix_sound s p k in (c ∷ r, ap (λ l. c ∷ l) f)
]

has_suffix_refl : (p : Text) → has_suffix p p ≡ true
unfolding has_suffix
has_suffix_refl [] = text_eq_refl []
has_suffix_refl (c ∷ p) = rw (text_eq_refl (c ∷ p))

or-true : (b : Bool) → (b || true) ≡ true
or-true true = refl
or-true false = refl

pub has_suffix-append : (r p : Text) → has_suffix (r ++ p) p ≡ true
unfolding has_suffix
has_suffix-append [] p = has_suffix_refl p
has_suffix-append (c ∷ r) p = rw (has_suffix-append r p) (or-true (text_eq (c ∷ (r ++ p)) p))

pub contains_sound :
    (s p : Text) → contains s p ≡ true → (l : Text) × (r : Text) × (s ≡ l ++ (p ++ r))
unfolding contains
contains_sound [] p h = let (r, e) = has_prefix_sound [] p h in ([], r, e)
contains_sound (c ∷ s) p h = elim (or-eq-true (has_prefix (c ∷ s) p) (contains s p) h) [
  | inl e ↦ let (r, f) = has_prefix_sound (c ∷ s) p e in ([], r, f)
  | inr k ↦ let (l, r, f) = contains_sound s p k in (c ∷ l, r, ap (λ t. c ∷ t) f)
]

pub any_sound {ℓ} :
    {A : Type ℓ} (p : A → Bool) (xs : List A) → any p xs ≡ true → (x : A) × In x xs × (p x ≡ true)
any_sound p [] h = cc
any_sound p (x ∷ xs) h = elim (or-eq-true (p x) (any p xs) h) [
  | inl e ↦ (x, In.here, e)
  | inr k ↦ let (y, i, e) = any_sound p xs k in (y, In.there i, e)
]

pub any_complete {ℓ} :
    {A : Type ℓ} (p : A → Bool) {x : A} {xs : List A} → In x xs → p x ≡ true → any p xs ≡ true
any_complete p In.here e = rw e
any_complete p {xs = y ∷ ys} (In.there i) e = rw (any_complete p i e) (or-true (p y))

pub elem_sound : (s : Text) (xs : List Text) → elem s xs ≡ true → In s xs
unfolding elem
elem_sound s xs h =
    let (y, i, e) = any_sound (text_eq s) xs h in let q : s ≡ y = text_eq_sound s y e in rw q i

pub elem_complete : {s : Text} {xs : List Text} → In s xs → elem s xs ≡ true
unfolding elem
elem_complete {s} i = any_complete (text_eq s) i (text_eq_refl s)
