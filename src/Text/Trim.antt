-- ===== src/Text/Trim.antt =====
-- What trimmed texts hold: strings.TrimSpace.
use aifstudio.Prelude.{ℕ, ◌≡◌, refl, ap, ◌∙◌, Bool, [], ◌∷◌, All, arith, Bool-cases, inl, inr}
use aifstudio.Text.{Text, is_space, trim_left, trim_right, cons_trimmed, trim_space}

module _ (p : ℕ → Bool) where
  trim_left_idem : (s : Text) → trim_left p (trim_left p s) ≡ trim_left p s
  unfolding trim_left
  trim_left_idem [] = refl
  trim_left_idem (c ∷ s) = elim (Bool-cases (p c)) [
    | inl e ↦ rw e (trim_left_idem s)
    | inr n ↦ rw (n, n)
  ]

  cons_trimmed_idem :
      (c : ℕ) (t : Text)
      → trim_right p t ≡ t
      → trim_right p (cons_trimmed p c t) ≡ cons_trimmed p c t
  unfolding trim_right cons_trimmed
  cons_trimmed_idem c [] e = elim (Bool-cases (p c)) [
    | inl y ↦ rw (y, trim_right)
    | inr n ↦ rw (n, trim_right) (rw n)
  ]
  cons_trimmed_idem c (d ∷ t) e = rw e

  trim_right_idem : (s : Text) → trim_right p (trim_right p s) ≡ trim_right p s
  unfolding trim_right
  trim_right_idem [] = refl
  trim_right_idem (c ∷ s) = cons_trimmed_idem c (trim_right p s) (trim_right_idem s)

  cons_trimmed_tail : (c : ℕ) (r t : Text) → cons_trimmed p c r ≡ c ∷ t → r ≡ t
  unfolding cons_trimmed
  cons_trimmed_tail c [] t e = ground arith
  cons_trimmed_tail c (d ∷ r) t e = ground arith

  trim_left_keeps : (t : Text) → trim_right p t ≡ t → trim_right p (trim_left p t) ≡ trim_left p t
  unfolding trim_left trim_right
  trim_left_keeps [] e = refl
  trim_left_keeps (c ∷ t) e = elim (Bool-cases (p c)) [
    | inl y ↦ rw y (trim_left_keeps t (cons_trimmed_tail c (trim_right p t) t e))
    | inr n ↦ rw n e
  ]

  All-trim_left : (P : ℕ → Type 0) (s : Text) → All P s → All P (trim_left p s)
  unfolding trim_left
  All-trim_left P [] h = tt
  All-trim_left P (c ∷ s) h = elim (Bool-cases (p c)) [
    | inl e ↦ rw e (All-trim_left P s h.1)
    | inr n ↦ rw n h
  ]

  All-cons_trimmed :
      (P : ℕ → Type 0) (c : ℕ) (t : Text) → P c → All P t → All P (cons_trimmed p c t)
  unfolding cons_trimmed
  All-cons_trimmed P c [] q h = elim (Bool-cases (p c)) [ inl e ↦ rw e tt | inr n ↦ rw n (q, tt) ]
  All-cons_trimmed P c (d ∷ t) q h = (q, h)

  All-trim_right : (P : ℕ → Type 0) (s : Text) → All P s → All P (trim_right p s)
  unfolding trim_right
  All-trim_right P [] h = tt
  All-trim_right P (c ∷ s) h = All-cons_trimmed P c (trim_right p s) h.0 (All-trim_right P s h.1)

-- Trimming twice is trimming once.
pub trim_space_idem : (s : Text) → trim_space (trim_space s) ≡ trim_space s
unfolding trim_space
trim_space_idem s =
    ap (trim_left is_space)
      (trim_left_keeps is_space (trim_right is_space s) (trim_right_idem is_space s))
    ∙ trim_left_idem is_space (trim_right is_space s)

pub All-trim_space : (P : ℕ → Type 0) (s : Text) → All P s → All P (trim_space s)
unfolding trim_space
All-trim_space P s h = All-trim_left is_space P _ (All-trim_right is_space P s h)
