-- ===== src/FilePath/Laws.antt =====
-- What a cleaned path that does not start with two dots holds.
use mathlib.Core.List.{reverse_aux}
use aifstudio.Prelude.{
  ◌≡◌, refl, ap, ◌≢◌, ◌⊎◌, inl, inr, Bool, true, false, List, [], ◌∷◌, All, Bool-cases,
}
use aifstudio.Text.{Text, text, text_eq, has_prefix, split, join}
use aifstudio.Text.Laws.{text_eq_iff, text_eq_refl}
use aifstudio.Text.Lines.{Lacks, split-Lacks}
use aifstudio.FilePath.{
  slash, dot_dot, is_abs, up, push, push_all, clean_parts, rebuild, clean, join2,
}

-- An element that names something below the directory that it is joined to.
abbrev pub IsPlain : Text → Type 0
IsPlain p = (p ≢ []) × (p ≢ text ".") × (p ≢ dot_dot) × Lacks slash p

abbrev AllUp : List Text → Type 0
AllUp ps = All (λ p. p ≡ dot_dot) ps

-- Plain elements above a run of `..`.
data Stacked : List Text → Type 0 where
  ups : {ps : List Text} → AllUp ps → Stacked ps
  plain : {p : Text} {ps : List Text} → IsPlain p → Stacked ps → Stacked (p ∷ ps)

up-Stacked : (rooted : Bool) (stack : List Text) → Stacked stack → Stacked (up rooted stack)
unfolding up
up-Stacked true [] h = ups tt
up-Stacked false [] h = ups (refl, tt)
up-Stacked rooted (top ∷ below) (ups (e, h)) = rw (e, text_eq_refl dot_dot) (ups (refl, (refl, h)))
up-Stacked rooted (top ∷ below) (plain p h) = elim (Bool-cases (text_eq top dot_dot)) [
  | inl e ↦ absurd (p.2 ((text_eq_iff top dot_dot).0 e))
  | inr n ↦ rw n h
]

ne_of_test : (s t : Text) → text_eq s t ≡ false → s ≢ t
ne_of_test s t f e = cc (f, (text_eq_iff s t).1 e)

push-Stacked :
    (rooted : Bool) (stack : List Text) (p : Text)
    → Stacked stack
    → Lacks slash p
    → Stacked (push rooted stack p)
unfolding push
push-Stacked rooted stack p h l = elim (Bool-cases (text_eq p [])) [
  | inl a ↦ rw a h
  | inr a ↦ elim (Bool-cases (text_eq p (text "."))) [
    | inl b ↦ rw (a, b) h
    | inr b ↦ elim (Bool-cases (text_eq p dot_dot)) [
      | inl c ↦ rw (a, b, c) (up-Stacked rooted stack h)
      | inr c ↦
          rw (a, b, c)
            (plain (ne_of_test p [] a, ne_of_test p (text ".") b, ne_of_test p dot_dot c, l) h)
    ]
  ]
]

push_all-Stacked :
    (rooted : Bool) (stack ps : List Text)
    → Stacked stack
    → All (Lacks slash) ps
    → Stacked (push_all rooted stack ps)
unfolding push_all
push_all-Stacked rooted stack [] h l = h
push_all-Stacked rooted stack (p ∷ ps) h (l, ls) =
    push_all-Stacked rooted (push rooted stack p) ps (push-Stacked rooted stack p h l) ls

reverse-AllUp :
    (q : Text) (qs acc : List Text)
    → AllUp (q ∷ qs)
    → (ps : List Text) × (reverse_aux (q ∷ qs) acc ≡ dot_dot ∷ ps)
reverse-AllUp q [] acc (e, h) = (acc, ap (λ t. t ∷ acc) e)
reverse-AllUp q (r ∷ rs) acc (e, h) = reverse-AllUp r rs (q ∷ acc) h

reverse-Stacked :
    {stack : List Text} (acc : List Text)
    → Stacked stack
    → All IsPlain acc
    → All IsPlain (reverse_aux stack acc)
      ⊎ ((ps : List Text) × (reverse_aux stack acc ≡ dot_dot ∷ ps))
reverse-Stacked acc (ups {ps = []} u) h = inl h
reverse-Stacked acc (ups {ps = q ∷ qs} u) h = inr (reverse-AllUp q qs acc u)
reverse-Stacked acc (plain {p} i s) h = reverse-Stacked (p ∷ acc) s (i, h)

has_prefix-dot_dot : (ps : List Text) → has_prefix (rebuild false (dot_dot ∷ ps)) dot_dot ≡ true
unfolding rebuild join has_prefix
has_prefix-dot_dot [] = refl
has_prefix-dot_dot (p ∷ ps) = refl

rebuild-rooted : (b : Bool) (parts : List Text) → is_abs (rebuild b parts) ≡ false → b ≡ false
unfolding rebuild is_abs
rebuild-rooted true parts h = cc
rebuild-rooted false parts h = refl

-- filepath.Clean keeps whether a path is absolute.
pub clean-is_abs : (s : Text) → is_abs (clean s) ≡ false → is_abs s ≡ false
unfolding clean
clean-is_abs s h = rebuild-rooted (is_abs s) _ h

-- A cleaned path that is not absolute and does not start with two dots has plain elements only:
-- none is empty, `.` or `..`, and none holds a slash.
pub clean-IsPlain :
    (s : Text)
    → has_prefix (clean s) dot_dot ≡ false
    → is_abs (clean s) ≡ false
    → All IsPlain (clean_parts s)
unfolding clean clean_parts
clean-IsPlain s no_up no_root =
    elim (reverse-Stacked []
      (push_all-Stacked (is_abs s) [] (split slash s) (ups tt) (split-Lacks slash s)) tt) [
        | inl h ↦ h
        | inr (ps, e) ↦
            let rel : is_abs s ≡ false = rebuild-rooted (is_abs s) _ no_root in
            absurd (cc (has_prefix-dot_dot ps, rw (e, rel) at no_up))
      ]

abbrev IsNamed : Text → Type 0
IsNamed p = p ≢ []

dot_dot-IsNamed : (p : Text) → p ≡ dot_dot → IsNamed p
dot_dot-IsNamed p e = cc

AllUp-IsNamed : (ps : List Text) → AllUp ps → All IsNamed ps
AllUp-IsNamed [] u = tt
AllUp-IsNamed (q ∷ qs) (e, u) = (dot_dot-IsNamed q e, AllUp-IsNamed qs u)

Stacked-IsNamed : {stack : List Text} → Stacked stack → All IsNamed stack
Stacked-IsNamed (ups {ps} u) = AllUp-IsNamed ps u
Stacked-IsNamed (plain i s) = (i.0, Stacked-IsNamed s)

reverse-IsNamed :
    (stack acc : List Text)
    → All IsNamed stack
    → All IsNamed acc
    → All IsNamed (reverse_aux stack acc)
reverse-IsNamed [] acc h k = k
reverse-IsNamed (p ∷ ps) acc h k = reverse-IsNamed ps (p ∷ acc) h.1 (h.0, k)

rebuild-ne-nil : (b : Bool) (parts : List Text) → All IsNamed parts → rebuild b parts ≢ []
unfolding rebuild join
rebuild-ne-nil true parts h = λ e. cc
rebuild-ne-nil false [] h = λ e. cc
rebuild-ne-nil false ([] ∷ ps) h = absurd (h.0 refl)
rebuild-ne-nil false ((c ∷ p) ∷ []) h = λ e. cc
rebuild-ne-nil false ((c ∷ p) ∷ q ∷ ps) h = λ e. cc

-- filepath.Clean never gives the empty path.
pub clean-ne-nil : (s : Text) → clean s ≢ []
unfolding clean clean_parts
clean-ne-nil s = rebuild-ne-nil (is_abs s) _ (
    reverse-IsNamed (push_all (is_abs s) [] (split slash s)) []
      (Stacked-IsNamed
        (push_all-Stacked (is_abs s) [] (split slash s) (ups tt) (split-Lacks slash s)))
      tt)

pub join2-ne-nil : (dir name : Text) → join2 dir name ≢ []
unfolding join2
join2-ne-nil [] name = clean-ne-nil name
join2-ne-nil (c ∷ dir) name = clean-ne-nil _
