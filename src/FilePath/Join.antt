-- ===== src/FilePath/Join.antt =====
-- filepath.Join of a directory and a plain name.
use mathlib.Core.List.{reverse, reverse-cons}
use aifstudio.Prelude.{
  ◌≡◌, refl, sym, ap, ◌∙◌, ◌≢◌, inl, inr, Bool, true, false, List, [], ◌∷◌, ◌++◌, Bool-cases,
  append_assoc,
}
use aifstudio.Text.{Text, text, text_eq, split, join}
use aifstudio.Text.Laws.{text_eq_iff}
use aifstudio.Text.Lines.{split-append, split_one}
use aifstudio.FilePath.{slash, dot_dot, is_abs, push, push_all, clean_parts, rebuild, clean, join2}
use aifstudio.FilePath.Laws.{IsPlain}

test_of_ne : (s t : Text) → s ≢ t → text_eq s t ≡ false
test_of_ne s t n = elim (Bool-cases (text_eq s t)) [
  | inl e ↦ absurd (n ((text_eq_iff s t).0 e))
  | inr f ↦ f
]

push_plain :
    (rooted : Bool) (stack : List Text) (p : Text) → IsPlain p → push rooted stack p ≡ p ∷ stack
unfolding push
push_plain rooted stack p (a, b, c, l) =
    rw (test_of_ne p [] a, test_of_ne p (text ".") b, test_of_ne p dot_dot c)

push_all-append :
    (rooted : Bool) (stack ps : List Text) (q : Text)
    → push_all rooted stack (ps ++ (q ∷ [])) ≡ push rooted (push_all rooted stack ps) q
unfolding push_all
push_all-append rooted stack [] q = refl
push_all-append rooted stack (p ∷ ps) q = push_all-append rooted (push rooted stack p) ps q

join-append : (ps : List Text) (q : Text) → (r : Text) × (join slash (ps ++ (q ∷ [])) ≡ r ++ q)
unfolding join
join-append [] q = ([], refl)
join-append (p ∷ []) q = (p ++ (slash ∷ []), sym (append_assoc p (slash ∷ []) q))
join-append (p ∷ p' ∷ ps) q =
    let (r, e) = join-append (p' ∷ ps) q in
    (p ++ (slash ∷ r), rw e (sym (append_assoc p (slash ∷ r) q)))

rebuild-append :
    (b : Bool) (ps : List Text) (q : Text) → (r : Text) × (rebuild b (ps ++ (q ∷ [])) ≡ r ++ q)
unfolding rebuild join
rebuild-append true ps q = let (r, e) = join-append ps q in (slash ∷ r, ap (λ t. slash ∷ t) e)
rebuild-append false [] q = ([], refl)
rebuild-append false (p ∷ ps) q = join-append (p ∷ ps) q

clean_ends :
    (s : Text) (ps : List Text) (q : Text)
    → IsPlain q
    → split slash s ≡ ps ++ (q ∷ [])
    → (r : Text) × (clean s ≡ r ++ q)
unfolding clean clean_parts
clean_ends s ps q h e =
    let stack = push_all (is_abs s) [] ps in
    let last : push_all (is_abs s) [] (split slash s) ≡ q ∷ stack =
      rw (e, push_all-append (is_abs s) [] ps q) (push_plain (is_abs s) stack q h) in
    rw (last, reverse-cons) (rebuild-append (is_abs s) (reverse stack) q)

-- The path ends with the name.
pub join2_ends : (dir name : Text) → IsPlain name → (r : Text) × (join2 dir name ≡ r ++ name)
unfolding join2
join2_ends [] name h = clean_ends name [] name h (split_one slash name h.3)
join2_ends (c ∷ dir) name h = clean_ends _ (split slash (c ∷ dir)) name h (
    split-append slash (c ∷ dir) name
    ∙ ap (λ t. split slash (c ∷ dir) ++ t) (split_one slash name h.3))
