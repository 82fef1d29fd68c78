-- ===== src/Openai/Fence/Between.antt =====
-- Where the source that ExtractFencedInform7 (service/internal/openai/extract.go) gives stands.
use aifstudio.Prelude.{
  ℕ, zero, suc, ◌+◌, ◌≡◌, refl, sym, ap, ◌∙◌, true, false, List, [], ◌∷◌, ◌++◌, some, arith, In,
  here, there, length, take, drop, Option-cases, some_eq, inl, inr, ◌⊎◌,
}
use aifstudio.Text.{Text, newline, index, contains, trim_space}
use aifstudio.Text.Search.{index_sound, index-append, index-has_suffix, index_first}
use aifstudio.Openai.Fence.{
  ticks, closing, fence_of, tags, open_at, close_at, reply_of, with_fence, first_fence,
  extract_fenced_inform7,
}

-- The text is a fence with one of the tags, around the source.
pub record IsFenced (t source reply : Text) : Type 0 where
  pub tag : Text
  pub listed : In tag tags
  pub before : Text
  pub info : Text
  pub after : Text
  pub shape : t ≡ before ++ (fence_of tag ++ (info ++ (newline ∷ (source ++ (closing ++ after)))))
  pub one_line : contains info (newline ∷ []) ≡ false
  pub unclosed : contains source closing ≡ false
  pub rest : reply ≡ reply_of (trim_space before) (trim_space after)

open_at_sound :
    (t fence : Text) {i : ℕ}
    → open_at t fence ≡ some i
    → t ≡ take i t ++ (fence ++ drop (i + length fence) t)
unfolding open_at
open_at_sound t fence {i} e = elim (Option-cases (index t (fence ++ (newline ∷ [])))) [
  | inr (j, y) ↦ index-append t fence (newline ∷ []) (y ∙ (rw (y, open_at) at e))
  | inl n ↦ index_sound t fence (rw (n, open_at) at e)
]

-- The second search for the closing fence never finds one.
close_at-index :
    (content : Text) {i : ℕ} → close_at content ≡ some i → index content closing ≡ some i
unfolding close_at
close_at-index content e = elim (Option-cases (index content closing)) [
  | inr (j, y) ↦ y ∙ (rw (y, close_at) at e)
  | inl n ↦ absurd (cc (rw (n, index-has_suffix content closing n, close_at) at e))
]

drop_nil : (n : ℕ) → drop {A = ℕ} n [] ≡ []
drop_nil zero = refl
drop_nil (suc n) = refl

suc_add : (m n : ℕ) → suc m + n ≡ suc (m + n)
suc_add m n = omega arith

drop-drop : (m n : ℕ) (t : Text) → drop n (drop m t) ≡ drop (m + n) t
drop-drop zero n t = ap (λ k. drop k t) (omega arith)
drop-drop (suc m) n [] = drop_nil n ∙ sym (drop_nil (suc m + n))
drop-drop (suc m) n (c ∷ t) = rw (suc_add m n) (drop-drop m n t)

-- The same text cut at a fence, at the end of its line and at the closing fence.
cut :
    (t fence : Text) (i nl close : ℕ)
    → t ≡ take i t ++ (fence ++ drop (i + length fence) t)
    → index (drop (i + length fence) t) (newline ∷ []) ≡ some nl
    → index (drop (i + length fence + nl + 1) t) closing ≡ some close
    → t
      ≡ take i t
        ++ (fence
            ++ (take nl (drop (i + length fence) t)
                ++ (newline
                    ∷ (take close (drop (i + length fence + nl + 1) t)
                        ++ (closing
                            ++ drop (i + length fence + nl + 1 + close + length closing) t)))))
cut t fence i nl close e f g =
    let k = i + length fence in
    let line = index_sound (drop k t) (newline ∷ []) f in
    let block = index_sound (drop (k + nl + 1) t) closing g in
    let next : drop (nl + 1) (drop k t) ≡ drop (k + nl + 1) t =
      drop-drop k (nl + 1) t ∙ ap (λ n. drop n t) (omega arith) in
    let last : drop (close + 4) (drop (k + nl + 1) t) ≡ drop (k + nl + 1 + close + 4) t =
      drop-drop (k + nl + 1) (close + 4) t ∙ ap (λ n. drop n t) (omega arith) in
    e
    ∙ ap (λ x. take i t ++ (fence ++ x))
        (line
          ∙ ap (λ x. take nl (drop k t) ++ (newline ∷ x))
              (next ∙ block ∙ ap (λ x. take close (drop (k + nl + 1) t) ++ (closing ++ x)) last))

with_fence-IsFenced :
    (t tag : Text)
    → In tag tags
    → {r : Text × Text} → with_fence t (fence_of tag) ≡ some r
    → IsFenced t r.0 r.1
unfolding with_fence
with_fence-IsFenced t tag l {r} e = elim (Option-cases (open_at t (fence_of tag))) [
  | inl n ↦ absurd (cc (rw (n, with_fence) at e))
  | inr (i, o) ↦
      let k = i + length (fence_of tag) in
      elim (Option-cases (index (drop k t) (newline ∷ []))) [
        | inl n ↦ absurd (cc (rw (o, n, with_fence) at e))
        | inr (nl, f) ↦ elim (Option-cases (close_at (drop (k + nl + 1) t))) [
          | inl n ↦ absurd (cc (rw (o, f, n, with_fence) at e))
          | inr (close, c) ↦
              let q = some_eq (rw (o, f, c, with_fence) at e) in
              let g = close_at-index (drop (k + nl + 1) t) c in
              record {
                tag = tag;
                listed = l;
                before = take i t;
                info = take nl (drop k t);
                after = drop (k + nl + 1 + close + length closing) t;
                shape =
                    rw (← ap (λ p. p.0) q)
                      (cut t (fence_of tag) i nl close (open_at_sound t (fence_of tag) o) f g);
                one_line = index_first (drop k t) newline [] f;
                unclosed =
                    rw (← ap (λ p. p.0) q) (index_first (drop (k + nl + 1) t) newline ticks g);
                rest = sym (ap (λ p. p.1) q);
              }
        ]
      ]
]

first_fence-IsFenced :
    (t : Text) (ts : List Text)
    → ((tag : Text) → In tag ts → In tag tags)
    → {r : Text × Text} → first_fence t ts ≡ some r
    → IsFenced t r.0 r.1
unfolding first_fence
first_fence-IsFenced t [] sub e = absurd (cc)
first_fence-IsFenced t (tag ∷ ts) sub {r} e = elim (Option-cases (with_fence t (fence_of tag))) [
  | inr (s, y) ↦
      let q : s ≡ r = some_eq (rw (y, first_fence) at e) in
      with_fence-IsFenced t tag (sub tag here) (y ∙ ap some q)
  | inl n ↦ first_fence-IsFenced t ts (λ x i. sub x (there i)) (rw (n, first_fence) at e)
]

-- A source that is found stands in the text behind an opening fence, with or without one of the tags,
-- and what follows the fence in its line, and before the first closing fence at the start of a line;
-- the reply is what stands around the block, trimmed and joined. Without one the source is empty and
-- the reply is the trimmed text.
pub extract_fenced_inform7-IsFenced :
    (t : Text)
    → (((extract_fenced_inform7 t).1 ≡ true)
        × IsFenced t (extract_fenced_inform7 t).0.0 (extract_fenced_inform7 t).0.1)
      ⊎ (extract_fenced_inform7 t ≡ (([], trim_space t), false))
unfolding extract_fenced_inform7
extract_fenced_inform7-IsFenced t = elim (Option-cases (first_fence t tags)) [
  | inr (r, y) ↦
      inl (rw (y, extract_fenced_inform7) (refl, first_fence-IsFenced t tags (λ x i. i) y))
  | inl n ↦ inr (rw (n, extract_fenced_inform7) refl)
]
