-- ===== src/Store/Table/Order.antt =====
-- SELECT … WHERE … ORDER BY … LIMIT (service/internal/store/sqlite.go): which rows it gives.
use aifstudio.Prelude.{
  ℕ, zero, suc, ◌+◌, ◌≡◌, refl, sym, ap, ◌∙◌, Bool, true, false, List, [], ◌∷◌, ◌++◌, arith, All,
  All-map, leb, length, take, drop, take-append-drop, min, if◌then◌else◌, Bool-cases, inl, inr,
}
use aifstudio.Store.Table.{select_where, insert_by, order_by, top}

abbrev pub Before : {R : Type 0} → (R → R → Bool) → R → R → Type 0
Before le a b = le a b ≡ true

-- Each row may stand before all later ones.
abbrev pub Sorted : {R : Type 0} → (R → R → Bool) → List R → Type 0
Sorted le [] = Unit
Sorted le (r ∷ rs) = All (Before le r) rs × Sorted le rs

-- How often two tests agree on a list: the number of rows that meet a condition.
abbrev pub count : {R : Type 0} → (R → Bool) → List R → ℕ
count p [] = 0
count p (r ∷ rs) = (if p r then 1 else 0) + count p rs

module _ {R : Type 0} (le : R → R → Bool) where
  All-insert_by :
      (P : R → Type 0) (r : R) (rs : List R) → P r → All P rs → All P (insert_by le r rs)
  unfolding insert_by
  All-insert_by P r [] q h = (q, tt)
  All-insert_by P r (s ∷ rs) q (p, h) = elim (Bool-cases (le r s)) [
    | inl y ↦ rw y (q, (p, h))
    | inr n ↦ rw n (p, All-insert_by P r rs q h)
  ]

  All-order_by : (P : R → Type 0) (rs : List R) → All P rs → All P (order_by le rs)
  unfolding order_by
  All-order_by P [] h = tt
  All-order_by P (r ∷ rs) (q, h) = All-insert_by P r (order_by le rs) q (All-order_by P rs h)

  count-insert_by :
      (p : R → Bool) (r : R) (rs : List R) → count p (insert_by le r rs) ≡ count p (r ∷ rs)
  unfolding insert_by
  count-insert_by p r [] = refl
  count-insert_by p r (s ∷ rs) = elim (Bool-cases (le r s)) [
    | inl y ↦ rw y
    | inr n ↦ rw n (omega (arith, count-insert_by p r rs))
  ]

  pub count-order_by : (p : R → Bool) (rs : List R) → count p (order_by le rs) ≡ count p rs
  unfolding order_by
  count-order_by p [] = refl
  count-order_by p (r ∷ rs) =
      count-insert_by p r (order_by le rs) ∙ omega (arith, count-order_by p rs)

  length-insert_by : (r : R) (rs : List R) → length (insert_by le r rs) ≡ suc (length rs)
  unfolding insert_by
  length-insert_by r [] = refl
  length-insert_by r (s ∷ rs) = elim (Bool-cases (le r s)) [
    | inl y ↦ rw y
    | inr n ↦ rw n (ap suc (length-insert_by r rs))
  ]

  pub length-order_by : (rs : List R) → length (order_by le rs) ≡ length rs
  unfolding order_by
  length-order_by [] = refl
  length-order_by (r ∷ rs) = length-insert_by r (order_by le rs) ∙ ap suc (length-order_by rs)

module _ {R : Type 0} (le : R → R → Bool) (total : (a b : R) → le a b ≡ false → le b a ≡ true)
    (trans : (a b c : R) → le a b ≡ true → le b c ≡ true → le a c ≡ true) where
  Sorted-insert_by : (r : R) (rs : List R) → Sorted le rs → Sorted le (insert_by le r rs)
  unfolding insert_by
  Sorted-insert_by r [] h = (tt, tt)
  Sorted-insert_by r (s ∷ rs) (b, h) = elim (Bool-cases (le r s)) [
    | inl y ↦ rw y ((y, All-map (Before le s) (Before le r) (λ t q. trans r s t y q) rs b), (b, h))
    | inr n ↦ rw n (All-insert_by le (Before le s) r rs (total r s n) b, Sorted-insert_by r rs h)
  ]

  pub Sorted-order_by : (rs : List R) → Sorted le (order_by le rs)
  unfolding order_by
  Sorted-order_by [] = tt
  Sorted-order_by (r ∷ rs) = Sorted-insert_by r (order_by le rs) (Sorted-order_by rs)

All-select_where :
    {R : Type 0} (p : R → Bool) (rs : List R) → All (λ r. p r ≡ true) (select_where p rs)
unfolding select_where
All-select_where p [] = tt
All-select_where p (r ∷ rs) = elim (Bool-cases (p r)) [
  | inl y ↦ rw y (y, All-select_where p rs)
  | inr n ↦ rw n (All-select_where p rs)
]

count-append :
    {R : Type 0} (q : R → Bool) (xs ys : List R) → count q (xs ++ ys) ≡ count q xs + count q ys
count-append q [] ys = omega arith
count-append q (x ∷ xs) ys = omega (arith, count-append q xs ys)

All-split : {R : Type 0} (P : R → Type 0) (xs ys : List R) → All P (xs ++ ys) → All P xs × All P ys
All-split P [] ys h = (tt, h)
All-split P (x ∷ xs) ys (q, h) = let (a, b) = All-split P xs ys h in ((q, a), b)

Sorted-split :
    {R : Type 0} (le : R → R → Bool) (xs ys : List R)
    → Sorted le (xs ++ ys)
    → Sorted le xs × All (λ a. All (Before le a) ys) xs
Sorted-split le [] ys h = (tt, tt)
Sorted-split le (x ∷ xs) ys (b, h) =
    let (s, a) = Sorted-split le xs ys h in
    let (c, d) = All-split (Before le x) xs ys b in ((c, s), (d, a))

length-take : {R : Type 0} (n : ℕ) (xs : List R) → length (take n xs) ≡ min n (length xs)
length-take zero xs = ground arith
length-take (suc n) [] = ground arith
length-take (suc n) (x ∷ xs) = ground (arith, length-take n xs)

length-select_where :
    {R : Type 0} (p : R → Bool) (rs : List R) → length (select_where p rs) ≡ count p rs
unfolding select_where
length-select_where p [] = refl
length-select_where p (r ∷ rs) = ground (arith, length-select_where p rs)

-- The answer of a query: as many rows as there are, up to the limit, all of which meet the condition,
-- in order; and what is left out, which every row of the answer may stand before.
pub record IsTop {R : Type 0} (p : R → Bool) (le : R → R → Bool) (n : ℕ) (rs out : List R)
    : Type 0 where
  pub chosen : All (λ r. p r ≡ true) out
  pub sorted : Sorted le out
  pub number : length out ≡ min n (count p rs)
  pub left : List R
  pub first : All (λ a. All (Before le a) left) out
  pub complete : (q : R → Bool) → count q out + count q left ≡ count q (select_where p rs)

pub top-IsTop :
    {R : Type 0} (p : R → Bool) (le : R → R → Bool)
    → ((a b : R) → le a b ≡ false → le b a ≡ true)
    → ((a b c : R) → le a b ≡ true → le b c ≡ true → le a c ≡ true)
    → (n : ℕ) (rs : List R) → IsTop p le n rs (top p le n rs)
unfolding top
top-IsTop p le total trans n rs =
    let all = order_by le (select_where p rs) in
    let cut : take n all ++ drop n all ≡ all = take-append-drop n all in
    let (s, f) =
      Sorted-split le (take n all) (drop n all)
        (rw cut (Sorted-order_by le total trans (select_where p rs))) in
    let (c, _) =
      All-split (λ r. p r ≡ true) (take n all) (drop n all)
        (rw cut (All-order_by le (λ r. p r ≡ true) (select_where p rs) (All-select_where p rs))) in
    record {
      chosen = c;
      sorted = s;
      number =
          length-take n all
          ∙ ap (min n) (length-order_by le (select_where p rs) ∙ length-select_where p rs);
      left = drop n all;
      first = f;
      complete = λ q.
          sym (count-append q (take n all) (drop n all))
          ∙ ap (count q) cut
          ∙ count-order_by le q (select_where p rs);
    }

pub desc_total : (a b : ℕ) → leb b a ≡ false → leb a b ≡ true
desc_total a b h = ground arith

pub desc_trans : (a b c : ℕ) → leb b a ≡ true → leb c b ≡ true → leb c a ≡ true
desc_trans a b c h k = ground arith
