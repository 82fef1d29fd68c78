-- ===== src/Store/Table/Keys.antt =====
-- The rows that a key finds after a statement (service/internal/store/sqlite.go).
use aifstudio.Prelude.{
  String, ◌≡◌, refl, Bool, true, false, List, [], ◌∷◌, Option, none, some, arith, All, is_some,
  str_eq, str_eq_iff, if◌then◌else◌, Bool-cases, inl, inr,
}
use aifstudio.Store.Table.{delete_where, update_where, find_row, has_key}

abbrev pub map_option : {R : Type 0} → (R → R) → Option R → Option R
map_option f none = none
map_option f (some r) = some (f r)

abbrev pub drop_if : {R : Type 0} → (R → Bool) → Option R → Option R
drop_if p none = none
drop_if p (some r) = if p r then none else some r

is_some-false : {R : Type 0} (o : Option R) → is_some o ≡ false → o ≡ none
is_some-false none e = refl
is_some-false (some r) e = absurd (cc)

-- No two rows share a key.
module _ {R : Type 0} (key : R → String) where
  abbrev pub Once : List R → Type 0
  Once [] = Unit
  Once (r ∷ rs) = (find_row key (key r) rs ≡ none) × Once rs

  pub find_row-cons :
      (r : R) (k : String) (rs : List R)
      → find_row key k (r ∷ rs) ≡ (if str_eq (key r) k then some r else find_row key k rs)
  unfolding find_row
  find_row-cons r k rs = refl

  -- The row that is found has the key.
  pub find_row_key : (k : String) (rs : List R) {r : R} → find_row key k rs ≡ some r → key r ≡ k
  unfolding find_row
  find_row_key k [] e = absurd (cc)
  find_row_key k (s ∷ rs) {r} e = elim (Bool-cases (str_eq (key s) k)) [
    | inl y ↦ let q : s ≡ r = ground arith in rw (← q) ((str_eq_iff (key s) k).0 y)
    | inr n ↦ find_row_key k rs (ground arith)
  ]

  -- An update of one row that keeps its key.
  pub find_row-update_where :
      (f : R → R) (j : String)
      → ((r : R) → str_eq (key r) j ≡ true → key (f r) ≡ key r)
      → (k : String) (rs : List R)
      → find_row key k (update_where (has_key key j) f rs)
        ≡ (if str_eq j k then map_option f (find_row key k rs) else find_row key k rs)
  unfolding find_row update_where has_key
  find_row-update_where f j keeps k [] = ground arith
  find_row-update_where f j keeps k (r ∷ rs) = elim (Bool-cases (str_eq (key r) j)) [
    | inl y ↦
        rw (y, keeps r y)
          (ground (
            arith,
            find_row-update_where f j keeps k rs,
            str_eq_iff (key r) j,
            str_eq_iff (key r) k,
            str_eq_iff j k,
          ))
    | inr n ↦ ground (
      arith,
      n,
      find_row-update_where f j keeps k rs,
      str_eq_iff (key r) j,
      str_eq_iff (key r) k,
      str_eq_iff j k,
    )
  ]

  -- A deletion by key, and any other one.
  pub find_row-delete_key :
      (j k : String) (rs : List R)
      → find_row key k (delete_where (has_key key j) rs)
        ≡ (if str_eq j k then none else find_row key k rs)
  unfolding find_row delete_where has_key
  find_row-delete_key j k [] = ground arith
  find_row-delete_key j k (r ∷ rs) = ground (
    arith,
    find_row-delete_key j k rs,
    str_eq_iff (key r) j,
    str_eq_iff (key r) k,
    str_eq_iff j k,
  )

  pub find_row-delete_where :
      (p : R → Bool) (k : String) (rs : List R)
      → Once rs
      → find_row key k (delete_where p rs) ≡ drop_if p (find_row key k rs)
  unfolding find_row delete_where
  find_row-delete_where p k [] o = refl
  find_row-delete_where p k (r ∷ rs) (n, o) =
      ground (arith, n, find_row-delete_where p k rs o, str_eq_iff (key r) k)

  find_row-delete_none :
      (p : R → Bool) (k : String) (rs : List R)
      → find_row key k rs ≡ none
      → find_row key k (delete_where p rs) ≡ none
  unfolding find_row delete_where
  find_row-delete_none p k [] e = refl
  find_row-delete_none p k (r ∷ rs) e = ground (arith, find_row-delete_none p k rs)

  pub Once-delete_where : (p : R → Bool) (rs : List R) → Once rs → Once (delete_where p rs)
  unfolding delete_where
  Once-delete_where p [] o = tt
  Once-delete_where p (r ∷ rs) (n, o) = elim (Bool-cases (p r)) [
    | inl y ↦ rw y (Once-delete_where p rs o)
    | inr y ↦ rw y (find_row-delete_none p (key r) rs n, Once-delete_where p rs o)
  ]

  find_row-update_none :
      (p : R → Bool) (f : R → R)
      → ((r : R) → p r ≡ true → key (f r) ≡ key r)
      → (k : String) (rs : List R) → find_row key k rs ≡ none
      → find_row key k (update_where p f rs) ≡ none
  unfolding find_row update_where
  find_row-update_none p f keeps k [] e = refl
  find_row-update_none p f keeps k (r ∷ rs) e = elim (Bool-cases (p r)) [
    | inl y ↦ rw (y, keeps r y) (ground (arith, find_row-update_none p f keeps k rs))
    | inr n ↦ rw n (ground (arith, find_row-update_none p f keeps k rs))
  ]

  pub Once-update_where :
      (p : R → Bool) (f : R → R)
      → ((r : R) → p r ≡ true → key (f r) ≡ key r)
      → (rs : List R) → Once rs
      → Once (update_where p f rs)
  unfolding update_where
  Once-update_where p f keeps [] o = tt
  Once-update_where p f keeps (r ∷ rs) (n, o) = elim (Bool-cases (p r)) [
    | inl y ↦
        rw (y, keeps r y)
          (find_row-update_none p f keeps (key r) rs n, Once-update_where p f keeps rs o)
    | inr y ↦ rw y (find_row-update_none p f keeps (key r) rs n, Once-update_where p f keeps rs o)
  ]

  pub Once-cons :
      (r : R) (rs : List R) → is_some (find_row key (key r) rs) ≡ false → Once rs → Once (r ∷ rs)
  Once-cons r rs n o = (is_some-false (find_row key (key r) rs) n, o)

-- What holds of all rows after a statement.
module _ {R : Type 0} (P : R → Type 0) where
  pub All-delete_where : (p : R → Bool) (rs : List R) → All P rs → All P (delete_where p rs)
  unfolding delete_where
  All-delete_where p [] h = tt
  All-delete_where p (r ∷ rs) (q, h) = elim (Bool-cases (p r)) [
    | inl y ↦ rw y (All-delete_where p rs h)
    | inr y ↦ rw y (q, All-delete_where p rs h)
  ]

  pub All-update_where :
      (p : R → Bool) (f : R → R)
      → ((r : R) → P r → p r ≡ true → P (f r))
      → (rs : List R) → All P rs
      → All P (update_where p f rs)
  unfolding update_where
  All-update_where p f keeps [] h = tt
  All-update_where p f keeps (r ∷ rs) (q, h) = elim (Bool-cases (p r)) [
    | inl y ↦ rw y (keeps r q y, All-update_where p f keeps rs h)
    | inr y ↦ rw y (q, All-update_where p f keeps rs h)
  ]

  -- What a deletion leaves does not meet its condition.
  pub All-deleted :
      (p : R → Bool) (rs : List R) → ((r : R) → p r ≡ false → P r) → All P (delete_where p rs)
  unfolding delete_where
  All-deleted p [] f = tt
  All-deleted p (r ∷ rs) f = elim (Bool-cases (p r)) [
    | inl y ↦ rw y (All-deleted p rs f)
    | inr y ↦ rw y (f r y, All-deleted p rs f)
  ]
