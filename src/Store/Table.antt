-- ===== src/Store/Table.antt =====
-- What the statements of service/internal/store/sqlite.go do with the rows of one table: SELECT,
-- UPDATE and DELETE with a condition, and INSERT into a table with a primary key. A table is the list
-- of its rows. ORDER BY leaves the order of rows that it does not tell apart open; here it is theirs in
-- the table.
pub mod Keys
pub mod Order
use aifstudio.Prelude.{
  ℕ, String, Bool, true, false, not, List, [], ◌∷◌, Option, none, some, leb, str_eq, if◌then◌else◌,
  take,
}

module _ {R : Type 0} where
  -- SELECT … WHERE
  unfoldable pub select_where : (R → Bool) → List R → List R
  select_where p [] = []
  select_where p (r ∷ rs) = let rest = select_where p rs in if p r then r ∷ rest else rest

  -- DELETE … WHERE
  unfoldable pub delete_where : (R → Bool) → List R → List R
  delete_where p [] = []
  delete_where p (r ∷ rs) = let rest = delete_where p rs in if p r then rest else r ∷ rest

  -- UPDATE … SET … WHERE
  unfoldable pub update_where : (R → Bool) → (R → R) → List R → List R
  update_where p f [] = []
  update_where p f (r ∷ rs) = (if p r then f r else r) ∷ update_where p f rs

  -- ORDER BY, with `le a b` for a row `a` that may stand before `b`.
  unfoldable pub insert_by : (R → R → Bool) → R → List R → List R
  insert_by le r [] = r ∷ []
  insert_by le r (s ∷ rs) = let rest = insert_by le r rs in if le r s then r ∷ s ∷ rs else s ∷ rest

  unfoldable pub order_by : (R → R → Bool) → List R → List R
  order_by le [] = []
  order_by le (r ∷ rs) = insert_by le r (order_by le rs)

  -- SELECT … WHERE … ORDER BY … LIMIT
  unfoldable pub top : (R → Bool) → (R → R → Bool) → ℕ → List R → List R
  top p le limit rs = take limit (order_by le (select_where p rs))

  -- DESC and ASC by a column.
  abbrev pub desc : (R → ℕ) → R → R → Bool
  desc k a b = leb (k b) (k a)

  abbrev pub asc : (R → ℕ) → R → R → Bool
  asc k a b = leb (k a) (k b)

-- `key` is the primary key.
module _ {R : Type 0} (key : R → String) where
  unfoldable pub find_row : String → List R → Option R
  find_row k [] = none
  find_row k (r ∷ rs) = let rest = find_row k rs in if str_eq (key r) k then some r else rest

  unfoldable pub has_key : String → R → Bool
  has_key k r = str_eq (key r) k
