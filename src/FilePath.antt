-- ===== src/FilePath.antt =====
-- Go's `path/filepath` on Unix, as far as the repository's code calls it.
pub mod Laws
pub mod Join
use mathlib.Core.List.{reverse}
use aifstudio.Prelude.{
  ℕ, Bool, true, false, ◌&&◌, not, List, [], ◌∷◌, ◌++◌, ◌==◌, if◌then◌else◌, any,
}
use aifstudio.Text.{Text, text, text_eq, split, join}

abbrev pub slash : ℕ
slash = b'/'

abbrev pub dot : ℕ
dot = b'.'

abbrev pub dot_dot : Text
dot_dot = text ".."

-- filepath.IsAbs
unfoldable pub is_abs : Text → Bool
is_abs [] = false
is_abs (c ∷ s) = c == slash

-- filepath.Ext: the suffix that starts at the last dot of the last element.
unfoldable pub ext : Text → Text
ext [] = []
ext (c ∷ s) =
    let rest = ext s in
    if c == dot && not (any (λ d. d == dot) s) && not (any (λ d. d == slash) s) then c ∷ s else rest

-- `..` in filepath.Clean, on the elements kept so far, the last one at the head.
unfoldable pub up : Bool → List Text → List Text
up rooted [] = if rooted then [] else dot_dot ∷ []
up rooted (top ∷ below) = if text_eq top dot_dot then dot_dot ∷ top ∷ below else below

-- One path element of filepath.Clean.
unfoldable pub push : Bool → List Text → Text → List Text
push rooted stack part =
    if text_eq part []
    then stack
    else if text_eq part (text ".")
    then stack
    else if text_eq part dot_dot
    then up rooted stack
    else part ∷ stack

unfoldable pub push_all : Bool → List Text → List Text → List Text
push_all rooted stack [] = stack
push_all rooted stack (p ∷ ps) = push_all rooted (push rooted stack p) ps

-- The elements of the cleaned path.
unfoldable pub clean_parts : Text → List Text
clean_parts s = reverse (push_all (is_abs s) [] (split slash s))

-- The cleaned elements as a path.
unfoldable pub rebuild : Bool → List Text → Text
rebuild true parts = slash ∷ join slash parts
rebuild false [] = text "."
rebuild false (p ∷ ps) = join slash (p ∷ ps)

-- filepath.Clean
unfoldable pub clean : Text → Text
clean s = rebuild (is_abs s) (clean_parts s)

-- filepath.Join of two elements, the second one not empty.
unfoldable pub join2 : Text → Text → Text
join2 [] name = clean name
join2 (c ∷ dir) name = clean ((c ∷ dir) ++ (slash ∷ name))
