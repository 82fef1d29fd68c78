-- ===== src/Text.antt =====
-- Go's `strings` and `unicode` packages, as far as the repository's code calls them. A string is the
-- list of its code points; where the code counts bytes, the text is ASCII or a list of bytes.
pub mod Laws
pub mod Lines
pub mod Trim
pub mod Search
use Prim.Native.Char.{code}
use mathlib.Core.List.{reverse}
use aifstudio.Prelude.{
  ℕ, zero, suc, ◌+◌, ◌-◌, String, Bool, true, false, ◌&&◌, ◌||◌, Option, none, some, List, [], ◌∷◌,
  ◌++◌, leb, ◌==◌, if◌then◌else◌, any, length, drop,
}

abbrev pub Text : Type 0
Text = List ℕ

-- A literal of the source.
abbrev pub text : String → Text
text String.[] = []
text (String.◌∷◌ c s) = code c ∷ text s

abbrev pub newline : ℕ
newline = 10

unfoldable pub text_eq : Text → Text → Bool
text_eq [] [] = true
text_eq [] (d ∷ t) = false
text_eq (c ∷ s) [] = false
text_eq (c ∷ s) (d ∷ t) = c == d && text_eq s t

-- strings.HasPrefix
unfoldable pub has_prefix : Text → Text → Bool
has_prefix s [] = true
has_prefix [] (d ∷ p) = false
has_prefix (c ∷ s) (d ∷ p) = c == d && has_prefix s p

-- strings.HasSuffix
unfoldable pub has_suffix : Text → Text → Bool
has_suffix [] p = text_eq [] p
has_suffix (c ∷ s) p = text_eq (c ∷ s) p || has_suffix s p

-- strings.Contains
unfoldable pub contains : Text → Text → Bool
contains [] p = has_prefix [] p
contains (c ∷ s) p = has_prefix (c ∷ s) p || contains s p

-- strings.Index, with `none` for -1.
unfoldable pub index : Text → Text → Option ℕ
index [] p = if has_prefix [] p then some 0 else none
index (c ∷ s) p =
    let rest = index s p in
    if has_prefix (c ∷ s) p then some 0 else elim rest [ none ↦ none | some i ↦ some (suc i) ]

unfoldable pub elem : Text → List Text → Bool
elem s xs = any (text_eq s) xs

-- unicode.ToLower on the letters that it takes to ASCII. Every other letter outside ASCII stays
-- outside ASCII, and the code compares the results with ASCII texts only.
unfoldable pub lower_char : ℕ → ℕ
lower_char c =
    if leb b'A' c && leb c b'Z'
    then c + 32
    else if c == 0x130
    then b'i'
    else if c == 0x212A
    then b'k'
    else c

-- strings.ToLower
unfoldable pub to_lower : Text → Text
to_lower [] = []
to_lower (c ∷ s) = lower_char c ∷ to_lower s

-- unicode.IsSpace
unfoldable pub is_space : ℕ → Bool
is_space c =
    (leb 9 c && leb c 13)
    || c == 32
    || c == 0x85
    || c == 0xA0
    || c == 0x1680
    || (leb 0x2000 c && leb c 0x200A)
    || c == 0x2028
    || c == 0x2029
    || c == 0x202F
    || c == 0x205F
    || c == 0x3000

-- strings.TrimLeftFunc and strings.TrimRightFunc
unfoldable pub trim_left : (ℕ → Bool) → Text → Text
trim_left p [] = []
trim_left p (c ∷ s) = let rest = trim_left p s in if p c then rest else c ∷ s

unfoldable pub cons_trimmed : (ℕ → Bool) → ℕ → Text → Text
cons_trimmed p c [] = if p c then [] else c ∷ []
cons_trimmed p c (d ∷ s) = c ∷ d ∷ s

unfoldable pub trim_right : (ℕ → Bool) → Text → Text
trim_right p [] = []
trim_right p (c ∷ s) = cons_trimmed p c (trim_right p s)

-- strings.TrimSpace
unfoldable pub trim_space : Text → Text
trim_space s = trim_left is_space (trim_right is_space s)

-- strings.TrimPrefix
unfoldable pub trim_prefix : Text → Text → Text
trim_prefix s p = if has_prefix s p then drop (length p) s else s

unfoldable pub cons_head : ℕ → List Text → List Text
cons_head c [] = (c ∷ []) ∷ []
cons_head c (p ∷ ps) = (c ∷ p) ∷ ps

-- strings.Split at one character.
unfoldable pub split : ℕ → Text → List Text
split sep [] = [] ∷ []
split sep (c ∷ s) = let rest = split sep s in if c == sep then [] ∷ rest else cons_head c rest

-- strings.Join with one character.
unfoldable pub join : ℕ → List Text → Text
join sep [] = []
join sep (p ∷ []) = p
join sep (p ∷ q ∷ ps) = p ++ (sep ∷ join sep (q ∷ ps))

-- strings.Split at a text of one or more characters: `skip` counts those of a separator that are
-- still to be passed over, and `part` holds the current part, last character first.
unfoldable pub split_from : Text → ℕ → Text → Text → List Text
split_from sep skip part [] = reverse part ∷ []
split_from sep (suc skip) part (c ∷ s) = split_from sep skip part s
split_from sep zero part (c ∷ s) = elim (has_prefix (c ∷ s) sep) [
  | true ↦ reverse part ∷ split_from sep (length sep - 1) [] s
  | false ↦ split_from sep zero (c ∷ part) s
]

unfoldable pub split_text : Text → Text → List Text
split_text s sep = split_from sep 0 [] s

-- strings.ReplaceAll of a text of one or more characters.
unfoldable pub replace_from : Text → Text → ℕ → Text → Text
replace_from old new skip [] = []
replace_from old new (suc skip) (c ∷ s) = replace_from old new skip s
replace_from old new zero (c ∷ s) = elim (has_prefix (c ∷ s) old) [
  | true ↦ new ++ replace_from old new (length old - 1) s
  | false ↦ c ∷ replace_from old new zero s
]

unfoldable pub replace_all : Text → Text → Text → Text
replace_all s old new = replace_from old new 0 s
