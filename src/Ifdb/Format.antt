-- ===== src/Ifdb/Format.antt =====
-- Formats and authors of a catalogue entry (service/internal/ifdb/client.go): detectFormat,
-- appendUnique, the links of viewgameToGame, PreferredFormat and splitAuthors.
pub mod Links
pub mod Preferred
pub mod Authors
mod Tests
use aifstudio.Prelude.{
  ℕ, Bool, true, false, ◌&&◌, ◌||◌, List, [], ◌∷◌, ◌++◌, Option, none, some, if◌then◌else◌,
}
use aifstudio.Text.{
  Text, text, text_eq, has_suffix, to_lower, trim_prefix, trim_space, elem, split, split_text,
  replace_all,
}
use aifstudio.FilePath.{ext}

abbrev pub known_formats : List Text
known_formats =
    text "z3"
    ∷ text "z4"
    ∷ text "z5"
    ∷ text "z6"
    ∷ text "z7"
    ∷ text "z8"
    ∷ text "zblorb"
    ∷ text "ulx"
    ∷ text "gblorb"
    ∷ text "gam"
    ∷ text "t3"
    ∷ []

-- ifdbLink and DownloadLink (service/internal/ifdb/model.go)
pub record RawLink : Type 0 where
  pub url : Text
  pub format : Text
  pub file_type : Text
  pub size : ℕ

pub record DownloadLink : Type 0 where
  pub url : Text
  pub format : Text
  pub size : ℕ

-- appendUnique
pub append_unique : List Text → Text → List Text
append_unique s v = if elem v s then s else s ++ (v ∷ [])

-- One field of the first loop of detectFormat; `none` goes on to the next.
pub by_field : Text → Option Text
by_field field =
    let c = trim_prefix (to_lower field) (text ".") in
    if text_eq c []
    then none
    else if text_eq c (text "tads3") || text_eq c (text "tads 3")
    then some (text "t3")
    else if text_eq c (text "tads2") || text_eq c (text "tads 2") || text_eq c (text "tads")
    then some (text "gam")
    else if elem c known_formats
    then some c
    else none

-- The second loop: the first known extension of the path.
pub by_path : Text → List Text → Text
by_path path [] = []
by_path path (e ∷ es) =
    let rest = by_path path es in if has_suffix path (text "." ++ e) then e else rest

-- What viewgameToGame gathers from the links.
pub record Gathered : Type 0 where
  pub links : List DownloadLink
  pub formats : List Text
  pub unsupported : List Text

-- `url_path` is the path that url.Parse finds in a URL, `none` for a URL that it refuses.
module _ (url_path : Text → Option Text) where
  pub detect_format : Text → Text → Text → Text
  detect_format raw_url format file_type = elim (by_field format) [
    | some f ↦ f
    | none ↦ elim (by_field file_type) [
      | some f ↦ f
      | none ↦ elim (url_path raw_url) [ some p ↦ by_path (to_lower p) known_formats | none ↦ [] ]
    ]
  ]

  pub add_nonempty : List Text → Text → List Text
  add_nonempty s v = if text_eq v [] then s else append_unique s v

  -- What an unrecognised link adds to the unsupported formats.
  pub add_unsupported : RawLink → List Text → List Text
  add_unsupported l s =
      if text_eq l.format [] && text_eq l.file_type []
      then elim (url_path l.url) [
        | none ↦ s
        | some p ↦
            let e = ext (to_lower p) in
            if text_eq e [] then s else append_unique s (trim_prefix e (text "."))
      ]
      else add_nonempty (add_nonempty s l.format) l.file_type

  -- The body of the loop of viewgameToGame.
  pub add_link : RawLink → Gathered → Gathered
  add_link l g =
      let f = detect_format l.url l.format l.file_type in
      if text_eq l.url []
      then g
      else if text_eq f []
      then record g { unsupported = add_unsupported l g.unsupported }
      else record g {
        links = g.links ++ (record { url = l.url; format = f; size = l.size } ∷ []);
        formats = append_unique g.formats f;
      }

  pub gather : List RawLink → Gathered → Gathered
  gather [] g = g
  gather (l ∷ ls) g = gather ls (add_link l g)

  pub links_of : List RawLink → Gathered
  links_of ls = gather ls (record { links = []; formats = []; unsupported = [] })

abbrev pub preference : List Text
preference =
    text "z5" ∷ text "z8" ∷ text "zblorb" ∷ text "ulx" ∷ text "gblorb" ∷ text "t3" ∷ text "gam" ∷ []

-- The first link of a format.
pub first_of_format : Text → List DownloadLink → Option DownloadLink
first_of_format f [] = none
first_of_format f (l ∷ ls) =
    let rest = first_of_format f ls in if text_eq l.format f then some l else rest

pub first_preferred : List Text → List DownloadLink → Option DownloadLink
first_preferred [] ls = none
first_preferred (f ∷ fs) ls = elim (first_of_format f ls) [
  | some l ↦ some l
  | none ↦ first_preferred fs ls
]

pub first_known : List DownloadLink → Option DownloadLink
first_known [] = none
first_known (l ∷ ls) =
    let rest = first_known ls in if elem l.format known_formats then some l else rest

-- PreferredFormat
pub preferred_format : List DownloadLink → Option DownloadLink
preferred_format ls = elim (first_preferred preference ls) [
  | some l ↦ some l
  | none ↦ first_known ls
]

-- The inner loop of splitAuthors.
pub add_authors : List Text → List Text → List Text
add_authors out [] = out
add_authors out (sub ∷ subs) =
    add_authors (if text_eq (trim_space sub) [] then out else out ++ (trim_space sub ∷ [])) subs

pub add_parts : List Text → List Text → List Text
add_parts out [] = out
add_parts out (p ∷ ps) = add_parts (add_authors out (split b',' p)) ps

-- splitAuthors
pub split_authors : Text → List Text
split_authors single =
    if text_eq single []
    then []
    else add_parts []
        (split_text (replace_all single (text ", and ") (text " and ")) (text " and "))
