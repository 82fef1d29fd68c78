-- ===== src/Ifdb/Format/Tests.antt =====
-- Links and authors of a small catalogue entry (service/internal/ifdb/client.go).
use aifstudio.Prelude.{◌≡◌, refl, List, [], ◌∷◌, Option, some}
use aifstudio.Text.{
  Text, text, text_eq, has_prefix, has_suffix, to_lower, lower_char, trim_prefix, trim_space,
  trim_left, trim_right, cons_trimmed, is_space, elem, split, cons_head, split_text, replace_all,
  split_from, replace_from,
}
use aifstudio.Ifdb.Format.{
  RawLink, DownloadLink, append_unique, by_field, by_path, detect_format, add_link, gather,
  links_of, add_unsupported, add_nonempty, first_of_format, first_preferred, preferred_format,
  add_authors, add_parts, split_authors,
}

-- Every test URL is a path.
abbrev path_of : Text → Option Text
path_of u = some u

abbrev entry : List RawLink
entry =
    record { url = text "/a.zip"; format = text "html"; file_type = text ""; size = 5 }
    ∷ record { url = text "/a.t3"; format = text ".TADS3"; file_type = text ""; size = 6 }
    ∷ record { url = text "/A.Z5"; format = text ""; file_type = text ""; size = 7 }
    ∷ record { url = text ""; format = text "ulx"; file_type = text ""; size = 8 }
    ∷ []

abbrev t3_link : DownloadLink
t3_link = record { url = text "/a.t3"; format = text "t3"; size = 6 }

abbrev z5_link : DownloadLink
z5_link = record { url = text "/A.Z5"; format = text "z5"; size = 7 }

entry_links : (links_of path_of entry).links ≡ t3_link ∷ z5_link ∷ []
unfolding links_of gather add_link detect_format by_field by_path add_unsupported add_nonempty
    append_unique text_eq has_prefix has_suffix to_lower lower_char trim_prefix elem
entry_links = refl

entry_preferred : preferred_format (t3_link ∷ z5_link ∷ []) ≡ some z5_link
unfolding preferred_format first_preferred first_of_format text_eq
entry_preferred = refl

two_authors :
    split_authors (text "Ann Lee, and  Bo,Cy") ≡ text "Ann Lee" ∷ text "Bo" ∷ text "Cy" ∷ []
unfolding split_authors add_parts add_authors text_eq trim_space trim_left trim_right cons_trimmed
    is_space split cons_head split_text replace_all split_from replace_from has_prefix
two_authors = refl
