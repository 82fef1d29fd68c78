-- ===== src/Runner/Archive/Tests.antt =====
-- Extractions of small archives (service/internal/runner/extract.go).
use aifstudio.Prelude.{ℕ, ◌≤◌, ◌<◌, ◌≡◌, refl, ◌⊎◌, true, false, List, [], ◌∷◌, some, All, length}
use aifstudio.Text.{
  Text, text, text_eq, has_prefix, to_lower, lower_char, elem, split, join, cons_head,
}
use aifstudio.FilePath.{clean, is_abs, ext, join2, up, push, push_all, clean_parts, rebuild}
use aifstudio.Runner.Archive.{
  Entry, empty, too_many_files, invalid_path, Outcome, failed, story, lower_ext, out_path,
  is_unsafe, wants, extract_entry_at, visit, conclude, scan, start, extract_zip, max_extract_files,
  max_extract_total,
}
use aifstudio.Runner.Archive.Safe.{
  written, IsConfined, IsAccepted, total_size, extract_zip-IsConfined, extract_zip_limits,
}
use aifstudio.Runner.Archive.Errors.{Reason, extract_zip-Reason}

abbrev pub readable : Text → ℕ → Entry
readable n size = record {
  name = n;
  is_dir = false;
  uncompressed_size = size;
  opens = true;
  creates = true;
  copied = some size;
}

abbrev pub two_stories : List Entry
two_stories =
    readable (text "a/small.z5") 10 ∷ readable (text "BIG.ULX") 20 ∷ readable (text "x.txt") 90 ∷ []

abbrev traversal : List Entry
traversal = readable (text "a/../../x.z5") 10 ∷ []

abbrev pub out : Outcome
out = story (text "/w/story.ulx" ∷ text "/w/story.z5" ∷ []) (text "/w/story.ulx")

pub two_stories_run : extract_zip (some two_stories) (text "/w") ≡ out
unfolding extract_zip scan start conclude visit wants extract_entry_at is_unsafe lower_ext out_path
    text_eq has_prefix to_lower lower_char elem split join cons_head clean is_abs ext join2 up push
    push_all clean_parts rebuild
two_stories_run = refl

traversal_run : extract_zip (some traversal) (text "/w") ≡ failed [] invalid_path
unfolding extract_zip scan start conclude visit wants extract_entry_at is_unsafe lower_ext out_path
    text_eq has_prefix to_lower lower_char elem split join cons_head clean is_abs ext join2 up push
    push_all clean_parts rebuild
traversal_run = refl

extract_zip-IsConfined_example :
    All (IsConfined (text "/w")) (written (extract_zip (some two_stories) (text "/w")))
extract_zip-IsConfined_example = extract_zip-IsConfined (some two_stories) (text "/w")

extract_zip_limits_example :
    (1 ≤ length two_stories)
    × (length two_stories ≤ max_extract_files)
    × All IsAccepted two_stories
    × (total_size two_stories ≤ max_extract_total)
extract_zip_limits_example = extract_zip_limits two_stories (text "/w") two_stories_run

extract_zip-Reason_example :
    ((length traversal ≡ 0) × (invalid_path ≡ empty))
    ⊎ ((max_extract_files < length traversal) × (invalid_path ≡ too_many_files))
    ⊎ Reason 0 traversal invalid_path
extract_zip-Reason_example = extract_zip-Reason traversal (text "/w") traversal_run
