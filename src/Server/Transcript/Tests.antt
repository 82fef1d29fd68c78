-- ===== src/Server/Transcript/Tests.antt =====
-- Compressions of a small transcript (service/internal/server/transcript.go).
use aifstudio.Prelude.{
  ◌≤◌, ◌<◌, ◌≡◌, refl, ◌⊎◌, Bool, true, false, [], ◌∷◌, ◌++◌, arith, length, if◌then◌else◌,
}
use aifstudio.Text.{
  Text, text, newline, text_eq, has_prefix, has_suffix, contains, trim_right, cons_trimmed,
  trim_left, trim_space, is_space, split, cons_head, join,
}
use aifstudio.Server.Transcript.{
  middle, is_blank, is_player_cmd, is_signal, trim_cr, visit, select, initial, lines_of,
  compress_transcript,
}
use aifstudio.Server.Transcript.Kept.{selected}
use aifstudio.Server.Transcript.Chosen.{chosen_lines, compress_transcript-chosen}

abbrev session : Text
session = join newline (
    text "t"
      ∷ text "v"
      ∷ text "a"
      ∷ text "b"
      ∷ text "c"
      ∷ text "room"
      ∷ text ">1 go"
      ∷ text "ok"
      ∷ []
    ++ text "" ∷ text "" ∷ text "x" ∷ text "y" ∷ text "z" ∷ [])

lines_run : length (lines_of session) ≡ 13
unfolding lines_of split cons_head join has_suffix text_eq
lines_run = refl

-- The room before the first command and the second blank line are dropped.
selected_run : length (selected session) ≡ 11
unfolding select visit middle is_blank is_player_cmd is_signal trim_cr initial lines_of split
    cons_head join text_eq has_prefix has_suffix contains trim_right cons_trimmed trim_left
    trim_space is_space
selected_run = refl

compress_transcript-chosen_example :
    (((◌≡◌ {A = Bool} true false) ⊎ (length (lines_of session) ≤ 10))
      × (compress_transcript true session ≡ session))
    ⊎ ((◌≡◌ {A = Bool} true true)
        × (10 < length (lines_of session))
        × (compress_transcript true session ≡ (
            if has_suffix session (text "\n")
            then join newline (chosen_lines (lines_of session)) ++ (newline ∷ [])
            else join newline (chosen_lines (lines_of session)))))
compress_transcript-chosen_example = compress_transcript-chosen true session

long : 10 < length (lines_of session)
long = omega (arith, lines_run)
