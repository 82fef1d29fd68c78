-- ===== src/Openai/Fence/Tests.antt =====
-- Replies with and without a fence (service/internal/openai/extract.go).
use aifstudio.Prelude.{◌≡◌, refl, ◌⊎◌, true, false, [], ◌∷◌, ◌++◌}
use aifstudio.Text.{
  Text, text, newline, text_eq, has_prefix, has_suffix, index, trim_space, trim_left, trim_right,
  cons_trimmed, is_space,
}
use aifstudio.Openai.Fence.{
  ticks, open_at, close_at, reply_of, with_fence, first_fence, extract_fenced_inform7,
}
use aifstudio.Openai.Fence.Between.{IsFenced, extract_fenced_inform7-IsFenced}

-- A block with a tag between two lines.
abbrev answer : Text
answer =
    text "Hi "
    ++ (newline
        ∷ (ticks
            ++ (text "i7" ++ (newline ∷ (text "A room." ++ (newline ∷ (ticks ++ text " bye")))))))

answer_run :
    extract_fenced_inform7 answer ≡ ((text "A room.", text "Hi" ++ (newline ∷ text "bye")), true)
unfolding extract_fenced_inform7 first_fence with_fence open_at close_at reply_of index has_prefix
    has_suffix text_eq trim_space trim_left trim_right cons_trimmed is_space
answer_run = refl

extract_fenced_inform7-IsFenced_example :
    (((extract_fenced_inform7 answer).1 ≡ true)
      × IsFenced answer (extract_fenced_inform7 answer).0.0 (extract_fenced_inform7 answer).0.1)
    ⊎ (extract_fenced_inform7 answer ≡ (([], trim_space answer), false))
extract_fenced_inform7-IsFenced_example = extract_fenced_inform7-IsFenced answer
