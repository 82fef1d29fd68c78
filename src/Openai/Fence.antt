-- ===== src/Openai/Fence.antt =====
-- ExtractFencedInform7 (service/internal/openai/extract.go): the source of a game in a model's reply.
-- A text is its code points; the code's byte offsets are only ever results of strings.Index, and are
-- offsets of code points here.
pub mod Between
mod Tests
use aifstudio.Prelude.{
  ℕ, ◌+◌, ◌-◌, Bool, true, false, not, ◌&&◌, List, [], ◌∷◌, ◌++◌, Option, none, some, length, take,
  drop, if◌then◌else◌,
}
use aifstudio.Text.{Text, text, newline, text_eq, has_suffix, index, trim_space}

abbrev pub ticks : Text
ticks = text "```"

abbrev pub closing : Text
closing = newline ∷ ticks

abbrev pub fence_of : Text → Text
fence_of tag = ticks ++ tag

abbrev pub tags : List Text
tags = text "inform7" ∷ text "i7" ∷ text "" ∷ []

-- The position of the opening fence.
unfoldable pub open_at : Text → Text → Option ℕ
open_at t fence = elim (index t (fence ++ (newline ∷ []))) [
  | some i ↦ some i
  | none ↦ index t fence
]

-- The position of the closing fence in the content.
unfoldable pub close_at : Text → Option ℕ
close_at content = elim (index content closing) [
  | some i ↦ some i
  | none ↦ if has_suffix content closing then some (length content - 4) else none
]

-- The reply of what stands before and behind the fence.
unfoldable pub reply_of : Text → Text → Text
reply_of before after =
    if not (text_eq before []) && not (text_eq after [])
    then before ++ (newline ∷ after)
    else if not (text_eq before [])
    then before
    else after

-- One round of the loop: the source and the reply, or `none` for `continue`.
unfoldable pub with_fence : Text → Text → Option (Text × Text)
with_fence t fence = elim (open_at t fence) [
  | none ↦ none
  | some start ↦
      let after_open = start + length fence in
      elim (index (drop after_open t) (newline ∷ [])) [
        | none ↦ none
        | some nl ↦
            let content_start = after_open + nl + 1 in
            elim (close_at (drop content_start t)) [
              | none ↦ none
              | some close ↦
                  let after_close = content_start + close + length closing in
                  some (
                    take close (drop content_start t),
                    reply_of (trim_space (take start t)) (trim_space (drop after_close t)),
                  )
            ]
      ]
]

unfoldable pub first_fence : Text → List Text → Option (Text × Text)
first_fence t [] = none
first_fence t (tag ∷ rest) = elim (with_fence t (fence_of tag)) [
  | some r ↦ some r
  | none ↦ first_fence t rest
]

-- The source, the reply, and whether a fence was found; `false` is ErrNoFence.
unfoldable pub extract_fenced_inform7 : Text → (Text × Text) × Bool
extract_fenced_inform7 t = elim (first_fence t tags) [
  | some r ↦ (r, true)
  | none ↦ (([], trim_space t), false)
]
