-- ===== src/Openai/Stream.antt =====
-- StreamChat (service/internal/openai/stream.go): from the lines of the response to the chunks of the
-- channel. `decode` is the JSON decoder; `failed` says that the scanner ends with an error.
pub mod Fold
use aifstudio.Prelude.{
  ℕ, Bool, true, false, ◌||◌, List, [], ◌∷◌, ◌++◌, Option, none, some, length, drop, if◌then◌else◌,
}
use aifstudio.Text.{Text, text, text_eq, has_prefix}

pub record Chunk : Type 0 where
  pub content : Text
  pub delta : Text
  pub done : Bool
  pub is_error : Bool
  pub prompt_tokens : ℕ
  pub completion_tokens : ℕ

-- An event: the first choice's delta, if there is a choice, and the usage, if it is there.
pub record Event : Type 0 where
  pub choice : Option Text
  pub usage : Option (ℕ × ℕ)

-- The variables of the loop.
pub record Tally : Type 0 where
  pub cumulative : Text
  pub prompt : ℕ
  pub completion : ℕ

abbrev pub nothing_yet : Tally
nothing_yet = record { cumulative = []; prompt = 0; completion = 0 }

-- The data of a line, `none` for a line that the loop passes over.
unfoldable pub data_of : Text → Option Text
data_of line =
    if text_eq line [] || has_prefix line (text ":") || has_prefix line (text "event:")
    then none
    else if has_prefix line (text "data: ")
    then some (drop (length (text "data: ")) line)
    else none

unfoldable pub last_chunk : Tally → Chunk
last_chunk t = record {
  content = t.cumulative;
  delta = [];
  done = true;
  is_error = false;
  prompt_tokens = t.prompt;
  completion_tokens = t.completion;
}

abbrev pub error_chunk : Chunk
error_chunk = record {
  content = [];
  delta = [];
  done = true;
  is_error = true;
  prompt_tokens = 0;
  completion_tokens = 0;
}

abbrev pub delta_chunk : Text → Text → Chunk
delta_chunk content delta = record {
  content = content;
  delta = delta;
  done = false;
  is_error = false;
  prompt_tokens = 0;
  completion_tokens = 0;
}

unfoldable pub with_usage : Option (ℕ × ℕ) → Tally → Tally
with_usage none t = t
with_usage (some (p, c)) t = record t { prompt = p; completion = c }

-- An event: the new variables and the chunks sent.
unfoldable pub take_delta : Option Text → Tally → Tally × List Chunk
take_delta none t = (t, [])
take_delta (some []) t = (t, [])
take_delta (some (c ∷ s)) t =
    let content = t.cumulative ++ (c ∷ s) in
    (record t { cumulative = content }, delta_chunk content (c ∷ s) ∷ [])

unfoldable pub take_event : Event → Tally → Tally × List Chunk
take_event e t = take_delta e.choice (with_usage e.usage t)

module _ (decode : Text → Option Event) (failed : Bool) where
  -- The loop.
  unfoldable pub chunks : List Text → Tally → List Chunk
  chunks [] t = if failed then error_chunk ∷ [] else []
  chunks (line ∷ lines) t = elim (data_of line) [
    | none ↦ chunks lines t
    | some d ↦ elim (text_eq d (text "[DONE]")) [
      | true ↦ last_chunk t ∷ []
      | false ↦ elim (decode d) [
        | none ↦ chunks lines t
        | some e ↦ (take_event e t).1 ++ chunks lines (take_event e t).0
      ]
    ]
  ]

  unfoldable pub stream_chat : List Text → List Chunk
  stream_chat lines = chunks lines nothing_yet
