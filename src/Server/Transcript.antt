-- ===== src/Server/Transcript.antt =====
-- compressTranscript (service/internal/server/transcript.go). The package variable
-- transcriptCompressionEnabled is an argument.
pub mod Kept
pub mod Bound
pub mod Chosen
mod Tests
use aifstudio.Prelude.{
  ℕ, zero, suc, ◌+◌, ◌-◌, Bool, true, false, not, ◌&&◌, ◌||◌, List, [], ◌∷◌, ◌++◌, ltb, leb, ◌==◌,
  if◌then◌else◌, length,
}
use aifstudio.Text.{
  Text, text, newline, text_eq, has_suffix, contains, trim_right, trim_space, split, join,
}

abbrev pub compression_enabled : Bool
compression_enabled = false

abbrev pub max_response_lines : ℕ
max_response_lines = 10

-- playerCmdRE.MatchString, `^>[0-9]`
pub is_player_cmd : Text → Bool
is_player_cmd [] = false
is_player_cmd (c ∷ []) = false
is_player_cmd (c ∷ d ∷ s) = c == b'>' && leb b'0' d && leb d b'9'

pub is_signal : Text → Bool
is_signal line =
    contains line (text "***")
    || contains line (text "Score")
    || contains line (text "error")
    || contains line (text "Error")
    || contains line (text "problem")
    || contains line (text "Problem")
    || contains line (text "warning")
    || contains line (text "Warning")

-- strings.TrimRight(raw, "\r")
pub trim_cr : Text → Text
trim_cr raw = trim_right (λ c. c == 13) raw

pub is_blank : Text → Bool
is_blank line = text_eq (trim_space line) []

-- The loop's variables.
pub record State : Type 0 where
  pub seen_cmd : Bool
  pub response_lines : ℕ
  pub prev_blank : Bool

-- The loop's body behind the test for the first and last lines, on the facts about the line: the new
-- variables, and whether the line is appended.
pub middle : Bool → Bool → Bool → State → State × Bool
middle blank cmd signal st =
    if signal
    then if not (blank && st.prev_blank)
      then (record st { prev_blank = blank }, true)
      else (st, false)
    else if not st.seen_cmd && not cmd
    then (st, false)
    else if cmd
    then (record { seen_cmd = true; response_lines = 0; prev_blank = false }, true)
    else if blank
    then if not st.prev_blank then (record st { prev_blank = true }, true) else (st, false)
    else if ltb st.response_lines max_response_lines
    then (record st { prev_blank = false; response_lines = st.response_lines + 1 }, true)
    else (record st { response_lines = st.response_lines + 1 }, false)

-- The body of the loop, at line `i` of `n`. `i >= n-3` is written for `n` at least 3.
pub visit : ℕ → ℕ → Text → State → State × Bool
visit n i raw st =
    let line = trim_cr raw in
    let blank = is_blank line in
    if ltb i 5 || leb (n - 3) i
    then (record st { prev_blank = blank }, true)
    else middle blank (is_player_cmd line) (is_signal line) st

-- The loop from line `i` on: the lines appended to `out`.
pub select : ℕ → ℕ → List Text → State → List Text
select n i [] st = []
select n i (raw ∷ lines) st =
    let (st', kept) = visit n i raw st in
    let rest = select n (suc i) lines st' in if kept then raw ∷ rest else rest

pub initial : State
initial = record { seen_cmd = false; response_lines = 0; prev_blank = false }

-- `lines[:len(lines)-1]` if the last element is empty.
pub drop_last_empty : List Text → List Text
drop_last_empty [] = []
drop_last_empty (l ∷ []) = if text_eq l [] then [] else l ∷ []
drop_last_empty (l ∷ m ∷ ls) = l ∷ drop_last_empty (m ∷ ls)

-- The lines that the loop runs over.
pub lines_of : Text → List Text
lines_of transcript =
    let lines = split newline transcript in
    if has_suffix transcript (text "\n") then drop_last_empty lines else lines

pub compress_transcript : Bool → Text → Text
compress_transcript enabled transcript =
    let lines = lines_of transcript in
    let n = length lines in
    let result = join newline (select n 0 lines initial) in
    if not enabled
    then transcript
    else if leb n 10
    then transcript
    else if has_suffix transcript (text "\n")
    then result ++ (newline ∷ [])
    else result
