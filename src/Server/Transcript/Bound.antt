-- ===== src/Server/Transcript/Bound.antt =====
-- compressTranscript (service/internal/server/transcript.go): how many response lines are kept.
use aifstudio.Prelude.{
  ℕ, suc, ◌+◌, ◌-◌, ◌*◌, ◌≤◌, ◌<◌, ◌≡◌, refl, Bool, true, false, not, ◌&&◌, List, [], ◌∷◌, arith,
  min, length, if◌then◌else◌,
}
use aifstudio.Text.{Text}
use aifstudio.Server.Transcript.{
  State, middle, is_blank, is_player_cmd, is_signal, trim_cr, visit, select, initial, lines_of,
}
use aifstudio.Server.Transcript.Kept.{selected}

-- A line that is no signal, no command and not blank.
abbrev pub is_response : Text → Bool
is_response raw =
    not (is_signal (trim_cr raw))
    && not (is_player_cmd (trim_cr raw))
    && not (is_blank (trim_cr raw))

abbrev pub is_cmd : Text → Bool
is_cmd raw = is_player_cmd (trim_cr raw)

abbrev pub count : (Text → Bool) → List Text → ℕ
count p [] = 0
count p (l ∷ ls) = let rest = count p ls in if p l then suc rest else rest

-- Response lines that may still be kept before the next command.
abbrev budget : State → ℕ
budget st = if st.seen_cmd then 10 - st.response_lines else 0

abbrev one : Bool → ℕ
one true = 1
one false = 0

middle-budget :
    (blank cmd signal : Bool) (st : State)
    → let (st', kept) = middle blank cmd signal st in
      one (kept && not signal && not cmd && not blank) + budget st' ≤ budget st + 10 * one cmd
unfolding middle
middle-budget blank cmd signal st = ground arith

-- One line uses up the budget, a command, or one of the first five or last three places.
visit-budget :
    (n i : ℕ) (raw : Text) (st : State)
    → i < n
    → let (st', kept) = visit n i raw st in
      one (kept && is_response raw) + budget st' + (5 - suc i) + min 3 (n - suc i)
      ≤ budget st + 10 * one (is_cmd raw) + (5 - i) + min 3 (n - i)
unfolding visit
visit-budget n i raw st h = ground (
  arith,
  middle-budget (is_blank (trim_cr raw)) (is_player_cmd (trim_cr raw)) (is_signal (trim_cr raw)) st,
)

count_kept :
    (kept : Bool) (raw : Text) (rest : List Text)
    → count is_response (if kept then raw ∷ rest else rest)
      ≡ one (kept && is_response raw) + count is_response rest
count_kept kept raw rest = ground arith

count_cmd :
    (raw : Text) (lines : List Text)
    → count is_cmd (raw ∷ lines) ≡ one (is_cmd raw) + count is_cmd lines
count_cmd raw lines = ground arith

select-budget :
    (n i : ℕ) (lines : List Text) (st : State)
    → n ≡ i + length lines
    → count is_response (select n i lines st)
      ≤ budget st + 10 * count is_cmd lines + (5 - i) + min 3 (n - i)
unfolding select
select-budget n i [] st h = omega arith
select-budget n i (raw ∷ lines) st h =
    let st' = (visit n i raw st).0 in
    rw (count_kept (visit n i raw st).1 raw (select n (suc i) lines st'), count_cmd raw lines)
      (omega (
        arith,
        visit-budget n i raw st (omega arith),
        select-budget n (suc i) lines st' (omega arith),
      ))

initial-budget : budget initial ≡ 0
unfolding initial
initial-budget = refl

-- Of the lines that compression selects from a transcript, at most eight and ten for each command of
-- the transcript are neither signals nor commands nor blank.
pub selected_responses :
    (t : Text) → count is_response (selected t) ≤ 8 + 10 * count is_cmd (lines_of t)
selected_responses t =
    let n = length (lines_of t) in
    omega (arith, select-budget n 0 (lines_of t) initial (omega arith), initial-budget)
