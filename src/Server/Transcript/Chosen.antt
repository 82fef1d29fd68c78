-- ===== src/Server/Transcript/Chosen.antt =====
-- compressTranscript (service/internal/server/transcript.go) against its rules: which lines are kept,
-- said of each line by the lines before it and by those of them that are kept.
use mathlib.Core.List.{reverse, reverse-cons}
use aifstudio.Prelude.{
  ℕ, suc, ◌-◌, ◌≤◌, ◌<◌, ◌≡◌, refl, sym, ap, ◌∙◌, ◌⊎◌, inl, inr, Bool, true, false, not, ◌&&◌, ◌||◌,
  List, [], ◌∷◌, ◌++◌, append_assoc, append-nil, arith, length, Bool-cases, ltb, leb, if◌then◌else◌,
}
use aifstudio.Text.{Text, text, newline, has_suffix, join}
use aifstudio.Server.Transcript.{
  State, middle, is_blank, is_player_cmd, is_signal, trim_cr, visit, select, initial, lines_of,
  compress_transcript,
}
use aifstudio.Server.Transcript.Kept.{cmd_not_blank}

abbrev pub blank : Text → Bool
blank raw = is_blank (trim_cr raw)

abbrev pub command : Text → Bool
command raw = is_player_cmd (trim_cr raw)

abbrev pub signal : Text → Bool
signal raw = is_signal (trim_cr raw)

-- One of the first five or the last three of `n` lines.
abbrev pub edge : ℕ → ℕ → Bool
edge n i = ltb i 5 || leb (n - 3) i

-- Of the lines read so far, the latest one at the head: whether a command is among those between the
-- edges that hold no signal word.
abbrev pub opened : ℕ → List Text → Bool
opened n [] = false
opened n (raw ∷ past) =
    let before = opened n past in
    before || (not (edge n (length past)) && not (signal raw) && command raw)

-- How many of them are response lines behind the latest such command.
abbrev pub responses : ℕ → List Text → ℕ
responses n [] = 0
responses n (raw ∷ past) =
    let before = responses n past in
    if edge n (length past) || signal raw
    then before
    else if command raw
    then 0
    else if blank raw
    then before
    else suc before

abbrev pub ends_blank : List Text → Bool
ends_blank [] = false
ends_blank (raw ∷ out) = blank raw

-- Whether a line is kept behind the lines `past`, of which `out` are kept.
abbrev pub keeps : ℕ → List Text → List Text → Text → Bool
keeps n past out raw =
    edge n (length past)
    || (if signal raw
        then not (blank raw && ends_blank out)
        else command raw
          || (opened n past
              && (if blank raw then not (ends_blank out) else ltb (responses n past) 10)))

-- The lines kept of `past`, the latest one at the head.
abbrev pub chosen : ℕ → List Text → List Text
chosen n [] = []
chosen n (raw ∷ past) = let out = chosen n past in if keeps n past out raw then raw ∷ out else out

-- The loop's variables say what they are meant to say of the lines read and kept.
record Matches (n : ℕ) (past out : List Text) (st : State) : Type 0 where
  seen : st.seen_cmd ≡ opened n past
  since : st.seen_cmd ≡ true → st.response_lines ≡ responses n past
  last : st.prev_blank ≡ ends_blank out

visit-keeps :
    (n : ℕ) (past out : List Text) (raw : Text) (st : State)
    → Matches n past out st
    → (visit n (length past) raw st).1 ≡ keeps n past out raw
unfolding visit middle
visit-keeps n past out raw st m = ground (arith, m.seen, m.since, m.last)

visit-seen :
    (n : ℕ) (past out : List Text) (raw : Text) (st : State)
    → Matches n past out st
    → (visit n (length past) raw st).0.seen_cmd ≡ opened n (raw ∷ past)
unfolding visit middle
visit-seen n past out raw st m = ground (arith, m.seen)

visit-since :
    (n : ℕ) (past out : List Text) (raw : Text) (st : State)
    → Matches n past out st
    → (visit n (length past) raw st).0.seen_cmd ≡ true
    → (visit n (length past) raw st).0.response_lines ≡ responses n (raw ∷ past)
unfolding visit middle
visit-since n past out raw st m s = ground (arith, m.seen, m.since)

visit-last :
    (n : ℕ) (past out : List Text) (raw : Text) (st : State)
    → Matches n past out st
    → (visit n (length past) raw st).0.prev_blank
      ≡ ends_blank (if (visit n (length past) raw st).1 then raw ∷ out else out)
unfolding visit middle
visit-last n past out raw st m = ground (arith, m.last, cmd_not_blank (trim_cr raw))

visit-Matches :
    (n : ℕ) (past : List Text) (raw : Text) (st : State)
    → Matches n past (chosen n past) st
    → Matches n (raw ∷ past) (chosen n (raw ∷ past)) (visit n (length past) raw st).0
visit-Matches n past raw st m =
    let k = visit-keeps n past (chosen n past) raw st m in
    record {
      seen = visit-seen n past (chosen n past) raw st m;
      since = visit-since n past (chosen n past) raw st m;
      last =
          visit-last n past (chosen n past) raw st m
          ∙ ap (λ b. ends_blank (if b then raw ∷ chosen n past else chosen n past)) k;
    }

shift :
    (raw : Text) (lines past : List Text)
    → reverse (raw ∷ lines) ++ past ≡ reverse lines ++ (raw ∷ past)
shift raw lines past =
    ap (λ ls. ls ++ past) (reverse-cons raw lines) ∙ append_assoc (reverse lines) (raw ∷ []) past

-- The rest of the loop adds what the rules keep of the rest of the lines.
select-chosen :
    (n : ℕ) (lines past : List Text) (st : State)
    → Matches n past (chosen n past) st
    → reverse (chosen n past) ++ select n (length past) lines st
      ≡ reverse (chosen n (reverse lines ++ past))
unfolding select
select-chosen n [] past st m = append-nil (reverse (chosen n past))
select-chosen n (raw ∷ lines) past st m =
    let st' = (visit n (length past) raw st).0 in
    let rest = select-chosen n lines (raw ∷ past) st' (visit-Matches n past raw st m) in
    let k = visit-keeps n past (chosen n past) raw st m in
    rw (shift raw lines past) (elim (Bool-cases (keeps n past (chosen n past) raw)) [
      | inl y ↦
          rw (select, k, y)
            (sym (
                append_assoc (reverse (chosen n past)) (raw ∷ [])
                  (select n (suc (length past)) lines st'))
              ∙ ap (λ ls. ls ++ select n (suc (length past)) lines st')
                  (sym (reverse-cons raw (chosen n past)))
              ∙ (rw y at rest))
      | inr z ↦ rw (select, k, z) (rw z at rest)
    ])

initial-Matches : (n : ℕ) → Matches n [] [] initial
unfolding initial
initial-Matches n = record { seen = refl; since = λ e. cc; last = refl }

-- The lines that the rules keep of all the lines.
abbrev pub chosen_lines : List Text → List Text
chosen_lines lines = reverse (chosen (length lines) (reverse lines))

chosen_all : (lines : List Text) → select (length lines) 0 lines initial ≡ chosen_lines lines
chosen_all lines =
    select-chosen (length lines) lines [] initial (initial-Matches (length lines))
    ∙ ap (λ ls. reverse (chosen (length lines) ls)) (append-nil (reverse lines))

-- Compression gives the transcript back if it is switched off or the transcript has at most ten lines.
-- Otherwise it gives, joined by newlines and with a final newline exactly if the transcript has one,
-- the lines that the rules keep, in their order: the first five and the last three; a line with a
-- signal word, unless it is blank behind a kept blank line; any other command; behind the first such
-- command between these edges a blank line, unless the line kept last is blank; and a response line,
-- unless ten response lines stand between it and the latest such command.
pub compress_transcript-chosen :
    (enabled : Bool) (t : Text)
    → (((enabled ≡ false) ⊎ (length (lines_of t) ≤ 10)) × (compress_transcript enabled t ≡ t))
      ⊎ ((enabled ≡ true)
          × (10 < length (lines_of t))
          × (compress_transcript enabled t ≡ (
              if has_suffix t (text "\n")
              then join newline (chosen_lines (lines_of t)) ++ (newline ∷ [])
              else join newline (chosen_lines (lines_of t)))))
unfolding compress_transcript
compress_transcript-chosen false t = inl (inl refl, refl)
compress_transcript-chosen true t = elim (Bool-cases (leb (length (lines_of t)) 10)) [
  | inl few ↦ inl (inr (ground arith), rw few)
  | inr many ↦ inr (refl, ground arith, rw (many, chosen_all (lines_of t)) refl)
]
