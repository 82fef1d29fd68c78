-- ===== src/Server/Builds/Report.antt =====
-- What a client of handleBuildTest reads (service/internal/server/handlers_builds.go).
use aifstudio.Prelude.{
  ℕ, ◌≡◌, ◌≢◌, refl, sym, ap, ◌∙◌, Bool, false, ◌==◌, List, [], ◌∷◌, ◌++◌, append_assoc, All,
  All-append, Bool-cases, inl, inr,
}
use aifstudio.Text.{Text, newline, text_eq, split, trim_right, cons_trimmed}
use aifstudio.Text.Lines.{Lacks, split-Lacks}
use aifstudio.Server.Transcript.{compress_transcript, compression_enabled}
use aifstudio.Server.Builds.Test.{
  Event, output, result, Course, not_started, exited, tested, is_winning_outcome, line_events,
  chunk_events, stream, events_of, concat,
}

-- An output event of one line that is not empty.
abbrev pub IsLine : Event → Type 0
IsLine e = (l : Text) × (e ≡ output l) × (text_eq l [] ≡ false) × Lacks newline l

cons_trimmed-Lacks :
    (p : ℕ → Bool) (c : ℕ) (s : Text)
    → c ≢ newline
    → Lacks newline s
    → Lacks newline (cons_trimmed p c s)
unfolding cons_trimmed
cons_trimmed-Lacks p c [] n h = elim (Bool-cases (p c)) [ inl y ↦ rw y tt | inr m ↦ rw m (n, tt) ]
cons_trimmed-Lacks p c (d ∷ s) n h = (n, h)

trim_right-Lacks : (p : ℕ → Bool) (s : Text) → Lacks newline s → Lacks newline (trim_right p s)
unfolding trim_right
trim_right-Lacks p [] h = tt
trim_right-Lacks p (c ∷ s) (n, h) =
    cons_trimmed-Lacks p c (trim_right p s) n (trim_right-Lacks p s h)

line_events-IsLine : (ls : List Text) → All (Lacks newline) ls → All IsLine (line_events ls)
unfolding line_events
line_events-IsLine [] h = tt
line_events-IsLine (l ∷ ls) (n, h) = elim (Bool-cases (text_eq (trim_right (λ c. c == 13) l) [])) [
  | inl y ↦ rw (line_events, y) (line_events-IsLine ls h)
  | inr m ↦
      rw (line_events, m)
        ((_, refl, m, trim_right-Lacks (λ c. c == 13) l n), line_events-IsLine ls h)
]

stream-IsLine : (cs : List Text) → All IsLine (stream cs)
unfolding stream chunk_events
stream-IsLine [] = tt
stream-IsLine (c ∷ cs) =
    All-append IsLine (line_events (split newline c)) (stream cs)
      (line_events-IsLine (split newline c) (split-Lacks newline c)) (stream-IsLine cs)

-- The text behind a course and what the result shows of it.
abbrev pub whole : Course → Text
whole (not_started message) = message
whole (exited startup) = concat startup
whole (tested startup script drained) = concat startup ++ (concat script ++ concat drained)

abbrev pub shown : Course → Text
shown (not_started message) = message
shown (exited startup) = concat startup
shown (tested startup script drained) =
    compress_transcript compression_enabled (concat startup ++ (concat script ++ concat drained))

abbrev pub verdict : Course → Bool
verdict (not_started message) = false
verdict (exited startup) = is_winning_outcome (concat startup)
verdict (tested startup script drained) =
    is_winning_outcome (concat startup ++ (concat script ++ concat drained))

-- The stream of a build test consists of lines of output, none of them empty or with a line break in
-- it, and one result at its end: not won when the interpreter did not start, and otherwise the verdict
-- on everything that the interpreter wrote.
pub events_of-result :
    (c : Course)
    → (lines : List Event) × (events_of c ≡ lines ++ (result (verdict c) (shown c) ∷ []))
      × All IsLine lines
unfolding events_of
events_of-result (not_started message) = ([], refl, tt)
events_of-result (exited startup) = (stream startup, refl, stream-IsLine startup)
events_of-result (tested startup script drained) = (
  stream startup ++ (stream script ++ stream drained),
  sym (
      append_assoc (stream startup) (stream script ++ stream drained) _
      ∙ ap (λ es. stream startup ++ es) (append_assoc (stream script) (stream drained) _)),
  All-append IsLine (stream startup) (stream script ++ stream drained) (stream-IsLine startup) (
      All-append IsLine (stream script) (stream drained) (stream-IsLine script)
        (stream-IsLine drained)),
)
