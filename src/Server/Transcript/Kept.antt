-- ===== src/Server/Transcript/Kept.antt =====
-- compressTranscript (service/internal/server/transcript.go): which lines are kept.
use aifstudio.Prelude.{
  ℕ, zero, suc, ◌+◌, ◌-◌, ◌≤◌, ◌<◌, ◌≡◌, refl, ap, ◌⊎◌, inl, inr, Bool, true, false, List, [], ◌∷◌,
  ◌++◌, arith, In, here, there, length, take, drop, Bool-cases,
}
use aifstudio.Text.{Text, text_eq, is_space, trim_left, trim_right, cons_trimmed, trim_space}
use aifstudio.Server.Transcript.{
  State, middle, is_blank, is_player_cmd, is_signal, trim_cr, visit, select, initial, lines_of,
}

-- The lines that compression selects from a transcript of more than ten lines.
abbrev pub selected : Text → List Text
selected t = select (length (lines_of t)) 0 (lines_of t) initial

-- A line that is kept whatever state the loop is in.
abbrev pub IsMarked : Text → Type 0
IsMarked raw =
    (is_player_cmd (trim_cr raw) ≡ true)
    ⊎ ((is_signal (trim_cr raw) ≡ true) × (is_blank (trim_cr raw) ≡ false))

trim_right-head :
    (p : ℕ → Bool) (c : ℕ) (s : Text) → p c ≡ false → (r : Text) × (trim_right p (c ∷ s) ≡ c ∷ r)
unfolding trim_right cons_trimmed
trim_right-head p c s h = split_on (trim_right p s)
  where
    split_on : (t : Text) → (r : Text) × (cons_trimmed p c t ≡ c ∷ r)
    split_on [] = ([], rw h)
    split_on (d ∷ t) = (d ∷ t, refl)

trim_left-head : (p : ℕ → Bool) (c : ℕ) (s : Text) → p c ≡ false → trim_left p (c ∷ s) ≡ c ∷ s
unfolding trim_left
trim_left-head p c s h = rw h

-- A line that starts with a visible character is not blank.
not_blank : (c : ℕ) (s : Text) → is_space c ≡ false → is_blank (c ∷ s) ≡ false
unfolding is_blank trim_space text_eq
not_blank c s h =
    let (r, e) = trim_right-head is_space c s h in rw (e, trim_left-head is_space c r h)

gt_visible : is_space b'>' ≡ false
unfolding is_space
gt_visible = refl

pub cmd_not_blank : (line : Text) → is_player_cmd line ≡ true → is_blank line ≡ false
unfolding is_player_cmd
cmd_not_blank [] h = cc
cmd_not_blank (c ∷ []) h = cc
cmd_not_blank (c ∷ d ∷ s) h =
    let e : b'>' ≡ c = ground arith in rw (← e) (not_blank b'>' (d ∷ s) gt_visible)

visit-IsMarked : (n i : ℕ) (raw : Text) (st : State) → IsMarked raw → (visit n i raw st).1 ≡ true
unfolding visit middle
visit-IsMarked n i raw st m = ground (arith, cmd_not_blank (trim_cr raw))

select-IsMarked :
    (n i : ℕ) (lines : List Text) (st : State) {raw : Text}
    → In raw lines
    → IsMarked raw
    → In raw (select n i lines st)
unfolding select
select-IsMarked n i (raw ∷ lines) st here m = rw (visit-IsMarked n i raw st m, select) here
select-IsMarked n i (raw ∷ lines) st (there k) m =
    let rest = select-IsMarked n (suc i) lines (visit n i raw st).0 k m in
    elim (Bool-cases (visit n i raw st).1) [
      | inl y ↦ rw (y, select) (there rest)
      | inr z ↦ rw (z, select) rest
    ]
select-IsMarked n i [] st k m = elim k [ ]

visit_edge :
    (n i : ℕ) (raw : Text) (st : State) → (i < 5) ⊎ (n ≤ i + 3) → (visit n i raw st).1 ≡ true
unfolding visit
visit_edge n i raw st h = ground arith

-- The first lines that the loop has still to see below line 5 are kept.
select_first :
    (k n i : ℕ) (lines : List Text) (st : State)
    → i + k ≤ 5
    → take k (select n i lines st) ≡ take k lines
unfolding select
select_first zero n i lines st h = refl
select_first (suc k) n i [] st h = refl
select_first (suc k) n i (raw ∷ lines) st h =
    rw (visit_edge n i raw st (inl (omega arith)), select)
      (ap (λ l. raw ∷ l) (select_first k n (suc i) lines (visit n i raw st).0 (omega arith)))

select_all : (n i : ℕ) (lines : List Text) (st : State) → n ≤ i + 3 → select n i lines st ≡ lines
unfolding select
select_all n i [] st h = refl
select_all n i (raw ∷ lines) st h =
    rw (visit_edge n i raw st (inr h), select)
      (ap (λ l. raw ∷ l) (select_all n (suc i) lines (visit n i raw st).0 (omega arith)))

-- What is kept ends with the last three lines.
select_last :
    (k n i : ℕ) (lines : List Text) (st : State)
    → n ≡ i + k + 3
    → (r : List Text) × (select n i lines st ≡ r ++ drop k lines)
unfolding select
select_last zero n i lines st h = ([], select_all n i lines st (omega arith))
select_last (suc k) n i [] st h = ([], refl)
select_last (suc k) n i (raw ∷ lines) st h =
    let (r, e) = select_last k n (suc i) lines (visit n i raw st).0 (omega arith) in
    elim (Bool-cases (visit n i raw st).1) [
      | inl y ↦ (raw ∷ r, rw (y, select) (ap (λ l. raw ∷ l) e))
      | inr z ↦ (r, rw (z, select) e)
    ]

-- Of a transcript of more than ten lines compression selects the first five and the last three lines,
-- and every line that is a player's command or that is not blank and holds a signal word.
pub selected_keeps :
    (t : Text)
    → 10 < length (lines_of t)
    → (take 5 (selected t) ≡ take 5 (lines_of t))
      × ((r : List Text) × (selected t ≡ r ++ drop (length (lines_of t) - 3) (lines_of t)))
      × ((raw : Text) → In raw (lines_of t) → IsMarked raw → In raw (selected t))
selected_keeps t h =
    let n = length (lines_of t) in
    (
      select_first 5 n 0 (lines_of t) initial (omega arith),
      select_last (n - 3) n 0 (lines_of t) initial (omega arith),
      λ raw i m. select-IsMarked n 0 (lines_of t) initial i m,
    )
