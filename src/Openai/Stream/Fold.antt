-- ===== src/Openai/Stream/Fold.antt =====
-- The chunks of a stream (service/internal/openai/stream.go) put together.
use aifstudio.Prelude.{
  ℕ, ◌≡◌, refl, subst, Bool, true, false, List, [], ◌∷◌, ◌++◌, Option, none, some, if◌then◌else◌,
  Bool-cases, Option-cases, inl, inr,
}
use aifstudio.Text.{Text, text, text_eq}
use aifstudio.Openai.Stream.{
  Chunk, Event, Tally, data_of, last_chunk, error_chunk, delta_chunk, with_usage, take_delta,
  take_event, chunks,
}

-- What a reader has after some chunks.
abbrev pub joined : List Chunk → Text
joined [] = []
joined (c ∷ cs) = c.delta ++ joined cs

-- Each chunk without an error holds everything up to it, after `before`, and only the last chunk is
-- final.
pub data IsCourse : Text → List Chunk → Type 0 where
  ended : {before : Text} → IsCourse before []
  final :
      {before : Text} (c : Chunk)
      → c.done ≡ true
      → (c.is_error ≡ false → c.content ≡ before)
      → c.delta ≡ []
      → IsCourse before (c ∷ [])
  more :
      {before : Text} (c : Chunk) {cs : List Chunk}
      → c.done ≡ false
      → c.is_error ≡ false
      → c.content ≡ before ++ c.delta
      → IsCourse (before ++ c.delta) cs
      → IsCourse before (c ∷ cs)

with_usage-cumulative :
    (u : Option (ℕ × ℕ)) (t : Tally) → (with_usage u t).cumulative ≡ t.cumulative
unfolding with_usage
with_usage-cumulative none t = refl
with_usage-cumulative (some (p, c)) t = refl

take_delta-IsCourse :
    (d : Option Text) (t : Tally) (cs : List Chunk)
    → IsCourse (take_delta d t).0.cumulative cs
    → IsCourse t.cumulative ((take_delta d t).1 ++ cs)
unfolding take_delta
take_delta-IsCourse none t cs h = h
take_delta-IsCourse (some []) t cs h = h
take_delta-IsCourse (some (c ∷ s)) t cs h =
    more (delta_chunk (t.cumulative ++ (c ∷ s)) (c ∷ s)) refl refl refl h

take_event-IsCourse :
    (e : Event) (t : Tally) (cs : List Chunk)
    → IsCourse (take_event e t).0.cumulative cs
    → IsCourse t.cumulative ((take_event e t).1 ++ cs)
unfolding take_event
take_event-IsCourse e t cs h =
    subst (λ b. IsCourse b ((take_delta e.choice (with_usage e.usage t)).1 ++ cs))
      (with_usage-cumulative e.usage t) (take_delta-IsCourse e.choice (with_usage e.usage t) cs h)

module _ (decode : Text → Option Event) (failed : Bool) where
  pub chunks-IsCourse :
      (lines : List Text) (t : Tally) → IsCourse t.cumulative (chunks decode failed lines t)
  unfolding chunks last_chunk
  chunks-IsCourse [] t = elim (Bool-cases failed) [
    | inl y ↦ rw (chunks, y) (final error_chunk refl (λ e. absurd (cc)) refl)
    | inr n ↦ rw (chunks, n) ended
  ]
  chunks-IsCourse (line ∷ lines) t = elim (Option-cases (data_of line)) [
    | inl n ↦ rw (chunks, n) (chunks-IsCourse lines t)
    | inr (d, e) ↦ elim (Bool-cases (text_eq d (text "[DONE]"))) [
      | inl y ↦ rw (chunks, e, y) (final (last_chunk t) refl (λ _. refl) refl)
      | inr n ↦ elim (Option-cases (decode d)) [
        | inl m ↦ rw (chunks, e, n, m) (chunks-IsCourse lines t)
        | inr (event, f) ↦
            rw (chunks, e, n, f)
              (take_event-IsCourse event t (chunks decode failed lines (take_event event t).0)
                (chunks-IsCourse lines (take_event event t).0))
      ]
    ]
  ]

-- The content of the final chunk, if there is one without an error.
abbrev pub final_content : List Chunk → Option Text
final_content [] = none
final_content (c ∷ cs) =
    if c.done then (if c.is_error then none else some c.content) else final_content cs
