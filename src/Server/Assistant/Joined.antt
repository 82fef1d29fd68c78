-- ===== src/Server/Assistant/Joined.antt =====
-- The reply that a handler of the assistant puts together from the chunks
-- (service/internal/server/handlers_ai.go, service/internal/openai/stream.go).
use aifstudio.Prelude.{
  ◌≡◌, refl, sym, ap, ◌∙◌, Bool, false, List, [], ◌∷◌, ◌++◌, append-nil, Option, some, some_eq,
  arith, Bool-cases, inl, inr,
}
use aifstudio.Text.{Text}
use aifstudio.Openai.Stream.{Chunk, Event, nothing_yet, stream_chat}
use aifstudio.Openai.Stream.Fold.{IsCourse, ended, final, more, final_content, chunks-IsCourse}
use aifstudio.Server.Assistant.{Streamed, unstreamed, consume, with_delta, with_tokens}

with_delta-reply : (d : Text) (s : Streamed) → (with_delta d s).reply ≡ s.reply ++ d
unfolding with_delta
with_delta-reply [] s = sym (append-nil s.reply)
with_delta-reply (c ∷ d) s = refl

with_delta-error : (d : Text) (s : Streamed) → (with_delta d s).is_error ≡ s.is_error
unfolding with_delta
with_delta-error [] s = refl
with_delta-error (c ∷ d) s = refl

with_tokens-reply : (c : Chunk) (s : Streamed) → (with_tokens c s).reply ≡ s.reply
unfolding with_tokens
with_tokens-reply c s = elim (Bool-cases c.done) [
  | inl y ↦ rw (with_tokens, y) refl
  | inr n ↦ rw (with_tokens, n) refl
]

with_tokens-error : (c : Chunk) (s : Streamed) → (with_tokens c s).is_error ≡ s.is_error
unfolding with_tokens
with_tokens-error c s = elim (Bool-cases c.done) [
  | inl y ↦ rw (with_tokens, y) refl
  | inr n ↦ rw (with_tokens, n) refl
]

-- One chunk without an error.
taken :
    (c : Chunk) (s : Streamed) → (with_tokens c (with_delta c.delta s)).reply ≡ s.reply ++ c.delta
taken c s = with_tokens-reply c (with_delta c.delta s) ∙ with_delta-reply c.delta s

unbroken : (c : Chunk) (s : Streamed) → (with_tokens c (with_delta c.delta s)).is_error ≡ s.is_error
unbroken c s = with_tokens-error c (with_delta c.delta s) ∙ with_delta-error c.delta s

consume-final :
    {before : Text} {cs : List Chunk} (s : Streamed) (x : Text)
    → IsCourse before cs
    → s.reply ≡ before
    → s.is_error ≡ false
    → final_content cs ≡ some x
    → ((consume cs s).reply ≡ x) × ((consume cs s).is_error ≡ false)
unfolding consume
consume-final s x ended r e f = absurd (cc)
consume-final {before} s x (final c d same nothing) r e f = elim (Bool-cases c.is_error) [
  | inl y ↦ absurd (ground (arith, d, y, f))
  | inr n ↦
      let whole : c.content ≡ x = some_eq (ground (arith, d, n, f)) in
      rw (consume, n)
        (
          taken c s
              ∙ ap (λ t. s.reply ++ t) nothing
              ∙ append-nil s.reply
              ∙ r
              ∙ sym (same n)
              ∙ whole,
          unbroken c s ∙ e,
        )
]
consume-final s x (more c d n same rest) r e f =
    rw (consume, n)
      (consume-final (with_tokens c (with_delta c.delta s)) x rest
        (taken c s ∙ ap (λ t. t ++ c.delta) r) (unbroken c s ∙ e) (ground (arith, d, f)))

-- When the stream of the model comes to its end mark, the reply that a handler puts together from the
-- deltas is the content that the final chunk carries, whatever the lines and the decoder are.
pub consume-stream_chat :
    (decode : Text → Option Event) (broken : Bool) (lines : List Text) (x : Text)
    → final_content (stream_chat decode broken lines) ≡ some x
    → ((consume (stream_chat decode broken lines) unstreamed).reply ≡ x)
      × ((consume (stream_chat decode broken lines) unstreamed).is_error ≡ false)
unfolding stream_chat
consume-stream_chat decode broken lines x f =
    consume-final unstreamed x (chunks-IsCourse decode broken lines nothing_yet) refl refl f
