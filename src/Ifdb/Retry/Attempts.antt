-- ===== src/Ifdb/Retry/Attempts.antt =====
-- doWithRetry (service/internal/ifdb/client.go): how many requests are sent, and what ends the loop.
use aifstudio.Prelude.{
  ℕ, suc, ◌+◌, refl, ◌≤◌, ◌<◌, ◌≡◌, ◌≢◌, ◌⊎◌, inl, inr, true, List, Option, none, some, arith,
  Option-cases, ◌∙◌, ap,
}
use aifstudio.Ifdb.Retry.{
  Reply, bad_request, no_answer, unreadable, response, after_retries, parsed, failure, judge, try,
  attempts, do_with_retry, requests,
}

-- An answer after which the client tries again.
abbrev pub IsTransient : Reply → Type 0
IsTransient bad_request = ⊥
IsTransient no_answer = Unit
IsTransient unreadable = ⊥
IsTransient (response status valid body) = 500 ≤ status

module _ {A : Type 0} (parse : List ℕ → Option A) (replies : ℕ → Reply) where
  last_ends : (r : Reply) → try parse replies 2 r ≢ none
  unfolding try judge
  last_ends bad_request = λ e. cc
  last_ends no_answer = λ e. cc
  last_ends unreadable = λ e. cc
  last_ends (response s v b) = λ e. ground (arith)

  try-IsTransient : (k : ℕ) (r : Reply) → try parse replies k r ≡ none → IsTransient r
  unfolding try judge
  try-IsTransient k bad_request e = cc
  try-IsTransient k no_answer e = tt
  try-IsTransient k unreadable e = cc
  try-IsTransient k (response s v b) e = ground arith

  try_parsed :
      (k : ℕ) (r : Reply) (a : A)
      → try parse replies k r ≡ some (parsed a)
      → (body : List ℕ) × (r ≡ response 200 true body) × (parse body ≡ some a)
  unfolding try judge
  try_parsed k bad_request a e = ground arith
  try_parsed k no_answer a e = ground arith
  try_parsed k unreadable a e = ground arith
  try_parsed k (response s v b) a e = (b, ground arith, ground arith)

  -- After a transient answer a request has been sent.
  IsTransient-requests : (r : Reply) → IsTransient r → requests r ≡ 1
  unfolding requests
  IsTransient-requests bad_request t = elim t [ ]
  IsTransient-requests no_answer t = refl
  IsTransient-requests unreadable t = elim t [ ]
  IsTransient-requests (response s v b) t = refl

  retried : (k : ℕ) (r : Reply) → try parse replies k r ≡ none → requests r ≡ 1
  retried k r e = IsTransient-requests r (try-IsTransient k r e)

  not_after_retries : (k : ℕ) (r : Reply) → try parse replies k r ≢ some (failure after_retries)
  unfolding try judge
  not_after_retries k bad_request = λ e. ground arith
  not_after_retries k no_answer = λ e. ground arith
  not_after_retries k unreadable = λ e. ground arith
  not_after_retries k (response s v b) = λ e. ground arith

  -- The attempt `k` that ended the loop.
  pub record Ended (k : ℕ) : Type 0 where
    pub within : k ≤ 2
    pub sent : (do_with_retry parse replies).1 ≡ k + requests (replies k)
    pub decided : try parse replies k (replies k) ≡ some (do_with_retry parse replies).0
    pub before : (j : ℕ) → j < k → IsTransient (replies j)

  below_one : (j : ℕ) → j < 1 → j ≡ 0
  below_one j h = omega arith

  below_two : (j : ℕ) → j < 2 → (j ≡ 0) ⊎ (j ≡ 1)
  below_two j h = ground arith

  ended : (k : ℕ) × Ended k
  unfolding do_with_retry attempts
  ended = elim (Option-cases (try parse replies 0 (replies 0))) [
    | inr (r, e) ↦ (
      0,
      record {
        within = omega arith;
        sent = rw (e, attempts) (omega arith);
        decided = rw (e, attempts);
        before = λ j h. absurd (omega arith);
      },
    )
    | inl f ↦ elim (Option-cases (try parse replies 1 (replies 1))) [
      | inr (r, e) ↦ (
        1,
        record {
          within = omega arith;
          sent = rw (f, e, attempts, retried 0 (replies 0) f);
          decided = rw (f, e, attempts);
          before = λ j h. rw (below_one j h) (try-IsTransient 0 (replies 0) f);
        },
      )
      | inl g ↦ elim (Option-cases (try parse replies 2 (replies 2))) [
        | inr (r, e) ↦ (
          2,
          record {
            within = omega arith;
            sent =
                rw (f, g, e, attempts, retried 0 (replies 0) f, retried 1 (replies 1) g)
                  (omega arith);
            decided = rw (f, g, e, attempts);
            before = λ j h. elim (below_two j h) [
              | inl z ↦ rw z (try-IsTransient 0 (replies 0) f)
              | inr z ↦ rw z (try-IsTransient 1 (replies 1) g)
            ];
          },
        )
        | inl none_left ↦ absurd (last_ends (replies 2) none_left)
      ]
    ]
  ]

  -- One of the attempts 0, 1 and 2 decides the outcome, and each attempt before it sent a request whose
  -- answer was transient (none, or a status of 500 and above). So many requests are sent as there are
  -- attempts up to the deciding one, without that one if its request cannot be built. The error behind
  -- the loop never occurs.
  pub do_with_retry-Ended :
      ((k : ℕ) × Ended k) × ((do_with_retry parse replies).0 ≢ failure after_retries)
  do_with_retry-Ended =
      let (k, e) = ended in (ended, λ q. not_after_retries k (replies k) (e.decided ∙ ap some q))

  -- A parsed result comes from the last request, which was answered by status 200 with a valid body
  -- that parses to it, after transient answers only.
  pub do_with_retry-parsed :
      {a : A}
      → (do_with_retry parse replies).0 ≡ parsed a
      → (k : ℕ) × (body : List ℕ) × ((do_with_retry parse replies).1 ≡ suc k)
        × (replies k ≡ response 200 true body)
        × (parse body ≡ some a)
        × ((j : ℕ) → j < k → IsTransient (replies j))
  unfolding requests
  do_with_retry-parsed {a} q =
      let (k, e) = ended in
      let (body, answered, got) = try_parsed k (replies k) a (e.decided ∙ ap some q) in
      (k, body, rw (e.sent, answered, requests) (omega arith), answered, got, e.before)
