-- ===== src/Ifdb/Retry/Tests.antt =====
-- Small runs of the retries (service/internal/ifdb/client.go).
use aifstudio.Prelude.{ℕ, zero, suc, ◌≡◌, ◌≢◌, refl, true, List, [], ◌∷◌, Option, none, some}
use aifstudio.Ifdb.Retry.{
  Reply, no_answer, response, after_retries, upstream_5xx, parsed, failure, requests, judge, try,
  attempts, do_with_retry,
}
use aifstudio.Ifdb.Retry.Attempts.{Ended, do_with_retry-Ended}

abbrev first_byte : List ℕ → Option ℕ
first_byte [] = none
first_byte (b ∷ bs) = some b

-- An upstream that fails once and then answers, and one that is down.
abbrev recovers : ℕ → Reply
recovers zero = response 503 true []
recovers (suc n) = response 200 true (65 ∷ [])

abbrev down : ℕ → Reply
down zero = no_answer
down (suc n) = response 502 true []

recovers_run : do_with_retry first_byte recovers ≡ (parsed 65, 2)
unfolding do_with_retry attempts try judge requests
recovers_run = refl

down_run : do_with_retry first_byte down ≡ (failure (upstream_5xx 502), 3)
unfolding do_with_retry attempts try judge requests
down_run = refl

do_with_retry-Ended_example :
    ((k : ℕ) × Ended first_byte down k)
    × ((do_with_retry first_byte down).0 ≢ failure after_retries)
do_with_retry-Ended_example = do_with_retry-Ended first_byte down
