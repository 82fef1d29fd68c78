-- ===== src/Ifdb/Retry.antt =====
-- doWithRetry (service/internal/ifdb/client.go): a GET with up to two retries. What the network
-- answers to an attempt is a function of the attempt's number.
pub mod Attempts
mod Tests
use aifstudio.Prelude.{
  ℕ, zero, suc, ◌+◌, ◌-◌, Bool, true, false, not, List, Option, none, some, leb, ◌==◌,
  if◌then◌else◌,
}

abbrev pub max_retries : ℕ
max_retries = 2

-- The answer to one attempt: the request could not be built, it was not answered, its body could not
-- be read, or a status with a body, which is valid UTF-8 or not.
pub data Reply : Type 0 where
  bad_request no_answer unreadable : Reply
  response : ℕ → Bool → List ℕ → Reply

pub data Failure : Type 0 where
  build_request unreachable reading not_found malformed after_retries : Failure
  upstream_status upstream_5xx : ℕ → Failure

-- The value that the parser set, or the error.
pub data Outcome {ℓ} (A : Type ℓ) : Type ℓ where
  parsed : A → Outcome A
  failure : Failure → Outcome A

-- How many requests an attempt sends: none if the request could not be built.
pub requests : Reply → ℕ
requests bad_request = 0
requests no_answer = 1
requests unreadable = 1
requests (response status valid body) = 1

module _ {ℓ} {A : Type ℓ} (parse : List ℕ → Option A) (replies : ℕ → Reply) where
  -- The body of the loop from the status on: the outcome, or `none` for `continue`.
  pub judge : ℕ → ℕ → Bool → List ℕ → Option (Outcome A)
  judge attempt status valid body =
      if leb 500 status
      then if attempt == max_retries then some (failure (upstream_5xx status)) else none
      else if status == 404
      then some (failure not_found)
      else if not (status == 200)
      then some (failure (upstream_status status))
      else if not valid
      then some (failure malformed)
      else elim (parse body) [ none ↦ some (failure malformed) | some a ↦ some (parsed a) ]

  pub try : ℕ → Reply → Option (Outcome A)
  try attempt bad_request = some (failure build_request)
  try attempt no_answer = if attempt == max_retries then some (failure unreachable) else none
  try attempt unreadable = some (failure reading)
  try attempt (response status valid body) = judge attempt status valid body

  -- The loop with `rounds` left, from attempt `attempt` on, and the number of requests sent.
  pub attempts : ℕ → ℕ → Outcome A × ℕ
  attempts zero attempt = (failure after_retries, 0)
  attempts (suc rounds) attempt = elim (try attempt (replies attempt)) [
    | some r ↦ (r, requests (replies attempt))
    | none ↦ let (r, n) = attempts rounds (suc attempt) in (r, requests (replies attempt) + n)
  ]

  pub do_with_retry : Outcome A × ℕ
  do_with_retry = attempts 3 0
