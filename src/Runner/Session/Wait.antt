-- ===== src/Runner/Session/Wait.antt =====
-- waitForQuiescence (service/internal/runner/save.go): the poll of the interpreter's last output. A
-- poll is a round of the loop; times are in milliseconds since the call. `clock` is the time at the
-- head of each round, `idle` how long the interpreter has been silent there, `cancelled` whether the
-- context has ended when the round would sleep. Silence may have begun before the call.
use aifstudio.Prelude.{
  ℕ, zero, suc, ◌+◌, ◌*◌, ◌/◌, ◌≤◌, ◌<◌, ◌≡◌, inl, inr, Bool, true, false, Option, none, some,
  arith, leb, ltb, Bool-cases, le-split,
}

module _ (clock : ℕ → ℕ) (idle : ℕ → ℕ) (cancelled : ℕ → Bool) (dur timeout : ℕ) where
  -- quiesced, at the time of the round's head.
  unfoldable pub quiesced : ℕ → Bool
  quiesced i = leb dur (idle i)

  -- The loop from round `i` on; `none` is fuel that ran out.
  unfoldable pub wait_from : ℕ → ℕ → Option Bool
  wait_from zero i = none
  wait_from (suc fuel) i = elim (ltb (clock i) timeout) [
    | false ↦ some false
    | true ↦ elim (quiesced i) [
      | true ↦ some true
      | false ↦ elim (cancelled i) [ true ↦ some false | false ↦ wait_from fuel (suc i) ]
    ]
  ]

  unfoldable pub wait_for_quiescence : ℕ → Option Bool
  wait_for_quiescence fuel = wait_from fuel 0

  wait_from_total :
      (fuel i : ℕ)
      → ((j : ℕ) → 20 * j ≤ clock j)
      → timeout + 20 ≤ 20 * (fuel + i)
      → 0 < fuel
      → (b : Bool) × (wait_from fuel i ≡ some b)
  unfolding wait_from
  wait_from_total zero i c t h = absurd (omega arith)
  wait_from_total (suc fuel) i c t h = elim (Bool-cases (ltb (clock i) timeout)) [
    | inr late ↦ (false, rw (late, wait_from))
    | inl early ↦ elim (Bool-cases (quiesced i)) [
      | inl q ↦ (true, rw (early, q, wait_from))
      | inr q ↦ elim (Bool-cases (cancelled i)) [
        | inl x ↦ (false, rw (early, q, x, wait_from))
        | inr x ↦
            let (b, e) = wait_from_total fuel (suc i) c (omega arith) (
              let a : 20 * i ≤ clock i = c i in
              let l : clock i < timeout = ground arith in omega arith) in
            (b, rw (early, q, x, wait_from) e)
      ]
    ]
  ]

  -- Rounds are at least 20 ms apart, so with a round for each 20 ms of the timeout and two more the
  -- loop returns.
  pub wait_total :
      ((j : ℕ) → 20 * j ≤ clock j) → (b : Bool) × (wait_for_quiescence (timeout / 20 + 2) ≡ some b)
  unfolding wait_for_quiescence
  wait_total c = wait_from_total (timeout / 20 + 2) 0 c (omega arith) (omega arith)

  -- What a round saw that reported quiescence.
  abbrev pub SawQuiet : ℕ → ℕ → Type 0
  SawQuiet i k =
      (i ≤ k)
      × (clock k < timeout)
      × (dur ≤ idle k)
      × ((j : ℕ) → i ≤ j → j < k → (idle j < dur) × (cancelled j ≡ false))

  wait_from-true : (fuel i : ℕ) → wait_from fuel i ≡ some true → (k : ℕ) × SawQuiet i k
  unfolding wait_from quiesced
  wait_from-true zero i e = (i, absurd (ground arith))
  wait_from-true (suc fuel) i e = elim (Bool-cases (ltb (clock i) timeout)) [
    | inr late ↦ (i, absurd (ground arith))
    | inl early ↦ elim (Bool-cases (quiesced i)) [
      | inl q ↦ (i, (omega arith, ground arith, ground arith, λ j a b. absurd (omega arith)))
      | inr q ↦ elim (Bool-cases (cancelled i)) [
        | inl x ↦ (i, absurd (ground arith))
        | inr x ↦
            let (k, seen) = wait_from-true fuel (suc i) (rw (early, q, x, wait_from) at e) in
            let (a, b, c, d) = seen in
            (
              k,
              (
                omega arith,
                b,
                c,
                λ j p r. elim (le-split i j p) [
                  | inl same ↦ rw (← same) (ground arith, x)
                  | inr later ↦ d j later r
                ],
              ),
            )
      ]
    ]
  ]

  -- A wait that reports quiescence saw, before the timeout and before the context ended, a round
  -- with no output for `dur`, and that is the first such round.
  pub wait_quiet : (fuel : ℕ) → wait_for_quiescence fuel ≡ some true → (k : ℕ) × SawQuiet 0 k
  unfolding wait_for_quiescence
  wait_quiet fuel e = wait_from-true fuel 0 e
