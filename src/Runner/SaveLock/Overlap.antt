-- ===== src/Runner/SaveLock/Overlap.antt =====
-- saveLock.triggerAsync (service/internal/runner/save.go): a trigger between the two critical
-- sections of a finished save.
use aifstudio.Prelude.{ℕ, zero, suc, ◌+◌, ◌≡◌, true, false, arith}
use aifstudio.Runner.SaveLock.{
  SaveLock, new, trigger_async, finish_first, resume, trigger, first_done, more, Reach, here, next,
}

-- A save of line 46 in flight, nothing pending, and `k` saves of line 57 beside it.
record Overlapping (k : ℕ) (l : SaveLock) : Type 0 where
  busy : l.in_flight ≡ true
  quiet : l.pending ≡ false
  one : l.first ≡ 1
  none_resuming : l.resuming ≡ 0
  beside : l.again ≡ k

-- A trigger during the save, the save's first critical section, a trigger, the second section.
abbrev race : SaveLock → SaveLock
race l = resume (trigger_async (finish_first (trigger_async l)))

race-Overlapping : (k : ℕ) (l : SaveLock) → Overlapping k l → Overlapping (suc k) (race l)
unfolding trigger_async finish_first resume
race-Overlapping k l h = ground arith

race-Reach : (k : ℕ) (l : SaveLock) → Overlapping k l → Reach new l → Reach new (race l)
unfolding trigger_async finish_first resume
race-Reach k l h r =
    next
      (next (next (next r (trigger l)) (first_done (trigger_async l) (ground arith)))
        (trigger (finish_first (trigger_async l))))
      (more (trigger_async (finish_first (trigger_async l))) (ground arith))

overlaps : (k : ℕ) → (l : SaveLock) × Reach new l × Overlapping k l
unfolding trigger_async new
overlaps zero = (trigger_async new, next here (trigger new), ground arith)
overlaps (suc k) =
    let (l, r, o) = overlaps k in (race l, race-Reach k l o r, race-Overlapping k l o)

-- The lock does not keep one save in flight at a time: for every `k` some sequence of triggers and
-- returning saves leads from a new lock to a state with `k + 1` calls of `runSave` running.
pub saves_overlap : (k : ℕ) → (l : SaveLock) × Reach new l × (l.first + l.again ≡ k + 1)
saves_overlap k = let (l, r, o) = overlaps k in (l, r, ground arith)
