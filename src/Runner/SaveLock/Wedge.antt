-- ===== src/Runner/SaveLock/Wedge.antt =====
-- saveLock.triggerAsync (service/internal/runner/save.go): what its two flags guarantee, and the
-- state that they cannot leave.
use aifstudio.Prelude.{ℕ, zero, suc, ◌+◌, ◌≤◌, ◌≡◌, refl, ◌∙◌, true, false, arith}
use aifstudio.Runner.SaveLock.{
  SaveLock, new, trigger_async, finish_first, resume, finish_again, Step, trigger, first_done, more,
  again_done, Reach, here, next,
}

-- What holds of the lock between two critical sections.
pub record Inv (l : SaveLock) : Type 0 where
  pub one_first : l.first ≤ 1
  pub busy : l.in_flight ≡ false → l.first ≡ 0
  pub wanted : l.pending ≡ true → l.in_flight ≡ true

new-Inv : Inv new
unfolding new
new-Inv = ground arith

Step-Inv : {l m : SaveLock} → Step l m → Inv l → Inv m
unfolding trigger_async finish_first resume finish_again
Step-Inv (trigger l) h = ground arith
Step-Inv (first_done l p) h = ground arith
Step-Inv (more l p) h = ground arith
Step-Inv (again_done l p) h = ground arith

pub Reach-Inv : {l m : SaveLock} → Inv l → Reach l m → Inv m
Reach-Inv h here = h
Reach-Inv h (next r s) = Step-Inv s (Reach-Inv h r)

-- In every state that triggers and returning saves lead to, at most one goroutine that still has
-- its cleanup to run is saving; none is while `in_flight` is false; and `pending` is set only while
-- `in_flight` is.
pub reachable_inv :
    (l : SaveLock)
    → Reach new l
    → (l.first ≤ 1) × (l.in_flight ≡ false → l.first ≡ 0) × (l.pending ≡ true → l.in_flight ≡ true)
reachable_inv l r = let i = Reach-Inv new-Inv r in (i.one_first, i.busy, i.wanted)

-- `in_flight` is set and no goroutine is left that would clear it.
abbrev pub IsWedged : SaveLock → Type 0
IsWedged l = (l.in_flight ≡ true) × (l.first ≡ 0) × (l.resuming ≡ 0)

Step-IsWedged : {l m : SaveLock} → Step l m → IsWedged l → IsWedged m × (m.started ≡ l.started)
unfolding trigger_async finish_first resume finish_again
Step-IsWedged (trigger l) h = ground arith
Step-IsWedged (first_done l p) h = ground arith
Step-IsWedged (more l p) h = ground arith
Step-IsWedged (again_done l p) h = ground arith

-- From a wedged lock no sequence of steps leads out, and no save is started any more, however many
-- triggers come.
pub IsWedged-Reach :
    {l m : SaveLock} → IsWedged l → Reach l m → IsWedged m × (m.started ≡ l.started)
IsWedged-Reach h here = (h, refl)
IsWedged-Reach h (next r s) =
    let (w, e) = IsWedged-Reach h r in let (w', e') = Step-IsWedged s w in (w', ground arith)

abbrev pub triggers : ℕ → SaveLock → SaveLock
triggers zero l = l
triggers (suc n) l = triggers n (trigger_async l)

triggers_pending : (n : ℕ) (l : SaveLock) → l.in_flight ≡ true → l.pending ≡ true → triggers n l ≡ l
unfolding trigger_async
triggers_pending zero l f p = refl
triggers_pending (suc n) l f p =
    triggers_pending n (trigger_async l) (ground arith) (ground arith) ∙ ground arith

-- A save during which one or more further triggers arrive, run to its end with nothing in between,
-- leaves the lock wedged: the coalesced save is the last one that the session ever starts.
pub coalescing_wedges :
    (n : ℕ)
    → let l = resume (finish_first (triggers (suc n) (trigger_async new))) in
      IsWedged l × (l.started ≡ 2)
unfolding trigger_async finish_first resume new
coalescing_wedges n =
    rw (triggers_pending n (trigger_async (trigger_async new)) refl refl) (ground arith)

-- A trigger whose save returns before the next trigger.
abbrev pub isolated : ℕ → SaveLock → SaveLock
isolated zero l = l
isolated (suc n) l = isolated n (finish_first (trigger_async l))

abbrev pub IsIdle : SaveLock → Type 0
IsIdle l = (l.in_flight ≡ false) × (l.pending ≡ false) × (l.first ≡ 0) × (l.resuming ≡ 0)

isolated_round :
    (l : SaveLock)
    → IsIdle l
    → IsIdle (finish_first (trigger_async l))
      × ((finish_first (trigger_async l)).started ≡ l.started + 1)
unfolding trigger_async finish_first
isolated_round l h = ground arith

-- Triggers that never overlap a save each start one save, and leave the lock idle.
pub isolated_saves :
    (n : ℕ) (l : SaveLock)
    → IsIdle l
    → IsIdle (isolated n l) × ((isolated n l).started ≡ l.started + n)
isolated_saves zero l h = (h, omega arith)
isolated_saves (suc n) l h =
    let (i, e) = isolated_round l h in
    let (j, e') = isolated_saves n (finish_first (trigger_async l)) i in (j, omega arith)
