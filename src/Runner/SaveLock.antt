-- ===== src/Runner/SaveLock.antt =====
-- saveLock.triggerAsync of service/internal/runner/save.go as a transition system: the lock's two
-- flags with the goroutines that the calls have left running.
pub mod Wedge
pub mod Overlap
mod Tests
use aifstudio.Prelude.{ℕ, ◌+◌, ◌-◌, ◌<◌, Bool, true, false, if◌then◌else◌}

-- `first` counts goroutines of line 46 before their second critical section, `resuming` those
-- between the critical sections of lines 48-52 and 54-56 with `more` true, and `again` the ones of
-- line 57. `started` counts the calls of `runSave` begun so far.
pub record SaveLock : Type 0 where
  pub in_flight : Bool
  pub pending : Bool
  pub first : ℕ
  pub resuming : ℕ
  pub again : ℕ
  pub started : ℕ

unfoldable pub new : SaveLock
new = record { in_flight = false; pending = false; first = 0; resuming = 0; again = 0; started = 0 }

-- A call of triggerAsync, which holds the mutex throughout.
pub trigger_async : SaveLock → SaveLock
trigger_async l =
    if l.in_flight
    then record l { pending = true }
    else record l { in_flight = true; first = l.first + 1; started = l.started + 1 }

-- `runSave` returns in a goroutine of line 46, and its cleanup runs.
pub finish_first : SaveLock → SaveLock
finish_first l = record l {
  in_flight = false;
  pending = false;
  first = l.first - 1;
  resuming = if l.pending then l.resuming + 1 else l.resuming;
}

-- The section of lines 54-56 and the `go` statement of line 57.
pub resume : SaveLock → SaveLock
resume l = record l {
  in_flight = true;
  resuming = l.resuming - 1;
  again = l.again + 1;
  started = l.started + 1;
}

-- `runSave` returns in a goroutine of line 57, which does nothing more.
pub finish_again : SaveLock → SaveLock
finish_again l = record l { again = l.again - 1 }

pub data Step : SaveLock → SaveLock → Type 0 where
  trigger : (l : SaveLock) → Step l (trigger_async l)
  first_done : (l : SaveLock) → 0 < l.first → Step l (finish_first l)
  more : (l : SaveLock) → 0 < l.resuming → Step l (resume l)
  again_done : (l : SaveLock) → 0 < l.again → Step l (finish_again l)

pub data Reach (l : SaveLock) : SaveLock → Type 0 where
  here : Reach l l
  next : {m n : SaveLock} → Reach l m → Step m n → Reach l n
