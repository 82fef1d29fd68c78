-- ===== src/Runner/SaveLock/Tests.antt =====
-- Runs of triggerAsync (service/internal/runner/save.go).
use aifstudio.Prelude.{◌+◌, ◌≤◌, ◌≡◌, refl, true, false}
use aifstudio.Runner.SaveLock.{
  SaveLock, new, trigger_async, finish_first, resume, trigger, Reach, here, next,
}
use aifstudio.Runner.SaveLock.Wedge.{
  IsWedged, triggers, reachable_inv, IsWedged-Reach, coalescing_wedges,
}
use aifstudio.Runner.SaveLock.Overlap.{saves_overlap}

one_save : finish_first (trigger_async new) ≡ record new { started = 1 }
unfolding new trigger_async finish_first
one_save = refl

reachable_inv_example :
    let l = trigger_async new in
    (l.first ≤ 1) × (l.in_flight ≡ false → l.first ≡ 0) × (l.pending ≡ true → l.in_flight ≡ true)
reachable_inv_example = reachable_inv (trigger_async new) (next here (trigger new))

abbrev stuck : SaveLock
stuck = record {
  in_flight = true;
  pending = false;
  first = 0;
  resuming = 0;
  again = 0;
  started = 2;
}

IsWedged-Reach_example :
    IsWedged (trigger_async stuck) × ((trigger_async stuck).started ≡ stuck.started)
IsWedged-Reach_example = IsWedged-Reach (refl, refl, refl) (next here (trigger stuck))

coalescing_wedges_example :
    let l = resume (finish_first (triggers 3 (trigger_async new))) in IsWedged l × (l.started ≡ 2)
coalescing_wedges_example = coalescing_wedges 2

saves_overlap_example : (l : SaveLock) × Reach new l × (l.first + l.again ≡ 3)
saves_overlap_example = saves_overlap 2
