-- ===== src/Runner/Manager/Tests.antt =====
-- A sweep of two sessions (service/internal/runner/manager.go).
use aifstudio.Prelude.{◌≡◌, ◌≢◌, refl, [], ◌∷◌, some, All, ◌==◌, str_eq_iff, arith}
use aifstudio.Dict.{lookup, insert, delete}
use aifstudio.Runner.Manager.{
  Session, Sessions, Observed, create_session, get_session, delete_if_same, sweep_entries,
  sweep_finished, idle_sessions, evict, Course, finished, evicts, creates,
}
use aifstudio.Runner.Manager.Sweeps.{Gone, IsNew, sweep_idle_evicts}

abbrev old : Session
old = record { id = "r-1"; object = 1 }

abbrev busy : Session
busy = record { id = "r-2"; object = 2 }

-- The run of the first session, started again.
abbrev restarted : Session
restarted = record { id = "r-1"; object = 3 }

-- The first session is idle for an hour, and the second one has ended.
abbrev observed : Observed
observed = record { done = λ s. s == 2; is_alive = λ s. s == 1; idle_for = λ s. 3600 }

abbrev both : Sessions
both = create_session busy (create_session old [])

idle_run : idle_sessions observed 1800 both ≡ old ∷ []
unfolding idle_sessions create_session insert
idle_run = refl

sweep_run : sweep_finished observed both ≡ create_session old []
unfolding sweep_finished sweep_entries delete_if_same create_session insert lookup delete
sweep_run = refl

-- The run is started again before the eviction, which then leaves the new session.
abbrev after : Sessions
after = evict old (create_session restarted both)

restarted_kept : get_session "r-1" after ≡ some restarted
unfolding get_session evict delete_if_same create_session insert lookup
restarted_kept = refl

course : Course (IsNew (old ∷ [])) (old ∷ []) both after ("r-1" ∷ [])
course = creates {s = restarted} (λ q. omega (arith, q), tt) (evicts finished)

sweep_idle_evicts_example : All (λ s. Gone s after) (old ∷ [])
sweep_idle_evicts_example = sweep_idle_evicts (old ∷ []) both course

busy_found : get_session "r-2" both ≡ some busy
unfolding get_session create_session insert lookup
busy_found = refl

idle-Course : Course (λ s. Unit) (idle_sessions observed 1800 both) both after ("r-1" ∷ [])
unfolding idle_sessions create_session insert
idle-Course = creates {s = restarted} tt (evicts finished)

other_run : "r-1" ≢ busy.id
other_run = λ q. cc ((str_eq_iff "r-1" busy.id).1 q)
