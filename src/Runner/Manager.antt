-- ===== src/Runner/Manager.antt =====
-- service/internal/runner/manager.go: the map of active sessions and its sweeps. A session object is a
-- number, and two pointers are equal if their numbers are. An operation that holds the mutex is one
-- function; sweepIdle lets go of it between its evictions, so that other calls come in between.
pub mod Sweeps
mod Tests
use aifstudio.Prelude.{
  ℕ, String, Bool, true, false, ◌&&◌, List, [], ◌∷◌, Option, none, some, ltb, ◌==◌, str_eq,
  if◌then◌else◌,
}
use aifstudio.Dict.{lookup, insert, delete}

pub record Session : Type 0 where
  pub id : String
  pub object : ℕ

-- The field `sessions`.
abbrev pub Sessions : Type 0
Sessions = List (String × Session)

-- What the sweeps read of a session object: whether its `done` channel is closed, IsAlive, and
-- IdleFor.
pub record Observed : Type 0 where
  pub done : ℕ → Bool
  pub is_alive : ℕ → Bool
  pub idle_for : ℕ → ℕ

-- CreateSession, with the new session.
unfoldable pub create_session : Session → Sessions → Sessions
create_session s m = insert s.id s m

-- GetSession
unfoldable pub get_session : String → Sessions → Option Session
get_session run_id m = lookup run_id m

-- RemoveSession
unfoldable pub remove_session : String → Sessions → Sessions
remove_session run_id m = delete run_id m

-- The removal of a session under a key, if it is still the one there.
pub delete_if_same : String → Session → Sessions → Sessions
delete_if_same key s m = elim (lookup key m) [
  | none ↦ m
  | some t ↦ if t.object == s.object then delete key m else m
]

-- The loop of sweepFinished over the entries.
pub sweep_entries : Observed → Sessions → Sessions → Sessions
sweep_entries o [] m = m
sweep_entries o ((key, s) ∷ es) m =
    sweep_entries o es (if o.done s.object then delete_if_same key s m else m)

-- sweepFinished
pub sweep_finished : Observed → Sessions → Sessions
sweep_finished o m = sweep_entries o m m

-- The sessions that sweepIdle collects.
pub idle_sessions : Observed → ℕ → Sessions → List Session
idle_sessions o timeout [] = []
idle_sessions o timeout ((key, s) ∷ es) =
    let rest = idle_sessions o timeout es in
    if o.is_alive s.object && ltb timeout (o.idle_for s.object) then s ∷ rest else rest

-- The last part of a round of sweepIdle, after the session was suspended.
pub evict : Session → Sessions → Sessions
evict s m = delete_if_same s.id s m

-- A course of sweepIdle with the sessions still to evict, in which other calls register sessions that
-- are `New` and remove some. The last list holds the run ids of those calls.
pub data Course (New : Session → Type 0)
    : List Session → Sessions → Sessions → List String → Type 0 where
  finished : {m : Sessions} → Course New [] m m []
  evicts :
      {s : Session} {idle : List Session} {m m' : Sessions} {ids : List String}
      → Course New idle (evict s m) m' ids
      → Course New (s ∷ idle) m m' ids
  creates :
      {s : Session} {idle : List Session} {m m' : Sessions} {ids : List String}
      → New s
      → Course New idle (create_session s m) m' ids
      → Course New idle m m' (s.id ∷ ids)
  removes :
      {id : String} {idle : List Session} {m m' : Sessions} {ids : List String}
      → Course New idle (remove_session id m) m' ids
      → Course New idle m m' (id ∷ ids)
