-- ===== src/Build/Slots.antt =====
-- build.Manager (service/internal/build/manager.go): the map of active builds and the goroutines that
-- own its entries. An owner is a call of StartBuild after its critical section, or the goroutine of
-- runBuild that the call left.
pub mod Exclusive
mod Tests
use aifstudio.Prelude.{
  ◌≡◌, String, Bool, true, false, ◌&&◌, List, [], ◌∷◌, Option, none, some, str_eq, if◌then◌else◌,
  In,
}
use aifstudio.Dict.{lookup, insert, delete}

pub record Manager : Type 0 where
  pub active_builds : List (String × String)
  pub owners : List (String × String)

pub new_manager : Manager
new_manager = record { active_builds = []; owners = [] }

-- The first critical section of StartBuild: the id of a build in the way, or the slot.
unfoldable pub claim : String → String → Manager → Manager × Option String
claim project build m = elim (lookup project m.active_builds) [
  | some existing ↦ (m, some existing)
  | none ↦ (
    record m {
      active_builds = insert project build m.active_builds;
      owners = (project, build) ∷ m.owners;
    },
    none,
  )
]

-- ActiveBuildID, with `none` for the empty id.
unfoldable pub active_build_id : String → Manager → Option String
active_build_id project m = lookup project m.active_builds

remove_owner : String → String → List (String × String) → List (String × String)
remove_owner p b [] = []
remove_owner p b ((q, c) ∷ os) =
    let rest = remove_owner p b os in if str_eq q p && str_eq c b then os else (q, c) ∷ rest

-- clearActive, by an owner that is done: StartBuild when the row could not be created, runBuild when
-- it returns.
pub clear_active : String → String → Manager → Manager
unfolding remove_owner
clear_active project build m = record m {
  active_builds = delete project m.active_builds;
  owners = remove_owner project build m.owners;
}

pub data Step : Manager → Manager → Type 0 where
  start : (p b : String) (m : Manager) → Step m (claim p b m).0
  release : (p b : String) (m : Manager) → In (p, b) m.owners → Step m (clear_active p b m)

pub data Reach : Manager → Type 0 where
  fresh : Reach new_manager
  next : {m n : Manager} → Reach m → Step m n → Reach n
