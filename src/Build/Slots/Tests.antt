-- ===== src/Build/Slots/Tests.antt =====
-- Slots of two projects (service/internal/build/manager.go).
use aifstudio.Prelude.{String, ◌≡◌, refl, [], ◌∷◌, some, In, here}
use aifstudio.Dict.{lookup, insert}
use aifstudio.Build.Slots.{Manager, new_manager, claim, active_build_id, start, Reach, fresh, next}
use aifstudio.Build.Slots.Exclusive.{one_active_build}

abbrev building : Manager
building = record { active_builds = ("p-1", "b-1") ∷ []; owners = ("p-1", "b-1") ∷ [] }

claimed : (claim "p-1" "b-1" new_manager).0 ≡ building
unfolding claim new_manager lookup insert
claimed = refl

building-Reach : Reach building
building-Reach = rw (← claimed) (next fresh (start "p-1" "b-1" new_manager))

one_active_build_example :
    (active_build_id "p-1" building ≡ some "b-1")
    × ((c : String) → In ("p-1", c) building.owners → ◌≡◌ {A = String} "b-1" c)
one_active_build_example = one_active_build building-Reach "p-1" "b-1" here

refused : (claim "p-1" "b-2" building).1 ≡ some "b-1"
unfolding claim lookup
refused = refl
