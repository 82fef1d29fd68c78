-- ===== src/Build/Slots/Exclusive.antt =====
-- build.Manager (service/internal/build/manager.go): one active build per project.
use aifstudio.Prelude.{
  ◌≡◌, refl, ◌∙◌, inl, inr, String, List, [], ◌∷◌, none, some, arith, str_eq, str_eq_iff,
  str_eq_refl, if◌then◌else◌, In, here, there, Option-cases,
}
use aifstudio.Dict.{lookup, delete, lookup-insert, lookup-delete}
use aifstudio.Build.Slots.{
  Manager, new_manager, claim, active_build_id, remove_owner, clear_active, start, release, Reach,
  fresh, next,
}

-- The owner of a project is found first, and no later one stands behind it.
abbrev Distinct : List (String × String) → Type 0
Distinct [] = Unit
Distinct ((p, b) ∷ os) = (lookup p os ≡ none) × Distinct os

record Inv (m : Manager) : Type 0 where
  agrees : (p : String) → lookup p m.active_builds ≡ lookup p m.owners
  distinct : Distinct m.owners

lookup-In :
    (p b : String) (os : List (String × String)) → Distinct os → In (p, b) os → lookup p os ≡ some b
unfolding lookup
lookup-In p b [] d i = elim i [ ]
lookup-In p b ((q, c) ∷ os) d here = rw (str_eq_refl p)
lookup-In p b ((q, c) ∷ os) d (there i) = ground (arith, lookup-In p b os d.1 i, str_eq_iff q p)

lookup-remove_owner :
    (p b j : String) (os : List (String × String))
    → Distinct os
    → lookup p os ≡ some b
    → lookup j (remove_owner p b os) ≡ (if str_eq p j then none else lookup j os)
unfolding lookup remove_owner
lookup-remove_owner p b j [] d e = cc
lookup-remove_owner p b j ((q, c) ∷ os) d e = ground (
  arith,
  lookup-remove_owner p b j os d.1,
  str_eq_iff q p,
  str_eq_iff c b,
  str_eq_iff p j,
  str_eq_iff q j,
)

Distinct-remove_owner :
    (p b : String) (os : List (String × String))
    → Distinct os
    → lookup p os ≡ some b
    → Distinct (remove_owner p b os)
unfolding lookup remove_owner
Distinct-remove_owner p b [] d e = tt
Distinct-remove_owner p b ((q, c) ∷ os) d e = ground (
  arith,
  Distinct-remove_owner p b os d.1,
  lookup-remove_owner p b q os d.1,
  str_eq_iff q p,
  str_eq_iff c b,
  str_eq_iff p q,
)

new-Inv : Inv new_manager
unfolding new_manager lookup
new-Inv = record { agrees = λ p. refl; distinct = tt }

lookup-cons :
    (j p b : String) (os : List (String × String))
    → lookup j ((p, b) ∷ os) ≡ (if str_eq p j then some b else lookup j os)
unfolding lookup
lookup-cons j p b os = refl

claim-Inv : (p b : String) (m : Manager) → Inv m → Inv (claim p b m).0
unfolding claim
claim-Inv p b m i = elim (Option-cases (lookup p m.active_builds)) [
  | inr (c, taken) ↦ rw (taken, claim) i
  | inl free ↦
      rw (free, claim)
        (record {
          agrees = λ j.
              ground (
                arith,
                lookup-insert p j b m.active_builds,
                i.agrees j,
                lookup-cons j p b m.owners,
              );
          distinct = (ground (arith, i.agrees p), i.distinct);
        })
]

clear_active-Inv :
    (p b : String) (m : Manager) → In (p, b) m.owners → Inv m → Inv (clear_active p b m)
unfolding clear_active
clear_active-Inv p b m o i =
    let held = lookup-In p b m.owners i.distinct o in
    record {
      agrees = λ j. ground (
        arith,
        lookup-delete p j m.active_builds,
        lookup-remove_owner p b j m.owners i.distinct held,
        i.agrees j,
      );
      distinct = Distinct-remove_owner p b m.owners i.distinct held;
    }

Reach-Inv : {m : Manager} → Reach m → Inv m
Reach-Inv fresh = new-Inv
Reach-Inv (next r (start p b m)) = claim-Inv p b m (Reach-Inv r)
Reach-Inv (next r (release p b m o)) = clear_active-Inv p b m o (Reach-Inv r)

-- However calls of StartBuild and ends of builds interleave, ActiveBuildID of a project is the build
-- of each goroutine that owns the project's slot; so two owners of one project own it for the same
-- build.
pub one_active_build :
    {m : Manager}
    → Reach m
    → (p b : String) → In (p, b) m.owners
    → (active_build_id p m ≡ some b) × ((c : String) → In (p, c) m.owners → b ≡ c)
unfolding active_build_id
one_active_build {m} r p b o =
    let i = Reach-Inv r in
    let held = lookup-In p b m.owners i.distinct o in
    (i.agrees p ∙ held, λ c o'. cc (held, lookup-In p c m.owners i.distinct o'))

-- StartBuild answers the conflict with the id of a build that another goroutine still owns, and
-- claims the slot otherwise; a conflict changes nothing.
pub claim_conflict :
    {m : Manager}
    → Reach m
    → (p b : String) {c : String} → (claim p b m).1 ≡ some c
    → ((claim p b m).0 ≡ m) × (lookup p m.owners ≡ some c)
unfolding claim
claim_conflict {m} r p b e = ground (arith, (Reach-Inv r).agrees p)

-- Once the owner of a slot has cleared it, the project has no active build and the next StartBuild
-- gets the slot.
pub cleared_slot_free :
    (p b c : String) (m : Manager)
    → (active_build_id p (clear_active p b m) ≡ none)
      × ((claim p c (clear_active p b m)).1 ≡ none)
      × (active_build_id p (claim p c (clear_active p b m)).0 ≡ some c)
unfolding active_build_id claim clear_active
cleared_slot_free p b c m = ground (
  arith,
  lookup-delete p p m.active_builds,
  lookup-insert p p c (delete p m.active_builds),
  str_eq_refl p,
)
