-- ===== src/Ifdb/Cache/View.antt =====
-- memCache (service/internal/ifdb/cache.go) against the map of what is fresh at a time.
use aifstudio.Prelude.{
  ℕ, ◌≤◌, String, ◌≡◌, false, Option, none, some, arith, ltb, str_eq, str_eq_iff, if◌then◌else◌,
  Option-cases, inl, inr, Bool-cases,
}
use aifstudio.Dict.{lookup, delete, lookup-insert, lookup-delete}
use aifstudio.Ifdb.Cache.{Bytes, Entry, Cache, get, set, seed}

-- What a reader may see at time `t`, of an entry and of a cache.
abbrev fresh : ℕ → Option Entry → Option Bytes
fresh t none = none
fresh t (some e) = if ltb t e.expires_at then some e.payload else none

pub view : ℕ → String → Cache → Option Bytes
view t tuid c = fresh t (lookup tuid c)

view-set :
    (t : ℕ) (k j : String) (d : Bytes) (expires : ℕ) (c : Cache)
    → view t j (set k d expires c)
      ≡ (if str_eq k j then (if ltb t expires then some d else none) else view t j c)
unfolding view set
view-set t k j d expires c = elim (Bool-cases (str_eq k j)) [
  | inl e ↦ rw (lookup-insert, e)
  | inr n ↦ rw (lookup-insert, n)
]

get-view : (now : ℕ) (k : String) (c : Cache) → (get now k c).1 ≡ view now k c
unfolding view get
get-view now k c = elim (Option-cases (lookup k c)) [
  | inl e ↦ rw (e, get)
  | inr (x, e) ↦ elim (Bool-cases (ltb now x.expires_at)) [
    | inl l ↦ rw (e, l, get)
    | inr l ↦ rw (e, l, get)
  ]
]

expired_later :
    (now t : ℕ) (e : Entry) → ltb now e.expires_at ≡ false → now ≤ t → fresh t (some e) ≡ none
expired_later now t e l h = ground arith

view-delete :
    (now t : ℕ) (k j : String) (c : Cache) (e : Entry)
    → lookup k c ≡ some e
    → ltb now e.expires_at ≡ false
    → now ≤ t
    → view t j (delete k c) ≡ view t j c
unfolding view
view-delete now t k j c e f l h = elim (Bool-cases (str_eq k j)) [
  | inl same ↦
      let q : k ≡ j = (str_eq_iff k j).0 same in
      let g : lookup j c ≡ some e = rw (← q) f in
      rw (lookup-delete, same, g) (ground (arith, expired_later now t e l h))
  | inr other ↦ rw (lookup-delete, other)
]

view-get : (now t : ℕ) (k j : String) (c : Cache) → now ≤ t → view t j (get now k c).0 ≡ view t j c
unfolding get
view-get now t k j c h = elim (Option-cases (lookup k c)) [
  | inl e ↦ rw (e, get)
  | inr (x, e) ↦ elim (Bool-cases (ltb now x.expires_at)) [
    | inl l ↦ rw (e, l, get)
    | inr l ↦ rw (e, l, get) (view-delete now t k j c x e l h)
  ]
]

-- A read gives what is fresh at its time, where an entry that expires at that very time is not; and
-- its deletion of an expired entry changes nothing that any later read of any key gives.
pub get_fresh :
    (now : ℕ) (k : String) (c : Cache)
    → ((get now k c).1 ≡ view now k c)
      × ((t : ℕ) (j : String) → now ≤ t → (get t j (get now k c).0).1 ≡ (get t j c).1)
get_fresh now k c = (
  get-view now k c,
  λ t j h. rw (get-view t j (get now k c).0, get-view t j c) (view-get now t k j c h),
)

-- A write is read back until it expires and not after, and changes no other key's reads.
pub get-set :
    (t : ℕ) (k j : String) (d : Bytes) (expires : ℕ) (c : Cache)
    → (get t j (set k d expires c)).1
      ≡ (if str_eq k j then (if ltb t expires then some d else none) else (get t j c).1)
get-set t k j d expires c =
    rw (get-view t j (set k d expires c), get-view t j c) (view-set t k j d expires c)

-- Seeding with an entry that is fresh is a write of it; with an expired one it changes nothing.
pub get-seed :
    (now t : ℕ) (k j : String) (d : Bytes) (expires : ℕ) (c : Cache)
    → (get t j (seed now k d expires c)).1
      ≡ (if ltb now expires then (get t j (set k d expires c)).1 else (get t j c).1)
unfolding seed
get-seed now t k j d expires c = elim (Bool-cases (ltb now expires)) [ inl e ↦ rw e | inr n ↦ rw n ]
