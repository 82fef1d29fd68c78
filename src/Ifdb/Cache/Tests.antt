-- ===== src/Ifdb/Cache/Tests.antt =====
-- Reads and writes of a small cache (service/internal/ifdb/cache.go).
use aifstudio.Prelude.{◌≡◌, refl, [], ◌∷◌, none, some}
use aifstudio.Dict.{lookup, insert, delete}
use aifstudio.Ifdb.Cache.{Cache, new_mem_cache, get, set}

-- Two entries, of which the first expires at time 10.
abbrev two : Cache
two = set "b" (7 ∷ []) 20 (set "a" (1 ∷ 2 ∷ []) 10 new_mem_cache)

read_before : (get 9 "a" two).1 ≡ some (1 ∷ 2 ∷ [])
unfolding get set new_mem_cache lookup insert
read_before = refl

read_at_expiry : get 10 "a" two ≡ (set "b" (7 ∷ []) 20 new_mem_cache, none)
unfolding get set new_mem_cache lookup insert delete
read_at_expiry = refl
