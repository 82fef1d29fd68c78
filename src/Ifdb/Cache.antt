-- ===== src/Ifdb/Cache.antt =====
-- memCache (service/internal/ifdb/cache.go): an in-memory cache whose entries expire. `now` is what
-- time.Now gives to the call; an operation holds the mutex throughout.
pub mod View
mod Tests
use aifstudio.Prelude.{ℕ, String, List, [], Option, none, some, ltb, if◌then◌else◌}
use aifstudio.Dict.{lookup, insert, delete}

abbrev pub Bytes : Type 0
Bytes = List ℕ

pub record Entry : Type 0 where
  pub payload : Bytes
  pub expires_at : ℕ

-- The map of entries.
abbrev pub Cache : Type 0
Cache = List (String × Entry)

pub new_mem_cache : Cache
new_mem_cache = []

-- get: an expired entry is deleted.
pub get : ℕ → String → Cache → Cache × Option Bytes
get now tuid c = elim (lookup tuid c) [
  | none ↦ (c, none)
  | some e ↦ if ltb now e.expires_at then (c, some e.payload) else (delete tuid c, none)
]

pub set : String → Bytes → ℕ → Cache → Cache
set tuid d expires c = insert tuid (record { payload = d; expires_at = expires }) c

-- seed
pub seed : ℕ → String → Bytes → ℕ → Cache → Cache
seed now tuid d expires c = if ltb now expires then set tuid d expires c else c
