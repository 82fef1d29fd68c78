-- ===== src/Server/Http/Stops.antt =====
-- Handlers that a check stops (service/internal/server).
use aifstudio.Prelude.{ℕ, String, ◌≡◌, refl, Bool, false, some, str_eq, Bool-cases, inl, inr}
use aifstudio.Auth.Tables.{User}
use aifstudio.Store.Table.{find_row}
use aifstudio.Store.Rows.{Project, Db, scan_project}
use aifstudio.Store.Projects.{project_key, get_project}
use aifstudio.Store.Projects
use aifstudio.Server.Http.{
  Reply, refused, Check, stop, pass, checked, reply_to, and_then, signed_in, require, is_id,
  Answers, own_project, open_project,
}

abbrev pub Stops : {A : Type 0} → Check A → Type 0
Stops c = (status : ℕ) × (code : String) × (c ≡ stop status code)

-- The handler answers an error and leaves its state as it was.
abbrev pub Kept : {S B : Type 0} → S → S × Reply B → Type 0
Kept s r = (status : ℕ) × (code : String) × (r ≡ (s, refused status code))

abbrev pub Refused : {B : Type 0} → Reply B → Type 0
Refused r = (status : ℕ) × (code : String) × (r ≡ refused status code)

module _ {A : Type 0} where
  pub and_then-Stops :
      {B : Type 0} (c : Check A) (rest : A → Check B)
      → ((a : A) → Stops (rest a))
      → Stops (and_then c rest)
  unfolding and_then
  and_then-Stops (stop status code) rest h = (status, code, refl)
  and_then-Stops (pass a) rest h = h a

  pub and_then-Stops_first :
      {B : Type 0} (c : Check A) (rest : A → Check B) → Stops c → Stops (and_then c rest)
  unfolding and_then
  and_then-Stops_first c rest (status, code, e) = (status, code, rw e refl)

  pub checked-Kept :
      {B S : Type 0} (c : Check A) (s : S) (rest : A → S × Reply B)
      → Stops c
      → Kept s (checked c s rest)
  unfolding checked
  checked-Kept c s rest (status, code, e) = (status, code, rw e refl)

  pub reply_to-Refused :
      {B : Type 0} (c : Check A) (rest : A → Reply B) → Stops c → Refused (reply_to c rest)
  unfolding reply_to
  reply_to-Refused c rest (status, code, e) = (status, code, rw e refl)

-- A project that another user owns.
pub own_project-Stops :
    (a : Answers) (uid id : String) (db : Db) (p : Project)
    → find_row project_key id db.projects ≡ some p
    → str_eq p.owner_uid uid ≡ false
    → Stops (own_project a uid id db)
unfolding own_project get_project Projects.scanned scan_project
own_project-Stops a uid id db p e n = elim (Bool-cases a.get_project) [
  | inr n1 ↦ (500, "internal", rw (own_project, n1) refl)
  | inl y ↦ (403, "forbidden", rw (own_project, y, e, n) refl)
]

pub open_project-Stops :
    (a : Answers) (has_store : Bool) (u : User) (id : String) (db : Db) (p : Project)
    → find_row project_key id db.projects ≡ some p
    → str_eq p.owner_uid u.uid ≡ false
    → Stops (open_project a has_store (some u) id db)
unfolding open_project signed_in and_then
open_project-Stops a has_store u id db p e n =
    and_then-Stops (require (is_id b'p' id) 400 "invalid_id") _ (λ _.
      and_then-Stops (require has_store 404 "not_found") _ (λ _.
        and_then-Stops_first (own_project a u.uid id db) _ (own_project-Stops a u.uid id db p e n)))
