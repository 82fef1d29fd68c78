-- ===== src/Server/Http.antt =====
-- What the handlers of service/internal/server share: replies, ids, and the checks at their start. A
-- reply is writeError's status and code, its message left out, or a status with what the handler
-- writes. The body of a request is what the JSON decoder gives, `none` for an error.
pub mod Stops
pub mod Owned
pub mod Passed
use aifstudio.Prelude.{
  ℕ, ◌+◌, String, Bool, true, false, not, ◌&&◌, ◌||◌, List, [], ◌∷◌, Option, none, some, ltb, leb,
  ◌==◌, str_eq, length, any, if◌then◌else◌,
}
use aifstudio.Text.{Text, text}
use aifstudio.Auth.Tables.{User, Result, ok, err}
use aifstudio.Store.Rows.{Project, Run, Build, Db}
use aifstudio.Store.Projects.{get_project}

pub data Reply (B : Type 0) : Type 0 where
  refused : ℕ → String → Reply B
  replied : ℕ → B → Reply B

-- A check at the start of a handler: an error, or what it has found.
pub data Check (A : Type 0) : Type 0 where
  stop : ℕ → String → Check A
  pass : A → Check A

-- The rest of a handler behind a check.
unfoldable pub checked : {A B S : Type 0} → Check A → S → (A → S × Reply B) → S × Reply B
checked (stop status code) s rest = (s, refused status code)
checked (pass a) s rest = rest a

unfoldable pub reply_to : {A B : Type 0} → Check A → (A → Reply B) → Reply B
reply_to (stop status code) rest = refused status code
reply_to (pass a) rest = rest a

unfoldable pub and_then : {A B : Type 0} → Check A → (A → Check B) → Check B
and_then (stop status code) rest = stop status code
and_then (pass a) rest = rest a

-- auth.UserFromContext
unfoldable pub signed_in : Option User → Check User
signed_in none = stop 401 "auth_required"
signed_in (some u) = pass u

abbrev pub require : Bool → ℕ → String → Check Unit
require false status code = stop status code
require true status code = pass tt

-- ^x-[0-9A-Z]{26}$ for a letter `x`: projectIDRE, buildIDRE, runIDRE and turnIDRE
unfoldable pub is_upper_or_digit : ℕ → Bool
is_upper_or_digit c = (leb b'0' c && leb c b'9') || (leb b'A' c && leb c b'Z')

unfoldable pub is_tail : Text → Bool
is_tail s = length s == 26 && not (any (λ c. not (is_upper_or_digit c)) s)

unfoldable pub is_id_text : ℕ → Text → Bool
is_id_text letter [] = false
is_id_text letter (c ∷ []) = false
is_id_text letter (c ∷ d ∷ s) = c == letter && d == b'-' && is_tail s

unfoldable pub is_id : ℕ → String → Bool
is_id letter id = is_id_text letter (text id)

-- What the store answers to each of its calls.
pub record Answers : Type 0 where
  pub get_project : Bool
  pub create_project : Bool
  pub update_meta : Bool
  pub publish : Bool
  pub delete_project : Bool
  pub list_projects : Bool
  pub put_source : Bool
  pub get_source : Bool
  pub source_size : Bool
  pub delete_source : Bool
  pub get_build : Bool
  pub create_build : Bool
  pub list_builds : Bool
  pub delete_builds : Bool
  pub get_run : Bool
  pub create_run : Bool
  pub update_run : Bool
  pub delete_run : Bool
  pub list_runs : Bool
  pub delete_runs : Bool
  pub list_turns : Bool
  pub create_turn : Bool
  pub update_ai : Bool
  pub turn_source : Bool
  pub delete_turns : Bool

-- The project of a request and the check of its owner.
unfoldable pub own_project : Answers → String → String → Db → Check Project
own_project a uid id db = elim (get_project a.get_project id db) [
  | err _ ↦ stop 500 "internal"
  | ok found ↦ elim found [
    | none ↦ stop 404 "not_found"
    | some p ↦ if str_eq p.owner_uid uid then pass p else stop 403 "forbidden"
  ]
]

-- The start of a handler of a project without a body: user, id, store, project, owner. `has_store` says
-- that the server has a store.
unfoldable pub open_project : Answers → Bool → Option User → String → Db → Check (User × Project)
open_project a has_store user id db = and_then (signed_in user) (λ u.
    and_then (require (is_id b'p' id) 400 "invalid_id") (λ _.
      and_then (require has_store 404 "not_found")
        (λ _. and_then (own_project a u.uid id db) (λ p. pass (u, p)))))
