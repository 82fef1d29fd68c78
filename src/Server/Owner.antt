-- ===== src/Server/Owner.antt =====
-- Handlers that are called by somebody who does not own what they are about (service/internal/server).
use aifstudio.Prelude.{
  ℕ, String, ◌≡◌, refl, Bool, true, false, Option, some, [], ◌&&◌, is_some, str_eq, Bool-cases, inl,
  inr,
}
use aifstudio.Text.{Text}
use aifstudio.Auth.Tables.{User}
use aifstudio.Store.Table.{find_row}
use aifstudio.Store.Rows.{Run, Project, Build, Db, scan_run, scan_build, scan_project}
use aifstudio.Store.Runs.{run_key, get_run}
use aifstudio.Store.Runs
use aifstudio.Store.Projects.{project_key, get_project}
use aifstudio.Store.Projects
use aifstudio.Store.Records.{build_key, get_build}
use aifstudio.Store.Records
use aifstudio.Build.Slots.{Manager}
use aifstudio.Runner.Manager.{Session}
use aifstudio.Server.Http.{
  signed_in, require, is_id, and_then, checked, Answers, own_project, open_project,
}
use aifstudio.Server.Http.Stops.{
  Stops, Kept, Refused, and_then-Stops, and_then-Stops_first, checked-Kept, reply_to-Refused,
  own_project-Stops, open_project-Stops,
}
use aifstudio.Server.Projects.{
  PatchProjectRequest, decoded, small_source, open_for_source, found_own_project,
  handle_get_project, handle_patch_project, handle_patch_project_source, handle_put_project_source,
  handle_get_project_source,
}
use aifstudio.Server.Cascade.{BlobWorld, Storage, handle_delete_project}
use aifstudio.Server.Builds.{
  BuildState, own_build, open_build, handle_create_build, handle_get_build_artifact,
  handle_get_build_log,
}
use aifstudio.Server.Builds.Test.{TestWorld, open_test, handle_build_test}
use aifstudio.Server.Community.{open_publish, handle_toggle_publish}
use aifstudio.Server.Assistant.{AiConfig, AiWorld, open_generate, handle_ai_generate}
use aifstudio.Server.Assistant.Chat.{valid_message, open_chat, handle_ai_chat}
use aifstudio.Server.Runs.{
  RunState, find_run, own_run, open_run, handle_delete_run, handle_restart_run,
  handle_get_run_transcript,
}
use aifstudio.Server.Runs.Live.{
  Live, Started, Answered, Suspended, open_live, open_command, open_suspend, handle_run_start,
  handle_run_command, handle_run_suspend,
}

abbrev pub with_builder : Option Manager → Storage → BuildState
with_builder builder s = record { db = s.db; builder = builder; jobs = [] }

module _ (a : Answers) (u : User) (id : String) (db : Db) (p : Project)
    (found : find_row project_key id db.projects ≡ some p)
    (foreign : str_eq p.owner_uid u.uid ≡ false) where
  own-Stops : Stops (own_project a u.uid id db)
  own-Stops = own_project-Stops a u.uid id db p found foreign

  found_own_project-Stops : Stops (found_own_project a u.uid id db)
  unfolding found_own_project get_project Projects.scanned scan_project
  found_own_project-Stops = elim (Bool-cases a.get_project) [
    | inr n ↦ (404, "not_found", rw (found_own_project, n) refl)
    | inl y ↦ (403, "forbidden", rw (found_own_project, y, found, foreign) refl)
  ]

  open_for_source-Stops :
      (has_store : Bool) (body : Option Text)
      → Stops (open_for_source a has_store (some u) id body db)
  unfolding open_for_source signed_in and_then
  open_for_source-Stops has_store body =
      and_then-Stops (require (is_id b'p' id) 400 "invalid_id") _ (λ _.
        and_then-Stops (decoded body) _ (λ s. and_then-Stops (small_source s) _ (λ _.
          and_then-Stops (require has_store 404 "not_found") _
            (λ _. and_then-Stops_first (own_project a u.uid id db) _ own-Stops))))

  open_publish-Stops : (body : Option Bool) → Stops (open_publish a (some u) id body db)
  unfolding open_publish signed_in and_then
  open_publish-Stops body = and_then-Stops (require (is_id b'p' id) 400 "invalid_id") _ (λ _.
      and_then-Stops (decoded body) _
        (λ _. and_then-Stops_first (own_project a u.uid id db) _ own-Stops))

  open_generate-Stops :
      (cfg : AiConfig) (body : Option Text) → Stops (open_generate a cfg (some u) id body db)
  unfolding open_generate signed_in and_then
  open_generate-Stops cfg body = and_then-Stops (require (is_id b'p' id) 400 "invalid_id") _ (λ _.
      and_then-Stops (decoded body) _
        (λ _. and_then-Stops_first (own_project a u.uid id db) _ own-Stops))

  open_chat-Stops :
      (cfg : AiConfig) (body : Option Text) → Stops (open_chat a cfg (some u) id body db)
  unfolding open_chat signed_in and_then
  open_chat-Stops cfg body = and_then-Stops (require (is_id b'p' id) 400 "invalid_id") _ (λ _.
      and_then-Stops (decoded body) _ (λ sent.
        and_then-Stops (valid_message cfg _) _
          (λ _. and_then-Stops_first (own_project a u.uid id db) _ own-Stops)))

-- What a call brings besides its user and id: the bodies, the time, the id of a new row, and the
-- surroundings.
pub record Call : Type 0 where
  pub answers : Answers
  pub has_store : Bool
  pub blobs : BlobWorld
  pub patch : Option PatchProjectRequest
  pub body : Option Text
  pub publish : Option Bool
  pub now : ℕ
  pub new_id : String
  pub config : AiConfig
  pub model : AiWorld
  pub block : Text → Option (Text × Text)

-- For a project of another user, whatever the store answers, the handlers that change it (delete, patch
-- its name, patch or put its source, publish, create a build, both handlers of the assistant) answer an
-- error and leave everything as it was, and the ones that show it or its source answer an error.
pub foreign_project :
    (c : Call) (u : User) (id : String) (s : Storage) (builder : Option Manager) (p : Project)
    → find_row project_key id s.db.projects ≡ some p
    → str_eq p.owner_uid u.uid ≡ false
    → Kept s (handle_delete_project c.answers c.blobs c.has_store (some u) id s)
      × Kept s.db (handle_patch_project c.answers (some u) id c.patch c.now s.db)
      × Kept s.db (handle_patch_project_source c.answers c.has_store (some u) id c.body c.now s.db)
      × Kept s.db (handle_put_project_source c.answers c.has_store (some u) id c.body c.now s.db)
      × Kept s.db (handle_toggle_publish c.answers (some u) id c.publish c.now s.db)
      × Kept (with_builder builder s) (
          handle_create_build c.answers c.has_store
            (some u)
            id
            c.new_id
            c.now
            (with_builder builder s))
      × Kept s.db (handle_ai_generate c.block c.answers c.config c.model (some u) id c.body s.db)
      × Kept s.db (handle_ai_chat c.answers c.config c.model (some u) id c.body s.db)
      × Refused (handle_get_project c.answers c.has_store (some u) id s.db)
      × Refused (handle_get_project_source c.answers c.has_store (some u) id s.db)
unfolding handle_delete_project handle_patch_project handle_patch_project_source
    handle_put_project_source handle_toggle_publish handle_create_build handle_ai_generate
    handle_ai_chat handle_get_project handle_get_project_source signed_in checked
foreign_project c u id s builder p found foreign =
    let a = c.answers in
    let shut = open_project-Stops a c.has_store u id s.db p found foreign in
    let source = open_for_source-Stops a u id s.db p found foreign c.has_store c.body in
    (
      checked-Kept (open_project a c.has_store (some u) id s.db) s _ shut,
      checked-Kept (found_own_project a u.uid id s.db) s.db _
          (found_own_project-Stops a u id s.db p found foreign),
      checked-Kept (open_for_source a c.has_store (some u) id c.body s.db) s.db _ source,
      checked-Kept (open_for_source a c.has_store (some u) id c.body s.db) s.db _ source,
      checked-Kept (open_publish a (some u) id c.publish s.db) s.db _
          (open_publish-Stops a u id s.db p found foreign c.publish),
      checked-Kept (open_project a c.has_store (some u) id s.db) (with_builder builder s) _ shut,
      checked-Kept (open_generate a c.config (some u) id c.body s.db) s.db _
          (open_generate-Stops a u id s.db p found foreign c.config c.body),
      checked-Kept (open_chat a c.config (some u) id c.body s.db) s.db _
          (open_chat-Stops a u id s.db p found foreign c.config c.body),
      reply_to-Refused (open_project a c.has_store (some u) id s.db) _ shut,
      reply_to-Refused (open_project a c.has_store (some u) id s.db) _ shut,
    )

module _ (a : Answers) (u : User) (id : String) (db : Db) (r : Run)
    (found : find_row run_key id db.runs ≡ some r) (foreign : str_eq r.user_id u.uid ≡ false) where
  own_run-Stops : Stops (own_run a u.uid id db)
  unfolding own_run find_run get_run Runs.scanned scan_run and_then
  own_run-Stops = elim (Bool-cases a.get_run) [
    | inr n ↦ (500, "internal", rw (own_run, find_run, n) refl)
    | inl y ↦ (403, "forbidden", rw (own_run, find_run, y, found, foreign) refl)
  ]

  open_run-Stops : (has_store : Bool) → Stops (open_run a has_store (some u) id db)
  unfolding open_run signed_in and_then
  open_run-Stops has_store =
      and_then-Stops (require (is_id b'r' id) 400 "invalid_id") _
        (λ _. and_then-Stops (require has_store 404 "not_found") _ (λ _. own_run-Stops))

  open_live-Stops : (has_service : Bool) → Stops (open_live a has_service (some u) id db)
  unfolding open_live signed_in and_then
  open_live-Stops has_service =
      and_then-Stops (require (is_id b'r' id) 400 "invalid_id") _
        (λ _. and_then-Stops (require has_service 500 "internal") _ (λ _. own_run-Stops))

  open_suspend-Stops : Stops (open_suspend a (some u) id db)
  unfolding open_suspend signed_in and_then
  open_suspend-Stops =
      and_then-Stops (require (is_id b'r' id) 400 "invalid_id") _ (λ _. own_run-Stops)

-- For a run of another user, whatever the store and the sessions answer, the handlers that delete,
-- restart or start it answer an error and leave the storage and the sessions as they were, and the
-- handlers of a command, of suspending and of the transcript answer an error.
pub foreign_run :
    (c : Call) (l : Live) (outcome : Started) (command : Session → Text → Answered)
    (suspend : Session → Suspended) (u : User) (id : String) (s : RunState) (r : Run)
    → find_row run_key id s.storage.db.runs ≡ some r
    → str_eq r.user_id u.uid ≡ false
    → Kept s (handle_delete_run c.answers c.blobs c.has_store (some u) id s)
      × Kept s (handle_restart_run c.answers c.has_store (some u) id s)
      × Kept s (handle_run_start c.answers l outcome c.now c.has_store (some u) id s)
      × Refused (handle_run_command c.answers l command c.has_store (some u) id c.body s)
      × Refused (handle_run_suspend c.answers l suspend (some u) id s)
      × Refused (handle_get_run_transcript c.answers c.blobs true c.has_store (some u) id s.storage)
unfolding handle_delete_run handle_restart_run handle_run_start handle_run_command
    handle_run_suspend handle_get_run_transcript open_command
foreign_run c l outcome command suspend u id s r found foreign =
    let a = c.answers in
    let db = s.storage.db in
    let shut = open_run-Stops a u id db r found foreign c.has_store in
    let live = open_live-Stops a u id db r found foreign (c.has_store && is_some s.sessions) in
    (
      checked-Kept (open_run a c.has_store (some u) id db) s _ shut,
      checked-Kept (open_run a c.has_store (some u) id db) s _ shut,
      checked-Kept (open_live a (c.has_store && is_some s.sessions) (some u) id db) s _ live,
      reply_to-Refused (open_command a l c.has_store (some u) id c.body s) _ (
          and_then-Stops_first (open_live a (c.has_store && is_some s.sessions) (some u) id db) _
            live),
      reply_to-Refused (open_suspend a (some u) id db) _
          (open_suspend-Stops a u id db r found foreign),
      reply_to-Refused (open_run a c.has_store (some u) id db) _ shut,
    )

module _ (a : Answers) (u : User) (id : String) (db : Db) (b : Build)
    (found : find_row build_key id db.builds ≡ some b)
    (foreign : str_eq b.owner_uid u.uid ≡ false) where
  open_build-Stops : (has_store : Bool) → Stops (open_build a has_store (some u) id db)
  unfolding open_build signed_in and_then own_build get_build Records.scanned scan_build
  open_build-Stops has_store =
      and_then-Stops (require (is_id b'b' id) 400 "invalid_build_id") _ (λ _.
        and_then-Stops (require has_store 404 "not_found") _ (λ _. elim (Bool-cases a.get_build) [
          | inr n ↦ (500, "internal", rw (own_build, n) refl)
          | inl y ↦ (403, "forbidden", rw (own_build, y, found, foreign) refl)
        ]))

-- For a build of another user, whatever the store answers, the handlers of its artifact, its log and
-- its test answer an error, so that neither a blob is sent nor the interpreter started.
pub foreign_build :
    (c : Call) (t : TestWorld) (u : User) (id : String) (s : Storage) (b : Build)
    → find_row build_key id s.db.builds ≡ some b
    → str_eq b.owner_uid u.uid ≡ false
    → Refused (handle_get_build_artifact c.answers c.blobs true c.has_store (some u) id s)
      × Refused (handle_get_build_log c.answers c.blobs true c.has_store (some u) id s)
      × Refused (handle_build_test c.answers c.blobs t c.has_store (some u) id s)
unfolding handle_get_build_artifact handle_get_build_log handle_build_test open_test
foreign_build c t u id s b found foreign =
    let shut = open_build-Stops c.answers u id s.db b found foreign c.has_store in
    (
      reply_to-Refused (open_build c.answers c.has_store (some u) id s.db) _ shut,
      reply_to-Refused (open_build c.answers c.has_store (some u) id s.db) _ shut,
      reply_to-Refused (open_test c.answers c.has_store (some u) id s.db) _
          (and_then-Stops_first (open_build c.answers c.has_store (some u) id s.db) _ shut),
    )
