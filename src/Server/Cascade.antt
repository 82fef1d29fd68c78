-- ===== src/Server/Cascade.antt =====
-- handleDeleteProject (service/internal/server/handlers_projects.go): a project with its builds, runs,
-- turns, source and blobs.
pub mod Deleted
use aifstudio.Prelude.{
  ℕ, String, Bool, true, false, not, ◌&&◌, ◌||◌, List, [], ◌∷◌, ◌++◌, Option, none, some,
  if◌then◌else◌,
}
use aifstudio.Text.{Text, text}
use aifstudio.Auth.Tables.{User, Result, ok, err}
use aifstudio.Store.Rows.{Run, Build, Db}
use aifstudio.Store.Runs.{list_runs_by_project, delete_runs_for_project}
use aifstudio.Store.Projects.{delete_project_source, delete_project}
use aifstudio.Store.Records.{
  list_builds_by_project, delete_builds_for_project, delete_ai_conversation,
}
use aifstudio.Store.Blobs.{Files, delete_blob_prefix}
use aifstudio.Server.Http.{
  Reply, refused, replied, Check, stop, pass, checked, Answers, open_project,
}

-- The database and the blobs.
pub record Storage : Type 0 where
  pub db : Db
  pub files : Files

-- What the blob store is given: its root, and which files can be removed.
pub record BlobWorld : Type 0 where
  pub root : Text
  pub removes : Text → Bool

-- DeleteBlobPrefix, its result not looked at.
unfoldable pub drop_blobs : BlobWorld → Text → Files → Files
drop_blobs w prefix files = (delete_blob_prefix w.root w.removes prefix files).0

unfoldable pub drop_build_blobs : BlobWorld → List Build → Files → Files
drop_build_blobs w [] files = files
drop_build_blobs w (b ∷ bs) files =
    drop_build_blobs w bs (drop_blobs w (text "builds/" ++ (text b.id ++ text "/")) files)

unfoldable pub drop_one_run : BlobWorld → String → Files → Files
drop_one_run w id files =
    drop_blobs w (text "transcripts/" ++ text id)
      (drop_blobs w (text "sessions/" ++ (text id ++ text "/")) files)

unfoldable pub drop_run_blobs : BlobWorld → List Run → Files → Files
drop_run_blobs w [] files = files
drop_run_blobs w (r ∷ rs) files = drop_run_blobs w rs (drop_one_run w r.id files)

-- A step of the handler: the next one runs only if it succeeds.
unfoldable pub after :
    {A : Type 0} → Db × Result A → Files → (Storage → Storage × Reply Unit) → Storage × Reply Unit
after (db, ok _) files rest = rest (record { db = db; files = files })
after (db, err _) files rest = (record { db = db; files = files }, refused 500 "internal")

unfoldable pub after_write :
    Db × Bool → Files → (Storage → Storage × Reply Unit) → Storage × Reply Unit
after_write (db, true) files rest = rest (record { db = db; files = files })
after_write (db, false) files rest = (record { db = db; files = files }, refused 500 "internal")

-- 3., 4. and 5.
unfoldable pub delete_rest : Answers → String → Storage → Storage × Reply Unit
delete_rest a id s = after (delete_ai_conversation a.delete_turns id s.db) s.files (λ s3.
    after_write (delete_project_source a.delete_source id s3.db) s3.files (λ s4.
      after_write (delete_project a.delete_project id s4.db) s4.files (λ s5. (s5, replied 204 tt))))

-- 2. Runs and their blobs.
unfoldable pub delete_runs : Answers → BlobWorld → String → Storage → Storage × Reply Unit
delete_runs a w id s = elim (list_runs_by_project a.list_runs id 500 s.db) [
  | err _ ↦ (s, refused 500 "internal")
  | ok runs ↦
      after (delete_runs_for_project a.delete_runs id s.db) (drop_run_blobs w runs s.files)
        (λ s2. delete_rest a id s2)
]

-- 1. Builds and their blobs.
unfoldable pub delete_builds : Answers → BlobWorld → String → Storage → Storage × Reply Unit
delete_builds a w id s = elim (list_builds_by_project a.list_builds id 1000 s.db) [
  | err _ ↦ (s, refused 500 "internal")
  | ok builds ↦
      after (delete_builds_for_project a.delete_builds id s.db) (drop_build_blobs w builds s.files)
        (λ s1. delete_runs a w id s1)
]

-- handleDeleteProject
unfoldable pub handle_delete_project :
    Answers → BlobWorld → Bool → Option User → String → Storage → Storage × Reply Unit
handle_delete_project a w has_store user id s =
    checked (open_project a has_store user id s.db) s (λ _. delete_builds a w id s)
