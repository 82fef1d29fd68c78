-- ===== src/Server/Runs/Deleted.antt =====
-- What handleDeleteRun leaves (service/internal/server/handlers_runs.go).
use aifstudio.Prelude.{
  String, ◌≡◌, refl, ap, ◌∙◌, Bool, true, false, Option, none, some, any, ◌++◌, Bool-cases, inl,
  inr, arith,
}
use aifstudio.Text.{Text, text}
use aifstudio.Auth.Tables.{User}
use aifstudio.Store.Table.{delete_where, has_key}
use aifstudio.Store.Rows.{Db}
use aifstudio.Store.Runs.{run_key, delete_run_row}
use aifstudio.Store.Blobs.{Files, abs_path, is_below, delete_blob_prefix}
use aifstudio.Store.Blobs.Laws.{outside-none, delete_blob_prefix_lem}
use aifstudio.Server.Http.{refused, replied, Answers}
use aifstudio.Server.Http.Passed.{checked-replied}
use aifstudio.Server.Cascade.{BlobWorld, Storage, drop_one_run}
use aifstudio.Server.Runs.{
  RunState, open_run, stop_session, delete_run, drop_run, handle_delete_run,
}
use aifstudio.Server.Runs.Live.{Live, alive_session}
use aifstudio.Server.Runs.Restarted.{stop_session-storage, stop_session-alive}

abbrev pub session_dir : String → Text
session_dir id = text "sessions/" ++ (text id ++ text "/")

abbrev pub without_run : String → Db → Db
without_run id db = record db { runs = delete_where (has_key run_key id) db.runs }

-- No file lies in the directory that a blob path names.
abbrev pub IsEmptyDir : Text → Text → Files → Type 0
IsEmptyDir root path files =
    (dir : Text) × (abs_path root path ≡ some dir) × (any (λ f. is_below dir f.0) files ≡ false)

delete_run-gone :
    (answers : Bool) (w : BlobWorld) (id : String) (s : Storage)
    → (delete_run answers w id s).1 ≡ true
    → ((delete_run answers w id s).0.db ≡ without_run id s.db)
      × IsEmptyDir w.root (session_dir id) (delete_run answers w id s).0.files
unfolding delete_run delete_run_row
delete_run-gone answers w id s y =
    elim (Bool-cases (delete_blob_prefix w.root w.removes (session_dir id) s.files).2) [
      | inr n ↦ absurd (ground (arith, n, y))
      | inl t ↦ elim (Bool-cases answers) [
        | inr n ↦ absurd (ground (arith, t, n, y))
        | inl v ↦
            let (dir, e, left, _) =
              delete_blob_prefix_lem w.root (session_dir id) w.removes s.files t in
            rw (delete_run, t, v) (refl, (dir, e, rw left (outside-none dir s.files)))
      ]
    ]

drop_run-gone :
    (a : Answers) (w : BlobWorld) (id : String) (s : RunState)
    → (drop_run a w id s).1 ≡ replied 204 tt
    → ((drop_run a w id s).0.storage.db ≡ without_run id s.storage.db)
      × IsEmptyDir w.root (session_dir id) (drop_run a w id s).0.storage.files
      × ((l : Live) → alive_session l id (drop_run a w id s).0.sessions ≡ none)
unfolding drop_run
drop_run-gone a w id s y =
    let s1 = stop_session id s in
    let dropped = record s1.storage { files = drop_one_run w id s1.storage.files } in
    elim (Bool-cases (delete_run a.delete_run w id dropped).1) [
      | inr n ↦
          let z : (drop_run a w id s).1 ≡ refused 500 "internal" = rw (drop_run, n) refl in
          absurd (cc)
      | inl t ↦
          let (db, empty) = delete_run-gone a.delete_run w id dropped t in
          (
            db ∙ ap (λ x. without_run id x.db) (stop_session-storage id s),
            empty,
            λ l. stop_session-alive l id s,
          )
    ]

-- When handleDeleteRun answers 204, the database is the one before without the row of the run, no file
-- is left in the run's directory of saves and transcripts, and no session of the run is live.
pub handle_delete_run-gone :
    (a : Answers) (w : BlobWorld) (has_store : Bool) (user : Option User) (id : String)
    (s : RunState)
    → (handle_delete_run a w has_store user id s).1 ≡ replied 204 tt
    → ((handle_delete_run a w has_store user id s).0.storage.db ≡ without_run id s.storage.db)
      × IsEmptyDir w.root
          (session_dir id)
          (handle_delete_run a w has_store user id s).0.storage.files
      × ((l : Live)
          → alive_session l id (handle_delete_run a w has_store user id s).0.sessions ≡ none)
unfolding handle_delete_run
handle_delete_run-gone a w has_store user id s y =
    let (_, _, e, same) =
      checked-replied (open_run a has_store user id s.storage.db) s (λ _. drop_run a w id s) 204 tt
        y in
    rw same (drop_run-gone a w id s e)
