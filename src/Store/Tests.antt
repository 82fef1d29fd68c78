-- ===== src/Store/Tests.antt =====
-- Calls of the store one after another (service/internal/store/sqlite.go and
-- service/internal/store/local_blob.go).
use aifstudio.Prelude.{◌+◌, ◌*◌, ◌≡◌, refl, true, List, [], ◌∷◌, some, length, if◌then◌else◌}
use aifstudio.Text.{Text, text, text_eq, has_prefix, has_suffix, contains, join, split, cons_head}
use aifstudio.FilePath.{clean, join2, rebuild, is_abs, clean_parts, push_all, push, up}
use aifstudio.Auth.Tables.{ok, find_id, find_email, create_user, fmt_time, second, parse_time}
use aifstudio.Auth.Tables.Unique
use aifstudio.Auth.Tables.Unique.{new_user}
use aifstudio.Store.Table.{find_row, update_where, has_key}
use aifstudio.Store.Rows.{
  has_user, scan_project, scan_build, scan_run, project_row, run_row, null_time_val, build_row,
  parse_null_time,
}
use aifstudio.Store.Runs.{create_run}
use aifstudio.Store.Projects.{
  get_project, scanned, get_project_source, put_project_source, has_project, set_project,
  upsert_source, create_project,
}
use aifstudio.Store.Integrity.{
  IsDb, Reach, empty, fresh, next, account, new_project, put_source, new_build, new_run,
}
use aifstudio.Store.Integrity.Reachable.{reachable-IsDb}
use aifstudio.Store.Records.{create_build}
use aifstudio.Store.Maps.{Op, meta, put, publish, run, replay, reads, text_or_empty}
use aifstudio.Store.Refines.{known, run_refines}
use aifstudio.Store.Blobs.{
  Files, abs_path, join_path, is_below, is_through, walk, UploadWorld, upload_blob, download_blob,
  delete_blob_prefix,
}
use aifstudio.Store.Blobs.Laws.{
  same_file, outside, upload_blob-download_blob, delete_blob_prefix_lem,
}
use aifstudio.Store.Samples.{ann, bob, pid, cave, cave_build, cave_run, small}

abbrev calls : List Op
calls =
    meta pid (text "Deep Cave") [] 20
    ∷ put pid (text "The Hall is a room.") 30
    ∷ publish pid true 40
    ∷ []

run_refines_example :
    (get_project true pid (run calls small)
      ≡ ok (scanned ((replay (known small.accounts.users) calls (reads small)).project pid)))
    × (get_project_source true pid (run calls small)
        ≡ ok (text_or_empty ((replay (known small.accounts.users) calls (reads small)).source pid)))
run_refines_example = run_refines small calls pid

-- Two users register; the first one creates a project, writes its source, builds it and plays it.
registered : Reach (λ t. t) (record empty { accounts = small.accounts })
unfolding create_user find_id find_email fmt_time text_eq
registered =
    let joined =
      next fresh (
        account empty (new_user true "" 0 (record bob { created_at = second }) "h" Unique.empty)) in
    next joined (account _ (new_user true "" 0 (record ann { created_at = second }) "h" _))

small-Reach : Reach (λ t. t) small
unfolding create_project create_run find_row create_build put_project_source has_project has_user
    find_id scan_project project_row set_project update_where has_key scan_build scan_run run_row
    fmt_time null_time_val upsert_source build_row parse_time parse_null_time
small-Reach =
    let p = next registered (new_project true (scan_project cave) _) in
    let s = next p (put_source true pid (text "The Cave is a room.") (4 * second) _) in
    let b = next s (new_build true (scan_build cave_build) _) in
    next b (new_run true (scan_run cave_run) _)

reachable-IsDb_example : IsDb small
reachable-IsDb_example = reachable-IsDb (λ t. t) small-Reach

abbrev root : Text
root = text "/data"

abbrev saves : Text
saves = text "saves/r"

abbrev disk : UploadWorld
disk = record {
  made_directory = true;
  made_file = true;
  copied = true;
  closed = true;
  renamed = true;
}

abbrev file : Text
file = text "saves/r/current.qzl"

abbrev other : Text
other = text "saves/r/old.qzl"

abbrev files : Files
files = (text "/data/saves/r/old.qzl", 7 ∷ []) ∷ (text "/data/saves/s/old.qzl", 8 ∷ []) ∷ []

uploaded : (upload_blob root disk file (1 ∷ 2 ∷ []) files).1 ≡ true
unfolding upload_blob abs_path join_path contains has_prefix join2 clean rebuild is_abs join
    clean_parts push_all split cons_head push text_eq
uploaded = refl

upload_blob-download_blob_example :
    (same_file (abs_path root file) (abs_path root file) ≡ true)
    × (download_blob root true other (upload_blob root disk file (1 ∷ 2 ∷ []) files).0 ≡ (
        if same_file (abs_path root file) (abs_path root other)
        then some (1 ∷ 2 ∷ [])
        else download_blob root true other files))
upload_blob-download_blob_example =
    upload_blob-download_blob root file disk (1 ∷ 2 ∷ []) files uploaded other

removed : (delete_blob_prefix root (λ _. true) saves files).2 ≡ true
unfolding delete_blob_prefix is_through walk is_below has_suffix up abs_path join_path contains
    has_prefix join2 clean rebuild is_abs join clean_parts push_all split cons_head push text_eq
removed = refl

delete_blob_prefix_lem_example :
    (dir : Text) × (abs_path root saves ≡ some dir)
    × ((delete_blob_prefix root (λ _. true) saves files).0 ≡ outside dir files)
    × ((delete_blob_prefix root (λ _. true) saves files).1 + length (outside dir files)
        ≡ length files)
delete_blob_prefix_lem_example = delete_blob_prefix_lem root saves (λ _. true) files removed
