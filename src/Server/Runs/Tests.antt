-- ===== src/Server/Runs/Tests.antt =====
-- Runs of a server with a small database (service/internal/server/handlers_runs.go).
use aifstudio.Prelude.{◌≡◌, refl, true, none, some}
use aifstudio.Text.{text, text_eq, cons_head, contains, has_prefix, has_suffix, join, split}
use aifstudio.Auth.Tables.{parse_time}
use aifstudio.Store.Table.{find_row, delete_where, has_key}
use aifstudio.Store.Rows.{scan_run, parse_null_time}
use aifstudio.Store.Runs.{run_key, clamp, delete_run_row, get_run}
use aifstudio.Store.Samples.{ann, bob, run_id, cave_run, small}
use aifstudio.Dict.{lookup, delete}
use aifstudio.Store.Blobs.{abs_path, delete_blob_prefix, is_below, is_through, join_path, walk}
use aifstudio.FilePath.{clean, clean_parts, is_abs, join2, push, push_all, rebuild, up}
use aifstudio.Runner.Manager.{get_session, remove_session}
use aifstudio.Store.Runs
use aifstudio.Server.Http.{
  replied, is_id, is_id_text, is_tail, is_upper_or_digit, and_then, checked, signed_in,
}
use aifstudio.Server.Http.Stops.{Kept, Refused}
use aifstudio.Server.Http.Owned.{all_answer}
use aifstudio.Server.Samples.{disk, storage, with_runner, live, call}
use aifstudio.Server.Cascade.{drop_blobs, drop_one_run}
use aifstudio.Server.Runs.{
  handle_delete_run, handle_restart_run, handle_get_run_transcript, delete_run, drop_run, find_run,
  open_run, own_run, stop_session,
}
use aifstudio.Server.Runs.Live.{
  started, answered, suspended, alive_session, handle_run_start, handle_run_command,
  handle_run_suspend, Live,
}
use aifstudio.Server.Runs.Deleted.{without_run, session_dir, IsEmptyDir, handle_delete_run-gone}
use aifstudio.Server.Owner.{foreign_run}

run_found : find_row run_key run_id small.runs ≡ some cave_run
unfolding find_row
run_found = refl

foreign_run_example :
    Kept with_runner (handle_delete_run all_answer disk true (some bob) run_id with_runner)
    × Kept with_runner (handle_restart_run all_answer true (some bob) run_id with_runner)
    × Kept with_runner (
        handle_run_start all_answer live (started (text ">")) 50 true (some bob) run_id with_runner)
    × Refused (
        handle_run_command all_answer live
          (λ _ t. answered t)
          true
          (some bob)
          run_id
          call.body
          with_runner)
    × Refused (handle_run_suspend all_answer live (λ _. suspended) (some bob) run_id with_runner)
    × Refused (handle_get_run_transcript all_answer disk true true (some bob) run_id storage)
foreign_run_example =
    foreign_run call live (started (text ">")) (λ _ t. answered t) (λ _. suspended) bob run_id
      with_runner cave_run run_found refl

run_deleted :
    (handle_delete_run all_answer disk true (some ann) run_id with_runner).1 ≡ replied 204 tt
unfolding handle_delete_run checked open_run and_then signed_in is_id is_id_text is_tail
    is_upper_or_digit own_run find_run get_run Runs.scanned find_row scan_run drop_run delete_run
    delete_blob_prefix is_through parse_time delete lookup clean clean_parts is_abs join2 push
    push_all rebuild up get_session remove_session drop_blobs drop_one_run stop_session abs_path
    is_below join_path walk parse_null_time delete_run_row delete_where has_key cons_head contains
    has_prefix has_suffix join split text_eq
run_deleted = refl

handle_delete_run-gone_example :
    ((handle_delete_run all_answer disk true (some ann) run_id with_runner).0.storage.db
      ≡ without_run run_id small)
    × IsEmptyDir disk.root
        (session_dir run_id)
        (handle_delete_run all_answer disk true (some ann) run_id with_runner).0.storage.files
    × ((l : Live)
        → alive_session l run_id
            (handle_delete_run all_answer disk true (some ann) run_id with_runner).0.sessions
          ≡ none)
handle_delete_run-gone_example =
    handle_delete_run-gone all_answer disk true (some ann) run_id with_runner run_deleted
