-- ===== src/Server/Tests.antt =====
-- Requests to a server with a small database (service/internal/server).
use aifstudio.Prelude.{◌≡◌, refl, ap, true, false, ◌∷◌, none, some, is_some, str_eq}
use aifstudio.Text.{Text, text}
use aifstudio.Auth.Tables.{User, find_id}
use aifstudio.Store.Table.{find_row}
use aifstudio.Store.Rows.{Project, has_user, run_row, scan_project, scan_build}
use aifstudio.Store.Runs.{run_key}
use aifstudio.Store.Projects.{project_key}
use aifstudio.Store.Records.{build_key}
use aifstudio.Store.Samples.{ann, bob, pid, bid, new_id, cave, cave_build, small}
use aifstudio.Dict.{lookup}
use aifstudio.Build.Slots.{active_build_id}
use aifstudio.Server.Http.{replied, is_id, is_id_text, is_tail, is_upper_or_digit}
use aifstudio.Server.Http.Stops.{Kept, Refused}
use aifstudio.Server.Http.Owned.{all_answer}
use aifstudio.Server.Samples.{disk, storage, idle, before_build, config, model, call}
use aifstudio.Server.Projects.{
  handle_get_project, handle_patch_project, handle_patch_project_source, handle_put_project_source,
  handle_get_project_source,
}
use aifstudio.Server.Cascade.{handle_delete_project}
use aifstudio.Server.Cascade.Deleted.{without_project, handle_delete_project-without, owner_deletes}
use aifstudio.Server.Builds.{
  BuildState, handle_create_build, handle_get_build_artifact, handle_get_build_log, new_build,
  accepted_reply, conflict,
}
use aifstudio.Server.Builds.Twice.{building, source_in, handle_create_build-twice}
use aifstudio.Server.Community.{handle_toggle_publish, handle_community_play, community_run}
use aifstudio.Server.Community.Needs.{IsReady, handle_toggle_publish-IsReady}
use aifstudio.Server.Community.Play.{switched, handle_toggle_publish-play}
use aifstudio.Server.Assistant.{handle_ai_generate}
use aifstudio.Server.Assistant.Chat.{handle_ai_chat}
use aifstudio.Server.Owner.{with_builder, foreign_project, foreign_build}
use aifstudio.Server.Builds.Test.{TestWorld, not_started, handle_build_test}

pid_fits : is_id b'p' pid ≡ true
unfolding is_id is_id_text is_tail is_upper_or_digit
pid_fits = refl

found : find_row project_key pid small.projects ≡ some cave
unfolding find_row
found = refl

foreign_project_example :
    Kept storage (handle_delete_project all_answer disk true (some bob) pid storage)
    × Kept small (handle_patch_project all_answer (some bob) pid none 50 small)
    × Kept small (handle_patch_project_source all_answer true (some bob) pid call.body 50 small)
    × Kept small (handle_put_project_source all_answer true (some bob) pid call.body 50 small)
    × Kept small (handle_toggle_publish all_answer (some bob) pid (some true) 50 small)
    × Kept (with_builder (some idle) storage) (
        handle_create_build all_answer true
          (some bob)
          pid
          "b-2"
          50
          (with_builder (some idle) storage))
    × Kept small
        (handle_ai_generate call.block all_answer config model (some bob) pid call.body small)
    × Kept small (handle_ai_chat all_answer config model (some bob) pid call.body small)
    × Refused (handle_get_project all_answer true (some bob) pid small)
    × Refused (handle_get_project_source all_answer true (some bob) pid small)
foreign_project_example = foreign_project call bob pid storage (some idle) cave found refl

handle_delete_project-without_example :
    (handle_delete_project all_answer disk true (some ann) pid storage).0.db
    ≡ without_project pid small
handle_delete_project-without_example =
    handle_delete_project-without all_answer disk true (some ann) pid storage
      (owner_deletes disk ann pid storage cave pid_fits found refl)

abbrev hall : Text
hall = text "The Hall is a room."

ready : IsReady cave pid small
unfolding find_row
ready = record {
  build = cave_build;
  built = refl;
  succeeded = refl;
  source = record { project_id = pid; source = text "The Cave is a room." };
  written = refl;
  nonempty = refl;
}

unused : is_some (find_row run_key "r-2" small.runs) ≡ false
unfolding find_row
unused = refl

bob_known : has_user "u-2" small ≡ true
unfolding has_user find_id
bob_known = refl

handle_toggle_publish-play_example :
    (handle_toggle_publish all_answer (some ann) pid (some true) 50 small ≡ (
      switched pid true 50 small,
      replied 200 (record { id = pid; published = true; published_at = some 50 }),
    ))
    × (handle_community_play all_answer (some bob) pid "r-2" 60 (switched pid true 50 small) ≡ (
      record (switched pid true 50 small) {
        runs =
            run_row (community_run "r-2" "u-2" (scan_project cave) (scan_build cave_build) 60)
            ∷ small.runs;
      },
      replied 201 (record {
        id = "r-2";
        status = "pending";
        start_url = text "/api/runs/r-2/start";
        created_at = 60;
      }),
    ))
unfolding ready
handle_toggle_publish-play_example =
    handle_toggle_publish-play ann bob pid "r-2" 50 60 small cave ready pid_fits found refl refl
      unused bob_known

published :
    (handle_toggle_publish all_answer (some ann) pid (some true) 50 small).1
    ≡ replied 200 (record { id = pid; published = true; published_at = some 50 })
published =
    ap (λ r. r.1)
      (handle_toggle_publish-play ann bob pid "r-2" 50 60 small cave ready pid_fits found refl refl
        unused bob_known).0

handle_toggle_publish-IsReady_example :
    (u : User) × (p : Project) × (some ann ≡ some u)
    × (find_row project_key pid small.projects ≡ some p)
    × (str_eq p.owner_uid u.uid ≡ true)
    × IsReady p pid small
handle_toggle_publish-IsReady_example =
    handle_toggle_publish-IsReady all_answer (some ann) pid 50 small
      (record { id = pid; published = true; published_at = some 50 }) published

free : active_build_id pid idle ≡ none
unfolding active_build_id lookup
free = refl

new_unused : is_some (find_row build_key new_id small.builds) ≡ false
unfolding find_row
new_unused = refl

handle_create_build-twice_example :
    (after : BuildState) × (after
      ≡ building (new_build new_id pid "u-1" 50) (source_in pid small) idle before_build)
    × (handle_create_build all_answer true (some ann) pid new_id 50 before_build
        ≡ (after, accepted_reply (new_build new_id pid "u-1" 50)))
    × (handle_create_build all_answer true (some ann) pid "b-3" 60 after
        ≡ (after, replied 409 (conflict new_id)))
handle_create_build-twice_example =
    handle_create_build-twice ann pid new_id "b-3" 50 60 idle before_build cave pid_fits found refl
      refl free new_unused

build_found : find_row build_key bid small.builds ≡ some cave_build
unfolding find_row
build_found = refl

abbrev play : TestWorld
play = record {
  made_directory = true;
  made_file = true;
  reads = true;
  flushes = true;
  course = not_started (text "no interpreter");
}

foreign_build_example :
    Refused (handle_get_build_artifact all_answer disk true true (some bob) bid storage)
    × Refused (handle_get_build_log all_answer disk true true (some bob) bid storage)
    × Refused (handle_build_test all_answer disk play true (some bob) bid storage)
foreign_build_example = foreign_build call play bob bid storage cave_build build_found refl
