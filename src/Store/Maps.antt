-- ===== src/Store/Maps.antt =====
-- What the store promises of projects and their sources (service/internal/store/store.go): the calls, and
-- two maps by id that stand for the tables.
use aifstudio.Prelude.{
  ℕ, String, Bool, true, false, not, ◌||◌, List, [], ◌∷◌, Option, none, some, is_some, str_eq,
  if◌then◌else◌,
}
use aifstudio.Text.{Text}
use aifstudio.Auth.Tables.{fmt_time}
use aifstudio.Store.Table.{find_row}
use aifstudio.Store.Table.Keys.{map_option}
use aifstudio.Store.Rows.{Project, Source, Db, project_row}
use aifstudio.Store.Projects.{
  project_key, source_key, create_project, update_project_meta, update_project_latest_build,
  set_project_published, put_project_source, delete_project_source, delete_project,
}

pub data Op : Type 0 where
  create : Project → Op
  meta : String → Text → Text → ℕ → Op
  latest : String → String → Op
  publish : String → Bool → ℕ → Op
  put : String → Text → ℕ → Op
  end_source end_project : String → Op

-- The calls on the store, each of which the database answers.
unfoldable pub step : Op → Db → Db
step (create p) db = (create_project true p db).0
step (meta id n d t) db = (update_project_meta true id n d t db).0
step (latest id b) db = (update_project_latest_build true id b db).0
step (publish id on t) db = (set_project_published true id on t db).0
step (put pid s t) db = (put_project_source true pid s t db).0
step (end_source pid) db = (delete_project_source true pid db).0
step (end_project id) db = (delete_project true id db).0

unfoldable pub run : List Op → Db → Db
run [] db = db
run (o ∷ os) db = run os (step o db)

-- The specification: what each id stands for, with times in whole seconds.
pub record Maps : Type 0 where
  pub project : String → Option Project
  pub source : String → Option Text

unfoldable pub put_at : {V : Type 0} → String → Option V → (String → Option V) → String → Option V
put_at k v m j = if str_eq k j then v else m j

unfoldable pub change_at : String → (Project → Project) → Maps → Maps
change_at k f m = record m {
  project = λ j. if str_eq k j then map_option f (m.project j) else m.project j;
}

-- `known` says which users exist.
unfoldable pub apply : (String → Bool) → Op → Maps → Maps
apply known (create p) m =
    if is_some (m.project p.id) || not (known p.owner_uid)
    then m
    else record m { project = put_at p.id (some (project_row p)) m.project }
apply known (meta id n d t) m =
    change_at id (λ p. record p { name = n; description = d; updated_at = fmt_time t }) m
apply known (latest id b) m = change_at id (λ p. record p { latest_build_id = b }) m
apply known (publish id true t) m =
    change_at id (λ p. record p { published = true; published_at = some (fmt_time t) }) m
apply known (publish id false t) m = change_at id (λ p. record p { published = false }) m
apply known (put pid s t) m =
    if is_some (m.project pid)
    then change_at pid (λ p. record p { updated_at = fmt_time t })
        (record m { source = put_at pid (some s) m.source })
    else m
apply known (end_source pid) m = record m { source = put_at pid none m.source }
apply known (end_project id) m = record {
  project = put_at id none m.project;
  source = put_at id none m.source;
}

unfoldable pub replay : (String → Bool) → List Op → Maps → Maps
replay known [] m = m
replay known (o ∷ os) m = replay known os (apply known o m)

-- The source of a row.
unfoldable pub source_of : Option Source → Option Text
source_of none = none
source_of (some s) = some s.source

-- What a client reads.
unfoldable pub reads : Db → Maps
reads db = record {
  project = λ k. find_row project_key k db.projects;
  source = λ k. source_of (find_row source_key k db.sources);
}

unfoldable pub text_or_empty : Option Text → Text
text_or_empty none = []
text_or_empty (some s) = s
