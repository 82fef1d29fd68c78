-- ===== src/Server/Runs/Create.antt =====
-- handleCreateRun (service/internal/server/handlers_runs.go). What the IFDB client gives for the game is
-- an argument; see Ifdb for the client.
use aifstudio.Prelude.{
  ℕ, String, Bool, not, ◌&&◌, ◌||◌, List, [], ◌∷◌, Option, none, some, str_eq, ltb, leb, length,
  any, if◌then◌else◌,
}
use aifstudio.Text.{Text, text, text_eq, has_prefix}
use aifstudio.Auth.Tables.{User, ok, err}
use aifstudio.Store.Rows.{Run, Db}
use aifstudio.Store.Runs.{create_run}
use aifstudio.Store.Projects.{get_project}
use aifstudio.Store.Records.{get_build}
use aifstudio.Ifdb.Format.{DownloadLink, first_of_format, preferred_format}
use aifstudio.Server.Http.{
  Reply, refused, replied, Check, stop, pass, checked, and_then, signed_in, Answers,
}
use aifstudio.Server.Projects.{decoded}
use aifstudio.Server.Runs.{RunResponse, run_to_response}

pub record CreateRunRequest : Type 0 where
  pub source_type : String
  pub ifdb_id : String
  pub format : Text
  pub artifact_url : Text
  pub build_id : String

-- The fields of ifdb.GameDetail that the handler reads.
pub record Game : Type 0 where
  pub title : Text
  pub download_links : List DownloadLink
  pub unsupported_formats : List Text

-- ifdbIDRE, ^[a-z0-9]{10,32}$
unfoldable pub is_lower_or_digit : ℕ → Bool
is_lower_or_digit c = (leb b'a' c && leb c b'z') || (leb b'0' c && leb c b'9')

unfoldable pub is_ifdb_id : String → Bool
is_ifdb_id id =
    let s = text id in
    leb 10 (length s) && leb (length s) 32 && not (any (λ c. not (is_lower_or_digit c)) s)

-- The checks of the request.
unfoldable pub valid_run : CreateRunRequest → Check Unit
valid_run r =
    if str_eq r.source_type "ifdb"
    then (if is_ifdb_id r.ifdb_id then pass tt else stop 400 "invalid_ifdb_id")
    else if str_eq r.source_type "url"
    then (if has_prefix r.artifact_url (text "https://")
        then pass tt
        else stop 400 "invalid_artifact_url")
    else if str_eq r.source_type "build"
    then (if str_eq r.build_id "" then stop 400 "missing_build_id" else pass tt)
    else stop 400 "invalid_source_type"

-- What the source of a run gives for its row.
pub record Resolved : Type 0 where
  pub title : Text
  pub format : Text
  pub artifact_url : Text
  pub candidate_urls : List Text

unfoldable pub other_urls : Text → List DownloadLink → List Text
other_urls url [] = []
other_urls url (l ∷ ls) =
    let rest = other_urls url ls in if text_eq l.url url then rest else l.url ∷ rest

unfoldable pub chosen_link : Text → List DownloadLink → Option DownloadLink
chosen_link format links =
    if text_eq format [] then preferred_format links else first_of_format format links

unfoldable pub resolve_game : CreateRunRequest → Option Game → Check Resolved
resolve_game r none = stop 503 "ifdb_error"
resolve_game r (some g) = elim g.download_links [
  | [] ↦
      if ltb 0 (length g.unsupported_formats)
      then stop 422 "unsupported_format"
      else stop 404 "no_download_links"
  | _ ∷ _ ↦ elim (chosen_link r.format g.download_links) [
    | none ↦ stop 400 "no_compatible_format"
    | some link ↦ pass (record {
      title = g.title;
      format = link.format;
      artifact_url = link.url;
      candidate_urls = link.url ∷ other_urls link.url g.download_links;
    })
  ]
]

unfoldable pub resolve_build : Answers → CreateRunRequest → Db → Check Resolved
resolve_build a r db = elim (get_build a.get_build r.build_id db) [
  | err _ ↦ stop 500 "internal"
  | ok build ↦ elim build [
    | none ↦ stop 500 "internal"
    | some b ↦ elim (get_project a.get_project b.project_id db) [
      | err _ ↦ stop 500 "internal"
      | ok project ↦ elim project [
        | none ↦ stop 500 "internal"
        | some p ↦ pass (record {
          title = p.name;
          format = r.format;
          artifact_url = r.artifact_url;
          candidate_urls = [];
        })
      ]
    ]
  ]
]

unfoldable pub resolve : Answers → CreateRunRequest → Option Game → Db → Check Resolved
resolve a r game db =
    if str_eq r.source_type "ifdb"
    then resolve_game r game
    else if str_eq r.source_type "build"
    then resolve_build a r db
    else pass (record {
      title = [];
      format = r.format;
      artifact_url = r.artifact_url;
      candidate_urls = [];
    })

abbrev pub new_run : String → String → CreateRunRequest → Resolved → ℕ → Run
new_run id uid r found now = record {
  id = id;
  source_type = r.source_type;
  ifdb_id = r.ifdb_id;
  title = found.title;
  format = found.format;
  artifact_url = found.artifact_url;
  build_id = r.build_id;
  user_id = uid;
  status = "pending";
  created_at = now;
  started_at = none;
  finished_at = none;
  last_active_at = none;
  exit_code = none;
  transcript_path = [];
  error_code = "";
  error_message = [];
  interpreter = "";
  story_path = [];
  save_path = [];
  turn_count = 0;
  last_save_at = none;
  reconnect_count = 0;
  candidate_urls = found.candidate_urls;
  project_id = "";
}

unfoldable pub open_create :
    Answers
    → Option User
    → Option CreateRunRequest
    → Option Game
    → Db
    → Check (User × CreateRunRequest × Resolved)
open_create a user body game db = and_then (signed_in user) (λ u. and_then (decoded body) (λ r.
    and_then (valid_run r) (λ _. and_then (resolve a r game db) (λ found. pass (u, r, found)))))

-- handleCreateRun of a server with a store, with the new id and the time.
unfoldable pub handle_create_run :
    Answers
    → Option User
    → Option CreateRunRequest
    → Option Game
    → String
    → ℕ
    → Db
    → Db × Reply RunResponse
handle_create_run a user body game id now db =
    checked (open_create a user body game db) db (λ (u, r, found).
      let run = new_run id u.uid r found now in
      let (db1, created) = create_run a.create_run run db in
      if created then (db1, replied 201 (run_to_response run)) else (db1, refused 500 "internal"))
