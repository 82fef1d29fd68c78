-- ===== src/Server/Projects/Saved.antt =====
-- Projects and sources that a handler has written and another one reads
-- (service/internal/server/handlers_projects.go and handlers_history.go).
use aifstudio.Prelude.{ℕ, String, ◌≡◌, refl, true, some, str_eq, str_eq_refl, length}
use aifstudio.Text.{Text}
use aifstudio.Auth.Tables.{User, fmt_time}
use aifstudio.Store.Table.{find_row}
use aifstudio.Store.Table.Keys.{find_row-update_where}
use aifstudio.Store.Rows.{Project, Source, Db, scan_project}
use aifstudio.Store.Projects.{
  project_key, source_key, has_project, set_project, upsert_source, put_project_source,
  get_project_source, get_project_source_size,
}
use aifstudio.Store.Refines.{upsert_source-found}
use aifstudio.Server.Http.{replied, reply_to, is_id}
use aifstudio.Server.Http.Owned.{all_answer, open_project-pass}
use aifstudio.Server.Projects.{
  with_source, source_url_of, project_to_response, handle_get_project, handle_get_project_source,
}

abbrev pub source_row : String → Text → Source
source_row id s = record { project_id = id; source = s }

-- The database after a source has been written.
abbrev pub saved : String → Text → ℕ → Db → Db
saved id s now db =
    set_project id (λ p. record p { updated_at = fmt_time now })
      (record db { sources = upsert_source (source_row id s) db.sources })

module _ (id : String) (s : Text) (now : ℕ) (db : Db) (p : Project)
    (found : find_row project_key id db.projects ≡ some p) where
  pub put_project_source-saved : put_project_source true id s now db ≡ (saved id s now db, true)
  unfolding put_project_source has_project
  put_project_source-saved = rw (put_project_source, has_project, found) refl

  pub saved-project :
      find_row project_key id (saved id s now db).projects
      ≡ some (record p { updated_at = fmt_time now })
  unfolding set_project
  saved-project =
      rw
        (
          find_row-update_where project_key (λ q. record q { updated_at = fmt_time now }) id
              (λ q _. refl) id db.projects,
          str_eq_refl id,
          found,
        )
        refl

pub saved-source :
    (id : String) (s : Text) (now : ℕ) (db : Db)
    → find_row source_key id (saved id s now db).sources ≡ some (source_row id s)
unfolding set_project
saved-source id s now db =
    rw (upsert_source-found (source_row id s) db.sources id, str_eq_refl id) refl

-- What the two handlers that read show of a project with a source.
module _ (u : User) (id : String) (s : Text) (db : Db) (p : Project) (i : is_id b'p' id ≡ true)
    (found : find_row project_key id db.projects ≡ some p) (owner : str_eq p.owner_uid u.uid ≡ true)
    (written : find_row source_key id db.sources ≡ some (source_row id s)) where
  read_source : handle_get_project_source all_answer true (some u) id db ≡ replied 200 s
  unfolding handle_get_project_source reply_to get_project_source
  read_source =
      rw (handle_get_project_source, open_project-pass u id db p i found owner, written) refl

  pub read_project :
      handle_get_project all_answer true (some u) id db
      ≡ replied 200 (record (project_to_response (scan_project p)) {
        source_bytes = length s;
        source_url = source_url_of id;
      })
  unfolding handle_get_project reply_to with_source get_project_source_size
  read_project =
      rw
        (
          handle_get_project,
          open_project-pass u id db p i found owner,
          with_source,
          get_project_source_size,
          written,
        )
        refl
