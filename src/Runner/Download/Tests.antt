-- ===== src/Runner/Download/Tests.antt =====
-- A download whose first host is down (service/internal/runner/download.go).
use aifstudio.Prelude.{
  ℕ, zero, suc, ◌≤◌, ◌≡◌, refl, ◌⊎◌, true, false, [], ◌∷◌, none, some, All, length,
}
use aifstudio.Text.{Text, text, text_eq, to_lower, lower_char, split, cons_head}
use aifstudio.FilePath.{ext}
use aifstudio.Runner.Download.{
  World, ok, is_success, declared, copied, before_query, url_ext, artifact_ext, store_body,
  download_artifact, is_upstream_http_error, try_candidates, fetch, download_to, too_large,
}
use aifstudio.Runner.Download.Fetched.{Kept, gives_up, Tried, fetch-Kept}

abbrev answering : ℕ → ℕ → World
answering status body = record {
  builds = true;
  response = some (record {
    status = status;
    content_length = none;
    final_url = none;
    body = body;
    breaks = false;
  });
  temp_file = some (text "/w/artifact1");
  sum = text "abc";
}

-- The first download meets a host that is down.
abbrev hosts : ℕ → Text → World
hosts zero url = answering 503 0
hosts (suc n) url = answering 200 7

abbrev primary : Text
primary = text "http://h/a.zip?x=1"

abbrev mirror : Text
mirror = text "http://m/A.Z5"

fetch_run : fetch hosts 10 primary (primary ∷ mirror ∷ []) [] ≡ (
  record { name = text "/w/artifact1"; size = 7 } ∷ [],
  ok (record { local_path = text "/w/artifact1"; extension = text ".z5"; sha256 = text "abc" }),
)
unfolding fetch try_candidates download_artifact store_body is_success declared copied
    is_upstream_http_error artifact_ext url_ext before_query text_eq to_lower lower_char split
    cons_head ext
fetch_run = refl

capped_run : download_to (answering 200 12) 10 ≡ (11, some (too_large 11))
unfolding download_to is_success declared copied
capped_run = refl

fetch-Kept_example :
    Kept 10 []
      (fetch hosts 10 primary (primary ∷ mirror ∷ []) []).0
      (fetch hosts 10 primary (primary ∷ mirror ∷ []) []).1
    × ((gives_up (fetch hosts 10 primary (primary ∷ mirror ∷ []) []).1 ≡ false)
        ⊎ ((length (primary ∷ mirror ∷ []) ≤ 1)
            ⊎ All (Tried hosts 10 primary []) (primary ∷ mirror ∷ [])))
fetch-Kept_example = fetch-Kept hosts 10 primary (primary ∷ mirror ∷ []) []
