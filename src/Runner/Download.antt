-- ===== src/Runner/Download.antt =====
-- service/internal/runner/download.go: fetching a story or an archive with a cap on its size; and the
-- loop over the candidates of Session.resolve (service/internal/runner/session.go). What the network
-- and the file system do with one download is its world.
pub mod Fetched
mod Tests
use aifstudio.Prelude.{
  ℕ, zero, suc, ◌+◌, ◌*◌, Bool, true, false, not, ◌&&◌, ◌||◌, List, [], ◌∷◌, Option, none, some,
  ltb, leb, ◌==◌, min, length, if◌then◌else◌,
}
use aifstudio.Text.{Text, text, text_eq, to_lower, split}
use aifstudio.FilePath.{ext}

abbrev pub download_size_cap : ℕ
download_size_cap = 50 * 1024 * 1024

-- A response: the status, the declared length if there is one, the URL after redirects if the client
-- gives it, the number of bytes of the body, and whether reading up to one byte past the limit fails.
pub record Response : Type 0 where
  pub status : ℕ
  pub content_length : Option ℕ
  pub final_url : Option Text
  pub body : ℕ
  pub breaks : Bool

-- `builds` says that the request could be built, `response` is `none` for an unreachable host,
-- `temp_file` is the name of the file that os.CreateTemp creates, and `sum` the digest's text.
pub record World : Type 0 where
  pub builds : Bool
  pub response : Option Response
  pub temp_file : Option Text
  pub sum : Text

pub data DownloadError : Type 0 where
  build_request fetch_artifact create_temp_file read_artifact artifact_empty : DownloadError
  upstream_http too_large : ℕ → DownloadError

-- IsUpstreamHTTPError and IsDownloadTooLarge
pub is_upstream_http_error : DownloadError → Bool
is_upstream_http_error (upstream_http s) = true
is_upstream_http_error _ = false

pub is_download_too_large : DownloadError → Bool
is_download_too_large (too_large n) = true
is_download_too_large _ = false

pub record File : Type 0 where
  pub name : Text
  pub size : ℕ

pub record Artifact : Type 0 where
  pub local_path : Text
  pub extension : Text
  pub sha256 : Text

pub data Result {ℓ} (A : Type ℓ) : Type ℓ where
  ok : A → Result A
  err : DownloadError → Result A

pub is_success : ℕ → Bool
is_success status = leb 200 status && ltb status 300

-- The declared length, where none is below every limit.
pub declared : Response → ℕ
declared r = elim r.content_length [ none ↦ 0 | some l ↦ l ]

-- The bytes that io.Copy takes through a LimitReader of one byte more than the limit.
pub copied : ℕ → Response → ℕ
copied limit r = min r.body (limit + 1)

-- DownloadArtifact: the number of bytes written, and the error. A limit of zero stands for every limit
-- that is not positive.
pub download_to : World → ℕ → ℕ × Option DownloadError
download_to w configured = elim w.builds [
  | false ↦ (0, some build_request)
  | true ↦ elim w.response [
    | none ↦ (0, some fetch_artifact)
    | some r ↦
        let limit = if configured == 0 then download_size_cap else configured in
        let n = copied limit r in
        if not (is_success r.status)
        then (0, some (upstream_http r.status))
        else if ltb limit (declared r)
        then (0, some (too_large (declared r)))
        else if r.breaks
        then (n, some read_artifact)
        else if ltb limit n
        then (n, some (too_large n))
        else if n == 0
        then (0, some artifact_empty)
        else (n, none)
  ]
]

-- The part of a URL in front of the first question mark.
pub before_query : Text → Text
before_query u = elim (split b'?' u) [ [] ↦ [] | (p ∷ ps) ↦ p ]

pub url_ext : Text → Text
url_ext u = ext (to_lower (before_query u))

-- The extension for the downloaded file.
pub artifact_ext : Text → Option Text → Text
artifact_ext raw_url final_url =
    let e = url_ext (elim final_url [ some u ↦ u | none ↦ raw_url ]) in
    if not (text_eq e [])
    then e
    else if not (text_eq (url_ext raw_url) [])
    then url_ext raw_url
    else text ".bin"

-- The end of downloadArtifact, from the creation of the file on; `files` are the files of the
-- directory, and a file that is removed is not added.
pub store_body : World → Response → Text → ℕ → List File → List File × Result Artifact
store_body w r e limit files = elim w.temp_file [
  | none ↦ (files, err create_temp_file)
  | some name ↦
      let n = copied limit r in
      if r.breaks
      then (files, err read_artifact)
      else if ltb limit n
      then (files, err (too_large n))
      else if n == 0
      then (files, err artifact_empty)
      else (
        record { name = name; size = n } ∷ files,
        ok (record { local_path = name; extension = e; sha256 = w.sum }),
      )
]

-- downloadArtifact
pub download_artifact : World → Text → ℕ → List File → List File × Result Artifact
download_artifact w raw_url limit files = elim w.builds [
  | false ↦ (files, err build_request)
  | true ↦ elim w.response [
    | none ↦ (files, err fetch_artifact)
    | some r ↦
        if not (is_success r.status)
        then (files, err (upstream_http r.status))
        else if ltb limit (declared r)
        then (files, err (too_large (declared r)))
        else store_body w r (artifact_ext raw_url r.final_url) limit files
  ]
]

-- The downloads of resolve. `world` gives the world of a download by its number and its URL.
module _ (world : ℕ → Text → World) (limit : ℕ) where
  -- The loop over the candidates, after `n` downloads of which the last one ended with `e`.
  pub try_candidates :
      Text → ℕ → DownloadError → List Text → List File → List File × Result Artifact
  try_candidates primary n e [] files = (files, err e)
  try_candidates primary n e (c ∷ cs) files = elim (text_eq c primary) [
    | true ↦ try_candidates primary n e cs files
    | false ↦
        let (files', r) = download_artifact (world n c) c limit files in
        elim r [
          | ok a ↦ (files', ok a)
          | err f ↦ elim (is_upstream_http_error f) [
            | false ↦ (files', err f)
            | true ↦ try_candidates primary (suc n) f cs files'
          ]
        ]
  ]

  -- The download of a run's URL with its candidates.
  pub fetch : Text → List Text → List File → List File × Result Artifact
  fetch primary candidates files =
      let (files', r) = download_artifact (world 0 primary) primary limit files in
      elim r [
        | ok a ↦ (files', ok a)
        | err e ↦ elim (is_upstream_http_error e && ltb 1 (length candidates)) [
          | false ↦ (files', err e)
          | true ↦ try_candidates primary 1 e candidates files'
        ]
      ]
