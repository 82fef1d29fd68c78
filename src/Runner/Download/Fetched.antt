-- ===== src/Runner/Download/Fetched.antt =====
-- What the downloads of a run (service/internal/runner/download.go and session.go) leave behind.
use aifstudio.Prelude.{
  ℕ, suc, ◌+◌, ◌≤◌, ◌≡◌, ◌≢◌, refl, Bool, true, false, List, [], ◌∷◌, Option, none, some, arith,
  ltb, ◌==◌, min, length, All, Bool-cases, Option-cases, inl, inr, ◌⊎◌,
}
use aifstudio.Text.{Text, text_eq}
use aifstudio.Text.Laws.{text_eq_iff}
use aifstudio.Runner.Download.{
  Response, World, DownloadError, build_request, fetch_artifact, create_temp_file, read_artifact,
  artifact_empty, upstream_http, too_large, is_upstream_http_error, File, Artifact, Result, ok, err,
  is_success, declared, copied, url_ext, artifact_ext, store_body, download_artifact,
  try_candidates, fetch,
}

-- One file more than before, within the limit; or an error, and no file more.
pub data Kept (limit : ℕ) (before : List File) : List File → Result Artifact → Type 0 where
  got :
      (a : Artifact) (size : ℕ)
      → 1 ≤ size
      → size ≤ limit
      → a.extension ≢ []
      → Kept limit before (record { name = a.local_path; size = size } ∷ before) (ok a)
  failed : (e : DownloadError) → Kept limit before before (err e)

artifact_ext_nonempty : (raw : Text) (final : Option Text) → artifact_ext raw final ≢ []
unfolding artifact_ext text_eq
artifact_ext_nonempty raw final = λ e.
    let u = url_ext (elim final [ some u ↦ u | none ↦ raw ]) in
    elim (Bool-cases (text_eq u [])) [
      | inr n ↦ cc (n, (text_eq_iff u []).1 (rw (n, artifact_ext) at e))
      | inl y ↦ elim (Bool-cases (text_eq (url_ext raw) [])) [
        | inr m ↦ cc (m, (text_eq_iff (url_ext raw) []).1 (rw (y, m, artifact_ext) at e))
        | inl z ↦ cc (rw (y, z, artifact_ext) at e)
      ]
    ]

store_body-Kept :
    (w : World) (r : Response) (e : Text) (limit : ℕ) (files : List File)
    → e ≢ []
    → Kept limit files (store_body w r e limit files).0 (store_body w r e limit files).1
unfolding store_body copied
store_body-Kept w r e limit files n = elim (Option-cases w.temp_file) [
  | inl x ↦ rw (x, store_body) (failed create_temp_file)
  | inr (name, x) ↦ elim (Bool-cases r.breaks) [
    | inl b ↦ rw (x, b, store_body) (failed read_artifact)
    | inr b ↦ elim (Bool-cases (ltb limit (min r.body (limit + 1)))) [
      | inl l ↦ rw (x, b, l, store_body) (failed (too_large (min r.body (limit + 1))))
      | inr l ↦ elim (Bool-cases (min r.body (limit + 1) == 0)) [
        | inl z ↦ rw (x, b, l, z, store_body) (failed artifact_empty)
        | inr z ↦
            rw (x, b, l, z, store_body)
              (got (record { local_path = name; extension = e; sha256 = w.sum })
                (min r.body (limit + 1)) (ground arith) (ground arith) n)
      ]
    ]
  ]
]

download_artifact-Kept :
    (w : World) (url : Text) (limit : ℕ) (files : List File)
    → Kept limit files
        (download_artifact w url limit files).0
        (download_artifact w url limit files).1
unfolding download_artifact
download_artifact-Kept w url limit files = elim (Bool-cases w.builds) [
  | inr x ↦ rw (x, download_artifact) (failed build_request)
  | inl x ↦ elim (Option-cases w.response) [
    | inl y ↦ rw (x, y, download_artifact) (failed fetch_artifact)
    | inr (r, y) ↦ elim (Bool-cases (is_success r.status)) [
      | inr u ↦ rw (x, y, u, download_artifact) (failed (upstream_http r.status))
      | inl u ↦ elim (Bool-cases (ltb limit (declared r))) [
        | inl l ↦ rw (x, y, u, l, download_artifact) (failed (too_large (declared r)))
        | inr l ↦
            rw (x, y, u, l, download_artifact)
              (store_body-Kept w r (artifact_ext url r.final_url) limit files
                (artifact_ext_nonempty url r.final_url))
      ]
    ]
  ]
]

Kept-err :
    {limit : ℕ} {before after : List File} {e : DownloadError}
    → Kept limit before after (err e)
    → after ≡ before
Kept-err (failed e) = refl

Result-cases {ℓ} :
    {A : Type ℓ} (r : Result A) → ((e : DownloadError) × (r ≡ err e)) ⊎ ((a : A) × (r ≡ ok a))
Result-cases (ok a) = inr (a, refl)
Result-cases (err e) = inl (e, refl)

-- The download ended with a status of the host that is no success.
abbrev pub gives_up : {A : Type 0} → Result A → Bool
gives_up (ok a) = false
gives_up (err e) = is_upstream_http_error e

module _ (world : ℕ → Text → World) (limit : ℕ) where
  -- The URL is the primary one, or was tried and gave up.
  abbrev pub Tried : Text → List File → Text → Type 0
  Tried primary files c =
      (c ≡ primary) ⊎ ((n : ℕ) × (gives_up (download_artifact (world n c) c limit files).1 ≡ true))

  -- The outcome of the loop: what it leaves, and that it gives up only when all candidates did.
  abbrev Fetched : Text → List Text → List File → List File × Result Artifact → Type 0
  Fetched primary candidates files r =
      Kept limit files r.0 r.1 × ((gives_up r.1 ≡ false) ⊎ All (Tried primary files) candidates)

  try_candidates-Fetched :
      (primary : Text) (n : ℕ) (e : DownloadError) (candidates : List Text) (files : List File)
      → Fetched primary candidates files (try_candidates world limit primary n e candidates files)
  unfolding try_candidates
  try_candidates-Fetched primary n e [] files = (failed e, inr tt)
  try_candidates-Fetched primary n e (c ∷ cs) files = elim (Bool-cases (text_eq c primary)) [
    | inl same ↦
        let (k, t) = try_candidates-Fetched primary n e cs files in
        rw (same, try_candidates)
          (k, elim t [ inl g ↦ inl g | inr all ↦ inr (inl ((text_eq_iff c primary).0 same), all) ])
    | inr other ↦
        let kept = download_artifact-Kept (world n c) c limit files in
        elim (Result-cases (download_artifact (world n c) c limit files).1) [
          | inr (a, y) ↦ rw (other, y, try_candidates) (rw y at kept, inl refl)
          | inl (f, y) ↦
              let q : (download_artifact (world n c) c limit files).0 ≡ files =
                Kept-err (rw y at kept) in
              elim (Bool-cases (is_upstream_http_error f)) [
                | inr u ↦ rw (other, y, u, try_candidates) (rw y at kept, inl u)
                | inl u ↦
                    let (k, t) = try_candidates-Fetched primary (suc n) f cs files in
                    rw (other, y, u, q, try_candidates)
                      (k, elim t [ inl g ↦ inl g | inr all ↦ inr (inr (n, rw y u), all) ])
              ]
        ]
  ]

  -- Fetching a run's story leaves one new file of one to `limit` bytes, with an extension, or an error
  -- and no new file. It gives up on a status of the host only if there is no second candidate or each
  -- candidate is the primary URL or was tried and gave up as well.
  pub fetch-Kept :
      (primary : Text) (candidates : List Text) (files : List File)
      → Kept limit files
          (fetch world limit primary candidates files).0
          (fetch world limit primary candidates files).1
        × ((gives_up (fetch world limit primary candidates files).1 ≡ false)
            ⊎ ((length candidates ≤ 1) ⊎ All (Tried primary files) candidates))
  unfolding fetch
  fetch-Kept primary candidates files =
      let kept = download_artifact-Kept (world 0 primary) primary limit files in
      elim (Result-cases (download_artifact (world 0 primary) primary limit files).1) [
        | inr (a, y) ↦ rw (y, fetch) (rw y at kept, inl refl)
        | inl (e, y) ↦
            let q : (download_artifact (world 0 primary) primary limit files).0 ≡ files =
              Kept-err (rw y at kept) in
            elim (Bool-cases (is_upstream_http_error e)) [
              | inr u ↦ rw (y, u, fetch) (rw y at kept, inl u)
              | inl u ↦ elim (Bool-cases (ltb 1 (length candidates))) [
                | inr one ↦ rw (y, u, one, fetch) (rw y at kept, inr (inl (ground arith)))
                | inl more ↦
                    let (k, t) = try_candidates-Fetched primary 1 e candidates files in
                    rw (y, u, more, q, fetch)
                      (k, elim t [ inl g ↦ inl g | inr all ↦ inr (inr all) ])
              ]
            ]
      ]
