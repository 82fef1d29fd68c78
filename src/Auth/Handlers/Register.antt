-- ===== src/Auth/Handlers/Register.antt =====
-- What handleAuthRegister (service/internal/server/handlers_auth.go) answers and leaves behind.
use aifstudio.Prelude.{
  ℕ, ◌≤◌, ◌≡◌, ◌≢◌, refl, ap, ◌⊎◌, inl, inr, String, Bool, true, false, [], ◌∷◌, Option, none, some,
  arith, is_some, In, here, there, Option-cases,
}
use aifstudio.Text.{Text, trim_space}
use aifstudio.Auth.Tables.{User, Tables, Error, email_taken, ok, err, Result-cases}
use aifstudio.Auth.Sessions.{Cookie, IssueWorld, RegisterWorld, issue_session, admit, register}
use aifstudio.Auth.Sessions.Accounts.{
  registered, newcomer, create_user_answer, issue_session_users, register_row,
}
use aifstudio.Auth.Handlers.{
  byte_length, Response, write_error, RegisterRequest, trimmed_email, refusal, register_error,
  handle_auth_register,
}

issue_session_error :
    (max_age : ℕ) (w : IssueWorld) (uid : String) (t : Tables)
    → (issue_session max_age w uid t).1 ≢ err email_taken
unfolding issue_session
issue_session_error max_age w uid t = λ e. elim (Option-cases w.token) [
  | inl n ↦ ground (arith, n)
  | inr (sid, y) ↦ ground (arith, y)
]

-- The tables hold the new user, in front of the former ones.
abbrev pub HasJoined : (Text → Text) → RegisterWorld → Text → Text → Tables → Tables → Type 0
HasJoined lower w email name t t' =
    (hash : String) × (w.hash ≡ some hash)
    × (t'.users ≡ registered lower w email name hash ∷ t.users)

module _ (lower : Text → Text) (compare : String → Text → Bool) (max_age : ℕ) where
  admit_error :
      (w : IssueWorld) (u : User) (t : Tables) {e : Error}
      → (admit max_age w u t).1 ≡ err e
      → e ≢ email_taken
  unfolding admit
  admit_error w u t {e} q = λ same. elim (Result-cases (issue_session max_age w u.uid t).1) [
    | inl (x, y) ↦ issue_session_error max_age w u.uid t (cc (rw (y, admit) at q))
    | inr (s, y) ↦ cc (rw (y, admit) at q)
  ]

  admit_users : (w : IssueWorld) (u : User) (t : Tables) → (admit max_age w u t).0.users ≡ t.users
  unfolding admit
  admit_users w u t = issue_session_users max_age w u.uid t

  register_fails :
      (w : RegisterWorld) (email name : Text) (t : Tables) {e : Error}
      → (register lower compare max_age w email name t).1 ≡ err e
      → ((register lower compare max_age w email name t).0 ≡ t)
        ⊎ ((e ≢ email_taken)
            × HasJoined lower w email name t (register lower compare max_age w email name t).0)
  unfolding register
  register_fails w email name t {e} q = elim (Option-cases w.hash) [
    | inl n ↦ inl (rw (n, register) refl)
    | inr (hash, y) ↦ elim (create_user_answer lower w email name hash t) [
      | inl (error, f) ↦ inl (rw (y, f, ap (λ p. p.0) f, register) refl)
      | inr done ↦ inr (
        admit_error w.issue (newcomer w email name) _
            (rw (y, done, ap (λ p. p.0) done, register) at q),
        (
          hash,
          y,
          rw (y, done, ap (λ p. p.0) done, register)
              (admit_users w.issue (newcomer w email name) _),
        ),
      )
    ]
  ]

module _ (lower : Text → Text) (compare : String → Text → Bool) (max_age : ℕ) where
  register_joins :
      (w : RegisterWorld) (email name : Text) (t : Tables) {r : User × Cookie}
      → (register lower compare max_age w email name t).1 ≡ ok r
      → HasJoined lower w email name t (register lower compare max_age w email name t).0
  unfolding register
  register_joins w email name t y = elim (Option-cases w.hash) [
    | inl n ↦ absurd (cc (rw (n, register) at y))
    | inr (hash, h) ↦ (hash, h, register_row lower compare max_age w email name t h y)
  ]

-- A request that passes the checks.
pub record IsValid (parse_address : Text → Bool) (email name password : Text) : Type 0 where
  pub email_length : (1 ≤ byte_length email) × (byte_length email ≤ 254)
  pub address : parse_address email ≡ true
  pub password_length : (8 ≤ byte_length password) × (byte_length password ≤ 128)
  pub name_length : (1 ≤ byte_length name) × (byte_length name ≤ 80)

module _ (lower : Text → Text) (parse_address : Text → Bool) where
  refusal-IsValid :
      (r : RegisterRequest)
      → refusal lower parse_address r ≡ none
      → IsValid parse_address (trimmed_email lower r.email) (trim_space r.display_name) r.password
  unfolding refusal
  refusal-IsValid r e = record {
    email_length = ground arith;
    address = ground arith;
    password_length = ground arith;
    name_length = ground arith;
  }

  refusal_answer :
      (r : RegisterRequest) {a : Response}
      → refusal lower parse_address r ≡ some a
      → (a.status ≡ 400) × (a.cookie ≡ none)
  unfolding refusal write_error
  refusal_answer r e = (ground arith, ground arith)

-- What a registration comes to.
pub data Answer (lower : Text → Text) (parse_address : Text → Bool) (w : RegisterWorld)
    (body : Option RegisterRequest) (t t' : Tables) (a : Response) : Type 0 where
  created :
      (r : RegisterRequest)
      → body ≡ some r
      → IsValid parse_address (trimmed_email lower r.email) (trim_space r.display_name) r.password
      → HasJoined lower w (trimmed_email lower r.email) (trim_space r.display_name) t t'
      → a.status ≡ 201
      → is_some a.cookie ≡ true
      → Answer lower parse_address w body t t' a
  refused :
      t' ≡ t
      → In a.status (400 ∷ 409 ∷ 500 ∷ 503 ∷ [])
      → a.cookie ≡ none
      → Answer lower parse_address w body t t' a
  no_session :
      (r : RegisterRequest)
      → body ≡ some r
      → HasJoined lower w (trimmed_email lower r.email) (trim_space r.display_name) t t'
      → a.status ≡ 500
      → a.cookie ≡ none
      → Answer lower parse_address w body t t' a

register_error_status :
    (e : Error)
    → In (register_error e).status (400 ∷ 409 ∷ 500 ∷ 503 ∷ []) × ((register_error e).cookie ≡ none)
unfolding register_error write_error
register_error_status email_taken = (there here, refl)
register_error_status _ = (there (there here), refl)

register_error_other : (e : Error) → e ≢ email_taken → (register_error e).status ≡ 500
unfolding register_error write_error
register_error_other email_taken n = absurd (n refl)
register_error_other _ n = refl

module _ (lower : Text → Text) (parse_address : Text → Bool) (compare : String → Text → Bool)
    (max_age : ℕ) where
  -- handleAuthRegister answers 201 with a cookie only to a request that is valid after trimming, and
  -- then the new user's row is in front of the former ones. Every other answer is 400, 409, 500 or 503
  -- without a cookie, and leaves the tables as they were, except that a 500 may leave the new user's
  -- row behind when its session could not be issued.
  pub handle_auth_register-Answer :
      (configured : Bool) (w : RegisterWorld) (body : Option RegisterRequest) (t : Tables)
      → Answer lower parse_address w body t
          (handle_auth_register lower parse_address compare max_age configured w body t).0
          (handle_auth_register lower parse_address compare max_age configured w body t).1
  unfolding handle_auth_register write_error
  handle_auth_register-Answer false w body t = refused refl (there (there (there here))) refl
  handle_auth_register-Answer true w none t = refused refl here refl
  handle_auth_register-Answer true w (some r) t =
      let email = trimmed_email lower r.email in
      let name = trim_space r.display_name in
      elim (Option-cases (refusal lower parse_address r)) [
        | inr (a, y) ↦
            let (s, c) = refusal_answer lower parse_address r y in
            rw (y, handle_auth_register) (refused refl (rw s here) c)
        | inl n ↦ elim (Result-cases (register lower compare max_age w email name t).1) [
          | inr ((u, c), y) ↦
              let (hash, h, users) = register_joins lower compare max_age w email name t y in
              rw (n, y, handle_auth_register)
                (created r refl (refusal-IsValid lower parse_address r n) (hash, h, users) refl
                  refl)
          | inl (e, y) ↦ elim (register_fails lower compare max_age w email name t y) [
            | inl same ↦
                let (s, c) = register_error_status e in
                rw (n, y, handle_auth_register) (refused same s c)
            | inr (other, joined) ↦
                rw (n, y, handle_auth_register)
                  (no_session r refl joined (register_error_other e other)
                    (register_error_status e).1)
          ]
        ]
      ]
