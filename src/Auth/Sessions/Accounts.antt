-- ===== src/Auth/Sessions/Accounts.antt =====
-- Login after Register (service/internal/auth/auth.go).
use aifstudio.Prelude.{
  ℕ, ◌+◌, ◌≡◌, refl, ap, String, Bool, true, false, not, ◌||◌, List, ◌∷◌, none, some, is_some,
  str_eq, str_eq_refl, if◌then◌else◌, Bool-cases, inl, inr, Option-cases, ◌⊎◌,
}
use aifstudio.Text.{Text}
use aifstudio.Text.Laws.{text_eq_refl}
use aifstudio.Auth.Tables.{
  User, Session, UserRow, Tables, Error, invalid_credentials, store_error, email_taken, ok, err,
  fmt_time, find_id, find_email, find_session, scan_user, create_session, create_user,
  get_user_by_email,
}
use aifstudio.Auth.Sessions.{
  Cookie, IssueWorld, RegisterWorld, set_session_cookie, issue_session, admit, login, register,
}

pub issue_session_users :
    (max_age : ℕ) (w : IssueWorld) (uid : String) (t : Tables)
    → (issue_session max_age w uid t).0.users ≡ t.users
unfolding issue_session create_session
issue_session_users max_age w uid t = elim (Option-cases w.token) [
  | inl n ↦ rw (n, issue_session)
  | inr (sid, y) ↦
      elim (Bool-cases (
        not w.insert_answers
        || is_some (find_session sid t.sessions)
        || not (is_some (find_id uid t.users)))) [
          | inl refused ↦ rw (y, refused, issue_session)
          | inr done ↦ rw (y, done, issue_session)
        ]
]

-- A session is issued for a known user under a token that no session has.
issue_session_fresh :
    (max_age : ℕ) (w : IssueWorld) (uid sid : String) (t : Tables) {r : UserRow}
    → w.token ≡ some sid
    → w.insert_answers ≡ true
    → find_session sid t.sessions ≡ none
    → find_id uid t.users ≡ some r
    → (issue_session max_age w uid t).1
      ≡ ok (record { id = sid; user_id = uid; created_at = w.now; expires_at = w.now + max_age })
unfolding issue_session create_session
issue_session_fresh max_age w uid sid t y a f k = rw (y, a, f, k)

find_id_head : (r : UserRow) (us : List UserRow) → find_id r.id (r ∷ us) ≡ some r
unfolding find_id
find_id_head r us = rw (str_eq_refl r.id)

find_email_head : (r : UserRow) (us : List UserRow) → find_email r.email (r ∷ us) ≡ some r
unfolding find_email
find_email_head r us = rw (text_eq_refl r.email)

admitted :
    (max_age : ℕ) (w : IssueWorld) (u : User) (t : Tables) {s : Session}
    → (issue_session max_age w u.uid t).1 ≡ ok s
    → admit max_age w u t
      ≡ ((issue_session max_age w u.uid t).0, ok (u, set_session_cookie w max_age s.id))
unfolding admit
admitted max_age w u t e = rw e

-- The user that Register hands to CreateUser, with the id and time it gets there.
abbrev pub newcomer : RegisterWorld → Text → Text → User
newcomer w email name = record { uid = w.new_id; email = email; name = name; created_at = w.now }

abbrev pub applicant : Text → Text → User
applicant email name = record { uid = ""; email = email; name = name; created_at = 0 }

module _ (lower : Text → Text) where
  -- The row of a user that registers.
  abbrev pub registered : RegisterWorld → Text → Text → String → UserRow
  registered w email name hash = record {
    id = w.new_id;
    email = lower email;
    password_hash = hash;
    display_name = name;
    created_at = fmt_time w.now;
  }

  pub create_user_answer :
      (w : RegisterWorld) (email name : Text) (hash : String) (t : Tables)
      → ((error : Error) × (create_user lower w.create_answers w.new_id w.now
              (applicant email name)
              hash
              t
            ≡ (t, err error)))
        ⊎ (create_user lower w.create_answers w.new_id w.now (applicant email name) hash t ≡ (
          record t { users = registered w email name hash ∷ t.users },
          ok (newcomer w email name),
        ))
  unfolding create_user
  create_user_answer w email name hash t = elim (Bool-cases w.create_answers) [
    | inr n ↦ inl (store_error, rw n refl)
    | inl a ↦ elim (Bool-cases (is_some (find_id w.new_id t.users))) [
      | inl used ↦ inl (email_taken, rw (a, used) refl)
      | inr free ↦ elim (Bool-cases (is_some (find_email (lower email) t.users))) [
        | inl taken ↦ inl (email_taken, rw (a, free, taken) refl)
        | inr unused ↦ inr (rw (a, free, unused) refl)
      ]
    ]
  ]

module _ (lower : Text → Text) (compare : String → Text → Bool) (max_age : ℕ) where
  pub register_row :
      (w : RegisterWorld) (email name : Text) (t : Tables) {hash : String} {r : User × Cookie}
      → w.hash ≡ some hash
      → (register lower compare max_age w email name t).1 ≡ ok r
      → (register lower compare max_age w email name t).0.users
        ≡ registered lower w email name hash ∷ t.users
  unfolding register admit
  register_row w email name t {hash} y e = elim (create_user_answer lower w email name hash t) [
    | inl (error, f) ↦ absurd (cc (rw (y, ap (λ p. p.1) f, register) at e))
    | inr done ↦
        rw (y, done, ap (λ p. p.0) done, register, admit)
          (issue_session_users max_age w.issue w.new_id
            (record t { users = registered lower w email name hash ∷ t.users }))
  ]

  -- After a registration the user logs in with the email as it was given: a password that bcrypt
  -- accepts for the stored hash gets the user and a cookie with the new token, if that token is not in
  -- use and the store answers; any other password gets neither and changes nothing.
  pub login-register :
      (w : RegisterWorld) (email name password : Text) (t : Tables) {hash sid : String}
      {r : User × Cookie}
      → w.hash ≡ some hash
      → str_eq hash "" ≡ false
      → (register lower compare max_age w email name t).1 ≡ ok r
      → (v : IssueWorld) → v.token ≡ some sid
      → v.insert_answers ≡ true
      → find_session sid (register lower compare max_age w email name t).0.sessions ≡ none
      → login lower compare max_age true v email password
          (register lower compare max_age w email name t).0
        ≡ (if compare hash password
            then (
              (issue_session max_age v w.new_id
                  (register lower compare max_age w email name t).0).0,
              ok (scan_user (registered lower w email name hash), set_session_cookie v max_age sid),
            )
            else ((register lower compare max_age w email name t).0, err invalid_credentials))
  unfolding login get_user_by_email scan_user
  login-register w email name password t {hash} {sid} y full e v tok ins free =
      let after = (register lower compare max_age w email name t).0 in
      let row = registered lower w email name hash in
      let users = register_row w email name t y e in
      let by_id : find_id w.new_id after.users ≡ some row = rw users (find_id_head row t.users) in
      let by_email : find_email (lower email) after.users ≡ some row =
        rw users (find_email_head row t.users) in
      let issued = issue_session_fresh max_age v w.new_id sid after tok ins free by_id in
      elim (Bool-cases (compare hash password)) [
        | inr wrong ↦ rw (by_email, full, wrong, login, get_user_by_email)
        | inl right ↦
            rw (by_email, full, right, login, get_user_by_email)
              (admitted max_age v (scan_user row) after issued)
      ]
