-- ===== src/Auth/Sessions/Lifetime.antt =====
-- How long a session of SessionAuth (service/internal/auth/auth.go) is accepted.
use aifstudio.Prelude.{
  ℕ, ◌+◌, ◌*◌, ◌/◌, ◌≡◌, refl, String, Bool, true, false, List, [], ◌∷◌, none, some, arith, is_some,
  ltb, str_eq_refl, if◌then◌else◌, Bool-cases, inl, inr, Option-cases,
}
use aifstudio.Auth.Tables.{
  Session, UserRow, SessionRow, Tables, session_not_found, store_error, ok, err, second, fmt_time,
  parse_time, find_id, find_session, scan_user, scan_session, without_session, create_session,
  get_session, delete_session, get_user_by_id,
}
use aifstudio.Auth.Sessions.{VerifyWorld, IssueWorld, verify_session_id, issue_session, logout}

-- A session that was created is in the table, for a user that is.
pub created :
    (answers : Bool) (s : Session) (t : Tables)
    → (create_session answers s t).1 ≡ true
    → (r : UserRow) × (find_id s.user_id t.users ≡ some r)
      × ((create_session answers s t).0.users ≡ t.users)
      × (find_session s.id (create_session answers s t).0.sessions
          ≡ some (record {
            id = s.id;
            user_id = s.user_id;
            created_at = fmt_time s.created_at;
            expires_at = fmt_time s.expires_at;
          }))
unfolding create_session find_session
created false s t e = absurd (cc)
created true s t e = elim (Bool-cases (is_some (find_session s.id t.sessions))) [
  | inl used ↦ absurd (cc (rw (used) at e))
  | inr unused ↦ elim (Option-cases (find_id s.user_id t.users)) [
    | inl n ↦ absurd (cc (rw (unused, n) at e))
    | inr (r, y) ↦ (r, y, rw (unused, y) refl, rw (unused, y, str_eq_refl s.id) refl)
  ]
]

before_expiry :
    (now expires : ℕ) → ltb (now / second) expires ≡ true → ltb (expires * second) now ≡ false
before_expiry now expires h = ground arith

abbrev pub asked_at : ℕ → VerifyWorld
asked_at now = record {
  session_answers = true;
  user_answers = true;
  queried_at = now;
  checked_at = now;
}

verify_row :
    (now : ℕ) (sid : String) (t : Tables) (row : SessionRow) (user : UserRow)
    → find_session sid t.sessions ≡ some row
    → find_id row.user_id t.users ≡ some user
    → (verify_session_id (asked_at now) sid t).0
      ≡ (if ltb (now / second) row.expires_at then ok (scan_user user) else err session_not_found)
unfolding verify_session_id get_session get_user_by_id fmt_time parse_time scan_session
verify_row now sid t row user f u = elim (Bool-cases (ltb (now / second) row.expires_at)) [
  | inr late ↦ rw (f, late, get_session, verify_session_id)
  | inl early ↦ rw (
    f,
    early,
    get_session,
    verify_session_id,
    before_expiry now row.expires_at early,
    u,
    get_user_by_id,
  )
]

-- What an issued session leaves in the tables.
pub record Issued (max_age : ℕ) (w : IssueWorld) (uid : String) (t : Tables) (s : Session)
    : Type 0 where
  pub row : SessionRow
  pub user : UserRow
  pub known : find_id uid (issue_session max_age w uid t).0.users ≡ some user
  pub before : find_id uid t.users ≡ some user
  pub found : find_session s.id (issue_session max_age w uid t).0.sessions ≡ some row
  pub owner : row.user_id ≡ uid
  pub until : row.expires_at ≡ fmt_time (w.now + max_age)

ok_eq {ℓ} : {A : Type ℓ} {a b : A} → ok a ≡ ok b → a ≡ b
ok_eq e = cc

issue_session-Issued :
    (max_age : ℕ) (w : IssueWorld) (uid : String) (t : Tables) (s : Session)
    → (issue_session max_age w uid t).1 ≡ ok s
    → Issued max_age w uid t s
unfolding issue_session
issue_session-Issued max_age w uid t s e = elim (Option-cases w.token) [
  | inl n ↦ absurd (cc (rw n at e))
  | inr (sid, y) ↦
      let made : Session = record {
        id = sid;
        user_id = uid;
        created_at = w.now;
        expires_at = w.now + max_age;
      } in
      let f = rw y at e in
      elim (Bool-cases (create_session w.insert_answers made t).1) [
        | inr refused ↦ absurd (cc (rw refused at f))
        | inl inserted ↦
            let (r, known, same, found) = created w.insert_answers made t inserted in
            let q : made ≡ s = ok_eq (rw inserted at f) in
            rw (← q) (record {
              row = record {
                id = sid;
                user_id = uid;
                created_at = fmt_time w.now;
                expires_at = fmt_time (w.now + max_age);
              };
              user = r;
              known = rw (y, same) known;
              before = known;
              found = rw y found;
              owner = refl;
              until = refl;
            })
      ]
]

-- A session that was issued is accepted at one instant, with its user, exactly if the whole second of
-- that instant lies before the one of its expiry.
pub verify-issue_session :
    (max_age : ℕ) (w : IssueWorld) (uid : String) (t : Tables) {s : Session}
    → (issue_session max_age w uid t).1 ≡ ok s
    → (now : ℕ)
    → (r : UserRow) × (find_id uid t.users ≡ some r)
      × ((verify_session_id (asked_at now) s.id (issue_session max_age w uid t).0).0 ≡ (
          if ltb (now / second) ((w.now + max_age) / second)
          then ok (scan_user r)
          else err session_not_found))
unfolding fmt_time
verify-issue_session max_age w uid t {s} e now =
    let i = issue_session-Issued max_age w uid t s e in
    let after = (issue_session max_age w uid t).0 in
    let known : find_id i.row.user_id after.users ≡ some i.user = rw i.owner i.known in
    (i.user, i.before, rw (← i.until) (verify_row now s.id after i.row i.user i.found known))

find_session-without_session :
    (sid : String) (ss : List SessionRow) → find_session sid (without_session sid ss) ≡ none
unfolding find_session without_session
find_session-without_session sid [] = refl
find_session-without_session sid (s ∷ ss) = ground (arith, find_session-without_session sid ss)

-- Once a logout's delete is answered, the session gives no user at any time, whatever the tables held
-- before; the check starts no deletion.
pub verify-logout :
    (w : VerifyWorld) (sid : String) (t : Tables)
    → verify_session_id w sid (logout true (some sid) t).0
      ≡ (if w.session_answers then err session_not_found else err store_error, none)
unfolding verify_session_id get_session logout delete_session
verify-logout w sid t = elim (Bool-cases w.session_answers) [
  | inl y ↦ rw (y, find_session-without_session sid t.sessions, get_session, verify_session_id)
  | inr n ↦ rw (n, get_session, verify_session_id)
]
