-- ===== src/Auth/Sessions.antt =====
-- SessionAuth (service/internal/auth/auth.go) over the tables. bcrypt is `compare` of a hash with a
-- password, and the hash that it makes is part of a registration's world.
pub mod Lifetime
pub mod Accounts
use aifstudio.Prelude.{
  ℕ, ◌+◌, ◌/◌, String, Bool, true, false, not, ◌||◌, ◌&&◌, Option, none, some, ltb, str_eq,
  if◌then◌else◌,
}
use aifstudio.Text.{Text}
use aifstudio.Auth.Tables.{
  User, Session, Tables, Error, email_taken, store_error, no_cookie, session_not_found,
  session_expired, user_not_found, invalid_credentials, hash_password, token, bearer_unsupported,
  Result, ok, err, second, create_session, get_session, delete_session, get_user_by_id, create_user,
  get_user_by_email,
}

-- The cookie "aifstudio_session"; `none` is a maximal age of -1.
pub record Cookie : Type 0 where
  pub value : String
  pub path : String
  pub http_only : Bool
  pub same_site_strict : Bool
  pub max_age : Option ℕ
  pub secure : Bool

-- What a check of a session finds: whether the two queries are answered, and the time of the first
-- one and of the check behind it.
pub record VerifyWorld : Type 0 where
  pub session_answers : Bool
  pub user_answers : Bool
  pub queried_at : ℕ
  pub checked_at : ℕ

-- What issuing a session finds: the random token, the time, whether the insert is answered, and how
-- the request came.
pub record IssueWorld : Type 0 where
  pub token : Option String
  pub now : ℕ
  pub insert_answers : Bool
  pub tls : Bool
  pub forwarded_proto : String

pub record RegisterWorld : Type 0 where
  pub hash : Option String
  pub new_id : String
  pub now : ℕ
  pub create_answers : Bool
  pub issue : IssueWorld

-- verifySessionID: the user or the error, and the session that is deleted in the background.
unfoldable pub verify_session_id : VerifyWorld → String → Tables → Result User × Option String
verify_session_id w sid t = elim (get_session w.session_answers w.queried_at sid t) [
  | err e ↦ (err store_error, none)
  | ok none ↦ (err session_not_found, none)
  | ok (some s) ↦ elim (ltb s.expires_at w.checked_at) [
    | true ↦ (err session_expired, some s.id)
    | false ↦ elim (get_user_by_id w.user_answers s.user_id t) [
      | err e ↦ (err store_error, none)
      | ok none ↦ (err user_not_found, none)
      | ok (some u) ↦ (ok u, none)
    ]
  ]
]

-- FromRequest, with the value of the request's cookie.
unfoldable pub from_request : VerifyWorld → Option String → Tables → Result User × Option String
from_request w none t = (err no_cookie, none)
from_request w (some sid) t = verify_session_id w sid t

-- VerifyToken
unfoldable pub verify_token : String → Result User
verify_token t = err bearer_unsupported

-- setSessionCookie
pub set_session_cookie : IssueWorld → ℕ → String → Cookie
set_session_cookie w max_age sid = record {
  value = sid;
  path = "/";
  http_only = true;
  same_site_strict = true;
  max_age = some (max_age / second);
  secure = w.tls || str_eq w.forwarded_proto "https";
}

-- clearSessionCookie
unfoldable pub clear_session_cookie : Cookie
clear_session_cookie = record {
  value = "";
  path = "/";
  http_only = true;
  same_site_strict = true;
  max_age = none;
  secure = false;
}

-- SessionAuth.createSession
unfoldable pub issue_session : ℕ → IssueWorld → String → Tables → Tables × Result Session
issue_session max_age w uid t = elim w.token [
  | none ↦ (t, err token)
  | some sid ↦
      let s : Session = record {
        id = sid;
        user_id = uid;
        created_at = w.now;
        expires_at = w.now + max_age;
      } in
      let (t', inserted) = create_session w.insert_answers s t in
      (t', if inserted then ok s else err store_error)
]

-- The end that Login and Register share.
unfoldable pub admit : ℕ → IssueWorld → User → Tables → Tables × Result (User × Cookie)
admit max_age w u t =
    let (t', r) = issue_session max_age w u.uid t in
    (t', elim r [ err e ↦ err e | ok s ↦ ok (u, set_session_cookie w max_age s.id) ])

abbrev pub dummy_hash : String
dummy_hash = "$2a$12$XXXXXXXXXXXXXXXXXXXXXXXXXXXXXXXXXXXXXXXXXXXXXXXXXXXXXXXXXXXXX"

-- `lower` is strings.ToLower, and `compare` whether bcrypt accepts the password for the hash.
module _ (lower : Text → Text) (compare : String → Text → Bool) (max_age : ℕ) where
  -- Login
  unfoldable pub login : Bool → IssueWorld → Text → Text → Tables → Tables × Result (User × Cookie)
  login answers w email password t = elim (get_user_by_email lower answers email t) [
    | err e ↦ (t, err store_error)
    | ok none ↦ (t, err invalid_credentials)
    | ok (some (u, hash)) ↦ elim (compare (if str_eq hash "" then dummy_hash else hash) password) [
      | false ↦ (t, err invalid_credentials)
      | true ↦ admit max_age w u t
    ]
  ]

  -- Register
  unfoldable pub register : RegisterWorld → Text → Text → Tables → Tables × Result (User × Cookie)
  register w email display_name t = elim w.hash [
    | none ↦ (t, err hash_password)
    | some hash ↦
        let u : User = record { uid = ""; email = email; name = display_name; created_at = 0 } in
        let (t', r) = create_user lower w.create_answers w.new_id w.now u hash t in
        elim r [ err e ↦ (t', err e) | ok v ↦ admit max_age w.issue v t' ]
  ]

-- Logout
unfoldable pub logout : Bool → Option String → Tables → Tables × Cookie
logout answers none t = (t, clear_session_cookie)
logout answers (some sid) t = (delete_session answers sid t, clear_session_cookie)
