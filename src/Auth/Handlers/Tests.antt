-- ===== src/Auth/Handlers/Tests.antt =====
-- A registration, a login, a logout and two requests, with their sessions
-- (service/internal/auth/auth.go and service/internal/server).
use aifstudio.Prelude.{
  ℕ, ◌+◌, ◌*◌, ◌≡◌, refl, ◌⊎◌, String, Bool, true, false, [], ◌∷◌, Option, none, some,
  if◌then◌else◌,
}
use aifstudio.Text.{
  Text, text, text_eq, has_prefix, to_lower, lower_char, trim_space, trim_left, trim_right,
  cons_trimmed, is_space,
}
use aifstudio.Auth.Tables.{
  User, Tables, invalid_credentials, ok, err, second, fmt_time, parse_time, find_id, find_email,
  find_session, scan_user, scan_session, get_session, get_user_by_id, create_session, create_user,
  get_user_by_email, delete_session, without_session, bearer_unsupported,
}
use aifstudio.Auth.Tables.Unique.{empty, fresh, next, new_user, IsTables, reachable-IsTables}
use aifstudio.Auth.Sessions.{
  Cookie, from_request, IssueWorld, RegisterWorld, verify_session_id, set_session_cookie,
  issue_session, admit, login, register, logout, clear_session_cookie, verify_token,
}
use aifstudio.Auth.Sessions.Lifetime.{asked_at}
use aifstudio.Auth.Sessions.Accounts.{registered, login-register}
use aifstudio.Auth.Handlers.{
  byte_length, RegisterRequest, trimmed_email, refusal, handle_auth_register, handle_auth_login,
  handle_auth_logout, handle_auth_me, Request, is_allowlisted, is_suspend_path, is_id_char, serve,
  refuse, write_error, session_auth_required,
}
use aifstudio.Auth.Handlers.Register.{Answer, handle_auth_register-Answer}
use aifstudio.Auth.Handlers.Gate.{Vouched, gate_vouches}

-- The hash of a password is the password.
abbrev accepts : String → Text → Bool
accepts hash password = text_eq (text hash) password

abbrev issue : String → IssueWorld
issue sid = record {
  token = some sid;
  now = 5 * second;
  insert_answers = true;
  tls = false;
  forwarded_proto = "https";
}

abbrev world : RegisterWorld
world = record {
  hash = some "password1";
  new_id = "u-1";
  now = 5 * second + 7;
  create_answers = true;
  issue = issue "s1";
}

abbrev day : ℕ
day = 86400 * second

abbrev email : Text
email = text "ann@example.org"

abbrev ann : Text
ann = text "Ann"

abbrev joined : Tables
joined = record {
  users = registered to_lower world email ann "password1" ∷ [];
  sessions = record { id = "s1"; user_id = "u-1"; created_at = 5; expires_at = 86405 } ∷ [];
}

abbrev newcomer_cookie : Cookie
newcomer_cookie = set_session_cookie (issue "s1") day "s1"

register_run : register to_lower accepts day world email ann empty ≡ (
  joined,
  ok (
    record { uid = "u-1"; email = email; name = ann; created_at = 5 * second + 7 },
    newcomer_cookie,
  ),
)
unfolding register create_user create_session issue_session admit find_id find_email find_session
    fmt_time
register_run = refl

request_run :
    (handle_auth_register to_lower
      (λ a. true)
      accepts
      day
      true
      world
      (some (record {
        email = text " ANN@example.org";
        password = text "password1";
        display_name = text "Ann ";
      }))
      empty).0
    ≡ joined
unfolding handle_auth_register refusal trimmed_email byte_length trim_space trim_left trim_right
    cons_trimmed is_space to_lower lower_char register create_user create_session issue_session
    admit find_id find_email find_session fmt_time
request_run = refl

-- A login with the right password and a wrong one, and a logout.
login_run :
    (handle_auth_login to_lower
      (λ a. true)
      accepts
      day
      true
      true
      (issue "s2")
      (some (record { email = text "ANN@example.org "; password = text "password1" }))
      joined).1.status
    ≡ 200
unfolding handle_auth_login trimmed_email trim_space trim_left trim_right cons_trimmed is_space
    to_lower lower_char login get_user_by_email admit issue_session create_session find_id
    find_email find_session text_eq scan_user
login_run = refl

login_wrong_run :
    handle_auth_login to_lower
      (λ a. true)
      accepts
      day
      true
      true
      (issue "s2")
      (some (record { email = email; password = text "password2" }))
      joined
    ≡ (joined, write_error 401 "invalid_credentials")
unfolding handle_auth_login trimmed_email trim_space trim_left trim_right cons_trimmed is_space
    to_lower lower_char login get_user_by_email find_email text_eq write_error
login_wrong_run = refl

logout_run : handle_auth_logout to_lower (λ a. true) accepts day true true (some "s1") joined ≡ (
  record joined { sessions = [] },
  record { status = 204; code = ""; user = none; cookie = some clear_session_cookie },
)
unfolding handle_auth_logout logout delete_session without_session clear_session_cookie
logout_run = refl

me_run : (handle_auth_me none).status ≡ 401
unfolding handle_auth_me write_error
me_run = refl

bearer_run : (t : String) → verify_token t ≡ err bearer_unsupported
unfolding verify_token
bearer_run t = refl

reachable-IsTables_example :
    IsTables
      (create_user to_lower true "u-1" 7
        (record { uid = ""; email = email; name = ann; created_at = 0 })
        "h"
        empty).0
reachable-IsTables_example = reachable-IsTables to_lower (
    next fresh (
      new_user true "u-1" 7 (record { uid = ""; email = email; name = ann; created_at = 0 }) "h"
        empty))

issued :
    (issue_session day (issue "s2") "u-1" joined).1
    ≡ ok (record {
      id = "s2";
      user_id = "u-1";
      created_at = 5 * second;
      expires_at = 5 * second + day;
    })
unfolding issue_session create_session find_id find_session
issued = refl

registered_fresh :
    find_session "s2" (register to_lower accepts day world email ann empty).0.sessions ≡ none
unfolding register create_user create_session issue_session admit find_id find_email find_session
registered_fresh = refl

register_ok :
    (register to_lower accepts day world email ann empty).1
    ≡ ok (
      record { uid = "u-1"; email = email; name = ann; created_at = 5 * second + 7 },
      newcomer_cookie,
    )
unfolding register create_user create_session issue_session admit find_id find_email find_session
register_ok = refl

login-register_example :
    login to_lower accepts day true
      (issue "s2")
      email
      (text "password1")
      (register to_lower accepts day world email ann empty).0
    ≡ (if accepts "password1" (text "password1")
        then (
          (issue_session day
              (issue "s2")
              "u-1"
              (register to_lower accepts day world email ann empty).0).0,
          ok (
            scan_user (registered to_lower world email ann "password1"),
            set_session_cookie (issue "s2") day "s2",
          ),
        )
        else ((register to_lower accepts day world email ann empty).0, err invalid_credentials))
login-register_example =
    login-register to_lower accepts day world email ann (text "password1") empty refl refl
      register_ok (issue "s2") refl refl registered_fresh

abbrev body : Option RegisterRequest
body = some (record { email = email; password = text "password1"; display_name = ann })

handle_auth_register-Answer_example :
    Answer to_lower
      (λ a. true)
      world
      body
      joined
      (handle_auth_register to_lower (λ a. true) accepts day true world body joined).0
      (handle_auth_register to_lower (λ a. true) accepts day true world body joined).1
handle_auth_register-Answer_example =
    handle_auth_register-Answer to_lower (λ a. true) accepts day true world body joined

abbrev runs : Request
runs = record {
  method = text "GET";
  path = text "/api/runs";
  token = "";
  session_cookie = some "s1";
}

runs_run :
    session_auth_required (asked_at (9 * second)) runs joined
    ≡ serve (some (scan_user (registered to_lower world email ann "password1")))
unfolding session_auth_required is_allowlisted has_prefix text_eq from_request verify_session_id
    get_session find_session fmt_time scan_session parse_time get_user_by_id find_id
runs_run = refl

suspend_path_run : is_suspend_path (text "/api/runs/r-0123456789ABCDEFGHJKMNPQRS/suspend") ≡ true
unfolding is_suspend_path is_id_char has_prefix text_eq
suspend_path_run = refl

gate_vouches_example :
    ((is_allowlisted runs ≡ true)
      × (session_auth_required (asked_at (9 * second)) runs joined ≡ serve none))
    ⊎ ((is_allowlisted runs ≡ false)
        × (((u : User) × (session_auth_required (asked_at (9 * second)) runs joined
                ≡ serve (some u))
              × Vouched (asked_at (9 * second)) runs.session_cookie joined u)
            ⊎ (session_auth_required (asked_at (9 * second)) runs joined
                ≡ refuse (write_error 401 "auth_required"))))
gate_vouches_example = gate_vouches (asked_at (9 * second)) runs joined
