-- ===== src/Auth/Handlers.antt =====
-- The handlers of service/internal/server/handlers_auth.go, and sessionAuthRequired with isAllowlisted
-- of service/internal/server/middleware.go.
pub mod Register
pub mod Gate
mod Tests
use aifstudio.Prelude.{
  ℕ, ◌+◌, String, Bool, true, false, not, ◌||◌, ◌&&◌, List, [], ◌∷◌, Option, none, some, ltb, ◌==◌,
  str_eq, leb, length, take, drop, any, if◌then◌else◌,
}
use aifstudio.Text.{Text, text, text_eq, has_prefix, trim_space}
use aifstudio.Auth.Tables.{User, Tables, Error, email_taken, Result, ok, err}
use aifstudio.Auth.Sessions.{
  Cookie, VerifyWorld, IssueWorld, RegisterWorld, from_request, verify_token, login, register,
  logout,
}

-- len of a string: its bytes in UTF-8.
unfoldable pub byte_length : Text → ℕ
byte_length [] = 0
byte_length (c ∷ s) =
    (if ltb c 0x80 then 1 else if ltb c 0x800 then 2 else if ltb c 0x10000 then 3 else 4)
    + byte_length s

pub record Response : Type 0 where
  pub status : ℕ
  pub code : String
  pub user : Option User
  pub cookie : Option Cookie

-- writeError
pub write_error : ℕ → String → Response
write_error status code = record { status = status; code = code; user = none; cookie = none }

pub record RegisterRequest : Type 0 where
  pub email : Text
  pub password : Text
  pub display_name : Text

pub record LoginRequest : Type 0 where
  pub email : Text
  pub password : Text

-- `lower` is strings.ToLower, `parse_address` whether mail.ParseAddress accepts a text, and `compare`
-- bcrypt's comparison; `configured` says that the server has a SessionAuth.
module _ (lower : Text → Text) where
  pub trimmed_email : Text → Text
  trimmed_email e = trim_space (lower e)

module _ (lower : Text → Text) (parse_address : Text → Bool) where
  -- The checks of handleAuthRegister: the response for the first one that fails.
  pub refusal : RegisterRequest → Option Response
  refusal r =
      let email = trimmed_email lower r.email in
      let name = trim_space r.display_name in
      if byte_length email == 0 || ltb 254 (byte_length email)
      then some (write_error 400 "invalid_email")
      else if not (parse_address email)
      then some (write_error 400 "invalid_email")
      else if ltb (byte_length r.password) 8 || ltb 128 (byte_length r.password)
      then some (write_error 400 "invalid_password")
      else if byte_length name == 0 || ltb 80 (byte_length name)
      then some (write_error 400 "invalid_display_name")
      else none

-- What handleAuthRegister answers to an error of Register.
pub register_error : Error → Response
register_error email_taken = write_error 409 "email_taken"
register_error _ = write_error 500 "internal"

module _ (lower : Text → Text) (parse_address : Text → Bool) (compare : String → Text → Bool)
    (max_age : ℕ) (configured : Bool) where
  -- handleAuthRegister, with the decoded body.
  pub handle_auth_register : RegisterWorld → Option RegisterRequest → Tables → Tables × Response
  handle_auth_register w body t = elim configured [
    | false ↦ (t, write_error 503 "auth_unavailable")
    | true ↦ elim body [
      | none ↦ (t, write_error 400 "invalid_body")
      | some r ↦ elim (refusal lower parse_address r) [
        | some refused ↦ (t, refused)
        | none ↦
            let (t', result) =
              register lower compare max_age w (trimmed_email lower r.email)
                (trim_space r.display_name) t in
            elim result [
              | err e ↦ (t', register_error e)
              | ok (u, c) ↦ (t', record { status = 201; code = ""; user = some u; cookie = some c })
            ]
      ]
    ]
  ]

  -- handleAuthLogin
  pub handle_auth_login : Bool → IssueWorld → Option LoginRequest → Tables → Tables × Response
  handle_auth_login answers w body t = elim configured [
    | false ↦ (t, write_error 503 "auth_unavailable")
    | true ↦ elim body [
      | none ↦ (t, write_error 400 "invalid_body")
      | some r ↦
          let (t', result) =
            login lower compare max_age answers w (trimmed_email lower r.email) r.password t in
          elim result [
            | err e ↦ (t', write_error 401 "invalid_credentials")
            | ok (u, c) ↦ (t', record { status = 200; code = ""; user = some u; cookie = some c })
          ]
    ]
  ]

  -- handleAuthLogout
  pub handle_auth_logout : Bool → Option String → Tables → Tables × Response
  handle_auth_logout answers cookie t = elim configured [
    | false ↦ (t, record { status = 204; code = ""; user = none; cookie = none })
    | true ↦
        let (t', c) = logout answers cookie t in
        (t', record { status = 204; code = ""; user = none; cookie = some c })
  ]

-- handleAuthMe, with the user of the request's context.
pub handle_auth_me : Option User → Response
handle_auth_me none = write_error 401 "auth_required"
handle_auth_me (some u) = record { status = 200; code = ""; user = some u; cookie = none }

-- What the gate reads of a request; `token` is the query's parameter, empty without one.
pub record Request : Type 0 where
  pub method : Text
  pub path : Text
  pub token : String
  pub session_cookie : Option String

-- suspendPathRE
pub is_id_char : ℕ → Bool
is_id_char c = (leb b'0' c && leb c b'9') || (leb b'A' c && leb c b'Z')

pub is_suspend_path : Text → Bool
is_suspend_path path =
    let rest = drop (length (text "/api/runs/r-")) path in
    has_prefix path (text "/api/runs/r-")
    && leb 26 (length rest)
    && not (any (λ c. not (is_id_char c)) (take 26 rest))
    && text_eq (drop 26 rest) (text "/suspend")

-- isAllowlisted
pub is_allowlisted : Request → Bool
is_allowlisted r =
    if not (has_prefix r.path (text "/api/"))
    then true
    else if text_eq r.path (text "/api/auth/register") || text_eq r.path (text "/api/auth/login")
    then text_eq r.method (text "POST")
    else false

-- What the gate does with a request: on to the next handler with the user of its context, an error, or
-- a redirection to the login page.
pub data Passage : Type 0 where
  serve : Option User → Passage
  refuse : Response → Passage
  redirect : Passage

pub user_of : Result User → Option User
user_of (ok u) = some u
user_of (err e) = none

-- sessionAuthRequired with a SessionAuth.
pub session_auth_required : VerifyWorld → Request → Tables → Passage
session_auth_required w r t =
    let sent =
      text_eq r.method (text "POST") && is_suspend_path r.path && not (str_eq r.token "") in
    let by_token = if sent then user_of (verify_token r.token) else none in
    if is_allowlisted r then serve none else elim by_token [
      | some u ↦ serve (some u)
      | none ↦ elim (from_request w r.session_cookie t).0 [
        | ok u ↦ serve (some u)
        | err _ ↦
            if has_prefix r.path (text "/api/")
            then refuse (write_error 401 "auth_required")
            else redirect
      ]
    ]
