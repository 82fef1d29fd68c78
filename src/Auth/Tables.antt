-- ===== src/Auth/Tables.antt =====
-- The tables of users and sessions (service/internal/store/sqlite.go). A row's times are whole
-- seconds, as RFC 3339 writes them; times of the program count nanoseconds from Go's zero time. Each
-- call says whether the database answers it.
pub mod Unique
use aifstudio.Prelude.{
  ◌≡◌, refl, ◌⊎◌, inl, inr, ℕ, ◌+◌, ◌-◌, ◌*◌, ◌/◌, String, Bool, true, false, not, ◌||◌, List, [],
  ◌∷◌, ◌++◌, Option, none, some, ltb, leb, ◌==◌, str_eq, if◌then◌else◌, length, any, is_some,
}
use aifstudio.Text.{Text, text_eq}

-- User and Session of auth.go
pub record User : Type 0 where
  pub uid : String
  pub email : Text
  pub name : Text
  pub created_at : ℕ

pub record Session : Type 0 where
  pub id : String
  pub user_id : String
  pub created_at : ℕ
  pub expires_at : ℕ

pub record UserRow : Type 0 where
  pub id : String
  pub email : Text
  pub password_hash : String
  pub display_name : Text
  pub created_at : ℕ

pub record SessionRow : Type 0 where
  pub id : String
  pub user_id : String
  pub created_at : ℕ
  pub expires_at : ℕ

pub record Tables : Type 0 where
  pub users : List UserRow
  pub sessions : List SessionRow

pub data Error : Type 0 where
  email_taken store_error : Error
  no_cookie session_not_found session_expired user_not_found invalid_credentials : Error
  hash_password token bearer_unsupported : Error

pub data Result {ℓ} (A : Type ℓ) : Type ℓ where
  ok : A → Result A
  err : Error → Result A

pub Result-cases {ℓ} :
    {A : Type ℓ} (r : Result A) → ((e : Error) × (r ≡ err e)) ⊎ ((a : A) × (r ≡ ok a))
Result-cases (ok a) = inr (a, refl)
Result-cases (err e) = inl (e, refl)

abbrev pub second : ℕ
second = 1000000000

unfoldable pub fmt_time : ℕ → ℕ
fmt_time t = t / second

unfoldable pub parse_time : ℕ → ℕ
parse_time s = s * second

unfoldable pub find_id : String → List UserRow → Option UserRow
find_id uid [] = none
find_id uid (u ∷ us) = let rest = find_id uid us in if str_eq u.id uid then some u else rest

unfoldable pub find_email : Text → List UserRow → Option UserRow
find_email e [] = none
find_email e (u ∷ us) = let rest = find_email e us in if text_eq u.email e then some u else rest

unfoldable pub find_session : String → List SessionRow → Option SessionRow
find_session sid [] = none
find_session sid (s ∷ ss) =
    let rest = find_session sid ss in if str_eq s.id sid then some s else rest

unfoldable pub scan_user : UserRow → User
scan_user r = record {
  uid = r.id;
  email = r.email;
  name = r.display_name;
  created_at = parse_time r.created_at;
}

unfoldable pub scan_session : SessionRow → Session
scan_session r = record {
  id = r.id;
  user_id = r.user_id;
  created_at = parse_time r.created_at;
  expires_at = parse_time r.expires_at;
}

-- DELETE FROM sessions WHERE id = ?
unfoldable pub without_session : String → List SessionRow → List SessionRow
without_session sid [] = []
without_session sid (s ∷ ss) =
    let rest = without_session sid ss in if str_eq s.id sid then rest else s ∷ rest

-- DELETE FROM sessions WHERE expires_at <= ?
pub unexpired : ℕ → List SessionRow → List SessionRow
unexpired now [] = []
unexpired now (s ∷ ss) =
    let rest = unexpired now ss in if leb s.expires_at now then rest else s ∷ rest

-- CreateSession: refused for an id in use and for an unknown user.
unfoldable pub create_session : Bool → Session → Tables → Tables × Bool
create_session answers s t =
    let row : SessionRow = record {
      id = s.id;
      user_id = s.user_id;
      created_at = fmt_time s.created_at;
      expires_at = fmt_time s.expires_at;
    } in
    if not answers
      || is_some (find_session s.id t.sessions)
      || not (is_some (find_id s.user_id t.users))
    then (t, false)
    else (record t { sessions = row ∷ t.sessions }, true)

-- GetSession at the time `now`
unfoldable pub get_session : Bool → ℕ → String → Tables → Result (Option Session)
get_session answers now sid t =
    if answers
    then elim (find_session sid t.sessions) [
      | none ↦ ok none
      | some r ↦ if ltb (fmt_time now) r.expires_at then ok (some (scan_session r)) else ok none
    ]
    else err store_error

-- DeleteSession
unfoldable pub delete_session : Bool → String → Tables → Tables
delete_session answers sid t =
    if answers then record t { sessions = without_session sid t.sessions } else t

-- DeleteExpiredSessions, with the number of rows.
pub delete_expired_sessions : Bool → ℕ → Tables → Tables × Result ℕ
delete_expired_sessions answers now t =
    let left = unexpired (fmt_time now) t.sessions in
    if answers
    then (record t { sessions = left }, ok (length t.sessions - length left))
    else (t, err store_error)

-- GetUserByID
unfoldable pub get_user_by_id : Bool → String → Tables → Result (Option User)
get_user_by_id answers uid t =
    if answers
    then elim (find_id uid t.users) [ none ↦ ok none | some r ↦ ok (some (scan_user r)) ]
    else err store_error

-- `lower` is strings.ToLower on every letter.
module _ (lower : Text → Text) where
  -- CreateUser: `new_id` is the id made for a user without one, `now` the time for one without a time.
  -- Both a used id and a used email break a constraint that the error calls a taken email.
  unfoldable pub create_user : Bool → String → ℕ → User → String → Tables → Tables × Result User
  create_user answers new_id now u hash t =
      let v = record u {
        uid = if str_eq u.uid "" then new_id else u.uid;
        created_at = if u.created_at == 0 then now else u.created_at;
      } in
      let row : UserRow = record {
        id = v.uid;
        email = lower v.email;
        password_hash = hash;
        display_name = v.name;
        created_at = fmt_time v.created_at;
      } in
      if not answers
      then (t, err store_error)
      else if is_some (find_id v.uid t.users) || is_some (find_email (lower v.email) t.users)
      then (t, err email_taken)
      else (record t { users = row ∷ t.users }, ok v)

  -- GetUserByEmail, with the password hash.
  unfoldable pub get_user_by_email : Bool → Text → Tables → Result (Option (User × String))
  get_user_by_email answers email t =
      if answers
      then elim (find_email (lower email) t.users) [
        | none ↦ ok none
        | some r ↦ ok (some (scan_user r, r.password_hash))
      ]
      else err store_error
