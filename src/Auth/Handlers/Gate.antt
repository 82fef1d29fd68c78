-- ===== src/Auth/Handlers/Gate.antt =====
-- Which requests sessionAuthRequired (service/internal/server/middleware.go) lets through.
use aifstudio.Prelude.{
  ◌/◌, ◌<◌, ◌≡◌, refl, ◌⊎◌, inl, inr, String, Bool, true, false, Option, none, some, arith,
  if◌then◌else◌, Bool-cases, Option-cases,
}
use aifstudio.Text.{text, has_prefix}
use aifstudio.Auth.Tables.{
  User, UserRow, SessionRow, Tables, ok, Result-cases, second, fmt_time, find_id, find_session,
  scan_user, scan_session, get_session, get_user_by_id,
}
use aifstudio.Auth.Sessions.{VerifyWorld, from_request, verify_session_id, verify_token}
use aifstudio.Auth.Handlers.{
  write_error, Request, is_allowlisted, serve, refuse, user_of, session_auth_required,
}

-- The session and the user that stand behind an accepted cookie.
pub record Vouched (w : VerifyWorld) (cookie : Option String) (t : Tables) (u : User) : Type 0 where
  pub sid : String
  pub session : SessionRow
  pub user : UserRow
  pub sent : cookie ≡ some sid
  pub stored : find_session sid t.sessions ≡ some session
  pub unexpired : w.queried_at / second < session.expires_at
  pub known : find_id session.user_id t.users ≡ some user
  pub same : u ≡ scan_user user

verify-Vouched :
    (w : VerifyWorld) (sid : String) (t : Tables) {u : User}
    → (verify_session_id w sid t).0 ≡ ok u
    → Vouched w (some sid) t u
unfolding verify_session_id get_session get_user_by_id scan_session fmt_time
verify-Vouched w sid t {u} e = elim (Option-cases (find_session sid t.sessions)) [
  | inl n ↦ ground (arith, n)
  | inr (s, y) ↦ elim (Option-cases (find_id s.user_id t.users)) [
    | inl n ↦ ground (arith, y, n)
    | inr (r, k) ↦ record {
      sid = sid;
      session = s;
      user = r;
      sent = refl;
      stored = y;
      unexpired = ground (arith, y);
      known = k;
      same = ground (arith, y, k);
    }
  ]
]

from_request-Vouched :
    (w : VerifyWorld) (cookie : Option String) (t : Tables) {u : User}
    → (from_request w cookie t).0 ≡ ok u
    → Vouched w cookie t u
unfolding from_request
from_request-Vouched w none t e = absurd (cc)
from_request-Vouched w (some sid) t e = verify-Vouched w sid t e

by_token_none : (b : Bool) (t : String) → (if b then user_of (verify_token t) else none) ≡ none
unfolding user_of verify_token
by_token_none true t = refl
by_token_none false t = refl

unlisted_api : (r : Request) → is_allowlisted r ≡ false → has_prefix r.path (text "/api/") ≡ true
unfolding is_allowlisted
unlisted_api r e = ground arith

-- The passage of a request that is not on the list.
gate_unlisted :
    (w : VerifyWorld) (r : Request) (t : Tables)
    → is_allowlisted r ≡ false
    → ((u : User) × (session_auth_required w r t ≡ serve (some u)) × Vouched w r.session_cookie t u)
      ⊎ (session_auth_required w r t ≡ refuse (write_error 401 "auth_required"))
unfolding session_auth_required
gate_unlisted w r t n = elim (Result-cases (from_request w r.session_cookie t).0) [
  | inr (u, y) ↦ inl (
    u,
    rw (n, by_token_none _ r.token, y, session_auth_required) refl,
    from_request-Vouched w r.session_cookie t y,
  )
  | inl (e, y) ↦
      inr (rw (n, by_token_none _ r.token, y, unlisted_api r n, session_auth_required) refl)
]

-- A request that is not on the list of open ones is served only with the user of an unexpired stored
-- session that its cookie names, and refused with 401 otherwise; one on the list is served without a
-- user. No request is redirected to the login page, whatever its token parameter.
pub gate_vouches :
    (w : VerifyWorld) (r : Request) (t : Tables)
    → ((is_allowlisted r ≡ true) × (session_auth_required w r t ≡ serve none))
      ⊎ ((is_allowlisted r ≡ false)
          × (((u : User) × (session_auth_required w r t ≡ serve (some u))
                × Vouched w r.session_cookie t u)
              ⊎ (session_auth_required w r t ≡ refuse (write_error 401 "auth_required"))))
unfolding session_auth_required
gate_vouches w r t = elim (Bool-cases (is_allowlisted r)) [
  | inl y ↦ inl (y, rw y refl)
  | inr n ↦ inr (n, gate_unlisted w r t n)
]
