-- ===== src/Auth/Tables/Unique.antt =====
-- The constraints of the tables of users and sessions (service/internal/store/sqlite.go).
use aifstudio.Prelude.{
  ℕ, ◌≡◌, refl, String, Bool, true, false, List, [], ◌∷◌, Option, none, some, arith, All, is_some,
  leb, str_eq, if◌then◌else◌, Bool-cases, inl, inr,
}
use aifstudio.Text.{Text}
use aifstudio.Auth.Tables.{
  User, Session, UserRow, SessionRow, Tables, fmt_time, find_id, find_email, find_session,
  without_session, unexpired, create_session, delete_session, delete_expired_sessions, create_user,
}

abbrev pub OnceId : List UserRow → Type 0
OnceId [] = Unit
OnceId (u ∷ us) = (find_id u.id us ≡ none) × OnceId us

abbrev pub OnceEmail : List UserRow → Type 0
OnceEmail [] = Unit
OnceEmail (u ∷ us) = (find_email u.email us ≡ none) × OnceEmail us

abbrev pub OnceSession : List SessionRow → Type 0
OnceSession [] = Unit
OnceSession (s ∷ ss) = (find_session s.id ss ≡ none) × OnceSession ss

-- The session's user has a row.
abbrev pub Owned : List UserRow → SessionRow → Type 0
Owned us s = is_some (find_id s.user_id us) ≡ true

pub record IsTables (t : Tables) : Type 0 where
  pub ids : OnceId t.users
  pub emails : OnceEmail t.users
  pub sessions : OnceSession t.sessions
  pub owned : All (Owned t.users) t.sessions

abbrev pub empty : Tables
empty = record { users = []; sessions = [] }

module _ (lower : Text → Text) where
  pub data Change : Tables → Tables → Type 0 where
    new_user :
        (answers : Bool) (new_id : String) (now : ℕ) (u : User) (hash : String) (t : Tables)
        → Change t (create_user lower answers new_id now u hash t).0
    new_session :
        (answers : Bool) (s : Session) (t : Tables) → Change t (create_session answers s t).0
    end_session :
        (answers : Bool) (sid : String) (t : Tables) → Change t (delete_session answers sid t)
    end_expired :
        (answers : Bool) (now : ℕ) (t : Tables) → Change t (delete_expired_sessions answers now t).0

  pub data Reach : Tables → Type 0 where
    fresh : Reach empty
    next : {t u : Tables} → Reach t → Change t u → Reach u

is_some-none {ℓ} : {A : Type ℓ} (o : Option A) → is_some o ≡ false → o ≡ none
is_some-none none e = refl
is_some-none (some a) e = absurd (cc)

find_session-without_session :
    (x sid : String) (ss : List SessionRow)
    → find_session x ss ≡ none
    → find_session x (without_session sid ss) ≡ none
unfolding find_session without_session
find_session-without_session x sid [] e = refl
find_session-without_session x sid (s ∷ ss) e =
    ground (arith, find_session-without_session x sid ss)

find_session-unexpired :
    (x : String) (now : ℕ) (ss : List SessionRow)
    → find_session x ss ≡ none
    → find_session x (unexpired now ss) ≡ none
unfolding find_session unexpired
find_session-unexpired x now [] e = refl
find_session-unexpired x now (s ∷ ss) e = ground (arith, find_session-unexpired x now ss)

OnceSession-without_session :
    (us : List UserRow) (sid : String) (ss : List SessionRow)
    → OnceSession ss
    → All (Owned us) ss
    → OnceSession (without_session sid ss) × All (Owned us) (without_session sid ss)
unfolding without_session
OnceSession-without_session us sid [] h o = (tt, tt)
OnceSession-without_session us sid (s ∷ ss) (n, h) (w, o) =
    let (h', o') = OnceSession-without_session us sid ss h o in
    elim (Bool-cases (str_eq s.id sid)) [
      | inl e ↦ rw e (h', o')
      | inr e ↦ rw e ((find_session-without_session s.id sid ss n, h'), (w, o'))
    ]

OnceSession-unexpired :
    (us : List UserRow) (now : ℕ) (ss : List SessionRow)
    → OnceSession ss
    → All (Owned us) ss
    → OnceSession (unexpired now ss) × All (Owned us) (unexpired now ss)
unfolding unexpired
OnceSession-unexpired us now [] h o = (tt, tt)
OnceSession-unexpired us now (s ∷ ss) (n, h) (w, o) =
    let (h', o') = OnceSession-unexpired us now ss h o in
    elim (Bool-cases (leb s.expires_at now)) [
      | inl e ↦ rw e (h', o')
      | inr e ↦ rw e ((find_session-unexpired s.id now ss n, h'), (w, o'))
    ]

Owned-cons : (u : UserRow) (us : List UserRow) (s : SessionRow) → Owned us s → Owned (u ∷ us) s
unfolding find_id
Owned-cons u us s h = ground arith

All-Owned :
    (u : UserRow) (us : List UserRow) (ss : List SessionRow)
    → All (Owned us) ss
    → All (Owned (u ∷ us)) ss
All-Owned u us [] h = tt
All-Owned u us (s ∷ ss) (w, h) = (Owned-cons u us s w, All-Owned u us ss h)

create_session-IsTables :
    (answers : Bool) (s : Session) (t : Tables)
    → IsTables t
    → IsTables (create_session answers s t).0
unfolding create_session
create_session-IsTables false s t i = i
create_session-IsTables true s t i = elim (Bool-cases (is_some (find_session s.id t.sessions))) [
  | inl used ↦ rw used i
  | inr unused ↦ elim (Bool-cases (is_some (find_id s.user_id t.users))) [
    | inr unknown ↦ rw (unused, unknown) i
    | inl known ↦
        rw (unused, known)
          (record {
            ids = i.ids;
            emails = i.emails;
            sessions = (is_some-none (find_session s.id t.sessions) unused, i.sessions);
            owned = (known, i.owned);
          })
  ]
]

create_user-IsTables :
    (lower : Text → Text) (answers : Bool) (new_id : String) (now : ℕ) (u : User) (hash : String)
    (t : Tables)
    → IsTables t
    → IsTables (create_user lower answers new_id now u hash t).0
unfolding create_user
create_user-IsTables lower false new_id now u hash t i = i
create_user-IsTables lower true new_id now u hash t i =
    let uid = if str_eq u.uid "" then new_id else u.uid in
    elim (Bool-cases (is_some (find_id uid t.users))) [
      | inl used ↦ rw used i
      | inr free ↦ elim (Bool-cases (is_some (find_email (lower u.email) t.users))) [
        | inl taken ↦ rw (free, taken) i
        | inr unused ↦
            rw (free, unused)
              (record {
                ids = (is_some-none (find_id uid t.users) free, i.ids);
                emails = (is_some-none (find_email (lower u.email) t.users) unused, i.emails);
                sessions = i.sessions;
                owned = All-Owned _ t.users t.sessions i.owned;
              })
      ]
    ]

module _ (lower : Text → Text) where
  Change-IsTables : {t u : Tables} → Change lower t u → IsTables t → IsTables u
  unfolding delete_session delete_expired_sessions
  Change-IsTables (new_user a n now u h t) i = create_user-IsTables lower a n now u h t i
  Change-IsTables (new_session a s t) i = create_session-IsTables a s t i
  Change-IsTables (end_session false sid t) i = i
  Change-IsTables (end_session true sid t) i =
      let (h, o) = OnceSession-without_session t.users sid t.sessions i.sessions i.owned in
      record { ids = i.ids; emails = i.emails; sessions = h; owned = o }
  Change-IsTables (end_expired false now t) i = i
  Change-IsTables (end_expired true now t) i =
      let (h, o) = OnceSession-unexpired t.users (fmt_time now) t.sessions i.sessions i.owned in
      record { ids = i.ids; emails = i.emails; sessions = h; owned = o }

  -- No call takes a user away.
  pub find_id-Change :
      {t u : Tables}
      → Change lower t u
      → (k : String) → is_some (find_id k t.users) ≡ true
      → is_some (find_id k u.users) ≡ true
  unfolding create_user create_session delete_session delete_expired_sessions find_id
  find_id-Change (new_user a n now v h t) k q = ground arith
  find_id-Change (new_session a s t) k q = ground arith
  find_id-Change (end_session a sid t) k q = ground arith
  find_id-Change (end_expired a now t) k q = ground arith

  -- However registrations, new sessions, logouts and sweeps of expired sessions follow each other, and
  -- whichever of them the database refuses: no two users share an id or an email, no two sessions an
  -- id, and each session's user exists.
  pub reachable-IsTables : {t : Tables} → Reach lower t → IsTables t
  reachable-IsTables fresh = record { ids = tt; emails = tt; sessions = tt; owned = tt }
  reachable-IsTables (next r c) = Change-IsTables c (reachable-IsTables r)
