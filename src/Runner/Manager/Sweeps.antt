-- ===== src/Runner/Manager/Sweeps.antt =====
-- Which sessions the sweeps of the manager (service/internal/runner/manager.go) remove.
use aifstudio.Prelude.{
  ℕ, ◌≡◌, ◌≢◌, sym, ap, ◌∙◌, String, true, false, ◌&&◌, List, [], ◌∷◌, some, All, All-map, In, here,
  there, All-In, ◌⊎◌, ltb, ◌==◌, ==_iff, str_eq, str_eq_iff, str_eq_refl, Bool-cases, Option-cases,
  some_eq, inl, inr,
}
use aifstudio.Dict.{lookup, lookup-insert, lookup-delete}
use aifstudio.Runner.Manager.{
  Session, Sessions, Observed, create_session, get_session, remove_session, delete_if_same,
  idle_sessions, evict, Course, finished, evicts, creates, removes,
}

-- The map does not hold the session.
abbrev pub Gone : Session → Sessions → Type 0
Gone s m = (t : Session) → get_session s.id m ≡ some t → t.object ≢ s.object

lookup-delete_if_same :
    (key j : String) (s : Session) (m : Sessions) {t : Session}
    → lookup j (delete_if_same key s m) ≡ some t
    → lookup j m ≡ some t
unfolding delete_if_same
lookup-delete_if_same key j s m {t} e = elim (Option-cases (lookup key m)) [
  | inl n ↦ rw (n, delete_if_same) at e
  | inr (u, y) ↦ elim (Bool-cases (u.object == s.object)) [
    | inr other ↦ rw (y, other, delete_if_same) at e
    | inl same ↦ elim (Bool-cases (str_eq key j)) [
      | inl k ↦ absurd (cc (rw (lookup-delete key j m, k) at (rw (y, same, delete_if_same) at e)))
      | inr k ↦ rw (lookup-delete key j m, k) at (rw (y, same, delete_if_same) at e)
    ]
  ]
]

Gone-evict : (s t : Session) (m : Sessions) → Gone s m → Gone s (evict t m)
unfolding evict get_session
Gone-evict s t m g = λ u e. g u (lookup-delete_if_same t.id s.id t m e)

evict-Gone : (s : Session) (m : Sessions) → Gone s (evict s m)
unfolding evict get_session delete_if_same
evict-Gone s m = λ u e. elim (Option-cases (lookup s.id m)) [
  | inl n ↦ absurd (cc (n, rw (n, delete_if_same) at e))
  | inr (t, y) ↦ elim (Bool-cases (t.object == s.object)) [
    | inl same ↦ absurd (
        cc
          (rw (lookup-delete s.id s.id m, str_eq_refl s.id) at (rw (y, same, delete_if_same) at e)))
    | inr other ↦
        let q : t ≡ u = some_eq (sym y ∙ (rw (y, other, delete_if_same) at e)) in
        λ w. cc (other, (==_iff t.object s.object).1 (ap (λ x. x.object) q ∙ w))
  ]
]

Gone-create_session :
    (s n : Session) (m : Sessions) → n.object ≢ s.object → Gone s m → Gone s (create_session n m)
unfolding get_session create_session
Gone-create_session s n m new g = λ u e. elim (Bool-cases (str_eq n.id s.id)) [
  | inl k ↦
      let q : n ≡ u = some_eq (rw (lookup-insert n.id s.id n m, k) at e) in
      λ w. new (ap (λ x. x.object) q ∙ w)
  | inr k ↦ g u (rw (lookup-insert n.id s.id n m, k) at e)
]

Gone-remove_session :
    (s : Session) (id : String) (m : Sessions) → Gone s m → Gone s (remove_session id m)
unfolding get_session remove_session
Gone-remove_session s id m g = λ u e. elim (Bool-cases (str_eq id s.id)) [
  | inl k ↦ absurd (cc (rw (lookup-delete id s.id m, k) at e))
  | inr k ↦ g u (rw (lookup-delete id s.id m, k) at e)
]

Course-Gone :
    {New : Session → Type 0} {idle : List Session} {m m' : Sessions} {ids : List String}
    (s : Session)
    → ((n : Session) → New n → n.object ≢ s.object)
    → Course New idle m m' ids
    → In s idle ⊎ Gone s m
    → Gone s m'
Course-Gone s f finished (inl i) = elim i [ ]
Course-Gone s f finished (inr g) = g
Course-Gone s f (evicts {s = t} {m = m} c) (inl here) = Course-Gone s f c (inr (evict-Gone s m))
Course-Gone s f (evicts {s = t} {m = m} c) (inl (there i)) = Course-Gone s f c (inl i)
Course-Gone s f (evicts {s = t} {m = m} c) (inr g) = Course-Gone s f c (inr (Gone-evict s t m g))
Course-Gone s f (creates {s = n} {m = m} new c) (inl i) = Course-Gone s f c (inl i)
Course-Gone s f (creates {s = n} {m = m} new c) (inr g) =
    Course-Gone s f c (inr (Gone-create_session s n m (f n new) g))
Course-Gone s f (removes {id = id} {m = m} c) (inl i) = Course-Gone s f c (inl i)
Course-Gone s f (removes {id = id} {m = m} c) (inr g) =
    Course-Gone s f c (inr (Gone-remove_session s id m g))

All-of {ℓ κ} : {A : Type ℓ} (P : A → Type κ) (xs : List A) → ((a : A) → In a xs → P a) → All P xs
All-of P [] f = tt
All-of P (x ∷ xs) f = (f x here, All-of P xs (λ a i. f a (there i)))

-- A new object is none of the given ones.
abbrev pub IsNew : List Session → Session → Type 0
IsNew ss n = All (λ s. n.object ≢ s.object) ss

-- When sweepIdle ends, none of the sessions that it collected is registered, whatever other calls
-- registered new session objects or removed sessions meanwhile.
pub sweep_idle_evicts :
    (ss : List Session) (m : Sessions) {m' : Sessions} {ids : List String}
    → Course (IsNew ss) ss m m' ids
    → All (λ s. Gone s m') ss
sweep_idle_evicts ss m {m'} c =
    All-of (λ s. Gone s m') ss
      (λ s i. Course-Gone s (λ n new. All-In (λ t. n.object ≢ t.object) i new) c (inl i))

evict_other :
    (s g : Session) (m : Sessions)
    → s.object ≢ g.object
    → get_session g.id m ≡ some g
    → get_session g.id (evict s m) ≡ some g
unfolding evict get_session delete_if_same
evict_other s g m other e = elim (Option-cases (lookup s.id m)) [
  | inl n ↦ rw (n, delete_if_same) e
  | inr (t, y) ↦ elim (Bool-cases (t.object == s.object)) [
    | inr differs ↦ rw (y, differs, delete_if_same) e
    | inl same ↦ elim (Bool-cases (str_eq s.id g.id)) [
      | inl k ↦
          let q : t ≡ g = some_eq (sym y ∙ ap (λ i. lookup i m) ((str_eq_iff s.id g.id).0 k) ∙ e) in
          absurd (other (sym ((==_iff t.object s.object).0 same) ∙ ap (λ x. x.object) q))
      | inr k ↦ rw (y, same, delete_if_same, lookup-delete s.id g.id m, k) e
    ]
  ]
]

str_eq_other : (a b : String) → a ≢ b → str_eq a b ≡ false
str_eq_other a b n = elim (Bool-cases (str_eq a b)) [
  | inl y ↦ absurd (n ((str_eq_iff a b).0 y))
  | inr y ↦ y
]

Course-keeps :
    {New : Session → Type 0} {idle : List Session} {m m' : Sessions} {ids : List String}
    (g : Session)
    → Course New idle m m' ids
    → get_session g.id m ≡ some g
    → All (λ s. s.object ≢ g.object) idle
    → All (λ id. id ≢ g.id) ids
    → get_session g.id m' ≡ some g
unfolding get_session create_session remove_session
Course-keeps g finished e i o = e
Course-keeps g (evicts {s = s} {m = m} c) e (n, i) o = Course-keeps g c (evict_other s g m n e) i o
Course-keeps g (creates {s = s} {m = m} new c) e i (n, o) =
    Course-keeps g c (rw (lookup-insert s.id g.id s m, str_eq_other s.id g.id n) e) i o
Course-keeps g (removes {id = id} {m = m} c) e i (n, o) =
    Course-keeps g c (rw (lookup-delete id g.id m, str_eq_other id g.id n) e) i o

idle_sessions_idle :
    (o : Observed) (timeout : ℕ) (es : Sessions)
    → All
        (λ s. (o.is_alive s.object && ltb timeout (o.idle_for s.object)) ≡ true)
        (idle_sessions o timeout es)
unfolding idle_sessions
idle_sessions_idle o timeout [] = tt
idle_sessions_idle o timeout ((key, s) ∷ es) =
    elim (Bool-cases (o.is_alive s.object && ltb timeout (o.idle_for s.object))) [
      | inl y ↦ rw y (y, idle_sessions_idle o timeout es)
      | inr n ↦ rw n (idle_sessions_idle o timeout es)
    ]

-- A session that is registered and not idle when sweepIdle collects the idle ones is still registered
-- when it ends, if no other call names its run meanwhile.
pub sweep_idle_keeps :
    (o : Observed) (timeout : ℕ) (m : Sessions) (g : Session) {New : Session → Type 0}
    {m' : Sessions} {ids : List String}
    → get_session g.id m ≡ some g
    → (o.is_alive g.object && ltb timeout (o.idle_for g.object)) ≡ false
    → Course New (idle_sessions o timeout m) m m' ids
    → All (λ id. id ≢ g.id) ids
    → get_session g.id m' ≡ some g
sweep_idle_keeps o timeout m g e busy c others =
    Course-keeps g c e
      (All-map (λ s. (o.is_alive s.object && ltb timeout (o.idle_for s.object)) ≡ true)
        (λ s. s.object ≢ g.object) (λ s y q. cc (y, busy, q)) (idle_sessions o timeout m)
        (idle_sessions_idle o timeout m))
      others
