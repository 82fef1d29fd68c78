-- ===== src/Server/Http/Passed.antt =====
-- What a handler that does not answer an error has found (service/internal/server).
use aifstudio.Prelude.{
  ℕ, String, ◌≡◌, refl, sym, ◌∙◌, true, some, str_eq, Bool-cases, Option-cases, inl, inr,
}
use aifstudio.Store.Table.{find_row}
use aifstudio.Store.Rows.{Project, Db, scan_project}
use aifstudio.Store.Projects.{project_key, get_project}
use aifstudio.Store.Projects
use aifstudio.Server.Http.{
  Reply, replied, Check, stop, pass, checked, reply_to, and_then, Answers, own_project,
}

module _ {A B : Type 0} where
  pub and_then-passed :
      (c : Check A) (rest : A → Check B) (b : B)
      → and_then c rest ≡ pass b
      → (x : A) × (c ≡ pass x) × (rest x ≡ pass b)
  unfolding and_then
  and_then-passed (stop status code) rest b e = absurd (cc)
  and_then-passed (pass x) rest b e = (x, refl, e)

  pub checked-replied :
      {S : Type 0} (c : Check A) (s : S) (rest : A → S × Reply B) (status : ℕ) (b : B)
      → (checked c s rest).1 ≡ replied status b
      → (x : A) × (c ≡ pass x) × ((rest x).1 ≡ replied status b) × (checked c s rest ≡ rest x)
  unfolding checked
  checked-replied (stop st code) s rest status b e = absurd (cc)
  checked-replied (pass x) s rest status b e = (x, refl, e, refl)

  pub reply_to-replied :
      (c : Check A) (rest : A → Reply B) (status : ℕ) (b : B)
      → reply_to c rest ≡ replied status b
      → (x : A) × (c ≡ pass x) × (rest x ≡ replied status b)
  unfolding reply_to
  reply_to-replied (stop st code) rest status b e = absurd (cc)
  reply_to-replied (pass x) rest status b e = (x, refl, e)

pub never :
    {A : Type 0} (c : Check A) (status : ℕ) (code : String) {a : A}
    → c ≡ stop status code
    → c ≡ pass a
    → ⊥
never c status code e f = cc

pub pass_eq : {A : Type 0} {a b : A} → pass a ≡ pass b → a ≡ b
pass_eq e = cc

pub own_project-passed :
    (a : Answers) (uid id : String) (db : Db) (q : Project)
    → own_project a uid id db ≡ pass q
    → (p : Project) × (find_row project_key id db.projects ≡ some p)
      × (str_eq p.owner_uid uid ≡ true)
      × (scan_project p ≡ q)
unfolding own_project get_project Projects.scanned scan_project
own_project-passed a uid id db q e = elim (Bool-cases a.get_project) [
  | inr n ↦ absurd (never (own_project a uid id db) 500 "internal" (rw (own_project, n) refl) e)
  | inl y ↦ elim (Option-cases (find_row project_key id db.projects)) [
    | inl n ↦
        absurd (never (own_project a uid id db) 404 "not_found" (rw (own_project, y, n) refl) e)
    | inr (p, f) ↦ elim (Bool-cases (str_eq p.owner_uid uid)) [
      | inr n ↦ absurd (
          never (own_project a uid id db) 403 "forbidden"
            (rw (own_project, y, f, scan_project, n) refl) e)
      | inl o ↦
          let z : own_project a uid id db ≡ pass (scan_project p) =
            rw (own_project, y, f, scan_project, o) refl in
          (p, f, o, pass_eq (sym z ∙ e))
    ]
  ]
]
