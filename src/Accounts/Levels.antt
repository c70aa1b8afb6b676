-- ===== src/Accounts/Levels.antt =====
-- The access levels of users under the calls that change them.
use arc_relay.Prelude.{
  ℕ, ◌+◌, ◌≡◌, ap, refl, sym, ◌∙◌, subst, inl, inr, String, List, [], ◌∷◌, Bool, true, false, ◌&&◌,
  ◌||◌, Option, none, some, not, ltb, if-elim, if◌then◌else◌, any, keep, str_eq, arith, All,
  All-append, Bool-cases,
}
use arc_relay.Access.Tiers.{User}
use arc_relay.Accounts.{
  Account, Db, has_id, first, update_where, new_level, is_taken, or_without, raise_admins,
  unless_empty, create_user, update_profile, update_role, set_password, set_must_change_password,
  delete_user, ensure_admin, create_api_key, validate_api_key, unless_revoked, revoke_api_key,
  create_session, delete_session, delete_by_user, cleanup, reset_password, change_password, ApiKey,
  created, hashed, reset_with, change_with,
}
use arc_relay.Accounts.Run.{
  Op, user_created, profile_set, role_set, password_set, change_forced, user_deleted, admin_ensured,
  key_created, key_validated, key_revoked, session_created, session_deleted, sessions_ended,
  cleaned, password_reset, password_changed, step, run,
}

-- A user with the role of an administrator has the level of one.
abbrev pub is_leveled : Account → Bool
is_leveled u = not (str_eq u.role "admin") || str_eq u.access_level "admin"

abbrev pub AreLeveled : List Account → Type 0
AreLeveled = All (λ u. is_leveled u ≡ true)

pub update_where-All :
    {A : Type 0} (P : A → Type 0) (p : A → Bool) (f : A → A)
    → ((x : A) → P x → P (f x))
    → (xs : List A) → All P xs
    → All P (update_where p f xs)
update_where-All P p f h [] a = tt
update_where-All P p f h (x ∷ xs) a =
    (if-elim P (p x) (f x) x (h x a.0) a.0, update_where-All P p f h xs a.1)

pub keep-All :
    {A : Type 0} (P : A → Type 0) (p : A → Bool) (xs : List A) → All P xs → All P (keep p xs)
keep-All P p [] a = tt
keep-All P p (x ∷ xs) a = elim (Bool-cases (p x)) [
  | inl e ↦ rw e (a.0, keep-All P p xs a.1)
  | inr e ↦ rw e (keep-All P p xs a.1)
]

new_level-leveled :
    (role level : String)
    → (not (str_eq role "admin") || str_eq (new_level role level) "admin") ≡ true
new_level-leveled role level = elim (Bool-cases (str_eq role "admin")) [
  | inl e ↦ rw e refl
  | inr e ↦ rw e refl
]

promoted-AreLeveled :
    (id role : String) (us : List Account)
    → AreLeveled us
    → AreLeveled (
        update_where
          (has_id id)
          (λ u. record u { access_level = "admin" })
          (update_where (has_id id) (λ u. record u { role = role }) us))
promoted-AreLeveled id role [] a = tt
promoted-AreLeveled id role (u ∷ us) a = elim (Bool-cases (has_id id u)) [
  | inl e ↦ rw (e, e) (ground arith, promoted-AreLeveled id role us a.1)
  | inr e ↦ rw (e, e) (a.0, promoted-AreLeveled id role us a.1)
]

update_role-AreLeveled :
    (id role : String) (db : Db) → AreLeveled db.users → AreLeveled (update_role id role db).users
unfolding update_role
update_role-AreLeveled id role db a = elim (Bool-cases (str_eq role "admin")) [
  | inl e ↦ rw e (promoted-AreLeveled id role db.users a)
  | inr e ↦ rw e (
      update_where-All (λ u. is_leveled u ≡ true) (has_id id) (λ u. record u { role = role })
        (λ u h. ground (arith, e)) db.users a)
]

same-AreLeveled :
    (id : String) (f : Account → Account)
    → ((u : Account) → is_leveled (f u) ≡ is_leveled u)
    → (us : List Account) → AreLeveled us
    → AreLeveled (update_where (has_id id) f us)
same-AreLeveled id f h = update_where-All (λ u. is_leveled u ≡ true) (has_id id) f (λ u a. h u ∙ a)

raise_admins-AreLeveled : (us : List Account) → AreLeveled us → AreLeveled (raise_admins us)
raise_admins-AreLeveled =
    update_where-All (λ u. is_leveled u ≡ true)
      (λ u. str_eq u.role "admin" && not (str_eq u.access_level "admin"))
      (λ u. record u { access_level = "admin" }) (λ u h. ground arith)

unless_empty-AreLeveled :
    (db : Db) (us : List Account) (fresh : Option Db)
    → AreLeveled us
    → AreLeveled db.users
    → AreLeveled (or_without db fresh).users
    → AreLeveled (or_without db (unless_empty db us fresh)).users
unless_empty-AreLeveled db [] fresh h a f = f
unless_empty-AreLeveled db (u ∷ us) fresh h a f = raise_admins-AreLeveled (u ∷ us) h

validated-users :
    (now : ℕ) (db : Db) (k : Option ApiKey) → (unless_revoked now db k).0.users ≡ db.users
validated-users now db none = refl
validated-users now db (some k) =
    if-elim (λ (x : Db × Option (User × ApiKey)). x.0.users ≡ db.users) k.revoked _ _ refl refl

ended-users : (user : String) (db : Db) → (delete_by_user user db).users ≡ db.users
unfolding delete_by_user
ended-users user db = refl

session-users :
    (id user : String) (expires_at : ℕ) (db : Db)
    → (or_without db (create_session id user expires_at db)).users ≡ db.users
unfolding create_session
session-users id user expires_at db =
    if-elim (λ d. (or_without db d).users ≡ db.users)
      (any (λ s. str_eq s.id id) db.sessions || not (any (has_id user) db.users)) none _ refl refl

module _ (sha256 : String → String) (bcrypt : String → String → Option String)
    (matches : String → String → Bool) where
  created-AreLeveled :
      (id name role level : String) (hash profile : Option String) (db : Db)
      → AreLeveled db.users
      → AreLeveled (or_without db (created bcrypt matches id name hash role level profile db)).users
  created-AreLeveled id name role level none profile db a = a
  created-AreLeveled id name role level (some hash) profile db a =
      elim (Bool-cases (any (is_taken id name) db.users)) [
        | inl e ↦ rw e a
        | inr e ↦
            rw e (
              All-append (λ u. is_leveled u ≡ true) db.users _ a (new_level-leveled role level, tt))
      ]

  create_user-AreLeveled :
      (id salt name password role level : String) (profile : Option String) (db : Db)
      → AreLeveled db.users
      → AreLeveled
          (or_without db
            (create_user bcrypt matches id salt name password role level profile db)).users
  unfolding create_user
  create_user-AreLeveled id salt name password role level profile db a =
      created-AreLeveled id name role level (bcrypt salt password) profile db a

  hashed-AreLeveled :
      (hash : Option String) (id : String) (db : Db)
      → AreLeveled db.users
      → AreLeveled (or_without db (hashed bcrypt matches hash id db)).users
  hashed-AreLeveled none id db a = a
  hashed-AreLeveled (some hash) id db a =
      same-AreLeveled id (λ u. record u { password_hash = hash; must_change_password = false })
        (λ u. refl) db.users a

  set_password-AreLeveled :
      (salt id password : String) (db : Db)
      → AreLeveled db.users
      → AreLeveled (or_without db (set_password bcrypt matches salt id password db)).users
  unfolding set_password
  set_password-AreLeveled salt id password db = hashed-AreLeveled (bcrypt salt password) id db

  set_must-AreLeveled :
      (id : String) (must : Bool) (db : Db)
      → AreLeveled db.users
      → AreLeveled (set_must_change_password id must db).users
  unfolding set_must_change_password
  set_must-AreLeveled id must db =
      same-AreLeveled id (λ u. record u { must_change_password = must }) (λ u. refl) db.users

  reset_with-AreLeveled :
      (id : String) (db : Db) (o : Option Db)
      → AreLeveled (or_without db o).users
      → AreLeveled (reset_with bcrypt matches id db o).users
  unfolding delete_by_user
  reset_with-AreLeveled id db none a = a
  reset_with-AreLeveled id db (some after) a = set_must-AreLeveled id true after a

  change_with-AreLeveled :
      (session user : String) (now : ℕ) (db : Db) (o : Option Db)
      → AreLeveled (or_without db o).users
      → AreLeveled (change_with bcrypt matches session user now db o).users
  unfolding delete_by_user
  change_with-AreLeveled session user now db none a = a
  change_with-AreLeveled session user now db (some after) a =
      subst AreLeveled
        (sym (session-users session user (now + 2592000) (delete_by_user user after))) a

  step-AreLeveled :
      (o : Op) (db : Db) → AreLeveled db.users → AreLeveled (step sha256 bcrypt matches o db).users
  unfolding step update_profile delete_user ensure_admin create_api_key validate_api_key
      revoke_api_key delete_session delete_by_user cleanup reset_password change_password
  step-AreLeveled (user_created id salt name password role level profile) db a =
      create_user-AreLeveled id salt name password role level profile db a
  step-AreLeveled (profile_set id profile) db a =
      same-AreLeveled id (λ u. record u { default_profile_id = profile }) (λ u. refl) db.users a
  step-AreLeveled (role_set id role) db a = update_role-AreLeveled id role db a
  step-AreLeveled (password_set salt id password) db a =
      set_password-AreLeveled salt id password db a
  step-AreLeveled (change_forced id must) db a = set_must-AreLeveled id must db a
  step-AreLeveled (user_deleted id) db a =
      keep-All (λ u. is_leveled u ≡ true) (λ u. not (has_id id u)) db.users a
  step-AreLeveled (admin_ensured id salt password) db a =
      unless_empty-AreLeveled db db.users
        (create_user bcrypt matches id salt "admin" password "admin" "" none db) a a
        (create_user-AreLeveled id salt "admin" password "admin" "" none db a)
  step-AreLeveled (key_created raw id user profile caps) db a =
      if-elim (λ d. AreLeveled (or_without db d).users)
        (any (λ k. str_eq k.id id) db.keys || not (any (has_id user) db.users)) none _ a a
  step-AreLeveled (key_validated now raw) db a =
      subst AreLeveled
        (sym (validated-users now db (first (λ k. str_eq k.key_hash (sha256 raw)) db.keys))) a
  step-AreLeveled (key_revoked id) db a = a
  step-AreLeveled (session_created id user expires_at) db a =
      subst AreLeveled (sym (session-users id user expires_at db)) a
  step-AreLeveled (session_deleted id) db a = a
  step-AreLeveled (sessions_ended user) db a = a
  step-AreLeveled (cleaned now) db a = a
  step-AreLeveled (password_reset salt id size password) db a =
      if-elim (λ d. AreLeveled d.users) (ltb size 8 || not (any (has_id id) db.users)) db _ a
        (reset_with-AreLeveled id db (set_password bcrypt matches salt id password db)
          (set_password-AreLeveled salt id password db a))
  step-AreLeveled (password_changed salt session now user current size password confirm) db a =
      if-elim (λ d. AreLeveled d.users) _ db _ a
        (if-elim (λ d. AreLeveled d.users) (ltb size 8) db _ a
          (if-elim (λ d. AreLeveled d.users) (not (str_eq password confirm)) db _ a
            (change_with-AreLeveled session user.id now db
              (set_password bcrypt matches salt user.id password db)
              (set_password-AreLeveled salt user.id password db a))))

  pub run-AreLeveled :
      (os : List Op) (db : Db)
      → AreLeveled db.users
      → AreLeveled (run sha256 bcrypt matches os db).users
  unfolding run
  run-AreLeveled [] db a = a
  run-AreLeveled (o ∷ os) db a = run-AreLeveled os _ (step-AreLeveled o db a)

pub first-All :
    {A : Type 0} (P : A → Type 0) (p : A → Bool) (xs : List A) (x : A)
    → All P xs
    → first p xs ≡ some x
    → P x
first-All P p [] x a h = cc
first-All P p (y ∷ ys) x a h = elim (Bool-cases (p y)) [
  | inl e ↦
      let same : some y ≡ some x = ap (λ b. if b then some y else first p ys) (sym e) ∙ h in
      subst P (ap (λ o. elim o [ some z ↦ z | none ↦ y ]) same) a.0
  | inr e ↦ first-All P p ys x a.1 (ap (λ b. if b then some y else first p ys) (sym e) ∙ h)
]

-- What is found passes the test.
pub first-passes :
    {A : Type 0} (p : A → Bool) (xs : List A) (x : A) → first p xs ≡ some x → p x ≡ true
first-passes p [] x h = cc
first-passes p (y ∷ ys) x h = elim (Bool-cases (p y)) [
  | inl e ↦
      let same : some y ≡ some x = ap (λ b. if b then some y else first p ys) (sym e) ∙ h in
      subst (λ z. p z ≡ true) (ap (λ o. elim o [ some z ↦ z | none ↦ y ]) same) e
  | inr e ↦ first-passes p ys x (ap (λ b. if b then some y else first p ys) (sym e) ∙ h)
]
