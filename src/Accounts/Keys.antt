-- ===== src/Accounts/Keys.antt =====
-- Revoked API keys.
use arc_relay.Prelude.{
  ℕ, ◌+◌, ◌≡◌, refl, sym, subst, inl, inr, String, List, [], ◌∷◌, Bool, true, false, ◌||◌, Option,
  none, some, not, ltb, if◌then◌else◌, if-elim, any, str_eq, arith, All, All-append, Bool-cases,
  ◌∙◌,
}
use arc_relay.Access.Tiers.{User}
use arc_relay.Accounts.{
  Account, ApiKey, Db, has_id, first, get, update_where, is_taken, or_without, unless_empty,
  with_key, mark_key_used, create_user, update_profile, update_role, set_password,
  set_must_change_password, delete_user, ensure_admin, create_api_key, validate_api_key,
  unless_revoked, revoke_api_key, create_session, delete_session, delete_by_user, cleanup,
  reset_password, change_password, created, hashed, reset_with, change_with,
}
use arc_relay.Accounts.Levels.{update_where-All, keep-All}
use arc_relay.Accounts.Run.{
  Op, user_created, profile_set, role_set, password_set, change_forced, user_deleted, admin_ensured,
  key_created, key_validated, key_revoked, session_created, session_deleted, sessions_ended,
  cleaned, password_reset, password_changed, step, run,
}

-- A row that is not a usable key of the id.
abbrev pub is_shut : String → ApiKey → Bool
is_shut id k = not (str_eq k.id id) || k.revoked

abbrev AreShut : String → List ApiKey → Type 0
AreShut id = All (λ k. is_shut id k ≡ true)

-- A call that would insert a key with the id.
abbrev pub makes_key : String → Op → Bool
makes_key id (key_created raw i user profile caps) = str_eq i id
makes_key id _ = false

revoked-AreShut :
    (id : String) (ks : List ApiKey)
    → AreShut id (update_where (λ k. str_eq k.id id) (λ k. record k { revoked = true }) ks)
revoked-AreShut id [] = tt
revoked-AreShut id (k ∷ ks) = (ground arith, revoked-AreShut id ks)

update-AreShut :
    (id : String) (p : ApiKey → Bool) (f : ApiKey → ApiKey)
    → ((k : ApiKey) → is_shut id k ≡ true → is_shut id (f k) ≡ true)
    → (ks : List ApiKey) → AreShut id ks
    → AreShut id (update_where p f ks)
update-AreShut id p f = update_where-All (λ k. is_shut id k ≡ true) p f

validated-AreShut :
    (id : String) (now : ℕ) (db : Db) (k : Option ApiKey)
    → AreShut id db.keys
    → AreShut id (unless_revoked now db k).0.keys
validated-AreShut id now db none a = a
validated-AreShut id now db (some k) a =
    if-elim (λ (x : Db × Option (User × ApiKey)). AreShut id x.0.keys) k.revoked _ _ a
      (update-AreShut id (λ j. str_eq j.key_hash k.key_hash)
        (λ j. record j { last_used = some now }) (λ j h. h) db.keys a)

session-keys :
    (id user : String) (expires_at : ℕ) (db : Db)
    → (or_without db (create_session id user expires_at db)).keys ≡ db.keys
unfolding create_session
session-keys id user expires_at db =
    if-elim (λ d. (or_without db d).keys ≡ db.keys)
      (any (λ s. str_eq s.id id) db.sessions || not (any (has_id user) db.users)) none _ refl refl

role-keys : (id role : String) (db : Db) → (update_role id role db).keys ≡ db.keys
unfolding update_role
role-keys id role db = if-elim (λ (d : Db). d.keys ≡ db.keys) (str_eq role "admin") _ _ refl refl

ensured-keys :
    (db : Db) (us : List Account) (fresh : Option Db)
    → (or_without db fresh).keys ≡ db.keys
    → (or_without db (unless_empty db us fresh)).keys ≡ db.keys
ensured-keys db [] fresh h = h
ensured-keys db (u ∷ us) fresh h = refl

module _ (sha256 : String → String) (bcrypt : String → String → Option String)
    (matches : String → String → Bool) where
  made-keys :
      (id name role level : String) (hash profile : Option String) (db : Db)
      → (or_without db (created bcrypt matches id name hash role level profile db)).keys ≡ db.keys
  made-keys id name role level none profile db = refl
  made-keys id name role level (some hash) profile db =
      if-elim (λ d. (or_without db d).keys ≡ db.keys) (any (is_taken id name) db.users) none _ refl
        refl

  created-keys :
      (id salt name password role level : String) (profile : Option String) (db : Db)
      → (or_without db
          (create_user bcrypt matches id salt name password role level profile db)).keys
        ≡ db.keys
  unfolding create_user
  created-keys id salt name password role level profile db =
      made-keys id name role level (bcrypt salt password) profile db

  hashed-keys :
      (hash : Option String) (id : String) (db : Db)
      → (or_without db (hashed bcrypt matches hash id db)).keys ≡ db.keys
  hashed-keys none id db = refl
  hashed-keys (some hash) id db = refl

  reset_with-keys :
      (id : String) (db : Db) (o : Option Db)
      → (or_without db o).keys ≡ db.keys
      → (reset_with bcrypt matches id db o).keys ≡ db.keys
  unfolding delete_by_user set_must_change_password
  reset_with-keys id db none h = refl
  reset_with-keys id db (some after) h = h

  change_with-keys :
      (session user : String) (now : ℕ) (db : Db) (o : Option Db)
      → (or_without db o).keys ≡ db.keys
      → (change_with bcrypt matches session user now db o).keys ≡ db.keys
  unfolding delete_by_user
  change_with-keys session user now db none h = refl
  change_with-keys session user now db (some after) h =
      session-keys session user (now + 2592000) (delete_by_user user after) ∙ h

  step-AreShut :
      (id : String) (o : Op) (db : Db)
      → makes_key id o ≡ false
      → AreShut id db.keys
      → AreShut id (step sha256 bcrypt matches o db).keys
  unfolding step update_profile set_password set_must_change_password delete_user ensure_admin
      create_api_key validate_api_key revoke_api_key delete_session delete_by_user cleanup
      reset_password change_password
  step-AreShut id (user_created i salt name password role level profile) db h a =
      subst (AreShut id) (sym (created-keys i salt name password role level profile db)) a
  step-AreShut id (profile_set i profile) db h a = a
  step-AreShut id (role_set i role) db h a = subst (AreShut id) (sym (role-keys i role db)) a
  step-AreShut id (password_set salt i password) db h a =
      subst (AreShut id) (sym (hashed-keys (bcrypt salt password) i db)) a
  step-AreShut id (change_forced i must) db h a = a
  step-AreShut id (user_deleted i) db h a =
      keep-All (λ k. is_shut id k ≡ true) (λ k. not (str_eq k.user_id i)) db.keys a
  step-AreShut id (admin_ensured i salt password) db h a =
      subst (AreShut id)
        (sym (
          ensured-keys db db.users
            (create_user bcrypt matches i salt "admin" password "admin" "" none db)
            (created-keys i salt "admin" password "admin" "" none db)))
        a
  step-AreShut id (key_created raw i user profile caps) db h a =
      if-elim (λ d. AreShut id (or_without db d).keys)
        (any (λ k. str_eq k.id i) db.keys || not (any (has_id user) db.users)) none _ a
        (All-append (λ k. is_shut id k ≡ true) db.keys _ a (ground (arith, h), tt))
  step-AreShut id (key_validated now raw) db h a =
      validated-AreShut id now db (first (λ k. str_eq k.key_hash (sha256 raw)) db.keys) a
  step-AreShut id (key_revoked i) db h a =
      update-AreShut id (λ k. str_eq k.id i) (λ k. record k { revoked = true })
        (λ k e. ground arith) db.keys a
  step-AreShut id (session_created i user expires_at) db h a =
      subst (AreShut id) (sym (session-keys i user expires_at db)) a
  step-AreShut id (session_deleted i) db h a = a
  step-AreShut id (sessions_ended user) db h a = a
  step-AreShut id (cleaned now) db h a = a
  step-AreShut id (password_reset salt i size password) db h a =
      if-elim (λ d. AreShut id d.keys) (ltb size 8 || not (any (has_id i) db.users)) db _ a
        (subst (AreShut id)
          (sym (
            reset_with-keys i db (set_password bcrypt matches salt i password db)
              (hashed-keys (bcrypt salt password) i db)))
          a)
  step-AreShut id (password_changed salt session now user current size password confirm) db h a =
      if-elim (λ d. AreShut id d.keys) _ db _ a
        (if-elim (λ d. AreShut id d.keys) (ltb size 8) db _ a
          (if-elim (λ d. AreShut id d.keys) (not (str_eq password confirm)) db _ a
            (subst (AreShut id)
              (sym (
                change_with-keys session user.id now db
                  (set_password bcrypt matches salt user.id password db)
                  (hashed-keys (bcrypt salt password) user.id db)))
              a)))

  run-AreShut :
      (id : String) (os : List Op) (db : Db)
      → All (λ o. makes_key id o ≡ false) os
      → AreShut id db.keys
      → AreShut id (run sha256 bcrypt matches os db).keys
  unfolding run
  run-AreShut id [] db h a = a
  run-AreShut id (o ∷ os) db h a = run-AreShut id os _ h.1 (step-AreShut id o db h.0 a)

abbrev pub IsOther : String → Option (User × ApiKey) → Type 0
IsOther id none = Unit
IsOther id (some (u, k)) = str_eq k.id id ≡ false

with_key-IsOther :
    (id : String) (k : ApiKey) (u : Option Account)
    → str_eq k.id id ≡ false
    → IsOther id (with_key k u)
with_key-IsOther id k none h = tt
with_key-IsOther id k (some u) h = h

one-IsOther :
    (id : String) (now : ℕ) (db : Db) (k : ApiKey)
    → is_shut id k ≡ true
    → IsOther id (unless_revoked now db (some k)).1
one-IsOther id now db k a =
    let chosen : Bool → Db × Option (User × ApiKey) = λ b.
      if b then (db, none) else (mark_key_used now k.key_hash db, with_key k (get db k.user_id)) in
    elim (Bool-cases k.revoked) [
      | inl r ↦ subst (λ b. IsOther id (chosen b).1) (sym r) tt
      | inr r ↦
          subst (λ b. IsOther id (chosen b).1) (sym r)
            (with_key-IsOther id k (get db k.user_id) (ground (arith, a, r)))
    ]

unless_revoked-IsOther :
    (id : String) (now : ℕ) (db : Db) (p : ApiKey → Bool) (ks : List ApiKey)
    → AreShut id ks
    → IsOther id (unless_revoked now db (first p ks)).1
unless_revoked-IsOther id now db p [] a = tt
unless_revoked-IsOther id now db p (k ∷ ks) a = elim (Bool-cases (p k)) [
  | inr e ↦ rw e (unless_revoked-IsOther id now db p ks a.1)
  | inl e ↦ rw e (one-IsOther id now db k a.0)
]

module _ (sha256 : String → String) (bcrypt : String → String → Option String)
    (matches : String → String → Bool) where
  -- Once it is revoked, an API key authenticates nobody, whatever calls follow, as long as no new key
  -- is given the same id.
  pub revoke_api_key-validate :
      (id raw : String) (now : ℕ) (os : List Op) (db : Db)
      → All (λ o. makes_key id o ≡ false) os
      → IsOther id
          (validate_api_key sha256 now raw (run sha256 bcrypt matches os (revoke_api_key id db))).1
  unfolding validate_api_key revoke_api_key
  revoke_api_key-validate id raw now os db h =
      let after = run sha256 bcrypt matches os (revoke_api_key id db) in
      unless_revoked-IsOther id now after (λ k. str_eq k.key_hash (sha256 raw)) after.keys
        (run-AreShut sha256 bcrypt matches id os (revoke_api_key id db) h
          (revoked-AreShut id db.keys))
