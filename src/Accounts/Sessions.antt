-- ===== src/Accounts/Sessions.antt =====
-- The sessions that are left after a password is changed.
use arc_relay.Prelude.{
  ℕ, ◌+◌, ◌≡◌, ◌≢◌, refl, subst, ◌⊎◌, inl, inr, String, List, [], ◌∷◌, Bool, true, ◌&&◌, ◌||◌,
  Option, none, some, not, ltb, if-elim, any, keep, str_eq, str_eq_self, eq_iff, arith, All,
  Bool-cases,
}
use arc_relay.Access.Tiers.{User}
use arc_relay.Accounts.Levels.{first-All, first-passes}
use arc_relay.Accounts.{
  Account, Session, Db, first, get, get_session, session_user, joined, or_without, set_password,
  create_session, delete_by_user, change_password, has_id, renewed, change_with,
}

-- A session of another user, or the one with the id.
abbrev pub is_only : String → String → Session → Bool
is_only user session s = not (str_eq s.user_id user) || str_eq s.id session

abbrev AreOnly : String → String → List Session → Type 0
AreOnly user session = All (λ s. is_only user session s ≡ true)

ended-AreOnly :
    (user session : String) (ss : List Session)
    → AreOnly user session (keep (λ s. not (str_eq s.user_id user)) ss)
ended-AreOnly user session [] = tt
ended-AreOnly user session (s ∷ ss) = elim (Bool-cases (str_eq s.user_id user)) [
  | inl e ↦ rw e (ended-AreOnly user session ss)
  | inr e ↦ rw e (ground (arith, e), ended-AreOnly user session ss)
]

IsOwn : String → String → String → Option (User × ℕ) → Type 0
IsOwn user session sid none = Unit
IsOwn user session sid (some (v, expires_at)) = (v.id ≢ user) ⊎ (sid ≡ session)

joined-IsOwn :
    (db : Db) (user session sid : String) (s : Session) (u : Option Account)
    → is_only user session s ≡ true
    → s.id ≡ sid
    → get db s.user_id ≡ u
    → IsOwn user session sid (joined u s.expires_at)
unfolding IsOwn get
joined-IsOwn db user session sid s none a i h = tt
joined-IsOwn db user session sid s (some u) a i h =
    let owner : str_eq u.id s.user_id ≡ true = first-passes (has_id s.user_id) db.users u h in
    ground (arith, a, i, owner, eq_iff u.id s.user_id, eq_iff s.user_id user, eq_iff s.id session)

found-IsOwn :
    (now : ℕ) (db : Db) (user session sid : String) (s : Option Session)
    → AreOnly user session db.sessions
    → first (λ s. str_eq s.id sid && ltb now s.expires_at) db.sessions ≡ s
    → IsOwn user session sid (session_user db s)
unfolding IsOwn
found-IsOwn now db user session sid none a h = tt
found-IsOwn now db user session sid (some s) a h =
    let passes : (str_eq s.id sid && ltb now s.expires_at) ≡ true =
      first-passes (λ s. str_eq s.id sid && ltb now s.expires_at) db.sessions s h in
    joined-IsOwn db user session sid s (get db s.user_id)
      (first-All (λ s. is_only user session s ≡ true) _ db.sessions s a h)
      (ground (arith, passes, eq_iff s.id sid)) refl

created-AreOnly :
    (user session : String) (expires_at : ℕ) (db : Db)
    → AreOnly user session db.sessions
    → AreOnly user session (or_without db (create_session session user expires_at db)).sessions
unfolding create_session
created-AreOnly user session expires_at db a =
    if-elim (λ d. AreOnly user session (or_without db d).sessions)
      (any (λ s. str_eq s.id session) db.sessions || not (any (has_id user) db.users)) none _ a
      (ground (arith, str_eq_self session), a)

-- The database is as before, or a session found for the id is of another user, or new.
abbrev IsDone : Db → String → String → ℕ → String → Db → Type 0
IsDone db user session later sid after =
    (after ≡ db) ⊎ IsOwn user session sid (get_session later after sid)

module _ (bcrypt : String → String → Option String) (matches : String → String → Bool) where
  change_with-IsDone :
      (session user sid : String) (now later : ℕ) (db : Db) (o : Option Db)
      → IsDone db user session later sid (change_with bcrypt matches session user now db o)
  unfolding delete_by_user get_session
  change_with-IsDone session user sid now later db none = inl refl
  change_with-IsDone session user sid now later db (some after) = inr (
      found-IsOwn later (renewed bcrypt matches session user now (delete_by_user user after)) user
        session sid _
        (created-AreOnly user session (now + 2592000) (delete_by_user user after)
          (ended-AreOnly user session after.sessions))
        refl)

  change_password-IsDone :
      (salt session current password confirm sid : String) (now size later : ℕ) (user : Account)
      (db : Db)
      → IsDone db user.id session later sid
          (change_password bcrypt matches salt session now user current size password confirm db)
  unfolding change_password
  change_password-IsDone salt session current password confirm sid now size later user db =
      let done = IsDone db user.id session later sid in
      if-elim done _ db _ (inl refl) (
        if-elim done (ltb size 8) db _ (inl refl) (
          if-elim done (not (str_eq password confirm)) db _ (inl refl) (
            change_with-IsDone session user.id sid now later db
              (set_password bcrypt matches salt user.id password db))))

  -- A change of the password either is refused and changes nothing, or leaves the user with no session
  -- but the new one: whoever is found for another session id is another user.
  pub change_password-sessions :
      (salt session current password confirm sid : String) (now size later expires_at : ℕ)
      (user : Account) (v : User) (db : Db)
      → let after =
          change_password bcrypt matches salt session now user current size password confirm db in
        get_session later after sid ≡ some (v, expires_at)
        → (after ≡ db) ⊎ ((v.id ≢ user.id) ⊎ (sid ≡ session))
  unfolding IsOwn
  change_password-sessions salt session current password confirm sid now size later expires_at user
        v db h =
      elim (change_password-IsDone salt session current password confirm sid now size later user
        db) [ inl same ↦ inl same | inr own ↦ inr (subst (IsOwn user.id session sid) h own) ]
