-- ===== src/Invites/Redeem.antt =====
-- How often an invite is redeemed.
use arc_relay.Prelude.{
  ℕ, suc, ◌+◌, ◌≤◌, ◌≡◌, refl, subst, ◌↔◌, inl, inr, String, List, [], ◌∷◌, Bool, true, false, ◌&&◌,
  Option, none, some, arith, if◌then◌else◌, any, str_eq, eq_iff, Bool-cases,
}
use arc_relay.Invites.{
  InviteToken, is_pending, is_open, has_hash, first, update_where, create_account_invite, peek,
  mark_used, validate_and_consume, set_redeemed_user, delete_invite, cleanup_expired,
}

-- The rows with a hash that can still be redeemed.
abbrev pub open_rows : String → List InviteToken → ℕ
open_rows h [] = 0
open_rows h (r ∷ rs) =
    let rest = open_rows h rs in
    if str_eq r.token_hash h && is_pending r.status then suc rest else rest

set_redeemed-open :
    (h id user : String) (table : List InviteToken)
    → open_rows h (set_redeemed_user id user table) ≤ open_rows h table
unfolding set_redeemed_user update_where
set_redeemed-open h id user [] = omega arith
set_redeemed-open h id user (r ∷ rs) = ground (arith, set_redeemed-open h id user rs)

delete-open :
    (h id : String) (table : List InviteToken)
    → open_rows h (delete_invite id table) ≤ open_rows h table
unfolding delete_invite
delete-open h id [] = omega arith
delete-open h id (r ∷ rs) = ground (arith, delete-open h id rs)

cleanup-open :
    (h : String) (now : ℕ) (table : List InviteToken)
    → open_rows h (cleanup_expired now table) ≤ open_rows h table
unfolding cleanup_expired update_where
cleanup-open h now [] = omega arith
cleanup-open h now (r ∷ rs) = ground (arith, cleanup-open h now rs)

pub data Op : Type 0 where
  invited : String → String → String → String → Option String → String → ℕ → Op
  redeemed : ℕ → String → Op
  recorded : String → String → Op
  deleted : String → Op
  cleaned : ℕ → Op

module _ (hash : String → String) where
  mark_used-open :
      (h raw : String) (now : ℕ) (table : List InviteToken)
      → open_rows h (mark_used hash now raw table) ≤ open_rows h table
  unfolding update_where
  mark_used-open h raw now [] = omega arith
  mark_used-open h raw now (r ∷ rs) = ground (arith, mark_used-open h raw now rs)

  mark_used-fewer :
      (raw : String) (now : ℕ) (table : List InviteToken)
      → any (is_open now (hash raw)) table ≡ true
      → open_rows (hash raw) (mark_used hash now raw table) + 1 ≤ open_rows (hash raw) table
  unfolding update_where
  mark_used-fewer raw now [] h = cc
  mark_used-fewer raw now (r ∷ rs) h =
      ground (arith, h, mark_used-fewer raw now rs, mark_used-open (hash raw) raw now rs)

  first-none :
      (p : InviteToken → Bool) (table : List InviteToken)
      → (first p table ≡ none) ↔ (any p table ≡ false)
  first-none p [] = ground arith
  first-none p (r ∷ rs) = ground (arith, first-none p rs)

  mark_used-found :
      (raw : String) (now : ℕ) (table : List InviteToken)
      → any (is_open now (hash raw)) table ≡ true
      → first (has_hash (hash raw)) (mark_used hash now raw table) ≡ none
      → ⊥
  unfolding update_where
  mark_used-found raw now [] h e = cc
  mark_used-found raw now (r ∷ rs) h e =
      ground
        (arith, h, e, λ (k : any (is_open now (hash raw)) rs ≡ true). mark_used-found raw now rs k)

  mark_used-shut :
      (raw : String) (now later : ℕ) (table : List InviteToken)
      → now ≤ later
      → any (is_open later (hash raw)) (mark_used hash now raw table) ≡ false
  unfolding update_where
  mark_used-shut raw now later [] h = refl
  mark_used-shut raw now later (r ∷ rs) h = ground (arith, mark_used-shut raw now later rs h)

  shut-later :
      (raw : String) (now later : ℕ) (table : List InviteToken)
      → now ≤ later
      → any (is_open now (hash raw)) table ≡ false
      → any (is_open later (hash raw)) table ≡ false
  shut-later raw now later [] h e = refl
  shut-later raw now later (r ∷ rs) h e = ground (
    arith,
    h,
    e,
    λ (k : any (is_open now (hash raw)) rs ≡ false). shut-later raw now later rs h k,
  )

  -- An invite is redeemed exactly if looking it up at that time finds one, and after that it is found
  -- no more.
  pub validate_and_consume-peek :
      (now later : ℕ) (raw : String) (table : List InviteToken)
      → now ≤ later
      → let (after, invite) = validate_and_consume hash now raw table in
        ((invite ≡ none) ↔ (peek hash now raw table ≡ none)) × (peek hash later raw after ≡ none)
  unfolding validate_and_consume peek
  validate_and_consume-peek now later raw table h =
      elim (Bool-cases (any (is_open now (hash raw)) table)) [
        | inl e ↦ (
          rw e (
            λ nothing. absurd (mark_used-found raw now table e nothing),
            λ nothing.
                absurd (ground (arith, e, first-none (is_open now (hash raw)) table, nothing)),
          ),
          rw e (
              (first-none (is_open later (hash raw)) (mark_used hash now raw table)).1
                (mark_used-shut raw now later table h)),
        )
        | inr e ↦ (
          rw e (λ _. (first-none (is_open now (hash raw)) table).1 e, λ _. refl),
          rw e (
              (first-none (is_open later (hash raw)) table).1 (shut-later raw now later table h e)),
        )
      ]

  abbrev or_same : List InviteToken → Option (List InviteToken) → List InviteToken
  or_same table none = table
  or_same table (some after) = after

  unfoldable pub step : Op → List InviteToken → List InviteToken
  step (invited raw id role level profile by expires_at) table =
      or_same table (create_account_invite hash raw id role level profile by expires_at table)
  step (redeemed now raw) table = (validate_and_consume hash now raw table).0
  step (recorded id user) table = set_redeemed_user id user table
  step (deleted id) table = delete_invite id table
  step (cleaned now) table = cleanup_expired now table

  abbrev one_if_some : Option InviteToken → ℕ
  one_if_some none = 0
  one_if_some (some r) = 1

  -- The redemptions of a raw token that succeed, and the invites created with it.
  abbrev pub redeems : String → Op → List InviteToken → ℕ
  redeems raw (redeemed now t) table =
      if str_eq t raw then one_if_some (validate_and_consume hash now t table).1 else 0
  redeems raw (invited t id role level profile by expires_at) table = 0
  redeems raw (recorded id user) table = 0
  redeems raw (deleted id) table = 0
  redeems raw (cleaned now) table = 0

  abbrev pub invites : String → Op → ℕ
  invites raw (invited t id role level profile by expires_at) =
      if str_eq (hash t) (hash raw) then 1 else 0
  invites raw (redeemed now t) = 0
  invites raw (recorded id user) = 0
  invites raw (deleted id) = 0
  invites raw (cleaned now) = 0

  unfoldable pub redemptions : String → List Op → List InviteToken → ℕ
  redemptions raw [] table = 0
  redemptions raw (o ∷ os) table = redeems raw o table + redemptions raw os (step o table)

  abbrev pub creations : String → List Op → ℕ
  creations raw [] = 0
  creations raw (o ∷ os) = invites raw o + creations raw os

  create-open :
      (raw h id role level : String) (profile : Option String) (by : String) (expires_at : ℕ)
      (table : List InviteToken)
      → open_rows h
          (or_same table (create_account_invite hash raw id role level profile by expires_at table))
        ≤ (if str_eq (hash raw) h then 1 else 0) + open_rows h table
  unfolding create_account_invite
  create-open raw h id role level profile by expires_at table =
      elim (Bool-cases (any (has_hash (hash raw)) table)) [
        | inl e ↦ rw e (omega arith)
        | inr e ↦ rw e (ground arith)
      ]

  one_if_some-le : (o : Option InviteToken) → one_if_some o ≤ 1
  one_if_some-le none = omega arith
  one_if_some-le (some r) = omega arith

  redeem-open :
      (now : ℕ) (t raw : String) (table : List InviteToken)
      → redeems raw (redeemed now t) table
          + open_rows (hash raw) (validate_and_consume hash now t table).0
        ≤ open_rows (hash raw) table
  unfolding validate_and_consume
  redeem-open now t raw table = elim (Bool-cases (any (is_open now (hash t)) table)) [
    | inr e ↦ rw e (ground arith)
    | inl e ↦ elim (Bool-cases (str_eq t raw)) [
      | inr other ↦ rw (e, other) (omega (arith, mark_used-open (hash raw) t now table))
      | inl same ↦
          let eq : t ≡ raw = (eq_iff t raw).0 same in
          let fewer : open_rows (hash raw) (mark_used hash now t table) + 1
              ≤ open_rows (hash raw) table =
            subst
              (λ x. open_rows (hash x) (mark_used hash now t table) + 1 ≤ open_rows (hash x) table)
              eq (mark_used-fewer t now table e) in
          rw (e, same)
            (omega (
              arith,
              fewer,
              one_if_some-le (first (has_hash (hash t)) (mark_used hash now t table)),
            ))
    ]
  ]

  step-open :
      (raw : String) (o : Op) (table : List InviteToken)
      → redeems raw o table + open_rows (hash raw) (step o table)
        ≤ invites raw o + open_rows (hash raw) table
  unfolding step
  step-open raw (invited t id role level profile by expires_at) table =
      omega (arith, create-open t (hash raw) id role level profile by expires_at table)
  step-open raw (redeemed now t) table = omega (arith, redeem-open now t raw table)
  step-open raw (recorded id user) table = omega (arith, set_redeemed-open (hash raw) id user table)
  step-open raw (deleted id) table = omega (arith, delete-open (hash raw) id table)
  step-open raw (cleaned now) table = omega (arith, cleanup-open (hash raw) now table)

  redemptions-open :
      (raw : String) (os : List Op) (table : List InviteToken)
      → redemptions raw os table ≤ creations raw os + open_rows (hash raw) table
  unfolding redemptions
  redemptions-open raw [] table = omega arith
  redemptions-open raw (o ∷ os) table =
      omega (arith, step-open raw o table, redemptions-open raw os (step o table))

  -- Over any sequence of operations on the table of invites, an invite token is redeemed at most as
  -- often as an invite was created with a token of the same hash.
  pub redemptions_limit : (raw : String) (os : List Op) → redemptions raw os [] ≤ creations raw os
  redemptions_limit raw os = omega (arith, redemptions-open raw os [])
