-- ===== src/Skills/Listed.antt =====
-- The listing of skills against the check of one skill.
use arc_relay.Prelude.{
  ◌≡◌, refl, sym, ap, ◌∙◌, inl, inr, String, List, [], ◌∷◌, Bool, true, false, ◌&&◌, ◌||◌, Option,
  none, some, not, if◌then◌else◌, if-elim, keep, any, str_eq, Bool-cases,
}
use arc_relay.Prelude.Text.{codes}
use arc_relay.Accounts.Capabilities.{text_lt}
use arc_relay.Access.Tiers.{User}
use arc_relay.Skills.{Skill, SkillAssignment, Db}
use arc_relay.Skills.Assigned.{
  AssignedSkill, selected, insert, sort, find_grant, is_active, joined, assigned_rows,
  assigned_for_user, list_skills, list_assignments_for_skill, skills_of, list_for_user,
  user_can_read,
}

or_swap :
    (a b c : Bool)
    → (if a then true else if b then true else c) ≡ (if b then true else if a then true else c)
or_swap true true c = refl
or_swap true false c = refl
or_swap false true c = refl
or_swap false false c = refl

module _ {A : Type 0} (slug_of : A → String) (p : A → Bool) where
  any-insert : (x : A) (xs : List A) → any p (insert slug_of x xs) ≡ any p (x ∷ xs)
  any-insert x [] = refl
  any-insert x (y ∷ ys) =
      if-elim (λ zs. any p zs ≡ any p (x ∷ y ∷ ys))
        (text_lt (codes (slug_of y)) (codes (slug_of x))) _ _
        (ap (λ b. if p y then true else b) (any-insert x ys) ∙ or_swap (p y) (p x) (any p ys)) refl

  any-sort : (xs : List A) → any p (sort slug_of xs) ≡ any p xs
  any-sort [] = refl
  any-sort (x ∷ xs) =
      any-insert x (sort slug_of xs) ∙ ap (λ b. if p x then true else b) (any-sort xs)

any-skills_of :
    (p : Skill → Bool) (rs : List AssignedSkill) → any p (skills_of rs) ≡ any (λ r. p r.skill) rs
any-skills_of p [] = refl
any-skills_of p (r ∷ rs) = ap (λ b. if p r.skill then true else b) (any-skills_of p rs)

abbrev is_found : Option SkillAssignment → Bool
is_found none = false
is_found (some a) = true

find-any :
    (skill_id user_id : String) (gs : List SkillAssignment)
    → is_found (find_grant skill_id user_id gs)
      ≡ any (λ a. str_eq a.user_id user_id) (keep (λ a. str_eq a.skill_id skill_id) gs)
find-any skill_id user_id [] = refl
find-any skill_id user_id (a ∷ gs) = elim (Bool-cases (str_eq a.skill_id skill_id)) [
  | inl e ↦ elim (Bool-cases (str_eq a.user_id user_id)) [
    | inl f ↦ rw (e, f) refl
    | inr f ↦ rw (e, f) (find-any skill_id user_id gs)
  ]
  | inr e ↦ rw e (find-any skill_id user_id gs)
]

-- What the WHERE clause asks of a skill with the grant that is joined to it.
abbrev is_listed : Skill → Option SkillAssignment → Bool
is_listed s o = is_active s && (str_eq s.visibility "public" || is_found o)

and_true : (a : Bool) → (a && true) ≡ a
and_true true = refl
and_true false = refl

and_false : (a : Bool) → (a && false) ≡ false
and_false true = refl
and_false false = refl

or_true : (a : Bool) → (a || true) ≡ true
or_true true = refl
or_true false = refl

or_false : (a : Bool) → (a || false) ≡ a
or_false true = refl
or_false false = refl

any-row :
    {A : Type 0} (q : A → Bool) (b : Bool) (x : A) (rest : List A)
    → any q (if b then x ∷ rest else rest) ≡ (if q x && b then true else any q rest)
any-row q true x rest = ap (λ c. if c then true else any q rest) (sym (and_true (q x)))
any-row q false x rest = ap (λ c. if c then true else any q rest) (sym (and_false (q x)))

any-joined :
    (p : Skill → Bool) (s : Skill) (o : Option SkillAssignment) (rest : List AssignedSkill)
    → any (λ r. p r.skill) (joined s o rest)
      ≡ (if p (selected s) && is_listed s o then true else any (λ r. p r.skill) rest)
any-joined p s none rest =
    any-row (λ r. p r.skill) (is_active s && str_eq s.visibility "public") _ rest
    ∙ ap (λ c. if p (selected s) && (is_active s && c) then true else any (λ r. p r.skill) rest)
        (sym (or_false (str_eq s.visibility "public")))
any-joined p s (some a) rest =
    any-row (λ r. p r.skill) (is_active s) _ rest
    ∙ ap (λ c. if p (selected s) && c then true else any (λ r. p r.skill) rest)
        (sym (and_true (is_active s))
          ∙ ap (λ c. is_active s && c) (sym (or_true (str_eq s.visibility "public"))))

any-assigned_rows :
    (p : Skill → Bool) (user_id : String) (gs : List SkillAssignment) (ss : List Skill)
    → any (λ r. p r.skill) (assigned_rows user_id gs ss)
      ≡ any (λ s. p (selected s) && is_listed s (find_grant s.id user_id gs)) ss
any-assigned_rows p user_id gs [] = refl
any-assigned_rows p user_id gs (s ∷ ss) =
    any-joined p s (find_grant s.id user_id gs) (assigned_rows user_id gs ss)
    ∙ ap (λ b. if p (selected s) && is_listed s (find_grant s.id user_id gs) then true else b)
        (any-assigned_rows p user_id gs ss)

any-agree : (p q : Skill → Bool) (ss : List Skill) → ((s : Skill) → p s ≡ q s) → any p ss ≡ any q ss
any-agree p q [] same = refl
any-agree p q (s ∷ ss) same =
    ap (λ b. if b then true else any p ss) (same s)
    ∙ ap (λ b. if q s then true else b) (any-agree p q ss same)

listed-readable :
    (active public granted found : Bool)
    → found ≡ granted
    → (active && (public || found))
      ≡ (if not active then false else if public then true else granted)
listed-readable false public granted found h = refl
listed-readable true true granted found h = refl
listed-readable true false granted found h = h

module _ (db : Db) (user : User) (p : Skill → Bool) where
  both_roles :
      (admin : Bool)
      → any p (if admin then list_skills db else skills_of (assigned_for_user db user.id))
        ≡ any
            (λ s.
              p (if admin then s else selected s)
              && (if admin
                  then true
                  else if not (is_active s)
                  then false
                  else if str_eq s.visibility "public"
                  then true
                  else any (λ a. str_eq a.user_id user.id) (list_assignments_for_skill db s.id)))
            db.skills
  unfolding assigned_for_user list_skills list_assignments_for_skill
  both_roles true =
      any-sort (λ s. s.slug) p db.skills ∙ any-agree _ _ db.skills (λ s. sym (and_true (p s)))
  both_roles false =
      any-skills_of p (assigned_for_user db user.id)
      ∙ any-sort (λ r. r.skill.slug) (λ r. p r.skill)
          (assigned_rows user.id db.assignments db.skills)
      ∙ any-assigned_rows p user.id db.assignments db.skills
      ∙ any-agree _ _ db.skills (λ s.
        ap (λ c. p (selected s) && c)
          (listed-readable (is_active s) (str_eq s.visibility "public") _ _
            (find-any s.id user.id db.assignments)))

  -- The listing that a user gets holds a skill of some kind exactly if a skill that the check of a
  -- single skill lets the user read is of that kind, as it is listed: an administrator sees the stored
  -- skill, anyone else sees it as not outdated.
  pub any-list_for_user :
      any p (list_for_user db user)
      ≡ any
          (λ s.
            p (if str_eq user.role "admin" then s else record s { outdated = false })
            && user_can_read db user s)
          db.skills
  unfolding list_for_user user_can_read
  any-list_for_user = both_roles (str_eq user.role "admin")
