-- ===== src/Skills/Assigned.antt =====
-- internal/store/skills.go: the assignments of skills, and internal/web/skills_handlers.go: which skills
-- a user sees. The foreign keys of users are left out; a slug is ordered by its bytes.
mod Tests
use arc_relay.Prelude.{
  ℕ, String, List, [], ◌∷◌, Bool, true, false, ◌&&◌, ◌||◌, Option, none, some, not, if◌then◌else◌,
  keep, any, str_eq, ◌==◌, ltb,
}
use arc_relay.Prelude.Text.{Text, codes}
use arc_relay.Accounts.Capabilities.{text_lt}
use arc_relay.Access.Tiers.{User}
use arc_relay.Skills.{Skill, SkillAssignment, Db, has_skill}
use arc_relay.Skills.Detect.{Result, ok, failed}

abbrev pub is_grant : String → String → SkillAssignment → Bool
is_grant skill_id user_id a = str_eq a.skill_id skill_id && str_eq a.user_id user_id

-- AssignSkill
abbrev pub insert_grant : SkillAssignment → List SkillAssignment → List SkillAssignment
insert_grant n [] = n ∷ []
insert_grant n (a ∷ gs) = if is_grant n.skill_id n.user_id a then n ∷ gs else a ∷ insert_grant n gs

unfoldable pub assign_skill : ℕ → SkillAssignment → Db → Result Db
assign_skill now a db =
    if str_eq a.skill_id "" || str_eq a.user_id ""
    then failed "skill_id and user_id are required"
    else if not (has_skill a.skill_id db.skills)
    then failed "FOREIGN KEY constraint failed"
    else ok
        (record db { assignments = insert_grant (record a { assigned_at = now }) db.assignments })

-- UnassignSkill
unfoldable pub unassign_skill : String → String → Db → Db
unassign_skill skill_id user_id db = record db {
  assignments = keep (λ a. not (is_grant skill_id user_id a)) db.assignments;
}

pub record AssignedSkill : Type 0 where
  pub skill : Skill
  pub pinned_version : Option String

-- ORDER BY slug
module _ {A : Type 0} (slug_of : A → String) where
  abbrev pub insert : A → List A → List A
  insert x [] = x ∷ []
  insert x (y ∷ ys) =
      let rest = insert x ys in
      if text_lt (codes (slug_of y)) (codes (slug_of x)) then y ∷ rest else x ∷ y ∷ ys

  abbrev pub sort : List A → List A
  sort [] = []
  sort (x ∷ xs) = insert x (sort xs)

-- AssignedForUser: the grant that is joined to a skill, the WHERE clause, and the rows. The key of the
-- table leaves one grant at most.
abbrev pub find_grant : String → String → List SkillAssignment → Option SkillAssignment
find_grant skill_id user_id [] = none
find_grant skill_id user_id (a ∷ gs) =
    if is_grant skill_id user_id a then some a else find_grant skill_id user_id gs

abbrev pub is_active : Skill → Bool
is_active s = elim s.yanked_at [ none ↦ true | some at ↦ false ]

-- The query does not read the column `outdated`, which stays 0 in what it returns.
abbrev pub selected : Skill → Skill
selected s = record s { outdated = false }

abbrev pub joined : Skill → Option SkillAssignment → List AssignedSkill → List AssignedSkill
joined s none rest =
    if is_active s && str_eq s.visibility "public"
    then record { skill = selected s; pinned_version = none } ∷ rest
    else rest
joined s (some a) rest =
    if is_active s then record { skill = selected s; pinned_version = a.version } ∷ rest else rest

abbrev pub assigned_rows : String → List SkillAssignment → List Skill → List AssignedSkill
assigned_rows user_id gs [] = []
assigned_rows user_id gs (s ∷ ss) =
    joined s (find_grant s.id user_id gs) (assigned_rows user_id gs ss)

unfoldable pub assigned_for_user : Db → String → List AssignedSkill
assigned_for_user db user_id =
    sort (λ r. r.skill.slug) (assigned_rows user_id db.assignments db.skills)

-- ListSkills and ListAssignmentsForSkill; the order of the latter does not matter to its caller.
unfoldable pub list_skills : Db → List Skill
list_skills db = sort (λ s. s.slug) db.skills

unfoldable pub list_assignments_for_skill : Db → String → List SkillAssignment
list_assignments_for_skill db id = keep (λ a. str_eq a.skill_id id) db.assignments

-- listForUser
abbrev pub skills_of : List AssignedSkill → List Skill
skills_of [] = []
skills_of (r ∷ rs) = r.skill ∷ skills_of rs

unfoldable pub list_for_user : Db → User → List Skill
list_for_user db user =
    if str_eq user.role "admin" then list_skills db else skills_of (assigned_for_user db user.id)

-- userCanRead
unfoldable pub user_can_read : Db → User → Skill → Bool
user_can_read db user skill =
    if str_eq user.role "admin"
    then true
    else if not (is_active skill)
    then false
    else if str_eq skill.visibility "public"
    then true
    else any (λ a. str_eq a.user_id user.id) (list_assignments_for_skill db skill.id)
