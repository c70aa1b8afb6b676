-- ===== src/Skills/Assigned/Tests.antt =====
-- Who sees which skills.
use arc_relay.Prelude.{
  ◌≡◌, refl, List, [], ◌∷◌, false, ◌&&◌, none, some, str_eq, any, if◌then◌else◌,
}
use arc_relay.Prelude.Text.{codes}
use arc_relay.Access.Tiers.{User}
use arc_relay.Skills.{Skill, SkillAssignment, Db}
use arc_relay.Skills.Detect.{ok}
use arc_relay.Skills.Assigned.{
  assign_skill, unassign_skill, assigned_for_user, list_for_user, user_can_read,
}
use arc_relay.Skills.Listed.{any-list_for_user}

-- A restricted skill behind a public one that is granted to "u" with a pinned version.
abbrev restricted : Skill
restricted = record {
  id = "t";
  slug = "aa";
  display_name = codes "A";
  description = [];
  visibility = "restricted";
  latest_version = none;
  yanked_at = none;
  created_by = none;
  outdated = false;
}

abbrev public_skill : Skill
public_skill = record restricted { id = "s"; slug = "sk"; visibility = "public" }

abbrev granted : List SkillAssignment → Db
granted gs = record {
  skills = public_skill ∷ restricted ∷ [];
  versions = [];
  assignments = gs;
  upstreams = [];
}

abbrev grant : SkillAssignment
grant = record {
  skill_id = "t";
  user_id = "u";
  version = some "1.0.0";
  assigned_by = none;
  assigned_at = 3;
}

abbrev reader : User
reader = record { id = "u"; role = "user"; access_level = "read"; profile_id = none }

grant_given :
    assign_skill 3 (record grant { assigned_at = 0 }) (granted []) ≡ ok (granted (grant ∷ []))
unfolding assign_skill
grant_given = refl

grant_taken : unassign_skill "t" "u" (granted (grant ∷ [])) ≡ granted []
unfolding unassign_skill
grant_taken = refl

seen :
    assigned_for_user (granted (grant ∷ [])) "u"
    ≡ record { skill = restricted; pinned_version = some "1.0.0" }
      ∷ record { skill = public_skill; pinned_version = none }
      ∷ []
unfolding assigned_for_user
seen = refl

hidden : list_for_user (granted []) reader ≡ public_skill ∷ []
unfolding list_for_user assigned_for_user
hidden = refl

any-list_for_user_example :
    any (λ s. str_eq s.slug "aa") (list_for_user (granted (grant ∷ [])) reader)
    ≡ any
        (λ s.
          str_eq (if str_eq reader.role "admin" then s else record s { outdated = false }).slug "aa"
          && user_can_read (granted (grant ∷ [])) reader s)
        (public_skill ∷ restricted ∷ [])
any-list_for_user_example =
    any-list_for_user (granted (grant ∷ [])) reader (λ s. str_eq s.slug "aa")
