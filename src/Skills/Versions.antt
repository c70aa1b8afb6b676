-- ===== src/Skills/Versions.antt =====
-- internal/store/skills.go: skills and their versions. The foreign key of an uploader is left out.
use arc_relay.Prelude.{
  ℕ, String, List, [], ◌∷◌, Bool, true, false, ◌&&◌, ◌||◌, Option, none, some, not, if◌then◌else◌,
  keep, any, str_eq, ◌==◌, leb,
}
use arc_relay.Prelude.Text.{Text, codes}
use arc_relay.Skills.{Skill, SkillVersion, Db, has_skill}
use arc_relay.Skills.Detect.{Result, ok, failed}

-- ValidateSlug: ^[a-z0-9][a-z0-9-]*[a-z0-9]$
abbrev pub is_slug_end : ℕ → Bool
is_slug_end c = (leb 97 c && leb c 122) || (leb 48 c && leb c 57)

abbrev pub slug_rest : Text → Bool
slug_rest [] = false
slug_rest (c ∷ []) = is_slug_end c
slug_rest (c ∷ d ∷ t) = (is_slug_end c || c == 45) && slug_rest (d ∷ t)

abbrev pub slug_pattern : Text → Bool
slug_pattern [] = false
slug_pattern (c ∷ t) = is_slug_end c && slug_rest t

unfoldable pub validate_slug : String → Bool
validate_slug slug = slug_pattern (codes slug)

abbrev pub or_default : String → String → String
or_default s default = if str_eq s "" then default else s

abbrev pub is_visibility : String → Bool
is_visibility v = str_eq v "public" || str_eq v "restricted"

-- CreateSkill; `new_id` is the value of uuid.New.
abbrev pub insert_skill : Skill → Db → Result (Db × Skill)
insert_skill sk db =
    if not (is_visibility sk.visibility)
    then failed "invalid visibility"
    else if any (λ s. str_eq s.id sk.id || str_eq s.slug sk.slug) db.skills
    then failed "skill slug already exists"
    else ok (
      record db {
        skills =
            record sk { latest_version = none; yanked_at = none; outdated = false } ∷ db.skills;
      },
      sk,
    )

unfoldable pub create_skill : String → Skill → Db → Result (Db × Skill)
create_skill new_id sk db =
    if not (validate_slug sk.slug)
    then failed "slug must be lowercase alphanumeric with hyphens"
    else insert_skill
        (record sk {
          id = or_default sk.id new_id;
          visibility = or_default sk.visibility "restricted";
        })
        db

-- GetSkill and GetSkillBySlug
abbrev pub find_skill : (Skill → Bool) → List Skill → Option Skill
find_skill test [] = none
find_skill test (s ∷ ss) = if test s then some s else find_skill test ss

unfoldable pub get_skill : Db → String → Option Skill
get_skill db id = find_skill (λ s. str_eq s.id id) db.skills

unfoldable pub get_skill_by_slug : Db → String → Option Skill
get_skill_by_slug db slug = find_skill (λ s. str_eq s.slug slug) db.skills

abbrev pub update_skills : String → (Skill → Skill) → List Skill → List Skill
update_skills id f [] = []
update_skills id f (s ∷ ss) = (if str_eq s.id id then f s else s) ∷ update_skills id f ss

-- UpdateSkillMeta
unfoldable pub update_skill_meta : String → Text → Text → String → Db → Result Db
update_skill_meta id display_name description visibility db =
    if not (str_eq visibility "") && not (is_visibility visibility)
    then failed "invalid visibility"
    else ok (record db {
      skills =
          update_skills id
            (λ s. record s {
              display_name = display_name;
              description = description;
              visibility = or_default visibility s.visibility;
            })
            db.skills;
    })

-- YankSkill and UnyankSkill
unfoldable pub yank_skill : ℕ → String → Db → Db
yank_skill now id db = record db {
  skills = update_skills id (λ s. record s { yanked_at = some now }) db.skills;
}

unfoldable pub unyank_skill : String → Db → Db
unyank_skill id db = record db {
  skills = update_skills id (λ s. record s { yanked_at = none }) db.skills;
}

-- DeleteSkill, with the rows that go with it.
unfoldable pub delete_skill : String → Db → Db
delete_skill id db = record db {
  skills = keep (λ s. not (str_eq s.id id)) db.skills;
  versions = keep (λ v. not (str_eq v.skill_id id)) db.versions;
  assignments = keep (λ a. not (str_eq a.skill_id id)) db.assignments;
  upstreams = keep (λ u. not (str_eq u.skill_id id)) db.upstreams;
}

-- GetVersion
abbrev pub is_version : String → String → SkillVersion → Bool
is_version id version v = str_eq v.skill_id id && str_eq v.version version

abbrev pub find_version : String → String → List SkillVersion → Option SkillVersion
find_version id version [] = none
find_version id version (v ∷ vs) =
    if is_version id version v then some v else find_version id version vs

unfoldable pub get_version : Db → String → String → Option SkillVersion
get_version db id version = find_version id version db.versions

-- CreateVersion
abbrev pub has_version : String → String → List SkillVersion → Bool
has_version id version = any (is_version id version)

abbrev pub insert_version : SkillVersion → Db → Result Db
insert_version v db =
    if has_version v.skill_id v.version db.versions
    then failed "skill version already exists"
    else if not (has_skill v.skill_id db.skills)
    then failed "FOREIGN KEY constraint failed"
    else ok (record db {
      versions = v ∷ db.versions;
      skills =
          update_skills v.skill_id (λ s. record s { latest_version = some v.version }) db.skills;
    })

abbrev pub is_blank : Text → Bool
is_blank [] = true
is_blank (c ∷ t) = false

unfoldable pub create_version : ℕ → SkillVersion → Db → Result Db
create_version now v db =
    if str_eq v.version ""
    then failed "version is required"
    else if is_blank v.archive_path
    then failed "archive_path is required"
    else if v.archive_size == 0
    then failed "archive_size must be > 0"
    else if str_eq v.archive_sha256 ""
    then failed "archive_sha256 is required"
    else insert_version
        (record v { manifest = or_default v.manifest "{}"; yanked_at = none; uploaded_at = now }) db

-- YankVersion and UnyankVersion
abbrev pub update_versions :
    String → String → (SkillVersion → SkillVersion) → List SkillVersion → List SkillVersion
update_versions id version f [] = []
update_versions id version f (v ∷ vs) =
    (if is_version id version v then f v else v) ∷ update_versions id version f vs

abbrev pub set_yanked : Option ℕ → String → String → Db → Result Db
set_yanked at id version db =
    if has_version id version db.versions
    then ok (record db {
      versions = update_versions id version (λ v. record v { yanked_at = at }) db.versions;
    })
    else failed "no rows"

unfoldable pub yank_version : ℕ → String → String → Db → Result Db
yank_version now id version db = set_yanked (some now) id version db

unfoldable pub unyank_version : String → String → Db → Result Db
unyank_version id version db = set_yanked none id version db
