-- ===== src/Skills/Uploads.antt =====
-- internal/skills/service.go: uploads of archives and what is served of them. The validation of an
-- archive, the hash and the encoding of a manifest are parameters; a file is written or renamed whole,
-- and writing it does not fail.
mod Tests
use arc_relay.Prelude.{
  ℕ, String, List, [], ◌∷◌, ◌++◌, Bool, true, false, ◌&&◌, ◌||◌, Option, none, some, not,
  if◌then◌else◌, str_eq, ◌==◌, leb, ltb, length,
}
use arc_relay.Prelude.Text.{Text, codes, text_eq, trim_space}
use arc_relay.Skills.{Skill, SkillVersion, Db}
use arc_relay.Skills.Detect.{Result, ok, failed, bind, split_lines}
use arc_relay.Skills.Versions.{
  validate_slug, create_skill, get_skill_by_slug, update_skill_meta, get_version, create_version,
  is_blank, or_default,
}

pub record Manifest : Type 0 where
  pub name : String
  pub description : Text

pub record Env : Type 0 where
  pub validate_archive : Text → Result Manifest
  pub sha256 : Text → String
  pub encode : Manifest → String

-- The database and the bundles on disk by their relative path.
pub record Bundles : Type 0 where
  pub db : Db
  pub disk : Text → Option Text

pub record UploadInput : Type 0 where
  pub slug_override : String
  pub version : String
  pub archive : Text
  pub uploaded_by : String
  pub display_name : Text
  pub description : Text
  pub visibility : String

pub record UploadResult : Type 0 where
  pub skill : Skill
  pub version : SkillVersion
  pub manifest : Manifest

abbrev pub max_archive_size : ℕ
max_archive_size = 5242880

-- versionPattern: ^[0-9]+\.[0-9]+\.[0-9]+(?:-[0-9A-Za-z.-]+)?$
abbrev pub is_digit : ℕ → Bool
is_digit c = leb 48 c && leb c 57

abbrev pub skip_digits : Text → Text
skip_digits [] = []
skip_digits (c ∷ t) = if is_digit c then skip_digits t else c ∷ t

abbrev pub after_number : Text → Option Text
after_number [] = none
after_number (c ∷ t) = if is_digit c then some (skip_digits t) else none

abbrev pub after_dot : Option Text → Option Text
after_dot none = none
after_dot (some []) = none
after_dot (some (c ∷ t)) = if c == 46 then after_number t else none

abbrev pub is_suffix_char : ℕ → Bool
is_suffix_char c =
    is_digit c || (leb 65 c && leb c 90) || (leb 97 c && leb c 122) || c == 46 || c == 45

abbrev pub all_suffix : Text → Bool
all_suffix [] = true
all_suffix (c ∷ t) = is_suffix_char c && all_suffix t

abbrev pub is_suffix : Option Text → Bool
is_suffix none = false
is_suffix (some []) = true
is_suffix (some (c ∷ t)) = c == 45 && not (is_blank t) && all_suffix t

unfoldable pub matches_version : String → Bool
matches_version version = is_suffix (after_dot (after_dot (after_number (codes version))))

-- firstNonEmptyLine
abbrev pub or_text : Text → Text → Text
or_text [] t = t
or_text (c ∷ s) t = c ∷ s

abbrev pub first_non_empty : List Text → Text
first_non_empty [] = []
first_non_empty (l ∷ ls) = or_text (trim_space l) (first_non_empty ls)

abbrev pub nullable_string : String → Option String
nullable_string s = if str_eq s "" then none else some s

-- The names that Upload derives.
abbrev pub display_name_of : UploadInput → Manifest → String → Text
display_name_of input m slug =
    or_text (trim_space input.display_name)
      (or_text (first_non_empty (split_lines m.description)) (codes slug))

abbrev pub description_of : UploadInput → Manifest → Text
description_of input m = or_text (trim_space input.description) (trim_space m.description)

abbrev pub archive_path : String → String → Text
archive_path slug version = codes slug ++ codes "/" ++ codes version ++ codes ".tar.gz"

abbrev pub write_archive : Text → Text → (Text → Option Text) → Text → Option Text
write_archive path archive disk p = if text_eq path p then some archive else disk p

module _ (env : Env) (now : ℕ) (new_id : String) where
  -- The row of the skill: created, or refreshed where the names differ.
  abbrev pub ensure_skill :
      UploadInput → Manifest → String → Db → Option Skill → Result (Db × Skill)
  ensure_skill input m slug db none =
      create_skill new_id
        (record {
          id = "";
          slug = slug;
          display_name = display_name_of input m slug;
          description = description_of input m;
          visibility = or_default input.visibility "restricted";
          latest_version = none;
          yanked_at = none;
          created_by = nullable_string input.uploaded_by;
          outdated = false;
        })
        db
  ensure_skill input m slug db (some sk) =
      let renamed : Skill = record sk {
        display_name = display_name_of input m slug;
        description = description_of input m;
      } in
      if not (text_eq renamed.display_name sk.display_name)
        || not (text_eq renamed.description sk.description)
      then bind (update_skill_meta sk.id renamed.display_name renamed.description "" db)
          (λ db'. ok (db', renamed))
      else ok (db, sk)

  abbrev pub version_of : UploadInput → Manifest → Skill → SkillVersion
  version_of input m sk = record {
    skill_id = sk.id;
    version = input.version;
    archive_path = archive_path sk.slug input.version;
    archive_size = length input.archive;
    archive_sha256 = env.sha256 input.archive;
    manifest = env.encode m;
    yanked_at = none;
    uploaded_by = nullable_string input.uploaded_by;
    uploaded_at = now;
  }

  abbrev pub recorded :
      UploadInput → Manifest → Skill → Bundles → Result Db → Bundles × Result UploadResult
  recorded input m sk b (failed e) = (b, failed e)
  recorded input m sk b (ok db) = (
    record b { db = db },
    ok (record {
      skill = record sk { latest_version = some input.version };
      version = version_of input m sk;
      manifest = m;
    }),
  )

  -- The archive is on disk before the row of the version is inserted.
  abbrev pub publish :
      UploadInput → Manifest → Bundles → Result (Db × Skill) → Bundles × Result UploadResult
  publish input m b (failed e) = (b, failed e)
  publish input m b (ok (db, sk)) =
      recorded input m sk
        (record {
          db = db;
          disk = write_archive (archive_path sk.slug input.version) input.archive b.disk;
        })
        (create_version now (version_of input m sk) db)

  abbrev pub with_manifest : UploadInput → Bundles → Result Manifest → Bundles × Result UploadResult
  with_manifest input b (failed e) = (b, failed e)
  with_manifest input b (ok m) =
      let slug : String = or_default input.slug_override m.name in
      if not (validate_slug slug)
      then (b, failed "invalid skill archive")
      else if not (str_eq m.name slug)
      then (b, failed "frontmatter name does not match slug")
      else publish input m b (ensure_skill input m slug b.db (get_skill_by_slug b.db slug))

  -- Upload
  unfoldable pub upload : UploadInput → Bundles → Bundles × Result UploadResult
  upload input b =
      if is_blank input.archive
      then (b, failed "archive is empty")
      else if ltb max_archive_size (length input.archive)
      then (b, failed "archive exceeds limit")
      else if not (matches_version input.version)
      then (b, failed "version must be MAJOR.MINOR.PATCH")
      else with_manifest input b (env.validate_archive input.archive)

-- OpenArchive: the row of a version and the file that it names.
abbrev pub opened : (Text → Option Text) → Option SkillVersion → Result (Text × SkillVersion)
opened disk none = failed "skill not found"
opened disk (some v) = elim (disk v.archive_path) [
  | none ↦ failed "opening archive"
  | some archive ↦ ok (archive, v)
]

unfoldable pub open_archive : Bundles → String → String → Result (Text × SkillVersion)
open_archive b id version = opened b.disk (get_version b.db id version)

-- ResolveLatest
abbrev pub unless_yanked : Skill → Option SkillVersion → Result (Skill × SkillVersion)
unless_yanked sk none = failed "skill not found"
unless_yanked sk (some v) = elim v.yanked_at [
  | none ↦ ok (sk, v)
  | some at ↦ failed "skill not found"
]

abbrev pub latest_of : Db → Skill → Option String → Option ℕ → Result (Skill × SkillVersion)
latest_of db sk version (some at) = failed "skill not found"
latest_of db sk none none = failed "skill not found"
latest_of db sk (some version) none = unless_yanked sk (get_version db sk.id version)

abbrev pub resolve_found : Db → Option Skill → Result (Skill × SkillVersion)
resolve_found db none = failed "skill not found"
resolve_found db (some sk) = latest_of db sk sk.latest_version sk.yanked_at

unfoldable pub resolve_latest : Db → String → Result (Skill × SkillVersion)
resolve_latest db slug = resolve_found db (get_skill_by_slug db slug)
