-- ===== src/Skills/Uploads/Tests.antt =====
-- A skill that is published twice under one version.
use arc_relay.Prelude.{◌≡◌, refl, [], ◌∷◌, true, false, none, some, if◌then◌else◌, ◌==◌, length}
use arc_relay.Prelude.Text.{Text, codes, text_eq, trim_space}
use arc_relay.Skills.{Skill, SkillVersion, Db}
use arc_relay.Skills.Detect.{ok, failed}
use arc_relay.Skills.Versions.{
  validate_slug, create_skill, get_skill_by_slug, update_skill_meta, get_version, create_version,
  yank_version, unyank_version, yank_skill, unyank_skill, delete_skill,
}
use arc_relay.Skills.Uploads.{
  Manifest, Env, Bundles, UploadInput, matches_version, upload, open_archive, resolve_latest,
}
use arc_relay.Skills.Served.{open_archive-upload}
use arc_relay.Skills.Overwritten.{upload_overwrites}

abbrev manifest : Manifest
manifest = record { name = "my-skill"; description = codes "\n About it\nMore" }

abbrev env : Env
env = record {
  validate_archive = λ archive. ok manifest;
  sha256 = λ archive. if length archive == 2 then "aa" else "bb";
  encode = λ m. "{}";
}

abbrev input : Text → UploadInput
input archive = record {
  slug_override = "";
  version = "1.0.0";
  archive = archive;
  uploaded_by = "u";
  display_name = [];
  description = codes "All of it";
  visibility = "";
}

abbrev before : Bundles
before = record {
  db = record { skills = []; versions = []; assignments = []; upstreams = [] };
  disk = λ path. none;
}

abbrev skill : Skill
skill = record {
  id = "i";
  slug = "my-skill";
  display_name = codes "About it";
  description = codes "All of it";
  visibility = "restricted";
  latest_version = some "1.0.0";
  yanked_at = none;
  created_by = some "u";
  outdated = false;
}

abbrev version : SkillVersion
version = record {
  skill_id = "i";
  version = "1.0.0";
  archive_path = codes "my-skill/1.0.0.tar.gz";
  archive_size = 2;
  archive_sha256 = "aa";
  manifest = "{}";
  yanked_at = none;
  uploaded_by = some "u";
  uploaded_at = 7;
}

abbrev published : Bundles
published = record {
  db = record { skills = skill ∷ []; versions = version ∷ []; assignments = []; upstreams = [] };
  disk = λ path. if text_eq (codes "my-skill/1.0.0.tar.gz") path then some (1 ∷ 2 ∷ []) else none;
}

first_upload :
    upload env 7 "i" (input (1 ∷ 2 ∷ [])) before
    ≡ (published, ok (record { skill = skill; version = version; manifest = manifest }))
unfolding upload matches_version validate_slug get_skill_by_slug create_skill create_version
    trim_space
first_upload = refl

served_latest : resolve_latest published.db "my-skill" ≡ ok (skill, version)
unfolding resolve_latest get_skill_by_slug get_version
served_latest = refl

second_upload : upload env 9 "j" (input (3 ∷ 4 ∷ 5 ∷ [])) published ≡ (
  record published {
    disk = λ path.
        if text_eq (codes "my-skill/1.0.0.tar.gz") path
        then some (3 ∷ 4 ∷ 5 ∷ [])
        else published.disk path;
  },
  failed "skill version already exists",
)
unfolding upload matches_version validate_slug get_skill_by_slug create_skill create_version
    update_skill_meta trim_space
second_upload = refl

bad_versions :
    (matches_version "1.0" ≡ false)
    × (matches_version "v1.0.0" ≡ false)
    × (matches_version "1.0.0-rc.1" ≡ true)
    × (matches_version "1.0.0-" ≡ false)
unfolding matches_version
bad_versions = (refl, refl, refl, refl)

bad_slugs :
    (validate_slug "a" ≡ false) × (validate_slug "a-" ≡ false) × (validate_slug "a-b1" ≡ true)
unfolding validate_slug
bad_slugs = (refl, refl, refl)

abbrev yanked : Db
yanked = record published.db { versions = record version { yanked_at = some 8 } ∷ [] }

version_yanked : yank_version 8 "i" "1.0.0" published.db ≡ ok yanked
unfolding yank_version
version_yanked = refl

version_back : unyank_version "i" "1.0.0" yanked ≡ ok published.db
unfolding unyank_version
version_back = refl

nothing_served : resolve_latest yanked "my-skill" ≡ failed "skill not found"
unfolding resolve_latest get_skill_by_slug get_version
nothing_served = refl

skill_yanked : resolve_latest (yank_skill 8 "i" published.db) "my-skill" ≡ failed "skill not found"
unfolding resolve_latest get_skill_by_slug yank_skill get_version
skill_yanked = refl

skill_back : unyank_skill "i" (yank_skill 8 "i" published.db) ≡ published.db
unfolding yank_skill unyank_skill
skill_back = refl

deleted : delete_skill "i" published.db ≡ before.db
unfolding delete_skill
deleted = refl

open_archive-upload_example :
    (row : SkillVersion) × (open_archive published "i" "1.0.0" ≡ ok (1 ∷ 2 ∷ [], row))
    × (row.archive_sha256 ≡ "aa")
open_archive-upload_example =
    open_archive-upload env 7 "i" (input (1 ∷ 2 ∷ [])) before published
      (record { skill = skill; version = version; manifest = manifest }) first_upload

upload_overwrites_example :
    (after : Bundles) × (upload env 9 "j" (input (3 ∷ 4 ∷ 5 ∷ [])) published
      ≡ (after, failed "skill version already exists"))
    × (after.db.versions ≡ published.db.versions)
    × (open_archive after "i" "1.0.0" ≡ ok (3 ∷ 4 ∷ 5 ∷ [], version))
unfolding get_version get_skill_by_slug matches_version validate_slug
upload_overwrites_example =
    upload_overwrites env 9 "j" (input (3 ∷ 4 ∷ 5 ∷ [])) manifest published skill version refl refl
      refl refl refl refl refl refl refl refl
