-- ===== src/Skills.antt =====
-- The rows of internal/store/skills.go, and internal/skills/checker: how an upstream is checked and what
-- is written about it. What a language model makes of a difference is an argument. A check runs to its
-- end; the caches of clones are left out.
pub mod Detect
pub mod Url
pub mod Versions
pub mod Uploads
pub mod Served
pub mod Overwritten
pub mod Assigned
pub mod Listed
pub mod Settled
pub mod Flag
mod Tests
use arc_relay.Prelude.{
  ℕ, String, List, [], ◌∷◌, Bool, true, false, Option, none, some, not, if◌then◌else◌, keep, any,
  str_eq,
}
use arc_relay.Prelude.Text.{Text}
use arc_relay.Skills.Detect.{
  Result, ok, failed, bind, Git, UpstreamRef, Detection, no_movement, no_path_touch,
  reverted_to_same, drift, or_head, detect,
}
use arc_relay.Skills.Url.{UrlFault, validate_git_url}

-- What Classify adds to a difference, and the report with the commit and hash it is about.
pub record Verdict : Type 0 where
  pub relay_version : String
  pub relay_hash : String
  pub severity : String
  pub summary : String
  pub recommended_action : String
  pub llm_model : String

pub record DriftReport : Type 0 where
  pub upstream_sha : String
  pub upstream_hash : String
  pub commits_ahead : ℕ
  pub verdict : Verdict
  pub detected_at : ℕ

-- A row of skill_upstreams; the drift columns are set and cleared together.
pub record SkillUpstream : Type 0 where
  pub skill_id : String
  pub git_url : Text
  pub git_subpath : String
  pub git_ref : String
  pub last_checked_at : Option ℕ
  pub last_seen_sha : Option String
  pub last_seen_hash : Option String
  pub drift_report : Option DriftReport

-- Who is granted a skill, and the version that the grant pins.
pub record SkillAssignment : Type 0 where
  pub skill_id : String
  pub user_id : String
  pub version : Option String
  pub assigned_by : Option String
  pub assigned_at : ℕ

-- Times of creation and update are left out.
pub record Skill : Type 0 where
  pub id : String
  pub slug : String
  pub display_name : Text
  pub description : Text
  pub visibility : String
  pub latest_version : Option String
  pub yanked_at : Option ℕ
  pub created_by : Option String
  pub outdated : Bool

pub record SkillVersion : Type 0 where
  pub skill_id : String
  pub version : String
  pub archive_path : Text
  pub archive_size : ℕ
  pub archive_sha256 : String
  pub manifest : String
  pub yanked_at : Option ℕ
  pub uploaded_by : Option String
  pub uploaded_at : ℕ

pub record Db : Type 0 where
  pub skills : List Skill
  pub versions : List SkillVersion
  pub assignments : List SkillAssignment
  pub upstreams : List SkillUpstream

abbrev pub is_of : String → SkillUpstream → Bool
is_of id u = str_eq u.skill_id id

abbrev pub update_upstreams :
    String → (SkillUpstream → SkillUpstream) → List SkillUpstream → List SkillUpstream
update_upstreams id f [] = []
update_upstreams id f (u ∷ us) = (if is_of id u then f u else u) ∷ update_upstreams id f us

abbrev pub flag : String → Bool → List Skill → List Skill
flag id b [] = []
flag id b (s ∷ ss) = (if str_eq s.id id then record s { outdated = b } else s) ∷ flag id b ss

-- GetUpstream
abbrev pub find_upstream : String → List SkillUpstream → Option SkillUpstream
find_upstream id [] = none
find_upstream id (u ∷ us) = if is_of id u then some u else find_upstream id us

unfoldable pub get_upstream : Db → String → Option SkillUpstream
get_upstream db id = find_upstream id db.upstreams

-- UpsertUpstream: what was seen stays on a conflict.
abbrev pub insert_or_update : SkillUpstream → List SkillUpstream → List SkillUpstream
insert_or_update n [] = n ∷ []
insert_or_update n (u ∷ us) =
    if is_of n.skill_id u
    then record u { git_url = n.git_url; git_subpath = n.git_subpath; git_ref = n.git_ref } ∷ us
    else u ∷ insert_or_update n us

abbrev pub has_skill : String → List Skill → Bool
has_skill id = any (λ s. str_eq s.id id)

abbrev pub upsert_valid :
    String → Text → String → String → Option String → Db → Option UrlFault → Result Db
upsert_valid id url subpath ref hash db (some fault) = failed "unsupported git URL"
upsert_valid id url subpath ref hash db none =
    if has_skill id db.skills
    then ok (record db {
      upstreams =
          insert_or_update
            (record {
              skill_id = id;
              git_url = url;
              git_subpath = subpath;
              git_ref = or_head ref;
              last_checked_at = none;
              last_seen_sha = none;
              last_seen_hash = hash;
              drift_report = none;
            })
            db.upstreams;
    })
    else failed "FOREIGN KEY constraint failed"

unfoldable pub upsert_upstream : String → Text → String → String → Option String → Db → Result Db
upsert_upstream id url subpath ref hash db =
    upsert_valid id url subpath ref hash db (validate_git_url url)

-- ClearUpstream
unfoldable pub clear_upstream : String → Db → Db
clear_upstream id db = record db {
  upstreams = keep (λ u. not (is_of id u)) db.upstreams;
  skills = flag id false db.skills;
}

-- UpdateUpstreamCheck
unfoldable pub update_upstream_check : String → String → String → ℕ → Db → Db
update_upstream_check id sha hash now db = record db {
  upstreams =
      update_upstreams id
        (λ u. record u {
          last_seen_sha = some sha;
          last_seen_hash = some hash;
          last_checked_at = some now;
        })
        db.upstreams;
}

-- WriteDriftReport
unfoldable pub write_drift_report : String → DriftReport → Db → Db
write_drift_report id r db = record db {
  upstreams =
      update_upstreams id
        (λ u. record u {
          drift_report = some r;
          last_seen_sha = some r.upstream_sha;
          last_seen_hash = some r.upstream_hash;
          last_checked_at = some r.detected_at;
        })
        db.upstreams;
  skills = flag id true db.skills;
}

-- ClearDriftReport
unfoldable pub clear_drift_report : String → String → Db → Db
clear_drift_report id hash db = record db {
  upstreams =
      update_upstreams id (λ u. record u { drift_report = none; last_seen_hash = some hash })
        db.upstreams;
  skills = flag id false db.skills;
}

-- strDeref
abbrev pub str_deref : Option String → String
str_deref none = ""
str_deref (some s) = s

abbrev pub ref_of : SkillUpstream → UpstreamRef
ref_of u = record { git_subpath = u.git_subpath; git_ref = u.git_ref }

-- fetchAndDetect after EnsureCache.
unfoldable pub fetch_and_detect : Git → ℕ → SkillUpstream → Result Detection
fetch_and_detect git max u =
    detect git (ref_of u) (str_deref u.last_seen_sha) (str_deref u.last_seen_hash) max

-- applyDetection; `classify` is the verdict on a difference.
abbrev pub report_of : Verdict → ℕ → String → String → ℕ → DriftReport
report_of v now sha hash commits = record {
  upstream_sha = sha;
  upstream_hash = hash;
  commits_ahead = commits;
  verdict = v;
  detected_at = now;
}

abbrev pub apply_detection : (Detection → Verdict) → ℕ → SkillUpstream → Db → Detection → Result Db
apply_detection classify now u db (no_movement sha) =
    ok (update_upstream_check u.skill_id sha (str_deref u.last_seen_hash) now db)
apply_detection classify now u db (no_path_touch sha) =
    ok (update_upstream_check u.skill_id sha (str_deref u.last_seen_hash) now db)
apply_detection classify now u db (reverted_to_same sha hash) =
    ok (update_upstream_check u.skill_id sha (str_deref u.last_seen_hash) now db)
apply_detection classify now u db (drift sha hash commits changed summary) =
    if has_skill u.skill_id db.skills
    then ok (
        write_drift_report u.skill_id
          (report_of (classify (drift sha hash commits changed summary)) now sha hash commits) db)
    else failed "skill vanished mid-check"

-- checkOne
unfoldable pub check_one : Git → (Detection → Verdict) → ℕ → ℕ → SkillUpstream → Db → Result Db
check_one git classify max now u db =
    bind (fetch_and_detect git max u) (apply_detection classify now u db)
