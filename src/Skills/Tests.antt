-- ===== src/Skills/Tests.antt =====
-- A skill whose upstream moved by one commit.
use arc_relay.Prelude.{
  ℕ, ◌≡◌, refl, String, [], ◌∷◌, Bool, true, false, Option, none, some, str_eq, if◌then◌else◌,
}
use arc_relay.Prelude.Text.{codes, trim_space}
use arc_relay.Skills.{
  Verdict, DriftReport, SkillUpstream, Db, get_upstream, upsert_upstream, clear_upstream,
  write_drift_report, clear_drift_report, fetch_and_detect, check_one,
}
use arc_relay.Skills.Detect.{
  ok, failed, Git, no_movement, no_path_touch, reverted_to_same, drift, git_diff_names,
  git_diff_summary, detect, resolve_sha,
}
use arc_relay.Skills.Url.{
  empty, leading_dash, transport, helper, validate_git_url, validate_git_url_helper,
}
use arc_relay.Skills.Settled.{check_one-settles}
use arc_relay.Skills.Flag.{outdated_of, late_report-outdated}

-- Two branches; the head of "dev" did not touch the path.
abbrev git : Git
git = record {
  rev_parse = λ r.
      if str_eq r "gone"
      then failed "unknown revision"
      else if str_eq r "dev"
      then ok "d4"
      else ok "b2";
  log_path = λ from to subpath. if str_eq to "d4" then ok [] else ok ("b2 change" ∷ []);
  hash_at = λ sha subpath. ok "h2";
  diff_names = λ from to subpath. ok (codes "a.md\nb.md\n");
  diff_stat = λ from to subpath. ok (codes "2 files changed");
}

abbrev verdict : Verdict
verdict = record {
  relay_version = "1.0.0";
  relay_hash = "h1";
  severity = "minor";
  summary = "two files";
  recommended_action = "update";
  llm_model = "";
}

abbrev row : Option String → Option String → Option ℕ → Option DriftReport → SkillUpstream
row sha hash checked r = record {
  skill_id = "s";
  git_url = codes "https://example.com/r.git";
  git_subpath = "skills/s";
  git_ref = "HEAD";
  last_checked_at = checked;
  last_seen_sha = sha;
  last_seen_hash = hash;
  drift_report = r;
}

abbrev db_of : SkillUpstream → Bool → Db
db_of u b = record {
  skills =
      record {
        id = "s";
        slug = "sk";
        display_name = codes "S";
        description = [];
        visibility = "public";
        latest_version = some "1.0.0";
        yanked_at = none;
        created_by = none;
        outdated = b;
      }
      ∷ [];
  versions = [];
  assignments = [];
  upstreams = u ∷ [];
}

abbrev report : DriftReport
report = record {
  upstream_sha = "b2";
  upstream_hash = "h2";
  commits_ahead = 1;
  verdict = verdict;
  detected_at = 50;
}

abbrev before : SkillUpstream
before = row (some "a1") (some "h1") none none

abbrev drifted : Db
drifted = db_of (row (some "b2") (some "h2") (some 50) (some report)) true

drift_found : check_one git (λ d. verdict) 100 50 before (db_of before false) ≡ ok drifted
unfolding check_one fetch_and_detect detect resolve_sha git_diff_names git_diff_summary
    write_drift_report
drift_found = refl

first_check :
    fetch_and_detect git 6 (row none none none none)
    ≡ ok (drift "b2" "h2" 1 (codes "a.md" ∷ codes "b.md" ∷ []) (codes "2 file\n... (truncated)"))
unfolding fetch_and_detect detect resolve_sha git_diff_names git_diff_summary
first_check = refl

reverted :
    fetch_and_detect git 100 (row (some "a1") (some "h2") none none)
    ≡ ok (reverted_to_same "b2" "h2")
unfolding fetch_and_detect detect resolve_sha
reverted = refl

other_path : fetch_and_detect git 100 (record before { git_ref = "dev" }) ≡ ok (no_path_touch "d4")
unfolding fetch_and_detect detect resolve_sha
other_path = refl

lost_branch :
    check_one git (λ d. verdict) 100 50 (record before { git_ref = "gone" }) (db_of before false)
    ≡ failed "unknown revision"
unfolding check_one fetch_and_detect detect resolve_sha
lost_branch = refl

kept_on_conflict :
    upsert_upstream "s" (codes "https://example.com/new.git") "" "" (some "h9") drifted
    ≡ ok (record drifted {
      upstreams =
          record (row (some "b2") (some "h2") (some 50) (some report)) {
            git_url = codes "https://example.com/new.git";
            git_subpath = "";
          }
          ∷ [];
    })
unfolding upsert_upstream validate_git_url trim_space
kept_on_conflict = refl

refused_urls :
    (validate_git_url (codes " ") ≡ some empty)
    × (validate_git_url (codes "--upload-pack=x") ≡ some leading_dash)
    × (validate_git_url (codes "FTP://example.com/r") ≡ some (transport (codes "ftp")))
    × (validate_git_url (codes "ext::sh -c x") ≡ some helper)
    × (validate_git_url (codes "file:///srv/r.git") ≡ none)
    × (validate_git_url (codes "git@example.com:o/r.git") ≡ none)
unfolding validate_git_url trim_space
refused_urls = (refl, refl, refl, refl, refl, refl)

validate_git_url_helper_example : ¬ (validate_git_url (codes " ext::sh -c https://x ") ≡ none)
unfolding trim_space
validate_git_url_helper_example =
    validate_git_url_helper (codes " ext::sh -c https://x ") (codes "ext") (codes "sh -c https://x")
      refl refl

cleared :
    clear_drift_report "s" "h3" drifted ≡ db_of (row (some "b2") (some "h3") (some 50) none) false
unfolding clear_drift_report
cleared = refl

check_one-settles_example :
    (v : SkillUpstream) × (get_upstream drifted "s" ≡ some v)
    × (fetch_and_detect git 100 v ≡ ok (no_movement "b2"))
unfolding get_upstream resolve_sha
check_one-settles_example =
    check_one-settles git (λ d. verdict) 100 50 before (db_of before false) drifted "b2" refl refl
      refl drift_found

dashed :
    check_one git (λ d. verdict) 100 50 (record before { git_ref = "--all" }) (db_of before false)
    ≡ failed "ref must not start with '-'"
unfolding check_one fetch_and_detect detect resolve_sha
dashed = refl

late_report :
    (get_upstream (write_drift_report "s" report (clear_upstream "s" (db_of before false))) "s"
      ≡ none)
    × (outdated_of "s"
          (write_drift_report "s" report (clear_upstream "s" (db_of before false))).skills
        ≡ some true)
late_report = late_report-outdated "s" report (db_of before false) refl
