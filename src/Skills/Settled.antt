-- ===== src/Skills/Settled.antt =====
-- A check that is repeated.
use arc_relay.Prelude.{
  ℕ, ◌≡◌, refl, sym, ap, ◌∙◌, subst, inl, inr, String, List, [], ◌∷◌, true, false, ◌&&◌, none, some,
  not, if◌then◌else◌, if-elim, str_eq, str_eq_self, Bool-cases,
}
use arc_relay.Skills.{
  Verdict, SkillUpstream, Db, is_of, update_upstreams, find_upstream, get_upstream,
  update_upstream_check, write_drift_report, str_deref, ref_of, fetch_and_detect, apply_detection,
  has_skill, check_one,
}
use arc_relay.Skills.Detect.{
  Result, ok, failed, bind, Git, UpstreamRef, Detection, no_movement, no_path_touch,
  reverted_to_same, drift, resolve_sha, compare_hash, compare_head, detect, git_diff_names,
  git_diff_summary,
}

abbrev pub new_sha : Detection → String
new_sha (no_movement sha) = sha
new_sha (no_path_touch sha) = sha
new_sha (reverted_to_same sha hash) = sha
new_sha (drift sha hash commits changed summary) = sha

abbrev HasSha : String → Result Detection → Type 0
HasSha sha (ok d) = new_sha d ≡ sha
HasSha sha (failed e) = Unit

bind-HasSha :
    {A : Type 0} (sha : String) (r : Result A) (next : A → Result Detection)
    → ((a : A) → HasSha sha (next a))
    → HasSha sha (bind r next)
bind-HasSha sha (ok a) next h = h a
bind-HasSha sha (failed e) next h = tt

module _ (git : Git) where
  compare_hash-HasSha :
      (u : UpstreamRef) (ls lh : String) (max : ℕ) (sha : String) (commits : List String)
      → HasSha sha (compare_hash git u ls lh max sha commits)
  compare_hash-HasSha u ls lh max sha [] = refl
  compare_hash-HasSha u ls lh max sha (c ∷ cs) =
      bind-HasSha sha (git.hash_at sha u.git_subpath) _ λ hash.
        if-elim (HasSha sha) (not (str_eq lh "") && str_eq hash lh) _ _ refl (
          bind-HasSha sha (git_diff_names git ls sha u.git_subpath) _ λ changed.
            bind-HasSha sha (git_diff_summary git ls sha u.git_subpath max) _ λ summary. refl)

  compare_head-HasSha :
      (u : UpstreamRef) (ls lh : String) (max : ℕ) (sha : String)
      → HasSha sha (compare_head git u ls lh max sha)
  compare_head-HasSha u ls lh max sha =
      if-elim (HasSha sha) (not (str_eq ls "") && str_eq sha ls) _ _ refl (
        bind-HasSha sha (git.log_path ls sha u.git_subpath) _
          (λ commits. compare_hash-HasSha u ls lh max sha commits))

  detect-HasSha :
      (u : UpstreamRef) (ls lh : String) (max : ℕ) (sha : String)
      → resolve_sha git u.git_ref ≡ ok sha
      → HasSha sha (detect git u ls lh max)
  unfolding detect
  detect-HasSha u ls lh max sha h =
      subst (λ r. HasSha sha (bind r (compare_head git u ls lh max))) (sym h)
        (compare_head-HasSha u ls lh max sha)

  -- A row that has seen the head finds no movement.
  detect-still :
      (u : UpstreamRef) (lh : String) (max : ℕ) (sha : String)
      → resolve_sha git u.git_ref ≡ ok sha
      → str_eq sha "" ≡ false
      → detect git u sha lh max ≡ ok (no_movement sha)
  unfolding detect
  detect-still u lh max sha h e =
      ap (λ r. bind r (compare_head git u sha lh max)) h ∙ rw (e, str_eq_self sha) refl

find-update :
    (id : String) (f : SkillUpstream → SkillUpstream) (us : List SkillUpstream) (u : SkillUpstream)
    → ((x : SkillUpstream) → (f x).skill_id ≡ x.skill_id)
    → find_upstream id us ≡ some u
    → find_upstream id (update_upstreams id f us) ≡ some (f u)
find-update id f [] u kept h = cc
find-update id f (x ∷ xs) u kept h = elim (Bool-cases (is_of id x)) [
  | inl e ↦
      let same : some x ≡ some u =
        ap (λ b. if b then some x else find_upstream id xs) (sym e) ∙ h in
      let found : is_of id (f x) ≡ true = ap (λ i. str_eq i id) (kept x) ∙ e in
      rw (e, found) (ap (λ o. elim o [ some z ↦ some (f z) | none ↦ none ]) same)
  | inr e ↦
      rw (e, e)
        (find-update id f xs u kept
          (ap (λ b. if b then some x else find_upstream id xs) (sym e) ∙ h))
]

-- The row of a skill after a check: it asks for the same and has seen the commit.
abbrev HasSeen : SkillUpstream → String → Result Db → Type 0
HasSeen u sha (failed e) = Unit
HasSeen u sha (ok after) =
    (v : SkillUpstream) × (get_upstream after u.skill_id ≡ some v)
    × (v.git_ref ≡ u.git_ref)
    × (v.last_seen_sha ≡ some sha)

apply_detection-HasSeen :
    (classify : Detection → Verdict) (now : ℕ) (u : SkillUpstream) (db : Db) (d : Detection)
    → get_upstream db u.skill_id ≡ some u
    → HasSeen u (new_sha d) (apply_detection classify now u db d)
unfolding get_upstream update_upstream_check write_drift_report
apply_detection-HasSeen classify now u db (no_movement sha) h =
    (_, find-update u.skill_id _ db.upstreams u (λ x. refl) h, refl, refl)
apply_detection-HasSeen classify now u db (no_path_touch sha) h =
    (_, find-update u.skill_id _ db.upstreams u (λ x. refl) h, refl, refl)
apply_detection-HasSeen classify now u db (reverted_to_same sha hash) h =
    (_, find-update u.skill_id _ db.upstreams u (λ x. refl) h, refl, refl)
apply_detection-HasSeen classify now u db (drift sha hash commits changed summary) h =
    if-elim (HasSeen u sha) (has_skill u.skill_id db.skills) _ _
      (_, find-update u.skill_id _ db.upstreams u (λ x. refl) h, refl, refl) tt

module _ (git : Git) (classify : Detection → Verdict) where
  bound-HasSeen :
      (now : ℕ) (u : SkillUpstream) (db : Db) (sha : String) (r : Result Detection)
      → get_upstream db u.skill_id ≡ some u
      → HasSha sha r
      → HasSeen u sha (bind r (apply_detection classify now u db))
  bound-HasSeen now u db sha (ok d) h e =
      subst (λ s. HasSeen u s (apply_detection classify now u db d)) e
        (apply_detection-HasSeen classify now u db d h)
  bound-HasSeen now u db sha (failed x) h e = tt

  -- A check of a row of the table that succeeds settles, where the ref of the row resolves to a commit:
  -- whatever the check found, the row then has seen that commit, and a check of that row against the
  -- same upstream finds no movement.
  pub check_one-settles :
      (max now : ℕ) (u : SkillUpstream) (db after : Db) (sha : String)
      → get_upstream db u.skill_id ≡ some u
      → resolve_sha git u.git_ref ≡ ok sha
      → str_eq sha "" ≡ false
      → check_one git classify max now u db ≡ ok after
      → (v : SkillUpstream) × (get_upstream after u.skill_id ≡ some v)
        × (fetch_and_detect git max v ≡ ok (no_movement sha))
  unfolding check_one fetch_and_detect
  check_one-settles max now u db after sha h head given done =
      let seen : HasSeen u sha (ok after) = subst (HasSeen u sha) done (
        bound-HasSeen now u db sha (fetch_and_detect git max u) h (
          detect-HasSha git (ref_of u) (str_deref u.last_seen_sha) (str_deref u.last_seen_hash) max
            sha head)) in
      let (v, found, same_ref, same_sha) = seen in
      (
        v,
        found,
        ap (λ s. detect git (ref_of v) (str_deref s) (str_deref v.last_seen_hash) max) same_sha
            ∙ detect-still git (ref_of v) (str_deref v.last_seen_hash) max sha
                (ap (λ r. resolve_sha git r) same_ref ∙ head) given,
      )
