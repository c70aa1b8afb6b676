-- ===== src/Skills/Flag.antt =====
-- The outdated flag of a skill and the row of its upstream.
use arc_relay.Prelude.{
  ◌≡◌, refl, sym, ap, ◌∙◌, inl, inr, String, List, [], ◌∷◌, Bool, true, false, Option, none, some,
  not, if◌then◌else◌, keep, str_eq, Bool-cases,
}
use arc_relay.Skills.{
  DriftReport, SkillUpstream, Skill, Db, is_of, update_upstreams, flag, find_upstream, get_upstream,
  clear_upstream, write_drift_report, has_skill,
}

-- GetSkill, of which the flag is read.
abbrev pub outdated_of : String → List Skill → Option Bool
outdated_of id [] = none
outdated_of id (s ∷ ss) = if str_eq s.id id then some s.outdated else outdated_of id ss

has_skill-flag :
    (id : String) (b : Bool) (ss : List Skill) → has_skill id (flag id b ss) ≡ has_skill id ss
has_skill-flag id b [] = refl
has_skill-flag id b (s ∷ ss) = elim (Bool-cases (str_eq s.id id)) [
  | inl e ↦ rw (e, e) refl
  | inr e ↦ rw (e, e) (has_skill-flag id b ss)
]

outdated_of-flag :
    (id : String) (b : Bool) (ss : List Skill)
    → has_skill id ss ≡ true
    → outdated_of id (flag id b ss) ≡ some b
outdated_of-flag id b [] h = cc
outdated_of-flag id b (s ∷ ss) h = elim (Bool-cases (str_eq s.id id)) [
  | inl e ↦ rw (e, e) refl
  | inr e ↦
      rw (e, e)
        (outdated_of-flag id b ss (ap (λ t. if t then true else has_skill id ss) (sym e) ∙ h))
]

find-removed :
    (id : String) (us : List SkillUpstream)
    → find_upstream id (keep (λ u. not (is_of id u)) us) ≡ none
find-removed id [] = refl
find-removed id (u ∷ us) = elim (Bool-cases (is_of id u)) [
  | inl e ↦ rw e (find-removed id us)
  | inr e ↦ rw (e, e) (find-removed id us)
]

find-missing :
    (id : String) (f : SkillUpstream → SkillUpstream) (us : List SkillUpstream)
    → ((x : SkillUpstream) → (f x).skill_id ≡ x.skill_id)
    → find_upstream id us ≡ none
    → find_upstream id (update_upstreams id f us) ≡ none
find-missing id f [] kept h = refl
find-missing id f (u ∷ us) kept h = elim (Bool-cases (is_of id u)) [
  | inl e ↦
      let found : some u ≡ none = ap (λ t. if t then some u else find_upstream id us) (sym e) ∙ h in
      cc
  | inr e ↦
      rw (e, e)
        (find-missing id f us kept
          (ap (λ t. if t then some u else find_upstream id us) (sym e) ∙ h))
]

-- A check that ends after ClearUpstream: WriteDriftReport finds no row to fill in, and still marks
-- the skill, whichever it was, as outdated, while GetUpstream has nothing that it is behind of.
pub late_report-outdated :
    (id : String) (r : DriftReport) (db : Db)
    → has_skill id db.skills ≡ true
    → (get_upstream (write_drift_report id r (clear_upstream id db)) id ≡ none)
      × (outdated_of id (write_drift_report id r (clear_upstream id db)).skills ≡ some true)
unfolding get_upstream write_drift_report clear_upstream
late_report-outdated id r db h = (
  find-missing id _ (keep (λ u. not (is_of id u)) db.upstreams) (λ x. refl)
      (find-removed id db.upstreams),
  outdated_of-flag id true (flag id false db.skills) (has_skill-flag id false db.skills ∙ h),
)
