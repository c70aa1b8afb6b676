-- ===== src/Skills/Overwritten.antt =====
-- A version that is uploaded again.
use arc_relay.Prelude.{
  ℕ, ◌≡◌, refl, if-elim, not, ◌||◌, ltb, eq_iff, sym, ap, ◌∙◌, inl, inr, String, List, [], ◌∷◌,
  ◌++◌, true, false, some, if◌then◌else◌, Bool-cases, str_eq, ◌==◌, length, arith,
}
use arc_relay.Prelude.Text.{text_eq, Text, codes}
use arc_relay.Skills.{Skill, SkillVersion, Db}
use arc_relay.Skills.Detect.{ok, failed, Result}
use arc_relay.Skills.Versions.{
  validate_slug, or_default, get_skill_by_slug, update_skill_meta, get_version, create_version,
  find_version, has_version, is_version, is_blank,
}
use arc_relay.Skills.Uploads.{
  max_archive_size, matches_version, ensure_skill, display_name_of, description_of, with_manifest,
  upload, Manifest, Env, Bundles, UploadInput, archive_path, write_archive, version_of, recorded,
  publish, open_archive,
}
use arc_relay.Skills.Served.{write_archive-same, opened_found}

find-has_version :
    (id version : String) (vs : List SkillVersion) (v : SkillVersion)
    → find_version id version vs ≡ some v
    → has_version id version vs ≡ true
find-has_version id version [] v h = cc
find-has_version id version (x ∷ xs) v h = elim (Bool-cases (is_version id version x)) [
  | inl e ↦ rw e refl
  | inr e ↦ rw e (
      find-has_version id version xs v
        (ap (λ b. if b then some x else find_version id version xs) (sym e) ∙ h))
]

archive_path-is_blank :
    (s : Text) (version : String)
    → is_blank (s ++ codes "/" ++ codes version ++ codes ".tar.gz") ≡ false
archive_path-is_blank [] version = refl
archive_path-is_blank (c ∷ s) version = refl

length_positive : (t : Text) → is_blank t ≡ false → (length t == 0) ≡ false
length_positive [] h = cc
length_positive (c ∷ t) h = ground arith

create_version-conflict :
    (now : ℕ) (v : SkillVersion) (db : Db)
    → str_eq v.version "" ≡ false
    → is_blank v.archive_path ≡ false
    → (v.archive_size == 0) ≡ false
    → str_eq v.archive_sha256 "" ≡ false
    → has_version v.skill_id v.version db.versions ≡ true
    → create_version now v db ≡ failed "skill version already exists"
unfolding create_version
create_version-conflict now v db e1 e2 e3 e4 e5 = rw (e1, e2, e3, e4, e5) refl

-- A step of Upload from a database whose versions are as they were.
publish_overwrites :
    (env : Env) (now : ℕ) (new_id : String) (input : UploadInput) (m : Manifest) (b : Bundles)
    (db : Db) (sk : Skill) (v : SkillVersion)
    → get_version db sk.id input.version ≡ some v
    → v.archive_path ≡ archive_path sk.slug input.version
    → is_blank input.archive ≡ false
    → str_eq input.version "" ≡ false
    → str_eq (env.sha256 input.archive) "" ≡ false
    → (after : Bundles) × (publish env now new_id input m b (ok (db, sk))
        ≡ (after, failed "skill version already exists"))
      × (after.db ≡ db)
      × (open_archive after sk.id input.version ≡ ok (input.archive, v))
unfolding get_version open_archive
publish_overwrites env now new_id input m b db sk v found path given versioned hashed =
    let conflict : create_version now (version_of env now new_id input m sk) db
        ≡ failed "skill version already exists" =
      create_version-conflict now (version_of env now new_id input m sk) db versioned
        (archive_path-is_blank (codes sk.slug) input.version) (length_positive input.archive given)
        hashed (find-has_version sk.id input.version db.versions v found) in
    (
      _,
      ap (recorded env now new_id input m sk _) conflict,
      refl,
      opened_found (write_archive (archive_path sk.slug input.version) input.archive b.disk)
          (get_version db sk.id input.version) v (archive_path sk.slug input.version) input.archive
          found path (write_archive-same (archive_path sk.slug input.version) input.archive b.disk),
    )

-- Refreshing the names of a skill leaves the versions, and the id and slug of the skill.
abbrev IsRefreshed : Skill → Db → Result (Db × Skill) → Type 0
IsRefreshed sk db r =
    (db' : Db) × (sk' : Skill) × (r ≡ ok (db', sk'))
    × (db'.versions ≡ db.versions)
    × (sk'.id ≡ sk.id)
    × (sk'.slug ≡ sk.slug)

ensure_skill-IsRefreshed :
    (env : Env) (now : ℕ) (new_id : String) (input : UploadInput) (m : Manifest) (slug : String)
    (db : Db) (sk : Skill)
    → IsRefreshed sk db (ensure_skill env now new_id input m slug db (some sk))
unfolding update_skill_meta
ensure_skill-IsRefreshed env now new_id input m slug db sk =
    if-elim (IsRefreshed sk db)
      (not (text_eq (display_name_of input m slug) sk.display_name)
        || not (text_eq (description_of input m) sk.description))
      _ _ (_, _, refl, refl, refl, refl) (_, _, refl, refl, refl, refl)

matches-given : (version : String) → matches_version version ≡ true → str_eq version "" ≡ false
unfolding matches_version
matches-given version h = elim (Bool-cases (str_eq version "")) [
  | inl blank ↦
      let same : version ≡ "" = (eq_iff version "").0 blank in
      let clash : false ≡ true = sym (ap matches_version same) ∙ h in cc
  | inr given ↦ given
]

-- An upload of a version that exists is refused after its archive has replaced the one on disk: where
-- the upload passes the checks on archive, version, manifest and slug, the archive of the stored row is
-- where Upload puts it, and the new hash is not empty, the upload fails with a conflict and leaves the
-- versions in the database as they were, but OpenArchive then gives the refused archive with the row,
-- and so the hash, of the one that was accepted.
pub upload_overwrites :
    (env : Env) (now : ℕ) (new_id : String) (input : UploadInput) (m : Manifest) (b : Bundles)
    (sk : Skill) (v : SkillVersion)
    → is_blank input.archive ≡ false
    → ltb max_archive_size (length input.archive) ≡ false
    → matches_version input.version ≡ true
    → env.validate_archive input.archive ≡ ok m
    → validate_slug (or_default input.slug_override m.name) ≡ true
    → str_eq m.name (or_default input.slug_override m.name) ≡ true
    → get_skill_by_slug b.db (or_default input.slug_override m.name) ≡ some sk
    → get_version b.db sk.id input.version ≡ some v
    → v.archive_path ≡ archive_path sk.slug input.version
    → str_eq (env.sha256 input.archive) "" ≡ false
    → (after : Bundles) × (upload env now new_id input b
        ≡ (after, failed "skill version already exists"))
      × (after.db.versions ≡ b.db.versions)
      × (open_archive after sk.id input.version ≡ ok (input.archive, v))
unfolding upload get_version
upload_overwrites env now new_id input m b sk v given small versioned valid slugged named found
      stored path hashed =
    let slug : String = or_default input.slug_override m.name in
    let (db, sk', refreshed, versions, id, same_slug) =
      ensure_skill-IsRefreshed env now new_id input m slug b.db sk in
    let kept : get_version db sk'.id input.version ≡ some v =
      ap (λ vs. find_version sk'.id input.version vs) versions
      ∙ ap (λ i. find_version i input.version b.db.versions) id
      ∙ stored in
    let there : v.archive_path ≡ archive_path sk'.slug input.version =
      path ∙ ap (λ s. archive_path s input.version) (sym same_slug) in
    let (after, refused, same_db, served) =
      publish_overwrites env now new_id input m b db sk' v kept there given
        (matches-given input.version versioned) hashed in
    (
      after,
      rw (given, small, versioned)
          (ap (with_manifest env now new_id input b) valid
            ∙ rw (slugged, named)
                (ap
                    (λ o.
                      publish env now new_id input m b
                        (ensure_skill env now new_id input m slug b.db o))
                    found
                  ∙ ap (publish env now new_id input m b) refreshed
                  ∙ refused)),
      ap (λ d. d.versions) same_db ∙ versions,
      ap (λ i. open_archive after i input.version) (sym id) ∙ served,
    )
