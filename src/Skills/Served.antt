-- ===== src/Skills/Served.antt =====
-- What is served after an upload.
use arc_relay.Prelude.{
  ℕ, ◌≡◌, refl, ap, ◌∙◌, subst, String, [], ◌∷◌, true, ◌&&◌, Option, none, some, not, if◌then◌else◌,
  if-elim, str_eq, str_eq_self, ◌==◌, ltb, length, arith,
}
use arc_relay.Prelude.Text.{Text, text_eq}
use arc_relay.Skills.{Skill, SkillVersion, Db, has_skill}
use arc_relay.Skills.Detect.{Result, ok, failed}
use arc_relay.Skills.Versions.{
  validate_slug, get_version, create_version, insert_version, find_version, has_version, is_version,
  is_blank, or_default,
}
use arc_relay.Skills.Uploads.{
  Manifest, Env, Bundles, UploadInput, UploadResult, max_archive_size, matches_version,
  archive_path, write_archive, version_of, recorded, publish, with_manifest, upload, opened,
  open_archive,
}

text_eq_self : (t : Text) → text_eq t t ≡ true
text_eq_self [] = refl
text_eq_self (c ∷ t) = let rest = text_eq_self t in ground arith

pub write_archive-same :
    (path archive : Text) (disk : Text → Option Text)
    → write_archive path archive disk path ≡ some archive
write_archive-same path archive disk = rw (text_eq_self path) refl

is_version_self : (v : SkillVersion) → is_version v.skill_id v.version v ≡ true
is_version_self v = rw (str_eq_self v.skill_id, str_eq_self v.version) refl

-- What CreateVersion leaves: a row with the path and the hash that it was given.
abbrev Inserted : SkillVersion → Result Db → Type 0
Inserted v (failed e) = Unit
Inserted v (ok db) =
    (row : SkillVersion) × (get_version db v.skill_id v.version ≡ some row)
    × (row.archive_path ≡ v.archive_path)
    × (row.archive_sha256 ≡ v.archive_sha256)

insert_version-Inserted :
    (given v : SkillVersion) (db : Db)
    → v.skill_id ≡ given.skill_id
    → v.version ≡ given.version
    → v.archive_path ≡ given.archive_path
    → v.archive_sha256 ≡ given.archive_sha256
    → Inserted given (insert_version v db)
unfolding get_version
insert_version-Inserted given v db same_id same_version same_path same_sha =
    if-elim (Inserted given) (has_version v.skill_id v.version db.versions) _ _ tt (
      if-elim (Inserted given) (not (has_skill v.skill_id db.skills)) _ _ tt (
        v,
        subst
            (λ i.
              (if str_eq v.skill_id i && str_eq v.version given.version
                then some v
                else find_version i given.version db.versions)
              ≡ some v)
            same_id
            (subst
              (λ n.
                (if str_eq v.skill_id v.skill_id && str_eq v.version n
                  then some v
                  else find_version v.skill_id n db.versions)
                ≡ some v)
              same_version (rw (is_version_self v) refl)),
        same_path,
        same_sha,
      ))

create_version-Inserted :
    (now : ℕ) (v : SkillVersion) (db : Db) → Inserted v (create_version now v db)
unfolding create_version
create_version-Inserted now v db = if-elim (Inserted v) (str_eq v.version "") _ _ tt (
    if-elim (Inserted v) (is_blank v.archive_path) _ _ tt (
      if-elim (Inserted v) (v.archive_size == 0) _ _ tt (
        if-elim (Inserted v) (str_eq v.archive_sha256 "") _ _ tt
          (insert_version-Inserted v _ db refl refl refl refl))))

pub opened_found :
    (disk : Text → Option Text) (o : Option SkillVersion) (row : SkillVersion) (path archive : Text)
    → o ≡ some row
    → row.archive_path ≡ path
    → disk path ≡ some archive
    → opened disk o ≡ ok (archive, row)
opened_found disk o row path archive found same held =
    ap (opened disk) found
    ∙ ap (λ a. elim a [ none ↦ failed "opening archive" | some x ↦ ok (x, row) ])
        (ap disk same ∙ held)

module _ (env : Env) (now : ℕ) (new_id : String) (input : UploadInput) where
  abbrev Served : Bundles × Result UploadResult → Type 0
  Served (b, failed e) = Unit
  Served (b, ok r) =
      (row : SkillVersion) × (open_archive b r.version.skill_id input.version
        ≡ ok (input.archive, row))
      × (row.archive_sha256 ≡ env.sha256 input.archive)

  recorded-Served :
      (m : Manifest) (sk : Skill) (b : Bundles) (r : Result Db)
      → b.disk (archive_path sk.slug input.version) ≡ some input.archive
      → Inserted (version_of env now new_id input m sk) r
      → Served (recorded env now new_id input m sk b r)
  unfolding open_archive
  recorded-Served m sk b (failed e) held h = tt
  recorded-Served m sk b (ok db) held h =
      let (row, found, path, sha) = h in
      (
        row,
        opened_found b.disk (get_version db sk.id input.version) row
            (archive_path sk.slug input.version) input.archive found path held,
        sha,
      )

  publish-Served :
      (m : Manifest) (b : Bundles) (r : Result (Db × Skill))
      → Served (publish env now new_id input m b r)
  publish-Served m b (failed e) = tt
  publish-Served m b (ok (db, sk)) =
      recorded-Served m sk _ (create_version now (version_of env now new_id input m sk) db)
        (write_archive-same (archive_path sk.slug input.version) input.archive b.disk)
        (create_version-Inserted now (version_of env now new_id input m sk) db)

  with_manifest-Served :
      (b : Bundles) (r : Result Manifest) → Served (with_manifest env now new_id input b r)
  with_manifest-Served b (failed e) = tt
  with_manifest-Served b (ok m) =
      if-elim Served (not (validate_slug (or_default input.slug_override m.name))) _ _ tt (
        if-elim Served (not (str_eq m.name (or_default input.slug_override m.name))) _ _ tt
          (publish-Served m b _))

  upload-Served : (b : Bundles) → Served (upload env now new_id input b)
  unfolding upload
  upload-Served b = if-elim Served (is_blank input.archive) _ _ tt (
      if-elim Served (ltb max_archive_size (length input.archive)) _ _ tt (
        if-elim Served (not (matches_version input.version)) _ _ tt
          (with_manifest-Served b (env.validate_archive input.archive))))

-- An archive that is uploaded is what OpenArchive gives for the version, and the row that it gives
-- with it holds the hash of that archive.
pub open_archive-upload :
    (env : Env) (now : ℕ) (new_id : String) (input : UploadInput) (b after : Bundles)
    (r : UploadResult)
    → upload env now new_id input b ≡ (after, ok r)
    → (row : SkillVersion) × (open_archive after r.version.skill_id input.version
        ≡ ok (input.archive, row))
      × (row.archive_sha256 ≡ env.sha256 input.archive)
open_archive-upload env now new_id input b after r done =
    subst (Served env now new_id input) done (upload-Served env now new_id input b)
