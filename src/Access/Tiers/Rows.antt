-- ===== src/Access/Tiers/Rows.antt =====
-- Rows of the tier table under an upsert.
use arc_relay.Prelude.{
  ◌≡◌, inl, inr, String, List, [], ◌∷◌, Bool, true, false, ◌&&◌, Option, none, some, arith, str_eq,
  str_eq_self, eq_iff, Bool-cases, if◌then◌else◌,
}
use arc_relay.Access.Tiers.{EndpointTier, EndpointInfo, has_key, find_row, upsert, sync_row}

pub record HasKey (s t n : String) (r : EndpointTier) : Type 0 where
  pub server : r.server_id ≡ s
  pub type : r.endpoint_type ≡ t
  pub name : r.endpoint_name ≡ n

pub has_key-HasKey : (s t n : String) (r : EndpointTier) → has_key s t n r ≡ true → HasKey s t n r
has_key-HasKey s t n r h =
    ground (arith, eq_iff r.server_id s, eq_iff r.endpoint_type t, eq_iff r.endpoint_name n)

abbrev pub same_key : String → String → String → String → String → String → Bool
same_key s t n s' t' n' = str_eq s s' && (str_eq t t' && str_eq n n')

pub has_key-same :
    (s t n s' t' n' : String) (r : EndpointTier)
    → has_key s t n r ≡ true
    → has_key s' t' n' r ≡ same_key s t n s' t' n'
has_key-same s t n s' t' n' r h = let k = has_key-HasKey s t n r h in rw (k.server, k.type, k.name)

-- An update that leaves the key alone.
pub record KeepsKey (f : EndpointTier → EndpointTier) : Type 0 where
  pub keeps : (s t n : String) (r : EndpointTier) → has_key s t n (f r) ≡ has_key s t n r

abbrev pub stored :
    (EndpointTier → EndpointTier) → EndpointTier → Option EndpointTier → EndpointTier
stored f r none = r
stored f r (some x) = f x

pub same_key-eq :
    (s t n s' t' n' : String) → same_key s t n s' t' n' ≡ true → (s ≡ s') × (t ≡ t') × (n ≡ n')
same_key-eq s t n s' t' n' h = ground (arith, eq_iff s s', eq_iff t t', eq_iff n n')

pub not_same :
    (s t n s' t' n' : String) (x : EndpointTier)
    → has_key s t n x ≡ false
    → has_key s' t' n' x ≡ true
    → same_key s t n s' t' n' ≡ false
not_same s t n s' t' n' x miss hit = elim (Bool-cases (same_key s t n s' t' n')) [
  | inl same ↦
      let k = same_key-eq s t n s' t' n' same in
      let back : has_key s t n x ≡ true = rw (k.0, k.1, k.2) hit in cc
  | inr other ↦ other
]

pub find_row-upsert :
    (s t n s' t' n' : String) (f : EndpointTier → EndpointTier) (r : EndpointTier)
    (table : List EndpointTier)
    → KeepsKey f
    → has_key s t n r ≡ true
    → find_row s' t' n' (upsert s t n f r table) ≡ (
        if same_key s t n s' t' n'
        then some (stored f r (find_row s t n table))
        else find_row s' t' n' table)
unfolding upsert
find_row-upsert s t n s' t' n' f r [] k h = ground (arith, has_key-same s t n s' t' n' r h)
find_row-upsert s t n s' t' n' f r (x ∷ xs) k h = elim (Bool-cases (has_key s t n x)) [
  | inl e ↦ rw e (
      rw (k.keeps s' t' n' x, has_key-same s t n s' t' n' x e)
        (elim (Bool-cases (same_key s t n s' t' n')) [ inl y ↦ rw y | inr y ↦ rw y ]))
  | inr e ↦ elim (Bool-cases (has_key s' t' n' x)) [
    | inl hit ↦ rw e (rw (hit, not_same s t n s' t' n' x e hit))
    | inr miss ↦ rw e (rw miss (find_row-upsert s t n s' t' n' f r xs k h))
  ]
]

-- The update of the loop, for the endpoint `ep` at `tier`.
abbrev pub reclassify : String → EndpointTier → EndpointTier
reclassify tier x = if x.auto_classified then record x { access_tier = tier } else x

pub reclassify-KeepsKey : (tier : String) → KeepsKey (reclassify tier)
reclassify-KeepsKey tier = record { keeps = λ s t n r. ground arith }

abbrev pub new_row : String → EndpointInfo → String → EndpointTier
new_row server ep tier = record {
  server_id = server;
  endpoint_type = ep.type;
  endpoint_name = ep.name;
  access_tier = tier;
  auto_classified = true;
}

pub has_key-new_row :
    (server : String) (ep : EndpointInfo) (tier : String)
    → has_key server ep.type ep.name (new_row server ep tier) ≡ true
has_key-new_row server ep tier = rw (str_eq_self server, str_eq_self ep.type, str_eq_self ep.name)

pub find_row-sync_row :
    (server : String) (ep : EndpointInfo) (tier s t n : String) (table : List EndpointTier)
    → find_row s t n (sync_row server ep tier table) ≡ (
        if same_key server ep.type ep.name s t n
        then some (
            stored
              (reclassify tier)
              (new_row server ep tier)
              (find_row server ep.type ep.name table))
        else find_row s t n table)
unfolding sync_row
find_row-sync_row server ep tier s t n table =
    find_row-upsert server ep.type ep.name s t n (reclassify tier) (new_row server ep tier) table
      (reclassify-KeepsKey tier) (has_key-new_row server ep tier)
