-- ===== src/Access/Tiers/Sync.antt =====
-- What re-enumerating a server's endpoints does to the stored tiers.
use arc_relay.Prelude.{
  ◌≡◌, refl, ◌∙◌, ◌⊎◌, inl, inr, String, List, [], ◌∷◌, Bool, true, false, ◌||◌, none, some, arith,
  keep, not, Some, str_eq, str_eq_self, eq_iff, Bool-cases, if◌then◌else◌,
}
use arc_relay.Access.Tiers.{
  EndpointTier, EndpointInfo, has_key, find_row, sync_row, sync_rows, join, is_current,
  sync_after_enumerate,
}
use arc_relay.Access.Tiers.Rows.{
  has_key-HasKey, same_key, stored, same_key-eq, reclassify, new_row, find_row-sync_row,
}

module _ (classify : String → String → String → String) where
  sync_rows-manual :
      (server s t n : String) (eps : List EndpointInfo) (table : List EndpointTier)
      (r : EndpointTier)
      → find_row s t n table ≡ some r
      → r.auto_classified ≡ false
      → find_row s t n (sync_rows classify server eps table) ≡ some r
  unfolding sync_rows
  sync_rows-manual server s t n [] table r e manual = e
  sync_rows-manual server s t n (ep ∷ eps) table r e manual =
      sync_rows-manual server s t n eps (sync_row server ep tier table) r
        (elim (Bool-cases (same_key server ep.type ep.name s t n)) [
          | inl same ↦
              let k = same_key-eq server ep.type ep.name s t n same in
              find_row-sync_row server ep tier s t n table
              ∙ rw same (rw (k.0, k.1, k.2) (rw e (rw manual)))
          | inr other ↦ find_row-sync_row server ep tier s t n table ∙ rw other e
        ])
        manual
    where
      tier : String
      tier = classify ep.type ep.name ep.description

  sync_rows-elsewhere :
      (server s t n : String) (eps : List EndpointInfo) (table : List EndpointTier)
      → str_eq server s ≡ false
      → find_row s t n (sync_rows classify server eps table) ≡ find_row s t n table
  unfolding sync_rows
  sync_rows-elsewhere server s t n [] table h = refl
  sync_rows-elsewhere server s t n (ep ∷ eps) table h =
      sync_rows-elsewhere server s t n eps _ h
      ∙ find_row-sync_row server ep (classify ep.type ep.name ep.description) s t n table
      ∙ rw h

  -- The row's tier is that which the classifier gives the endpoint with this type and name.
  abbrev pub IsClassified : String → String → List EndpointInfo → EndpointTier → Type 0
  IsClassified t n eps r =
      Some
        (λ ep.
          (ep.type ≡ t) × (ep.name ≡ n) × (classify ep.type ep.name ep.description ≡ r.access_tier))
        eps

  -- A stored row stays; if it is automatic afterwards, it is as it was or reclassified.
  sync_rows-stays :
      (server s t n : String) (eps : List EndpointInfo) (table : List EndpointTier)
      (r : EndpointTier)
      → find_row s t n table ≡ some r
      → (r' : EndpointTier) × (find_row s t n (sync_rows classify server eps table) ≡ some r')
        × ((r' ≡ r) ⊎ ((r'.auto_classified ≡ false) ⊎ IsClassified t n eps r'))
  unfolding sync_rows
  sync_rows-stays server s t n [] table r e = (r, e, inl refl)
  sync_rows-stays server s t n (ep ∷ eps) table r e =
      let tier : String = classify ep.type ep.name ep.description in
      let found = find_row-sync_row server ep tier s t n table in
      elim (Bool-cases (same_key server ep.type ep.name s t n)) [
        | inr other ↦
            let (r', f, c) =
              sync_rows-stays server s t n eps (sync_row server ep tier table) r
                (found ∙ rw other e) in
            (
              r',
              f,
              elim c [
                | inl x ↦ inl x
                | inr (inl x) ↦ inr (inl x)
                | inr (inr x) ↦ inr (inr (inr x))
              ],
            )
        | inl same ↦
            let k = same_key-eq server ep.type ep.name s t n same in
            let (r', f, c) =
              sync_rows-stays server s t n eps (sync_row server ep tier table) (reclassify tier r)
                (found ∙ rw same (rw (k.0, k.1, k.2) (rw e))) in
            (r', f, first tier k.1 k.2 r' c)
      ]
    where
      first :
          {ty nm : String} (tier : String)
          → ty ≡ t
          → nm ≡ n
          → (r' : EndpointTier)
          → (r' ≡ reclassify tier r) ⊎ ((r'.auto_classified ≡ false) ⊎ IsClassified t n eps r')
          → (r' ≡ r)
            ⊎ ((r'.auto_classified ≡ false)
                ⊎ (((ty ≡ t) × (nm ≡ n) × (tier ≡ r'.access_tier)) ⊎ IsClassified t n eps r'))
      first tier a b r' (inl x) = ground (arith, x, a, b)
      first tier a b r' (inr (inl x)) = inr (inl x)
      first tier a b r' (inr (inr x)) = inr (inr (inr x))

  sync_rows-listed :
      (server t n : String) (eps : List EndpointInfo) (table : List EndpointTier)
      → Some (λ ep. (ep.type ≡ t) × (ep.name ≡ n)) eps
      → (r : EndpointTier) × (find_row server t n (sync_rows classify server eps table) ≡ some r)
        × ((r.auto_classified ≡ false) ⊎ IsClassified t n eps r)
  unfolding sync_rows
  sync_rows-listed server t n [] table i = absurd i
  sync_rows-listed server t n (ep ∷ eps) table (inr i) =
      let (r, f, c) = sync_rows-listed server t n eps _ i in
      (r, f, elim c [ inl x ↦ inl x | inr x ↦ inr (inr x) ])
  sync_rows-listed server t n (ep ∷ eps) table (inl (ty, nm)) =
      let (r, f, c) = sync_rows-stays server server t n eps _ r₁ now in (r, f, last r c)
    where
      tier : String
      tier = classify ep.type ep.name ep.description

      r₁ : EndpointTier
      r₁ = stored (reclassify tier) (new_row server ep tier) (find_row server ep.type ep.name table)

      now : find_row server t n (sync_row server ep tier table) ≡ some r₁
      now =
          find_row-sync_row server ep tier server t n table
          ∙ rw (ty, nm) (rw (str_eq_self server, str_eq_self t, str_eq_self n))

      first : (r₁.auto_classified ≡ false) ⊎ (tier ≡ r₁.access_tier)
      first = ground arith

      last :
          (r : EndpointTier)
          → (r ≡ r₁) ⊎ ((r.auto_classified ≡ false) ⊎ IsClassified t n eps r)
          → (r.auto_classified ≡ false)
            ⊎ (((ep.type ≡ t) × (ep.name ≡ n) × (tier ≡ r.access_tier)) ⊎ IsClassified t n eps r)
      last r (inl x) = ground (arith, x, first, ty, nm)
      last r (inr (inl x)) = inl x
      last r (inr (inr x)) = inr (inr x)

find_row-keep :
    (p : EndpointTier → Bool) (s t n : String) (b : Bool) (table : List EndpointTier)
    → ((r : EndpointTier) → has_key s t n r ≡ true → p r ≡ b)
    → find_row s t n (keep p table) ≡ (if b then find_row s t n table else none)
find_row-keep p s t n b [] h = ground arith
find_row-keep p s t n b (x ∷ xs) h = elim (Bool-cases (has_key s t n x)) [
  | inl hit ↦ ground (arith, hit, h x hit, find_row-keep p s t n b xs h)
  | inr miss ↦ ground (arith, miss, find_row-keep p s t n b xs h)
]

is_current-listed :
    (eps : List EndpointInfo) (t n : String)
    → Some (λ ep. (ep.type ≡ t) × (ep.name ≡ n)) eps
    → is_current eps t n ≡ true
is_current-listed [] t n i = absurd i
is_current-listed (ep ∷ eps) t n (inl (ty, nm)) = rw (ty, nm) (rw (str_eq_self (join t n)))
is_current-listed (ep ∷ eps) t n (inr i) =
    elim (Bool-cases (str_eq (join ep.type ep.name) (join t n))) [
      | inl e ↦ rw e
      | inr e ↦ rw e (is_current-listed eps t n i)
    ]

module _ (classify : String → String → String → String) (server : String) (eps : List EndpointInfo)
    (table : List EndpointTier) where
  find_row-sync :
      (s t n : String)
      → find_row s t n (sync_after_enumerate classify server eps table) ≡ (
          if not (str_eq s server) || is_current eps t n
          then find_row s t n (sync_rows classify server eps table)
          else none)
  unfolding sync_after_enumerate
  find_row-sync s t n =
      find_row-keep _ s t n _ (sync_rows classify server eps table)
        λ r h. let k = has_key-HasKey s t n r h in rw (k.server, k.type, k.name)

  -- Re-enumerating a server's endpoints keeps the row of an endpoint that is still listed and whose
  -- tier was set by hand; gives each listed endpoint a row, which is set by hand or has the tier that
  -- the classifier gives an endpoint listed with that type and name; deletes the server's rows under no listed key; and leaves other servers' rows.
  pub sync_after_enumerate_lem :
      (t n : String)
      → (Some (λ ep. (ep.type ≡ t) × (ep.name ≡ n)) eps
          → ((r : EndpointTier)
              → find_row server t n table ≡ some r
              → r.auto_classified ≡ false
              → find_row server t n (sync_after_enumerate classify server eps table) ≡ some r)
            × ((r : EndpointTier) × (find_row server t n
                    (sync_after_enumerate classify server eps table)
                  ≡ some r)
                × ((r.auto_classified ≡ false) ⊎ IsClassified classify t n eps r)))
        × (is_current eps t n ≡ false
            → find_row server t n (sync_after_enumerate classify server eps table) ≡ none)
        × ((s : String)
            → str_eq s server ≡ false
            → find_row s t n (sync_after_enumerate classify server eps table)
              ≡ find_row s t n table)
  sync_after_enumerate_lem t n = (
    λ i. (
      λ r e manual. listed i ∙ sync_rows-manual classify server server t n eps table r e manual,
      let (r, f, c) = sync_rows-listed classify server t n eps table i in (r, listed i ∙ f, c),
    ),
    λ gone. find_row-sync server t n ∙ rw (str_eq_self server, gone),
    λ s other.
        find_row-sync s t n
        ∙ rw other (
            sync_rows-elsewhere classify server s t n eps table
              (ground (arith, eq_iff s server, eq_iff server s))),
  )
    where
      listed :
          Some (λ ep. (ep.type ≡ t) × (ep.name ≡ n)) eps
          → find_row server t n (sync_after_enumerate classify server eps table)
            ≡ find_row server t n (sync_rows classify server eps table)
      listed i = find_row-sync server t n ∙ rw (str_eq_self server, is_current-listed eps t n i)
