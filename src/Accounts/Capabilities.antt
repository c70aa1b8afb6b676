-- ===== src/Accounts/Capabilities.antt =====
-- The capabilities of an API key in internal/store/users.go, and hasCapability of
-- internal/web/auth_capabilities.go.
use arc_relay.Prelude.{
  ◌≡◌, ◌≢◌, refl, sym, ap, ◌∙◌, ◌↔◌, ◌⊎◌, inl, inr, List, [], ◌∷◌, Bool, true, false, ◌&&◌, ◌||◌,
  Option, none, some, not, ltb, ◌==◌, ==_iff, if◌then◌else◌, any, arith, Some, Bool-cases,
}
use arc_relay.Prelude.Text.{Text, codes, trim_space}

abbrev pub text_eq : Text → Text → Bool
text_eq [] [] = true
text_eq [] (c ∷ t) = false
text_eq (c ∷ s) [] = false
text_eq (c ∷ s) (d ∷ t) = c == d && text_eq s t

-- The order of sort.Strings.
abbrev pub text_lt : Text → Text → Bool
text_lt s [] = false
text_lt [] (d ∷ t) = true
text_lt (c ∷ s) (d ∷ t) = let rest = text_lt s t in if c == d then rest else ltb c d

-- legacyCapabilityGrants
abbrev pub legacy_grants : Text → List Text
legacy_grants c =
    if text_eq c (codes "skills:write")
    then codes "skills:publish" ∷ []
    else if text_eq c (codes "recipes:write")
    then codes "recipes:publish" ∷ []
    else []

-- HasCapability; `none` is a nil key.
abbrev pub grants : Text → Text → Bool
grants cap c = if text_eq c cap then true else any (λ g. text_eq g cap) (legacy_grants c)

unfoldable pub key_has_capability : Option (List Text) → Text → Bool
key_has_capability none cap = false
key_has_capability (some caps) cap = any (grants cap) caps

-- hasCapability, with the role of the user if there is one.
abbrev pub is_admin : Option Text → Bool
is_admin none = false
is_admin (some role) = text_eq role (codes "admin")

unfoldable pub has_capability : Option Text → Option (List Text) → Text → Bool
has_capability role key cap = if is_admin role then true else key_has_capability key cap

-- normalizeCapabilities: `seen` is the output so far.
abbrev pub collect : List Text → List Text → List Text
collect [] out = out
collect (c ∷ cs) out =
    if text_eq (trim_space c) [] || any (text_eq (trim_space c)) out
    then collect cs out
    else collect cs (trim_space c ∷ out)

abbrev pub insert : Text → List Text → List Text
insert c [] = c ∷ []
insert c (x ∷ xs) = if text_lt x c then x ∷ insert c xs else c ∷ x ∷ xs

abbrev pub sort : List Text → List Text
sort [] = []
sort (c ∷ cs) = insert c (sort cs)

unfoldable pub normalize_capabilities : List Text → List Text
normalize_capabilities cs = sort (collect cs [])

pub text_eq_iff : (s t : Text) → (text_eq s t ≡ true) ↔ (s ≡ t)
text_eq_iff [] [] = ground arith
text_eq_iff [] (d ∷ t) = ground arith
text_eq_iff (c ∷ s) [] = ground arith
text_eq_iff (c ∷ s) (d ∷ t) = ground (arith, text_eq_iff s t, ==_iff c d)

any-insert : (p : Text → Bool) (c : Text) (xs : List Text) → any p (insert c xs) ≡ (p c || any p xs)
any-insert p c [] = ground arith
any-insert p c (x ∷ xs) = elim (Bool-cases (text_lt x c)) [
  | inl e ↦ rw e (ground (arith, any-insert p c xs))
  | inr e ↦ rw e (ground arith)
]

any-sort : (p : Text → Bool) (xs : List Text) → any p (sort xs) ≡ any p xs
any-sort p [] = refl
any-sort p (c ∷ cs) = ground (arith, any-insert p c (sort cs), any-sort p cs)

any-found :
    (p : Text → Bool) (c : Text) (xs : List Text)
    → any (text_eq c) xs ≡ true
    → p c ≡ true
    → any p xs ≡ true
any-found p c [] h e = cc
any-found p c (x ∷ xs) h e = elim (Bool-cases (text_eq c x)) [
  | inl same ↦ let k : p x ≡ true = ap p (sym ((text_eq_iff c x).0 same)) ∙ e in ground (arith, k)
  | inr other ↦
      let k : any p xs ≡ true = any-found p c xs (ground (arith, h, other)) e in ground (arith, k)
]

-- The trimmed capability counts for a test, unless it is empty.
abbrev counts : (Text → Bool) → Text → Bool
counts p c = not (text_eq (trim_space c) []) && p (trim_space c)

any-collect :
    (p : Text → Bool) (cs out : List Text)
    → any p (collect cs out) ≡ (any (counts p) cs || any p out)
any-collect p [] out = refl
any-collect p (c ∷ cs) out = elim (Bool-cases (text_eq (trim_space c) [])) [
  | inl blank ↦ rw blank (any-collect p cs out)
  | inr given ↦ elim (Bool-cases (any (text_eq (trim_space c)) out)) [
    | inl old ↦
        rw (given, old) (ground (arith, any-collect p cs out, any-found p (trim_space c) out old))
    | inr new ↦ rw (given, new) (ground (arith, any-collect p cs (trim_space c ∷ out)))
  ]
]

-- What a capability gives, as the table of the legacy names has it.
abbrev pub IsGranted : Text → Text → Type 0
IsGranted cap c =
    (c ≡ cap)
    ⊎ (((c ≡ codes "skills:write") × (cap ≡ codes "skills:publish"))
        ⊎ ((c ≡ codes "recipes:write") × (cap ≡ codes "recipes:publish")))

grants_iff : (cap c : Text) → (grants cap c ≡ true) ↔ IsGranted cap c
grants_iff cap c = ground (
  arith,
  text_eq_iff c cap,
  text_eq_iff c (codes "skills:write"),
  text_eq_iff c (codes "recipes:write"),
  text_eq_iff (codes "skills:publish") cap,
  text_eq_iff (codes "recipes:publish") cap,
)

counts_iff :
    (cap c : Text)
    → (counts (grants cap) c ≡ true) ↔ ((trim_space c ≢ []) × IsGranted cap (trim_space c))
counts_iff cap c = ground (arith, text_eq_iff (trim_space c) [], grants_iff cap (trim_space c))

any_iff :
    (p : Text → Bool) (P : Text → Type 0)
    → ((x : Text) → (p x ≡ true) ↔ P x)
    → (xs : List Text) → (any p xs ≡ true) ↔ Some P xs
any_iff p P h [] = ground arith
any_iff p P h (x ∷ xs) = ground (arith, h x, any_iff p P h xs)

-- A key that is made for a list of capabilities has a capability exactly if some entry of the list,
-- trimmed and not empty, is that capability or the legacy name of it; a legacy name gives the right to
-- publish besides itself, and nothing else.
pub normalize_capabilities_iff :
    (cap : Text) (cs : List Text)
    → (key_has_capability (some (normalize_capabilities cs)) cap ≡ true)
      ↔ Some (λ c. (trim_space c ≢ []) × IsGranted cap (trim_space c)) cs
unfolding key_has_capability normalize_capabilities
normalize_capabilities_iff cap cs =
    rw (any-sort (grants cap) (collect cs []), any-collect (grants cap) cs [])
      (ground (arith, any_iff (counts (grants cap)) _ (counts_iff cap) cs))
