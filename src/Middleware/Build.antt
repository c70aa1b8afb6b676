-- ===== src/Middleware/Build.antt =====
-- The registry of internal/middleware/middleware.go: factories by name, and the pipeline of a server.
-- A factory gets the configuration and the server whose event log it writes to.
use arc_relay.Prelude.{
  ℕ, ◌≡◌, refl, sym, ap, subst, ◌↔◌, ◌⊎◌, inl, inr, String, List, [], ◌∷◌, Bool, true, false, not,
  Option, none, some, arith, if◌then◌else◌, Some, Bool-cases,
}
use arc_relay.Prelude.Maps.{StrMap, empty, update}
use arc_relay.Middleware.{Middleware, Checked, pass, failed, add, new_pipeline}
use arc_relay.Middleware.Configs.{MiddlewareConfig}

pub record Descriptor : Type 0 where
  pub name : String
  pub display_name : String
  pub description : String
  pub default_priority : ℕ
  pub display_order : ℕ
  pub scope : String
  pub template_name : String
  pub actions : List String

abbrev pub Factory : Type 0 → Type 0
Factory W = String → String → Checked (Middleware W)

pub record Registry (W : Type 0) : Type 0 where
  pub factories : StrMap (Factory W)
  pub descriptors : StrMap Descriptor

abbrev pub is_some : {A : Type 0} → Option A → Bool
is_some none = false
is_some (some a) = true

-- The descriptor of a built-in that has no page and no actions, for servers only.
abbrev pub built_in : String → String → String → ℕ → Descriptor
built_in name display description n = record {
  name = name;
  display_name = display;
  description = description;
  default_priority = n;
  display_order = n;
  scope = "server";
  template_name = "";
  actions = [];
}

some_injective : {A : Type 0} {x y : A} → some x ≡ some y → x ≡ y
some_injective {x = x} e = ap (λ o. elim o [ some a ↦ a | none ↦ x ]) e

pass_injective : {A : Type 0} {x y : A} → pass x ≡ pass y → x ≡ y
pass_injective {x = x} e = ap (λ c. elim c [ pass a ↦ a | failed t ↦ x ]) e

module _ {W : Type 0} where
  unfoldable pub register : Descriptor → Factory W → Registry W → Registry W
  register d f r = record {
    factories = update r.factories d.name f;
    descriptors = update r.descriptors d.name d;
  }

  unfoldable pub is_registered : Registry W → String → Bool
  is_registered r name = is_some (r.factories name)

  unfoldable pub descriptor : Registry W → String → Option Descriptor
  descriptor r name = r.descriptors name

  -- NewRegistry with the four factories.
  unfoldable pub new_registry : Factory W → Factory W → Factory W → Factory W → Registry W
  new_registry sanitizer sizer alerter archive =
      register
        (record {
          name = "archive";
          display_name = "Compliance Archive";
          description = "Audit trail";
          default_priority = 40;
          display_order = 40;
          scope = "both";
          template_name = "middleware_archive";
          actions = "test" ∷ "retry" ∷ "clear" ∷ "status" ∷ [];
        })
        archive
        (register (built_in "alerter" "Alerter" "Pattern monitoring" 30) alerter (
          register (built_in "sizer" "Content Sizer" "Response size limits" 20) sizer (
            register (built_in "sanitizer" "Sanitizer" "PII & secret redaction" 10) sanitizer
              (record { factories = empty; descriptors = empty }))))

  abbrev pub added : Checked (Middleware W) → List (Middleware W) → List (Middleware W)
  added (pass m) p = add p m
  added (failed e) p = p

  abbrev pub made_by :
      Option (Factory W) → String → MiddlewareConfig → List (Middleware W) → List (Middleware W)
  made_by none server c p = p
  made_by (some f) server c p = added (f c.config server) p

  -- The loop of BuildPipeline.
  abbrev pub build :
      Registry W → String → List MiddlewareConfig → List (Middleware W) → List (Middleware W)
  build r server [] p = p
  build r server (c ∷ cs) p =
      build r server cs (if not c.enabled then p else made_by (r.factories c.middleware) server c p)

  -- BuildPipeline
  unfoldable pub build_pipeline :
      Registry W → String → Checked (List MiddlewareConfig) → List (Middleware W)
  build_pipeline r server (failed e) = new_pipeline
  build_pipeline r server (pass configs) = build r server configs new_pipeline

  abbrev pub Contains : Middleware W → List (Middleware W) → Type 0
  Contains m = Some (λ x. x ≡ m)

  -- A configuration that is enabled and whose factory makes the middleware.
  abbrev pub Makes : Registry W → String → Middleware W → MiddlewareConfig → Type 0
  Makes r server m c =
      (c.enabled ≡ true)
      × ((f : Factory W) × (r.factories c.middleware ≡ some f) × (f c.config server ≡ pass m))

  Contains-add :
      (m n : Middleware W) (p : List (Middleware W))
      → Contains m (add p n) ↔ (Contains m p ⊎ (n ≡ m))
  Contains-add m n [] = ground arith
  Contains-add m n (x ∷ xs) = ground (arith, Contains-add m n xs)

  added-Contains :
      (m : Middleware W) (made : Checked (Middleware W)) (p : List (Middleware W))
      → Contains m (added made p) ↔ (Contains m p ⊎ (made ≡ pass m))
  added-Contains m (pass n) p = ground (arith, Contains-add m n p)
  added-Contains m (failed e) p = ground arith

  made_by-Contains :
      (m : Middleware W) (found : Option (Factory W)) (server : String) (c : MiddlewareConfig)
      (p : List (Middleware W))
      → Contains m (made_by found server c p)
        ↔ (Contains m p ⊎ ((f : Factory W) × (found ≡ some f) × (f c.config server ≡ pass m)))
  made_by-Contains m none server c p = ground arith
  made_by-Contains m (some f) server c p = (
    λ h. elim ((added-Contains m (f c.config server) p).0 h) [
      | inl x ↦ inl x
      | inr e ↦ inr (f, refl, e)
    ],
    λ h. elim h [
      | inl x ↦ (added-Contains m (f c.config server) p).1 (inl x)
      | inr (g, same, e) ↦ (added-Contains m (f c.config server) p).1 (
          inr (subst (λ (k : Factory W). k c.config server ≡ pass m) (sym (some_injective same)) e))
    ],
  )

  build-Contains :
      (r : Registry W) (server : String) (m : Middleware W) (cs : List MiddlewareConfig)
      (p : List (Middleware W))
      → Contains m (build r server cs p) ↔ (Contains m p ⊎ Some (Makes r server m) cs)
  build-Contains r server m [] p = ground arith
  build-Contains r server m (c ∷ cs) p = elim (Bool-cases c.enabled) [
    | inl e ↦ rw e (
        ground (
          arith,
          e,
          build-Contains r server m cs (made_by (r.factories c.middleware) server c p),
          made_by-Contains m (r.factories c.middleware) server c p,
        ))
    | inr e ↦ rw e (ground (arith, e, build-Contains r server m cs p))
  ]

  -- A middleware is in the pipeline of a server exactly if some configuration in force is enabled and
  -- names a registered factory that makes it without an error; if the configurations cannot be read,
  -- the pipeline has no middleware.
  pub build_pipeline_iff :
      (r : Registry W) (server : String) (m : Middleware W)
      (configs : Checked (List MiddlewareConfig))
      → Contains m (build_pipeline r server configs)
        ↔ ((cs : List MiddlewareConfig) × (configs ≡ pass cs) × Some (Makes r server m) cs)
  unfolding build_pipeline
  build_pipeline_iff r server m (failed e) = ground arith
  build_pipeline_iff r server m (pass cs) = (
    λ h. elim ((build-Contains r server m cs []).0 h) [ inl x ↦ absurd x | inr k ↦ (cs, refl, k) ],
    λ (ds, e, k).
        (build-Contains r server m cs []).1
          (inr (subst (Some (Makes r server m)) (sym (pass_injective e)) k)),
  )
