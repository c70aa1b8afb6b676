-- ===== src/Middleware/Configs/Table.antt =====
-- The rows of the servers as a map from a server and a name to a row.
use mathlib.Core.Path.{fun_ext}
use arc_relay.Prelude.{
  ℕ, ◌+◌, ◌≤◌, suc, ◌≡◌, refl, ◌↔◌, inl, inr, String, List, [], ◌∷◌, ◌++◌, Bool, true, false, ◌&&◌,
  Option, none, some, arith, if◌then◌else◌, str_eq, eq_iff, Bool-cases, Option-cases,
}
use arc_relay.Middleware.Configs.{
  MiddlewareConfig, is_for, is_global, is_global_of, conflicts, bare_row, insert_or, upsert,
  upsert_enabled, get_global, update_by_id, upsert_global, delete_config,
}

abbrev pub is_row : String → String → MiddlewareConfig → Bool
is_row server name r = is_for server r.server_id && str_eq r.middleware name

-- The row of a server under a name.
abbrev pub row_of : List MiddlewareConfig → String → String → Option MiddlewareConfig
row_of [] server name = none
row_of (r ∷ rs) server name = if is_row server name r then some r else row_of rs server name

abbrev pub same_key : String → String → String → String → Bool
same_key server name s n = str_eq server s && str_eq name n

-- A map of rows, with the row at one key changed by `f` or set to `r`.
abbrev pub revised :
    (MiddlewareConfig → MiddlewareConfig)
    → MiddlewareConfig
    → Option MiddlewareConfig
    → Option MiddlewareConfig
revised f r none = some r
revised f r (some x) = some (f x)

abbrev pub put_row :
    String
    → String
    → (MiddlewareConfig → MiddlewareConfig)
    → MiddlewareConfig
    → (String → String → Option MiddlewareConfig)
    → String
    → String
    → Option MiddlewareConfig
put_row server name f r rows s n =
    if same_key server name s n then revised f r (rows s n) else rows s n

is_for_iff : (s : String) (o : Option String) → (is_for s o ≡ true) ↔ (o ≡ some s)
is_for_iff s none = ground arith
is_for_iff s (some t) = ground (arith, eq_iff t s)

is_row_iff :
    (s n : String) (x : MiddlewareConfig)
    → (is_row s n x ≡ true) ↔ ((x.server_id ≡ some s) × (x.middleware ≡ n))
is_row_iff s n x = ground (arith, is_for_iff s x.server_id, eq_iff x.middleware n)

same_key_iff :
    (server name s n : String) → (same_key server name s n ≡ true) ↔ ((server ≡ s) × (name ≡ n))
same_key_iff server name s n = ground (arith, eq_iff server s, eq_iff name n)

-- A row is found under its own key only.
is_row_same :
    (server name s n : String) (x : MiddlewareConfig)
    → is_row server name x ≡ true
    → is_row s n x ≡ same_key server name s n
is_row_same server name s n x h =
    ground (arith, h, is_row_iff server name x, is_row_iff s n x, same_key_iff server name s n)

module _ (server name : String) (f : MiddlewareConfig → MiddlewareConfig) (r : MiddlewareConfig)
    (of_server : r.server_id ≡ some server) (of_name : r.middleware ≡ name)
    (kept : (x : MiddlewareConfig) (s n : String) → is_row s n (f x) ≡ is_row s n x) where
  own_row : is_row server name r ≡ true
  own_row = (is_row_iff server name r).1 (of_server, of_name)

  own_conflict :
      (x : MiddlewareConfig) → conflicts r.server_id r.middleware x ≡ is_row server name x
  own_conflict x = rw (of_server, of_name) refl

  row_of-insert :
      (table : List MiddlewareConfig) (s n : String)
      → row_of (insert_or f r table) s n ≡ put_row server name f r (row_of table) s n
  row_of-insert [] s n = rw (is_row_same server name s n r own_row) refl
  row_of-insert (x ∷ xs) s n = elim (Bool-cases (is_row server name x)) [
    | inl e ↦ rw (own_conflict x, e, kept x s n, is_row_same server name s n x e) (ground arith)
    | inr e ↦ elim (Bool-cases (is_row s n x)) [
      | inl h ↦
          rw (own_conflict x, e, h)
            (ground (
              arith,
              e,
              h,
              is_row_same s n server name x h,
              same_key_iff server name s n,
              same_key_iff s n server name,
            ))
      | inr h ↦ rw (own_conflict x, e, h) (row_of-insert xs s n)
    ]
  ]

-- On the rows of the servers, Upsert and UpsertEnabled are the change of a map at one key: a row that
-- is there takes the new values, UpsertEnabled leaving its configuration as it is, and otherwise the
-- new row is put there.
pub upsert_refines :
    (r : MiddlewareConfig) (id server name : String) (enabled : Bool) (priority : ℕ)
    (table : List MiddlewareConfig)
    → r.server_id ≡ some server
    → (row_of (upsert r table)
        ≡ put_row server r.middleware
            (λ x. record x { enabled = r.enabled; config = r.config; priority = r.priority })
            r
            (row_of table))
      × (row_of (upsert_enabled id server name enabled priority table)
          ≡ put_row server name
              (λ x. record x { enabled = enabled; priority = priority })
              (bare_row id server name enabled priority)
              (row_of table))
unfolding upsert upsert_enabled
upsert_refines r id server name enabled priority table h = (
  fun_ext λ s. fun_ext λ n.
      row_of-insert server r.middleware
        (λ x. record x { enabled = r.enabled; config = r.config; priority = r.priority }) r h refl
        (λ x s n. refl) table s n,
  fun_ext λ s. fun_ext λ n.
      row_of-insert server name (λ x. record x { enabled = enabled; priority = priority })
        (bare_row id server name enabled priority) refl refl (λ x s n. refl) table s n,
)

-- The global rows of a name.
abbrev pub global_rows : String → List MiddlewareConfig → ℕ
global_rows name [] = 0
global_rows name (r ∷ rs) =
    let rest = global_rows name rs in if is_global_of name r then suc rest else rest

rows-insert :
    (f : MiddlewareConfig → MiddlewareConfig) (r : MiddlewareConfig) (server : String)
    → r.server_id ≡ some server
    → ((x : MiddlewareConfig) (n : String) → is_global_of n (f x) ≡ is_global_of n x)
    → (n : String) (table : List MiddlewareConfig)
    → global_rows n (insert_or f r table) ≡ global_rows n table
rows-insert f r server h kept n [] =
    let own : is_global r.server_id ≡ false = rw h refl in ground (arith, own)
rows-insert f r server h kept n (x ∷ xs) =
    ground (arith, kept x n, rows-insert f r server h kept n xs)

rows-update :
    (id : String) (f : MiddlewareConfig → MiddlewareConfig)
    → ((x : MiddlewareConfig) (n : String) → is_global_of n (f x) ≡ is_global_of n x)
    → (n : String) (table : List MiddlewareConfig)
    → global_rows n (update_by_id id f table) ≡ global_rows n table
rows-update id f kept n [] = refl
rows-update id f kept n (x ∷ xs) = ground (arith, kept x n, rows-update id f kept n xs)

rows-append :
    (n : String) (table : List MiddlewareConfig) (r : MiddlewareConfig)
    → global_rows n (table ++ r ∷ []) ≡ global_rows n table + (if is_global_of n r then 1 else 0)
rows-append n [] r = ground arith
rows-append n (x ∷ xs) r = ground (arith, rows-append n xs r)

rows-none :
    (n : String) (table : List MiddlewareConfig)
    → get_global n table ≡ none
    → global_rows n table ≡ 0
rows-none n [] h = refl
rows-none n (x ∷ xs) h = ground (arith, h, rows-none n xs)

rows-delete :
    (n id : String) (table : List MiddlewareConfig)
    → global_rows n (delete_config id table) ≤ global_rows n table
unfolding delete_config
rows-delete n id [] = omega arith
rows-delete n id (x ∷ xs) = ground (arith, rows-delete n id xs)

rows-upsert_global :
    (n id : String) (r : MiddlewareConfig) (table : List MiddlewareConfig)
    → global_rows n table ≤ 1
    → global_rows n (upsert_global id r table) ≤ 1
unfolding upsert_global
rows-upsert_global n id r table h = elim (Option-cases (get_global r.middleware table)) [
  | inr (g, e) ↦ rw e (
      ground (
        arith,
        h,
        rows-update g.id
            (λ x. record x { enabled = r.enabled; config = r.config; priority = r.priority })
            (λ x m. refl) n table,
      ))
  | inl e ↦ rw e (
      ground (
        arith,
        h,
        rows-append n table (record r { id = id; server_id = none }),
        eq_iff r.middleware n,
        rows-none r.middleware table e,
      ))
]

-- The calls that change the table. A row for a server comes with the server.
pub data Op : Type 0 where
  saved : String → MiddlewareConfig → Op
  toggled : String → String → String → Bool → ℕ → Op
  defaulted : String → MiddlewareConfig → Op
  dropped : String → Op

unfoldable pub apply_op : Op → List MiddlewareConfig → List MiddlewareConfig
apply_op (saved server r) table = upsert (record r { server_id = some server }) table
apply_op (toggled id server name enabled priority) table =
    upsert_enabled id server name enabled priority table
apply_op (defaulted id r) table = upsert_global id r table
apply_op (dropped id) table = delete_config id table

unfoldable pub apply_all : List Op → List MiddlewareConfig → List MiddlewareConfig
apply_all [] table = table
apply_all (o ∷ os) table = apply_all os (apply_op o table)

rows-apply :
    (n : String) (o : Op) (table : List MiddlewareConfig)
    → global_rows n table ≤ 1
    → global_rows n (apply_op o table) ≤ 1
unfolding apply_op upsert upsert_enabled
rows-apply n (saved server r) table h =
    rw
      (rows-insert (λ x. record x { enabled = r.enabled; config = r.config; priority = r.priority })
        (record r { server_id = some server }) server refl (λ x m. refl) n table)
      h
rows-apply n (toggled id server name enabled priority) table h =
    rw
      (rows-insert (λ x. record x { enabled = enabled; priority = priority })
        (bare_row id server name enabled priority) server refl (λ x m. refl) n table)
      h
rows-apply n (defaulted id r) table h = rows-upsert_global n id r table h
rows-apply n (dropped id) table h = omega (arith, h, rows-delete n id table)

rows-apply_all :
    (n : String) (os : List Op) (table : List MiddlewareConfig)
    → global_rows n table ≤ 1
    → global_rows n (apply_all os table) ≤ 1
unfolding apply_all
rows-apply_all n [] table h = h
rows-apply_all n (o ∷ os) table h = rows-apply_all n os (apply_op o table) (rows-apply n o table h)

-- After any sequence of calls on an empty table, in which Upsert is given rows of servers only, there
-- is at most one global row of a name.
pub apply_all-global : (n : String) (os : List Op) → global_rows n (apply_all os []) ≤ 1
apply_all-global n os = rows-apply_all n os [] (omega arith)
