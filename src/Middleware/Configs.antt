-- ===== src/Middleware/Configs.antt =====
-- internal/store/middleware.go: the table of middleware configurations and what is in force for a
-- server. A priority is a natural number; the times of a row are left out.
pub mod Lookup
pub mod Effective
pub mod Table
use arc_relay.Prelude.{
  ℕ, String, List, [], ◌∷◌, ◌++◌, Bool, true, false, ◌&&◌, ◌||◌, Option, none, some, ltb,
  if◌then◌else◌, keep, not, str_eq,
}
use arc_relay.Prelude.Maps.{StrMap, empty, update}

-- A row; without a server it is a global default.
pub record MiddlewareConfig : Type 0 where
  pub id : String
  pub server_id : Option String
  pub middleware : String
  pub enabled : Bool
  pub config : String
  pub priority : ℕ

abbrev pub is_for : String → Option String → Bool
is_for server none = false
is_for server (some s) = str_eq s server

abbrev pub is_global : Option String → Bool
is_global none = true
is_global (some s) = false

-- ORDER BY priority: the rows of one priority stay as they are, since the maps below ask only for the
-- order of rows with one name.
abbrev pub place : MiddlewareConfig → List MiddlewareConfig → List MiddlewareConfig
place r [] = r ∷ []
place r (x ∷ xs) = if ltb x.priority r.priority then x ∷ place r xs else r ∷ x ∷ xs

abbrev pub ordered : List MiddlewareConfig → List MiddlewareConfig
ordered [] = []
ordered (r ∷ rs) = place r (ordered rs)

-- The maps of the loop over the rows: a later row of the same name takes the place of an earlier one.
pub record Found : Type 0 where
  pub globals : StrMap MiddlewareConfig
  pub servers : StrMap MiddlewareConfig

abbrev pub note_row : MiddlewareConfig → Found → Found
note_row r f =
    if is_global r.server_id
    then record f { globals = update f.globals r.middleware r }
    else record f { servers = update f.servers r.middleware r }

abbrev pub scan_rows : List MiddlewareConfig → Found → Found
scan_rows [] f = f
scan_rows (r ∷ rs) f = scan_rows rs (note_row r f)

unfoldable pub found : String → List MiddlewareConfig → Found
found server table =
    scan_rows (ordered (keep (λ r. is_global r.server_id || is_for server r.server_id) table))
      (record { globals = empty; servers = empty })

-- The merge: a server's row wins and takes the global configuration where its own is empty; a global
-- row counts alone only if it is enabled.
abbrev pub config_or : String → Option MiddlewareConfig → String
config_or c none = c
config_or c (some g) = g.config

abbrev pub inherit : Option MiddlewareConfig → MiddlewareConfig → MiddlewareConfig
inherit g r =
    if str_eq r.config "{}" || str_eq r.config ""
    then record r { config = config_or r.config g }
    else r

abbrev pub if_enabled : Option MiddlewareConfig → Option MiddlewareConfig
if_enabled none = none
if_enabled (some g) = if g.enabled then some g else none

abbrev pub overrides : Option MiddlewareConfig → Option MiddlewareConfig → Option MiddlewareConfig
overrides g none = if_enabled g
overrides g (some r) = some (inherit g r)

unfoldable pub merged : Found → StrMap MiddlewareConfig
merged f name = overrides (f.globals name) (f.servers name)

-- The walk over the map, whose order is that of `names`.
abbrev pub consed : Option MiddlewareConfig → List MiddlewareConfig → List MiddlewareConfig
consed none rest = rest
consed (some c) rest = c ∷ rest

abbrev pub collect : StrMap MiddlewareConfig → List String → List MiddlewareConfig
collect m [] = []
collect m (n ∷ ns) = consed (m n) (collect m ns)

-- The sort by swaps: `sunk` is the part that is sorted, its last entry first.
abbrev pub sink : MiddlewareConfig → List MiddlewareConfig → List MiddlewareConfig
sink c [] = c ∷ []
sink c (x ∷ xs) = if ltb c.priority x.priority then x ∷ sink c xs else c ∷ x ∷ xs

abbrev pub sink_all : List MiddlewareConfig → List MiddlewareConfig → List MiddlewareConfig
sink_all [] sunk = sunk
sink_all (c ∷ cs) sunk = sink_all cs (sink c sunk)

abbrev pub turned : List MiddlewareConfig → List MiddlewareConfig → List MiddlewareConfig
turned [] acc = acc
turned (x ∷ xs) acc = turned xs (x ∷ acc)

-- GetForServer, where Go walks the merged map in the order of `names`.
unfoldable pub get_for_server : List String → String → List MiddlewareConfig → List MiddlewareConfig
get_for_server names server table =
    turned (sink_all (collect (merged (found server table)) names) []) []

-- ON CONFLICT(server_id, middleware), which a row without a server never meets.
abbrev pub conflicts : Option String → String → MiddlewareConfig → Bool
conflicts none name r = false
conflicts (some s) name r = is_for s r.server_id && str_eq r.middleware name

abbrev pub insert_or :
    (MiddlewareConfig → MiddlewareConfig)
    → MiddlewareConfig
    → List MiddlewareConfig
    → List MiddlewareConfig
insert_or f r [] = r ∷ []
insert_or f r (x ∷ xs) =
    if conflicts r.server_id r.middleware x then f x ∷ xs else x ∷ insert_or f r xs

-- Upsert and UpsertEnabled, with the id that they draw.
unfoldable pub upsert : MiddlewareConfig → List MiddlewareConfig → List MiddlewareConfig
upsert r =
    insert_or (λ x. record x { enabled = r.enabled; config = r.config; priority = r.priority }) r

-- The row that UpsertEnabled inserts.
abbrev pub bare_row : String → String → String → Bool → ℕ → MiddlewareConfig
bare_row id server name enabled priority = record {
  id = id;
  server_id = some server;
  middleware = name;
  enabled = enabled;
  config = "{}";
  priority = priority;
}

unfoldable pub upsert_enabled :
    String → String → String → Bool → ℕ → List MiddlewareConfig → List MiddlewareConfig
upsert_enabled id server name enabled priority =
    insert_or (λ x. record x { enabled = enabled; priority = priority })
      (bare_row id server name enabled priority)

-- GetGlobal
abbrev pub is_global_of : String → MiddlewareConfig → Bool
is_global_of name r = is_global r.server_id && str_eq r.middleware name

abbrev pub get_global : String → List MiddlewareConfig → Option MiddlewareConfig
get_global name [] = none
get_global name (r ∷ rs) = if is_global_of name r then some r else get_global name rs

abbrev pub update_by_id :
    String → (MiddlewareConfig → MiddlewareConfig) → List MiddlewareConfig → List MiddlewareConfig
update_by_id id f [] = []
update_by_id id f (x ∷ xs) = (if str_eq x.id id then f x else x) ∷ update_by_id id f xs

-- UpsertGlobal, with the id that it draws, and Delete.
abbrev pub upsert_existing :
    Option MiddlewareConfig
    → String
    → MiddlewareConfig
    → List MiddlewareConfig
    → List MiddlewareConfig
upsert_existing (some g) id r table =
    update_by_id g.id
      (λ x. record x { enabled = r.enabled; config = r.config; priority = r.priority }) table
upsert_existing none id r table = table ++ record r { id = id; server_id = none } ∷ []

unfoldable pub upsert_global :
    String → MiddlewareConfig → List MiddlewareConfig → List MiddlewareConfig
upsert_global id r table = upsert_existing (get_global r.middleware table) id r table

unfoldable pub delete_config : String → List MiddlewareConfig → List MiddlewareConfig
delete_config id = keep (λ r. not (str_eq r.id id))
