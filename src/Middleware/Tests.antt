-- ===== src/Middleware/Tests.antt =====
-- Two middlewares, a table of configurations, and a long response.
use mathlib.Core.List.{Perm}
use arc_relay.Prelude.Maps.{StrMap}
use arc_relay.Prelude.{
  ◌≡◌, refl, sym, ap, ◌↔◌, ℕ, ◌≤◌, ◌+◌, String, List, [], ◌∷◌, ◌++◌, Bool, true, false, Option,
  none, some, Some, arith, length, length-append, if◌then◌else◌, str_eq, eq_iff, ◌&&◌, inl, inr,
  Bool-cases, keep, subst,
}
use arc_relay.Prelude.Text.{Text, codes}
use arc_relay.Middleware.{
  Request, Response, RequestMeta, pass, failed, Middleware, process_request, process_response,
  negsuc,
}
use arc_relay.Middleware.Configs.{
  MiddlewareConfig, found, merged, get_for_server, upsert, upsert_enabled, bare_row, upsert_global,
  delete_config, is_global_of,
}
use arc_relay.Middleware.Configs.Effective.{IsAscending, IsInForce, values, get_for_server_lem}
use arc_relay.Middleware.Configs.Table.{
  row_of, put_row, upsert_refines, Op, saved, toggled, defaulted, dropped, apply_op, apply_all,
  global_rows, apply_all-global,
}
use arc_relay.Middleware.Build.{
  Factory, Registry, new_registry, register, build_pipeline, Contains, Makes, build_pipeline_iff,
}
use arc_relay.Middleware.Sizer.{Sizer, new_sizer, size_response, json_escape}
use arc_relay.Middleware.Sizer.Limits.{
  ResultIsWithin, ResultIsLonger, size_response-ResultIsWithin, size_response-ResultIsLonger,
}
use arc_relay.Middleware.Optimizer.{
  Tool, ToolOptimization, optimize_response, hash_tools, replace_tools,
}
use arc_relay.Middleware.Optimizer.Names.{names_in, optimize_response-names}

abbrev request : Request
request = record { jsonrpc = "2.0"; id = "1"; method = "tools/call"; params = "p" }

abbrev response : Response
response = record { jsonrpc = "2.0"; id = "1"; result = some (codes "result"); error = none }

abbrev meta : RequestMeta
meta = record {
  user_id = "u";
  server_id = "s";
  server_name = "server";
  method = "tools/call";
  tool_name = "t";
  client_ip = "";
  request_id = "1";
}

-- A middleware that writes its name down, and one that refuses.
abbrev noting : String → Middleware (List String)
noting n = record {
  name = n;
  on_request = λ meta req w. (n ∷ w, pass req);
  on_response = λ meta req resp w. (n ∷ w, pass resp);
}

abbrev refusing : Middleware (List String)
refusing = record {
  name = "refusing";
  on_request = λ meta req w. (w, failed (codes "no"));
  on_response = λ meta req resp w. (w, failed (codes "no"));
}

in_order :
    process_request (noting "a" ∷ noting "b" ∷ []) meta request [] ≡ ("b" ∷ "a" ∷ [], pass request)
unfolding process_request
in_order = refl

in_reverse :
    process_response (noting "a" ∷ refusing ∷ noting "b" ∷ []) meta request response []
    ≡ ("b" ∷ [], failed (codes "no"))
unfolding process_response
in_reverse = refl

abbrev row : String → Option String → String → Bool → String → ℕ → MiddlewareConfig
row id server name enabled config priority = record {
  id = id;
  server_id = server;
  middleware = name;
  enabled = enabled;
  config = config;
  priority = priority;
}

-- A global archive that is only kept for its configuration, and a server that turns it on.
abbrev table : List MiddlewareConfig
table =
    row "1" none "archive" false "{\"url\":\"u\"}" 40
    ∷ row "2" (some "s") "archive" true "{}" 40
    ∷ row "3" none "sizer" true "{}" 20
    ∷ row "4" (some "t") "alerter" true "{}" 30
    ∷ []

in_force :
    get_for_server ("archive" ∷ "alerter" ∷ "sizer" ∷ []) "s" table
    ≡ row "3" none "sizer" true "{}" 20
      ∷ row "2" (some "s") "archive" true "{\"url\":\"u\"}" 40
      ∷ []
unfolding get_for_server found merged
in_force = refl

global_rows_once : (n : String) → length (keep (is_global_of n) table) ≤ 1
global_rows_once n = elim (Bool-cases (str_eq "archive" n)) [
  | inl e ↦
      let other : str_eq "sizer" n ≡ false =
        subst (λ m. str_eq "sizer" m ≡ false) ((eq_iff "archive" n).0 e) refl in
      ground arith
  | inr e ↦ ground arith
]

get_for_server_lem_example :
    IsAscending (get_for_server ("archive" ∷ "sizer" ∷ []) "s" table)
    × ((m : StrMap MiddlewareConfig) × Perm
          (get_for_server ("archive" ∷ "sizer" ∷ []) "s" table)
          (values m ("archive" ∷ "sizer" ∷ []))
        × ((n : String) (c : MiddlewareConfig) → (m n ≡ some c) ↔ IsInForce "s" table n c))
get_for_server_lem_example =
    get_for_server_lem ("archive" ∷ "sizer" ∷ []) "s" table (λ n. global_rows_once n)
      (λ n. ground arith)

upsert_refines_example :
    (row_of (upsert (row "9" (some "s") "archive" true "{}" 7) table)
      ≡ put_row "s" "archive"
          (λ x. record x { enabled = true; config = "{}"; priority = 7 })
          (row "9" (some "s") "archive" true "{}" 7)
          (row_of table))
    × (row_of (upsert_enabled "8" "s" "sizer" false 5 table)
        ≡ put_row "s" "sizer"
            (λ x. record x { enabled = false; priority = 5 })
            (bare_row "8" "s" "sizer" false 5)
            (row_of table))
upsert_refines_example =
    upsert_refines (row "9" (some "s") "archive" true "{}" 7) "8" "s" "sizer" false 5 table refl

abbrev calls : List Op
calls =
    defaulted "a" (row "" none "archive" true "{}" 40)
    ∷ defaulted "b" (row "" none "archive" false "{}" 41)
    ∷ toggled "c" "s" "archive" true 3
    ∷ saved "s" (row "d" none "sizer" true "{}" 20)
    ∷ dropped "c"
    ∷ []

after_calls :
    apply_all calls []
    ≡ row "a" none "archive" false "{}" 41 ∷ row "d" (some "s") "sizer" true "{}" 20 ∷ []
unfolding apply_all apply_op upsert_global upsert_enabled upsert delete_config
after_calls = refl

apply_all-global_example : global_rows "archive" (apply_all calls []) ≤ 1
apply_all-global_example = apply_all-global "archive" calls

-- The factory of the sizer fails, that of the archive does not.
abbrev works : Factory (List String)
works config server = pass (noting "archive")

abbrev fails : Factory (List String)
fails config server = failed (codes "invalid")

abbrev registry : Registry (List String)
registry = new_registry fails fails fails works

built :
    build_pipeline registry "s" (
      pass (
        row "3" none "sizer" true "{}" 20
        ∷ row "5" none "unknown" true "{}" 30
        ∷ row "2" (some "s") "archive" true "{}" 40
        ∷ []))
    ≡ noting "archive" ∷ []
unfolding build_pipeline new_registry register
built = refl

build_pipeline_iff_example :
    Contains (noting "archive") (build_pipeline registry "s" (pass table)) ↔ (
      (cs : List MiddlewareConfig) × (pass table ≡ pass cs)
      × Some (Makes registry "s" (noting "archive")) cs)
build_pipeline_iff_example = build_pipeline_iff registry "s" (noting "archive") (pass table)

abbrev quoted : Text → Text
quoted t = 34 ∷ t ++ 34 ∷ []

quoted-longer : (t : Text) → length t + 2 ≤ length (quoted t)
quoted-longer t = omega (arith, length-append t (34 ∷ []))

abbrev sizer : String → Sizer (List String)
sizer action = record { max_bytes = 4; action = action; event_logger = none }

by_default :
    new_sizer {W = List String} (record { max_response_bytes = negsuc 0; action = "" }) none
    ≡ record { max_bytes = 500000; action = "truncate"; event_logger = none }
unfolding new_sizer
by_default = refl

escaped : json_escape quoted (codes "ab") ≡ codes "ab"
unfolding json_escape
escaped = refl

size_response-ResultIsWithin_example :
    ResultIsWithin 4 (size_response quoted (sizer "block") meta response []).1
size_response-ResultIsWithin_example =
    size_response-ResultIsWithin quoted (sizer "block") meta response [] refl refl

size_response-ResultIsLonger_example :
    ResultIsLonger 4 (size_response quoted (sizer "truncate") meta response []).1
size_response-ResultIsLonger_example =
    size_response-ResultIsLonger quoted (sizer "truncate") meta response (codes "result") []
      quoted-longer refl refl refl (omega arith)

-- Results are read and written for one tool.
abbrev tool : String → String → Tool
tool name description = record { name = name; description = description; input_schema = "" }

abbrev long : Tool
long = tool "a" "longer"

abbrev short : Tool
short = tool "a" "short"

abbrev tools_in : Text → Option (List Tool)
tools_in [] = some (short ∷ [])
tools_in (c ∷ r) = some (long ∷ [])

abbrev is_short : Tool → Bool
is_short t = str_eq t.name "a" && (str_eq t.description "short" && str_eq t.input_schema "")

abbrev with_tools : Text → List Tool → Option Text
with_tools r [] = none
with_tools r (t ∷ []) = if is_short t then some [] else none
with_tools r (t ∷ u ∷ ts) = none

abbrev optimized_in : String → Option (List Tool)
optimized_in s = some (short ∷ [])

abbrev identity : String → String
identity s = s

abbrev optimization : ToolOptimization
optimization = record { status = "ready"; tools_hash = "alonger"; optimized_tools = "" }

hashed : hash_tools identity (long ∷ []) ≡ "alonger"
unfolding hash_tools
hashed = refl

shortened :
    optimize_response identity tools_in optimized_in with_tools "tools/list"
      (some true)
      (some optimization)
      response
    ≡ record response { result = some [] }
unfolding optimize_response hash_tools replace_tools
shortened = refl

is_short-short : (t : Tool) → is_short t ≡ true → t ≡ short
is_short-short t h =
    ground (arith, h, eq_iff t.name "a", eq_iff t.description "short", eq_iff t.input_schema "")

reads_back :
    (r : Text) (ts : List Tool) (after : Text)
    → with_tools r ts ≡ some after
    → tools_in after ≡ some ts
reads_back r [] after h = cc
reads_back r (t ∷ u ∷ ts) after h = cc
reads_back r (t ∷ []) (c ∷ after) h = ground (arith, h)
reads_back r (t ∷ []) [] h = elim (Bool-cases (is_short t)) [
  | inl e ↦ ap (λ x. some (x ∷ [])) (sym (is_short-short t e))
  | inr e ↦ ground (arith, h, e)
]

optimize_response-names_example :
    names_in tools_in
      (optimize_response identity tools_in optimized_in with_tools "tools/list"
        (some true)
        (some optimization)
        response).result
    ≡ names_in tools_in response.result
optimize_response-names_example =
    optimize_response-names identity tools_in optimized_in with_tools reads_back "tools/list"
      (some true) (some optimization) response
