-- ===== src/Relay.antt =====
-- handleMCPProxy, extractEndpointName and filterListResponse of internal/server/http.go: what the
-- relay does with one message for a server. The request log and the errors of the database are left
-- out.
pub mod Listing
pub mod Guard
mod Tests
use arc_relay.Prelude.{
  ℕ, String, List, [], ◌∷◌, ◌++◌, Bool, true, false, ◌&&◌, ◌||◌, Option, none, some, not,
  if◌then◌else◌, any, keep, str_eq,
}
use arc_relay.Prelude.Text.{Text, codes}
use arc_relay.Middleware.{
  Request, Response, RpcError, RequestMeta, Checked, pass, failed, Middleware, new_error_response,
  err_code_internal, process_request, process_response,
}
use arc_relay.Access.Tiers.{
  EndpointTier, User, Permission, Denial, not_permitted_by_profile, requires_level,
  check_endpoint_access,
}

pub record Server : Type 0 where
  pub id : String
  pub name : String

-- The answer over HTTP.
pub data Reply : Type 0 where
  http_error : ℕ → String → Reply
  accepted : Reply
  rpc : Response → Reply

-- What the backend has been sent, the latest first, and what the middlewares keep.
pub record Traffic (W : Type 0) : Type 0 where
  pub world : W
  pub sent : List Request
  pub notified : List String

-- A running backend: its answer, which may depend on what it was sent before, and whether it takes
-- notifications.
pub record Backend : Type 0 where
  pub answer : List Request → List String → Request → Checked Response
  pub takes_notifications : Bool

-- A body that is a JSON object: whether it has an id, and what it decodes to.
pub record Parsed : Type 0 where
  pub has_id : Bool
  pub request : Option Request
  pub notification : String

-- The stores and the user of the request. `access` and `profiles` say whether the stores are there.
pub record Relay (W : Type 0) : Type 0 where
  pub access : Bool
  pub profiles : Bool
  pub perms : List Permission
  pub tiers : List EndpointTier
  pub user : Option User
  pub pipeline_of : Server → List (Middleware W)
  pub optimizer : Option (RequestMeta → Response → Response)
  pub client_ip : String

abbrev pub denied_message : Denial → Text
denied_message not_permitted_by_profile = codes "access denied: not permitted by profile"
denied_message (requires_level tier) =
    codes "access denied: requires " ++ codes tier ++ codes " level"

abbrev pub id_or_empty : Option User → String
id_or_empty none = ""
id_or_empty (some u) = u.id

abbrev pub or_empty : Option String → String
or_empty none = ""
or_empty (some s) = s

-- The endpoint type, the key of the list and the field of the name for a listing method.
abbrev pub listing : String → Option (String × String × String)
listing method =
    if str_eq method "tools/list"
    then some ("tool", "tools", "name")
    else if str_eq method "resources/list"
    then some ("resource", "resources", "uri")
    else if str_eq method "prompts/list"
    then some ("prompt", "prompts", "name")
    else none

-- GetPermissionsForServer, and the set of permitted names.
abbrev pub permissions_for : List Permission → String → String → List Permission
permissions_for perms profile server =
    keep (λ p. str_eq p.profile_id profile && str_eq p.server_id server) perms

abbrev pub in_set : List Permission → String → String → Bool
in_set perms type name = any (λ p. str_eq p.endpoint_type type && str_eq p.endpoint_name name) perms

abbrev pub named_in : List Permission → String → Option String → Bool
named_in perms type none = false
named_in perms type (some name) = in_set perms type name

abbrev pub unless_rpc_error : Option RpcError → Response → Response → Response
unless_rpc_error (some e) resp after = resp
unless_rpc_error none resp after = after

abbrev pub error_reply : Request → Text → Reply
error_reply req message = rpc (new_error_response req.id err_code_internal message)

-- After the pipeline's answer: the tools are optimized and the listing is filtered.
abbrev pub optimized :
    Option (RequestMeta → Response → Response) → RequestMeta → Request → Response → Response
optimized none meta req resp = resp
optimized (some f) meta req resp = if str_eq req.method "tools/list" then f meta resp else resp

-- What is decoded from JSON and encoded again: a text field of an object, the list of a result under a
-- key, the name of an item, and a result with its list replaced.
pub record Json : Type 0 where
  pub field : String → String → Option String
  pub list_in : String → Text → Option (List Text)
  pub item_name : String → Text → Option String
  pub with_list : String → List Text → Text → Text

module _ (json : Json) where
  open json use {field, list_in, item_name, with_list}

  -- extractEndpointName
  unfoldable pub extract_endpoint_name : String → String → String × String
  extract_endpoint_name method params =
      if str_eq method "tools/call"
      then ("tool", or_empty (field "name" params))
      else if str_eq method "resources/read"
      then ("resource", or_empty (field "uri" params))
      else if str_eq method "prompts/get"
      then ("prompt", or_empty (field "name" params))
      else ("", "")

  abbrev pub filtered :
      List Permission → String × String × String → Text → Option (List Text) → Text
  filtered perms (type, key, name_field) result none = result
  filtered perms (type, key, name_field) result (some items) =
      with_list key (keep (λ raw. named_in perms type (item_name name_field raw)) items) result

  abbrev pub filter_at :
      List Permission → String × String × String → Response → Option Text → Response
  filter_at perms (type, key, name_field) resp none = resp
  filter_at perms (type, key, name_field) resp (some result) = record resp {
    result = some (filtered perms (type, key, name_field) result (list_in key result));
  }

  abbrev pub filter_result :
      List Permission → Option (String × String × String) → Response → Response
  filter_result perms none resp = resp
  filter_result perms (some l) resp = filter_at perms l resp resp.result

  -- filterListResponse under its condition in the handler.
  abbrev pub filter_for_profile :
      List Permission → Response → String → String → Option String → Response
  filter_for_profile perms resp method server none = resp
  filter_for_profile perms resp method server (some profile) =
      unless_rpc_error resp.error resp
        (filter_result (permissions_for perms profile server) (listing method) resp)

  unfoldable pub filter_list_response :
      Bool → List Permission → Response → String → Option User → String → Response
  filter_list_response profiles perms resp method none server = resp
  filter_list_response profiles perms resp method (some user) server =
      if str_eq user.role "admin" || not profiles
      then resp
      else filter_for_profile perms resp method server user.profile_id

  module _ {W : Type 0} where
    -- checkEndpointAccess with its endpoint, where the access store is there.
    unfoldable pub denied : Relay W → Server → Request → Option Denial
    denied r server req =
        if r.access
        then (let (type, name) = extract_endpoint_name req.method req.params in
            check_endpoint_access r.profiles r.perms r.tiers r.user server.id type name)
        else none

    unfoldable pub meta_of : Relay W → Server → Request → RequestMeta
    meta_of r server req = record {
      user_id = id_or_empty r.user;
      server_id = server.id;
      server_name = server.name;
      method = req.method;
      tool_name = (extract_endpoint_name req.method req.params).1;
      client_ip = r.client_ip;
      request_id = req.id;
    }

    abbrev pub answered :
        Relay W
        → Server
        → RequestMeta
        → Request
        → Traffic W
        → W × Checked Response
        → Traffic W × Reply
    answered r server meta req t (w, failed e) = (record t { world = w }, error_reply req e)
    answered r server meta req t (w, pass resp) = (
      record t { world = w },
      rpc (
          filter_list_response r.profiles r.perms (optimized r.optimizer meta req resp) req.method
            r.user server.id),
    )

    -- The answer of the backend, through the pipeline.
    abbrev pub returned :
        Relay W → Server → RequestMeta → Request → Traffic W → Checked Response → Traffic W × Reply
    returned r server meta req t (failed e) = (t, error_reply req (codes "proxy error: " ++ e))
    returned r server meta req t (pass resp) =
        answered r server meta req t (process_response (r.pipeline_of server) meta req resp t.world)

    -- backend.Send
    abbrev pub send : Backend → Request → Traffic W → Traffic W × Checked Response
    send b req t = (record t { sent = req ∷ t.sent }, b.answer t.sent t.notified req)

    -- The request as the pipeline leaves it; an empty pipeline leaves it as it is.
    abbrev pub forwarded :
        Relay W
        → Server
        → Backend
        → RequestMeta
        → Request
        → Traffic W
        → W × Checked Request
        → Traffic W × Reply
    forwarded r server b meta req t (w, failed e) = (record t { world = w }, error_reply req e)
    forwarded r server b meta req t (w, pass changed) =
        let (after, answer) = send b changed (record t { world = w }) in
        returned r server meta changed after answer

    abbrev pub unless_denied :
        Relay W → Server → Backend → Request → Traffic W → Option Denial → Traffic W × Reply
    unless_denied r server b req t (some d) = (t, error_reply req (denied_message d))
    unless_denied r server b req t none =
        forwarded r server b (meta_of r server req) req t
          (process_request (r.pipeline_of server) (meta_of r server req) req t.world)

    unfoldable pub handle_request :
        Relay W → Server → Backend → Request → Traffic W → Traffic W × Reply
    handle_request r server b req t = unless_denied r server b req t (denied r server req)

    -- A notification is passed on as it is.
    unfoldable pub handle_notification : Backend → String → Traffic W → Traffic W × Reply
    handle_notification b n t =
        (if b.takes_notifications then record t { notified = n ∷ t.notified } else t, accepted)

    abbrev pub handle_decoded :
        Relay W → Server → Backend → Option Request → Traffic W → Traffic W × Reply
    handle_decoded r server b none t = (t, http_error 400 "invalid JSON-RPC request")
    handle_decoded r server b (some req) t = handle_request r server b req t

    abbrev pub handle_body :
        Relay W → Server → Backend → Option Parsed → Traffic W → Traffic W × Reply
    handle_body r server b none t = (t, http_error 400 "invalid JSON")
    handle_body r server b (some p) t =
        if not p.has_id
        then handle_notification b p.notification t
        else handle_decoded r server b p.request t

    abbrev pub handle_server :
        Relay W
        → (Server → Option Backend)
        → Checked (Option Server)
        → Option Parsed
        → Traffic W
        → Traffic W × Reply
    handle_server r running (failed e) body t = (t, http_error 500 "internal error")
    handle_server r running (pass none) body t = (t, http_error 404 "server not found")
    handle_server r running (pass (some server)) body t = elim (running server) [
      | none ↦ (t, http_error 503 "server is not running")
      | some b ↦ handle_body r server b body t
    ]

    -- handleMCPProxy; `path` is the first part of the path after /mcp/.
    unfoldable pub handle_mcp_proxy :
        Relay W
        → (Server → Option Backend)
        → (String → Checked (Option Server))
        → Bool
        → String
        → Option Parsed
        → Traffic W
        → Traffic W × Reply
    handle_mcp_proxy r running lookup is_post path body t =
        if not is_post
        then (t, http_error 405 "method not allowed, use POST")
        else if str_eq path ""
        then (t, http_error 400 "missing server name in path")
        else handle_server r running (lookup path) body t
