-- ===== src/Relay/Tests.antt =====
-- A user who may call one of two tools of a server.
use arc_relay.Prelude.{
  ◌≡◌, refl, ap, ◌∙◌, ◌↔◌, ℕ, zero, suc, ◌==◌, String, List, [], ◌∷◌, true, false, none, some, keep,
  if◌then◌else◌,
}
use arc_relay.Prelude.Text.{Text, codes}
use arc_relay.Middleware.{Request, Response, pass, process_request, process_response}
use arc_relay.Access.Tiers.{
  User, Permission, not_permitted_by_profile, check_endpoint_access, check_permission,
}
use arc_relay.Relay.{
  Json, Relay, Server, Backend, Traffic, accepted, rpc, denied, meta_of, denied_message,
  error_reply, handle_request, handle_body, handle_mcp_proxy, extract_endpoint_name,
  filter_list_response, handle_notification,
}
use arc_relay.Relay.Listing.{items_of, may_call, filter_list_response-may_call}
use arc_relay.Relay.Guard.{handle_request_iff}

-- A list of texts as one text: each code is raised by one, and 0 ends an item.
abbrev write_item : Text → Text → Text
write_item [] r = 0 ∷ r
write_item (c ∷ t) r = suc c ∷ write_item t r

abbrev write_items : List Text → Text
write_items [] = []
write_items (t ∷ ts) = write_item t (write_items ts)

abbrev push : ℕ → List Text → List Text
push c [] = (c ∷ []) ∷ []
push c (t ∷ ts) = (c ∷ t) ∷ ts

abbrev read_items : Text → List Text
read_items [] = []
read_items (zero ∷ r) = [] ∷ read_items r
read_items (suc c ∷ r) = push c (read_items r)

read-item : (t r : Text) → read_items (write_item t r) ≡ t ∷ read_items r
read-item [] r = refl
read-item (c ∷ t) r = ap (push c) (read-item t r)

read-write : (ts : List Text) → read_items (write_items ts) ≡ ts
read-write [] = refl
read-write (t ∷ ts) = read-item t (write_items ts) ∙ ap (λ x. t ∷ x) (read-write ts)

-- An item of the code 1 is the tool "read"; any other is "write". The parameters name the tool.
abbrev name_of : Text → String
name_of [] = "write"
name_of (c ∷ t) = if c == 1 then "read" else "write"

abbrev json : Json
json = record {
  field = λ f params. some params;
  list_in = λ key r. some (read_items r);
  item_name = λ f t. some (name_of t);
  with_list = λ key ts r. write_items ts;
}

abbrev user : User
user = record { id = "u"; role = "user"; access_level = "write"; profile_id = some "p" }

abbrev perms : List Permission
perms =
    record { profile_id = "p"; server_id = "s"; endpoint_type = "tool"; endpoint_name = "read" }
    ∷ []

abbrev server : Server
server = record { id = "s"; name = "server" }

abbrev relay : Relay ℕ
relay = record {
  access = true;
  profiles = true;
  perms = perms;
  tiers = [];
  user = some user;
  pipeline_of = λ s. [];
  optimizer = none;
  client_ip = "";
}

abbrev listing_response : Response
listing_response = record {
  jsonrpc = "2.0";
  id = "1";
  result = some (write_items ((1 ∷ []) ∷ (2 ∷ []) ∷ []));
  error = none;
}

abbrev backend : Backend
backend = record { answer = λ sent notified req. pass listing_response; takes_notifications = true }

abbrev quiet : Traffic ℕ
quiet = record { world = 0; sent = []; notified = [] }

abbrev request : String → String → Request
request method params = record { jsonrpc = "2.0"; id = "1"; method = method; params = params }

call_denied : handle_request json relay server backend (request "tools/call" "write") quiet ≡ (
  quiet,
  error_reply (request "tools/call" "write") (codes "access denied: not permitted by profile"),
)
unfolding handle_request denied check_endpoint_access extract_endpoint_name check_permission
call_denied = refl

listed :
    handle_mcp_proxy json relay
      (λ s. some backend)
      (λ n. pass (some server))
      true
      "server"
      (some (record { has_id = true; request = some (request "tools/list" ""); notification = "" }))
      quiet
    ≡ (
      record quiet { sent = request "tools/list" "" ∷ [] },
      rpc (record listing_response { result = some (write_items ((1 ∷ []) ∷ [])) }),
    )
unfolding handle_mcp_proxy handle_request denied check_endpoint_access extract_endpoint_name
    process_request process_response filter_list_response
listed = refl

handle_request_iff_example :
    ((handle_request json relay server backend (request "tools/call" "read") quiet).0.sent
      ≡ request "tools/call" "read" ∷ [])
    ↔ ((denied json relay server (request "tools/call" "read") ≡ none)
        × ((process_request
              (relay.pipeline_of server)
              (meta_of json relay server (request "tools/call" "read"))
              (request "tools/call" "read")
              0).1
            ≡ pass (request "tools/call" "read")))
handle_request_iff_example =
    handle_request_iff json relay server backend (request "tools/call" "read")
      (request "tools/call" "read") quiet

write_denied :
    denied json relay server (request "tools/call" "write") ≡ some not_permitted_by_profile
unfolding denied check_endpoint_access extract_endpoint_name check_permission
write_denied = refl

-- Without its id the call that is denied is passed on.
denied_call :
    handle_body json relay server backend
      (some (record {
        has_id = true;
        request = some (request "tools/call" "write");
        notification = "n";
      }))
      quiet
    ≡ (quiet, error_reply (request "tools/call" "write") (denied_message not_permitted_by_profile))
unfolding handle_request denied check_endpoint_access extract_endpoint_name check_permission
denied_call = refl

unchecked_call :
    handle_body json relay server backend
      (some (record {
        has_id = false;
        request = some (request "tools/call" "write");
        notification = "n";
      }))
      quiet
    ≡ (record quiet { notified = "n" ∷ [] }, accepted)
unfolding handle_notification
unchecked_call = refl

filter_list_response-may_call_example :
    items_of json "tools"
      (filter_list_response json true perms listing_response "tools/list" (some user) "s").result
    ≡ some (
        keep
          (λ raw. may_call perms [] user "s" "tool" (some (name_of raw)))
          ((1 ∷ []) ∷ (2 ∷ []) ∷ []))
filter_list_response-may_call_example =
    filter_list_response-may_call json (λ key items result. ap some (read-write items)) perms []
      user "p" "s" "tools/list" "tool" "tools" "name" listing_response
      (write_items ((1 ∷ []) ∷ (2 ∷ []) ∷ [])) ((1 ∷ []) ∷ (2 ∷ []) ∷ []) refl refl refl refl refl
      refl (refl, (refl, tt))
