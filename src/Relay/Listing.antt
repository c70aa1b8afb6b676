-- ===== src/Relay/Listing.antt =====
-- Listings and calls: what a user finds and what the user may call.
use arc_relay.Prelude.{
  ◌≡◌, refl, ap, ◌∙◌, String, List, [], ◌∷◌, Bool, true, false, ◌||◌, Option, none, some, subst,
  if-elim, if◌then◌else◌, keep, str_eq, arith, All,
}
use arc_relay.Prelude.Text.{Text}
use arc_relay.Middleware.{Response}
use arc_relay.Access.Tiers.{
  EndpointTier, User, Permission, check_permission, check_endpoint_access, Denial,
}
use arc_relay.Relay.{
  Json, filter_at, listing, permissions_for, in_set, named_in, filtered, filter_result,
  filter_for_profile, filter_list_response, unless_rpc_error,
}

in_set-permissions_for :
    (perms : List Permission) (profile server type name : String)
    → in_set (permissions_for perms profile server) type name
      ≡ check_permission perms profile server type name
unfolding check_permission
in_set-permissions_for [] profile server type name = refl
in_set-permissions_for (p ∷ ps) profile server type name =
    ground (arith, in_set-permissions_for ps profile server type name)

abbrev pub lets_through : Option Denial → Bool
lets_through none = true
lets_through (some d) = false

-- Whether the user may call the endpoint of an item; an item without a name is none.
abbrev pub may_call :
    List Permission → List EndpointTier → User → String → String → Option String → Bool
may_call perms tiers user server type none = false
may_call perms tiers user server type (some name) =
    lets_through (check_endpoint_access true perms tiers (some user) server type name)

-- A text that is not empty, if there is one.
abbrev pub IsNamed : Option String → Type 0
IsNamed none = Unit
IsNamed (some name) = str_eq name "" ≡ false

named_in-may_call :
    (perms : List Permission) (tiers : List EndpointTier) (user : User)
    (profile server type : String) (name : Option String)
    → str_eq user.role "admin" ≡ false
    → user.profile_id ≡ some profile
    → str_eq type "" ≡ false
    → IsNamed name
    → named_in (permissions_for perms profile server) type name
      ≡ may_call perms tiers user server type name
unfolding check_endpoint_access
named_in-may_call perms tiers user profile server type none h e t n = refl
named_in-may_call perms tiers user profile server type (some name) h e t n =
    ground (arith, in_set-permissions_for perms profile server type name, h, e, t, n)

All-map :
    {A : Type 0} (P Q : A → Type 0) → ((x : A) → P x → Q x) → (xs : List A) → All P xs → All Q xs
All-map P Q f [] h = tt
All-map P Q f (x ∷ xs) h = (f x h.0, All-map P Q f xs h.1)

abbrev IsTyped : Option (String × String × String) → Type 0
IsTyped none = Unit
IsTyped (some (type, key, name_field)) = str_eq type "" ≡ false

listing-IsTyped : (method : String) → IsTyped (listing method)
listing-IsTyped method = if-elim IsTyped (str_eq method "tools/list") _ _ refl (
    if-elim IsTyped (str_eq method "resources/list") _ _ refl
      (if-elim IsTyped (str_eq method "prompts/list") _ none refl tt))

keep-same :
    {A : Type 0} (p q : A → Bool) (xs : List A) → All (λ x. p x ≡ q x) xs → keep p xs ≡ keep q xs
keep-same p q [] h = refl
keep-same p q (x ∷ xs) h = rw (h.0, keep-same p q xs h.1) refl

abbrev pub items_of : Json → String → Option Text → Option (List Text)
items_of json key none = none
items_of json key (some result) = json.list_in key result

module _ (json : Json)
    (reads_back : (key : String) (items : List Text) (result : Text)
      → json.list_in key (json.with_list key items result) ≡ some items) where
  open json use {list_in, item_name, with_list}

  -- For a user who is no administrator and has a profile, where profiles are in use, a listing holds
  -- exactly the items of the backend's list that the user may call, in their order, if the items have
  -- names, the response is no error, and an encoded list decodes to the items that were put into it.
  pub filter_list_response-may_call :
      (perms : List Permission) (tiers : List EndpointTier) (user : User)
      (profile server method type key name_field : String) (resp : Response) (result : Text)
      (items : List Text)
      → str_eq user.role "admin" ≡ false
      → user.profile_id ≡ some profile
      → listing method ≡ some (type, key, name_field)
      → resp.error ≡ none
      → resp.result ≡ some result
      → list_in key result ≡ some items
      → All (λ raw. IsNamed (item_name name_field raw)) items
      → items_of json key
          (filter_list_response json true perms resp method (some user) server).result
        ≡ some
            (keep (λ raw. may_call perms tiers user server type (item_name name_field raw)) items)
  unfolding filter_list_response
  filter_list_response-may_call perms tiers user profile server method type key name_field resp
        result items h e l noerr r i n =
      let chosen = permissions_for perms profile server in
      let to_filtered : filter_list_response json true perms resp method (some user) server
          ≡ filter_at json chosen (type, key, name_field) resp (some result) =
        ap
          (λ b.
            if b || false
            then resp
            else filter_for_profile json perms resp method server user.profile_id)
          h
        ∙ ap (λ o. filter_for_profile json perms resp method server o) e
        ∙ ap (λ x. unless_rpc_error x resp (filter_result json chosen (listing method) resp)) noerr
        ∙ ap (λ x. filter_result json chosen x resp) l
        ∙ ap (λ x. filter_at json chosen (type, key, name_field) resp x) r in
      let kept =
        keep-same (λ raw. named_in chosen type (item_name name_field raw))
          (λ raw. may_call perms tiers user server type (item_name name_field raw)) items
          (All-map _ _
            (λ raw m.
              named_in-may_call perms tiers user profile server type (item_name name_field raw) h e
                (subst IsTyped l (listing-IsTyped method)) m)
            items n) in
      ap (λ x. items_of json key x.result) to_filtered
      ∙ ap (λ x. list_in key (filtered json chosen (type, key, name_field) result x)) i
      ∙ reads_back key _ result
      ∙ ap some kept
