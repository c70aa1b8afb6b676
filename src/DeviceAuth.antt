-- ===== src/DeviceAuth.antt =====
-- internal/web/device_auth.go: the store of pending device authorizations and the handlers that poll it
-- and decide on it. A request is an object that the store and a handler share, so it lives at an
-- address of a heap. Codes are drawn at random: `none` where the source of randomness fails. Times
-- are seconds; each section under the mutex is one operation.
pub mod Delivery
pub mod Granted
pub mod Race
mod Tests
use arc_relay.Prelude.{
  ℕ, suc, ◌+◌, String, List, [], ◌∷◌, Bool, true, false, Option, none, some, ltb, ◌==◌,
  if◌then◌else◌, not, keep, str_eq,
}

pub data Status : Type 0 where
  pending approved denied : Status

pub record DeviceAuthRequest : Type 0 where
  pub device_code : String
  pub user_code : String
  pub expires_at : ℕ
  pub status : Status
  pub api_key : String

-- A Go map as the list of its entries.
abbrev pub Entries : Type 0 → Type 0
Entries V = List (String × V)

module _ {V : Type 0} where
  abbrev pub find : String → Entries V → Option V
  find k [] = none
  find k ((j, v) ∷ m) = if str_eq j k then some v else find k m

  abbrev pub remove : String → Entries V → Entries V
  remove k [] = []
  remove k ((j, v) ∷ m) = let rest = remove k m in if str_eq j k then rest else (j, v) ∷ rest

  abbrev pub put : String → V → Entries V → Entries V
  put k v m = (k, v) ∷ remove k m

-- `heap` holds the requests, `next` is an address that is not in use.
pub record DeviceAuthStore : Type 0 where
  pub heap : ℕ → DeviceAuthRequest
  pub next : ℕ
  pub requests : Entries ℕ
  pub by_user : Entries String

abbrev pub no_request : DeviceAuthRequest
no_request = record {
  device_code = "";
  user_code = "";
  expires_at = 0;
  status = pending;
  api_key = "";
}

-- newDeviceAuthStore
abbrev pub new_device_auth_store : DeviceAuthStore
new_device_auth_store = record { heap = λ a. no_request; next = 0; requests = []; by_user = [] }

abbrev pub write_request : ℕ → DeviceAuthRequest → DeviceAuthStore → DeviceAuthStore
write_request a r s = record s { heap = λ b. if a == b then r else s.heap b }

abbrev pub is_expired : ℕ → DeviceAuthRequest → Bool
is_expired now r = ltb r.expires_at now

-- create
unfoldable pub create :
    ℕ → Option String → Option String → DeviceAuthStore → DeviceAuthStore × Option ℕ
create now none user s = (s, none)
create now (some device) none s = (s, none)
create now (some device) (some user) s = (
  record (write_request s.next
      (record {
        device_code = device;
        user_code = user;
        expires_at = now + 300;
        status = pending;
        api_key = "";
      })
      s) {
        next = suc s.next;
        requests = put device s.next s.requests;
        by_user = put user device s.by_user;
      },
  some s.next,
)

abbrev pub unless_expired : ℕ → DeviceAuthStore → Option ℕ → Option ℕ
unless_expired now s none = none
unless_expired now s (some a) = if is_expired now (s.heap a) then none else some a

-- get and getByUserCode
unfoldable pub get : ℕ → String → DeviceAuthStore → Option ℕ
get now device s = unless_expired now s (find device s.requests)

abbrev pub get_of : ℕ → DeviceAuthStore → Option String → Option ℕ
get_of now s none = none
get_of now s (some device) = get now device s

unfoldable pub get_by_user_code : ℕ → String → DeviceAuthStore → Option ℕ
get_by_user_code now user s = get_of now s (find user s.by_user)

-- approve and deny
unfoldable pub approve_at : String → DeviceAuthStore → Option ℕ → DeviceAuthStore
approve_at key s none = s
approve_at key s (some a) =
    write_request a (record (s.heap a) { status = approved; api_key = key }) s

unfoldable pub approve : String → String → DeviceAuthStore → DeviceAuthStore
approve device key s = approve_at key s (find device s.requests)

unfoldable pub deny_at : DeviceAuthStore → Option ℕ → DeviceAuthStore
deny_at s none = s
deny_at s (some a) = write_request a (record (s.heap a) { status = denied }) s

unfoldable pub deny : String → DeviceAuthStore → DeviceAuthStore
deny device s = deny_at s (find device s.requests)

abbrev pub is_pending : Status → Bool
is_pending pending = true
is_pending _ = false

-- consume: a request that is decided is removed; one that is pending stays, and is returned too.
unfoldable pub consume_at : ℕ → String → DeviceAuthStore → Option ℕ → DeviceAuthStore × Option ℕ
consume_at now device s none = (s, none)
consume_at now device s (some a) =
    if is_expired now (s.heap a)
    then (s, none)
    else if is_pending (s.heap a).status
    then (s, some a)
    else (
      record s {
        requests = remove device s.requests;
        by_user = remove (s.heap a).user_code s.by_user;
      },
      some a,
    )

unfoldable pub consume : ℕ → String → DeviceAuthStore → DeviceAuthStore × Option ℕ
consume now device s = consume_at now device s (find device s.requests)

-- One entry of the loop of cleanup, by whether it is expired, and the loop.
unfoldable pub sweep_one : Bool → String → ℕ → DeviceAuthStore → DeviceAuthStore
sweep_one true device a s = record s {
  requests = remove device s.requests;
  by_user = remove (s.heap a).user_code s.by_user;
}
sweep_one false device a s = s

unfoldable pub sweep : ℕ → DeviceAuthStore → Entries ℕ → DeviceAuthStore
sweep now s [] = s
sweep now s ((device, a) ∷ entries) =
    sweep now (sweep_one (is_expired now (s.heap a)) device a s) entries

-- A round of cleanup.
unfoldable pub cleanup : ℕ → DeviceAuthStore → DeviceAuthStore
cleanup now s = sweep now s s.requests

pub data Reply : Type 0 where
  expired_token access_denied authorization_pending : Reply
  api_key_is : String → Reply

-- The end of handleDeviceAuthToken, which reads the request after the mutex is released.
abbrev pub reply_of : DeviceAuthRequest → Reply
reply_of r = elim r.status [
  | approved ↦ api_key_is r.api_key
  | denied ↦ access_denied
  | pending ↦ authorization_pending
]

unfoldable pub reply : DeviceAuthStore → Option ℕ → Reply
reply s none = expired_token
reply s (some a) = reply_of (s.heap a)

-- handleDeviceAuthToken where nothing comes between the section under the mutex and the reading of the
-- status and the key that follows it; DeviceAuth/Race takes the two apart.
unfoldable pub poll : ℕ → String → DeviceAuthStore → DeviceAuthStore × Reply
poll now device s =
    ((consume now device s).0, reply (consume now device s).0 (consume now device s).1)

-- The check of handleDeviceAuthPagePost before it denies or approves.
unfoldable pub may_decide_at : DeviceAuthStore → Option ℕ → Bool
may_decide_at s none = false
may_decide_at s (some a) = is_pending (s.heap a).status

unfoldable pub may_decide : ℕ → String → DeviceAuthStore → Bool
may_decide now device s = may_decide_at s (get now device s)
