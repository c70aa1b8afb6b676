-- ===== src/DeviceAuth/Delivery.antt =====
-- Which keys polls hand out, and how often, where each poll reads and answers at once.
use arc_relay.Prelude.{
  ℕ, suc, ◌+◌, ◌≤◌, ◌≡◌, refl, inl, inr, String, List, [], ◌∷◌, ◌++◌, Bool, true, false, Option,
  none, some, arith, if◌then◌else◌, str_eq, eq_iff, Bool-cases,
}
use arc_relay.DeviceAuth.{
  DeviceAuthStore, DeviceAuthRequest, Status, pending, approved, denied, Reply, api_key_is,
  expired_token, access_denied, authorization_pending, new_device_auth_store, create, approve,
  approve_at, deny, deny_at, consume, consume_at, reply, reply_of, poll, find, remove, sweep_one,
  sweep, cleanup, is_expired, is_pending, Entries,
}

pub data Op : Type 0 where
  created : ℕ → Option String → Option String → Op
  granted : String → String → Op
  refused : String → Op
  polled : ℕ → String → Op
  swept : ℕ → Op

unfoldable pub step : Op → DeviceAuthStore → DeviceAuthStore
step (created now device user) s = (create now device user s).0
step (granted device key) s = approve device key s
step (refused device) s = deny device s
step (polled now device) s = (poll now device s).0
step (swept now) s = cleanup now s

abbrev pub log_of : String → Reply → List (String × String)
log_of device (api_key_is key) = (device, key) ∷ []
log_of device expired_token = []
log_of device access_denied = []
log_of device authorization_pending = []

abbrev pub log : Op → DeviceAuthStore → List (String × String)
log (polled now device) s = log_of device (poll now device s).1
log (created now device user) s = []
log (granted device key) s = []
log (refused device) s = []
log (swept now) s = []

-- The keys that the polls of a sequence of operations hand out, each with its device code.
unfoldable pub deliveries : List Op → DeviceAuthStore → List (String × String)
deliveries [] s = []
deliveries (o ∷ os) s = log o s ++ deliveries os (step o s)

abbrev pub count : String → List (String × String) → ℕ
count d [] = 0
count d ((c, k) ∷ l) = if str_eq c d then suc (count d l) else count d l

abbrev pub creates_of : String → Op → ℕ
creates_of d (created now (some c) (some u)) = if str_eq c d then 1 else 0
creates_of d (created now (some c) none) = 0
creates_of d (created now none u) = 0
creates_of d (granted c k) = 0
creates_of d (refused c) = 0
creates_of d (polled now c) = 0
creates_of d (swept now) = 0

-- How often a sequence of operations draws a device code.
abbrev pub creates : String → List Op → ℕ
creates d [] = 0
creates d (o ∷ os) = creates_of d o + creates d os

abbrev filled : Option ℕ → ℕ
filled none = 0
filled (some a) = 1

filled-le : (o : Option ℕ) → filled o ≤ 1
filled-le none = omega arith
filled-le (some a) = omega arith

pub find-remove :
    {V : Type 0} (k j : String) (m : Entries V)
    → find j (remove k m) ≡ (if str_eq k j then none else find j m)
find-remove k j [] = ground arith
find-remove k j ((i, v) ∷ m) = ground (arith, eq_iff i k, eq_iff i j, eq_iff k j, find-remove k j m)

count-append :
    (d : String) (l m : List (String × String)) → count d (l ++ m) ≡ count d l + count d m
count-append d [] m = omega arith
count-append d ((c, k) ∷ l) m = ground (arith, count-append d l m)

abbrev present : String → DeviceAuthStore → ℕ
present d s = filled (find d s.requests)

remove-filled : (k d : String) (m : Entries ℕ) → filled (find d (remove k m)) ≤ filled (find d m)
remove-filled k d m = rw (find-remove k d m) (ground arith)

sweep_one-present :
    (old : Bool) (c : String) (a : ℕ) (s : DeviceAuthStore) (d : String)
    → present d (sweep_one old c a s) ≤ present d s
unfolding sweep_one
sweep_one-present true c a s d = remove-filled c d s.requests
sweep_one-present false c a s d = omega arith

sweep-present :
    (now : ℕ) (entries : Entries ℕ) (s : DeviceAuthStore) (d : String)
    → present d (sweep now s entries) ≤ present d s
unfolding sweep
sweep-present now [] s d = omega arith
sweep-present now ((c, a) ∷ entries) s d = omega (
  arith,
  sweep-present now entries (sweep_one (is_expired now (s.heap a)) c a s) d,
  sweep_one-present (is_expired now (s.heap a)) c a s d,
)

approve-present :
    (key d : String) (s : DeviceAuthStore) (o : Option ℕ)
    → present d (approve_at key s o) ≡ present d s
unfolding approve_at
approve-present key d s none = refl
approve-present key d s (some a) = refl

deny-present :
    (d : String) (s : DeviceAuthStore) (o : Option ℕ) → present d (deny_at s o) ≡ present d s
unfolding deny_at
deny-present d s none = refl
deny-present d s (some a) = refl

reply-undecided :
    (d c : String) (r : DeviceAuthRequest)
    → is_pending r.status ≡ true
    → count d (log_of c (reply_of r)) ≡ 0
reply-undecided d c r h = by_status r.status h
  where
    by_status :
        (st : Status)
        → is_pending st ≡ true
        → count d (log_of c (reply_of (record r { status = st }))) ≡ 0
    by_status pending h = refl
    by_status approved h = cc
    by_status denied h = cc

log-count : (d c : String) (r : Reply) → count d (log_of c r) ≤ (if str_eq c d then 1 else 0)
log-count d c (api_key_is k) = omega arith
log-count d c expired_token = ground arith
log-count d c access_denied = ground arith
log-count d c authorization_pending = ground arith

-- A poll of a request that is found at an address.
poll_at-present :
    (now : ℕ) (c d : String) (s : DeviceAuthStore) (o : Option ℕ)
    → find c s.requests ≡ o
    → let t = consume_at now c s o in
      count d (log_of c (reply t.0 t.1)) + present d t.0 ≤ present d s
unfolding consume_at reply
poll_at-present now c d s none e = omega arith
poll_at-present now c d s (some a) e = elim (Bool-cases (is_expired now (s.heap a))) [
  | inl old ↦ rw old (omega arith)
  | inr fresh ↦ elim (Bool-cases (is_pending (s.heap a).status)) [
    | inl undecided ↦
        rw (fresh, undecided) (omega (arith, reply-undecided d c (s.heap a) undecided))
    | inr decided ↦
        rw (fresh, decided, find-remove c d s.requests)
          (ground (arith, log-count d c (reply_of (s.heap a)), eq_iff c d, e))
  ]
]

created-present :
    (now : ℕ) (device user : Option String) (s : DeviceAuthStore) (d : String)
    → present d (create now device user s).0 ≤ creates_of d (created now device user) + present d s
unfolding create
created-present now none user s d = omega arith
created-present now (some c) none s d = omega arith
created-present now (some c) (some u) s d = rw (find-remove c d s.requests) (ground arith)

step-present :
    (o : Op) (s : DeviceAuthStore) (d : String)
    → count d (log o s) + present d (step o s) ≤ creates_of d o + present d s
unfolding step poll consume approve deny cleanup
step-present (created now device user) s d = omega (arith, created-present now device user s d)
step-present (granted c k) s d = omega (arith, approve-present k d s (find c s.requests))
step-present (refused c) s d = omega (arith, deny-present d s (find c s.requests))
step-present (polled now c) s d = omega (arith, poll_at-present now c d s (find c s.requests) refl)
step-present (swept now) s d = omega (arith, sweep-present now s.requests s d)

deliveries-count :
    (os : List Op) (s : DeviceAuthStore) (d : String)
    → count d (deliveries os s) ≤ creates d os + present d s
unfolding deliveries
deliveries-count [] s d = omega arith
deliveries-count (o ∷ os) s d = omega (
  arith,
  count-append d (log o s) (deliveries os (step o s)),
  deliveries-count os (step o s) d,
  step-present o s d,
)

-- Where each poll reads and answers at once, a device code is answered with a key at most as often as
-- that code was drawn, whatever approvals, denials, polls and sweeps there are, in any order.
pub deliveries_limit :
    (os : List Op) (d : String) → count d (deliveries os new_device_auth_store) ≤ creates d os
deliveries_limit os d = omega (arith, deliveries-count os new_device_auth_store d)
