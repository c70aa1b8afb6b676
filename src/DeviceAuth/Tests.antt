-- ===== src/DeviceAuth/Tests.antt =====
-- One device, and what polls answer.
use arc_relay.Prelude.{◌≤◌, ◌≡◌, refl, String, List, [], ◌∷◌, true, none, some, arith, All}
use arc_relay.DeviceAuth.{
  DeviceAuthStore, api_key_is, new_device_auth_store, create, approve, consume, reply, poll,
  may_decide, get_by_user_code, approve_at, get, consume_at, may_decide_at,
}
use arc_relay.DeviceAuth.Delivery.{
  Op, created, granted, polled, swept, deliveries, count, creates, deliveries_limit, step,
}
use arc_relay.DeviceAuth.Granted.{IsGranted, deliveries-IsGranted}
use arc_relay.DeviceAuth.Race.{key_delivered_twice}

abbrev operations : List Op
operations =
    created 0 (some "d") (some "ABCD-2345")
    ∷ polled 5 "d"
    ∷ granted "d" "key"
    ∷ polled 10 "d"
    ∷ polled 15 "d"
    ∷ swept 400
    ∷ []

delivered_once : deliveries operations new_device_auth_store ≡ ("d", "key") ∷ []
unfolding deliveries poll reply consume consume_at step create approve approve_at
delivered_once = refl

deliveries_limit_example :
    count "d" (deliveries operations new_device_auth_store) ≤ creates "d" operations
deliveries_limit_example = deliveries_limit operations "d"

deliveries-IsGranted_example :
    All
      (λ (e : String × String). IsGranted operations e.0 e.1)
      (deliveries operations new_device_auth_store)
deliveries-IsGranted_example = deliveries-IsGranted operations

abbrev fresh : DeviceAuthStore
fresh = (create 0 (some "d") (some "ABCD-2345") new_device_auth_store).0

found : get_by_user_code 300 "ABCD-2345" fresh ≡ some 0
unfolding get_by_user_code create get
found = refl

too_late : get_by_user_code 301 "ABCD-2345" fresh ≡ none
unfolding get_by_user_code create get
too_late = refl

key_delivered_twice_example :
    let (s1, answer) = consume 0 "d" fresh in
    let s2 = approve "d" "key" s1 in
    (reply s2 answer ≡ api_key_is "key") × ((poll 5 "d" s2).1 ≡ api_key_is "key")
key_delivered_twice_example =
    key_delivered_twice 0 5 "d" "ABCD-2345" "key" new_device_auth_store (omega arith)

decidable : may_decide 1 "d" fresh ≡ true
unfolding may_decide may_decide_at get create
decidable = refl
