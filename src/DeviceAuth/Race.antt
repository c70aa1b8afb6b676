-- ===== src/DeviceAuth/Race.antt =====
-- What can happen between the consumption of a request and the answer to the poll.
use arc_relay.Prelude.{
  ℕ, ◌+◌, ◌≤◌, ◌≡◌, refl, String, true, false, Option, none, some, arith, ◌==◌, str_eq_self, ==_iff,
  Bool-cases, inl, inr,
}
use arc_relay.DeviceAuth.{
  DeviceAuthStore, DeviceAuthRequest, approved, api_key_is, create, approve, approve_at, consume,
  consume_at, reply, poll, find, deny, deny_at, may_decide, may_decide_at, get, unless_expired,
  is_expired,
}

-- A poll that finds a fresh request pending and answers only after it is approved hands the key out,
-- and leaves the request in the store, so that the next poll in time hands the same key out again.
pub key_delivered_twice :
    (now later : ℕ) (device user key : String) (s : DeviceAuthStore)
    → later ≤ now + 300
    → let s0 = (create now (some device) (some user) s).0 in
      let (s1, polled) = consume now device s0 in
      let s2 = approve device key s1 in
      (reply s2 polled ≡ api_key_is key) × ((poll later device s2).1 ≡ api_key_is key)
unfolding create consume consume_at approve approve_at reply poll
key_delivered_twice now later device user key s soon = ground (arith, str_eq_self device)

-- What a poll answers for an approved request at an address.
answers_key :
    (now : ℕ) (device key : String) (s : DeviceAuthStore) (a : ℕ) (r : DeviceAuthRequest)
    → s.heap a ≡ record r { status = approved; api_key = key }
    → is_expired now r ≡ false
    → reply (consume_at now device s (some a)).0 (consume_at now device s (some a)).1
      ≡ api_key_is key
unfolding consume_at reply
answers_key now device key s a r e fresh = rw (e, fresh, e, e)

may_decide-fresh :
    (now : ℕ) (s : DeviceAuthStore) (a : ℕ)
    → may_decide_at s (unless_expired now s (some a)) ≡ true
    → is_expired now (s.heap a) ≡ false
unfolding may_decide_at
may_decide-fresh now s a h = elim (Bool-cases (is_expired now (s.heap a))) [
  | inl old ↦ absurd (ground (arith, h, old))
  | inr fresh ↦ fresh
]

decided_heap :
    (key : String) (s : DeviceAuthStore) (a : ℕ)
    → (approve_at key (deny_at s (some a)) (some a)).heap a
      ≡ record (s.heap a) { status = approved; api_key = key }
unfolding approve_at deny_at
decided_heap key s a = let self : (a == a) ≡ true = (==_iff a a).1 refl in rw self

at_address :
    (now : ℕ) (device key : String) (s : DeviceAuthStore) (o : Option ℕ)
    → find device s.requests ≡ o
    → may_decide_at s (unless_expired now s o) ≡ true
    → (poll now device (approve device key (deny device s))).1 ≡ api_key_is key
unfolding may_decide_at poll consume approve approve_at deny deny_at
at_address now device key s none e h = cc
at_address now device key s (some a) e h =
    rw (e, e, e)
      (answers_key now device key _ a (s.heap a) (decided_heap key s a)
        (may_decide-fresh now s a h))

-- Two decisions on a pending request that have both passed the check: if the denial comes first, the
-- approval replaces it, and the next poll hands the key out.
pub denial_replaced :
    (now : ℕ) (device key : String) (s : DeviceAuthStore)
    → may_decide now device s ≡ true
    → (poll now device (approve device key (deny device s))).1 ≡ api_key_is key
unfolding may_decide get
denial_replaced now device key s h = at_address now device key s (find device s.requests) refl h
