-- ===== src/DeviceAuth/Granted.antt =====
-- Whose keys polls hand out.
use arc_relay.Prelude.{
  ℕ, ◌<◌, ◌≡◌, refl, sym, subst, ap, ◌∙◌, inl, inr, String, List, [], ◌∷◌, Bool, true, false,
  Option, none, some, arith, ◌==◌, ==_iff, str_eq, eq_iff, Bool-cases, All, All-append, Some,
}
use arc_relay.DeviceAuth.{
  DeviceAuthStore, DeviceAuthRequest, Status, pending, approved, denied, new_device_auth_store,
  create, approve, approve_at, deny, deny_at, consume, consume_at, reply, reply_of, poll, find,
  remove, sweep_one, sweep, cleanup, is_expired, is_pending, Entries, write_request,
}
use arc_relay.DeviceAuth.Delivery.{
  Op, created, granted, refused, polled, swept, step, log_of, log, deliveries, find-remove,
}

-- The operation is an approval of the device code with the key.
abbrev pub Grants : String → String → Op → Type 0
Grants d k (granted c key) = (c ≡ d) × (key ≡ k)
Grants d k (created now device user) = ⊥
Grants d k (refused c) = ⊥
Grants d k (polled now c) = ⊥
Grants d k (swept now) = ⊥

abbrev pub IsGranted : List Op → String → String → Type 0
IsGranted os d k = Some (Grants d k) os

record IsFine (P : String → String → Type 0) (s : DeviceAuthStore) (d : String) (a : ℕ)
    : Type 0 where
  in_use : a < s.next
  own : (s.heap a).device_code ≡ d
  key : (s.heap a).status ≡ approved → P d (s.heap a).api_key

record Inv (P : String → String → Type 0) (s : DeviceAuthStore) : Type 0 where
  fine : (d : String) (a : ℕ) → find d s.requests ≡ some a → IsFine P s d a

module _ (P : String → String → Type 0) where
  removed-Inv :
      (c u : String) (s : DeviceAuthStore)
      → Inv P s
      → Inv P (record s { requests = remove c s.requests; by_user = remove u s.by_user })
  removed-Inv c u s v = record {
    fine = λ d a e.
        let f = v.fine d a (ground (arith, e, find-remove c d s.requests)) in
        record { in_use = f.in_use; own = f.own; key = f.key };
  }

  sweep_one-Inv :
      (old : Bool) (c : String) (a : ℕ) (s : DeviceAuthStore)
      → Inv P s
      → Inv P (sweep_one old c a s)
  unfolding sweep_one
  sweep_one-Inv true c a s v = removed-Inv c (s.heap a).user_code s v
  sweep_one-Inv false c a s v = v

  sweep-Inv :
      (now : ℕ) (entries : Entries ℕ) (s : DeviceAuthStore) → Inv P s → Inv P (sweep now s entries)
  unfolding sweep
  sweep-Inv now [] s v = v
  sweep-Inv now ((c, a) ∷ entries) s v =
      sweep-Inv now entries _ (sweep_one-Inv (is_expired now (s.heap a)) c a s v)

  written-Inv :
      (c : String) (a : ℕ) (r : DeviceAuthRequest) (s : DeviceAuthStore)
      → find c s.requests ≡ some a
      → r.device_code ≡ c
      → (r.status ≡ approved → P c r.api_key)
      → Inv P s
      → Inv P (write_request a r s)
  written-Inv c a r s here own new v = record {
    fine = λ d b e. elim (Bool-cases (a == b)) [
      | inr other ↦
          let f = v.fine d b e in
          record { in_use = f.in_use; own = rw other f.own; key = rw other f.key }
      | inl same ↦
          let ab : a ≡ b = (==_iff a b).0 same in
          let f = v.fine d b e in
          let cd : c ≡ d =
            sym (v.fine c a here).own ∙ ap (λ x. (s.heap x).device_code) ab ∙ f.own in
          record {
            in_use = f.in_use;
            own = rw same (own ∙ cd);
            key = rw same (λ h. subst (λ x. P x r.api_key) cd (new h));
          }
    ];
  }

  approve_at-Inv :
      (c key : String) (s : DeviceAuthStore) (o : Option ℕ)
      → find c s.requests ≡ o
      → P c key
      → Inv P s
      → Inv P (approve_at key s o)
  unfolding approve_at
  approve_at-Inv c key s none e new v = v
  approve_at-Inv c key s (some a) e new v = written-Inv c a _ s e (v.fine c a e).own (λ _. new) v

  deny_at-Inv :
      (c : String) (s : DeviceAuthStore) (o : Option ℕ)
      → find c s.requests ≡ o
      → Inv P s
      → Inv P (deny_at s o)
  unfolding deny_at
  deny_at-Inv c s none e v = v
  deny_at-Inv c s (some a) e v = written-Inv c a _ s e (v.fine c a e).own (λ h. cc) v

  create-Inv :
      (now : ℕ) (device user : Option String) (s : DeviceAuthStore)
      → Inv P s
      → Inv P (create now device user s).0
  unfolding create
  create-Inv now none user s v = v
  create-Inv now (some c) none s v = v
  create-Inv now (some c) (some u) s v = record {
    fine = λ d a e. elim (Bool-cases (str_eq c d)) [
      | inl same ↦
          let at : s.next ≡ a = ground (arith, e, same) in
          let hit : (s.next == a) ≡ true = (==_iff s.next a).1 at in
          record {
            in_use = omega (arith, at);
            own = rw hit ((eq_iff c d).0 same);
            key = rw hit (λ h. cc);
          }
      | inr other ↦
          let f = v.fine d a (ground (arith, e, other, find-remove c d s.requests)) in
          let miss : (s.next == a) ≡ false = ground (arith, f.in_use) in
          record { in_use = omega (arith, f.in_use); own = rw miss f.own; key = rw miss f.key }
    ];
  }

  consume_at-Inv :
      (now : ℕ) (c : String) (s : DeviceAuthStore) (o : Option ℕ)
      → Inv P s
      → Inv P (consume_at now c s o).0
  unfolding consume_at
  consume_at-Inv now c s none v = v
  consume_at-Inv now c s (some a) v = elim (Bool-cases (is_expired now (s.heap a))) [
    | inl old ↦ rw old v
    | inr fresh ↦ elim (Bool-cases (is_pending (s.heap a).status)) [
      | inl undecided ↦ rw (fresh, undecided) v
      | inr decided ↦ rw (fresh, decided) (removed-Inv c (s.heap a).user_code s v)
    ]
  ]

  abbrev Delivered : String × String → Type 0
  Delivered (d, k) = P d k

  reply_of-Delivered :
      (c : String) (r : DeviceAuthRequest)
      → (r.status ≡ approved → P c r.api_key)
      → All Delivered (log_of c (reply_of r))
  reply_of-Delivered c r h = by_status r.status refl
    where
      by_status :
          (st : Status)
          → r.status ≡ st
          → All Delivered (log_of c (reply_of (record r { status = st })))
      by_status pending e = tt
      by_status approved e = (h e, tt)
      by_status denied e = tt

  consume_at-Delivered :
      (now : ℕ) (c : String) (s : DeviceAuthStore) (o : Option ℕ)
      → find c s.requests ≡ o
      → Inv P s
      → All Delivered (log_of c (reply (consume_at now c s o).0 (consume_at now c s o).1))
  unfolding consume_at reply
  consume_at-Delivered now c s none e v = tt
  consume_at-Delivered now c s (some a) e v = elim (Bool-cases (is_expired now (s.heap a))) [
    | inl old ↦ rw old tt
    | inr fresh ↦ elim (Bool-cases (is_pending (s.heap a).status)) [
      | inl undecided ↦ rw (fresh, undecided) (reply_of-Delivered c (s.heap a) (v.fine c a e).key)
      | inr decided ↦ rw (fresh, decided) (reply_of-Delivered c (s.heap a) (v.fine c a e).key)
    ]
  ]

  step-Inv :
      (o : Op) (s : DeviceAuthStore)
      → ((d k : String) → Grants d k o → P d k)
      → Inv P s
      → Inv P (step o s)
  unfolding step approve deny poll consume cleanup
  step-Inv (created now device user) s new v = create-Inv now device user s v
  step-Inv (granted c k) s new v = approve_at-Inv c k s _ refl (new c k (refl, refl)) v
  step-Inv (refused c) s new v = deny_at-Inv c s _ refl v
  step-Inv (polled now c) s new v = consume_at-Inv now c s _ v
  step-Inv (swept now) s new v = sweep-Inv now s.requests s v

  log-Delivered : (o : Op) (s : DeviceAuthStore) → Inv P s → All Delivered (log o s)
  unfolding poll consume
  log-Delivered (created now device user) s v = tt
  log-Delivered (granted c k) s v = tt
  log-Delivered (refused c) s v = tt
  log-Delivered (polled now c) s v = consume_at-Delivered now c s _ refl v
  log-Delivered (swept now) s v = tt

  deliveries-Delivered :
      (os : List Op) (s : DeviceAuthStore)
      → ((d k : String) → IsGranted os d k → P d k)
      → Inv P s
      → All Delivered (deliveries os s)
  unfolding deliveries
  deliveries-Delivered [] s new v = tt
  deliveries-Delivered (o ∷ os) s new v =
      All-append Delivered (log o s) (deliveries os (step o s)) (log-Delivered o s v) (
        deliveries-Delivered os (step o s) (λ d k later. new d k (inr later))
          (step-Inv o s (λ d k now. new d k (inl now)) v))

-- Where each poll reads and answers at once, every key that a poll hands out for a device code, in any
-- sequence of operations, is one with which that device code was approved.
pub deliveries-IsGranted :
    (os : List Op)
    → All (λ (e : String × String). IsGranted os e.0 e.1) (deliveries os new_device_auth_store)
deliveries-IsGranted os =
    deliveries-Delivered (IsGranted os) os new_device_auth_store (λ d k h. h)
      (record { fine = λ d a e. cc })
