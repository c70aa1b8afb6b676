-- ===== src/Relay/Guard.antt =====
-- What reaches a backend.
use arc_relay.Prelude.{◌≡◌, refl, ap, ◌↔◌, List, ◌∷◌, Option, none, some, arith, length}
use arc_relay.Middleware.{Request, Response, Checked, pass, failed, process_request, RequestMeta}
use arc_relay.Access.Tiers.{Denial}
use arc_relay.Relay.{
  Json, Relay, Server, Backend, Traffic, denied, meta_of, unless_denied, forwarded, returned,
  answered, handle_request,
}

longer : (x : Request) (xs : List Request) → xs ≡ x ∷ xs → ⊥
longer x xs e = let h = ap length e in omega arith

module _ (json : Json) {W : Type 0} where
  answered-sent :
      (r : Relay W) (server : Server) (meta : RequestMeta) (req : Request) (t : Traffic W)
      (s : W × Checked Response)
      → (answered json r server meta req t s).0.sent ≡ t.sent
  answered-sent r server meta req t (w, pass resp) = refl
  answered-sent r server meta req t (w, failed e) = refl

  returned-sent :
      (r : Relay W) (server : Server) (meta : RequestMeta) (req : Request) (t : Traffic W)
      (a : Checked Response)
      → (returned json r server meta req t a).0.sent ≡ t.sent
  returned-sent r server meta req t (failed e) = refl
  returned-sent r server meta req t (pass resp) = answered-sent r server meta req t _

  forwarded_iff :
      (r : Relay W) (server : Server) (b : Backend) (meta : RequestMeta) (req sent : Request)
      (t : Traffic W) (s : W × Checked Request)
      → ((forwarded json r server b meta req t s).0.sent ≡ sent ∷ t.sent) ↔ (s.1 ≡ pass sent)
  forwarded_iff r server b meta req sent t (w, failed e) =
      (λ h. absurd (longer sent t.sent h), λ h. cc)
  forwarded_iff r server b meta req sent t (w, pass changed) =
      let same =
        returned-sent r server meta changed (record t { world = w; sent = changed ∷ t.sent })
          (b.answer t.sent t.notified changed) in
      (λ h. cc, λ h. cc)

  unless_denied_iff :
      (r : Relay W) (server : Server) (b : Backend) (req sent : Request) (t : Traffic W)
      (d : Option Denial)
      → ((unless_denied json r server b req t d).0.sent ≡ sent ∷ t.sent) ↔ (
          (d ≡ none)
          × ((process_request (r.pipeline_of server) (meta_of json r server req) req t.world).1
              ≡ pass sent))
  unless_denied_iff r server b req sent t (some d) = (λ h. absurd (longer sent t.sent h), λ h. cc)
  unless_denied_iff r server b req sent t none =
      let through =
        forwarded_iff r server b (meta_of json r server req) req sent t
          (process_request (r.pipeline_of server) (meta_of json r server req) req t.world) in
      (λ h. (refl, through.0 h), λ h. through.1 h.1)

  -- A request that has an id reaches the backend in a given form exactly if access to its endpoint is
  -- not denied and the pipeline of the server lets it through in that form.
  pub handle_request_iff :
      (r : Relay W) (server : Server) (b : Backend) (req sent : Request) (t : Traffic W)
      → ((handle_request json r server b req t).0.sent ≡ sent ∷ t.sent) ↔ (
          (denied json r server req ≡ none)
          × ((process_request (r.pipeline_of server) (meta_of json r server req) req t.world).1
              ≡ pass sent))
  unfolding handle_request
  handle_request_iff r server b req sent t =
      unless_denied_iff r server b req sent t (denied json r server req)
