-- ===== src/Middleware/Laws.antt =====
-- Pipelines put together, and the calls that a pipeline makes.
use arc_relay.Prelude.{◌≡◌, refl, sym, ap, ◌∙◌, List, [], ◌∷◌, ◌++◌}
use arc_relay.Middleware.{
  Request, Response, RequestMeta, Checked, pass, failed, Middleware, and_then, process_request,
  process_response,
}

module _ {W : Type 0} where
  and_then-pass : {A : Type 0} (s : W × Checked A) → s ≡ and_then s (λ a w. (w, pass a))
  and_then-pass (w, pass a) = refl
  and_then-pass (w, failed e) = refl

  and_then_assoc :
      {A B C : Type 0} (s : W × Checked A) (f : A → W → W × Checked B) (g : B → W → W × Checked C)
      → and_then (and_then s f) g ≡ and_then s (λ a w. and_then (f a w) g)
  and_then_assoc (w, pass a) f g = refl
  and_then_assoc (w, failed e) f g = refl

  and_then_ext :
      {A B : Type 0} (s : W × Checked A) (f g : A → W → W × Checked B)
      → ((a : A) (w : W) → f a w ≡ g a w)
      → and_then s f ≡ and_then s g
  and_then_ext (w, pass a) f g h = h a w
  and_then_ext (w, failed e) f g h = refl

  request-append :
      (ms ns : List (Middleware W)) (meta : RequestMeta) (req : Request) (w : W)
      → process_request (ms ++ ns) meta req w
        ≡ and_then (process_request ms meta req w) (λ r v. process_request ns meta r v)
  unfolding process_request
  request-append [] ns meta req w = refl
  request-append (m ∷ ms) ns meta req w =
      and_then_ext (m.on_request meta req w) _ _ (λ r v. request-append ms ns meta r v)
      ∙ sym (and_then_assoc (m.on_request meta req w) _ _)

  response-append :
      (ms ns : List (Middleware W)) (meta : RequestMeta) (req : Request) (resp : Response) (w : W)
      → process_response (ms ++ ns) meta req resp w
        ≡ and_then (process_response ns meta req resp w) (λ r v. process_response ms meta req r v)
  unfolding process_response
  response-append [] ns meta req resp w = and_then-pass (process_response ns meta req resp w)
  response-append (m ∷ ms) ns meta req resp w =
      ap (λ s. and_then s (λ r v. m.on_response meta req r v))
        (response-append ms ns meta req resp w)
      ∙ and_then_assoc (process_response ns meta req resp w) _ _

  -- Two pipelines one after the other see a request in their order and its response in the opposite
  -- order, and the later of the two is not called when the earlier one stops with an error.
  pub process_append :
      (ms ns : List (Middleware W)) (meta : RequestMeta) (req : Request) (resp : Response) (w : W)
      → (process_request (ms ++ ns) meta req w
          ≡ and_then (process_request ms meta req w) (λ r v. process_request ns meta r v))
        × (process_response (ms ++ ns) meta req resp w
            ≡ and_then
                (process_response ns meta req resp w)
                (λ r v. process_response ms meta req r v))
  process_append ms ns meta req resp w =
      (request-append ms ns meta req w, response-append ms ns meta req resp w)
