-- ===== src/Middleware/Optimizer/Names.antt =====
-- The tools that a client sees behind the optimizer.
use arc_relay.Prelude.{
  ◌≡◌, refl, sym, ap, ◌∙◌, inl, inr, String, List, [], ◌∷◌, Bool, Option, none, some, not, if-elim,
  str_eq, eq_iff, map, Bool-cases, Option-cases,
}
use arc_relay.Prelude.Maps.{StrMap, empty, update}
use arc_relay.Prelude.Text.{Text}
use arc_relay.Middleware.{Response, RpcError}
use arc_relay.Middleware.Optimizer.{
  Tool, ToolOptimization, by_name, or_original, replace_tools, hash_tools, patched, replaced,
  when_fresh, with_result, if_ready, if_enabled, optimize_response,
}

abbrev pub tool_names : List Tool → List String
tool_names = map (λ t. t.name)

-- A map that holds a tool under its own name.
abbrev IsKeyed : StrMap Tool → Type 0
IsKeyed m =
    (k : String)
    → (or_original (record { name = k; description = ""; input_schema = "" }) (m k)).name ≡ k

update-IsKeyed : (m : StrMap Tool) (t : Tool) → IsKeyed m → IsKeyed (update m t.name t)
update-IsKeyed m t h k = elim (Bool-cases (str_eq t.name k)) [
  | inl e ↦ rw e ((eq_iff t.name k).0 e)
  | inr e ↦ rw e (h k)
]

by_name-IsKeyed : (ts : List Tool) (m : StrMap Tool) → IsKeyed m → IsKeyed (by_name ts m)
by_name-IsKeyed [] m h = h
by_name-IsKeyed (t ∷ ts) m h = by_name-IsKeyed ts (update m t.name t) (update-IsKeyed m t h)

or_original-name :
    (t : Tool) (o : Option Tool)
    → (or_original (record { name = t.name; description = ""; input_schema = "" }) o).name ≡ t.name
    → (or_original t o).name ≡ t.name
or_original-name t none h = refl
or_original-name t (some u) h = h

replace-names :
    (m : StrMap Tool) (ts : List Tool) → IsKeyed m → tool_names (replace_tools m ts) ≡ tool_names ts
unfolding replace_tools
replace-names m [] h = refl
replace-names m (t ∷ ts) h =
    rw (or_original-name t (m t.name) (h t.name), replace-names m ts h) refl

abbrev pub names_of : Option (List Tool) → Option (List String)
names_of none = none
names_of (some ts) = some (tool_names ts)

empty-IsKeyed : IsKeyed empty
empty-IsKeyed k = refl

module _ (tools_in : Text → Option (List Tool)) where
  abbrev pub names_in : Option Text → Option (List String)
  names_in none = none
  names_in (some r) = names_of (tools_in r)

module _ (sha256 : String → String) (tools_in : Text → Option (List Tool))
    (optimized_in : String → Option (List Tool)) (with_tools : Text → List Tool → Option Text)
    (reads_back : (r : Text) (ts : List Tool) (after : Text)
      → with_tools r ts ≡ some after
      → tools_in after ≡ some ts) where
  abbrev KeepsNames : Response → Response → Type 0
  KeepsNames resp after = names_in tools_in after.result ≡ names_in tools_in resp.result

  patched-KeepsNames :
      (resp : Response) (result : Text) (original ts : List Tool)
      → resp.result ≡ some result
      → tools_in result ≡ some original
      → tool_names ts ≡ tool_names original
      → KeepsNames resp
          (patched sha256 tools_in optimized_in with_tools resp (with_tools result ts))
  patched-KeepsNames resp result original ts e d h = elim (Option-cases (with_tools result ts)) [
    | inl n ↦ rw n refl
    | inr (after, k) ↦ rw k (
        ap names_of (reads_back result ts after k)
        ∙ ap some h
        ∙ sym (ap names_of d)
        ∙ sym (ap (names_in tools_in) e))
  ]

  replaced-KeepsNames :
      (resp : Response) (result : Text) (original : List Tool) (optimized : Option (List Tool))
      → resp.result ≡ some result
      → tools_in result ≡ some original
      → KeepsNames resp
          (replaced sha256 tools_in optimized_in with_tools resp result original optimized)
  replaced-KeepsNames resp result original none e d = refl
  replaced-KeepsNames resp result original (some ts) e d =
      patched-KeepsNames resp result original (replace_tools (by_name ts empty) original) e d
        (replace-names (by_name ts empty) original (by_name-IsKeyed ts empty empty-IsKeyed))

  when_fresh-KeepsNames :
      (resp : Response) (opt : ToolOptimization) (result : Text) (tools : Option (List Tool))
      → resp.result ≡ some result
      → tools_in result ≡ tools
      → KeepsNames resp (when_fresh sha256 tools_in optimized_in with_tools resp opt result tools)
  when_fresh-KeepsNames resp opt result none e d = refl
  when_fresh-KeepsNames resp opt result (some original) e d =
      if-elim (KeepsNames resp) (not (str_eq (hash_tools sha256 original) opt.tools_hash)) _ _ refl
        (replaced-KeepsNames resp result original (optimized_in opt.optimized_tools) e d)

  with_result-KeepsNames :
      (resp : Response) (opt : ToolOptimization) (error : Option RpcError) (result : Option Text)
      → resp.result ≡ result
      → KeepsNames resp (with_result sha256 tools_in optimized_in with_tools resp opt error result)
  with_result-KeepsNames resp opt (some x) result e = refl
  with_result-KeepsNames resp opt none none e = refl
  with_result-KeepsNames resp opt none (some result) e =
      when_fresh-KeepsNames resp opt result (tools_in result) e refl

  if_ready-KeepsNames :
      (resp : Response) (opt : Option ToolOptimization)
      → KeepsNames resp (if_ready sha256 tools_in optimized_in with_tools resp opt)
  if_ready-KeepsNames resp none = refl
  if_ready-KeepsNames resp (some opt) =
      if-elim (KeepsNames resp) (not (str_eq opt.status "ready")) _ _ refl
        (with_result-KeepsNames resp opt resp.error resp.result refl)

  if_enabled-KeepsNames :
      (resp : Response) (server : Option Bool) (opt : Option ToolOptimization)
      → KeepsNames resp (if_enabled sha256 tools_in optimized_in with_tools resp server opt)
  if_enabled-KeepsNames resp none opt = refl
  if_enabled-KeepsNames resp (some enabled) opt =
      if-elim (KeepsNames resp) (not enabled) _ _ refl (if_ready-KeepsNames resp opt)

  -- Behind the optimizer a client finds the same tools in the same order as the server listed, by
  -- their names, whatever optimization is stored, if the encoded result decodes to the tools that were
  -- put into it.
  pub optimize_response-names :
      (method : String) (server : Option Bool) (opt : Option ToolOptimization) (resp : Response)
      → names_in tools_in
          (optimize_response sha256 tools_in optimized_in with_tools method server opt resp).result
        ≡ names_in tools_in resp.result
  unfolding optimize_response
  optimize_response-names method server opt resp =
      if-elim (KeepsNames resp) (not (str_eq method "tools/list")) _ _ refl
        (if_enabled-KeepsNames resp server opt)
