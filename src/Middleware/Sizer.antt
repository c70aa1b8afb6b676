-- ===== src/Middleware/Sizer.antt =====
-- internal/middleware/sizer.go: the limit on the size of a response. `marshal` is json.Marshal of a
-- text, with its quotes; `parse` decodes the configuration.
pub mod Limits
use arc_relay.Prelude.{
  ℕ, suc, ◌+◌, ◌-◌, ◌≤◌, ◌<◌, ◌≡◌, refl, String, List, [], ◌∷◌, ◌++◌, Bool, true, false, Option,
  none, some, leb, if◌then◌else◌, str_eq, eq_iff, length, length-append, take, drop, arith,
  Bool-cases, ◌||◌,
}
use arc_relay.Prelude.Text.{Text, codes, decimal}
use arc_relay.Middleware.{
  ℤ, pos, negsuc, Request, Response, RpcError, RequestMeta, Checked, pass, failed, Middleware,
  new_error_response, err_code_internal,
}

pub record SizerConfig : Type 0 where
  pub max_response_bytes : ℤ
  pub action : String

abbrev pub default_sizer_config : SizerConfig
default_sizer_config = record { max_response_bytes = pos 500000; action = "truncate" }

-- The event that is logged, without its id and time.
pub record MiddlewareEvent : Type 0 where
  pub middleware : String
  pub event_type : String
  pub summary : Text
  pub request_method : String
  pub endpoint_name : String
  pub user_id : String

-- The logger is `none` where it is nil.
pub record Sizer (W : Type 0) : Type 0 where
  pub max_bytes : ℕ
  pub action : String
  pub event_logger : Option (MiddlewareEvent → W → W)

abbrev pub or_default_size : ℤ → ℕ
or_default_size (pos n) = if leb n 0 then 500000 else n
or_default_size (negsuc n) = 500000

abbrev pub or_truncate : String → String
or_truncate action = if str_eq action "" then "truncate" else action

-- `Response size %d bytes exceeds limit %d bytes`, and the message of a blocked response.
abbrev pub size_summary : ℕ → ℕ → Text
size_summary size max =
    codes "Response size "
    ++ decimal size
    ++ codes " bytes exceeds limit "
    ++ decimal max
    ++ codes " bytes"

abbrev pub too_large : ℕ → ℕ → Text
too_large size max =
    codes "response too large ("
    ++ decimal size
    ++ codes " bytes, limit "
    ++ decimal max
    ++ codes ")"

module _ {W : Type 0} where
  -- NewSizer and NewSizerFromConfig.
  unfoldable pub new_sizer : SizerConfig → Option (MiddlewareEvent → W → W) → Sizer W
  new_sizer cfg logger = record {
    max_bytes = or_default_size cfg.max_response_bytes;
    action = or_truncate cfg.action;
    event_logger = logger;
  }

  abbrev pub sizer_of : Option SizerConfig → Option (MiddlewareEvent → W → W) → Checked (Sizer W)
  sizer_of none logger = failed (codes "sizer: invalid config")
  sizer_of (some cfg) logger = pass (new_sizer cfg logger)

  unfoldable pub new_sizer_from_config :
      (String → Option SizerConfig) → String → Option (MiddlewareEvent → W → W) → Checked (Sizer W)
  new_sizer_from_config parse config logger =
      if str_eq config "" || str_eq config "{}"
      then pass (new_sizer default_sizer_config logger)
      else sizer_of (parse config) logger

  -- logEvent
  abbrev pub logged : Option (MiddlewareEvent → W → W) → MiddlewareEvent → W → W
  logged none e w = w
  logged (some f) e w = f e w

  abbrev pub log_event : Sizer W → RequestMeta → String → Text → W → W
  log_event s meta type summary = logged s.event_logger (record {
    middleware = "sizer";
    event_type = type;
    summary = summary;
    request_method = meta.method;
    endpoint_name = meta.tool_name;
    user_id = meta.user_id;
  })

-- jsonEscape: the encoding without its quotes.
abbrev pub drop_last : Text → Text
drop_last b = take (length b - 2) (drop 1 b)

unfoldable pub json_escape : (Text → Text) → Text → Text
json_escape marshal s = if leb 2 (length (marshal s)) then drop_last (marshal s) else s

abbrev pub truncation_note : ℕ → ℕ → Text
truncation_note size max =
    codes "{\"content\":[{\"type\":\"text\",\"text\":\"[Response truncated: "
    ++ decimal size
    ++ codes " bytes exceeded "
    ++ decimal max
    ++ codes " byte limit. First "
    ++ decimal max
    ++ codes " bytes shown.]\\n"

-- The result that takes the place of a longer one.
unfoldable pub truncated : (Text → Text) → ℕ → Text → Text
truncated marshal max result =
    truncation_note (length result) max ++ json_escape marshal (take max result) ++ codes "\"}]}"

abbrev pub unless_error : {A : Type 0} → Option RpcError → A → A → A
unless_error (some e) x y = x
unless_error none x y = y

module _ {W : Type 0} (marshal : Text → Text) where
  -- The switch of ProcessResponse, for a result that is too long.
  abbrev pub oversized : Sizer W → RequestMeta → Response → Text → W → W × Checked Response
  oversized s meta resp result w =
      if str_eq s.action "block"
      then (
        log_event s meta "blocked" (size_summary (length result) s.max_bytes) w,
        pass (new_error_response resp.id err_code_internal (too_large (length result) s.max_bytes)),
      )
      else if str_eq s.action "truncate"
      then (
        log_event s meta "truncated" (size_summary (length result) s.max_bytes) w,
        pass (record {
          jsonrpc = resp.jsonrpc;
          id = resp.id;
          result = some (truncated marshal s.max_bytes result);
          error = none;
        }),
      )
      else if str_eq s.action "warn"
      then (log_event s meta "alert" (size_summary (length result) s.max_bytes) w, pass resp)
      else (w, pass resp)

  abbrev pub sized : Sizer W → RequestMeta → Response → Option Text → W → W × Checked Response
  sized s meta resp none w = (w, pass resp)
  sized s meta resp (some result) w =
      if leb (length result) s.max_bytes then (w, pass resp) else oversized s meta resp result w

  -- Sizer.ProcessResponse
  unfoldable pub size_response : Sizer W → RequestMeta → Response → W → W × Checked Response
  size_response s meta resp w =
      unless_error resp.error (w, pass resp) (sized s meta resp resp.result w)

  unfoldable pub sizer_middleware : Sizer W → Middleware W
  sizer_middleware s = record {
    name = "sizer";
    on_request = λ meta req w. (w, pass req);
    on_response = λ meta req resp w. size_response s meta resp w;
  }
