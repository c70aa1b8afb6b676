-- ===== src/Middleware.antt =====
-- internal/middleware/middleware.go with the messages of internal/mcp/protocol.go: the pipeline that
-- requests and responses go through, and the registry that builds it. `W` is what the middlewares keep
-- and write (the archive queue, the event log, the log of errors).
pub mod Laws
pub mod Configs
pub mod Build
pub mod Sizer
pub mod Optimizer
mod Tests
use arc_relay.Prelude.{
  ℕ, String, List, [], ◌∷◌, ◌++◌, Bool, Option, none, some, str_eq, if◌then◌else◌,
}
use arc_relay.Prelude.Text.{Text}

-- A machine integer of an error code.
pub data ℤ : Type 0 where
  pos negsuc : ℕ → ℤ

-- ErrCodeInternal is -32603.
abbrev pub err_code_internal : ℤ
err_code_internal = negsuc 32602

pub record Request : Type 0 where
  pub jsonrpc : String
  pub id : String
  pub method : String
  pub params : String

pub record RpcError : Type 0 where
  pub code : ℤ
  pub message : Text

-- The result is its bytes; `none` is a nil result.
pub record Response : Type 0 where
  pub jsonrpc : String
  pub id : String
  pub result : Option Text
  pub error : Option RpcError

-- NewErrorResponse
abbrev pub new_error_response : String → ℤ → Text → Response
new_error_response id code message = record {
  jsonrpc = "2.0";
  id = id;
  result = none;
  error = some (record { code = code; message = message });
}

pub record RequestMeta : Type 0 where
  pub user_id : String
  pub server_id : String
  pub server_name : String
  pub method : String
  pub tool_name : String
  pub client_ip : String
  pub request_id : String

-- A value or an error with its text.
pub data Checked (A : Type 0) : Type 0 where
  pass : A → Checked A
  failed : Text → Checked A

pub record Middleware (W : Type 0) : Type 0 where
  pub name : String
  pub on_request : RequestMeta → Request → W → W × Checked Request
  pub on_response : RequestMeta → Request → Response → W → W × Checked Response

module _ {W : Type 0} where
  -- NewPipeline and Add.
  abbrev pub new_pipeline : List (Middleware W)
  new_pipeline = []

  abbrev pub add : List (Middleware W) → Middleware W → List (Middleware W)
  add p m = p ++ m ∷ []

  -- What follows in the loop, unless an error stops it.
  abbrev pub and_then : {A B : Type 0} → W × Checked A → (A → W → W × Checked B) → W × Checked B
  and_then (w, pass a) next = next a w
  and_then (w, failed e) next = (w, failed e)

  -- Pipeline.ProcessRequest
  unfoldable pub process_request :
      List (Middleware W) → RequestMeta → Request → W → W × Checked Request
  process_request [] meta req w = (w, pass req)
  process_request (m ∷ ms) meta req w =
      and_then (m.on_request meta req w) (λ r v. process_request ms meta r v)

  -- Pipeline.ProcessResponse, whose loop starts at the last middleware.
  unfoldable pub process_response :
      List (Middleware W) → RequestMeta → Request → Response → W → W × Checked Response
  process_response [] meta req resp w = (w, pass resp)
  process_response (m ∷ ms) meta req resp w =
      and_then (process_response ms meta req resp w) (λ r v. m.on_response meta req r v)
