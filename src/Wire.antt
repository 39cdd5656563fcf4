-- ===== src/Wire.antt =====
-- The bodies that the API writes: the envelope of pkg/response and the payloads of internal/handler
-- and internal/service, and the two probes' answers, which have no envelope.
use go_skeleton.Base.{ℕ, String, Bool, List, Option}
use go_skeleton.Base.Int.{ℤ}
use go_skeleton.Base.Text.{Bytes}
use go_skeleton.Model.{Example}

-- service.ListExamplesRes
pub record ListExamplesRes : Type 0 where
  pub examples : List Example
  pub total : ℕ

-- service.EnqueueExampleTaskRes
pub record EnqueueExampleTaskRes : Type 0 where
  pub queued : Bool

-- handler.CreateTokenRes
pub record CreateTokenRes : Type 0 where
  pub access_token : Bytes
  pub token_type : String

-- handler.MeRes
pub record MeRes : Type 0 where
  pub subject : Bytes

-- The field `Data` of an envelope, of type `any` in the source.
pub data Payload : Type 0 where
  example : Example → Payload
  examples : ListExamplesRes → Payload
  enqueued : EnqueueExampleTaskRes → Payload
  token : CreateTokenRes → Payload
  me : MeRes → Payload

-- response.Response; `metadata` is the map's only entry, the trace id.
pub record Response : Type 0 where
  pub code : ℤ
  pub message : String
  pub reason : String
  pub payload : Option Payload
  pub metadata : Option Bytes

-- oapi.HealthResponseStatus
pub data HealthStatus : Type 0 where
  healthy degraded unhealthy : HealthStatus

-- oapi.HealthResponseChecks
pub data Check : Type 0 where
  check_ok unavailable not_configured : Check

-- oapi.HealthResponse, with its three checks by name; the build information is left out.
pub record HealthResponse : Type 0 where
  pub status : HealthStatus
  pub postgres : Check
  pub redis : Check
  pub queue : Check

pub data Body : Type 0 where
  envelope : Response → Body
  live : Body
  health : HealthResponse → Body
