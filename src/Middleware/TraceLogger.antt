-- ===== src/Middleware/TraceLogger.antt =====
-- internal/middleware/logger.go: the trace id of a request. Writing the audit log is not modelled.
pub mod Ids
use go_skeleton.Base.{
  ℕ, ◌≤◌, Bool, true, false, ◌&&◌, ◌||◌, Option, some, List, [], ◌∷◌, ◌≡◌, refl, not, if◌then◌else◌,
  leb, ltb, ◌==◌, length, arith, all, All,
}
use go_skeleton.Base.Text.{Bytes, codes, between, is_empty}
use go_skeleton.Gin.{Gin, View, Request, text, Middleware}

abbrev pub max_request_id_len : ℕ
max_request_id_len = 128

unfoldable pub id_byte : ℕ → Bool
id_byte c =
    between b'a' c b'z'
    || between b'A' c b'Z'
    || between b'0' c b'9'
    || c == b'-'
    || c == b'_'
    || c == b'.'
    || c == b':'

unfoldable pub valid_request_id : Bytes → Bool
unfolding id_byte
valid_request_id id =
    if is_empty id || ltb max_request_id_len (length id) then false else all id_byte id

-- The request's own id where it is valid, or else the new one.
unfoldable pub chosen_id : Bytes → Bytes → Bytes
unfolding valid_request_id
chosen_id uuid given = if not (valid_request_id given) then uuid else given

module _ {B : Type 0} (g : Gin B) where
  open g use {Context, view, set, header, set_request}

  -- The context that TraceLogger hands on; `uuid` is the text that `uuid.New()` gives for this request.
  unfoldable pub traced : Bytes → Context → Context
  unfolding chosen_id
  traced uuid c =
      let trace_id = chosen_id uuid ((view c).request.headers "X-Request-ID") in
      let c' = header "X-Request-ID" trace_id (set "trace_id" (text trace_id) c) in
      let request = (view c').request in
      set_request (record request { context = record request.context { trace_id = trace_id } }) c'

  unfoldable pub trace_logger : Bytes → Middleware Context
  unfolding traced
  trace_logger uuid next c = next (traced uuid c)
