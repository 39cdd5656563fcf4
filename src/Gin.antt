-- ===== src/Gin.antt =====
-- What the code relies on of gin.Context (github.com/gin-gonic/gin), which is not part of the
-- repository: an abstract context with the operations that handlers and middleware call, and its
-- `view`, through which each documented operation is described. The code under a context is a
-- `Handler`; it returns or panics. `Middleware` takes what `c.Next()` runs, the rest of the chain.
pub mod Recording
pub mod State
use go_skeleton.Base.{
  ℕ, String, Option, none, some, List, [], ◌∷◌, ◌++◌, Bool, true, false, ◌≡◌, str_eq, if◌then◌else◌,
  leb,
}
use go_skeleton.Base.Int.{ℤ}
use go_skeleton.Base.Text.{Bytes, is_empty}
use go_skeleton.Model.{Time}

-- What `c.Set` stores.
pub data Value : Type 0 where
  text : Bytes → Value
  number : ℤ → Value

abbrev pub Table {ℓ} : Type ℓ → Type ℓ
Table A = String → Option A

abbrev pub update {ℓ} : {A : Type ℓ} → String → Option A → Table A → Table A
update key value table = λ j. if str_eq j key then value else table j

-- The request's context.Context: the trace id that it carries ("" for none), its deadline, and the
-- time at which it is cancelled, as when the client goes away.
pub record RequestContext : Type 0 where
  pub trace_id : Bytes
  pub deadline : Option Time
  pub cancelled : Option Time

-- What the code reads of *http.Request.
pub record Request : Type 0 where
  pub method : String
  pub path : Bytes
  pub full_path : Bytes
  pub client_ip : Bytes
  pub headers : String → Bytes
  pub has_body : Bool
  pub body_limit : Option ℕ
  pub context : RequestContext

-- What a gin.Context holds: the request, the keys of `c.Set`, the response's headers, and the
-- responses written, each a status with a body or none; `now` is the clock when it is looked at.
pub record View (B : Type 0) : Type 0 where
  pub request : Request
  pub keys : Table Value
  pub headers : Table Bytes
  pub sent : List (ℕ × Option B)
  pub aborted : Bool
  pub now : Time

module _ {B : Type 0} where
  abbrev pub with_key : String → Value → View B → View B
  with_key key value v = record v { keys = update key (some value) v.keys }

  -- gin removes a header that is set to the empty text.
  abbrev pub with_header : String → Bytes → View B → View B
  with_header key value v = record v {
    headers = update key (if is_empty value then none else some value) v.headers;
  }

  abbrev pub with_sent : ℕ → Option B → View B → View B
  with_sent status body v = record v { sent = v.sent ++ (status, body) ∷ [] }

  abbrev pub with_abort : View B → View B
  with_abort v = record v { aborted = true }

  abbrev pub with_request : Request → View B → View B
  with_request request v = record v { request = request }

pub record Gin (B : Type 0) : Type 1 where
  pub Context : Type 0
  pub view : Context → View B
  pub set : String → Value → Context → Context
  pub header : String → Bytes → Context → Context
  pub json : ℕ → B → Context → Context
  pub abort_with_status : ℕ → Context → Context
  pub abort_with_status_json : ℕ → B → Context → Context
  pub set_request : Request → Context → Context
  pub view-set :
      (key : String) (value : Value) (c : Context)
      → view (set key value c) ≡ with_key key value (view c)
  pub view-header :
      (key : String) (value : Bytes) (c : Context)
      → view (header key value c) ≡ with_header key value (view c)
  pub view-json :
      (status : ℕ) (body : B) (c : Context)
      → view (json status body c) ≡ with_sent status (some body) (view c)
  pub view-abort_with_status :
      (status : ℕ) (c : Context)
      → view (abort_with_status status c) ≡ with_abort (with_sent status none (view c))
  pub view-abort_with_status_json :
      (status : ℕ) (body : B) (c : Context)
      → view (abort_with_status_json status body c)
        ≡ with_abort (with_sent status (some body) (view c))
  pub view-set_request :
      (request : Request) (c : Context)
      → view (set_request request c) ≡ with_request request (view c)

-- How a handler ends: `panicked` carries the context as it is then.
pub data Outcome (C : Type 0) : Type 0 where
  returned : C → Outcome C
  panicked : C → Outcome C

abbrev pub final : {C : Type 0} → Outcome C → C
final (returned c) = c
final (panicked c) = c

-- Go on after `c.Next()`, unless it panicked.
infixl 5 ◌>>=◌
abbrev pub ◌>>=◌ : {C : Type 0} → Outcome C → (C → Outcome C) → Outcome C
returned c >>= k = k c
panicked c >>= k = panicked c

abbrev pub Handler : Type 0 → Type 0
Handler C = C → Outcome C

abbrev pub Middleware : Type 0 → Type 0
Middleware C = Handler C → Handler C
