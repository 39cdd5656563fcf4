-- ===== src/Metrics.antt =====
-- pkg/metrics/metrics.go: the request metrics of the API. prometheus is not part of the repository;
-- what its vectors and its gauge hold is the state `HttpMetrics`. Durations are not modelled.
use go_skeleton.Base.{
  ℕ, zero, suc, Option, none, some, List, [], ◌∷◌, ◌++◌, ◌≡◌, refl, String, if◌then◌else◌,
}
use go_skeleton.Base.Int.{ℤ, pos, negsuc}
use go_skeleton.Base.Text.{Bytes, codes, is_empty}
use go_skeleton.Gin.{Gin, View, Value, text, number, Handler, Outcome, returned, panicked}

-- A label is a text, or a number as strconv prints it.
pub data Label : Type 0 where
  numeral : ℤ → Label
  literal : Bytes → Label

-- The label values of one observation.
pub record Labels : Type 0 where
  pub method : String
  pub route : Bytes
  pub status : ℕ
  pub code : Label

pub record HttpMetrics : Type 0 where
  pub inflight : ℤ
  pub requests : List Labels

unfoldable pub inc : ℤ → ℤ
inc (pos n) = pos (suc n)
inc (negsuc zero) = pos zero
inc (negsuc (suc n)) = negsuc n

unfoldable pub dec : ℤ → ℤ
dec (pos zero) = negsuc zero
dec (pos (suc n)) = pos n
dec (negsuc n) = negsuc (suc n)

pub dec-inc : (n : ℤ) → dec (inc n) ≡ n
unfolding inc dec
dec-inc (pos n) = refl
dec-inc (negsuc zero) = refl
dec-inc (negsuc (suc n)) = refl

-- businessCodeLabel, of what `c.Get` finds.
unfoldable pub business_code_label : Option Value → Label
business_code_label none = literal (codes "0")
business_code_label (some (number code)) = numeral code
business_code_label (some (text [])) = literal (codes "0")
business_code_label (some (text (c ∷ s))) = literal (c ∷ s)

-- c.Writer.Status(): 200 until a response is written, then that of the first one.
abbrev pub first_status : {B : Type 0} → List (ℕ × Option B) → ℕ
first_status [] = 200
first_status ((status, _) ∷ _) = status

abbrev pub status_of : {B : Type 0} → View B → ℕ
status_of v = first_status v.sent

module _ {B : Type 0} (g : Gin B) where
  open g use {Context, view}

  abbrev pub labels_of : Context → Labels
  labels_of c =
      let v = view c in
      record {
        method = v.request.method;
        route = if is_empty v.request.full_path then codes "not_found" else v.request.full_path;
        status = status_of v;
        code = business_code_label (v.keys "response_code");
      }

  -- What HTTPMiddleware does after `c.Next()`, which does not happen if that panics.
  abbrev observed : HttpMetrics → Outcome Context → Outcome (HttpMetrics × Context)
  observed m (returned c) =
      returned (record { inflight = dec m.inflight; requests = m.requests ++ labels_of c ∷ [] }, c)
  observed m (panicked c) = panicked (m, c)

  -- (*Registry).HTTPMiddleware: on contexts that carry the metrics, round a chain that does not.
  unfoldable pub http_middleware : Handler Context → Handler (HttpMetrics × Context)
  http_middleware next (m, c) = observed (record m { inflight = inc m.inflight }) (next c)

  pub http_middleware_returned :
      (next : Handler Context) (m : HttpMetrics) (c c' : Context)
      → next c ≡ returned c'
      → http_middleware next (m, c)
        ≡ returned
            (record { inflight = m.inflight; requests = m.requests ++ labels_of c' ∷ [] }, c')
  unfolding http_middleware
  http_middleware_returned next m c c' e = rw e (rw (dec-inc m.inflight))
