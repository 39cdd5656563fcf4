-- ===== src/Gin/State.antt =====
-- A gin whose contexts carry a state of the process, such as its metrics.
use go_skeleton.Gin.{Gin, Outcome, returned, panicked, Handler}

abbrev pub with_state : (S : Type 0) {B : Type 0} → Gin B → Gin B
with_state S g = record {
  Context = S × g.Context;
  view = λ c. g.view c.1;
  set = λ key value c. (c.0, g.set key value c.1);
  header = λ key value c. (c.0, g.header key value c.1);
  json = λ status body c. (c.0, g.json status body c.1);
  abort_with_status = λ status c. (c.0, g.abort_with_status status c.1);
  abort_with_status_json = λ status body c. (c.0, g.abort_with_status_json status body c.1);
  set_request = λ request c. (c.0, g.set_request request c.1);
  view-set = λ key value c. g.view-set key value c.1;
  view-header = λ key value c. g.view-header key value c.1;
  view-json = λ status body c. g.view-json status body c.1;
  view-abort_with_status = λ status c. g.view-abort_with_status status c.1;
  view-abort_with_status_json = λ status body c. g.view-abort_with_status_json status body c.1;
  view-set_request = λ request c. g.view-set_request request c.1;
}

-- A handler that does not touch the state.
abbrev pub carried : {S C : Type 0} → S → Outcome C → Outcome (S × C)
carried s (returned c) = returned (s, c)
carried s (panicked c) = panicked (s, c)

abbrev pub stateless : {S C : Type 0} → Handler C → Handler (S × C)
stateless h (s, c) = carried s (h c)
