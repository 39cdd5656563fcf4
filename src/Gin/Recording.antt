-- ===== src/Gin/Recording.antt =====
-- A gin that keeps its view: the laws of `Gin` can be met.
use go_skeleton.Base.{refl, some, none}
use go_skeleton.Gin.{Gin, View, with_key, with_header, with_sent, with_abort, with_request}

abbrev pub recording : (B : Type 0) → Gin B
recording B = record {
  Context = View B;
  view = λ c. c;
  set = with_key;
  header = with_header;
  json = λ status body c. with_sent status (some body) c;
  abort_with_status = λ status c. with_abort (with_sent status none c);
  abort_with_status_json = λ status body c. with_abort (with_sent status (some body) c);
  set_request = with_request;
  view-set = λ key value c. refl;
  view-header = λ key value c. refl;
  view-json = λ status body c. refl;
  view-abort_with_status = λ status c. refl;
  view-abort_with_status_json = λ status body c. refl;
  view-set_request = λ request c. refl;
}
