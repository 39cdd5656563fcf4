-- ===== src/Response/Tests.antt =====
-- The writers on a context that keeps its view.
use go_skeleton.Base.{◌≡◌, refl, ◌≤◌, true, arith}
use go_skeleton.Errcode
use go_skeleton.Errcode.{Error, http_status}
use go_skeleton.Response.{Failure, coded, other, wrapped, as_coded, or_internal, request_timed_out}
use go_skeleton.Response.Sample.{context_at}

abbrev lost_race : Failure
lost_race = wrapped "create" (coded Errcode.conflict)

late : request_timed_out (context_at 95) ≡ true
unfolding request_timed_out
late = refl

internal : 500 ≤ http_status (or_internal (as_coded (other "no rows")))
unfolding as_coded http_status
internal = omega arith
