-- ===== src/TaskQueue/Tests.antt =====
-- A ping that Redis never answers.
use go_skeleton.Base.{◌≤◌, ◌≡◌, true, none, some, Result}
use Prim.Native.Nat.{max}
use go_skeleton.Model.{Time}
use go_skeleton.TaskQueue.{QueueError, IsPinged, ping, ping_returns}

ping_returns_example :
    (t : Time) × (r : Result QueueError (Unit {0})) × (ping true true 5 none (some 9) ≡ some (t, r))
    × (t ≤ max 5 9)
    × IsPinged true 9 none r
ping_returns_example = ping_returns true true 5 9 none
