-- ===== src/Ready/Tests.antt =====
-- Two components that become ready.
use go_skeleton.Base.{◌+◌, ◌-◌, ◌%◌, ◌^◌, ◌≡◌, refl, if◌then◌else◌, leb, arith}
use go_skeleton.Ready.{call, calls, ready_after, calls_of_ready_after}

calls_of_ready_after_example :
    calls 2 (ready_after 2)
    ≡ record { remaining = (2 + 2 ^ 32 - 2) % 2 ^ 32; fired = if leb 2 2 then 1 else 0 }
calls_of_ready_after_example = calls_of_ready_after 2 2 (omega arith) (omega arith) (omega arith)

once : (calls 3 (ready_after 2)).fired ≡ 1
unfolding calls call ready_after
once = refl
