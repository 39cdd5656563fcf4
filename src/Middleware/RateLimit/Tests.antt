-- ===== src/Middleware/RateLimit/Tests.antt =====
-- Runs on a limiter that only counts.
use go_skeleton.Base.{◌≡◌, refl, true, false, List, [], ◌∷◌, ◌*◌}
use go_skeleton.Base.Int.{second}
use go_skeleton.Base.Text.{codes, beq}
use go_skeleton.Base.Dict.{lookup, insert, keep}
use go_skeleton.Middleware.RateLimit.{fresh, Event, request, tick, verdicts, allow_ip, cleanup}
use go_skeleton.Middleware.RateLimit.Isolation.{only, verdicts_isolated}
use go_skeleton.Middleware.RateLimit.Sample.{counting}

abbrev script : List (Event counting)
script =
    request (codes "a") (1 * second)
    ∷ request (codes "b") (2 * second)
    ∷ request (codes "a") (3 * second)
    ∷ request (codes "b") (4 * second)
    ∷ request (codes "b") (5 * second)
    ∷ tick (185 * second)
    ∷ request (codes "b") (186 * second)
    ∷ []

-- The third request of "b" is refused, and the tick keeps "b", last seen three minutes before.
verdicts_of_b :
    verdicts counting (codes "b") (fresh counting 1) script ≡ true ∷ true ∷ false ∷ false ∷ []
unfolding verdicts allow_ip cleanup lookup insert keep beq
verdicts_of_b = refl

verdicts_isolated_example :
    verdicts counting (codes "b") (fresh counting 1) script
    ≡ verdicts counting (codes "b") (fresh counting 1) (only counting (codes "b") script)
verdicts_isolated_example = verdicts_isolated counting (codes "b") (fresh counting 1) script tt
