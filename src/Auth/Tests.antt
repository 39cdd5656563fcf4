-- ===== src/Auth/Tests.antt =====
-- Runs of the service's tokens on the sample library.
use go_skeleton.Base.{◌+◌, ◌*◌, ◌≡◌, refl, [], arith, ok, err}
use go_skeleton.Base.Int.{pos, second}
use go_skeleton.Base.Text.{codes, trim, beq, to_lower, has_prefix}
use go_skeleton.Auth.{AuthError, new_jwt_manager, new_claims, parse_token, normalize_bearer_token}
use go_skeleton.Auth.Tokens.{parse_token-generate_token}
use go_skeleton.Auth.Sample.{ada, sample, manager, issued_to_ada, claims_of_ada, behind_bearer}

secret_required :
    new_jwt_manager (record { secret = codes "  "; issuer = []; ttl = pos 1 })
    ≡ err AuthError.missing_secret
unfolding new_jwt_manager trim
secret_required = refl

bearer_stripped : normalize_bearer_token (codes " bEARER  tok ") ≡ codes "tok"
unfolding normalize_bearer_token trim to_lower has_prefix
bearer_stripped = refl

parse_token-generate_token_example :
    parse_token sample manager (64 * second) (codes "BEARER tok")
    ≡ ok (new_claims sample manager (5 * second + 7) (codes " ada "))
parse_token-generate_token_example =
    parse_token-generate_token sample manager (5 * second + 7) (64 * second) (codes " ada ")
      (codes "tok") (codes "BEARER tok") issued_to_ada claims_of_ada behind_bearer (omega arith)
      (omega arith)

ada_accepted : parse_token sample manager (9 * second) (codes "tok") ≡ ok ada
unfolding parse_token normalize_bearer_token trim to_lower has_prefix beq
ada_accepted = refl
