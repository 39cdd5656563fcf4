-- ===== src/Auth.antt =====
-- pkg/auth/jwt.go: issuing and checking JSON web tokens. The library golang-jwt/jwt is not part of
-- the repository: `Jwt` has its functions as the code calls them, with what is documented of them.
-- `m.now()` is an argument, the clock when the call is made.
pub mod Bearer
pub mod Tokens
pub mod Sample
mod Tests
use go_skeleton.Base.{
  ℕ, ◌+◌, ◌≤◌, ◌<◌, String, Bool, true, false, ◌&&◌, ◌≡◌, ◌≢◌, Option, none, some, List, [], ◌∷◌,
  Result, ok, err, if◌then◌else◌, not, All, drop,
}
use go_skeleton.Base.Int.{ℤ, pos, pos_part, leb_ℤ}
use go_skeleton.Base.Text.{Bytes, codes, trim, to_lower, has_prefix, is_empty}
use go_skeleton.Base.Text.Trim.{IsVisible}
use go_skeleton.Model.{Time}

-- auth.Claims, the registered claims that the code reads or sets.
pub record Claims : Type 0 where
  pub subject : Bytes
  pub issuer : Bytes
  pub issued_at : Option Time
  pub not_before : Option Time
  pub expires_at : Option Time

-- What the options of jwt.ParseWithClaims say.
pub record ParserOptions : Type 0 where
  pub valid_methods : List String
  pub expiration_required : Bool
  pub now : Time
  pub issuer : Option Bytes

-- *jwt.Token as ParseWithClaims returns it.
pub record Token : Type 0 where
  pub claims : Claims
  pub valid : Bool

-- The checks that the parser documents for the options used here.
pub record Accepts (o : ParserOptions) (c : Claims) : Type 0 where
  pub unexpired : (e : Time) → c.expires_at ≡ some e → o.now < e
  pub expires : o.expiration_required ≡ true → c.expires_at ≢ none
  pub started : (n : Time) → c.not_before ≡ some n → n ≤ o.now
  pub issued_by : (i : Bytes) → o.issuer ≡ some i → c.issuer ≡ i

-- `Encodable` claims are those that JSON gives back as they were: text of valid UTF-8, and dates in
-- the precision of the library. `new_numeric_date` cuts a time to that precision.
pub record Jwt : Type 1 where
  pub Encodable : Claims → Type 0
  pub new_numeric_date : Time → Time
  pub sign_hs256 : Bytes → Claims → Result String Bytes
  pub parse_with_claims : ParserOptions → Bytes → Bytes → Result String Token
  pub new_numeric_date-le : (t : Time) → new_numeric_date t ≤ t
  -- A signed token is base64url text and dots.
  pub sign_visible :
      (secret : Bytes) (c : Claims) {t : Bytes}
      → sign_hs256 secret c ≡ ok t
      → All IsVisible t × (t ≢ [])
  pub parse-Accepts :
      (o : ParserOptions) (secret text : Bytes) {t : Token}
      → parse_with_claims o secret text ≡ ok t
      → Accepts o t.claims
  pub parse-sign :
      (o : ParserOptions) (secret text : Bytes) (c : Claims)
      → sign_hs256 secret c ≡ ok text
      → o.valid_methods ≡ "HS256" ∷ []
      → Encodable c
      → Accepts o c
      → parse_with_claims o secret text ≡ ok (record { claims = c; valid = true })
  pub parse-sign_claims :
      (o : ParserOptions) (secret text : Bytes) (c : Claims) {t : Token}
      → sign_hs256 secret c ≡ ok text
      → Encodable c
      → parse_with_claims o secret text ≡ ok t
      → t.claims ≡ c

-- auth.JWTConfig
pub record JwtConfig : Type 0 where
  pub secret : Bytes
  pub issuer : Bytes
  pub ttl : ℤ

-- auth.JWTManager, less its clock.
pub record JwtManager : Type 0 where
  pub secret : Bytes
  pub issuer : Bytes
  pub ttl : ℤ

pub data AuthError : Type 0 where
  missing_secret missing_subject missing_ttl token_required invalid_token : AuthError
  sign_failed parse_failed : String → AuthError

unfoldable pub new_jwt_manager : JwtConfig → Result AuthError JwtManager
new_jwt_manager cfg =
    if is_empty (trim cfg.secret)
    then err missing_secret
    else ok (record { secret = cfg.secret; issuer = trim cfg.issuer; ttl = cfg.ttl })

-- Strips the prefix "Bearer ", in any case, of an Authorization header.
unfoldable pub normalize_bearer_token : Bytes → Bytes
normalize_bearer_token token =
    let trimmed = trim token in
    if has_prefix (to_lower trimmed) (codes "bearer ") then trim (drop 7 trimmed) else trimmed

module _ (j : Jwt) where
  open j use {new_numeric_date, sign_hs256, parse_with_claims}

  abbrev signed_or : Result String Bytes → Result AuthError Bytes
  signed_or (ok signed) = ok signed
  signed_or (err message) = err (sign_failed message)

  -- `cmp.Or(claims.Issuer, m.issuer)`
  abbrev issuer_or : Bytes → Bytes → Bytes
  issuer_or [] default = default
  issuer_or (c ∷ s) default = c ∷ s

  abbrev sign_if_expires : JwtManager → Claims → Option Time → Result AuthError Bytes
  sign_if_expires m c none = err missing_ttl
  sign_if_expires m c (some e) =
      signed_or (sign_hs256 m.secret (record c { issuer = issuer_or c.issuer m.issuer }))

  unfoldable pub generate_token_with_claims : JwtManager → Claims → Result AuthError Bytes
  generate_token_with_claims m c =
      if is_empty (trim c.subject) then err missing_subject else sign_if_expires m c c.expires_at

  -- The claims that GenerateToken signs.
  abbrev pub new_claims : JwtManager → Time → Bytes → Claims
  new_claims m now subject = record {
    subject = trim subject;
    issuer = m.issuer;
    issued_at = some (new_numeric_date now);
    not_before = some (new_numeric_date now);
    expires_at = some (new_numeric_date (now + pos_part m.ttl));
  }

  unfoldable pub generate_token : JwtManager → Time → Bytes → Result AuthError Bytes
  unfolding generate_token_with_claims
  generate_token m now subject =
      if is_empty (trim subject)
      then err missing_subject
      else if leb_ℤ m.ttl (pos 0)
      then err missing_ttl
      else generate_token_with_claims m (new_claims m now subject)

  abbrev parser_options : JwtManager → Time → ParserOptions
  parser_options m now = record {
    valid_methods = "HS256" ∷ [];
    expiration_required = true;
    now = now;
    issuer = if is_empty m.issuer then none else some m.issuer;
  }

  abbrev checked : Result String Token → Result AuthError Claims
  checked (err message) = err (parse_failed message)
  checked (ok t) =
      if not t.valid
      then err invalid_token
      else if is_empty (trim t.claims.subject)
      then err missing_subject
      else ok t.claims

  unfoldable pub parse_token : JwtManager → Time → Bytes → Result AuthError Claims
  parse_token m now text =
      let token = normalize_bearer_token text in
      if is_empty token
      then err token_required
      else checked (parse_with_claims (parser_options m now) m.secret token)
