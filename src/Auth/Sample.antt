-- ===== src/Auth/Sample.antt =====
-- A JWT library that knows one token, and a token that the service issues on it.
use go_skeleton.Base.{
  ℕ, ◌+◌, ◌*◌, ◌/◌, ◌≤◌, ◌≡◌, ◌≢◌, inr, refl, sym, ◌∙◌, subst, Bool, true, false, ◌&&◌, Option,
  none, some, [], arith, Result, ok, err, leb, ltb, All, String,
}
use go_skeleton.Base.Int.{pos, second}
use go_skeleton.Base.Text.{Bytes, codes, trim, beq, beq_iff, beq_self, to_lower}
use go_skeleton.Base.Text.Trim.{IsVisible}
use go_skeleton.Auth.{
  Claims, ParserOptions, Token, Accepts, Jwt, JwtManager, generate_token, new_claims,
}
use go_skeleton.Auth.Tokens.{IsHeader}

abbrev pub ada : Claims
ada = record {
  subject = codes "ada";
  issuer = codes "go-skeleton";
  issued_at = some (5 * second);
  not_before = some (5 * second);
  expires_at = some (65 * second);
}

abbrev issuer_fits : Option Bytes → Bool
issuer_fits none = true
issuer_fits (some i) = beq i (codes "go-skeleton")

abbrev fits : ParserOptions → Bool
fits o = leb (5 * second) o.now && ltb o.now (65 * second) && issuer_fits o.issuer

abbrev answer : Bool → Result String Token
answer true = ok (record { claims = ada; valid = true })
answer false = err "refused"

abbrev parse : ParserOptions → Result String Token
parse o = answer (fits o)

issuer_of_fits :
    (o : Option Bytes) (i : Bytes) → issuer_fits o ≡ true → o ≡ some i → codes "go-skeleton" ≡ i
issuer_of_fits none i f e = cc
issuer_of_fits (some k) i f e = sym ((beq_iff k (codes "go-skeleton")).0 f) ∙ (cc)

fits_of_issuer :
    (o : Option Bytes) → ((i : Bytes) → o ≡ some i → codes "go-skeleton" ≡ i) → issuer_fits o ≡ true
fits_of_issuer none h = refl
fits_of_issuer (some i) h = rw (← h i refl) (beq_self (codes "go-skeleton"))

fits-Accepts : (o : ParserOptions) → fits o ≡ true → Accepts o ada
fits-Accepts o h = record {
  unexpired = λ e p. ground arith;
  expires = λ _ p. cc;
  started = λ n p. ground arith;
  issued_by = λ i p. issuer_of_fits o.issuer i (ground arith) p;
}

Accepts-fits : (o : ParserOptions) → Accepts o ada → fits o ≡ true
Accepts-fits o a = ground (
  arith,
  a.unexpired (65 * second) refl,
  a.started (5 * second) refl,
  fits_of_issuer o.issuer a.issued_by,
)

pub parse_ok : (b : Bool) {t : Token} → answer b ≡ ok t → (b ≡ true) × (t.claims ≡ ada)
parse_ok true h = (refl, ground arith)
parse_ok false h = cc

pub tok-IsVisible :
    {t : Bytes}
    → ◌≡◌ {A = Result String Bytes} (ok (codes "tok")) (ok t)
    → All IsVisible t × (t ≢ [])
tok-IsVisible {t} e =
    let same : codes "tok" ≡ t = cc in
    subst (λ (s : Bytes). All IsVisible s × (s ≢ [])) same (omega arith, λ p. cc)

pub cut_le : (t : ℕ) → t / second * second ≤ t
cut_le t = omega arith

pub sample_parse-Accepts : (o : ParserOptions) {t : Token} → parse o ≡ ok t → Accepts o t.claims
sample_parse-Accepts o h =
    let (good, same) = parse_ok (fits o) h in subst (Accepts o) (sym same) (fits-Accepts o good)

pub sample_parse-sign :
    (o : ParserOptions) (c : Claims)
    → c ≡ ada
    → Accepts o c
    → parse o ≡ ok (record { claims = c; valid = true })
sample_parse-sign o c e a = rw (e, Accepts-fits o (subst (Accepts o) e a))

-- It issues the token "tok" for Ada's claims, and truncates times to seconds.
abbrev pub sample : Jwt
sample = record {
  Encodable = λ c. c ≡ ada;
  new_numeric_date = λ t. t / second * second;
  sign_hs256 = λ secret c. ok (codes "tok");
  parse_with_claims = λ o secret text. parse o;
  new_numeric_date-le = cut_le;
  sign_visible = λ secret c p. tok-IsVisible p;
  parse-Accepts = λ o secret text h. sample_parse-Accepts o h;
  parse-sign = λ o secret text c signed methods e a. sample_parse-sign o c e a;
  parse-sign_claims = λ o secret text c signed e h. (parse_ok (fits o) h).1 ∙ sym e;
}

abbrev pub manager : JwtManager
manager = record { secret = codes "s"; issuer = codes "go-skeleton"; ttl = pos (60 * second) }

pub issued_to_ada :
    generate_token sample manager (5 * second + 7) (codes " ada ") ≡ ok (codes "tok")
unfolding generate_token trim
issued_to_ada = refl

pub claims_of_ada : new_claims sample manager (5 * second + 7) (codes " ada ") ≡ ada
unfolding trim
claims_of_ada = refl

pub behind_bearer : IsHeader (codes "tok") (codes "BEARER tok")
unfolding to_lower
behind_bearer = inr (codes "BEARER ", refl, refl)
