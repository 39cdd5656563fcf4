-- ===== src/Auth/Tokens.antt =====
-- What a token that the service issues is good for, and what ParseToken lets through.
use go_skeleton.Base.{
  ◌+◌, ◌≤◌, ◌<◌, ◌≡◌, ◌≢◌, subst, ◌⊎◌, inl, inr, refl, sym, ap, ◌∙◌, Bool, true, false, none, some,
  [], ◌∷◌, ◌++◌, arith, Result, ok, err, if◌then◌else◌, All, String,
}
use go_skeleton.Base.Int.{pos, pos_part, leb_ℤ}
use go_skeleton.Base.Text.{Bytes, trim, is_empty}
use go_skeleton.Base.Text.Trim.{IsVisible, trim_idem}
use go_skeleton.Model.{Time}
use go_skeleton.Auth.{
  Claims, Token, Accepts, Jwt, JwtManager, AuthError, missing_subject, missing_ttl, generate_token,
  new_claims, parse_token, parser_options, normalize_bearer_token, signed_or, issuer_or, checked,
}
use go_skeleton.Auth.Bearer.{IsBearer, normalize_bare, normalize_prefixed}

-- A bare token, or one behind "Bearer " in any case.
abbrev pub IsHeader : Bytes → Bytes → Type 0
IsHeader text header = (header ≡ text) ⊎ ((p : Bytes) × IsBearer p × (header ≡ p ++ text))

module _ (j : Jwt) where
  open j use {Encodable, new_numeric_date, sign_hs256, parse_with_claims}

  issuer_or_self : (s : Bytes) → issuer_or j s s ≡ s
  issuer_or_self [] = refl
  issuer_or_self (c ∷ s) = refl

  -- GenerateToken refuses a blank subject, then a lifetime that is not positive, and signs the
  -- claims it made otherwise.
  pub generate_token_lem :
      (m : JwtManager) (now : Time) (subject : Bytes)
      → generate_token j m now subject ≡ (
          if is_empty (trim subject)
          then err missing_subject
          else if leb_ℤ m.ttl (pos 0)
          then err missing_ttl
          else signed_or j (sign_hs256 m.secret (new_claims j m now subject)))
  unfolding generate_token
  generate_token_lem m now subject = rw (trim_idem subject, issuer_or_self m.issuer) (ground arith)

  -- What a successful GenerateToken has signed.
  generated :
      (m : JwtManager) (now : Time) (subject text : Bytes)
      → generate_token j m now subject ≡ ok text
      → (is_empty (trim subject) ≡ false)
        × (sign_hs256 m.secret (new_claims j m now subject) ≡ ok text)
  generated m now subject text e =
      signed_of (is_empty (trim subject)) (leb_ℤ m.ttl (pos 0))
        (sign_hs256 m.secret (new_claims j m now subject))
        (sym (generate_token_lem m now subject) ∙ e)
    where
      signed_of :
          (blank expired : Bool) (r : Result String Bytes)
          → (if blank
              then err missing_subject
              else if expired
              then err missing_ttl
              else signed_or j r)
            ≡ ok text
          → (blank ≡ false) × (r ≡ ok text)
      signed_of true expired r h = cc
      signed_of false true r h = cc
      signed_of false false (ok t) h = (refl, cc)
      signed_of false false (err x) h = cc

  checked_ok :
      (r : Result String Token) {c : Claims}
      → checked j r ≡ ok c
      → (t : Token) × (r ≡ ok t) × (t.claims ≡ c) × (is_empty (trim c.subject) ≡ false)
  checked_ok (err x) h = cc
  checked_ok (ok t) h = (t, refl, ground arith, ground arith)

  -- A token that ParseToken accepts, on its own or behind "Bearer ", has not expired and does
  -- expire, has become valid, names a subject, and was issued under the manager's own issuer where
  -- the manager has one.
  pub parse_token_sound :
      (m : JwtManager) (now : Time) (header : Bytes) (c : Claims)
      → parse_token j m now header ≡ ok c
      → (c.expires_at ≢ none)
        × ((e : Time) → c.expires_at ≡ some e → now < e)
        × ((n : Time) → c.not_before ≡ some n → n ≤ now)
        × (is_empty (trim c.subject) ≡ false)
        × ((m.issuer ≡ []) ⊎ (c.issuer ≡ m.issuer))
  unfolding parse_token
  parse_token_sound m now header c h =
      let (t, parsed, same, named) =
        checked_ok
          (parse_with_claims (parser_options j m now) m.secret (normalize_bearer_token header))
          (ground arith) in
      let accepted : Accepts (parser_options j m now) c =
        subst (Accepts (parser_options j m now)) same (
          j.parse-Accepts (parser_options j m now) m.secret (normalize_bearer_token header)
            parsed) in
      (
        accepted.expires refl,
        accepted.unexpired,
        accepted.started,
        named,
        own m.issuer accepted.issued_by,
      )
    where
      own :
          (i : Bytes)
          → ((k : Bytes) → (if is_empty i then none else some i) ≡ some k → c.issuer ≡ k)
          → (i ≡ []) ⊎ (c.issuer ≡ i)
      own [] f = inl refl
      own (x ∷ i) f = inr (f (x ∷ i) refl)

  normalize_header :
      (text header : Bytes)
      → All IsVisible text × (text ≢ [])
      → IsHeader text header
      → normalize_bearer_token header ≡ text
  normalize_header text header (v, n) (inl e) = rw e (normalize_bare text v)
  normalize_header text header (v, n) (inr (p, b, e)) = rw e (normalize_prefixed p text b v n)

  parse_token_of_header :
      (m : JwtManager) (now : Time) (text header : Bytes) (c : Claims)
      → sign_hs256 m.secret c ≡ ok text
      → IsHeader text header
      → parse_token j m now header
        ≡ checked j (parse_with_claims (parser_options j m now) m.secret text)
  unfolding parse_token
  parse_token_of_header m now text header c signed h =
      let visible = j.sign_visible m.secret c signed in
      rw (normalize_header text header visible h) (nonempty text visible.1)
    where
      nonempty :
          (t : Bytes)
          → t ≢ []
          → (if is_empty t
              then err AuthError.token_required
              else checked j (parse_with_claims (parser_options j m now) m.secret t))
            ≡ checked j (parse_with_claims (parser_options j m now) m.secret t)
      nonempty [] n = absurd (n refl)
      nonempty (x ∷ t) n = refl

  module _ (m : JwtManager) (issued now : Time) (subject text header : Bytes)
      (made : generate_token j m issued subject ≡ ok text)
      (encodable : Encodable (new_claims j m issued subject)) (sent : IsHeader text header) where
    -- A token that GenerateToken issued for claims that JSON gives back as they were is accepted by the
    -- same manager, bare or behind "Bearer ", from its issue until before the expiry in its claims, which is
    -- the end of its lifetime cut to NumericDate's precision; it gives the claims that were issued.
    pub parse_token-generate_token :
        issued ≤ now
        → now < new_numeric_date (issued + pos_part m.ttl)
        → parse_token j m now header ≡ ok (new_claims j m issued subject)
    parse_token-generate_token since until =
        let (named, signed) = generated m issued subject text made in
        let accepts : Accepts (parser_options j m now) (new_claims j m issued subject) = record {
          unexpired = λ e p. ground arith;
          expires = λ _ p. cc;
          started = λ n p. ground (arith, j.new_numeric_date-le issued);
          issued_by = λ i. own m.issuer i;
        } in
        rw (parse_token_of_header m now text header (new_claims j m issued subject) signed sent) (
          rw
            (j.parse-sign (parser_options j m now) m.secret text (new_claims j m issued subject)
              signed refl encodable accepts)
            (rw (trim_idem subject) (rw named)))
      where
        own : (i k : Bytes) → (if is_empty i then none else some i) ≡ some k → i ≡ k
        own [] k e = cc
        own (x ∷ i) k e = cc

    -- From then on it is refused.
    pub parse_token_expired :
        new_numeric_date (issued + pos_part m.ttl) ≤ now
        → (c : Claims) → parse_token j m now header ≢ ok c
    parse_token_expired late c h =
        let (named, signed) = generated m issued subject text made in
        let (t, parsed, same, _) =
          checked_ok (parse_with_claims (parser_options j m now) m.secret text) (
            sym
              (parse_token_of_header m now text header (new_claims j m issued subject) signed sent)
            ∙ h) in
        let accepted = j.parse-Accepts (parser_options j m now) m.secret text parsed in
        let claims =
          j.parse-sign_claims (parser_options j m now) m.secret text (new_claims j m issued subject)
            signed encodable parsed in
        absurd (
          omega (
            arith,
            accepted.unexpired (new_numeric_date (issued + pos_part m.ttl))
                (ap (λ (x : Claims). x.expires_at) claims),
          ))
