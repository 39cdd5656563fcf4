-- ===== src/Auth/Bearer.antt =====
-- What ParseToken strips from an Authorization header.
use go_skeleton.Base.{
  ℕ, ◌<◌, ◌≡◌, ◌≢◌, refl, sym, ap, ◌∙◌, true, false, [], ◌∷◌, ◌++◌, length, zero, suc, map,
  Bool-cases, inl, inr, reverse, arith, All, All-reverse, drop,
}
use mathlib.Core.List.{reverse-append, reverse-reverse}
use go_skeleton.Base.Text.{Bytes, codes, to_lower, lower, lower_from, has_prefix, last_width}
use go_skeleton.Base.Text.Trim.{
  IsVisible, IsTrimmed, trim_of_IsTrimmed, trim_of_visible, space_width_of_head, last_width_of_head,
}
use go_skeleton.Auth.{normalize_bearer_token}

-- The seven letters of "bearer ", in any case.
abbrev pub IsBearer : Bytes → Type 0
IsBearer p = map lower p ≡ codes "bearer "

lower_from_of_ascii :
    (c : ℕ) (s : Bytes) → c < 128 → lower_from 0 (c ∷ s) ≡ lower c ∷ lower_from 0 s
unfolding lower_from
lower_from_of_ascii c s h = ground arith

lower_bounds : (c k : ℕ) → lower c ≡ k → k < 128 → c < 128
unfolding lower
lower_bounds c k e h = ground arith

lower-visible : (c : ℕ) → IsVisible c → (lower c ≢ b' ') × (c < 128)
unfolding lower
lower-visible c h = ground arith

abbrev NotBlank : ℕ → Type 0
NotBlank c = c ≢ b' '

has_prefix-All : (s p : Bytes) → has_prefix s p ≡ true → All NotBlank s → All NotBlank p
unfolding has_prefix
has_prefix-All s [] e h = tt
has_prefix-All [] (d ∷ p) e h = cc
has_prefix-All (c ∷ s) (d ∷ p) e (n, h) = (ground arith, has_prefix-All s p (ground arith) h)

lower_from_of_nil : lower_from 0 [] ≡ []
unfolding lower_from
lower_from_of_nil = refl

to_lower-NotBlank : (t : Bytes) → All IsVisible t → All NotBlank (lower_from 0 t)
to_lower-NotBlank [] h = rw lower_from_of_nil tt
to_lower-NotBlank (c ∷ t) (v, h) =
    let (blank, ascii) = lower-visible c v in
    rw (lower_from_of_ascii c t ascii) (blank, to_lower-NotBlank t h)

-- A header without a blank is taken whole.
no_prefix : (t : Bytes) → All IsVisible t → has_prefix (to_lower t) (codes "bearer ") ≡ false
unfolding to_lower
no_prefix t h = elim (Bool-cases (has_prefix (lower_from 0 t) (codes "bearer "))) [
  | inl e ↦ absurd (
      (has_prefix-All (lower_from 0 t) (codes "bearer ") e (to_lower-NotBlank t h)).1.1.1.1.1.1.0
        refl)
  | inr e ↦ e
]

pub normalize_bare : (t : Bytes) → All IsVisible t → normalize_bearer_token t ≡ t
unfolding normalize_bearer_token
normalize_bare t h = rw (trim_of_visible t h) (rw (no_prefix t h))

abbrev IsAscii : ℕ → Type 0
IsAscii c = c < 128

IsAscii-of_lower : (p q : Bytes) → map lower p ≡ q → All IsAscii q → All IsAscii p
IsAscii-of_lower [] q e h = tt
IsAscii-of_lower (c ∷ p) [] e h = tt-absurd e
  where
    tt-absurd : lower c ∷ map lower p ≡ [] → All IsAscii (c ∷ p)
    tt-absurd e = cc
IsAscii-of_lower (c ∷ p) (d ∷ q) e (a, h) = (lower_bounds c d (cc) a, IsAscii-of_lower p q (cc) h)

lower_from_of_ascii_prefix :
    (p s : Bytes) → All IsAscii p → lower_from 0 (p ++ s) ≡ map lower p ++ lower_from 0 s
lower_from_of_ascii_prefix [] s h = refl
lower_from_of_ascii_prefix (c ∷ p) s (a, h) =
    lower_from_of_ascii c (p ++ s) a ∙ ap (λ r. lower c ∷ r) (lower_from_of_ascii_prefix p s h)

has_prefix-append : (p s : Bytes) → has_prefix (p ++ s) p ≡ true
unfolding has_prefix
has_prefix-append [] s = refl
has_prefix-append (c ∷ p) s = ground (arith, has_prefix-append p s)

drop-length : (p t : Bytes) (n : ℕ) → length p ≡ n → drop n (p ++ t) ≡ t
drop-length [] t zero e = refl
drop-length [] t (suc n) e = absurd (omega arith)
drop-length (c ∷ p) t zero e = absurd (omega arith)
drop-length (c ∷ p) t (suc n) e = drop-length p t n (omega arith)

length-map-lower : (p : Bytes) → length (map lower p) ≡ length p
length-map-lower [] = refl
length-map-lower (c ∷ p) = ap suc (length-map-lower p)

last_width_of_reverse :
    (t r p : Bytes) → reverse t ≡ r → All IsVisible r → t ≢ [] → last_width (r ++ p) ≡ 0
last_width_of_reverse t [] p e h n = absurd (n (sym (reverse-reverse t) ∙ ap reverse e))
last_width_of_reverse t (c ∷ r) p e (v, h) n = last_width_of_head c (r ++ p) v

prefixed-IsTrimmed : (p t : Bytes) → IsBearer p → All IsVisible t → t ≢ [] → IsTrimmed (p ++ t)
prefixed-IsTrimmed [] t e h n = cc
prefixed-IsTrimmed (c ∷ p) t e h n = record {
  first = space_width_of_head c (p ++ t) (first_visible c (cc));
  last =
      rw (reverse-append (c ∷ p) t)
        (last_width_of_reverse t (reverse t) (reverse (c ∷ p)) refl (All-reverse IsVisible t h) n);
}
  where
    first_visible : (c : ℕ) → lower c ≡ b'b' → IsVisible c
    first_visible c e = unfold lower in ground arith

-- The prefix, in any case, is stripped from a token without blanks.
pub normalize_prefixed :
    (p t : Bytes) → IsBearer p → All IsVisible t → t ≢ [] → normalize_bearer_token (p ++ t) ≡ t
unfolding normalize_bearer_token to_lower
normalize_prefixed p t hp h n =
    let seven : length p ≡ 7 = sym (length-map-lower p) ∙ ap length hp in
    let found : has_prefix (lower_from 0 (p ++ t)) (codes "bearer ") ≡ true =
      rw (lower_from_of_ascii_prefix p t (IsAscii-of_lower p (codes "bearer ") hp (omega arith)))
        (rw hp (has_prefix-append (codes "bearer ") (lower_from 0 t))) in
    rw (trim_of_IsTrimmed (p ++ t) (prefixed-IsTrimmed p t hp h n))
      (rw found (rw (drop-length p t 7 seven) (trim_of_visible t h)))
