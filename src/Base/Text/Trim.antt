-- ===== src/Base/Text/Trim.antt =====
-- Laws of `trim`: what it leaves has no white space at its ends, and is left alone by it.
use Prim.Native.Nat.{ℕ, zero, suc, ◌≤◌, ◌<◌}
use mathlib.Core.Path.{◌≡◌, refl, sym, ap, subst, ◌∙◌}
use mathlib.Core.Logic.{inl, inr}
use mathlib.Core.List.{[], ◌∷◌, ◌++◌, reverse, reverse-append, reverse-reverse, append_assoc}
use native.Mathlib.Omega.{arith}
use go_skeleton.Base.Tests.{◌==◌, Bool-cases}
use go_skeleton.Base.Lists.{
  length, take, drop, take-append-drop, length-drop, length-reverse, All, All-reverse,
}
use go_skeleton.Base.Text.{Bytes, space_width, last_width, strip, trim_left, trim_right, trim}

module _ (width : Bytes → ℕ) where
  strip_done :
      (fuel : ℕ) (s : Bytes) → width [] ≡ 0 → length s ≤ fuel → width (strip width fuel s) ≡ 0
  unfolding strip
  strip_done zero [] e h = e
  strip_done zero (c ∷ s) e h = absurd (omega arith)
  strip_done (suc fuel) s e h = elim (Bool-cases (width s == 0)) [
    | inl stop ↦ rw stop (ground arith)
    | inr more ↦
        rw more (strip_done fuel (drop (width s) s) e (shorter s (width s) (ground arith) h))
  ]
    where
      shorter : (t : Bytes) (w : ℕ) → 0 < w → length t ≤ suc fuel → length (drop w t) ≤ fuel
      shorter t w p q = omega (arith, length-drop w t)

  strip_suffix : (fuel : ℕ) (s : Bytes) → (pre : Bytes) × (s ≡ pre ++ strip width fuel s)
  unfolding strip
  strip_suffix zero s = ([], refl)
  strip_suffix (suc fuel) s = elim (Bool-cases (width s == 0)) [
    | inl stop ↦ ([], rw stop)
    | inr more ↦
        let (pre, e) = strip_suffix fuel (drop (width s) s) in
        (
          take (width s) s ++ pre,
          rw (more, append_assoc)
              (sym (take-append-drop (width s) s) ∙ ap (λ t. take (width s) s ++ t) e),
        )
  ]

  strip_of_zero : (fuel : ℕ) (s : Bytes) → width s ≡ 0 → strip width fuel s ≡ s
  unfolding strip
  strip_of_zero zero s e = refl
  strip_of_zero (suc fuel) s e = rw e

space_width_of_append : (s t : Bytes) → space_width (s ++ t) ≡ 0 → space_width s ≡ 0
unfolding space_width
space_width_of_append [] t e = refl
space_width_of_append (a ∷ []) t e = ground arith
space_width_of_append (a ∷ b ∷ []) t e = ground arith
space_width_of_append (a ∷ b ∷ c ∷ s) t e = ground arith

trim_left_done : (s : Bytes) → space_width (trim_left s) ≡ 0
unfolding trim_left space_width
trim_left_done s = strip_done space_width (length s) s refl (omega arith)

trim_right_done : (s : Bytes) → last_width (reverse (trim_right s)) ≡ 0
unfolding trim_right last_width
trim_right_done s =
    rw reverse-reverse
      (strip_done last_width (length s) (reverse s) refl (omega (arith, length-reverse s)))

-- What `trim_right` leaves is a beginning of the text.
trim_right_prefix : (s : Bytes) → (post : Bytes) × (s ≡ trim_right s ++ post)
unfolding trim_right
trim_right_prefix s =
    let (pre, e) = strip_suffix last_width (length s) (reverse s) in
    (
      reverse pre,
      sym (reverse-reverse s)
          ∙ ap reverse e
          ∙ reverse-append pre (strip last_width (length s) (reverse s)),
    )

pub record IsTrimmed (s : Bytes) : Type 0 where
  pub first : space_width s ≡ 0
  pub last : last_width (reverse s) ≡ 0

pub trim-IsTrimmed : (s : Bytes) → IsTrimmed (trim s)
unfolding trim
trim-IsTrimmed s =
    let (post, e) = trim_right_prefix (trim_left s) in
    record {
      first =
          space_width_of_append (trim_right (trim_left s)) post
            (subst (λ t. space_width t ≡ 0) e (trim_left_done s));
      last = trim_right_done (trim_left s);
    }

pub trim_of_IsTrimmed : (s : Bytes) → IsTrimmed s → trim s ≡ s
unfolding trim trim_left trim_right
trim_of_IsTrimmed s h =
    rw (strip_of_zero space_width (length s) s h.first)
      (rw (strip_of_zero last_width (length s) (reverse s) h.last) (reverse-reverse s))

pub trim_idem : (s : Bytes) → trim (trim s) ≡ trim s
trim_idem s = trim_of_IsTrimmed (trim s) (trim-IsTrimmed s)

-- A printing character of ASCII, blanks left out.
abbrev pub IsVisible : ℕ → Type 0
IsVisible c = (33 ≤ c) × (c ≤ 126)

space_width_of_visible : (s : Bytes) → All IsVisible s → space_width s ≡ 0
unfolding space_width
space_width_of_visible [] h = refl
space_width_of_visible (a ∷ []) h = ground arith
space_width_of_visible (a ∷ b ∷ []) h = ground arith
space_width_of_visible (a ∷ b ∷ c ∷ s) h = ground arith

last_width_of_visible : (s : Bytes) → All IsVisible s → last_width s ≡ 0
unfolding last_width
last_width_of_visible [] h = refl
last_width_of_visible (a ∷ []) h = ground arith
last_width_of_visible (a ∷ b ∷ []) h = ground arith
last_width_of_visible (a ∷ b ∷ c ∷ s) h = ground arith

pub visible-IsTrimmed : (s : Bytes) → All IsVisible s → IsTrimmed s
visible-IsTrimmed s h = record {
  first = space_width_of_visible s h;
  last = last_width_of_visible (reverse s) (All-reverse IsVisible s h);
}

pub trim_of_visible : (s : Bytes) → All IsVisible s → trim s ≡ s
trim_of_visible s h = trim_of_IsTrimmed s (visible-IsTrimmed s h)

-- One visible byte at an end is enough for that end.
pub space_width_of_head : (c : ℕ) (s : Bytes) → IsVisible c → space_width (c ∷ s) ≡ 0
unfolding space_width
space_width_of_head c [] h = ground arith
space_width_of_head c (a ∷ []) h = ground arith
space_width_of_head c (a ∷ b ∷ s) h = ground arith

pub last_width_of_head : (c : ℕ) (s : Bytes) → IsVisible c → last_width (c ∷ s) ≡ 0
unfolding last_width
last_width_of_head c [] h = ground arith
last_width_of_head c (a ∷ []) h = ground arith
last_width_of_head c (a ∷ b ∷ s) h = ground arith
