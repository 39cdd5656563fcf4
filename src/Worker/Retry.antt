-- ===== src/Worker/Retry.antt =====
-- computeRetryDelay of internal/worker/server.go, with the wrap-around of int64.
use go_skeleton.Base.{
  ℕ, ◌-◌, ◌*◌, ◌%◌, ◌^◌, ◌≤◌, ◌<◌, ◌≡◌, refl, ap, ◌∙◌, false, ◌||◌, if◌then◌else◌, leb, arith,
}
use Prim.Native.Nat.{min}
use native.Mathlib.Nat.{pow-le-pow_right, mul-le-mul}
use go_skeleton.Base.Int.{ℤ, pos, negsuc, pos_part, ltb_ℤ, leb_ℤ, ◌<ℤ◌, ◌≤ℤ◌, signed64}

-- The bit pattern of an int64, and the product of two.
abbrev pub word64 : ℤ → ℕ
word64 (pos n) = n % 2 ^ 64
word64 (negsuc n) = 2 ^ 64 - 1 - n % 2 ^ 64

unfoldable pub mul64 : ℤ → ℤ → ℤ
mul64 a b = signed64 (word64 a * word64 b % 2 ^ 64)

-- The delay for an attempt from 0, whose product is `delay`.
abbrev pub capped : ℕ → ℤ → ℤ → ℤ
capped attempt delay max =
    if leb 30 attempt then max else if leb_ℤ delay (pos 0) || ltb_ℤ max delay then max else delay

unfoldable pub compute_retry_delay : ℤ → ℤ → ℤ → ℤ
compute_retry_delay n base max =
    let attempt = if ltb_ℤ n (pos 0) then 0 else pos_part n in
    capped attempt (mul64 (pos (2 ^ attempt)) base) max

-- The delay is positive and at most the maximum, if that is positive, whatever the attempt and the
-- base, also where the product wraps around.
pub compute_retry_delay_bounded :
    (n base max : ℤ)
    → pos 0 <ℤ max
    → (pos 0 <ℤ compute_retry_delay n base max) × (compute_retry_delay n base max ≤ℤ max)
unfolding compute_retry_delay
compute_retry_delay_bounded n base max h = ground arith

mul64_exact :
    (a b : ℕ) → a < 2 ^ 64 → b < 2 ^ 64 → a * b < 2 ^ 63 → mul64 (pos a) (pos b) ≡ pos (a * b)
unfolding mul64 signed64
mul64_exact a b p q r =
    let left : a % 2 ^ 64 ≡ a = omega arith in
    let right : b % 2 ^ 64 ≡ b = omega arith in
    let product : a * b % 2 ^ 64 ≡ a * b = omega arith in rw (left, right, product) (ground arith)

le_of : (base : ℕ) → base < 2 ^ 34 → base ≤ 2 ^ 34 - 1
le_of base q = omega arith

capped_of_product : (n p max : ℕ) → n < 30 → 0 < p → capped n (pos p) (pos max) ≡ pos (min p max)
capped_of_product n p max h k = ground arith

compute_retry_delay_pos :
    (n : ℕ) (base max : ℤ)
    → compute_retry_delay (pos n) base max ≡ capped n (mul64 (pos (2 ^ n)) base) max
unfolding compute_retry_delay
compute_retry_delay_pos n base max =
    let from_0 : ltb_ℤ (pos n) (pos 0) ≡ false = ground arith in rw from_0 refl

-- While a positive base is below 2 ^ 34 nanoseconds, so that no product wraps around, the delay of the
-- n-th attempt is the smaller of 2 ^ n * base and the maximum below attempt 30, and the maximum from then on.
pub compute_retry_delay_lem :
    (n base max : ℕ)
    → 0 < base
    → base < 2 ^ 34
    → ((n < 30 → compute_retry_delay (pos n) (pos base) (pos max) ≡ pos (min (2 ^ n * base) max))
        × (30 ≤ n → compute_retry_delay (pos n) (pos base) (pos max) ≡ pos max))
compute_retry_delay_lem n base max p q =
    (λ s. early s, λ l. compute_retry_delay_pos n (pos base) (pos max) ∙ ground arith)
  where
    early : n < 30 → compute_retry_delay (pos n) (pos base) (pos max) ≡ pos (min (2 ^ n * base) max)
    early s =
        let some_power = pow-le-pow_right {n = 2} (omega arith) {i = 0} {j = n} (omega arith) in
        let power = pow-le-pow_right {n = 2} (omega arith) {i = n} {j = 29} (omega arith) in
        let product = mul-le-mul power (le_of base q) in
        let positive = mul-le-mul some_power p in
        let exact = mul64_exact (2 ^ n) base (omega arith) (omega arith) (omega arith) in
        compute_retry_delay_pos n (pos base) (pos max)
        ∙ ap (λ d. capped n d (pos max)) exact
        ∙ capped_of_product n (2 ^ n * base) max s (omega arith)
