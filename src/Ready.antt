-- ===== src/Ready.antt =====
-- readyAfter of internal/cli/all.go, with which the process of all components announces that it is ready.
-- The counter is an int32, here its bit pattern.
mod Tests
use go_skeleton.Base.{
  ℕ, zero, suc, ◌+◌, ◌-◌, ◌*◌, ◌%◌, ◌^◌, ◌≤◌, ◌<◌, ◌≡◌, refl, sym, ap, ◌⊎◌, inl, inr, ◌∙◌, Bool,
  true, false, if◌then◌else◌, ◌==◌, leb, arith,
}

-- remaining, and how often `fn` has been called.
pub record Counter : Type 0 where
  pub remaining : ℕ
  pub fired : ℕ

-- One call of the function that readyAfter returns.
unfoldable pub call : Counter → Counter
call c =
    let left = (c.remaining + (2 ^ 32 - 1)) % 2 ^ 32 in
    record { remaining = left; fired = if left == 0 then suc c.fired else c.fired }

unfoldable pub ready_after : ℕ → Counter
ready_after n = record { remaining = n; fired = 0 }

unfoldable pub calls : ℕ → Counter → Counter
unfolding call
calls zero c = c
calls (suc k) c = call (calls k c)

-- The counter wraps round only after 2 ^ 32 calls more, so that it comes to 0 at the n-th alone.
left_lem :
    (n k : ℕ)
    → 0 < n
    → n < 2 ^ 31
    → suc k < n + 2 ^ 32
    → ((n + 2 ^ 32 - k) % 2 ^ 32 + (2 ^ 32 - 1)) % 2 ^ 32 ≡ (n + 2 ^ 32 - suc k) % 2 ^ 32
left_lem n k p q r = omega arith

fired_lem :
    (n k : ℕ)
    → 0 < n
    → n < 2 ^ 31
    → suc k < n + 2 ^ 32
    → (if (n + 2 ^ 32 - suc k) % 2 ^ 32 == 0
        then suc (if leb n k then 1 else 0)
        else if leb n k
        then 1
        else 0)
      ≡ (if leb n (suc k) then 1 else 0)
fired_lem n k p q r = elim (order n k) [
  | inl early ↦
      let some : (n + 2 ^ 32 - suc k) % 2 ^ 32 ≡ n - suc k = omega arith in rw some (ground arith)
  | inr late ↦
      let some : (n + 2 ^ 32 - suc k) % 2 ^ 32 ≡ n + 2 ^ 32 - suc k = omega arith in
      rw some (ground arith)
]
  where
    order : (n k : ℕ) → (suc k ≤ n) ⊎ (n ≤ k)
    order n k = ground arith

-- The function that readyAfter gives, called k times, has called `fn` once if k is at least n, and never
-- before, for each number of calls that is less than n + 2 ^ 32.
pub calls_of_ready_after :
    (n k : ℕ)
    → 0 < n
    → n < 2 ^ 31
    → k < n + 2 ^ 32
    → calls k (ready_after n)
      ≡ record { remaining = (n + 2 ^ 32 - k) % 2 ^ 32; fired = if leb n k then 1 else 0 }
unfolding calls ready_after
calls_of_ready_after n zero p q r =
    let all : (n + 2 ^ 32 - 0) % 2 ^ 32 ≡ n = omega arith in
    let none : leb n 0 ≡ false = ground arith in rw (all, none) refl
calls_of_ready_after n (suc k) p q r =
    rw (calls_of_ready_after n k p q (omega arith))
      (unfold call in rw (left_lem n k p q r, fired_lem n k p q r) refl)
