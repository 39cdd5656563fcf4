-- ===== src/Errcode/Status.antt =====
-- How the codes of pkg/errcode, their reasons and the HTTP statuses agree.
use mathlib.Core.List.{Memᴰ}
use go_skeleton.Base.{
  ℕ, String, Option, none, some, ◌≡◌, refl, sym, ap, Bool, true, false, ◌∙◌, ◌≤◌, ◌<◌, ◌⊎◌, inl,
  inr, arith, List, [], ◌∷◌, All, All-mem, ◌&&◌, if◌then◌else◌,
}
use go_skeleton.Base.Int.{ℤ, pos, ◌≤ℤ◌, ◌<ℤ◌, leb_ℤ}
use go_skeleton.Errcode.{
  Error, code_of, http_status, status_by_code, status_by_reason, reason_of, catalogue,
  service_disabled,
}

-- A client or a server error.
pub record IsErrorStatus (status : ℕ) : Type 0 where
  pub at_least : 400 ≤ status
  pub below : status < 600

if-IsErrorStatus :
    (b : Bool) {x y : ℕ} → IsErrorStatus x → IsErrorStatus y → IsErrorStatus (if b then x else y)
if-IsErrorStatus true h k = h
if-IsErrorStatus false h k = k

literal-IsErrorStatus : (status : ℕ) → 400 ≤ status → status < 600 → IsErrorStatus status
literal-IsErrorStatus status h k = record { at_least = h; below = k }

status_by_code-IsErrorStatus : (e : Error) → IsErrorStatus (status_by_code e)
unfolding status_by_code
status_by_code-IsErrorStatus e = search (if-IsErrorStatus, literal-IsErrorStatus, arith)

status_by_reason-IsErrorStatus :
    (reason : String) (fallback : ℕ)
    → IsErrorStatus fallback
    → IsErrorStatus (status_by_reason reason fallback)
unfolding status_by_reason
status_by_reason-IsErrorStatus reason fallback h =
    search (if-IsErrorStatus, literal-IsErrorStatus, arith) depth 14

-- No error, whatever its code and reason, is answered by a status outside 4xx and 5xx.
pub http_status-IsErrorStatus : (e : Error) → IsErrorStatus (http_status e)
unfolding http_status
http_status-IsErrorStatus e =
    status_by_reason-IsErrorStatus (reason_of e) (status_by_code e) (status_by_code-IsErrorStatus e)

-- What an error of the catalogue promises: a code of the 1xxx range is a client error, except for
-- SERVICE_DISABLED, and one of the 9xxx range a server error.
abbrev pub InSegment : Error → Type 0
InSegment e =
    ((pos 1000 ≤ℤ code_of e) × (code_of e <ℤ pos 2000) × (http_status e < 500))
    ⊎ (e ≡ service_disabled)
    ⊎ ((pos 9000 ≤ℤ code_of e) × (code_of e <ℤ pos 10000) × (500 ≤ http_status e))

catalogue-InSegment-All : All InSegment catalogue
unfolding code_of http_status
catalogue-InSegment-All = (
  inl (omega arith),
  (
    inl (omega arith),
    (
      inl (omega arith),
      (
        inl (omega arith),
        (
          inl (omega arith),
          (
            inr (inl refl),
            (
              inl (omega arith),
              (
                inl (omega arith),
                (
                  inr (inr (omega arith)),
                  (
                    inr (inr (omega arith)),
                    (
                      inr (inr (omega arith)),
                      (inr (inr (omega arith)), (inr (inr (omega arith)), tt)),
                    ),
                  ),
                ),
              ),
            ),
          ),
        ),
      ),
    ),
  ),
)

-- Every code of the catalogue is a client error in 1xxx (SERVICE_DISABLED apart) or a server error
-- in 9xxx.
pub catalogue-InSegment : (e : Error) → Memᴰ e catalogue → InSegment e
catalogue-InSegment e = All-mem InSegment catalogue catalogue-InSegment-All

abbrev same_code : ℤ → ℤ → Bool
same_code a b = leb_ℤ a b && leb_ℤ b a

-- What a client reads back from the code in a body.
error_of_code : List Error → ℤ → Option Error
error_of_code [] code = none
error_of_code (e ∷ es) code = if same_code code (code_of e) then some e else error_of_code es code

ReadsBack : Error → Type 0
ReadsBack e = error_of_code catalogue (code_of e) ≡ some e

catalogue-ReadsBack : All ReadsBack catalogue
unfolding ReadsBack error_of_code code_of
catalogue-ReadsBack = (
  refl,
  (
    refl,
    (refl, (refl, (refl, (refl, (refl, (refl, (refl, (refl, (refl, (refl, (refl, tt))))))))))),
  ),
)

-- No two errors of the catalogue share a code, so a client can tell them apart by it.
pub code_of_injective :
    (e f : Error) → Memᴰ e catalogue → Memᴰ f catalogue → code_of e ≡ code_of f → e ≡ f
unfolding ReadsBack
code_of_injective e f he hf same =
    let found : some e ≡ some f =
      sym (All-mem ReadsBack catalogue catalogue-ReadsBack he)
      ∙ ap (error_of_code catalogue) same
      ∙ All-mem ReadsBack catalogue catalogue-ReadsBack hf in
    cc
