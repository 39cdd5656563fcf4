-- ===== src/Middleware/TraceLogger/Ids.antt =====
-- The trace id that a request goes by.
use go_skeleton.Base.{
  ◌≤◌, ◌<◌, ◌≡◌, refl, true, Bool-cases, inl, inr, none, some, [], ◌∷◌, if◌then◌else◌, length, all,
  All, arith,
}
use go_skeleton.Base.Text.{Bytes, is_empty}
use go_skeleton.Gin.{Gin, text}
use go_skeleton.Middleware.TraceLogger.{
  id_byte, valid_request_id, chosen_id, traced, max_request_id_len,
}

-- What may stand in a log and in a header: 1 to 128 bytes, each a letter, a digit or one of "-_.:".
pub record IsSafe (id : Bytes) : Type 0 where
  pub some_byte : 0 < length id
  pub short : length id ≤ max_request_id_len
  pub plain : All (λ c. id_byte c ≡ true) id

all_plain : (id : Bytes) → all id_byte id ≡ true → All (λ c. id_byte c ≡ true) id
all_plain [] h = tt
all_plain (c ∷ id) h = (ground arith, all_plain id (ground arith))

valid_request_id-IsSafe : (id : Bytes) → valid_request_id id ≡ true → IsSafe id
unfolding valid_request_id
valid_request_id-IsSafe [] h = cc
valid_request_id-IsSafe (c ∷ id) h = record {
  some_byte = omega arith;
  short = ground arith;
  plain = all_plain (c ∷ id) (ground arith);
}

chosen_id-IsSafe : (uuid given : Bytes) → IsSafe uuid → IsSafe (chosen_id uuid given)
unfolding chosen_id
chosen_id-IsSafe uuid given h = elim (Bool-cases (valid_request_id given)) [
  | inl valid ↦ rw valid (valid_request_id-IsSafe given valid)
  | inr invalid ↦ rw invalid h
]

chosen_own : (uuid given : Bytes) → valid_request_id given ≡ true → chosen_id uuid given ≡ given
unfolding chosen_id
chosen_own uuid given valid = rw valid refl

module _ {B : Type 0} (g : Gin B) where
  open g use {Context, view}

  -- Whatever the client sends as its X-Request-ID, the trace id is safe to log and to send back, if the
  -- generated one is: the response's header, the key "trace_id" and the request's context have the one
  -- id, which is the client's where that is safe.
  pub traced-IsSafe :
      (uuid : Bytes) (c : Context)
      → IsSafe uuid
      → (id : Bytes) × IsSafe id
        × ((view (traced g uuid c)).headers "X-Request-ID" ≡ some id)
        × ((view (traced g uuid c)).keys "trace_id" ≡ some (text id))
        × ((view (traced g uuid c)).request.context.trace_id ≡ id)
        × (valid_request_id ((view c).request.headers "X-Request-ID") ≡ true
            → id ≡ (view c).request.headers "X-Request-ID")
  unfolding traced
  traced-IsSafe uuid c h =
      let id = chosen_id uuid ((view c).request.headers "X-Request-ID") in
      let safe = chosen_id-IsSafe uuid ((view c).request.headers "X-Request-ID") h in
      (
        id,
        safe,
        simp (g.view-set_request, g.view-header, g.view-set) (kept id safe),
        simp (g.view-set_request, g.view-header, g.view-set) refl,
        simp (g.view-set_request, g.view-header, g.view-set) refl,
        λ valid. chosen_own uuid _ valid,
      )
    where
      kept : (id : Bytes) → IsSafe id → (if is_empty id then none else some id) ≡ some id
      kept [] h = absurd (elim h.some_byte [ ])
      kept (c ∷ id) h = refl
