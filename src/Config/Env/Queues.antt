-- ===== src/Config/Env/Queues.antt =====
-- The queues and their weights.
use go_skeleton.Base.{
  String, ◌≡◌, ◌≢◌, refl, subst, false, ◌||◌, Option, none, some, List, [], ◌∷◌, All, arith,
  Bool-cases, inl, inr, Result, ok, err,
}
use go_skeleton.Base.Int.{ℤ, pos, ◌<ℤ◌}
use go_skeleton.Base.Text.{Bytes, is_empty, trim, split, beq, cut}
use go_skeleton.Base.Text.Number.{parse_int}
use go_skeleton.Base.Dict.{Dict, insert, IsMap, insert-IsMap}
use go_skeleton.Config.Env.{
  Variables, Fault, weighted, named_weight, cut_pair, queue_pair, queue_pairs, add_pair, queues_or,
  queue_weights_env, getenv,
}

-- A queue that asynq takes: with a name and a positive weight.
abbrev pub IsQueue : Bytes × ℤ → Type 0
IsQueue (name, weight) = (is_empty name ≡ false) × (pos 0 <ℤ weight)

pub record IsQueues (queues : Dict ℤ) : Type 0 where
  pub each : All IsQueue queues
  pub map : IsMap queues

insert-All :
    (name : Bytes) (weight : ℤ) (m : Dict ℤ)
    → IsQueue (name, weight)
    → All IsQueue m
    → All IsQueue (insert name weight m)
unfolding insert
insert-All name weight [] q h = (q, tt)
insert-All name weight ((k, w) ∷ m) q (p, h) = elim (Bool-cases (beq k name)) [
  | inl same ↦ rw same (q, h)
  | inr other ↦ rw other (p, insert-All name weight m q h)
]

weighted_ok :
    (n name : Bytes) (o : Option ℤ) (weight : ℤ)
    → is_empty n ≡ false
    → weighted n o ≡ ok (name, weight)
    → IsQueue (name, weight)
weighted_ok n name none weight e h = cc
weighted_ok n name (some w) weight e h = ground arith

named_weight_ok :
    (n w name : Bytes) (weight : ℤ) → named_weight n w ≡ ok (name, weight) → IsQueue (name, weight)
named_weight_ok n w name weight h = elim (Bool-cases (is_empty n || is_empty w)) [
  | inl blank ↦ ground arith
  | inr given ↦ weighted_ok n name (parse_int w) weight (ground arith) (ground arith)
]

queue_pair_ok :
    (part name : Bytes) (weight : ℤ) → queue_pair part ≡ ok (name, weight) → IsQueue (name, weight)
unfolding queue_pair
queue_pair_ok part name weight h = of_cut (cut b':' part) h
  where
    of_cut : (o : Option (Bytes × Bytes)) → cut_pair o ≡ ok (name, weight) → IsQueue (name, weight)
    of_cut none h = cc
    of_cut (some (n, w)) h = named_weight_ok (trim n) (trim w) name weight h

add_pair-IsQueues :
    (next : Dict ℤ → Result Fault (Dict ℤ)) (part : Bytes) (r : Result Fault (Bytes × ℤ))
    (out result : Dict ℤ)
    → queue_pair part ≡ r
    → IsQueues out
    → ((out' : Dict ℤ) → IsQueues out' → next out' ≡ ok result → IsQueues result)
    → add_pair next r out ≡ ok result
    → IsQueues result
add_pair-IsQueues next part (err f) out result p h rest e = cc
add_pair-IsQueues next part (ok (name, weight)) out result p h rest e =
    rest (insert name weight out)
      (record {
        each = insert-All name weight out (queue_pair_ok part name weight p) h.each;
        map = insert-IsMap name weight out h.map;
      })
      e

queues_or-IsQueues :
    (key : String) (fallback : Dict ℤ) (r : Result Fault (Dict ℤ))
    → IsQueues fallback
    → fallback ≢ []
    → ((out : Dict ℤ) → r ≡ ok out → IsQueues out)
    → IsQueues (queues_or key fallback r).0 × ((queues_or key fallback r).0 ≢ [])
queues_or-IsQueues key fallback (err f) h n rest = (h, n)
queues_or-IsQueues key fallback (ok []) h n rest = (h, n)
queues_or-IsQueues key fallback (ok (q ∷ out)) h n rest = (rest (q ∷ out) refl, λ e. cc)

queue_pairs-IsQueues :
    (parts : List Bytes) (out result : Dict ℤ)
    → IsQueues out
    → queue_pairs parts out ≡ ok result
    → IsQueues result
unfolding queue_pairs
queue_pairs-IsQueues [] out result h e = let same : out ≡ result = cc in subst IsQueues same h
queue_pairs-IsQueues (part ∷ parts) out result h e = elim (Bool-cases (is_empty (trim part))) [
  | inl blank ↦ queue_pairs-IsQueues parts out result h (rw blank at e)
  | inr given ↦
      add_pair-IsQueues (queue_pairs parts) (trim part) (queue_pair (trim part)) out result refl h
        (λ out'. queue_pairs-IsQueues parts out' result) (rw given at e)
]

-- Whatever WORKER_QUEUES holds, the queues that the worker runs have names, each its own, and
-- positive weights, and there is one at least, if that is so of the default.
pub queue_weights_env-IsQueues :
    (env : Variables) (key : String) (fallback : Dict ℤ)
    → IsQueues fallback
    → fallback ≢ []
    → IsQueues (queue_weights_env env key fallback).0
      × ((queue_weights_env env key fallback).0 ≢ [])
unfolding queue_weights_env
queue_weights_env-IsQueues env key fallback h n =
    elim (Bool-cases (is_empty (trim (getenv env key)))) [
      | inl unset ↦ rw unset (h, n)
      | inr set ↦ rw set (
          queues_or-IsQueues key fallback (queue_pairs (split b',' (trim (getenv env key))) []) h n
            (λ out e.
              queue_pairs-IsQueues (split b',' (trim (getenv env key))) [] out
                (record { each = tt; map = tt }) e))
    ]
