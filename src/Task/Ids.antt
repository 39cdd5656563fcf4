-- ===== src/Task/Ids.antt =====
-- Task IDs are short, and two tasks with one ID had one name and one list of keys, joined.
use go_skeleton.Base.{
  ℕ, ◌-◌, ◌*◌, ◌/◌, ◌%◌, ◌≤◌, ◌<◌, ◌≡◌, ◌↔◌, refl, sym, ap, ◌∙◌, true, List, [], ◌∷◌, ◌++◌, leb,
  ltb, length, take, drop, length-append, length-take, length-drop, All, arith, Bool-cases, inl,
  inr,
}
use go_skeleton.Base.Text.{Bytes, codes, join}
use go_skeleton.Task.{max_task_id_length, hex, hex_digit, suffix, truncate_task_id, build_task_id}

length-hex : (s : Bytes) → length (hex s) ≡ 2 * length s
length-hex [] = refl
length-hex (c ∷ s) = omega (arith, length-hex s)

hex_digit_injective : (a b : ℕ) → a < 16 → b < 16 → hex_digit a ≡ hex_digit b → a ≡ b
hex_digit_injective a b la lb h = ground arith

-- A digest of SHA-256, and no second text with the same.
abbrev pub IsByte : ℕ → Type 0
IsByte c = c < 256

byte_of_digits : (a b : ℕ) → IsByte a → IsByte b → a / 16 ≡ b / 16 → a % 16 ≡ b % 16 → a ≡ b
byte_of_digits a b la lb h k = omega arith

hex_injective : (s t : Bytes) → All IsByte s → All IsByte t → hex s ≡ hex t → s ≡ t
hex_injective [] [] _ _ h = refl
hex_injective [] (d ∷ t) _ _ h = cc
hex_injective (c ∷ s) [] _ _ h = cc
hex_injective (c ∷ s) (d ∷ t) (p, ps) (q, qs) h =
    let high : hex_digit (c / 16) ≡ hex_digit (d / 16) = cc in
    let low : hex_digit (c % 16) ≡ hex_digit (d % 16) = cc in
    let rest : hex s ≡ hex t = cc in
    let tails = hex_injective s t ps qs rest in
    let heads =
      byte_of_digits c d p q (hex_digit_injective _ _ (omega arith) (omega arith) high)
        (hex_digit_injective _ _ (omega arith) (omega arith) low) in
    cc

drop-append : (xs ys : Bytes) (n : ℕ) → length xs ≡ n → drop n (xs ++ ys) ≡ ys
drop-append xs ys n h = rw (← h) (whole xs ys)
  where
    whole : (xs ys : Bytes) → drop (length xs) (xs ++ ys) ≡ ys
    whole [] ys = refl
    whole (x ∷ xs) ys = whole xs ys

module _ (sum256 : Bytes → Bytes) where
  length-truncate_task_id :
      (id : Bytes)
      → max_task_id_length < length id
      → length (truncate_task_id sum256 id) ≡ max_task_id_length
  unfolding truncate_task_id
  length-truncate_task_id id long =
      elim (Bool-cases (leb max_task_id_length (length (suffix sum256 id)))) [
        | inl over ↦
            rw
              (
                over,
                length-drop (length (suffix sum256 id) - max_task_id_length) (suffix sum256 id),
              )
              (ground arith)
        | inr fits ↦
            rw
              (
                fits,
                length-append (take (max_task_id_length - length (suffix sum256 id)) id)
                    (suffix sum256 id),
                length-take (max_task_id_length - length (suffix sum256 id)) id,
              )
              (ground arith)
      ]

  -- No task ID is longer than MaxTaskIDLength bytes, whatever digest is used; an ID within the limit is
  -- the name and the keys as they are, and a longer one has exactly the limit's length.
  pub build_task_id_bounded :
      (namespace : Bytes) (keys : List Bytes)
      → let id = join (codes ":") (namespace ∷ keys) in
        (length (build_task_id sum256 namespace keys) ≤ max_task_id_length)
        × (length id ≤ max_task_id_length → build_task_id sum256 namespace keys ≡ id)
        × (max_task_id_length < length id
            → length (build_task_id sum256 namespace keys) ≡ max_task_id_length)
  unfolding build_task_id
  build_task_id_bounded namespace keys =
      let id = join (codes ":") (namespace ∷ keys) in
      elim (Bool-cases (ltb max_task_id_length (length id))) [
        | inl long ↦
            let exact = length-truncate_task_id id (ground arith) in
            rw long (omega (arith, exact), λ s. ground arith, λ _. exact)
        | inr short ↦ rw short (ground arith, λ _. refl, λ l. ground arith)
      ]

  -- What is known of SHA-256: 32 bytes.
  abbrev pub IsDigest : Type 0
  IsDigest = (s : Bytes) → (length (sum256 s) ≡ 32) × All IsByte (sum256 s)

  truncate_task_id_injective :
      (a b : Bytes)
      → IsDigest
      → max_task_id_length < length a
      → max_task_id_length < length b
      → truncate_task_id sum256 a ≡ truncate_task_id sum256 b
      → sum256 a ≡ sum256 b
  unfolding truncate_task_id
  truncate_task_id_injective a b digest la lb h =
      let room = length_of_suffix a in
      let room_b = length_of_suffix b in
      let parted = ap (drop 952) (sym (cut_at a (ground arith)) ∙ h ∙ cut_at b (ground arith)) in
      let tails : suffix sum256 a ≡ suffix sum256 b =
        sym (drop-append (take 952 a) (suffix sum256 a) 952 (rw length-take (ground arith)))
        ∙ parted
        ∙ drop-append (take 952 b) (suffix sum256 b) 952 (rw length-take (ground arith)) in
      let digits : hex (sum256 a) ≡ hex (sum256 b) = ap (drop 8) tails in
      hex_injective (sum256 a) (sum256 b) (digest a).1 (digest b).1 digits
    where
      length_of_suffix : (id : Bytes) → length (suffix sum256 id) ≡ 72
      length_of_suffix id = omega (arith, length-hex (sum256 id), (digest id).0)

      cut_at :
          (id : Bytes)
          → max_task_id_length < length id
          → truncate_task_id sum256 id ≡ take 952 id ++ suffix sum256 id
      cut_at id long = rw (length_of_suffix id) refl

  build_task_id_long :
      (namespace : Bytes) (keys : List Bytes)
      → max_task_id_length < length (join (codes ":") (namespace ∷ keys))
      → build_task_id sum256 namespace keys
        ≡ truncate_task_id sum256 (join (codes ":") (namespace ∷ keys))
  unfolding build_task_id
  build_task_id_long namespace keys long =
      let over : ltb max_task_id_length (length (join (codes ":") (namespace ∷ keys))) ≡ true =
        ground arith in
      rw over refl

  -- Where SHA-256 tells the two texts apart, two tasks have one ID only if their names and keys, joined
  -- by colons, are the same text: both within the limit, or both beyond it.
  pub build_task_id_injective :
      (a b : Bytes) (keys others : List Bytes)
      → IsDigest
      → let id = join (codes ":") (a ∷ keys) in
        let id' = join (codes ":") (b ∷ others) in
        (sum256 id ≡ sum256 id' → id ≡ id')
        → ((length id ≤ max_task_id_length) ↔ (length id' ≤ max_task_id_length))
        → build_task_id sum256 a keys ≡ build_task_id sum256 b others
        → id ≡ id'
  build_task_id_injective a b keys others digest apart alike h =
      let id = join (codes ":") (a ∷ keys) in
      let id' = join (codes ":") (b ∷ others) in
      elim (Bool-cases (ltb max_task_id_length (length id))) [
        | inl long ↦ apart (
            truncate_task_id_injective id id' digest (ground arith) (ground arith) (
              sym (build_task_id_long a keys (ground arith))
              ∙ h
              ∙ build_task_id_long b others (ground arith)))
        | inr short ↦
            sym ((build_task_id_bounded a keys).1 (ground arith))
            ∙ h
            ∙ (build_task_id_bounded b others).1 (ground arith)
      ]
