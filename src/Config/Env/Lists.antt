-- ===== src/Config/Env/Lists.antt =====
-- Lists in variables, written with commas.
use go_skeleton.Base.{
  ◌≡◌, refl, ap, ◌∙◌, false, List, [], ◌∷◌, ◌++◌, ◌==◌, All, Bool-cases, inl, inr,
}
use go_skeleton.Base.Text.{Bytes, is_empty, trim, split, join}
use go_skeleton.Base.Text.Trim.{IsTrimmed, trim-IsTrimmed, trim_of_IsTrimmed}
use go_skeleton.Config.Env.{keep_parts, parse_csv}

-- An entry that stands for itself: not blank, without white space at its ends, and without a comma.
pub record IsEntry (part : Bytes) : Type 0 where
  pub some_byte : is_empty part ≡ false
  pub trimmed : IsTrimmed part
  pub whole : All (λ c. (c == b',') ≡ false) part

split_last : (part : Bytes) → All (λ c. (c == b',') ≡ false) part → split b',' part ≡ part ∷ []
unfolding split
split_last [] h = refl
split_last (c ∷ part) (p, h) = rw (p, split_last part h)

split_next :
    (part rest : Bytes)
    → All (λ c. (c == b',') ≡ false) part
    → split b',' (part ++ (b',' ∷ rest)) ≡ part ∷ split b',' rest
unfolding split
split_next [] rest h = refl
split_next (c ∷ part) rest (p, h) = rw (p, split_next part rest h)

keep_entry :
    (part : Bytes) (parts : List Bytes)
    → IsEntry part
    → keep_parts (part ∷ parts) ≡ part ∷ keep_parts parts
unfolding keep_parts
keep_entry part parts e = rw (trim_of_IsTrimmed part e.trimmed) (rw e.some_byte)

read_last : (part : Bytes) → IsEntry part → parse_csv part ≡ part ∷ []
unfolding parse_csv
read_last part e = rw (split_last part e.whole) (keep_entry part [] e)

read_next :
    (part rest : Bytes) → IsEntry part → parse_csv (part ++ (b',' ∷ rest)) ≡ part ∷ parse_csv rest
unfolding parse_csv
read_next part rest e = rw (split_next part rest e.whole) (keep_entry part (split b',' rest) e)

-- A list of entries, written with commas between them, is read back as it was.
pub parse_csv-join :
    (parts : List Bytes) → All IsEntry parts → parse_csv (join (b',' ∷ []) parts) ≡ parts
unfolding parse_csv join split keep_parts trim
parse_csv-join [] h = refl
parse_csv-join (part ∷ []) (e, h) = read_last part e
parse_csv-join (part ∷ more ∷ parts) (e, h) =
    read_next part (join (b',' ∷ []) (more ∷ parts)) e
    ∙ ap (λ ps. part ∷ ps) (parse_csv-join (more ∷ parts) h)

kept_part :
    (part : Bytes) (parts : List Bytes)
    → All (λ p. (is_empty p ≡ false) × IsTrimmed p) (keep_parts parts)
    → All (λ p. (is_empty p ≡ false) × IsTrimmed p) (keep_parts (part ∷ parts))
unfolding keep_parts
kept_part part parts h = elim (Bool-cases (is_empty (trim part))) [
  | inl blank ↦ rw blank h
  | inr given ↦ rw given ((given, trim-IsTrimmed part), h)
]

-- No list holds a blank entry, or one with white space at its ends.
pub parse_csv-All :
    (value : Bytes) → All (λ part. (is_empty part ≡ false) × IsTrimmed part) (parse_csv value)
unfolding parse_csv keep_parts
parse_csv-All value = kept (split b',' value)
  where
    kept :
        (parts : List Bytes)
        → All (λ part. (is_empty part ≡ false) × IsTrimmed part) (keep_parts parts)
    kept [] = tt
    kept (part ∷ parts) = kept_part part parts (kept parts)
