-- ===== src/Repository/Listing.antt =====
-- List of internal/repository/example.go: the count and a page, in one transaction. The two queries that
-- sqlc generates run in Postgres: `Reads` has them with what is documented of them.
use go_skeleton.Base.{
  ℕ, String, ◌≡◌, refl, sym, ap, ◌∙◌, true, Option, none, some, List, Result, ok, err, length, take,
  drop,
}
use go_skeleton.Model.{Example}
use go_skeleton.Repository.Tx.{
  TxOptions, level_repeatable_read, PgxTxOptions, TxIsoLevel, repeatable_read, driver_error, Ran,
  done, failed_with, Transactions, in_tx_with_options, RanIn, in_new, in_tx_with_options-RanIn,
  level_of,
}

-- `visible` is what a connection sees of the table, by falling ids.
pub record Reads {C S : Type 0} (t : Transactions C S) : Type 0 where
  pub visible : C → S → List Example
  pub count_examples : C → S → Result String ℕ × S
  pub list_rows : C → ℕ → ℕ → S → Result String (List Example) × S
  pub counted :
      (c : C) (s s' : S) (n : ℕ) → count_examples c s ≡ (ok n, s') → n ≡ length (visible c s)
  pub listed :
      (c : C) (limit offset : ℕ) (s s' : S) (rows : List Example)
      → list_rows c limit offset s ≡ (ok rows, s')
      → rows ≡ take limit (drop offset (visible c s))
  -- What a REPEATABLE READ transaction sees stays as it is while it only reads.
  pub snapshot :
      (p : PgxTxOptions) (c : C) (s s' : S) (r : Result String ℕ)
      → t.IsTx p c
      → p.iso_level ≡ repeatable_read
      → count_examples c s ≡ (r, s')
      → visible c s' ≡ visible c s

module _ {C S : Type 0} (t : Transactions C S) (reads : Reads t) where
  open reads use {count_examples, list_rows, visible}

  abbrev pub Page : Type 0
  Page = List Example × ℕ

  abbrev pub with_rows : ℕ → Result String (List Example) × S → Ran Page × S
  with_rows n (err message, s) = (failed_with (driver_error message), s)
  with_rows n (ok rows, s) = (done (rows, n), s)

  abbrev pub with_count : C → ℕ → ℕ → Result String ℕ × S → Ran Page × S
  with_count c limit offset (err message, s) = (failed_with (driver_error message), s)
  with_count c limit offset (ok n, s) = with_rows n (list_rows c limit offset s)

  -- The callback of List.
  unfoldable pub read_page : ℕ → ℕ → C → S → Ran Page × S
  read_page limit offset c s = with_count c limit offset (count_examples c s)

  abbrev pub list_options : TxOptions
  list_options = record { isolation = level_repeatable_read; read_only = true }

  unfoldable pub list_page : Option C → ℕ → ℕ → S → Ran Page × S
  unfolding read_page
  list_page tx limit offset s =
      in_tx_with_options t tx true (some list_options) (some (read_page limit offset)) s

  repeatable : (l : TxIsoLevel) → level_of l ≡ level_repeatable_read → l ≡ repeatable_read
  repeatable TxIsoLevel.unset h = cc
  repeatable TxIsoLevel.read_uncommitted h = cc
  repeatable TxIsoLevel.read_committed h = cc
  repeatable repeatable_read h = refl
  repeatable TxIsoLevel.serializable h = cc

  -- A page of what a read-only REPEATABLE READ transaction sees at one moment, with the number of all rows.
  abbrev pub IsPage : ℕ → ℕ → Page → Type 0
  IsPage limit offset (page, total) =
      (p : PgxTxOptions) × (c : C) × (s : S) × t.IsTx p c
      × (p.iso_level ≡ repeatable_read)
      × (p.is_read_only ≡ true)
      × (total ≡ length (visible c s))
      × (page ≡ take limit (drop offset (visible c s)))

  read_page-IsPage :
      (limit offset : ℕ) (p : PgxTxOptions) (c : C) (s s' : S) (page : List Example) (total : ℕ)
      → t.IsTx p c
      → p.iso_level ≡ repeatable_read
      → p.is_read_only ≡ true
      → read_page limit offset c s ≡ (done (page, total), s')
      → IsPage limit offset (page, total)
  unfolding read_page
  read_page-IsPage limit offset p c s s' page total is_tx level read_only h =
      of_count (count_examples c s) refl h
    where
      of_rows :
          (n : ℕ) (s1 : S) (r : Result String (List Example) × S)
          → count_examples c s ≡ (ok n, s1)
          → list_rows c limit offset s1 ≡ r
          → with_rows n r ≡ (done (page, total), s')
          → IsPage limit offset (page, total)
      of_rows n s1 (err message, s2) e q h' = cc
      of_rows n s1 (ok rows, s2) e q h' =
          let same_rows : rows ≡ page = cc in
          let same_total : n ≡ total = cc in
          (
            p,
            c,
            s,
            is_tx,
            level,
            read_only,
            sym same_total ∙ reads.counted c s s1 n e,
            sym same_rows
                ∙ reads.listed c limit offset s1 s2 rows q
                ∙ ap (λ (v : List Example). take limit (drop offset v))
                    (reads.snapshot p c s s1 (ok n) is_tx level e),
          )

      of_count :
          (r : Result String ℕ × S)
          → count_examples c s ≡ r
          → with_count c limit offset r ≡ (done (page, total), s')
          → IsPage limit offset (page, total)
      of_count (err message, s1) e h' = cc
      of_count (ok n, s1) e h' = of_rows n s1 (list_rows c limit offset s1) e refl h'

  -- Outside of a transaction, the page that List returns and the total number come from one snapshot of
  -- the table, whatever other clients do meanwhile.
  pub list_page-IsPage :
      (limit offset : ℕ) (s s' : S) (page : List Example) (total : ℕ)
      → list_page none limit offset s ≡ (done (page, total), s')
      → IsPage limit offset (page, total)
  unfolding list_page
  list_page-IsPage limit offset s s' page total h = of_run (
      in_tx_with_options-RanIn t none true (some list_options) (read_page limit offset) s s'
        (page, total) h)
    where
      of_run :
          RanIn t (some list_options) (read_page limit offset) (page, total) none
          → IsPage limit offset (page, total)
      of_run (in_new p c s1 s2 asked is_tx ran) =
          read_page-IsPage limit offset p c s1 s2 page total is_tx (repeatable p.iso_level asked.0)
            asked.1 ran
