-- ===== src/Service/ListingTests.antt =====
-- A database of one client, and a page of its table.
use go_skeleton.Base.{
  ℕ, ◌≡◌, ◌≤◌, refl, sym, ap, Option, none, some, List, [], ◌∷◌, Result, ok, length, take, drop,
  String, true,
}
use go_skeleton.Base.Text.{codes}
use go_skeleton.Model.{Example}
use go_skeleton.Wire.{ListExamplesRes}
use go_skeleton.Handler.Example.{ListExamplesReq}
use go_skeleton.Repository.Tx.{
  PgxTxOptions, repeatable_read, Transactions, TxOptions, level_read_committed, Ran, done, RanIn,
  in_tx_with_options, in_tx_with_options-RanIn, to_pgx_tx_options,
}
use go_skeleton.Repository.Listing.{Reads, list_page, read_page}
use go_skeleton.Service.Listing.{service_list, service_list_ok, limit_or_default}

abbrev alone : Transactions (Unit {0}) (List Example)
alone = record {
  IsTx = λ p c. Unit {0};
  begin_tx_func = λ opts fn s. fn tt s;
  committed = λ opts fn s s' a h. (tt, s, s', tt, h);
}

abbrev counted_of : List Example → Result String ℕ × List Example
counted_of s = (ok (length s), s)

abbrev listed_of : ℕ → ℕ → List Example → Result String (List Example) × List Example
listed_of limit offset s = (ok (take limit (drop offset s)), s)

count_is : (s s' : List Example) (n : ℕ) → counted_of s ≡ (ok n, s') → n ≡ length s
count_is s s' n h = sym (of_ok (ap (λ (r : Result String ℕ × List Example). r.0) h))
  where
    of_ok : ◌≡◌ {A = Result String ℕ} (ok (length s)) (ok n) → length s ≡ n
    of_ok e = cc

list_is :
    (limit offset : ℕ) (s s' rows : List Example)
    → listed_of limit offset s ≡ (ok rows, s')
    → rows ≡ take limit (drop offset s)
list_is limit offset s s' rows h =
    sym (of_ok (ap (λ (r : Result String (List Example) × List Example). r.0) h))
  where
    of_ok :
        ◌≡◌ {A = Result String (List Example)} (ok (take limit (drop offset s))) (ok rows)
        → take limit (drop offset s) ≡ rows
    of_ok e = cc

abbrev reads : Reads alone
reads = record {
  visible = λ c s. s;
  count_examples = λ c s. counted_of s;
  list_rows = λ c limit offset s. listed_of limit offset s;
  counted = λ c s s' n h. count_is s s' n h;
  listed = λ c limit offset s s' rows h. list_is limit offset s s' rows h;
  snapshot = λ p c s s' r t l h. ap (λ (q : Result String ℕ × List Example). q.1) (sym h);
}

abbrev example_of : ℕ → Example
example_of n = record { id = n; name = codes "a"; created_at = 0; updated_at = 0 }

abbrev table : List Example
table = example_of 3 ∷ example_of 2 ∷ example_of 1 ∷ []

abbrev second_page : ListExamplesReq
second_page = record { limit = 2; offset = 2 }

abbrev answer : ListExamplesRes
answer = record { examples = example_of 1 ∷ []; total = 3 }

listed_now : service_list alone reads none second_page table ≡ (done (ok answer), table)
unfolding service_list list_page read_page in_tx_with_options to_pgx_tx_options
listed_now = refl

service_list_ok_example :
    (p : PgxTxOptions) × (c : Unit {0}) × (rows : List Example) × Unit {0}
    × (p.iso_level ≡ repeatable_read)
    × (p.is_read_only ≡ true)
    × (3 ≡ length rows)
    × (example_of 1 ∷ [] ≡ take (limit_or_default 2) (drop 2 rows))
    × (length (example_of 1 ∷ []) ≤ limit_or_default 2)
service_list_ok_example = service_list_ok alone reads second_page table table answer listed_now

abbrev read_only_committed : Option TxOptions
read_only_committed = some (record { isolation = level_read_committed; read_only = true })

abbrev size : Unit {0} → List Example → Ran ℕ × List Example
size c s = (done (length s), s)

sized : in_tx_with_options alone none true read_only_committed (some size) table ≡ (done 3, table)
unfolding in_tx_with_options to_pgx_tx_options
sized = refl

in_tx_with_options-RanIn_example : RanIn alone read_only_committed size 3 none
in_tx_with_options-RanIn_example =
    in_tx_with_options-RanIn alone none true read_only_committed size table table 3 sized
