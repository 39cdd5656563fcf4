-- ===== src/Service/Listing.antt =====
-- List of internal/service/example.go, over the repository's List.
use go_skeleton.Base.{
  ℕ, ◌≡◌, ◌≤◌, refl, sym, ap, ◌∙◌, true, Option, none, List, Result, ok, err, length, take, drop,
  length-take, arith, if◌then◌else◌, ◌==◌,
}
use go_skeleton.Model.{Example}
use go_skeleton.Errcode
use go_skeleton.Errcode.{Error}
use go_skeleton.Wire.{ListExamplesRes}
use go_skeleton.Handler.Example.{ListExamplesReq}
use go_skeleton.Repository.Tx.{
  PgxTxOptions, repeatable_read, Transactions, Ran, done, failed_with, panicked_with,
}
use go_skeleton.Repository.Listing.{Reads, list_page, list_page-IsPage}

-- The limit that a request without one gets.
abbrev pub limit_or_default : ℕ → ℕ
limit_or_default limit = if limit == 0 then 20 else limit

module _ {C S : Type 0} (t : Transactions C S) (reads : Reads t) where
  abbrev pub list_answer : Ran (List Example × ℕ) × S → Ran (Result Error ListExamplesRes) × S
  list_answer (done (page, total), s) = (done (ok (record { examples = page; total = total })), s)
  list_answer (failed_with e, s) = (done (err Errcode.database_error), s)
  list_answer (panicked_with r, s) = (panicked_with r, s)

  unfoldable pub service_list :
      Option C → ListExamplesReq → S → Ran (Result Error ListExamplesRes) × S
  service_list tx req s =
      list_answer (list_page t reads tx (limit_or_default req.limit) req.offset s)

  -- A list that the service returns, outside of a transaction, is a page of what one read-only transaction
  -- at REPEATABLE READ sees at one moment: the rows from the offset on, as many as asked for at most, or
  -- 20 if none are, with the number of all rows that it sees.
  pub service_list_ok :
      (req : ListExamplesReq) (s s' : S) (res : ListExamplesRes)
      → service_list none req s ≡ (done (ok res), s')
      → (p : PgxTxOptions) × (c : C) × (s1 : S) × t.IsTx p c
        × (p.iso_level ≡ repeatable_read)
        × (p.is_read_only ≡ true)
        × (res.total ≡ length (reads.visible c s1))
        × (res.examples ≡ take (limit_or_default req.limit) (drop req.offset (reads.visible c s1)))
        × (length res.examples ≤ limit_or_default req.limit)
  unfolding service_list
  service_list_ok req s s' res h =
      of_page (list_page t reads none (limit_or_default req.limit) req.offset s) refl h
    where
      limit : ℕ
      limit = limit_or_default req.limit

      of_page :
          (r : Ran (List Example × ℕ) × S)
          → list_page t reads none limit req.offset s ≡ r
          → list_answer r ≡ (done (ok res), s')
          → (p : PgxTxOptions) × (c : C) × (s1 : S) × t.IsTx p c
            × (p.iso_level ≡ repeatable_read)
            × (p.is_read_only ≡ true)
            × (res.total ≡ length (reads.visible c s1))
            × (res.examples ≡ take limit (drop req.offset (reads.visible c s1)))
            × (length res.examples ≤ limit)
      of_page (failed_with e, s1) q h' = cc
      of_page (panicked_with m, s1) q h' = cc
      of_page (done (page, total), s1) q h' =
          let same_page : page ≡ res.examples = cc in
          let same_total : total ≡ res.total = cc in
          let (p, c, s2, is_tx, level, read_only, all, part) =
            list_page-IsPage t reads limit req.offset s s1 page total q in
          (
            p,
            c,
            s2,
            is_tx,
            level,
            read_only,
            sym same_total ∙ all,
            sym same_page ∙ part,
            omega (
              arith,
              ap length (sym same_page ∙ part),
              length-take limit (drop req.offset (reads.visible c s2)),
            ),
          )
