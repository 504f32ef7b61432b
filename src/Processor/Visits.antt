-- ===== src/Processor/Visits.antt =====
-- No log of a processed block is skipped.
use eth_tracker.Prelude.{
  ℕ, ◌≡◌, refl, sym, ap, ◌∙◌, subst, String, true, List, [], ◌∷◌, ◌++◌, append-nil, append_assoc,
  Elem, inl, inr, ◌==◌, nat_eq, nat_beq_iff, arith,
}
use eth_tracker.Result.{Result, ok}
use eth_tracker.Exec.{Exec, pure, or_wrap, for_each}
use eth_tracker.Exec.Inversion.{>>=-returns, or_wrap_unless_canceled-returns, for_each-returns}
use eth_tracker.Exec.Emits.{IsQuiet-or_wrap, IsQuiet-pure}
use eth_tracker.Exec.EmitsMany.{
  EmitsUpTo, EmitsUpTo-if, EmitsUpTo-quiet, EmitsUpTo-or_wrap_unless_canceled,
}
use eth_tracker.Eth.{Eth, Receipt, Block}
use eth_tracker.Eth.Abi.{Log}
use eth_tracker.Event.{Event}
use eth_tracker.Cache.{Cache}
use eth_tracker.Chain.{Chain}
use eth_tracker.Db.{Db}
use eth_tracker.Router.{Callback}
use eth_tracker.Handler.Emits.{IsTraced}
use eth_tracker.Processor.{
  process_log_of, process_successful_receipt, process_receipt, process_receipt_of, process_block,
}
use eth_tracker.Processor.Receipts.{
  IsSilent, service_processor, log_emits, creation_emits, receipt_emits,
}
use eth_tracker.Processor.Emits.{fetched, fetched_trace}

-- The trace `after` is `before` with entries added at its end.
abbrev pub Grown : {T : Type 0} → List T → List T → Type 0
Grown before after = (es : List _) × (after ≡ before ++ es)

module _ {T : Type 0} where
  Grown-same : (before after : List T) → after ≡ before → Grown before after
  Grown-same before after e = ([], e ∙ sym (append-nil before))

  Grown-trans : (a b c : List T) → Grown a b → Grown b c → Grown a c
  Grown-trans a b c (es, e) (fs, f) = (es ++ fs, f ∙ ap (λ t. t ++ fs) e ∙ append_assoc a es fs)

module _ {S T A : Type 0} (trace : S → List T) (body : A → Exec S (Unit {0})) where
  for_each-Grown :
      (xs : List A) (s s' : S)
      → ((y : A) → Elem y xs → (x : S) → Grown (trace x) (trace (body y x).1))
      → for_each xs body s ≡ (ok tt, s')
      → Grown (trace s) (trace s')
  unfolding for_each pure
  for_each-Grown [] s s' grows h =
      Grown-same _ _ (ap (λ (r : Result (Unit {0}) × S). trace r.1) (sym h))
  for_each-Grown (y ∷ xs) s s' grows h =
      let (mid, first, rest) = for_each-returns body y xs s s' h in
      let (es, e) = grows y (inl refl) s in
      Grown-trans (trace s) (trace mid) (trace s')
        (es, ap (λ (r : Result (Unit {0}) × S). trace r.1) (sym first) ∙ e)
        (for_each-Grown xs mid s' (λ z there. grows z (inr there)) rest)

  -- The round of an item: from `m` it has returned in `m'`.
  for_each-visits :
      (x : A) (xs : List A) (s s' : S)
      → Elem x xs
      → ((y : A) → Elem y xs → (z : S) → Grown (trace z) (trace (body y z).1))
      → for_each xs body s ≡ (ok tt, s')
      → (m : S) × (m' : S) × Grown (trace s) (trace m)
        × (body x m ≡ (ok tt, m'))
        × Grown (trace m') (trace s')
  for_each-visits x [] s s' there grows h = absurd there
  for_each-visits x (y ∷ xs) s s' there grows h =
      let (mid, first, rest) = for_each-returns body y xs s s' h in
      elim there [
        | inl same ↦ (
          s,
          mid,
          Grown-same _ _ refl,
          ap (λ (z : A). body z s) same ∙ first,
          for_each-Grown xs mid s' (λ z later. grows z (inr later)) rest,
        )
        | inr later ↦
            let (m, m', before, visit, after) =
              for_each-visits x xs mid s' later (λ z l. grows z (inr l)) rest in
            let (es, e) = grows y (inl refl) s in
            (
              m,
              m',
              Grown-trans (trace s) (trace mid) (trace m)
                  (es, ap (λ (r : Result (Unit {0}) × S). trace r.1) (sym first) ∙ e) before,
              visit,
              after,
            )
      ]

EmitsUpTo-Grown :
    {S T A : Type 0} {trace : S → List T} {Q : T → Type 0} {n : ℕ} (m : Exec S A)
    → EmitsUpTo trace n Q m
    → (s : S) → Grown (trace s) (trace (m s).1)
EmitsUpTo-Grown m emits s = let (es, e, few, all) = emits.at s in (es, e)

module _ {S V : Type 0} {trace : S → List Event} (eth : Eth) (cache : Cache S) (chain : Chain S)
    (db : Db S V) (c : Callback S) (t : IsTraced trace cache c) (q : IsSilent trace chain db) where
  successful-visits :
      (receipt : Receipt) (n ts : ℕ) (log : Log) (s s' : S)
      → receipt.status ≡ 1
      → Elem log receipt.logs
      → process_successful_receipt (service_processor eth cache chain db c t q) receipt n ts s
        ≡ (ok tt, s')
      → (m : S) × (m' : S) × Grown (trace s) (trace m)
        × (process_log_of (service_processor eth cache chain db c t q) receipt ts log m
            ≡ (ok tt, m'))
        × Grown (trace m') (trace s')
  unfolding process_successful_receipt
  successful-visits receipt n ts log s s' fine there h =
      let (_, mid, logs, rest) = >>=-returns _ _ s s' tt h in
      let (m, m', before, visit, after) =
        for_each-visits trace
          (process_log_of (service_processor eth cache chain db c t q) receipt ts) log receipt.logs
          s mid there
          (λ y there'.
            EmitsUpTo-Grown _ (log_emits eth cache chain db c t q receipt n ts y fine there'))
          logs in
      let (es, e) =
        EmitsUpTo-Grown _
          (EmitsUpTo-if (receipt.contract_address == 0) _ _ (EmitsUpTo-quiet _ (IsQuiet-pure tt))
            (creation_emits eth cache chain db c t q receipt n ts true (ground arith)))
          mid in
      (
        m,
        m',
        before,
        visit,
        Grown-trans (trace m') (trace mid) (trace s') after
            (es, ap (λ (r : Result (Unit {0}) × S). trace r.1) (sym rest) ∙ e),
      )

  receipt-visits :
      (receipt : Receipt) (n ts : ℕ) (log : Log) (s s' : S)
      → receipt.status ≡ 1
      → Elem log receipt.logs
      → process_receipt_of (service_processor eth cache chain db c t q) n ts receipt s ≡ (ok tt, s')
      → (m : S) × (m' : S) × Grown (trace s) (trace m)
        × (process_log_of (service_processor eth cache chain db c t q) receipt ts log m
            ≡ (ok tt, m'))
        × Grown (trace m') (trace s')
  unfolding process_receipt_of process_receipt
  receipt-visits receipt n ts log s s' fine there h =
      let succeeded : (receipt.status == 1) ≡ true = (nat_beq_iff receipt.status 1).1 fine in
      successful-visits receipt n ts log s s' fine there
        (or_wrap_unless_canceled-returns _ _ s s' tt (rw succeeded at h))

  persisted_trace :
      (prefix : String) (n : ℕ) (s s' : S)
      → or_wrap prefix (db.set_value n) s ≡ (ok tt, s')
      → trace s' ≡ trace s
  persisted_trace prefix n s s' h =
      ap (λ (r : Result (Unit {0}) × S). trace r.1) (sym h)
      ∙ (IsQuiet-or_wrap prefix (db.set_value n) (q.value_quiet n)).at s

  -- If the callback publishes each event that it is called with, the calls of the cache, of the
  -- chain and of the store publish nothing, the block and its receipts are fetched, and processing
  -- the block returns without an error: for each log of a receipt with the status 1, the body of the
  -- loop over the logs was run on it from some state `m` and returned without an error, and what was
  -- published by then has stayed published.
  pub process_block-visits :
      (n : ℕ) (block : Block) (receipts : List Receipt) (receipt : Receipt) (log : Log)
      (s s1 s2 s' : S)
      → chain.get_block n s ≡ (ok block, s1)
      → chain.get_receipts block.number s1 ≡ (ok receipts, s2)
      → process_block (service_processor eth cache chain db c t q) n s ≡ (ok tt, s')
      → Elem receipt receipts
      → receipt.status ≡ 1
      → Elem log receipt.logs
      → (m : S) × (m' : S) × Grown (trace s) (trace m)
        × (process_log_of (service_processor eth cache chain db c t q) receipt block.time log m
            ≡ (ok tt, m'))
        × Grown (trace m') (trace s')
  unfolding process_block process_receipt_of
  process_block-visits n block receipts receipt log s s1 s2 s' eb er h listed fine there =
      let (_, s3, processed, persisted) = >>=-returns _ _ s s' tt h in
      let (r, r', before, visit, after) =
        for_each-visits trace
          (process_receipt_of (service_processor eth cache chain db c t q) n block.time) receipt
          receipts s2 s3 listed
          (λ y there'. EmitsUpTo-Grown _ (
            EmitsUpTo-or_wrap_unless_canceled _ _
              (receipt_emits eth cache chain db c t q y n block.time)))
          (sym (fetched eth cache chain db c t q n block receipts s s1 s2 eb er) ∙ processed) in
      let (m, m', before', visit', after') =
        receipt-visits receipt n block.time log r r' fine there visit in
      (
        m,
        m',
        Grown-trans (trace s) (trace r) (trace m)
            (subst (λ x. Grown x (trace r))
              (fetched_trace eth cache chain db c t q n block receipts s s1 s2 eb er) before)
            before',
        visit',
        Grown-trans (trace m') (trace r') (trace s') after'
            (subst (λ x. Grown (trace r') x) (sym (persisted_trace _ n s3 s' persisted)) after),
      )
