-- ===== src/Processor/Emits.antt =====
-- Where the events of a block come from.
use native.Mathlib.Nat.{add-zero}
use eth_tracker.Prelude.{ℕ, ◌+◌, ◌≡◌, sym, ap, ◌∙◌, List, String, total, Elem, nat_eq}
use eth_tracker.Result.{Result, ok}
use eth_tracker.Exec.{◌>>=◌, or_wrap, or_wrap_unless_canceled, for_each}
use eth_tracker.Exec.Emits.{IsQuiet-or_wrap}
use eth_tracker.Exec.EmitsMany.{
  EmitsUpTo, EmitsUpTo-quiet, EmitsUpTo-or_wrap_unless_canceled, EmitsUpTo-bind, EmitsUpTo-for_each,
  EmitsUpTo-weaken, Extends,
}
use eth_tracker.Eth.{Eth, Receipt, Block}
use eth_tracker.Event.{Event}
use eth_tracker.Cache.{Cache}
use eth_tracker.Chain.{Chain}
use eth_tracker.Db.{Db}
use eth_tracker.Router.{Callback}
use eth_tracker.Handler.Emits.{IsTraced}
use eth_tracker.Processor.{Processor, process_receipt_of, process_receipts, process_block}
use eth_tracker.Processor.Receipts.{
  FromReceipt, receipt_bound, IsSilent, service_processor, receipt_emits,
}

module _ {S V : Type 0} {trace : S → List Event} (eth : Eth) (cache : Cache S) (chain : Chain S)
    (db : Db S V) (c : Callback S) (t : IsTraced trace cache c) (q : IsSilent trace chain db) where
  abbrev p : Processor S V
  p = service_processor eth cache chain db c t q

  -- The events of a block have their reasons in its receipts.
  abbrev pub FromBlock : ℕ → Block → List Receipt → Event → Type 0
  FromBlock n block receipts e =
      (receipt : Receipt) × Elem receipt receipts × FromReceipt eth receipt n block.time e

  receipts_emit :
      (n : ℕ) (block : Block) (receipts : List Receipt)
      → EmitsUpTo trace
          (total receipt_bound receipts)
          (FromBlock n block receipts)
          (for_each receipts (process_receipt_of p n block.time))
  unfolding process_receipt_of
  receipts_emit n block receipts = EmitsUpTo-for_each receipt_bound receipts _ λ receipt there.
      EmitsUpTo-or_wrap_unless_canceled _ _ (
        EmitsUpTo-weaken _ _ _ (λ e d. (receipt, there, d))
          (receipt_emits eth cache chain db c t q receipt n block.time))

  -- Once the block and its receipts are fetched, what is left is the loop and the write.
  pub fetched :
      (n : ℕ) (block : Block) (receipts : List Receipt) (s s1 s2 : S)
      → chain.get_block n s ≡ (ok block, s1)
      → chain.get_receipts block.number s1 ≡ (ok receipts, s2)
      → process_receipts p n s ≡ for_each receipts (process_receipt_of p n block.time) s2
  unfolding process_receipts or_wrap_unless_canceled ◌>>=◌
  fetched n block receipts s s1 s2 eb er = rw (eb, er)

  pub fetched_trace :
      (n : ℕ) (block : Block) (receipts : List Receipt) (s s1 s2 : S)
      → chain.get_block n s ≡ (ok block, s1)
      → chain.get_receipts block.number s1 ≡ (ok receipts, s2)
      → trace s2 ≡ trace s
  fetched_trace n block receipts s s1 s2 eb er =
      sym (ap (λ (p : Result (List Receipt) × S). trace p.1) er)
      ∙ (q.receipts_quiet block.number).at s1
      ∙ sym (ap (λ (p : Result Block × S). trace p.1) eb)
      ∙ (q.block_quiet n).at s

  emits_and_persist :
      (n : ℕ) (block : Block) (receipts : List Receipt) (prefix : String)
      → EmitsUpTo trace (total receipt_bound receipts + 0) (FromBlock n block receipts) (
          for_each receipts (process_receipt_of p n block.time) >>= λ _.
          or_wrap prefix (db.set_value n))
  emits_and_persist n block receipts prefix =
      EmitsUpTo-bind _ _ (receipts_emit n block receipts)
        λ _. EmitsUpTo-quiet _ (IsQuiet-or_wrap _ _ (q.value_quiet n))

  -- If the callback publishes each event that it is called with, the calls of the cache, of the
  -- chain and of the store publish nothing, and the block and its receipts are fetched: whether
  -- processing succeeds or fails later, it publishes at most one event for each log and one for each
  -- receipt; each event has its reason in a receipt of the block and carries the timestamp of the
  -- block.
  pub process_block-emits :
      (n : ℕ) (block : Block) (receipts : List Receipt) (s s1 s2 : S)
      → chain.get_block n s ≡ (ok block, s1)
      → chain.get_receipts block.number s1 ≡ (ok receipts, s2)
      → Extends
          (total receipt_bound receipts)
          (FromBlock n block receipts)
          (trace s)
          (trace (process_block (service_processor eth cache chain db c t q) n s).1)
  unfolding process_block ◌>>=◌
  process_block-emits n block receipts s s1 s2 eb er =
      rw (fetched n block receipts s s1 s2 eb er, ← fetched_trace n block receipts s s1 s2 eb er)
        (rw (← add-zero (total receipt_bound receipts))
          ((emits_and_persist n block receipts _).at s2))
