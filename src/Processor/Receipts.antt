-- ===== src/Processor/Receipts.antt =====
-- Where the events of a receipt come from.
use eth_tracker.Prelude.{
  ℕ, ◌+◌, ◌≡◌, Bool, true, false, List, Option, none, some, String, total, Elem, arith, inl, inr,
  Bool-cases, ◌==◌, nat_eq, nat_beq_iff,
}
use eth_tracker.Exec.{or_wrap}
use eth_tracker.Exec.Emits.{IsQuiet, quiet_rules, IsQuiet-or_wrap, IsQuiet-lift, IsQuiet-pure}
use eth_tracker.Exec.EmitsMany.{
  EmitsUpTo, EmitsUpTo-quiet, EmitsUpTo-one, EmitsUpTo-if, EmitsUpTo-or_wrap_unless_canceled,
  EmitsUpTo-bind, EmitsUpTo-after_quiet, EmitsUpTo-for_each, EmitsUpTo-weaken, EmitsUpTo-more,
}
use eth_tracker.Eth.{Eth, Receipt, Transaction}
use eth_tracker.Eth.Abi.{Address, Log, Hash}
use eth_tracker.Event.{Event}
use eth_tracker.Cache.{Cache}
use eth_tracker.Chain.{Chain}
use eth_tracker.Db.{Db}
use eth_tracker.Router.{Callback}
use eth_tracker.Handler.Emits.{IsTraced}
use eth_tracker.Service.Routes.{bootstrap_event_router}
use eth_tracker.Service.Emits.{
  IsScheduledLog, IsScheduledCall, IsCreationEvent, process_log-EmitsOne,
  process_input_data-EmitsOne, process_contract_creation-EmitsOne,
}
use eth_tracker.Processor.{
  Processor, fetch_transaction, process_contract_creation_of, process_log_of,
  process_successful_receipt, process_reverted_call, process_reverted_transaction,
  process_failed_receipt, process_receipt,
}

-- Why the event `e` may be published for a receipt: a log of the receipt of a successful transaction, a
-- contract creation, marked successful as the receipt is, or the call of a reverted transaction.
pub data FromReceipt (eth : Eth) (receipt : Receipt) (block_number timestamp : ℕ) (e : Event)
    : Type 0 where
  of_log :
      receipt.status ≡ 1
      → (log : Log) → Elem log receipt.logs
      → IsScheduledLog eth (record { log = log; timestamp = timestamp }) e
      → FromReceipt eth receipt block_number timestamp e
  of_creation :
      (success : Bool)
      → success ≡ (receipt.status == 1)
      → (from : String)
      → IsCreationEvent
          (record {
            from = from;
            contract_address = eth.address_hex receipt.contract_address;
            block = block_number;
            timestamp = timestamp;
            tx_hash = eth.hash_hex receipt.tx_hash;
            success = success;
          })
          e
      → FromReceipt eth receipt block_number timestamp e
  of_call :
      receipt.status ≡ 0
      → (from input to : String)
      → IsScheduledCall eth
          (record {
            from = from;
            input_data = input;
            block = block_number;
            contract_address = to;
            timestamp = timestamp;
            tx_hash = eth.hash_hex receipt.tx_hash;
          })
          e
      → FromReceipt eth receipt block_number timestamp e

-- At most one event for each log and one for the contract creation.
abbrev pub receipt_bound : Receipt → ℕ
receipt_bound receipt = total (λ _. 1) receipt.logs + 1

-- The calls of the chain and of the database add no event to the trace.
pub record IsSilent {S V : Type 0} (trace : S → List Event) (chain : Chain S) (db : Db S V)
    : Type 0 where
  pub block_quiet : (n : ℕ) → IsQuiet trace (chain.get_block n)
  pub transaction_quiet : (h : Hash) → IsQuiet trace (chain.get_transaction h)
  pub receipts_quiet : (n : ℕ) → IsQuiet trace (chain.get_receipts n)
  pub value_quiet : (n : ℕ) → IsQuiet trace (db.set_value n)

module _ {S V : Type 0} {trace : S → List Event} (eth : Eth) (cache : Cache S) (chain : Chain S)
    (db : Db S V) (c : Callback S) (t : IsTraced trace cache c) (q : IsSilent trace chain db) where
  abbrev pub service_processor : Processor S V
  service_processor = record {
    eth = eth;
    cache = cache;
    chain = chain;
    db = db;
    router = bootstrap_event_router eth cache c;
  }

  fetch_transaction-IsQuiet :
      (receipt : Receipt) → IsQuiet trace (fetch_transaction service_processor receipt)
  unfolding fetch_transaction
  fetch_transaction-IsQuiet receipt = search (quiet_rules, q.transaction_quiet)

  exists-IsQuiet : (prefix : String) (k : String) → IsQuiet trace (or_wrap prefix (cache.exists k))
  exists-IsQuiet prefix k = IsQuiet-or_wrap prefix (cache.exists k) (t.exists_quiet k)

  pub creation_emits :
      (receipt : Receipt) (n ts : ℕ) (success : Bool)
      → success ≡ (receipt.status == 1)
      → EmitsUpTo trace 1
          (FromReceipt eth receipt n ts)
          (process_contract_creation_of service_processor receipt n ts success)
  unfolding process_contract_creation_of
  creation_emits receipt n ts success outcome =
      EmitsUpTo-after_quiet _ _ (fetch_transaction-IsQuiet receipt) λ tx.
        EmitsUpTo-after_quiet _ _ (IsQuiet-or_wrap _ _ (IsQuiet-lift _)) λ from.
          EmitsUpTo-after_quiet _ _ (exists-IsQuiet _ _) λ exists.
            EmitsUpTo-if exists _ _
              (EmitsUpTo-or_wrap_unless_canceled _ _ (
                EmitsUpTo-weaken _ _ _ (λ e d. of_creation success outcome (eth.address_hex from) d)
                  (EmitsUpTo-one _ (process_contract_creation-EmitsOne eth cache c t _))))
              (EmitsUpTo-quiet _ (IsQuiet-pure tt))

  pub log_emits :
      (receipt : Receipt) (n ts : ℕ) (log : Log)
      → receipt.status ≡ 1
      → Elem log receipt.logs
      → EmitsUpTo trace 1
          (FromReceipt eth receipt n ts)
          (process_log_of service_processor receipt ts log)
  unfolding process_log_of
  log_emits receipt n ts log ok_status there =
      EmitsUpTo-after_quiet _ _ (exists-IsQuiet _ _) λ exists.
        EmitsUpTo-if exists _ _
          (EmitsUpTo-or_wrap_unless_canceled _ _ (
            EmitsUpTo-weaken _ _ _ (λ e d. of_log ok_status log there d)
              (EmitsUpTo-one _ (process_log-EmitsOne eth cache c t _))))
          (EmitsUpTo-quiet _ (IsQuiet-pure tt))

  successful_emits :
      (receipt : Receipt) (n ts : ℕ)
      → receipt.status ≡ 1
      → EmitsUpTo trace
          (receipt_bound receipt)
          (FromReceipt eth receipt n ts)
          (process_successful_receipt service_processor receipt n ts)
  unfolding process_successful_receipt
  successful_emits receipt n ts ok_status =
      EmitsUpTo-bind _ _
        (EmitsUpTo-for_each (λ _. 1) receipt.logs _
          (λ log there. log_emits receipt n ts log ok_status there))
        λ _.
          EmitsUpTo-if (receipt.contract_address == 0) _ _ (EmitsUpTo-quiet _ (IsQuiet-pure tt))
            (creation_emits receipt n ts true (ground arith))

  call_emits :
      (receipt : Receipt) (tx : Transaction) (to : Address) (n ts : ℕ)
      → receipt.status ≡ 0
      → EmitsUpTo trace 1
          (FromReceipt eth receipt n ts)
          (process_reverted_call service_processor receipt tx to n ts)
  unfolding process_reverted_call
  call_emits receipt tx to n ts reverted = EmitsUpTo-after_quiet _ _ (exists-IsQuiet _ _) λ exists.
      EmitsUpTo-if exists _ _
        (EmitsUpTo-after_quiet _ _ (IsQuiet-or_wrap _ _ (IsQuiet-lift _)) λ from.
          EmitsUpTo-or_wrap_unless_canceled _ _ (
            EmitsUpTo-weaken _ _ _ (λ e d. of_call reverted _ _ _ d)
              (EmitsUpTo-one _ (process_input_data-EmitsOne eth cache c t _))))
        (EmitsUpTo-quiet _ (IsQuiet-pure tt))

  reverted_emits :
      (receipt : Receipt) (tx : Transaction) (to : Option Address) (n ts : ℕ)
      → receipt.status ≡ 0
      → EmitsUpTo trace 1
          (FromReceipt eth receipt n ts)
          (process_reverted_transaction service_processor receipt tx to n ts)
  unfolding process_reverted_transaction
  reverted_emits receipt tx none n ts reverted = creation_emits receipt n ts false (ground arith)
  reverted_emits receipt tx (some to) n ts reverted = call_emits receipt tx to n ts reverted

  failed_emits :
      (receipt : Receipt) (n ts : ℕ)
      → receipt.status ≡ 0
      → EmitsUpTo trace
          (receipt_bound receipt)
          (FromReceipt eth receipt n ts)
          (process_failed_receipt service_processor receipt n ts)
  unfolding process_failed_receipt
  failed_emits receipt n ts reverted = EmitsUpTo-more _ (omega arith) (
      EmitsUpTo-after_quiet _ _ (fetch_transaction-IsQuiet receipt)
        λ tx. reverted_emits receipt tx tx.to n ts reverted)

  -- A receipt adds at most one event for each of its logs and one more; each of them has its reason in
  -- the receipt.
  pub receipt_emits :
      (receipt : Receipt) (n ts : ℕ)
      → EmitsUpTo trace
          (receipt_bound receipt)
          (FromReceipt eth receipt n ts)
          (process_receipt service_processor receipt n ts)
  unfolding process_receipt
  receipt_emits receipt n ts = elim (Bool-cases (receipt.status == 1)) [
    | inl succeeded ↦ rw succeeded (successful_emits receipt n ts ((nat_beq_iff _ 1).0 succeeded))
    | inr not_one ↦ rw not_one (elim (Bool-cases (receipt.status == 0)) [
      | inl reverted ↦ rw reverted (failed_emits receipt n ts ((nat_beq_iff _ 0).0 reverted))
      | inr unknown ↦ rw unknown (EmitsUpTo-quiet _ (IsQuiet-pure tt))
    ])
  ]
