-- ===== src/Processor/Ends.antt =====
-- Processing a block comes back: no guard of the code is missing that a panic would need.
use eth_tracker.Prelude.{ℕ, Bool, Option, none, some}
use eth_tracker.Result.{Result, ok, err, panic, diverges}
use eth_tracker.Exec.Ends.{Ends, HasEnded, HasEnded-ok, then-HasEnded, ends_rules}
use eth_tracker.Exec.Lens.{Lens, zoom}
use eth_tracker.Eth.{Eth, Receipt, Transaction}
use eth_tracker.Eth.Abi.{Address, Log, Hash, Bytes}
use eth_tracker.Cache.{Cache}
use eth_tracker.Chain.{Chain}
use eth_tracker.Db.Bitset.{BitSets}
use eth_tracker.Db.Bolt.{Bolt, bucket_of, finish, set_value, set_uint64_as_key, update}
use eth_tracker.Processor.Marks.{over_store}
use eth_tracker.Router.{Callback}
use eth_tracker.Handler.Ends.{Answers}
use eth_tracker.Service.Ends.{
  process_log-Ends, process_input_data-Ends, process_contract_creation-Ends,
}
use eth_tracker.Processor.{
  Processor, fetch_transaction, process_contract_creation_of, process_log_of,
  process_successful_receipt, process_reverted_call, process_reverted_transaction,
  process_failed_receipt, process_receipt, process_receipt_of, process_receipts, process_block,
}

-- The calls of the chain come back, a sender is decoded or refused, and what `Bytes2Hex` prints is
-- read back as hexadecimal.
pub record ChainAnswers {S : Type 0} (dying : Bool) (eth : Eth) (chain : Chain S) : Type 0 where
  pub blocks : (n : ℕ) → Ends dying (chain.get_block n)
  pub receipts : (n : ℕ) → Ends dying (chain.get_receipts n)
  pub transactions : (h : Hash) → Ends dying (chain.get_transaction h)
  pub signers : (tx : Transaction) → HasEnded dying (eth.signer tx)
  pub hexadecimal : (bs : Bytes) → HasEnded dying (eth.hex_bytes (eth.bytes_hex bs))

-- Opening a transaction, writing to the bucket and writing it to the disk come back.
pub record StoreAnswers {B : Type 0} (dying : Bool) (bolt : Bolt B) : Type 0 where
  pub opens : (s : Option B) → HasEnded dying (bolt.begin s)
  pub puts : (b : B) (k v : Bytes) → HasEnded dying (bolt.put b k v)
  pub commits : (b : B) → HasEnded dying (bolt.commit b)

module _ {B : Type 0} {dying : Bool} (bolt : Bolt B) (t : StoreAnswers dying bolt) where
  bucket_of-HasEnded : (s : Option B) → HasEnded dying (bucket_of s)
  bucket_of-HasEnded none = record { fine = tt }
  bucket_of-HasEnded (some b) = record { fine = tt }

  finish-HasEnded : (s : Option B) (r : Result B) → HasEnded dying r → HasEnded dying (finish s r).0
  finish-HasEnded s diverges h = absurd h.fine
  finish-HasEnded s panic h = record { fine = h.fine }
  finish-HasEnded s (err e) h = record { fine = tt }
  finish-HasEnded s (ok b) h = record { fine = tt }

  set_value-Ends :
      {S : Type 0} (store : Lens S (Option B)) (n : ℕ) → Ends dying (zoom store (set_value bolt n))
  unfolding zoom set_value set_uint64_as_key update
  set_value-Ends store n = record {
    at = λ s. finish-HasEnded _ _ (
        then-HasEnded _ _ (t.opens _) λ _. then-HasEnded _ _ (bucket_of-HasEnded _) λ b.
          then-HasEnded _ _ (t.puts b _ _)
            λ b'. then-HasEnded _ _ (t.commits b') λ _. HasEnded-ok b');
  }

module _ {S B V : Type 0} {dying : Bool} (store : Lens S (Option B)) (bolt : Bolt B)
    (bits : BitSets V) (eth : Eth) (cache : Cache S) (chain : Chain S) (c : Callback S)
    (k : Answers dying eth cache c) (a : ChainAnswers dying eth chain)
    (t : StoreAnswers dying bolt) where
  abbrev p : Processor S V
  p = over_store store bolt bits eth cache chain c

  fetch_transaction-Ends : (receipt : Receipt) → Ends dying (fetch_transaction p receipt)
  unfolding fetch_transaction
  fetch_transaction-Ends receipt = search (ends_rules, a.transactions)

  creation-Ends :
      (receipt : Receipt) (n ts : ℕ) (success : Bool)
      → Ends dying (process_contract_creation_of p receipt n ts success)
  unfolding process_contract_creation_of
  creation-Ends receipt n ts success =
      search
        (
          ends_rules,
          fetch_transaction-Ends,
          a.signers,
          k.lookups,
          process_contract_creation-Ends eth cache c k,
        )
        depth 9

  log-Ends : (receipt : Receipt) (ts : ℕ) (log : Log) → Ends dying (process_log_of p receipt ts log)
  unfolding process_log_of
  log-Ends receipt ts log = search (ends_rules, k.lookups, process_log-Ends eth cache c k)

  successful-Ends :
      (receipt : Receipt) (n ts : ℕ) → Ends dying (process_successful_receipt p receipt n ts)
  unfolding process_successful_receipt
  successful-Ends receipt n ts = search (ends_rules, log-Ends, creation-Ends)

  call-Ends :
      (receipt : Receipt) (tx : Transaction) (to : Address) (n ts : ℕ)
      → Ends dying (process_reverted_call p receipt tx to n ts)
  unfolding process_reverted_call
  call-Ends receipt tx to n ts =
      search
        (ends_rules, k.lookups, a.signers, process_input_data-Ends eth cache c k, a.hexadecimal)
        depth 9

  reverted-Ends :
      (receipt : Receipt) (tx : Transaction) (to : Option Address) (n ts : ℕ)
      → Ends dying (process_reverted_transaction p receipt tx to n ts)
  unfolding process_reverted_transaction
  reverted-Ends receipt tx none n ts = creation-Ends receipt n ts _
  reverted-Ends receipt tx (some to) n ts = call-Ends receipt tx to n ts

  failed-Ends : (receipt : Receipt) (n ts : ℕ) → Ends dying (process_failed_receipt p receipt n ts)
  unfolding process_failed_receipt
  failed-Ends receipt n ts = search (ends_rules, fetch_transaction-Ends, reverted-Ends)

  receipt-Ends : (n ts : ℕ) (receipt : Receipt) → Ends dying (process_receipt_of p n ts receipt)
  unfolding process_receipt_of process_receipt
  receipt-Ends n ts receipt = search (ends_rules, successful-Ends, failed-Ends)

  receipts-Ends : (n : ℕ) → Ends dying (process_receipts p n)
  unfolding process_receipts
  receipts-Ends n = search (ends_rules, a.blocks, a.receipts, receipt-Ends)

  -- If the calls of the chain, of the cache, of the store and of the publisher come back with a value
  -- or an error, the decoders and the recovery of a sender too, and what `Bytes2Hex` prints can be read
  -- back, then processing any block comes back with a value or an error: it neither panics nor runs
  -- forever. If those may panic, it still does not run forever.
  pub process_block-Ends :
      (n : ℕ) → Ends dying (process_block (over_store store bolt bits eth cache chain c) n)
  unfolding process_block
  process_block-Ends n = search (ends_rules, receipts-Ends, set_value-Ends bolt t store)
