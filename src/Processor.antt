-- ===== src/Processor.antt =====
-- internal/processor/processor.go: one block, its receipts, and the events of each.
pub mod Receipts
pub mod Emits
pub mod Marks
pub mod Ends
pub mod Subjects
pub mod Visits
use Prim.Native.String.{String, ◌++◌}
use eth_tracker.Prelude.{
  ℕ, Bool, true, false, List, Option, none, some, ◌==◌, nat_eq, if◌then◌else◌,
}
use eth_tracker.Prelude.Text.{decimal}
use eth_tracker.Exec.{Exec, pure, lift, ◌>>=◌, ◌>>◌, or_wrap, or_wrap_unless_canceled, for_each}
use eth_tracker.Eth.{Eth, Receipt, Transaction, Block}
use eth_tracker.Eth.Abi.{Address, Log}
use eth_tracker.Cache.{Cache}
use eth_tracker.Chain.{Chain}
use eth_tracker.Db.{Db}
use eth_tracker.Router.{Router, process_log, process_input_data, process_contract_creation}

abbrev pub tx_status_success : ℕ
tx_status_success = 1

abbrev pub tx_status_failed : ℕ
tx_status_failed = 0

pub record Processor (S V : Type 0) : Type 0 where
  pub eth : Eth
  pub cache : Cache S
  pub chain : Chain S
  pub db : Db S V
  pub router : Router S

module _ {S V : Type 0} (p : Processor S V) where
  open p use {eth, cache, chain, db, router}

  -- The fetch of the transaction of a receipt, and its error.
  unfoldable pub fetch_transaction : Receipt → Exec S Transaction
  fetch_transaction receipt =
      or_wrap_unless_canceled ("failed to fetch transaction " ++ eth.hash_hex receipt.tx_hash)
        (chain.get_transaction receipt.tx_hash)

  unfoldable pub process_contract_creation_of : Receipt → ℕ → ℕ → Bool → Exec S (Unit {0})
  unfolding fetch_transaction
  process_contract_creation_of receipt block_number timestamp success = do
    tx ← fetch_transaction receipt
    from ←
        or_wrap ("failed to decode transaction sender for tx " ++ eth.hash_hex receipt.tx_hash)
          (lift (eth.signer tx))
    exists ←
        or_wrap ("cache lookup failed for sender address " ++ eth.address_hex from)
          (cache.exists (eth.address_hex from))
    if exists
        then or_wrap_unless_canceled
            ("failed to process contract creation for tx " ++ eth.hash_hex receipt.tx_hash)
            (process_contract_creation router (record {
              from = eth.address_hex from;
              block = block_number;
              contract_address = eth.address_hex receipt.contract_address;
              timestamp = timestamp;
              tx_hash = eth.hash_hex receipt.tx_hash;
              success = success;
            }))
        else pure tt

  -- The body of the loop over the logs of a successful receipt.
  unfoldable pub process_log_of : Receipt → ℕ → Log → Exec S (Unit {0})
  process_log_of receipt timestamp log = do
    exists ←
        or_wrap ("cache lookup failed for log address " ++ eth.address_hex log.address)
          (cache.exists (eth.address_hex log.address))
    if exists
        then or_wrap_unless_canceled
            ("failed to process log for tx " ++ eth.hash_hex receipt.tx_hash)
            (process_log router (record { log = log; timestamp = timestamp }))
        else pure tt

  unfoldable pub process_successful_receipt : Receipt → ℕ → ℕ → Exec S (Unit {0})
  process_successful_receipt receipt block_number timestamp = do
    for_each receipt.logs (process_log_of receipt timestamp)
    if receipt.contract_address == 0
        then pure tt
        else process_contract_creation_of receipt block_number timestamp true

  -- The call of a reverted transaction with the recipient `to`.
  unfoldable pub process_reverted_call : Receipt → Transaction → Address → ℕ → ℕ → Exec S (Unit {0})
  process_reverted_call receipt tx to block_number timestamp = do
    exists ←
        or_wrap ("cache lookup failed for contract address " ++ eth.address_hex to)
          (cache.exists (eth.address_hex to))
    if exists
        then (do
          from ←
              or_wrap
                ("failed to decode transaction sender for tx " ++ eth.hash_hex receipt.tx_hash)
                (lift (eth.signer tx))
          or_wrap_unless_canceled
              ("failed to process input data for tx " ++ eth.hash_hex receipt.tx_hash)
              (process_input_data router (record {
                from = eth.address_hex from;
                input_data = eth.bytes_hex tx.input;
                block = block_number;
                contract_address = eth.address_hex to;
                timestamp = timestamp;
                tx_hash = eth.hash_hex receipt.tx_hash;
              })))
        else pure tt

  -- The test whether `tx.To()` is nil.
  unfoldable pub process_reverted_transaction :
      Receipt → Transaction → Option Address → ℕ → ℕ → Exec S (Unit {0})
  process_reverted_transaction receipt tx none block_number timestamp =
      process_contract_creation_of receipt block_number timestamp false
  process_reverted_transaction receipt tx (some to) block_number timestamp =
      process_reverted_call receipt tx to block_number timestamp

  unfoldable pub process_failed_receipt : Receipt → ℕ → ℕ → Exec S (Unit {0})
  unfolding fetch_transaction
  process_failed_receipt receipt block_number timestamp = do
    tx ← fetch_transaction receipt
    process_reverted_transaction receipt tx tx.to block_number timestamp

  unfoldable pub process_receipt : Receipt → ℕ → ℕ → Exec S (Unit {0})
  process_receipt receipt block_number timestamp =
      if receipt.status == tx_status_success
      then process_successful_receipt receipt block_number timestamp
      else if receipt.status == tx_status_failed
      then process_failed_receipt receipt block_number timestamp
      else pure tt

  -- The body of the loop over the receipts of a block.
  unfoldable pub process_receipt_of : ℕ → ℕ → Receipt → Exec S (Unit {0})
  process_receipt_of block_number timestamp receipt =
      or_wrap_unless_canceled
        ("failed to process receipt "
          ++ eth.hash_hex receipt.tx_hash
          ++ " in block "
          ++ decimal block_number)
        (process_receipt receipt block_number timestamp)

  -- The fetches and the loop, before the block is marked as processed.
  unfoldable pub process_receipts : ℕ → Exec S (Unit {0})
  process_receipts block_number = do
    block ←
        or_wrap_unless_canceled ("failed to fetch block " ++ decimal block_number)
          (chain.get_block block_number)
    receipts ←
        or_wrap_unless_canceled ("failed to fetch receipts for block " ++ decimal block_number)
          (chain.get_receipts block.number)
    for_each receipts (process_receipt_of block_number block.time)

  unfoldable pub process_block : ℕ → Exec S (Unit {0})
  process_block block_number = do
    process_receipts block_number
    or_wrap ("failed to persist block " ++ decimal block_number) (db.set_value block_number)
