-- ===== src/Chain.antt =====
-- internal/chain/chain.go: the interface `Chain`, as calls on the state of the service. `GetBlocks`
-- and `Provider` are not called by the block processor.
pub mod Rpc
use eth_tracker.Prelude.{ℕ, List}
use eth_tracker.Exec.{Exec}
use eth_tracker.Eth.{Block, Receipt, Transaction}
use eth_tracker.Eth.Abi.{Hash}

pub record Chain (S : Type 0) : Type 0 where
  pub get_block : ℕ → Exec S Block
  pub get_latest_block : Exec S ℕ
  pub get_transaction : Hash → Exec S Transaction
  pub get_receipts : ℕ → Exec S (List Receipt)
