-- ===== src/Chain/Rpc.antt =====
-- internal/chain/eth_rpc.go: the interface `Chain` over the batches of a JSON-RPC client.
use eth_tracker.Prelude.{ℕ, ◌%◌, ◌≡◌, refl, ap, String, List, [], ◌∷◌, map}
use eth_tracker.Result.{ok}
use eth_tracker.Exec.{Exec, pure, ◌>>=◌, ◌>>◌}
use eth_tracker.Eth.{Block, Receipt, Transaction}
use eth_tracker.Eth.Abi.{Hash}
use eth_tracker.Chain.{Chain}
use eth_tracker.Db.Bytes.{u64_mod}

-- The calls of the package eth of w3 that the service makes; `block_number` is the latest one.
pub data RpcCaller : Type 0 where
  block_by_number : ℕ → RpcCaller
  block_number : RpcCaller
  tx : Hash → RpcCaller
  block_receipts : ℕ → RpcCaller

abbrev pub Reply : RpcCaller → Type 0
Reply (block_by_number n) = Block
Reply block_number = ℕ
Reply (tx h) = Transaction
Reply (block_receipts n) = List Receipt

-- What the pointers given to `Returns` hold after the batch.
abbrev pub Replies : List RpcCaller → Type 0
Replies [] = Unit
Replies (call ∷ calls) = Reply call × Replies calls

-- `call_ctx` is `provider.Client.CallCtx`, one batch of calls.
pub record Client (S : Type 0) : Type 0 where
  pub call_ctx : (calls : List RpcCaller) → Exec S (Replies calls)

-- `dial` is `rpc.DialOptions` with the HTTP client of the service.
abbrev pub new_rpc_client : {S : Type 0} → (String → Exec S (Unit {0})) → String → Exec S (Unit {0})
new_rpc_client dial rpc_endpoint = dial rpc_endpoint

unfoldable pub new_rpc_fetcher :
    {S : Type 0} → (String → Exec S (Unit {0})) → String → Exec S (Unit {0})
new_rpc_fetcher dial rpc_endpoint = do new_rpc_client dial rpc_endpoint; pure tt

-- The slice `blocks` after the batch.
abbrev pub blocks_of : (ns : List ℕ) → Replies (map block_by_number ns) → List Block
blocks_of [] replies = []
blocks_of (n ∷ ns) (block, replies) = block ∷ blocks_of ns replies

module _ {S : Type 0} (c : Client S) where
  open c use {call_ctx}

  unfoldable pub get_blocks : List ℕ → Exec S (List Block)
  get_blocks [] = pure []
  get_blocks (n ∷ ns) = do
    replies ← call_ctx (map block_by_number (n ∷ ns))
    pure (blocks_of (n ∷ ns) replies)

  unfoldable pub get_block : ℕ → Exec S Block
  get_block n = do (block, _) ← call_ctx (block_by_number n ∷ []); pure block

  -- `Uint64` of a big.Int keeps the lowest 64 bits.
  unfoldable pub get_latest_block : Exec S ℕ
  get_latest_block = do
    (latest_block, _) ← call_ctx (block_number ∷ [])
    pure (latest_block % u64_mod)

  unfoldable pub get_transaction : Hash → Exec S Transaction
  get_transaction h = do (transaction, _) ← call_ctx (tx h ∷ []); pure transaction

  unfoldable pub get_receipts : ℕ → Exec S (List Receipt)
  get_receipts n = do (receipts, _) ← call_ctx (block_receipts n ∷ []); pure receipts

  abbrev pub eth_rpc : Chain S
  eth_rpc = record {
    get_block = get_block;
    get_latest_block = get_latest_block;
    get_transaction = get_transaction;
    get_receipts = get_receipts;
  }

-- The replies of a node that answers a batch as it answers each call of it.
abbrev pub answers : ((call : RpcCaller) → Reply call) → (calls : List RpcCaller) → Replies calls
answers node [] = tt
answers node (call ∷ calls) = (node call, answers node calls)

blocks_of-answers :
    (node : (call : RpcCaller) → Reply call) (ns : List ℕ)
    → blocks_of ns (answers node (map block_by_number ns)) ≡ map (λ n. node (block_by_number n)) ns
blocks_of-answers node [] = refl
blocks_of-answers node (n ∷ ns) =
    ap (λ bs. node (block_by_number n) ∷ bs) (blocks_of-answers node ns)

-- If a node answers every batch as it answers each call of it, then fetching many blocks gives the
-- blocks that fetching them one by one gives, in the same order.
pub get_blocks-get_block :
    {S : Type 0} (c : Client S) (node : (call : RpcCaller) → Reply call) (ns : List ℕ) (s : S)
    → ((calls : List RpcCaller) (x : S) → c.call_ctx calls x ≡ (ok (answers node calls), x))
    → (get_blocks c ns s ≡ (ok (map (λ n. node (block_by_number n)) ns), s))
      × ((n : ℕ) → get_block c n s ≡ (ok (node (block_by_number n)), s))
unfolding get_blocks get_block pure ◌>>=◌
get_blocks-get_block c node [] s same = (refl, λ n. rw (same (block_by_number n ∷ []) s) refl)
get_blocks-get_block c node (n ∷ ns) s same = (
  rw (same (map block_by_number (n ∷ ns)) s)
      (ap (λ bs. (ok bs, s)) (blocks_of-answers node (n ∷ ns))),
  λ m. rw (same (block_by_number m ∷ []) s) refl,
)
