-- ===== src/Processor/Marks.antt =====
-- A block is marked as processed exactly if all of it was processed.
use eth_tracker.Prelude.{
  ℕ, ◌<◌, ◌≡◌, ◌≢◌, refl, sym, ap, ◌∙◌, Bool, ◌||◌, Option, none, some, String, ◌==◌, nat_eq,
}
use eth_tracker.Result.{Result, ok, err, panic, diverges, wrapped, wrapped-ok}
use eth_tracker.Exec.{Exec, continue, ◌>>=◌, or_wrap}
use eth_tracker.Exec.Keeps.{Keeps, keeps_rules}
use eth_tracker.Exec.Lens.{Lens, zoom}
use eth_tracker.Eth.{Eth, Receipt, Transaction}
use eth_tracker.Eth.Abi.{Address, Log, Hash}
use eth_tracker.Cache.{Cache}
use eth_tracker.Chain.{Chain}
use eth_tracker.Db.Bytes.{u64_mod}
use eth_tracker.Db.Bitset.{BitSets}
use eth_tracker.Db.Bolt.{Bolt, bolt_db, set_value}
use eth_tracker.Db.Missing.{has_block}
use eth_tracker.Db.Values.{set_value-exact, set_value-rolls_back}
use eth_tracker.Handler.Keeps.{LeftAlone}
use eth_tracker.Service.Routes.{bootstrap_event_router}
use eth_tracker.Service.Keeps.{
  process_log-Keeps, process_input_data-Keeps, process_contract_creation-Keeps,
}
use eth_tracker.Router.{
  Callback, LogPayload, InputDataPayload, ContractCreationPayload, process_log, process_input_data,
  process_contract_creation,
}
use eth_tracker.Processor.{
  Processor, fetch_transaction, process_contract_creation_of, process_log_of,
  process_successful_receipt, process_reverted_call, process_reverted_transaction,
  process_failed_receipt, process_receipt, process_receipt_of, process_receipts, process_block,
}

-- What `P` says of the state is left alone by the chain, the cache's look-ups and the routes.
pub record LeavesAlone {S V : Type 0} (P : S → Type 0) (p : Processor S V) : Type 0 where
  pub blocks : (n : ℕ) → Keeps P (p.chain.get_block n)
  pub receipts : (n : ℕ) → Keeps P (p.chain.get_receipts n)
  pub transactions : (h : Hash) → Keeps P (p.chain.get_transaction h)
  pub lookups : (k : String) → Keeps P (p.cache.exists k)
  pub logs : (lp : LogPayload) → Keeps P (process_log p.router lp)
  pub calls : (idp : InputDataPayload) → Keeps P (process_input_data p.router idp)
  pub creations : (ccp : ContractCreationPayload) → Keeps P (process_contract_creation p.router ccp)

module _ {S V : Type 0} {P : S → Type 0} (p : Processor S V) (k : LeavesAlone P p) where
  fetch_transaction-Keeps : (receipt : Receipt) → Keeps P (fetch_transaction p receipt)
  unfolding fetch_transaction
  fetch_transaction-Keeps receipt = search (keeps_rules, k.transactions)

  creation-Keeps :
      (receipt : Receipt) (n ts : ℕ) (success : Bool)
      → Keeps P (process_contract_creation_of p receipt n ts success)
  unfolding process_contract_creation_of
  creation-Keeps receipt n ts success =
      search (keeps_rules, fetch_transaction-Keeps, k.lookups, k.creations) depth 9

  log-Keeps : (receipt : Receipt) (ts : ℕ) (log : Log) → Keeps P (process_log_of p receipt ts log)
  unfolding process_log_of
  log-Keeps receipt ts log = search (keeps_rules, k.lookups, k.logs)

  successful-Keeps :
      (receipt : Receipt) (n ts : ℕ) → Keeps P (process_successful_receipt p receipt n ts)
  unfolding process_successful_receipt
  successful-Keeps receipt n ts = search (keeps_rules, log-Keeps, creation-Keeps)

  call-Keeps :
      (receipt : Receipt) (tx : Transaction) (to : Address) (n ts : ℕ)
      → Keeps P (process_reverted_call p receipt tx to n ts)
  unfolding process_reverted_call
  call-Keeps receipt tx to n ts = search (keeps_rules, k.lookups, k.calls) depth 9

  reverted-Keeps :
      (receipt : Receipt) (tx : Transaction) (to : Option Address) (n ts : ℕ)
      → Keeps P (process_reverted_transaction p receipt tx to n ts)
  unfolding process_reverted_transaction
  reverted-Keeps receipt tx none n ts = creation-Keeps receipt n ts _
  reverted-Keeps receipt tx (some to) n ts = call-Keeps receipt tx to n ts

  failed-Keeps : (receipt : Receipt) (n ts : ℕ) → Keeps P (process_failed_receipt p receipt n ts)
  unfolding process_failed_receipt
  failed-Keeps receipt n ts = search (keeps_rules, fetch_transaction-Keeps, reverted-Keeps)

  pub receipt-Keeps : (n ts : ℕ) (receipt : Receipt) → Keeps P (process_receipt_of p n ts receipt)
  unfolding process_receipt_of process_receipt
  receipt-Keeps n ts receipt = search (keeps_rules, successful-Keeps, failed-Keeps)

  pub receipts-Keeps : (n : ℕ) → Keeps P (process_receipts p n)
  unfolding process_receipts
  receipts-Keeps n = search (keeps_rules, k.blocks, k.receipts, receipt-Keeps)

-- What `P` says of the state is left alone by the calls of the chain, of the cache and of the publisher.
pub record Leaves {S : Type 0} (P : S → Type 0) (cache : Cache S) (chain : Chain S) (c : Callback S)
    : Type 0 where
  pub blocks : (n : ℕ) → Keeps P (chain.get_block n)
  pub receipts : (n : ℕ) → Keeps P (chain.get_receipts n)
  pub transactions : (h : Hash) → Keeps P (chain.get_transaction h)
  pub others : LeftAlone P cache c

-- The calls of the chain, of the cache and of the publisher do not write to the block store.
abbrev pub LeavesStore :
    {S B : Type 0} → Lens S (Option B) → Cache S → Chain S → Callback S → Type 0
LeavesStore store cache chain c = (b : Option _) → Leaves (λ s. store.get s ≡ b) cache chain c

module _ {S B V : Type 0} (store : Lens S (Option B)) (bolt : Bolt B) (bits : BitSets V) (eth : Eth)
    (cache : Cache S) (chain : Chain S) (c : Callback S) where
  -- The processor of the service, with its routes, over the block store.
  abbrev pub over_store : Processor S V
  over_store = record {
    eth = eth;
    cache = cache;
    chain = chain;
    db = bolt_db bolt store bits;
    router = bootstrap_event_router eth cache c;
  }

  pub service-LeavesAlone : {P : S → Type 0} → Leaves P cache chain c → LeavesAlone P over_store
  service-LeavesAlone leaves = record {
    blocks = leaves.blocks;
    receipts = leaves.receipts;
    transactions = leaves.transactions;
    lookups = leaves.others.lookups;
    logs = process_log-Keeps eth cache c leaves.others;
    calls = process_input_data-Keeps eth cache c leaves.others;
    creations = process_contract_creation-Keeps eth cache c leaves.others;
  }

  -- What the write to the block store leaves alone too, processing a block leaves alone.
  pub process_block-Keeps :
      {P : S → Type 0} (n : ℕ)
      → Leaves P cache chain c
      → Keeps P (zoom store (set_value bolt n))
      → Keeps P (process_block over_store n)
  unfolding process_block
  process_block-Keeps n leaves writes =
      search (keeps_rules, receipts-Keeps over_store (service-LeavesAlone leaves) n, writes)

  -- The write after the loop, by how the loop ended.
  abbrev persist : String → ℕ → Result (Unit {0}) → Exec S (Unit {0})
  persist prefix n r = continue r (λ _. or_wrap prefix (zoom store (set_value bolt n)))

  persist_fails :
      (prefix : String) (n : ℕ) (r : Result (Unit {0})) (s : S)
      → (persist prefix n r s).0 ≢ ok tt
      → store.get (persist prefix n r s).1 ≡ store.get s
  unfolding or_wrap zoom
  persist_fails prefix n (ok u) s h =
      store.get-put _ s ∙ set_value-rolls_back bolt n (store.get s) (λ e. h (ap (wrapped prefix) e))
  persist_fails prefix n (err e) s h = refl
  persist_fails prefix n panic s h = refl
  persist_fails prefix n diverges s h = refl

  -- If the chain, the cache and the publisher do not write to the block store, and processing a block
  -- does not return without an error, the block store is as it was: the block is not newly marked.
  pub process_block-unmarked :
      (n : ℕ) (s : S)
      → LeavesStore store cache chain c
      → (process_block over_store n s).0 ≢ ok tt
      → store.get (process_block over_store n s).1 ≡ store.get s
  unfolding process_block ◌>>=◌
  process_block-unmarked n s leaves h =
      persist_fails _ n (process_receipts over_store n s).0 (process_receipts over_store n s).1 h
      ∙ (receipts-Keeps over_store (service-LeavesAlone (leaves (store.get s))) n).at s refl

  persist_succeeds :
      (prefix : String) (n : ℕ) (r : Result (Unit {0})) (s s' : S)
      → persist prefix n r s ≡ (ok tt, s')
      → (r ≡ ok tt) × (set_value bolt n (store.get s) ≡ (ok tt, store.get s'))
  unfolding or_wrap zoom
  persist_succeeds prefix n (ok u) s s' h = (
    refl,
    λ i. (
      wrapped-ok prefix (set_value bolt n (store.get s)).0 tt
          (ap (λ (p : Result (Unit {0}) × S). p.0) h) i,
      (sym (store.get-put (set_value bolt n (store.get s)).1 s)
            ∙ ap (λ (p : Result (Unit {0}) × S). store.get p.1) h)
          i,
    ),
  )
  persist_succeeds prefix n (err e) s s' h = cc (ap (λ (p : Result (Unit {0}) × S). p.0) h)
  persist_succeeds prefix n panic s s' h = cc (ap (λ (p : Result (Unit {0}) × S). p.0) h)
  persist_succeeds prefix n diverges s s' h = cc (ap (λ (p : Result (Unit {0}) × S). p.0) h)

  -- The block store after a block was processed without an error is that after the write.
  pub process_block-stores :
      (n : ℕ) (s s' : S)
      → LeavesStore store cache chain c
      → process_block over_store n s ≡ (ok tt, s')
      → ((process_receipts over_store n s).0 ≡ ok tt)
        × (set_value bolt n (store.get s) ≡ (ok tt, store.get s'))
  unfolding process_block ◌>>=◌
  process_block-stores n s s' leaves h =
      let (all, stored) =
        persist_succeeds _ n (process_receipts over_store n s).0 (process_receipts over_store n s).1
          s' h in
      let apart =
        (receipts-Keeps over_store (service-LeavesAlone (leaves (store.get s))) n).at s refl in
      (all, ap (set_value bolt n) (sym apart) ∙ stored)

  -- If the chain, the cache and the publisher do not write to the block store, and processing a block
  -- below 2^64 returns without an error, then the fetches and the processing of every receipt returned
  -- without an error too, the block is marked as processed, and every other block is marked exactly if
  -- it was.
  pub process_block-marked :
      (n : ℕ) (s s' : S)
      → LeavesStore store cache chain c
      → n < u64_mod
      → process_block over_store n s ≡ (ok tt, s')
      → ((process_receipts over_store n s).0 ≡ ok tt)
        × (b : B) × (b' : B) × (store.get s ≡ some b)
        × (store.get s' ≡ some b')
        × ((w : ℕ) → w < u64_mod → has_block bolt b' w ≡ (n == w || has_block bolt b w))
  process_block-marked n s s' leaves small h =
      let (all, stored) = process_block-stores n s s' leaves h in
      let (b, b', from, to, marks, lower_kept, upper_kept) =
        set_value-exact bolt _ _ n stored small in
      (all, b, b', from, to, marks)
