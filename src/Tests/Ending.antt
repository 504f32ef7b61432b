-- ===== src/Tests/Ending.antt =====
-- The theorem that processing a block comes back, applied to the chain of the tests.
use eth_tracker.Prelude.{ℕ, true, false, Bool, List, [], ◌∷◌, if◌then◌else◌, nat_eq}
use eth_tracker.Result.{Result, ok}
use eth_tracker.Exec.Ends.{Ends, HasEnded, HasEnded-ok, HasEnded-err, HasEnded-if, then-HasEnded}
use eth_tracker.Eth.Abi.{Input, indexed, plain}
use eth_tracker.Cache.MapCache.{add, remove, exists, exists_network}
use eth_tracker.Handler.Ends.{Answers}
use eth_tracker.Processor.{process_block}
use eth_tracker.Processor.Marks.{over_store}
use eth_tracker.Processor.Ends.{ChainAnswers, StoreAnswers, process_block-Ends}
use eth_tracker.Tests.BitLists.{bit_lists}
use eth_tracker.Tests.Buckets.{buckets, is_bytes}
use eth_tracker.Tests.World.{World, store, cache, callback, eth, chain, decode, arguments_of}

decode-HasEnded :
    (is : List Input) (topics words : List ℕ) → HasEnded false (decode is topics words)
decode-HasEnded [] topics words = HasEnded-ok tt
decode-HasEnded (indexed k ∷ is) [] words = HasEnded-err _
decode-HasEnded (indexed k ∷ is) (t ∷ topics) words =
    then-HasEnded (decode is topics words) _ (decode-HasEnded is topics words)
      (λ args. HasEnded-ok _)
decode-HasEnded (plain k ∷ is) topics [] = HasEnded-err _
decode-HasEnded (plain k ∷ is) topics (w ∷ words) =
    then-HasEnded (decode is topics words) _ (decode-HasEnded is topics words)
      (λ args. HasEnded-ok _)

lookup-HasEnded :
    (b : Bool) (p q : Bool) (w : World)
    → HasEnded false (if◌then◌else◌ {A = Result Bool × World} b (ok p, w) (ok q, w)).0
lookup-HasEnded true p q w = HasEnded-ok p
lookup-HasEnded false p q w = HasEnded-ok q

world-Answers : Answers false eth cache callback
unfolding add remove exists exists_network
world-Answers = record {
  adds = λ k. record { at = λ s. HasEnded-ok tt };
  removes = λ k. record { at = λ s. HasEnded-ok tt };
  lookups = λ k. record { at = λ s. HasEnded-ok _ };
  networks = λ k ks. record { at = λ s. lookup-HasEnded _ _ _ _ };
  events = λ e log. decode-HasEnded e.inputs (arguments_of log.topics) log.data_bytes;
  functions = λ f words. decode-HasEnded f.inputs [] words;
  callbacks = λ e. record { at = λ s. HasEnded-ok tt };
}

world-ChainAnswers : ChainAnswers false eth chain
world-ChainAnswers = record {
  blocks = λ n. record { at = λ s. HasEnded-ok _ };
  receipts = λ n. record { at = λ s. HasEnded-ok _ };
  transactions = λ h. record { at = λ s. HasEnded-ok _ };
  signers = λ tx. HasEnded-ok 31;
  hexadecimal = λ bs. HasEnded-if _ _ _ (HasEnded-ok _) (HasEnded-ok _);
}

buckets-StoreAnswers : StoreAnswers false buckets
buckets-StoreAnswers = record {
  opens = λ s. HasEnded-ok tt;
  puts = λ b k v. HasEnded-if (is_bytes k) _ _ (HasEnded-ok _) (HasEnded-err _);
  commits = λ b. HasEnded-ok tt;
}

process_block-Ends_example :
    Ends false (process_block (over_store store buckets bit_lists eth cache chain callback) 9)
process_block-Ends_example =
    process_block-Ends store buckets bit_lists eth cache chain callback world-Answers
      world-ChainAnswers buckets-StoreAnswers 9
