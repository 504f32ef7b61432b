-- ===== src/Processor/Subjects.antt =====
-- The events of a block go to subjects of the stream.
use Prim.Native.String.{slice, ◌++◌ as join}
use eth_tracker.Prelude.{
  ℕ, ◌≡◌, refl, ap, ◌∙◌, true, String, List, ◌++◌, All, All-map, ◌&◌, nat_eq, string_eq,
}
use eth_tracker.Prelude.Maps.{All-lookup}
use eth_tracker.Result.{ok}
use eth_tracker.Eth.{Eth, Receipt, Block}
use eth_tracker.Eth.Abi.{Hash}
use eth_tracker.Event.{Event}
use eth_tracker.Cache.{Cache}
use eth_tracker.Chain.{Chain}
use eth_tracker.Db.{Db}
use eth_tracker.Router.{Callback}
use eth_tracker.Handler.Emits.{IsTraced}
use eth_tracker.Processor.{process_block}
use eth_tracker.Processor.Receipts.{
  FromReceipt, of_log, of_creation, of_call, IsSilent, service_processor,
}
use eth_tracker.Processor.Emits.{process_block-emits}
use eth_tracker.Publisher.{stream_name, subject_of}
use eth_tracker.Publisher.Connect.{stream_subject_pattern}
use eth_tracker.Publisher.Subjects.{matches, IsTaken}
use eth_tracker.Handler.Layouts.{LogLayout, CallLayout}
use eth_tracker.Service.Schema.{log_schema, call_schema}

-- Events of this type go to a subject of the stream.
abbrev IsTakenType : String → Type 0
IsTakenType ty = matches stream_subject_pattern (join stream_name (join "." ty)) ≡ true

log_schema-IsTaken : All (λ (entry : Hash × (String × LogLayout)). IsTakenType entry.1.0) log_schema
log_schema-IsTaken =
    refl & refl & refl & refl & refl & refl & refl & refl & refl & refl & refl & refl & refl & refl
    & refl & tt

call_schema-IsTaken :
    All (λ (entry : String × (String × CallLayout)). IsTakenType entry.1.0) call_schema
call_schema-IsTaken =
    refl & refl & refl & refl & refl & refl & refl & refl & refl & refl & refl & refl & refl & refl
    & refl & refl & tt

taken : (e : Event) (ty : String) → e.tx_type ≡ ty → IsTakenType ty → IsTaken e
taken e ty same h =
    ap (λ x. matches stream_subject_pattern (join stream_name (join "." x))) same ∙ h

FromReceipt-IsTaken :
    (eth : Eth) (receipt : Receipt) (n timestamp : ℕ) (e : Event)
    → FromReceipt eth receipt n timestamp e
    → IsTaken e
FromReceipt-IsTaken eth receipt n timestamp e
      (of_log succeeded log there (topic, rest, ty, fields, tops, known, about)) =
    taken e ty about.of_type (
      All-lookup (λ entry. IsTakenType entry.1.0) topic (ty, fields) log_schema log_schema-IsTaken
        known)
FromReceipt-IsTaken eth receipt n timestamp e (of_creation success same from about) =
    taken e "CONTRACT_CREATION" about.of_type refl
FromReceipt-IsTaken eth receipt n timestamp e
      (of_call reverted from input to (ty, fields, known, about)) =
    taken e ty about.of_type (
      All-lookup (λ entry. IsTakenType entry.1.0) (slice input 0 8) (ty, fields) call_schema
        call_schema-IsTaken known)

module _ {S V : Type 0} {trace : S → List Event} (eth : Eth) (cache : Cache S) (chain : Chain S)
    (db : Db S V) (c : Callback S) (t : IsTraced trace cache c) (q : IsSilent trace chain db) where
  -- If the callback publishes each event that it is called with, the calls of the cache, of the chain
  -- and of the store publish nothing, and the block and its receipts are fetched: every event that
  -- processing the block publishes goes to a subject that the stream of the publisher takes in.
  pub process_block-IsTaken :
      (n : ℕ) (block : Block) (receipts : List Receipt) (s s1 s2 : S)
      → chain.get_block n s ≡ (ok block, s1)
      → chain.get_receipts block.number s1 ≡ (ok receipts, s2)
      → (es : List Event) × (trace
            (process_block (service_processor eth cache chain db c t q) n s).1
          ≡ trace s ++ es)
        × All (λ e. matches stream_subject_pattern (subject_of e) ≡ true) es
  process_block-IsTaken n block receipts s s1 s2 eb er =
      let (es, added, few, all) =
        process_block-emits eth cache chain db c t q n block receipts s s1 s2 eb er in
      (
        es,
        added,
        All-map _ _ es
            (λ e (receipt, there, from). FromReceipt-IsTaken eth receipt n block.time e from) all,
      )
