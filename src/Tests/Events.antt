-- ===== src/Tests/Events.antt =====
-- The theorems on the routes and on the events of a block, applied to one transfer.
use eth_tracker.Prelude.{All, ◌++◌, ◌≡◌, refl, ap, inl, Bool, true, List, [], ◌∷◌, total}
use eth_tracker.Exec.Emits.{EmitsOne}
use eth_tracker.Exec.EmitsMany.{Extends}
use eth_tracker.Exec.Lens.{zoom}
use eth_tracker.Router.{LogPayload, InputDataPayload, process_log, process_input_data, log_route}
use eth_tracker.Prelude.Text.{decimal, decimal_fuel}
use eth_tracker.Result.{Result, ok}
use eth_tracker.Exec.{pure, lift, ◌>>=◌, or_wrap, or_wrap_unless_canceled, for_each}
use eth_tracker.Cache.MapCache.{exists, exists_network, any_tracked}
use eth_tracker.Db.{Db}
use eth_tracker.Db.Bolt.{bolt_db, set_value, set_uint64_as_key, update}
use eth_tracker.Db.Bytes.{marshal_uint64, put_be}
use eth_tracker.Processor.{
  Processor, process_block, process_receipts, process_receipt_of, process_receipt,
  process_successful_receipt, process_log_of,
}
use eth_tracker.Processor.Visits.{Grown, process_block-visits}
use eth_tracker.Processor.Receipts.{IsSilent, receipt_bound, service_processor}
use eth_tracker.Event.{Event}
use eth_tracker.Publisher.{subject_of}
use eth_tracker.Publisher.Connect.{stream_subject_pattern}
use eth_tracker.Publisher.Subjects.{matches}
use eth_tracker.Processor.Subjects.{process_block-IsTaken}
use eth_tracker.Processor.Emits.{FromBlock, process_block-emits}
use eth_tracker.Service.Shadowed.{process_input_data-register}
use eth_tracker.Handler.Account.{handle_custodial_registration_input_data}
use eth_tracker.Handler.{check_within_network, log_event}
use eth_tracker.Handler.Transfer.{handle_token_transfer_log}
use eth_tracker.Service.Routes.{bootstrap_event_router}
use eth_tracker.Service.Emits.{
  IsScheduledLog, IsScheduledCall, process_log-EmitsOne, process_input_data-EmitsOne,
}
use eth_tracker.Tests.BitLists.{bit_lists}
use eth_tracker.Tests.Buckets.{buckets}
use eth_tracker.Tests.World.{
  World, store, cache, callback, trace, cache-IsTraced, eth, chain, world, transfer_log,
  transfer_receipt, block_of,
}

abbrev transfer_payload : LogPayload
transfer_payload = record { log = transfer_log; timestamp = 60 }

process_log-EmitsOne_example :
    EmitsOne trace
      (IsScheduledLog eth transfer_payload)
      (process_log (bootstrap_event_router eth cache callback) transfer_payload)
process_log-EmitsOne_example =
    process_log-EmitsOne eth cache callback cache-IsTraced transfer_payload

abbrev reverted_transfer : InputDataPayload
reverted_transfer = record {
  from = "31";
  input_data = "a9059cbb0c";
  block = 9;
  contract_address = "20";
  timestamp = 60;
  tx_hash = "5";
}

process_input_data-EmitsOne_example :
    EmitsOne trace
      (IsScheduledCall eth reverted_transfer)
      (process_input_data (bootstrap_event_router eth cache callback) reverted_transfer)
process_input_data-EmitsOne_example =
    process_input_data-EmitsOne eth cache callback cache-IsTraced reverted_transfer

abbrev db : Db World (List Bool)
db = bolt_db buckets store bit_lists

chain-IsSilent : IsSilent trace chain db
unfolding zoom
chain-IsSilent = record {
  block_quiet = λ n. record { at = λ s. refl };
  transaction_quiet = λ h. record { at = λ s. refl };
  receipts_quiet = λ n. record { at = λ s. refl };
  value_quiet = λ n. record { at = λ s. refl };
}

process_block-emits_example :
    Extends
      (total receipt_bound (transfer_receipt ∷ []))
      (FromBlock eth cache chain db callback cache-IsTraced chain-IsSilent 9
        (block_of 9)
        (transfer_receipt ∷ []))
      (trace (world []))
      (trace
        (process_block
          (service_processor eth cache chain db callback cache-IsTraced chain-IsSilent)
          9
          (world [])).1)
process_block-emits_example =
    process_block-emits eth cache chain db callback cache-IsTraced chain-IsSilent 9 (block_of 9)
      (transfer_receipt ∷ []) (world []) (world []) (world []) refl refl

process_block-IsTaken_example :
    (es : List Event) × (trace
        (process_block
          (service_processor eth cache chain db callback cache-IsTraced chain-IsSilent)
          9
          (world [])).1
      ≡ [] ++ es)
    × All (λ e. matches stream_subject_pattern (subject_of e) ≡ true) es
process_block-IsTaken_example =
    process_block-IsTaken eth cache chain db callback cache-IsTraced chain-IsSilent 9 (block_of 9)
      (transfer_receipt ∷ []) (world []) (world []) (world []) refl refl

abbrev reverted_registration : InputDataPayload
reverted_registration = record {
  from = "31";
  input_data = "4420e48600";
  block = 9;
  contract_address = "20";
  timestamp = 60;
  tx_hash = "5";
}

process_input_data-register_example :
    process_input_data (bootstrap_event_router eth cache callback) reverted_registration
    ≡ handle_custodial_registration_input_data eth reverted_registration callback
process_input_data-register_example =
    process_input_data-register eth cache callback reverted_registration refl refl

abbrev silent : Processor World (List Bool)
silent = service_processor eth cache chain db callback cache-IsTraced chain-IsSilent

processes : (process_block silent 9 (world [])).0 ≡ ok tt
unfolding process_block process_receipts process_receipt_of process_receipt
    process_successful_receipt process_log_of process_log log_route bootstrap_event_router
    handle_token_transfer_log check_within_network log_event decimal decimal_fuel or_wrap
    or_wrap_unless_canceled for_each pure lift ◌>>=◌ zoom exists exists_network any_tracked
    set_value set_uint64_as_key update marshal_uint64 put_be
processes = refl

process_block-visits_example :
    (m : World) × (m' : World) × Grown (trace (world [])) (trace m)
    × (process_log_of silent transfer_receipt 60 transfer_log m ≡ (ok tt, m'))
    × Grown (trace m') (trace (process_block silent 9 (world [])).1)
process_block-visits_example =
    process_block-visits eth cache chain db callback cache-IsTraced chain-IsSilent 9 (block_of 9)
      (transfer_receipt ∷ []) transfer_receipt transfer_log (world []) (world []) (world [])
      (process_block silent 9 (world [])).1 refl refl
      (ap (λ (r : Result (Unit {0})). (r, (process_block silent 9 (world [])).1)) processes)
      (inl refl) refl (inl refl)
