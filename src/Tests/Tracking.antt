-- ===== src/Tests/Tracking.antt =====
-- The theorems on the cache and on the filter of transfers, applied to the concrete state.
use eth_tracker.Prelude.{◌≡◌, refl, ◌&&◌, List, [], ◌∷◌, any, if◌then◌else◌}
use eth_tracker.Prelude.Text.{decimal}
use eth_tracker.Result.{ok}
use eth_tracker.Exec.Emits.{EmitsOne}
use eth_tracker.Router.{InputDataPayload}
use eth_tracker.Cache.MapCache.{exists}
use eth_tracker.Cache.MapCache.Tracking.{
  Update, added, removed, tracked_after, has, apply_all, exists-apply_all,
}
use eth_tracker.Handler.{log_event, hex_value, number_value}
use eth_tracker.Handler.Transfer.{handle_token_transfer_log}
use eth_tracker.Handler.Index.{handle_index_add_input_data}
use eth_tracker.Handler.Filter.{transfer_log-filtered, index_add_input_data-zero, HasZeroAddress}
use eth_tracker.Tests.Tracked.{tracked_map}
use eth_tracker.Tests.World.{addresses, cache, callback, trace, eth, world, transfer_log}

abbrev updates : List Update
updates = added "40" ∷ removed "31" ∷ added "31" ∷ removed "40" ∷ []

exists-apply_all_example :
    exists tracked_map addresses "31" (apply_all tracked_map addresses updates (world [])) ≡ (
      ok (tracked_after "31" updates (has tracked_map addresses (world []) "31")),
      apply_all tracked_map addresses updates (world []),
    )
exists-apply_all_example = exists-apply_all tracked_map addresses "31" updates (world [])

transfer_log-filtered_example :
    handle_token_transfer_log eth
      (record { cache = cache })
      (record { log = transfer_log; timestamp = 60 })
      callback
      (world [])
    ≡ (if has tracked_map addresses (world []) (decimal 20)
          && any (has tracked_map addresses (world [])) (decimal 31 ∷ decimal 32 ∷ [])
        then callback
            (log_event eth
              (record { log = transfer_log; timestamp = 60 })
              "TOKEN_TRANSFER"
              (("from", hex_value eth 31)
                ∷ ("to", hex_value eth 32)
                ∷ ("value", number_value 7)
                ∷ []))
            (world [])
        else (ok tt, world []))
transfer_log-filtered_example =
    transfer_log-filtered tracked_map addresses eth callback
      (record { log = transfer_log; timestamp = 60 }) 31 32 7 (world []) refl

abbrev reverted_add : InputDataPayload
reverted_add = record {
  from = "31";
  input_data = "0a3b0a4f00";
  block = 9;
  contract_address = "20";
  timestamp = 60;
  tx_hash = "5";
}

index_add_input_data-zero_example :
    EmitsOne trace (HasZeroAddress eth) (handle_index_add_input_data eth reverted_add callback)
index_add_input_data-zero_example =
    index_add_input_data-zero eth callback (λ e s. refl) reverted_add
