-- ===== src/Handler/Filter.antt =====
-- Which transfers are published, with the cache in memory, and what a reverted addition to an index
-- publishes.
use eth_tracker.Prelude.{
  ℕ, ◌≡◌, refl, Bool, true, false, ◌&&◌, List, [], ◌∷◌, ◌++◌, any, string_eq, if◌then◌else◌,
}
use eth_tracker.Result.{ok}
use eth_tracker.Exec.{Exec, ◌>>=◌, lift, pure}
use eth_tracker.Exec.Emits.{EmitsOne, emits_rules, EmitsOne-call}
use eth_tracker.Exec.Lens.{Lens}
use eth_tracker.Eth.{Eth}
use eth_tracker.Eth.Abi.{Address}
use eth_tracker.Event.{Event}
use eth_tracker.Cache.MapCache.{XMap, map_cache}
use eth_tracker.Cache.MapCache.Tracking.{has, exists_network-exact}
use eth_tracker.Router.{Callback, LogPayload, InputDataPayload}
use eth_tracker.Handler.{check_within_network, log_event, input_data_event, hex_value, number_value}
use eth_tracker.Handler.Transfer.{token_transfer_event, handle_token_transfer_log}
use eth_tracker.Handler.Index.{index_call, handle_index_add_input_data}

if-at :
    {S A : Type 0} (b : Bool) (m n : Exec S A) (s : S)
    → (if◌then◌else◌ {A = Exec S A} b m n) s ≡ (if b then m s else n s)
if-at true m n s = refl
if-at false m n s = refl

abbrev pub HasZeroAddress : Eth → Event → Type 0
HasZeroAddress eth e = e.payload ≡ ("address", hex_value eth 0) ∷ []

module _ {M S : Type 0} (xmap : XMap M) (state : Lens S M) (eth : Eth) (c : Callback S) where
  -- A transfer log that decodes is handed to the publisher exactly if the token is tracked and the
  -- sender or the recipient is; otherwise the handler returns and changes nothing.
  pub transfer_log-filtered :
      (lp : LogPayload) (from to : Address) (value : ℕ) (s : S)
      → eth.decode_event token_transfer_event lp.log ≡ ok (from, (to, (value, tt)))
      → handle_token_transfer_log eth (record { cache = map_cache xmap state }) lp c s ≡ (
          if has xmap state s (eth.address_hex lp.log.address)
            && any (has xmap state s) (eth.address_hex from ∷ eth.address_hex to ∷ [])
          then c
              (log_event eth lp "TOKEN_TRANSFER" (
                ("from", hex_value eth from)
                ∷ ("to", hex_value eth to)
                ∷ ("value", number_value value)
                ∷ []))
              s
          else (ok tt, s))
  unfolding handle_token_transfer_log check_within_network ◌>>=◌ lift pure
  transfer_log-filtered lp from to value s e =
      rw
        (
          e,
          exists_network-exact xmap state (eth.address_hex lp.log.address)
              (eth.address_hex from ∷ eth.address_hex to ∷ []) s,
        )
        (search if-at)

module _ {S : Type 0} {trace : S → List Event} (eth : Eth) (c : Callback S) where
  publishes-zero :
      ((e : Event) (s : S) → trace (c e s).1 ≡ trace s ++ e ∷ [])
      → (idp : InputDataPayload)
      → EmitsOne trace
          (HasZeroAddress eth)
          (c (input_data_event idp "INDEX_ADD" (("address", hex_value eth 0) ∷ [])))
  publishes-zero logs idp = EmitsOne-call c _ logs (unfold input_data_event in refl)

  -- If the callback publishes each event that it is called with, a reverted addition to an index
  -- publishes at most one event, and the address in it is the zero address, whatever the arguments
  -- of the call are.
  pub index_add_input_data-zero :
      ((e : Event) (s : S) → trace (c e s).1 ≡ trace s ++ e ∷ [])
      → (idp : InputDataPayload)
      → EmitsOne trace (HasZeroAddress eth) (handle_index_add_input_data eth idp c)
  unfolding handle_index_add_input_data index_call
  index_add_input_data-zero logs idp = search (emits_rules, publishes-zero logs) depth 9
