-- ===== src/Service/Emits.antt =====
-- What the routes of the service publish for a log, for a reverted call and for a contract creation.
use Prim.Native.String.{slice, len}
use eth_tracker.Exec.{pure}
use eth_tracker.Prelude.{
  ◌≡◌, refl, String, List, [], ◌∷◌, Option, none, some, nat_eq, string_eq, ltb,
}
use eth_tracker.Prelude.Maps.{lookup, All-lookup}
use eth_tracker.Eth.{Eth}
use eth_tracker.Eth.Abi.{Hash}
use eth_tracker.Exec.Emits.{
  EmitsOne, EmitsOne-pure, EmitsOne-weaken, EmitsOne-if, EmitsOne-bind, EmitsOne-call,
}
use eth_tracker.Event.{Event, text}
use eth_tracker.Cache.{Cache}
use eth_tracker.Router.{
  Callback, LogPayload, LogRouteEntry, InputDataEntry, InputDataPayload, log_route, process_log,
  process_input_data, process_contract_creation, ContractCreationPayload,
}
use eth_tracker.Handler.Account.{handle_contract_creation}
use eth_tracker.Handler.Layouts.{LogLayout, CallLayout}
use eth_tracker.Handler.Emits.{IsTraced, IsLogEvent, IsCallEvent}
use eth_tracker.Service.Schema.{log_schema, call_schema}
use eth_tracker.Service.Routes.{bootstrap_event_router}
use eth_tracker.Service.Follows.{
  FollowsLogSchema, FollowsCallSchema, log_handlers-FollowsLogSchema,
  input_data_handlers-FollowsCallSchema,
}

-- `e` is what the schema wants for the first topic of the log of `lp`, and about that log.
abbrev pub IsScheduledLog : Eth → LogPayload → Event → Type 0
IsScheduledLog eth lp e =
    (topic : Hash) × (rest : List Hash) × (ty : String) × (layout : LogLayout) × (lp.log.topics
      ≡ topic ∷ rest)
    × (lookup topic log_schema ≡ some (ty, layout))
    × IsLogEvent eth lp ty layout e

-- `e` is what the schema wants for the selector of the reverted call `idp`, and about that call.
abbrev pub IsScheduledCall : Eth → InputDataPayload → Event → Type 0
IsScheduledCall eth idp e =
    (ty : String) × (layout : CallLayout) × (lookup (slice idp.input_data 0 8) call_schema
      ≡ some (ty, layout))
    × IsCallEvent eth idp ty layout e

pub record IsCreationEvent (ccp : ContractCreationPayload) (e : Event) : Type 0 where
  pub of_block : e.block ≡ ccp.block
  pub of_contract : e.contract_address ≡ ccp.contract_address
  pub outcome : e.success ≡ ccp.success
  pub of_time : e.timestamp ≡ ccp.timestamp
  pub of_tx : e.tx_hash ≡ ccp.tx_hash
  pub of_type : e.tx_type ≡ "CONTRACT_CREATION"
  pub of_payload : e.payload ≡ ("from", text ccp.from) ∷ []
  pub of_index : e.index ≡ 0

module _ {S : Type 0} {trace : S → List Event} (eth : Eth) (cache : Cache S) (c : Callback S)
    (t : IsTraced trace cache c) where
  log_entry-emits :
      (lp : LogPayload) (topic : Hash) (rest : List Hash)
      → lp.log.topics ≡ topic ∷ rest
      → (o : Option (LogRouteEntry S))
      → lookup topic (bootstrap_event_router eth cache c).log_handlers ≡ o
      → EmitsOne trace
          (IsScheduledLog eth lp)
          (elim o [ none ↦ pure tt | some entry ↦ entry.handler_func lp c ])
  log_entry-emits lp topic rest tops none e = EmitsOne-pure tt
  log_entry-emits lp topic rest tops (some entry) e =
      let (ty, layout, known, emits) =
        All-lookup (FollowsLogSchema trace eth c) topic entry
          (bootstrap_event_router eth cache c).log_handlers
          (log_handlers-FollowsLogSchema eth cache c t) e in
      EmitsOne-weaken (entry.handler_func lp c) (λ x d. (topic, rest, ty, layout, tops, known, d))
        (emits lp)

  topics-emits :
      (lp : LogPayload) (topics : List Hash)
      → lp.log.topics ≡ topics
      → EmitsOne trace
          (IsScheduledLog eth lp)
          (elim (log_route topics (bootstrap_event_router eth cache c)) [
            | none ↦ pure tt
            | some entry ↦ entry.handler_func lp c
          ])
  unfolding log_route
  topics-emits lp [] tops = EmitsOne-pure tt
  topics-emits lp (topic ∷ rest) tops = log_entry-emits lp topic rest tops _ refl

  -- If the callback publishes each event that it is called with, and the calls of the cache publish
  -- nothing: for a log, the routes of the service publish at most one event. That event has the type
  -- that the schema gives for the first topic of the log, and its payload has each argument of the
  -- log, as decoded by the event's signature of the schema, in the field that the schema gives for it.
  -- Its block, contract, timestamp, transaction hash and index are those of the log; it is marked
  -- successful.
  pub process_log-EmitsOne :
      (lp : LogPayload)
      → EmitsOne trace (IsScheduledLog eth lp) (process_log (bootstrap_event_router eth cache c) lp)
  unfolding process_log bootstrap_event_router
  process_log-EmitsOne lp = topics-emits lp lp.log.topics refl

  call_entry-emits :
      (idp : InputDataPayload) (o : Option (InputDataEntry S))
      → lookup (slice idp.input_data 0 8) (bootstrap_event_router eth cache c).input_data_handlers
        ≡ o
      → EmitsOne trace
          (IsScheduledCall eth idp)
          (elim o [ none ↦ pure tt | some entry ↦ entry.handler_func idp c ])
  call_entry-emits idp none e = EmitsOne-pure tt
  call_entry-emits idp (some entry) e =
      let (ty, layout, known, emits) =
        All-lookup (FollowsCallSchema trace eth c) (slice idp.input_data 0 8) entry
          (bootstrap_event_router eth cache c).input_data_handlers
          (input_data_handlers-FollowsCallSchema eth cache c t) e in
      EmitsOne-weaken (entry.handler_func idp c) (λ x d. (ty, layout, known, d)) (emits idp refl)

  -- If the callback publishes each event that it is called with, and the calls of the cache publish
  -- nothing: for a reverted call, the routes of the service publish at most one event. That event
  -- has the type that the schema gives for the selector, and each field of its payload has the value
  -- that the schema gives for it: the sender, an argument of the call as decoded by the signature of
  -- the schema, or a fixed value. Its block, contract, timestamp and transaction hash are those of the
  -- call; it is marked reverted.
  pub process_input_data-EmitsOne :
      (idp : InputDataPayload)
      → EmitsOne trace
          (IsScheduledCall eth idp)
          (process_input_data (bootstrap_event_router eth cache c) idp)
  unfolding process_input_data bootstrap_event_router
  process_input_data-EmitsOne idp =
      EmitsOne-if (ltb (len idp.input_data) 8) _ _ (EmitsOne-pure tt) (call_entry-emits idp _ refl)

  -- If the callback publishes each event that it is called with, and the calls of the cache publish
  -- nothing: for a contract creation, the routes of the service publish at most one event, of type
  -- CONTRACT_CREATION, with the block, contract, timestamp, transaction hash, outcome and sender of
  -- the payload.
  pub process_contract_creation-EmitsOne :
      (ccp : ContractCreationPayload)
      → EmitsOne trace
          (IsCreationEvent ccp)
          (process_contract_creation (bootstrap_event_router eth cache c) ccp)
  unfolding process_contract_creation bootstrap_event_router handle_contract_creation
  process_contract_creation-EmitsOne ccp =
      EmitsOne-bind (cache.add ccp.contract_address) _ (t.add_quiet ccp.contract_address) λ _.
        EmitsOne-call c _ t.callback_logs (record {
          of_block = refl;
          of_contract = refl;
          outcome = refl;
          of_time = refl;
          of_tx = refl;
          of_type = refl;
          of_payload = refl;
          of_index = refl;
        })
