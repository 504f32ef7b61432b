-- ===== src/Router/Dispatch.antt =====
-- What holds of every registered handler, and of doing nothing, holds of the dispatch.
use Prim.Native.String.{len, slice}
use eth_tracker.Prelude.{
  ◌≡◌, refl, List, [], ◌∷◌, Option, none, some, String, All, ltb, Bool-cases, inl, inr, nat_eq,
  string_eq, false,
}
use eth_tracker.Prelude.Maps.{lookup, All-lookup}
use eth_tracker.Exec.{Exec, pure}
use eth_tracker.Eth.Abi.{Hash}
use eth_tracker.Router.{
  Router, LogPayload, LogRouteEntry, InputDataEntry, InputDataPayload, log_route, process_log,
  process_input_data,
}

module _ {S : Type 0} (Q : Exec S (Unit {0}) → Type 0) (idle : Q (pure tt)) (r : Router S) where
  abbrev pub LogEntryHas : LogPayload → Hash × LogRouteEntry S → Type 0
  LogEntryHas lp (_, entry) = Q (entry.handler_func lp r.callback_fn)

  -- A handler is called only with input data that has a selector.
  abbrev pub CallEntryHas : InputDataPayload → String × InputDataEntry S → Type 0
  CallEntryHas idp (_, entry) =
      ltb (len idp.input_data) 8 ≡ false → Q (entry.handler_func idp r.callback_fn)

  log_entry-has :
      (lp : LogPayload) (topic : Hash) (o : Option (LogRouteEntry S))
      → All (LogEntryHas lp) r.log_handlers
      → lookup topic r.log_handlers ≡ o
      → Q (elim o [ none ↦ pure tt | some entry ↦ entry.handler_func lp r.callback_fn ])
  log_entry-has lp topic none all e = idle
  log_entry-has lp topic (some entry) all e =
      All-lookup (LogEntryHas lp) topic entry r.log_handlers all e

  topics-have :
      (lp : LogPayload) (topics : List Hash)
      → All (LogEntryHas lp) r.log_handlers
      → Q (elim (log_route topics r) [
        | none ↦ pure tt
        | some entry ↦ entry.handler_func lp r.callback_fn
      ])
  unfolding log_route
  topics-have lp [] all = idle
  topics-have lp (topic ∷ _) all = log_entry-has lp topic _ all refl

  pub process_log-has :
      (lp : LogPayload) → All (LogEntryHas lp) r.log_handlers → Q (process_log r lp)
  unfolding process_log
  process_log-has lp all = topics-have lp lp.log.topics all

  call_entry-has :
      (idp : InputDataPayload) (o : Option (InputDataEntry S))
      → ltb (len idp.input_data) 8 ≡ false
      → All (CallEntryHas idp) r.input_data_handlers
      → lookup (slice idp.input_data 0 8) r.input_data_handlers ≡ o
      → Q (elim o [ none ↦ pure tt | some entry ↦ entry.handler_func idp r.callback_fn ])
  call_entry-has idp none long all e = idle
  call_entry-has idp (some entry) long all e =
      All-lookup (CallEntryHas idp) (slice idp.input_data 0 8) entry r.input_data_handlers all e
        long

  pub process_input_data-has :
      (idp : InputDataPayload)
      → All (CallEntryHas idp) r.input_data_handlers
      → Q (process_input_data r idp)
  unfolding process_input_data
  process_input_data-has idp all = elim (Bool-cases (ltb (len idp.input_data) 8)) [
    | inl short ↦ rw short idle
    | inr long ↦ rw long (call_entry-has idp _ long all refl)
  ]
