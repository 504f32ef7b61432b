-- ===== src/Handler/Emits.antt =====
-- What the event of a log, and the event of a reverted call, must say, independently of the handlers.
pub mod Logs
pub mod Calls
use mathlib.Core.Path.{◌≡◌, refl}
use Prim.Native.String.{String, slice, len}
use eth_tracker.Handler.Layouts.{
  LogLayout, CallLayout, decoded, Source, log_signature, log_values, arg_values, call_values,
  IsLogPayload, IsCallPayload,
}
use eth_tracker.Eth.Abi.{Signature, Args, Bytes}
use eth_tracker.Result.{ok, ok_injective}
use eth_tracker.Prelude.{
  ◌++◌, List, [], ◌∷◌, true, false, sym, ◌∙◌, subst, Bool-cases, inl, inr, ltb,
}
use eth_tracker.Eth.{Eth}
use eth_tracker.Exec.{Exec, lift, ◌>>=◌}
use eth_tracker.Exec.Emits.{IsQuiet, EmitsOne, EmitsOne-call, EmitsOne-lift}
use eth_tracker.Event.{Event, Value}
use eth_tracker.Cache.{Cache}
use eth_tracker.Router.{
  Callback, LogPayload, InputDataPayload, LogHandlerFunc, InputDataHandlerFunc,
}
use eth_tracker.Handler.{log_event, input_data_event, selector}

-- `e` is an event of type `ty` about the log of `lp`, and its payload has each argument of the log,
-- decoded, under the name that the layout gives for it.
pub record IsLogEvent (eth : Eth) (lp : LogPayload) (ty : String) (layout : LogLayout) (e : Event)
    : Type 0 where
  pub of_block : e.block ≡ lp.log.block_number
  pub of_contract : e.contract_address ≡ eth.address_hex lp.log.address
  pub succeeded : e.success ≡ true
  pub of_time : e.timestamp ≡ lp.timestamp
  pub of_tx : e.tx_hash ≡ eth.hash_hex lp.log.tx_hash
  pub of_type : e.tx_type ≡ ty
  pub of_payload : IsLogPayload eth lp.log layout e.payload
  pub of_index : e.index ≡ lp.log.index

-- `e` is an event of type `ty` about the reverted call of `idp`, and its payload has the values that
-- the layout gives.
pub record IsCallEvent (eth : Eth) (idp : InputDataPayload) (ty : String) (layout : CallLayout)
    (e : Event) : Type 0 where
  pub of_block : e.block ≡ idp.block
  pub of_contract : e.contract_address ≡ idp.contract_address
  pub reverted : e.success ≡ false
  pub of_time : e.timestamp ≡ idp.timestamp
  pub of_tx : e.tx_hash ≡ idp.tx_hash
  pub of_type : e.tx_type ≡ ty
  pub of_payload : IsCallPayload eth idp layout e.payload
  pub of_index : e.index ≡ 0

-- The trace of a state lists the events that the callback `c` was called on, and the calls of the
-- cache add none.
pub record IsTraced {S : Type 0} (trace : S → List Event) (cache : Cache S) (c : Callback S)
    : Type 0 where
  pub add_quiet : (k : String) → IsQuiet trace (cache.add k)
  pub remove_quiet : (k : String) → IsQuiet trace (cache.remove k)
  pub exists_quiet : (k : String) → IsQuiet trace (cache.exists k)
  pub network_quiet : (k : String) (ks : List String) → IsQuiet trace (cache.exists_network k ks)
  pub callback_logs : (e : Event) (s : S) → trace (c e s).1 ≡ trace s ++ e ∷ []

module _ {S : Type 0} (trace : S → List Event) (eth : Eth) (c : Callback S) where
  -- On every log the handler emits at most one event, of this type and with this layout.
  abbrev pub EmitsLog : String → LogLayout → LogHandlerFunc S → Type 0
  EmitsLog ty layout handler =
      (lp : LogPayload) → EmitsOne trace (IsLogEvent eth lp ty layout) (handler lp c)

  -- On every reverted call with this selector the handler emits at most one event, of this type and
  -- with this layout.
  abbrev pub EmitsCall : String → String → CallLayout → InputDataHandlerFunc S → Type 0
  EmitsCall sel ty layout handler =
      (idp : InputDataPayload)
      → slice idp.input_data 0 8 ≡ sel
      → EmitsOne trace (IsCallEvent eth idp ty layout) (handler idp c)

-- The selector that the handlers for two functions compare.
selector-slice :
    (idp : InputDataPayload) (sel found : String)
    → slice idp.input_data 0 8 ≡ sel
    → selector idp ≡ ok found
    → found ≡ sel
unfolding selector
selector-slice idp sel found is h = elim (Bool-cases (ltb (len idp.input_data) 8)) [
  | inl short ↦ cc (rw short at h)
  | inr long ↦ sym (ok_injective _ found (rw long at h)) ∙ is
]

-- The case of a handler for two functions.
pub EmitsOne-selector :
    {S : Type 0} {trace : S → List Event} {Q : Event → Type 0} (idp : InputDataPayload)
    (sel : String) (f : String → Exec S (Unit {0}))
    → slice idp.input_data 0 8 ≡ sel
    → EmitsOne trace Q (f sel)
    → EmitsOne trace Q (lift (selector idp) >>= f)
EmitsOne-selector {trace = trace} {Q = Q} idp sel f is em =
    EmitsOne-lift (selector idp) f λ found h.
      subst (λ (x : String). EmitsOne trace Q (f x)) (sym (selector-slice idp sel found is h)) em

module _ {S : Type 0} {trace : S → List Event} {cache : Cache S} (eth : Eth) (c : Callback S)
    (t : IsTraced trace cache c) where
  pub callback-log_event :
      (lp : LogPayload) (ty : String) (payload : List (String × Value)) (layout : LogLayout)
      (args : Args (log_signature layout).inputs)
      → eth.decode_event (log_signature layout) lp.log ≡ ok args
      → payload ≡ log_values eth layout.1 args
      → EmitsOne trace (IsLogEvent eth lp ty layout) (c (log_event eth lp ty payload))
  unfolding log_event
  callback-log_event lp ty payload layout args read filled =
      EmitsOne-call c (log_event eth lp ty payload) t.callback_logs (record {
        of_block = refl;
        of_contract = refl;
        succeeded = refl;
        of_time = refl;
        of_tx = refl;
        of_type = refl;
        of_payload = (args, read, filled);
        of_index = refl;
      })

  pub callback-input_data_event :
      (idp : InputDataPayload) (ty : String) (payload : List (String × Value)) (layout : CallLayout)
      → IsCallPayload eth idp layout payload
      → EmitsOne trace (IsCallEvent eth idp ty layout) (c (input_data_event idp ty payload))
  unfolding input_data_event
  callback-input_data_event idp ty payload layout filled =
      EmitsOne-call c (input_data_event idp ty payload) t.callback_logs (record {
        of_block = refl;
        of_contract = refl;
        reverted = refl;
        of_time = refl;
        of_tx = refl;
        of_type = refl;
        of_payload = filled;
        of_index = refl;
      })

  -- The same for a payload with decoded arguments.
  pub callback-decoded :
      (idp : InputDataPayload) (ty : String) (payload : List (String × Value)) (sig : Signature)
      (fields : List (String × Source)) (input : Bytes) (args : Args sig.inputs)
      → eth.hex_bytes idp.input_data ≡ ok input
      → eth.decode_func sig input ≡ ok args
      → payload ≡ call_values eth idp (arg_values eth sig.inputs args) fields
      → EmitsOne trace
          (IsCallEvent eth idp ty (decoded sig fields))
          (c (input_data_event idp ty payload))
  callback-decoded idp ty payload sig fields input args hex read filled =
      callback-input_data_event idp ty payload (decoded sig fields) (input, args, hex, read, filled)
