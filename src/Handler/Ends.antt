-- ===== src/Handler/Ends.antt =====
-- When a handler comes back: neither it nor a loop in it panics or runs forever.
pub mod Logs
pub mod Calls
use Prim.Native.String.{String, len}
use eth_tracker.Prelude.{ℕ, ◌≡◌, refl, Bool, true, false, List, ltb, if◌then◌else◌}
use eth_tracker.Result.{Result, ok, panic}
use eth_tracker.Exec.{lift}
use eth_tracker.Exec.Ends.{Ends, Ends-lift, HasEnded, HasEnded-ok}
use eth_tracker.Eth.{Eth}
use eth_tracker.Eth.Abi.{Signature, Log, Bytes}
use eth_tracker.Event.{Event}
use eth_tracker.Cache.{Cache}
use eth_tracker.Router.{Callback, InputDataPayload}
use eth_tracker.Handler.{selector}

-- The calls of the cache, the decoding of arguments and the callback come back.
pub record Answers {S : Type 0} (dying : Bool) (eth : Eth) (cache : Cache S) (c : Callback S)
    : Type 0 where
  pub adds : (k : String) → Ends dying (cache.add k)
  pub removes : (k : String) → Ends dying (cache.remove k)
  pub lookups : (k : String) → Ends dying (cache.exists k)
  pub networks : (k : String) (ks : List String) → Ends dying (cache.exists_network k ks)
  pub events : (e : Signature) (log : Log) → HasEnded dying (eth.decode_event e log)
  pub functions : (f : Signature) (input : Bytes) → HasEnded dying (eth.decode_func f input)
  pub callbacks : (e : Event) → Ends dying (c e)

-- The input data has a selector, and is hexadecimal.
pub record IsReadable (dying : Bool) (eth : Eth) (idp : InputDataPayload) : Type 0 where
  pub hexadecimal : HasEnded dying (eth.hex_bytes idp.input_data)
  pub selects : HasEnded dying (selector idp)

module _ {S : Type 0} {dying : Bool} (eth : Eth) (idp : InputDataPayload) where
  pub hex_bytes-Ends :
      IsReadable dying eth idp → Ends {S = S} dying (lift (eth.hex_bytes idp.input_data))
  hex_bytes-Ends readable = Ends-lift _ readable.hexadecimal

  pub selector-Ends : IsReadable dying eth idp → Ends {S = S} dying (lift (selector idp))
  selector-Ends readable = Ends-lift _ readable.selects

pub selector-HasEnded :
    {dying : Bool} (idp : InputDataPayload)
    → ltb (len idp.input_data) 8 ≡ false
    → HasEnded dying (selector idp)
unfolding selector
selector-HasEnded idp long = rw long (HasEnded-ok _)
