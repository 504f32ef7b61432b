-- ===== src/Handler/Layouts.antt =====
-- The layout of a payload: which argument of the log or call, or which other value, stands under which
-- name. It is the language of the contract with the consumers of the events.
use eth_tracker.Prelude.{ℕ, zero, suc, ◌≡◌, String, List, [], ◌∷◌, map}
use eth_tracker.Prelude.Text.{decimal}
use eth_tracker.Result.{ok}
use eth_tracker.Eth.{Eth}
use eth_tracker.Eth.Abi.{
  Kind, address, uint256, bool, Input, kind, Arg, Args, Signature, Log, Bytes,
}
use eth_tracker.Event.{Value, text, flag, raw_address}
use eth_tracker.Router.{InputDataPayload}

-- How a decoded argument is shown: an address in hexadecimal, a number in decimal.
abbrev pub arg_value : Eth → (k : Kind) → Arg k → Value
arg_value eth address a = text (eth.address_hex a)
arg_value eth uint256 n = text (decimal n)
arg_value eth bool b = flag b

-- The name of the event in Solidity, and the payload field of each of its arguments, in order.
abbrev pub LogLayout : Type 0
LogLayout = String × List (String × Input)

abbrev pub input_of : String × Input → Input
input_of (_, i) = i

abbrev pub log_signature : LogLayout → Signature
log_signature (name, fields) = record { name = name; inputs = map input_of fields }

abbrev pub log_values :
    Eth → (fields : List (String × Input)) → Args (map input_of fields) → List (String × Value)
log_values eth [] u = []
log_values eth ((field, i) ∷ fields) (a, args) =
    (field, arg_value eth (kind i) a) ∷ log_values eth fields args

abbrev pub IsLogPayload : Eth → Log → LogLayout → List (String × Value) → Type 0
IsLogPayload eth log layout payload =
    (args : Args (log_signature layout).inputs) × (eth.decode_event (log_signature layout) log
      ≡ ok args)
    × (payload ≡ log_values eth layout.1 args)

-- Where a payload field of a reverted call comes from: the sender, an argument by its position, or a
-- value that stands in for what a reverted call does not tell.
pub data Source : Type 0 where
  sender : Source
  argument : ℕ → Source
  no_amount : Source
  no_token : Source
  unset : Source

-- The signature by which the arguments are decoded, if they are, and the payload fields.
pub data CallLayout : Type 0 where
  undecoded : List (String × Source) → CallLayout
  decoded : Signature → List (String × Source) → CallLayout

abbrev pub arg_values : Eth → (is : List Input) → Args is → List Value
arg_values eth [] u = []
arg_values eth (i ∷ is) (a, args) = arg_value eth (kind i) a ∷ arg_values eth is args

abbrev pub nth_value : List Value → ℕ → Value
nth_value [] n = text ""
nth_value (v ∷ values) zero = v
nth_value (v ∷ values) (suc n) = nth_value values n

abbrev pub source_value : Eth → InputDataPayload → List Value → Source → Value
source_value eth idp values sender = text idp.from
source_value eth idp values (argument n) = nth_value values n
source_value eth idp values no_amount = text "0"
source_value eth idp values no_token = raw_address eth.zero_address
source_value eth idp values unset = text (eth.address_hex 0)

abbrev pub call_values :
    Eth → InputDataPayload → List Value → List (String × Source) → List (String × Value)
call_values eth idp values [] = []
call_values eth idp values ((field, source) ∷ fields) =
    (field, source_value eth idp values source) ∷ call_values eth idp values fields

abbrev pub IsCallPayload : Eth → InputDataPayload → CallLayout → List (String × Value) → Type 0
IsCallPayload eth idp (undecoded fields) payload = payload ≡ call_values eth idp [] fields
IsCallPayload eth idp (decoded sig fields) payload =
    (input : Bytes) × (args : Args sig.inputs) × (eth.hex_bytes idp.input_data ≡ ok input)
    × (eth.decode_func sig input ≡ ok args)
    × (payload ≡ call_values eth idp (arg_values eth sig.inputs args) fields)
