-- ===== src/Event/Json.antt =====
-- pkg/event/event.go: `Serialize` and `Deserialize`, by the fields of the JSON object.
use eth_tracker.Prelude.{
  ℕ, ◌<◌, ◌≡◌, refl, Bool, false, String, [], ◌∷◌, Option, none, some, map, ltb, lt→ltb, string_eq,
  if◌then◌else◌,
}
use eth_tracker.Prelude.Maps.{Map, lookup}
use eth_tracker.Result.{Result, ok, err, message, ◌>>=◌}
use eth_tracker.Db.Bytes.{u64_mod}
use eth_tracker.Eth.Abi.{Address, Bytes}
use eth_tracker.Event.{Event, Value, text, flag, raw_address}

-- The JSON values that an event has: those of its fields, and the object of its payload.
pub data Json : Type 0 where
  number : ℕ → Json
  boolean : Bool → Json
  str : String → Json
  object : Map String Value → Json

-- `encode` and `decode` are the two directions of encoding/json between objects and bytes, and
-- `address_text` is `MarshalText` of an address.
pub record Codec : Type 0 where
  pub address_text : Address → String
  pub encode : Map String Json → Result Bytes
  pub decode : Bytes → Result (Map String Json)

module _ (c : Codec) where
  -- A value of the payload as JSON, and as it is read back.
  abbrev pub plain : Value → Value
  plain (text t) = text t
  plain (flag b) = flag b
  plain (raw_address a) = text (c.address_text a)

  abbrev pub plain_entry : String × Value → String × Value
  plain_entry (key, value) = (key, plain value)

  -- The fields with their tags, without `Index`, whose tag is "-".
  abbrev pub json_fields : Event → Map String Json
  json_fields e =
      ("block", number e.block)
      ∷ ("contractAddress", str e.contract_address)
      ∷ ("success", boolean e.success)
      ∷ ("timestamp", number e.timestamp)
      ∷ ("transactionHash", str e.tx_hash)
      ∷ ("transactionType", str e.tx_type)
      ∷ ("payload", object (map plain_entry e.payload))
      ∷ []

  unfoldable pub serialize : Event → Result Bytes
  serialize e = c.encode (json_fields e)

-- A field that is missing keeps its zero value, and one of another type is an error.
abbrev mismatch : {A : Type 0} → Result A
mismatch = err (message "json: cannot unmarshal")

abbrev read_uint64 : Option Json → Result ℕ
read_uint64 none = ok 0
read_uint64 (some (number n)) = if ltb n u64_mod then ok n else mismatch
read_uint64 (some _) = mismatch

abbrev read_string : Option Json → Result String
read_string none = ok ""
read_string (some (str t)) = ok t
read_string (some _) = mismatch

abbrev read_bool : Option Json → Result Bool
read_bool none = ok false
read_bool (some (boolean b)) = ok b
read_bool (some _) = mismatch

abbrev read_payload : Option Json → Result (Map String Value)
read_payload none = ok []
read_payload (some (object entries)) = ok entries
read_payload (some _) = mismatch

unfoldable pub event_of : Map String Json → Result Event
event_of fields = do
  block ← read_uint64 (lookup "block" fields)
  contract_address ← read_string (lookup "contractAddress" fields)
  success ← read_bool (lookup "success" fields)
  timestamp ← read_uint64 (lookup "timestamp" fields)
  tx_hash ← read_string (lookup "transactionHash" fields)
  tx_type ← read_string (lookup "transactionType" fields)
  payload ← read_payload (lookup "payload" fields)
  ok (record {
    block = block;
    contract_address = contract_address;
    success = success;
    timestamp = timestamp;
    tx_hash = tx_hash;
    tx_type = tx_type;
    payload = payload;
    index = 0;
  })

unfoldable pub deserialize : Codec → Bytes → Result Event
deserialize c json_data = do fields ← c.decode json_data; event_of fields

-- If the block and the time are below 2^64, and the decoder reads the fields back that the encoder has
-- written: an event that was serialized is read back with the same block, address, success, time,
-- hash, type and payload, in which addresses have become texts, but with the index 0.
pub deserialize-serialize :
    (c : Codec) (e : Event) (json_data : Bytes)
    → e.block < u64_mod
    → e.timestamp < u64_mod
    → serialize c e ≡ ok json_data
    → ((bytes : Bytes)
        → c.encode (json_fields c e) ≡ ok bytes
        → c.decode bytes ≡ ok (json_fields c e))
    → deserialize c json_data ≡ ok (record e { payload = map (plain_entry c) e.payload; index = 0 })
unfolding serialize deserialize event_of
deserialize-serialize c e json_data small_block small_time written reads =
    rw (reads json_data written)
      (rw (lt→ltb e.block u64_mod small_block) (rw (lt→ltb e.timestamp u64_mod small_time) refl))
