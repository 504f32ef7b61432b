-- ===== src/Tests/Configuring.antt =====
-- The theorems on the configuration and on the JSON of events, applied to concrete texts.
use eth_tracker.Prelude.{
  ℕ, ◌&&◌, ◌+◌, ◌≡◌, refl, true, [], ◌∷◌, ◌++◌, map, leb, nat_eq, arith, if◌then◌else◌,
}
use eth_tracker.Prelude.Codes.{codes}
use eth_tracker.Prelude.Text.{decimal}
use eth_tracker.Result.{ok}
use eth_tracker.Config.Env.{Text, env_prefix, underscore, dot, replace_nested, env_key, env_value}
use eth_tracker.Config.Env.Keys.{env_key-nested}
use eth_tracker.Config.Env.Values.{IsValue, env_value-IsValue}
use eth_tracker.Event.{Event, raw_address, flag}
use eth_tracker.Event.Json.{
  Codec, json_fields, plain_entry, serialize, deserialize, deserialize-serialize,
}

-- Of the letters, those of ASCII.
abbrev lower : ℕ → ℕ
lower c = if leb 65 c && leb c 90 then c + 32 else c

env_key-nested_example :
    env_key lower (env_prefix ++ codes "CORE" ++ underscore ∷ underscore ∷ codes "POOL_SIZE")
    ≡ map lower (codes "CORE") ++ dot ∷ replace_nested (map lower (codes "POOL_SIZE"))
env_key-nested_example =
    env_key-nested lower (codes "CORE") (codes "POOL_SIZE") (λ c. ground arith) refl

abbrev two_addresses : Text
two_addresses = codes "0x1 0x2"

env_value-IsValue_example : IsValue two_addresses (env_value two_addresses)
env_value-IsValue_example = env_value-IsValue two_addresses

abbrev sealed : Event
sealed = record {
  block = 9;
  contract_address = "20";
  success = true;
  timestamp = 60;
  tx_hash = "5";
  tx_type = "QUOTER_UPDATED";
  payload = ("newQuoter", raw_address 31) ∷ ("final", flag true) ∷ [];
  index = 2;
}

-- A codec for this one event.
abbrev codec : Codec
codec = record {
  address_text = decimal;
  encode = λ fields. ok (123 ∷ 125 ∷ []);
  decode = λ bytes. ok (
      json_fields (record { address_text = decimal; encode = λ f. ok []; decode = λ b. ok [] })
        sealed);
}

deserialize-serialize_example :
    deserialize codec (123 ∷ 125 ∷ [])
    ≡ ok (record sealed { payload = map (plain_entry codec) sealed.payload; index = 0 })
unfolding serialize
deserialize-serialize_example =
    deserialize-serialize codec sealed (123 ∷ 125 ∷ []) (omega arith) (omega arith) refl
      (λ bytes written. refl)
