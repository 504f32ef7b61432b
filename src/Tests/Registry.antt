-- ===== src/Tests/Registry.antt =====
-- A registry on the chain of the tests, with one index of accounts.
use eth_tracker.Prelude.{
  ◌<◌, ◌≡◌, String, List, [], ◌∷◌, Option, none, some, length, arith, string_eq, ◌==◌,
  if◌then◌else◌,
}
use eth_tracker.Prelude.Maps.{Map}
use eth_tracker.Result.{Result, ok}
use eth_tracker.Eth.Abi.{Address}
use eth_tracker.Exec.Keeps.{Keeps}
use eth_tracker.Cache.Bootstrap.{Registries}
use eth_tracker.Cache.Bootstrap.Keeps.{ChainKeeps}
use eth_tracker.Tests.World.{World}

abbrev hex_to_address : String → Address
hex_to_address t = if t == "25" then 25 else if t == "20" then 20 else 26

abbrev pub entries : Map String Address
entries = ("AccountIndex", 40) ∷ ("Faucet", 41) ∷ []

abbrev next :
    List (List Address) → World → Result (Option (List Address) × List (List Address)) × World
next [] w = (ok (none, []), w)
next (batch ∷ batches) w = (ok (some batch, batches), w)

pub next-shorter :
    (it it' : List (List Address)) (batch : List Address) (w : World)
    → (next it w).0 ≡ ok (some batch, it')
    → length it' < length it
next-shorter [] it' batch w h = cc h
next-shorter (b ∷ bs) it' batch w h = ground arith

abbrev pub registry : Registries World (List (List Address))
registry = record {
  hex_to_address = hex_to_address;
  custodial_proxy = "CustodialProxy";
  account_index = "AccountIndex";
  token_index = "TokenIndex";
  pool_index = "PoolIndex";
  registry_map = λ a w. (ok entries, w);
  system_account = λ a w. (ok 50, w);
  tokens_and_quoter = λ a w. (ok (51, 52), w);
  new_batch_iterator = λ a w. (ok ((42 ∷ []) ∷ (0 ∷ 43 ∷ []) ∷ []), w);
  next = next;
  remaining = length;
  next-remaining = next-shorter;
}

batches-Keep : {P : World → Type 0} (it : List (List Address)) → Keeps P (registry.next it)
batches-Keep [] = record { at = λ s h. h }
batches-Keep (b ∷ bs) = record { at = λ s h. h }

-- The calls do not change the state.
pub registry-ChainKeeps : {P : World → Type 0} → ChainKeeps P registry
registry-ChainKeeps = record {
  maps = λ a. record { at = λ s h. h };
  accounts = λ a. record { at = λ s h. h };
  pools = λ a. record { at = λ s h. h };
  iterators = λ a. record { at = λ s h. h };
  batches = batches-Keep;
}
