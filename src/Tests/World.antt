-- ===== src/Tests/World.antt =====
-- A concrete state of the service, and the interfaces over it.
use Prim.Native.String.{len}
use eth_tracker.Prelude.{
  ℕ, ◌≡◌, refl, Bool, true, false, ◌++◌, List, [], ◌∷◌, Option, some, length, ◌==◌, nat_eq,
  bytes_eq, if◌then◌else◌,
}
use eth_tracker.Prelude.Text.{decimal}
use eth_tracker.Result.{Result, ok, err, message, ◌>>=◌}
use eth_tracker.Exec.Lens.{Lens}
use eth_tracker.Eth.{Eth, Block, Receipt}
use eth_tracker.Eth.Abi.{Hash, Log, Input, indexed, plain, Kind, address, uint256, bool, Arg, Args}
use eth_tracker.Event.{Event}
use eth_tracker.Cache.{Cache}
use eth_tracker.Cache.MapCache.{map_cache, add, remove, exists, exists_network}
use eth_tracker.Chain.{Chain}
use eth_tracker.Pool.{Pool}
use eth_tracker.Backfill.{Interval, idle}
use eth_tracker.Router.{Callback}
use eth_tracker.Handler.Emits.{IsTraced}
use eth_tracker.Processor.Marks.{Leaves}
use eth_tracker.Tests.Buckets.{Bucket}
use eth_tracker.Tests.Tracked.{Tracked, tracked_map}

pub record World : Type 0 where
  pub blocks : Option Bucket
  pub tracked : Tracked
  pub published : List Event
  pub pushed : List ℕ
  pub interval : Interval
  pub newest : ℕ
  pub connected : List ℕ

abbrev pub store : Lens World (Option Bucket)
store = record {
  get = λ w. w.blocks;
  put = λ b w. record w { blocks = b };
  get-put = λ b w. refl;
  put-get = λ w. refl;
}

abbrev pub addresses : Lens World Tracked
addresses = record {
  get = λ w. w.tracked;
  put = λ t w. record w { tracked = t };
  get-put = λ t w. refl;
  put-get = λ w. refl;
}

abbrev pub cache : Cache World
cache = map_cache tracked_map addresses

abbrev pub callback : Callback World
callback e w = (ok tt, record w { published = w.published ++ e ∷ [] })

abbrev pub trace : World → List Event
trace w = w.published

same_trace :
    (b : Bool) (p q : Result Bool) (s : World)
    → trace (if◌then◌else◌ {A = Result Bool × World} b (p, s) (q, s)).1 ≡ trace s
same_trace true p q s = refl
same_trace false p q s = refl

pub cache-IsTraced : IsTraced trace cache callback
unfolding add remove exists exists_network
cache-IsTraced = record {
  add_quiet = λ k. record { at = λ s. refl };
  remove_quiet = λ k. record { at = λ s. refl };
  exists_quiet = λ k. record { at = λ s. refl };
  network_quiet = λ k ks. record { at = λ s. same_trace _ _ _ s };
  callback_logs = λ e s. refl;
}

abbrev pub pool : Pool World
pool = record {
  push = λ n w. record w { pushed = w.pushed ++ n ∷ [] };
  size = λ w. length w.pushed;
}

abbrev pub reset : Interval → World → World
reset i w = record w { interval = i }

abbrev pub latest : ℕ → World → World
latest n w = record w { newest = n }

-- Arguments are read as one word each, those of an indexed parameter from the topics.
abbrev pub read_arg : (k : Kind) → ℕ → Arg k
read_arg address w = w
read_arg uint256 w = w
read_arg bool w = w == 1

abbrev pub decode : (is : List Input) → List ℕ → List ℕ → Result (Args is)
decode [] topics words = ok tt
decode (indexed k ∷ is) (t ∷ topics) words =
    decode is topics words >>= λ args. ok (read_arg k t, args)
decode (plain k ∷ is) topics (w ∷ words) =
    decode is topics words >>= λ args. ok (read_arg k w, args)
decode _ _ _ = err (message "arguments are missing")

abbrev pub arguments_of : List ℕ → List ℕ
arguments_of [] = []
arguments_of (_ ∷ topics) = topics

abbrev pub eth : Eth
eth = record {
  address_hex = decimal;
  hash_hex = decimal;
  bytes_hex = λ bs. if bs == (170 ∷ 12 ∷ []) then "a9059cbb0c" else "";
  hex_bytes = λ t. if len t == 10 then ok (170 ∷ 12 ∷ []) else ok [];
  zero_address = 0;
  decode_event = λ e log. decode e.inputs (arguments_of log.topics) log.data_bytes;
  decode_func = λ f words. decode f.inputs [] words;
  signer = λ tx. ok 31;
}

-- A transfer of 7 from the address 31 to the address 32, at the token 20.
abbrev pub transfer_topic : Hash
transfer_topic = 0xddf252ad1be2c89b69c2b068fc378daa952ba7f163c4a11628f55a4df523b3ef

abbrev pub transfer_log : Log
transfer_log = record {
  address = 20;
  topics = transfer_topic ∷ 31 ∷ 32 ∷ [];
  data_bytes = 7 ∷ [];
  block_number = 9;
  tx_hash = 5;
  index = 2;
}

abbrev pub transfer_receipt : Receipt
transfer_receipt = record {
  status = 1;
  logs = transfer_log ∷ [];
  contract_address = 0;
  tx_hash = 5;
}

abbrev pub block_of : ℕ → Block
block_of n = record { number = n; time = 60 }

-- A chain in which every block has these receipts.
abbrev pub chain_with : List Receipt → Chain World
chain_with receipts = record {
  get_block = λ n w. (ok (block_of n), w);
  get_latest_block = λ w. (ok 9, w);
  get_transaction = λ h w. (ok (record { to = some 20; input = 170 ∷ 12 ∷ []; chain_id = 1 }), w);
  get_receipts = λ n w. (ok receipts, w);
}

abbrev pub chain : Chain World
chain = chain_with (transfer_receipt ∷ [])

lookup_keeps :
    (P : World → Type 0) (b : Bool) (p q : Result Bool) (w : World)
    → P w
    → P (if◌then◌else◌ {A = Result Bool × World} b (p, w) (q, w)).1
lookup_keeps P true p q w h = h
lookup_keeps P false p q w h = h

-- Calls of the chain change nothing, those of the cache the tracked addresses, those of the publisher
-- the list of the events.
pub world-Leaves :
    (receipts : List Receipt) (P : World → Type 0)
    → ((a : Tracked) (w : World) → P w → P (record w { tracked = a }))
    → ((es : List Event) (w : World) → P w → P (record w { published = es }))
    → Leaves P cache (chain_with receipts) callback
unfolding add remove exists exists_network
world-Leaves receipts P tracks publishes = record {
  blocks = λ n. record { at = λ w h. h };
  receipts = λ n. record { at = λ w h. h };
  transactions = λ x. record { at = λ w h. h };
  others = record {
    adds = λ k. record { at = λ w h. tracks _ w h };
    removes = λ k. record { at = λ w h. tracks _ w h };
    lookups = λ k. record { at = λ w h. tracks _ w h };
    networks = λ k ks. record { at = λ w h. lookup_keeps P _ _ _ _ (tracks _ w h) };
    callbacks = λ e. record { at = λ w h. publishes _ w h };
  };
}

-- The token and the sender are tracked, and the store holds the blocks of its argument.
abbrev pub world : Bucket → World
world b = record {
  blocks = some b;
  tracked = (decimal 20, true) ∷ (decimal 31, true) ∷ [];
  published = [];
  pushed = [];
  interval = idle;
  newest = 0;
  connected = [];
}
