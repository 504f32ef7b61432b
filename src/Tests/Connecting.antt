-- ===== src/Tests/Connecting.antt =====
-- The theorems on the connection of the publisher, applied to a server that refuses a stream whose
-- messages never expire.
use eth_tracker.Prelude.{
  ℕ, ◌+◌, ◌<◌, ◌≡◌, refl, sym, ap, ◌∙◌, false, not, ◌&&◌, ◌||◌, String, List, [], ◌∷◌, contains,
  ◌==◌, nat_eq, arith, if◌then◌else◌, pos, some,
}
use eth_tracker.Result.{Result, Error, ok, err, message, ok_injective}
use eth_tracker.Exec.{pure, ◌>>=◌, or_wrap}
use eth_tracker.Exec.Ends.{HasEnded-ok, HasEnded-err, HasEnded-if}
use eth_tracker.Tests.World.{World, world}
use eth_tracker.Publisher.Connect.{Nats, hours, new_jet_stream_pub, closing, close_pub}
use eth_tracker.Publisher.Connections.{
  Connections, holds, new_jet_stream_pub-open, close_pub-new_jet_stream_pub,
}

-- The open connections, by their numbers.
abbrev Open : Type 0
Open = List ℕ

abbrev next_number : Open → ℕ
next_number [] = 0
next_number (c ∷ cs) = c + next_number cs + 1

abbrev without : ℕ → Open → Open
without c [] = []
without c (k ∷ cs) = let rest = without c cs in if c == k then rest else k ∷ rest

abbrev connect : String → World → Result ℕ × World
connect endpoint w =
    (ok (next_number w.connected), record w { connected = next_number w.connected ∷ w.connected })

abbrev pub nats : Nats World ℕ
nats = record {
  connect = connect;
  stream_context = λ c w. (ok tt, w);
  create_stream =
      λ c config w. (if config.max_age == 0 then err (message "no expiry") else ok tt, w);
  close = λ c w. record w { connected = without c w.connected };
}

all_below : (s : Open) (n : ℕ) → next_number s < n + 1 → contains s n ≡ false
all_below [] n h = refl
all_below (c ∷ cs) n h = ground (arith, all_below cs n (omega arith))

pub without-contains :
    (c k : ℕ) (s : Open) → contains (without c s) k ≡ (not (c == k) && contains s k)
without-contains c k [] = ground arith
without-contains c k (x ∷ s) = ground (arith, without-contains c k s)

number_of :
    (endpoint : String) (c : ℕ) (s s' : World)
    → nats.connect endpoint s ≡ (ok c, s')
    → next_number s.connected ≡ c
number_of endpoint c s s' h = ok_injective _ c (ap (λ (p : Result ℕ × World). p.0) h)

pub connect-opens_lem :
    (endpoint : String) (c k : ℕ) (s s' : World)
    → nats.connect endpoint s ≡ (ok c, s')
    → contains s'.connected k ≡ (c == k || contains s.connected k)
connect-opens_lem endpoint c k s s' h =
    ap (λ (p : Result ℕ × World). contains p.1.connected k) (sym h)
    ∙ ap (λ x. x == k || contains s.connected k) (number_of endpoint c s s' h)

pub connect-new_lem :
    (endpoint : String) (c : ℕ) (s s' : World)
    → nats.connect endpoint s ≡ (ok c, s')
    → contains s.connected c ≡ false
connect-new_lem endpoint c s s' h =
    ap (contains s.connected) (sym (number_of endpoint c s s' h))
    ∙ all_below s.connected _ (omega arith)

pub never_fails :
    (endpoint : String) (x : Error) (k : ℕ) (s s' : World)
    → nats.connect endpoint s ≡ (err x, s')
    → contains s'.connected k ≡ contains s.connected k
never_fails endpoint x k s s' h = cc (ap (λ (p : Result ℕ × World). p.0) h)

abbrev pub connections : Connections nats
connections = record {
  is_open = λ w. contains w.connected;
  connect-opens = connect-opens_lem;
  connect-new = connect-new_lem;
  connect-fails = never_fails;
  context-keeps = λ c k s. refl;
  create-keeps = λ c k config s. refl;
  close-closes = λ c k s. without-contains c k s.connected;
  connects = λ endpoint. record { at = λ s. HasEnded-ok _ };
  contexts = λ c. record { at = λ s. HasEnded-ok _ };
  creates = λ c config. record { at = λ s. HasEnded-if _ _ _ (HasEnded-err _) (HasEnded-ok _) };
}

abbrev one_open : World
one_open = record (world []) { connected = 0 ∷ [] }

-- A stream is refused while the connection 0 is open.
new_jet_stream_pub-open_example :
    connections.is_open (new_jet_stream_pub nats "nats" 0 one_open).1 1
    ≡ (holds (new_jet_stream_pub nats "nats" 0 one_open).0 1 || connections.is_open one_open 1)
new_jet_stream_pub-open_example = new_jet_stream_pub-open nats connections "nats" 0 1 one_open

abbrev both_open : World
both_open = record (world []) { connected = 1 ∷ 0 ∷ [] }

opens : new_jet_stream_pub nats "nats" (hours (pos 48)) one_open ≡ (ok 1, both_open)
unfolding new_jet_stream_pub closing or_wrap pure ◌>>=◌
opens = refl

close_pub-new_jet_stream_pub_example :
    connections.is_open (close_pub nats (some 1) both_open) 0 ≡ connections.is_open one_open 0
close_pub-new_jet_stream_pub_example =
    close_pub-new_jet_stream_pub nats connections "nats" (hours (pos 48)) 1 0 one_open both_open
      opens
