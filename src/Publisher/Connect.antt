-- ===== src/Publisher/Connect.antt =====
-- internal/pub/jetstream.go: `NewJetStreamPub`, which connects and creates the stream, and `Close`.
use eth_tracker.Prelude.{
  ℕ, ℤ, pos, negsuc, ◌+◌, ◌-◌, ◌*◌, ◌%◌, String, List, [], ◌∷◌, Option, none, some,
}
use eth_tracker.Result.{Result, ok, err, panic, diverges}
use eth_tracker.Exec.{Exec, pure, ◌>>=◌, ◌>>◌, or_wrap}
use eth_tracker.Db.Bytes.{u64_mod}
use eth_tracker.Publisher.{stream_name}

abbrev pub stream_subject_pattern : String
stream_subject_pattern = "TRACKER.*"

abbrev pub stream_subjects : List String
stream_subjects = stream_subject_pattern ∷ []

abbrev pub nanoseconds_per_hour : ℕ
nanoseconds_per_hour = 3600000000000

-- 20 * time.Minute
abbrev pub duplicate_window : ℕ
duplicate_window = 1200000000000

-- time.Duration(n) * time.Hour, an int64 of nanoseconds as its residue modulo 2^64.
abbrev pub hours : ℤ → ℕ
hours (pos n) = n * nanoseconds_per_hour % u64_mod
hours (negsuc n) = (u64_mod - (n + 1) * nanoseconds_per_hour % u64_mod) % u64_mod

-- jetstream.StreamConfig, for a stream that is stored in a file.
pub record StreamConfig : Type 0 where
  pub name : String
  pub subjects : List String
  pub max_age : ℕ
  pub duplicates : ℕ

-- What is called of nats.go: `nats.Connect`, `jetstream.New`, `CreateStream`, and `Close`.
pub record Nats (S C : Type 0) : Type 0 where
  pub connect : String → Exec S C
  pub stream_context : C → Exec S (Unit {0})
  pub create_stream : C → StreamConfig → Exec S (Unit {0})
  pub close : C → S → S

abbrev pub stream_config : ℕ → StreamConfig
stream_config persist_duration = record {
  name = stream_name;
  subjects = stream_subjects;
  max_age = persist_duration;
  duplicates = duplicate_window;
}

module _ {S C : Type 0} (nats : Nats S C) where
  abbrev pub close_after : C → Result (Unit {0}) → S → Result (Unit {0}) × S
  close_after conn (ok u) s = (ok u, s)
  close_after conn (err e) s = (err e, nats.close conn s)
  close_after conn panic s = (panic, s)
  close_after conn diverges s = (diverges, s)

  -- if err != nil { natsConn.Close(); return nil, err }
  unfoldable pub closing : C → Exec S (Unit {0}) → Exec S (Unit {0})
  closing conn m s = let (r, s') = m s in close_after conn r s'

  -- `Close`; the connection of a publisher can be nil.
  abbrev pub close_pub : Option C → S → S
  close_pub none s = s
  close_pub (some conn) s = nats.close conn s

  -- The publisher that comes back holds the connection.
  unfoldable pub new_jet_stream_pub : String → ℕ → Exec S C
  new_jet_stream_pub endpoint persist_duration = do
    conn ← or_wrap "failed to connect to NATS" (nats.connect endpoint)
    closing conn (or_wrap "failed to create JetStream context" (nats.stream_context conn))
    closing conn (
        or_wrap "failed to create stream"
          (nats.create_stream conn (stream_config persist_duration)))
    pure conn
