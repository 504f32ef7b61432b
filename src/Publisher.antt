-- ===== src/Publisher.antt =====
-- internal/pub: the publisher to NATS JetStream (jetstream.go), as the callback of the router.
pub mod Ids
pub mod Connect
pub mod Connections
pub mod Subjects
pub mod Stream
use Prim.Native.String.{String, ◌++◌}
use eth_tracker.Prelude.{ℕ, Bool}
use eth_tracker.Prelude.Text.{decimal}
use eth_tracker.Result.{Result}
use eth_tracker.Exec.{Exec, lift, ◌>>=◌, or_wrap}
use eth_tracker.Eth.Abi.{Bytes}
use eth_tracker.Event.{Event}

abbrev pub stream_name : String
stream_name = "TRACKER"

-- A message as the stream keeps it.
pub record Message : Type 0 where
  pub subject : String
  pub content : Bytes
  pub id : String

-- `serialize` is `Event.Serialize`, one call of encoding/json, and `publish` is the call of the stream
-- with `WithMsgID`.
pub record JetStreamPub (S : Type 0) : Type 0 where
  pub serialize : Event → Result Bytes
  pub publish : Message → Exec S (Unit {0})

abbrev pub subject_of : Event → String
subject_of payload = stream_name ++ ("." ++ payload.tx_type)

abbrev pub message_id : Event → String
message_id payload = payload.tx_hash ++ (":" ++ decimal payload.index)

abbrev pub message : Event → Bytes → Message
message payload content = record {
  subject = subject_of payload;
  content = content;
  id = message_id payload;
}

module _ {S : Type 0} (p : JetStreamPub S) where
  unfoldable pub send : Event → Exec S (Unit {0})
  send payload = do
    content ← or_wrap "failed to serialize event" (lift (p.serialize payload))
    or_wrap ("failed to publish event to " ++ subject_of payload)
        (p.publish (message payload content))
