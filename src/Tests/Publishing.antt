-- ===== src/Tests/Publishing.antt =====
-- The theorems on the publisher, applied to a stream that is a list of messages.
use eth_tracker.Prelude.{
  Bool-cases, inl, inr, ◌≡◌, ◌↔◌, refl, ap, sym, ◌∙◌, String, Bool, true, false, ◌||◌, List, [],
  ◌∷◌, ◌++◌, map, ◌==◌, nat_eq, arith, string_eq, if◌then◌else◌,
}
use eth_tracker.Prelude.Text.{decimal}
use eth_tracker.Result.{Result, ok}
use eth_tracker.Exec.{lift, pure, ◌>>=◌, or_wrap, for_each}
use eth_tracker.Event.{Event}
use eth_tracker.Publisher.{JetStreamPub, Message, message, message_id, send}
use eth_tracker.Publisher.Ids.{message_id_injective}
use eth_tracker.Publisher.Stream.{
  Deduplicates, fresh, ids, send_all, send_all-fresh, send_all-again,
}

abbrev Stream : Type 0
Stream = List Message

abbrev knows : Stream → String → Bool
knows [] id = false
knows (m ∷ ms) id = id == m.id || knows ms id

abbrev publish : Message → Stream → Result (Unit {0}) × Stream
publish m s = (ok tt, if knows s m.id then s else s ++ m ∷ [])

abbrev js : JetStreamPub Stream
js = record { serialize = λ e. ok []; publish = publish }

knows-append :
    (s : Stream) (m : Message) (id : String) → knows (s ++ m ∷ []) id ≡ (id == m.id || knows s id)
knows-append [] m id = refl
knows-append (x ∷ s) m id = ground (arith, knows-append s m id)

known_already :
    (s : Stream) (m : Message) (id : String)
    → knows s m.id ≡ true
    → knows s id ≡ (id == m.id || knows s id)
known_already s m id known = elim (Bool-cases (id == m.id)) [
  | inl same ↦ rw same (ap (knows s) ((string_eq.beq_iff id m.id).0 same) ∙ known)
  | inr other ↦ rw other refl
]

knows-publish :
    (m : Message) (s : Stream) (id : String) → knows (publish m s).1 id ≡ (id == m.id || knows s id)
knows-publish m s id = elim (Bool-cases (knows s m.id)) [
  | inl known ↦ rw known (known_already s m id known)
  | inr unknown ↦ rw unknown (knows-append s m id)
]

abbrev deduplicates : Deduplicates js
deduplicates = record {
  stored = λ s. s;
  is_known = knows;
  publish-drops =
      λ m s s' known h. sym (ap (λ (r : Result (Unit {0}) × Stream). r.1) (rw known at h));
  publish-stores =
      λ m s s' unknown h. sym (ap (λ (r : Result (Unit {0}) × Stream). r.1) (rw unknown at h));
  publish-knows = λ m s s' h id.
      ap (λ (r : Result (Unit {0}) × Stream). knows r.1 id) (sym h) ∙ knows-publish m s id;
}

-- The first log of the transaction that creates a contract, and the event of the creation.
abbrev of_log : Event
of_log = record {
  block = 9;
  contract_address = "20";
  success = true;
  timestamp = 60;
  tx_hash = "5";
  tx_type = "TOKEN_TRANSFER";
  payload = [];
  index = 0;
}

abbrev of_creation : Event
of_creation = record of_log { tx_type = "CONTRACT_CREATION" }

abbrev both : List Event
both = of_log ∷ of_creation ∷ []

message_id_injective_example :
    (message_id of_log ≡ message_id of_creation)
    ↔ ((of_log.tx_hash ≡ of_creation.tx_hash) × (of_log.index ≡ of_creation.index))
message_id_injective_example = message_id_injective of_log of_creation

abbrev sent : Stream
sent = (send_all js both []).1

sends : (send_all js both []).0 ≡ ok tt
unfolding for_each send or_wrap lift pure ◌>>=◌ decimal
sends = refl

sends_again : (send_all js both sent).0 ≡ ok tt
unfolding for_each send or_wrap lift pure ◌>>=◌ decimal
sends_again = refl

-- The stream has taken the event of the contract creation for a repetition.
loses_creation : sent ≡ message of_log [] ∷ []
unfolding for_each send or_wrap lift pure ◌>>=◌ decimal
loses_creation = refl

send_all-fresh_example : ids sent ≡ fresh (knows []) (map message_id both)
send_all-fresh_example =
    send_all-fresh js deduplicates both [] sent (ap (λ (r : Result (Unit {0})). (r, sent)) sends)

send_all-again_example : (send_all js both sent).1 ≡ sent
send_all-again_example =
    send_all-again js deduplicates both [] sent (send_all js both sent).1
      (ap (λ (r : Result (Unit {0})). (r, sent)) sends)
      (ap (λ (r : Result (Unit {0})). (r, (send_all js both sent).1)) sends_again)
