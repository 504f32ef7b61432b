-- ===== src/Publisher/Stream.antt =====
-- What the stream holds after events were sent to it.
use mathlib.Core.Path.{fun_ext}
use mathlib.Core.List.{map-append}
use eth_tracker.Prelude.{
  ◌≡◌, refl, sym, ap, ◌∙◌, arith, String, subst, Bool, true, false, ◌||◌, List, [], ◌∷◌, ◌++◌, map,
  append-nil, append_assoc, arith, All, All-map, inl, inr, Bool-cases, ◌==◌, string_eq, ==_refl,
  if◌then◌else◌,
}
use eth_tracker.Result.{Result, ok}
use eth_tracker.Exec.{Exec, pure, lift, for_each}
use eth_tracker.Exec.Inversion.{>>=-returns, or_wrap-returns, for_each-returns}
use eth_tracker.Eth.Abi.{Bytes}
use eth_tracker.Event.{Event}
use eth_tracker.Publisher.{Message, JetStreamPub, message, message_id, send}

-- What JetStream documents of a message id: within the window for duplicates, a message whose id
-- was published before is acknowledged and not stored, and any other one that is acknowledged is
-- stored at the end of the stream.
pub record Deduplicates {S : Type 0} (p : JetStreamPub S) : Type 0 where
  pub stored : S → List Message
  pub is_known : S → String → Bool
  pub publish-drops :
      (m : Message) (s s' : S)
      → is_known s m.id ≡ true
      → p.publish m s ≡ (ok tt, s')
      → stored s' ≡ stored s
  pub publish-stores :
      (m : Message) (s s' : S)
      → is_known s m.id ≡ false
      → p.publish m s ≡ (ok tt, s')
      → stored s' ≡ stored s ++ m ∷ []
  pub publish-knows :
      (m : Message) (s s' : S)
      → p.publish m s ≡ (ok tt, s')
      → (id : String) → is_known s' id ≡ (id == m.id || is_known s id)

-- The ids of the list that are new, each the first time.
abbrev pub fresh : (String → Bool) → List String → List String
fresh known [] = []
fresh known (id ∷ ids) =
    let rest = fresh (λ k. k == id || known k) ids in if known id then rest else id ∷ rest

-- The events of a block, sent one after the other until one fails.
abbrev pub send_all : {S : Type 0} → JetStreamPub S → List Event → Exec S (Unit {0})
send_all p events = for_each events (send p)

abbrev pub ids : List Message → List String
ids messages = map (λ m. m.id) messages

module _ {S : Type 0} (p : JetStreamPub S) (d : Deduplicates p) where
  open d use {stored, is_known}

  send-publishes :
      (e : Event) (s s' : S)
      → send p e s ≡ (ok tt, s')
      → (m : Message) × (m.id ≡ message_id e) × (p.publish m s ≡ (ok tt, s'))
  unfolding send lift
  send-publishes e s s' h =
      let (content, mid, serialized, published) = >>=-returns _ _ s s' tt h in
      let same : mid ≡ s =
        ap (λ (r : Result Bytes × S). r.1)
          (sym (or_wrap-returns _ (lift (p.serialize e)) s mid content serialized)) in
      (
        message e content,
        refl,
        subst (λ x. p.publish (message e content) x ≡ (ok tt, s')) same
            (or_wrap-returns _ _ mid s' tt published),
      )

  send-knows :
      (e : Event) (s s' : S)
      → send p e s ≡ (ok tt, s')
      → (id : String) → is_known s' id ≡ (id == message_id e || is_known s id)
  send-knows e s s' h id =
      let (m, same, published) = send-publishes e s s' h in
      d.publish-knows m s s' published id ∙ ap (λ k. id == k || is_known s id) same

  -- An event whose id is known leaves the stream as it is; another one adds a message with its id.
  send-stores :
      (e : Event) (s s' : S)
      → send p e s ≡ (ok tt, s')
      → ids (stored s') ≡ (
          if is_known s (message_id e) then ids (stored s) else ids (stored s) ++ message_id e ∷ [])
  send-stores e s s' h =
      let (m, same, published) = send-publishes e s s' h in
      elim (Bool-cases (is_known s (message_id e))) [
        | inl known ↦
            rw known (ap ids (d.publish-drops m s s' (ap (is_known s) same ∙ known) published))
        | inr unknown ↦ rw unknown (
            ap ids (d.publish-stores m s s' (ap (is_known s) same ∙ unknown) published)
            ∙ map-append (λ (x : Message). x.id) (stored s) (m ∷ [])
            ∙ ap (λ id. ids (stored s) ++ id ∷ []) same)
      ]

  -- Within the window for duplicates, against a stream that keeps JetStream's promise on message
  -- ids: if a list of events was sent one after the other and each call returned without an error,
  -- the stream has grown by one message for each id of the list that was not known before, in the
  -- order in which the ids occur first.
  pub send_all-fresh :
      (events : List Event) (s s' : S)
      → send_all p events s ≡ (ok tt, s')
      → ids (stored s') ≡ ids (stored s) ++ fresh (is_known s) (map message_id events)
  unfolding for_each pure
  send_all-fresh [] s s' h =
      ap (λ (r : Result (Unit {0}) × S). ids (stored r.1)) (sym h) ∙ sym (append-nil _)
  send_all-fresh (e ∷ events) s s' h =
      let (mid, first, rest) = for_each-returns (send p) e events s s' h in
      let send_stored = send-stores e s mid first in
      let tail = fresh (λ id. id == message_id e || is_known s id) (map message_id events) in
      let later =
        send_all-fresh events mid s' rest
        ∙ ap (λ k. ids (stored mid) ++ fresh k (map message_id events))
            (fun_ext (λ id. send-knows e s mid first id)) in
      elim (Bool-cases (is_known s (message_id e))) [
        | inl known ↦ rw known (later ∙ ap (λ xs. xs ++ tail) (rw known at send_stored))
        | inr unknown ↦ rw unknown (
            later
            ∙ ap (λ xs. xs ++ tail) (rw unknown at send_stored)
            ∙ append_assoc (ids (stored s)) (message_id e ∷ []) tail)
      ]

  keeps_known :
      (id : String) (e : Event) (s s' : S)
      → send p e s ≡ (ok tt, s')
      → is_known s id ≡ true
      → is_known s' id ≡ true
  keeps_known id e s s' h known = send-knows e s s' h id ∙ ground arith

  keeps_all_known :
      (id : String) (events : List Event) (s s' : S)
      → send_all p events s ≡ (ok tt, s')
      → is_known s id ≡ true
      → is_known s' id ≡ true
  unfolding for_each pure
  keeps_all_known id [] s s' h known =
      subst (λ x. is_known x id ≡ true) (ap (λ (r : Result (Unit {0}) × S). r.1) h) known
  keeps_all_known id (e ∷ events) s s' h known =
      let (mid, first, rest) = for_each-returns (send p) e events s s' h in
      keeps_all_known id events mid s' rest (keeps_known id e s mid first known)

  known_after :
      (events : List Event) (s s' : S)
      → send_all p events s ≡ (ok tt, s')
      → All (λ e. is_known s' (message_id e) ≡ true) events
  known_after [] s s' h = tt
  known_after (e ∷ events) s s' h =
      let (mid, first, rest) = for_each-returns (send p) e events s s' h in
      (
        keeps_all_known (message_id e) events mid s' rest
            (rw (send-knows e s mid first (message_id e), ==_refl (message_id e))),
        known_after events mid s' rest,
      )

  send_all-known :
      (events : List Event) (s s' : S)
      → All (λ e. is_known s (message_id e) ≡ true) events
      → send_all p events s ≡ (ok tt, s')
      → stored s' ≡ stored s
  unfolding for_each pure
  send_all-known [] s s' known h = ap (λ (r : Result (Unit {0}) × S). stored r.1) (sym h)
  send_all-known (e ∷ events) s s' known h =
      let (mid, first, rest) = for_each-returns (send p) e events s s' h in
      let (m, same, published) = send-publishes e s mid first in
      send_all-known events mid s'
        (All-map _ _ events (λ x. keeps_known (message_id x) e s mid first) known.1) rest
      ∙ d.publish-drops m s mid (ap (is_known s) same ∙ known.0) published

  -- Within the window for duplicates, against a stream that keeps JetStream's promise on message
  -- ids: if a list of events was sent and is then sent once more, as happens to the events of a
  -- block that is processed again, and each call returned without an error, then the second time
  -- adds no message to the stream.
  pub send_all-again :
      (events : List Event) (s s' s'' : S)
      → send_all p events s ≡ (ok tt, s')
      → send_all p events s' ≡ (ok tt, s'')
      → stored s'' ≡ stored s'
  send_all-again events s s' s'' once again =
      send_all-known events s' s'' (known_after events s s' once) again
