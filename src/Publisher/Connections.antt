-- ===== src/Publisher/Connections.antt =====
-- Which connections are open after `NewJetStreamPub` and after `Close`.
use eth_tracker.Prelude.{
  ℕ, ◌≡◌, refl, sym, ap, ◌∙◌, Bool, false, not, ◌&&◌, ◌||◌, String, some, Eq, ◌==◌, inl, inr,
  Bool-cases, arith,
}
use eth_tracker.Result.{Result, ok, err, panic, diverges, wrapped, ok_injective}
use eth_tracker.Exec.{Exec, pure, continue, ◌>>=◌, ◌>>◌, or_wrap}
use eth_tracker.Exec.Inversion.{>>=-returns, or_wrap-returns}
use eth_tracker.Exec.Ends.{Ends, HasEnded}
use eth_tracker.Publisher.Connect.{
  Nats, StreamConfig, stream_config, close_after, closing, close_pub, new_jet_stream_pub,
}

-- Which connections are open, with the documented behaviour of the calls, all of which come back:
-- `Connect` opens a new connection or fails, and only `Close` closes one.
pub record Connections {S C : Type 0} ⦃e : Eq C⦄ (nats : Nats S C) : Type 0 where
  pub is_open : S → C → Bool
  pub connect-opens :
      (endpoint : String) (c k : C) (s s' : S)
      → nats.connect endpoint s ≡ (ok c, s')
      → is_open s' k ≡ (c == k || is_open s k)
  pub connect-new :
      (endpoint : String) (c : C) (s s' : S)
      → nats.connect endpoint s ≡ (ok c, s')
      → is_open s c ≡ false
  pub connect-fails :
      (endpoint : String) (x : _) (k : C) (s s' : S)
      → nats.connect endpoint s ≡ (err x, s')
      → is_open s' k ≡ is_open s k
  pub context-keeps : (c k : C) (s : S) → is_open (nats.stream_context c s).1 k ≡ is_open s k
  pub create-keeps :
      (c k : C) (config : StreamConfig) (s : S)
      → is_open (nats.create_stream c config s).1 k ≡ is_open s k
  pub close-closes : (c k : C) (s : S) → is_open (nats.close c s) k ≡ (not (c == k) && is_open s k)
  pub connects : (endpoint : String) → Ends false (nats.connect endpoint)
  pub contexts : (c : C) → Ends false (nats.stream_context c)
  pub creates : (c : C) (config : StreamConfig) → Ends false (nats.create_stream c config)

-- The connection that a call has returned.
abbrev pub holds : {C : Type 0} ⦃e : Eq C⦄ → Result C → C → Bool
holds (ok c) k = c == k
holds (err x) k = false
holds panic k = false
holds diverges k = false

module _ {S C : Type 0} ⦃e : Eq C⦄ (nats : Nats S C) (d : Connections nats) where
  open d use {is_open}

  -- Beside those of `before`, only the connection of the result is open.
  abbrev Only : (C → Bool) → Result C × S → Type 0
  Only before (r, s') = (k : C) → is_open s' k ≡ (holds r k || before k)

  -- Closing a new connection leaves those of before.
  closed :
      (c : C) (before after : C → Bool)
      → ((k : C) → after k ≡ (c == k || before k))
      → before c ≡ false
      → (k : C) → (not (c == k) && after k) ≡ before k
  closed c before after opened new k = elim (Bool-cases (c == k)) [
    | inl same ↦
        let here : before k ≡ false = ap before (sym ((e.beq_iff c k).0 same)) ∙ new in
        ground (arith, here)
    | inr other ↦ ground (arith, opened k)
  ]

  closing-Only :
      (c : C) (prefix : String) (r : Result (Unit {0})) (rest : Exec S C) (s : S)
      (before : C → Bool)
      → HasEnded false r
      → ((k : C) → is_open s k ≡ (c == k || before k))
      → before c ≡ false
      → Only before (rest s)
      → Only before (
          continue
            (close_after nats c (wrapped prefix r) s).0
            (λ _. rest)
            (close_after nats c (wrapped prefix r) s).1)
  closing-Only c prefix (ok u) rest s before ended opened new then k = then k
  closing-Only c prefix (err x) rest s before ended opened new then k =
      d.close-closes c k s ∙ closed c before (is_open s) opened new k
  closing-Only c prefix panic rest s before ended opened new then k = cc ended.fine
  closing-Only c prefix diverges rest s before ended opened new then k = absurd ended.fine

  -- Once connected.
  connected-Only :
      (c : C) (persist_duration : ℕ) (s : S) (before : C → Bool)
      → ((k : C) → is_open s k ≡ (c == k || before k))
      → before c ≡ false
      → Only before (
          (closing nats c (or_wrap "failed to create JetStream context" (nats.stream_context c))
              >> (closing nats c (
                    or_wrap "failed to create stream"
                      (nats.create_stream c (stream_config persist_duration)))
                  >> pure c))
            s)
  unfolding closing or_wrap pure ◌>>=◌
  connected-Only c persist_duration s before opened new =
      closing-Only c _ (nats.stream_context c s).0 _ _ before ((d.contexts c).at s)
        (λ k. d.context-keeps c k s ∙ opened k) new
        (closing-Only c _ (nats.create_stream c _ _).0 _ _ before ((d.creates c _).at _)
          (λ k. d.create-keeps c k _ _ ∙ d.context-keeps c k s ∙ opened k) new
          (λ k. d.create-keeps c k _ _ ∙ d.context-keeps c k s ∙ opened k))

  connect-Only :
      (endpoint : String) (persist_duration : ℕ) (s s1 : S) (r : Result C)
      → nats.connect endpoint s ≡ (r, s1)
      → HasEnded false r
      → Only (is_open s) (new_jet_stream_pub nats endpoint persist_duration s)
  unfolding new_jet_stream_pub or_wrap ◌>>=◌
  connect-Only endpoint persist_duration s s1 (ok c) h ended = rw h (
      connected-Only c persist_duration s1 (is_open s) (λ k. d.connect-opens endpoint c k s s1 h)
        (d.connect-new endpoint c s s1 h))
  connect-Only endpoint persist_duration s s1 (err x) h ended =
      rw h (λ k. d.connect-fails endpoint x k s s1 h)
  connect-Only endpoint persist_duration s s1 panic h ended = cc ended.fine
  connect-Only endpoint persist_duration s s1 diverges h ended = absurd ended.fine

  -- If every call of the NATS client comes back, `Connect` opens a new connection or fails, and only
  -- `Close` closes one: whether `NewJetStreamPub` returns a publisher or an error, it leaves open the
  -- connections that were open before and, if it returns one, the connection of the publisher, but no
  -- other.
  pub new_jet_stream_pub-open :
      (endpoint : String) (persist_duration : ℕ) (k : C) (s : S)
      → is_open (new_jet_stream_pub nats endpoint persist_duration s).1 k
        ≡ (holds (new_jet_stream_pub nats endpoint persist_duration s).0 k || is_open s k)
  new_jet_stream_pub-open endpoint persist_duration k s =
      connect-Only endpoint persist_duration s _ _ refl ((d.connects endpoint).at s) k

  connection_new :
      (endpoint : String) (persist_duration : ℕ) (c : C) (s s' : S)
      → new_jet_stream_pub nats endpoint persist_duration s ≡ (ok c, s')
      → is_open s c ≡ false
  unfolding new_jet_stream_pub pure
  connection_new endpoint persist_duration c s s' h =
      let (c0, s1, connected, r1) = >>=-returns _ _ s s' c h in
      let (_, s2, _, r2) = >>=-returns _ _ s1 s' c r1 in
      let (_, s3, _, r3) = >>=-returns _ _ s2 s' c r2 in
      let same : c0 ≡ c = ok_injective c0 c (ap (λ (p : Result C × S). p.0) r3) in
      ap (is_open s) (sym same)
      ∙ d.connect-new endpoint c0 s s1 (or_wrap-returns _ (nats.connect endpoint) s s1 c0 connected)

  -- If every call of the NATS client comes back, `Connect` opens a new connection or fails, and only
  -- `Close` closes one: closing a publisher that `NewJetStreamPub` has returned leaves open the connections that were open before, and no other.
  pub close_pub-new_jet_stream_pub :
      (endpoint : String) (persist_duration : ℕ) (c k : C) (s s' : S)
      → new_jet_stream_pub nats endpoint persist_duration s ≡ (ok c, s')
      → is_open (close_pub nats (some c) s') k ≡ is_open s k
  close_pub-new_jet_stream_pub endpoint persist_duration c k s s' h =
      d.close-closes c k s'
      ∙ closed c (is_open s) (is_open s')
          (λ j.
            ap (λ (p : Result C × S). is_open p.1 j) (sym h)
            ∙ new_jet_stream_pub-open endpoint persist_duration j s
            ∙ ap (λ (p : Result C × S). holds p.0 j || is_open s j) h)
          (connection_new endpoint persist_duration c s s' h) k
