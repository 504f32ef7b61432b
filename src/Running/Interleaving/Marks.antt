-- ===== src/Running/Interleaving/Marks.antt =====
-- Which blocks are marked, however the workers take turns.
use eth_tracker.Prelude.{
  ℕ, ◌<◌, ◌≡◌, ◌≢◌, refl, sym, ap, ◌∙◌, subst, String, ◌||◌, List, [], ◌∷◌, Option, none, some,
  contains, contains-append, some_injective, nat_eq, arith,
}
use eth_tracker.Eth.{Block, Receipt}
use eth_tracker.Result.{Result, ok, err, panic, diverges, wrapped}
use eth_tracker.Exec.{Exec, pure, continue, ◌>>=◌, or_wrap}
use eth_tracker.Exec.Keeps.{Keeps, Keeps-bind, Keeps-pure, keeps_rules}
use eth_tracker.Exec.Lens.{zoom}
use eth_tracker.Db.Bytes.{u64_mod}
use eth_tracker.Db.Bolt.{lower_bound_key, set_value}
use eth_tracker.Db.Missing.{has_block}
use eth_tracker.Db.Values.{set_value-exact, set_value-rolls_back}
use eth_tracker.Processor.Marks.{receipt-Keeps, service-LeavesAlone}
use eth_tracker.Running.{Tracker, block_processor}
use eth_tracker.Running.Marks.{StoreApart, Marked, unmoved, announced-Marked, ticked-store}
use eth_tracker.Running.Interleaving.{
  Work, fetching, fetched, looping, Task, advance, finished, Move, announced, ticked, began,
  advanced, Moves, stays, goes,
}

module _ {S B V : Type 0} (t : Tracker S B V) (apart : StoreApart t) where
  open t use {store, bolt, bits, queue}

  -- The calls before the last one leave the block store alone, and do not complete the block.
  abbrev IsEarly : ℕ → Work → S → Type 0
  IsEarly n w s =
      (store.get (advance (block_processor t) n w s).1 ≡ store.get s)
      × (finished n (advance (block_processor t) n w s).0 ≡ [])

  early :
      {A : Type 0} (n : ℕ) (m : Exec S A) (next : A → Work) (s : S)
      → Keeps (λ x. store.get x ≡ store.get s) m
      → (store.get ((m >>= λ a. pure (some (next a))) s).1 ≡ store.get s)
        × (finished n ((m >>= λ a. pure (some (next a))) s).0 ≡ [])
  unfolding pure ◌>>=◌
  early n m next s kept =
      ((Keeps-bind m _ kept (λ a. Keeps-pure _)).at s refl, unfinished (m s).0 (m s).1)
    where
      unfinished :
          (r : Result _) (s' : S) → finished n (continue r (λ a. pure (some (next a))) s').0 ≡ []
      unfinished (ok a) s' = refl
      unfinished (err e) s' = refl
      unfinished panic s' = refl
      unfinished diverges s' = refl

  fetching-IsEarly : (n : ℕ) (s : S) → IsEarly n fetching s
  unfolding advance
  fetching-IsEarly n s =
      early n _ fetched s (search (keeps_rules, (apart.clients (store.get s)).blocks))

  fetched-IsEarly : (n : ℕ) (block : Block) (s : S) → IsEarly n (fetched block) s
  unfolding advance
  fetched-IsEarly n block s =
      early n _ (looping block.time) s
        (search (keeps_rules, (apart.clients (store.get s)).receipts))

  looping-IsEarly :
      (n time : ℕ) (receipt : Receipt) (receipts : List Receipt) (s : S)
      → IsEarly n (looping time (receipt ∷ receipts)) s
  unfolding advance
  looping-IsEarly n time receipt receipts s =
      early n _ (λ _. looping time receipts) s
        (receipt-Keeps (block_processor t)
          (service-LeavesAlone store bolt bits t.eth t.cache t.chain t.callback
            (apart.clients (store.get s)))
          n time receipt)

  -- After the write to the store.
  abbrev ending : String → Result (Unit {0}) → Exec S (Option Work)
  ending prefix r = continue (wrapped prefix r) (λ _. pure none)

  module _ (n : ℕ) (b : B) (s : S) (small : n < u64_mod) (held : store.get s ≡ some b) where
    failed :
        (r : Result (Unit {0})) (o : Option B)
        → set_value bolt n (store.get s) ≡ (r, o)
        → r ≢ ok tt
        → Marked t apart [] b (store.put o s)
    failed r o e fails = unmoved t apart b s _ held (
        store.get-put o s
        ∙ ap (λ (p : Result (Unit {0}) × Option B). p.1) (sym e)
        ∙ set_value-rolls_back bolt n (store.get s)
            (λ h. fails (ap (λ (p : Result (Unit {0}) × Option B). p.0) (sym e) ∙ h)))

    -- The last call, by how the write to the store ended.
    persisted :
        (prefix : String) (r : Result (Unit {0})) (o : Option B)
        → set_value bolt n (store.get s) ≡ (r, o)
        → Marked t apart
            (finished n (ending prefix r (store.put o s)).0)
            b
            (ending prefix r (store.put o s)).1
    unfolding pure
    persisted prefix (ok u) o e =
        let (b0, b', from, to, marks, lower, upper) = set_value-exact bolt _ o n e small in
        let same : b0 ≡ b = some_injective b0 b (sym from ∙ held) in
        (
          b',
          store.get-put o s ∙ to,
          (λ w fits. ground (arith, marks w fits, ap (λ x. has_block bolt x w) same)),
          lower ∙ ap (λ x. bolt.get x lower_bound_key) same,
        )
    persisted prefix (err x) o e = failed (err x) o e (λ h. cc h)
    persisted prefix panic o e = failed panic o e (λ h. cc h)
    persisted prefix diverges o e = failed diverges o e (λ h. cc h)

    early-Marked :
        (w : Work)
        → IsEarly n w s
        → Marked t apart
            (finished n (advance (block_processor t) n w s).0)
            b
            (advance (block_processor t) n w s).1
    early-Marked w (kept, unfinished) =
        subst (λ done. Marked t apart done b (advance (block_processor t) n w s).1) (sym unfinished)
          (unmoved t apart b s _ held kept)

    advance-Marked :
        (w : Work)
        → Marked t apart
            (finished n (advance (block_processor t) n w s).0)
            b
            (advance (block_processor t) n w s).1
    unfolding advance or_wrap zoom ◌>>=◌
    advance-Marked fetching = early-Marked fetching (fetching-IsEarly n s)
    advance-Marked (fetched block) = early-Marked (fetched block) (fetched-IsEarly n block s)
    advance-Marked (looping time (receipt ∷ receipts)) =
        early-Marked (looping time (receipt ∷ receipts)) (looping-IsEarly n time receipt receipts s)
    advance-Marked (looping time []) = persisted _ _ _ refl

  Move-Marked :
      (s s' : S) (ts ts' : List Task) (done : List ℕ) (b : B)
      → Move t s ts done s' ts'
      → store.get s ≡ some b
      → Marked t apart done b s'
  Move-Marked s s' ts ts' done b (announced n small) held = announced-Marked t apart n b s held
  Move-Marked s s' ts ts' done b ticked held = unmoved t apart b s _ held (ticked-store t apart s)
  Move-Marked s s' ts ts' done b (began n ns waits small) held =
      unmoved t apart b s _ held (apart.begins s)
  Move-Marked s s' ts ts' done b (advanced n w before after small) held =
      advance-Marked n b s small held w

  -- While the service runs, and only the block store's own calls write to it: after any number of
  -- moves of the syncer, the backfill and the workers, which may come between the calls of each other's
  -- blocks in any way, exactly those blocks are marked that were marked before or were completed in one
  -- of the moves; the lower bound is as it was.
  pub Moves-Marked :
      (s s' : S) (ts ts' : List Task) (done : List ℕ) (b : B)
      → Moves t s ts done s' ts'
      → store.get s ≡ some b
      → (b' : B) × (store.get s' ≡ some b')
        × ((w : ℕ) → w < u64_mod → has_block bolt b' w ≡ (contains done w || has_block bolt b w))
        × (bolt.get b' lower_bound_key ≡ bolt.get b lower_bound_key)
  Moves-Marked s s' ts ts' done b stays held = (b, held, (λ w fits. refl), refl)
  Moves-Marked s s' ts ts' done b
        (goes {mid = mid} {us = us} {now = now} {later = later} move moves) held =
      let (b1, held1, marks1, lower1) = Move-Marked s mid ts us now b move held in
      let (b', held', marks, lower) = Moves-Marked mid s' us ts' later b1 moves held1 in
      (
        b',
        held',
        (λ w fits. ground (arith, marks w fits, marks1 w fits, contains-append now later w)),
        lower ∙ lower1,
      )
