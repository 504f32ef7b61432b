-- ===== src/Running/Interleaving/Alone.antt =====
-- The moves of one worker make up the processing of its block.
use Prim.Native.String.{◌++◌ as join}
use eth_tracker.Prelude.Text.{decimal}
use eth_tracker.Prelude.{ℕ, ◌<◌, ◌≡◌, refl, sym, List, [], ◌∷◌, ◌++◌, Option, none, some, subst}
use eth_tracker.Eth.{Block, Receipt}
use eth_tracker.Result.{Result, ok, err, panic, diverges}
use eth_tracker.Exec.{Exec, pure, continue, ◌>>=◌, ◌>>◌, or_wrap, or_wrap_unless_canceled, for_each}
use eth_tracker.Db.Bytes.{u64_mod}
use eth_tracker.Processor.{process_block, process_receipts, process_receipt_of}
use eth_tracker.Running.{Tracker, block_processor, processed}
use eth_tracker.Running.Interleaving.{
  Work, fetching, fetched, looping, Task, advance, finished, continued, Move, advanced, Moves,
  stays, goes,
}

>>=_assoc :
    {S A B C : Type 0} (m : Exec S A) (f : A → Exec S B) (g : B → Exec S C) (s : S)
    → ((m >>= f) >>= g) s ≡ (m >>= λ a. f a >>= g) s
unfolding ◌>>=◌
>>=_assoc m f g s = assoc (m s).0 (m s).1
  where
    assoc :
        (r : Result _) (s' : _)
        → continue (continue r f s').0 g (continue r f s').1 ≡ continue r (λ a. f a >>= g) s'
    assoc (ok a) s' = refl
    assoc (err e) s' = refl
    assoc panic s' = refl
    assoc diverges s' = refl

module _ {S B V : Type 0} (t : Tracker S B V) (n : ℕ) (small : n < u64_mod) (ts : List Task) where
  -- From here, moves lead to where the call leads, with the block completed if it returns.
  abbrev LeadsTo : S → List Task → Exec S (Unit {0}) → S → Type 0
  LeadsTo s us m s1 = Moves t s us (processed t n (m s1).0) (m s1).1 ts

  -- One move, and those of the rest.
  then :
      {A : Type 0} (s s1 : S) (us : List Task) (r : Result A) (next : A → Work)
      (k : A → Exec S (Unit {0}))
      → Move t s us
          (finished n (continue r (λ a. pure (some (next a))) s1).0)
          (continue r (λ a. pure (some (next a))) s1).1
          (continued n (continue r (λ a. pure (some (next a))) s1).0 ++ ts)
      → ((a : A) → LeadsTo s1 ((n, next a) ∷ ts) (k a) s1)
      → LeadsTo s us (continue r k) s1
  unfolding pure
  then s s1 us (ok a) next k move rest = goes move (rest a)
  then s s1 us (err e) next k move rest = goes move stays
  then s s1 us panic next k move rest = goes move stays
  then s s1 us diverges next k move rest = goes move stays

  last :
      (s s1 : S) (us : List Task) (r : Result (Unit {0}))
      → Move t s us
          (finished n (continue r (λ _. pure {A = Option Work} none) s1).0)
          (continue r (λ _. pure {A = Option Work} none) s1).1
          (continued n (continue r (λ _. pure {A = Option Work} none) s1).0 ++ ts)
      → Moves t s us (processed t n r) s1 ts
  unfolding pure
  last s s1 us (ok u) move = goes move stays
  last s s1 us (err e) move = goes move stays
  last s s1 us panic move = goes move stays
  last s s1 us diverges move = goes move stays

  move :
      (w : Work) (s : S)
      → Move t s
          ((n, w) ∷ ts)
          (finished n (advance (block_processor t) n w s).0)
          (advance (block_processor t) n w s).1
          (continued n (advance (block_processor t) n w s).0 ++ ts)
  move w s = advanced n w [] ts small

  -- What is left of the processing of the block.
  abbrev persist : Exec S (Unit {0})
  persist =
      or_wrap (join "failed to persist block " (decimal n)) ((block_processor t).db.set_value n)

  abbrev loop : ℕ → List Receipt → Exec S (Unit {0})
  loop time receipts = for_each receipts (process_receipt_of (block_processor t) n time)

  regroup :
      {A C : Type 0} (m : Exec S A) (f : A → Exec S C) (g : C → Exec S (Unit {0})) (s : S)
      (us : List Task)
      → LeadsTo s us (m >>= λ a. f a >>= g) s
      → LeadsTo s us ((m >>= f) >>= g) s
  regroup m f g s us =
      subst (λ (p : Result (Unit {0}) × S). Moves t s us (processed t n p.0) p.1 ts)
        (sym (>>=_assoc m f g s))

  body : ℕ → Receipt → Exec S (Unit {0})
  body time = process_receipt_of (block_processor t) n time

  looping-LeadsTo :
      (time : ℕ) (receipts : List Receipt) (s : S)
      → LeadsTo s ((n, looping time receipts) ∷ ts) (loop time receipts >> persist) s
  unfolding advance for_each pure body ◌>>=◌
  looping-LeadsTo time [] s = last s _ _ (persist s).0 (move (looping time []) s)
  looping-LeadsTo time (receipt ∷ receipts) s =
      regroup (body time receipt) (λ _. loop time receipts) (λ _. persist) s _
        (then s _ _ _ (λ _. looping time receipts) (λ _. loop time receipts >> persist)
          (move (looping time (receipt ∷ receipts)) s) (λ _. looping-LeadsTo time receipts _))

  fetch_block : Exec S Block
  fetch_block =
      or_wrap_unless_canceled (join "failed to fetch block " (decimal n)) (t.chain.get_block n)

  fetch_receipts : Block → Exec S (List Receipt)
  fetch_receipts block =
      or_wrap_unless_canceled (join "failed to fetch receipts for block " (decimal n))
        (t.chain.get_receipts block.number)

  fetched-LeadsTo :
      (block : Block) (s : S)
      → LeadsTo s
          ((n, fetched block) ∷ ts)
          ((fetch_receipts block >>= λ receipts. loop block.time receipts) >> persist)
          s
  unfolding advance fetch_receipts ◌>>=◌
  fetched-LeadsTo block s =
      regroup (fetch_receipts block) (λ receipts. loop block.time receipts) (λ _. persist) s _
        (then s _ _ _ (looping block.time) (λ receipts. loop block.time receipts >> persist)
          (move (fetched block) s) (λ receipts. looping-LeadsTo block.time receipts _))

  -- A worker whose moves no other one comes between does what `ProcessBlock` does: from the start of a
  -- block, some moves lead to the state that processing the block leads to, with the block completed
  -- exactly if that returns without an error, and with the tasks of the other workers as they were.
  pub process_block-Moves :
      (s : S)
      → Moves t s
          ((n, fetching) ∷ ts)
          (processed t n (process_block (block_processor t) n s).0)
          (process_block (block_processor t) n s).1
          ts
  unfolding process_block process_receipts advance fetch_block fetch_receipts ◌>>=◌
  process_block-Moves s =
      regroup fetch_block (λ block. fetch_receipts block >>= λ rs. loop block.time rs)
        (λ _. persist) s _
        (then s _ _ _ fetched
          (λ block. (fetch_receipts block >>= λ rs. loop block.time rs) >> persist)
          (move fetching s) (λ block. fetched-LeadsTo block _))
