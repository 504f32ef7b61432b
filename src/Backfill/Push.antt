-- ===== src/Backfill/Push.antt =====
-- The two loops of a run push the first missing blocks, in order, up to the batch size.
use native.Mathlib.Nat.{zero-add, mod-eq_of_lt}
use eth_tracker.Prelude.{
  ℕ, zero, suc, ◌+◌, ◌%◌, ◌<◌, ◌≤◌, ◌≡◌, refl, ap, sym, ◌∙◌, subst, List, [], ◌∷◌, length, take,
  All, ltb, lt→ltb, ◌==◌, min, inl, inr, Bool-cases, nat_eq, if◌then◌else◌, arith,
}
use eth_tracker.Result.{ok}
use eth_tracker.Db.Bytes.{u64_mod}
use eth_tracker.Db.Bitset.{IsIncreasing, drop_below, last_or_zero}
use eth_tracker.Pool.{Pool}
use eth_tracker.Backfill.{Backfill, idle, busy, push_buffer, push_batches, push_missing, rounds}

-- The pool after the blocks of the list were pushed in order.
abbrev pub push_all : {S : Type 0} → Pool S → List ℕ → S → S
push_all pool [] s = s
push_all pool (x ∷ xs) s = push_all pool xs (pool.push x s)

drop_below-zero : (xs : List ℕ) → drop_below 0 xs ≡ xs
drop_below-zero [] = refl
drop_below-zero (x ∷ xs) = ground arith

le-last_or_zero : (x : ℕ) (xs : List ℕ) → IsIncreasing (x ∷ xs) → x ≤ last_or_zero (x ∷ xs)
le-last_or_zero x [] inc = omega arith
le-last_or_zero x (y ∷ xs) inc = omega (arith, le-last_or_zero y xs inc.1, inc.0.0)

-- Nothing is left above the last number of an increasing list.
drop_below-last :
    (x : ℕ) (xs : List ℕ)
    → IsIncreasing (x ∷ xs)
    → drop_below (last_or_zero (x ∷ xs) + 1) (x ∷ xs) ≡ []
drop_below-last x [] inc = ground arith
drop_below-last x (y ∷ xs) inc =
    ground (arith, drop_below-last y xs inc.1, le-last_or_zero y xs inc.1, inc.0.0)

length-take : (n : ℕ) (xs : List ℕ) → length (take n xs) ≡ min n (length xs)
length-take zero xs = omega arith
length-take (suc n) [] = omega arith
length-take (suc n) (x ∷ xs) = omega (arith, length-take n xs)

take_all : (n : ℕ) (xs : List ℕ) → length xs ≤ n → take n xs ≡ xs
take_all zero [] h = refl
take_all zero (x ∷ xs) h = absurd (omega arith)
take_all (suc n) [] h = refl
take_all (suc n) (x ∷ xs) h = ap (λ ys. x ∷ ys) (take_all n xs (omega arith))

last-small :
    (x : ℕ) (xs : List ℕ)
    → All (λ m. m + 1 < u64_mod) (x ∷ xs)
    → last_or_zero (x ∷ xs) + 1 < u64_mod
last-small x [] small = small.0
last-small x (y ∷ xs) small = last-small y xs small.1

pub All-take : (P : ℕ → Type 0) (n : ℕ) (xs : List ℕ) → All P xs → All P (take n xs)
All-take P zero xs h = tt
All-take P (suc n) [] h = tt
All-take P (suc n) (x ∷ xs) h = (h.0, All-take P n xs h.1)

pub take-nil : (n : ℕ) → take {A = ℕ} n [] ≡ []
take-nil zero = refl
take-nil (suc n) = refl

module _ {S V : Type 0} (bf : Backfill S V) where
  open bf use {batch_size, db, bits, pool, reset}

  push_buffer_lem :
      (xs : List ℕ) (pushed : ℕ) (s : S)
      → pushed + length xs ≤ batch_size
      → push_buffer bf xs pushed s ≡ (ok (pushed + length xs), push_all pool xs s)
  unfolding push_buffer
  push_buffer_lem [] pushed s fits = ground arith
  push_buffer_lem (x ∷ xs) pushed s fits =
      ground (arith, push_buffer_lem xs (pushed + 1) (pool.push x s) (omega arith))

  push_batches-stop :
      (missing : V) (fuel j pushed : ℕ) (s : S)
      → push_batches bf missing (suc fuel) j [] pushed s ≡ (ok pushed, s)
  unfolding push_batches
  push_batches-stop missing fuel j pushed s = refl

  push_batches-full :
      (missing : V) (fuel j : ℕ) (buffer : List ℕ) (s : S)
      → 0 < batch_size
      → length buffer ≡ batch_size
      → push_batches bf missing (suc fuel) j buffer 0 s ≡ (ok batch_size, push_all pool buffer s)
  unfolding push_batches
  push_batches-full missing fuel j buffer s pos full =
      ground (arith, push_buffer_lem buffer 0 s (omega arith))

  push_batches-more :
      (missing : V) (fuel j : ℕ) (buffer : List ℕ) (s : S)
      → 0 < length buffer
      → length buffer < batch_size
      → push_batches bf missing (suc fuel) j buffer 0 s
        ≡ push_batches bf missing fuel
            (bits.next_set_many missing ((j + 1) % u64_mod) batch_size).0
            (bits.next_set_many missing ((j + 1) % u64_mod) batch_size).1
            (length buffer)
            (push_all pool buffer s)
  unfolding push_batches
  push_batches-more missing fuel j buffer s pos short =
      rw
        (
          lt→ltb 0 (length buffer) pos,
          lt→ltb 0 batch_size (omega arith),
          push_buffer_lem buffer 0 s (omega arith),
        )
        (rw (zero-add, lt→ltb (length buffer) batch_size short))

  -- The second call of `NextSetMany` finds nothing, if the first one found all.
  second_buffer :
      (missing : V) (x : ℕ) (xs : List ℕ)
      → bits.members missing ≡ x ∷ xs
      → (bits.next_set_many missing (last_or_zero (x ∷ xs) + 1) batch_size).1 ≡ []
  second_buffer missing x xs e =
      ap (λ (p : ℕ × List ℕ). p.1)
        (bits.next_set_many_lem missing (last_or_zero (x ∷ xs) + 1) batch_size)
      ∙ ap (λ ms. take batch_size (drop_below (last_or_zero (x ∷ xs) + 1) ms)) e
      ∙ ap (take batch_size)
          (drop_below-last x xs (subst IsIncreasing e (bits.members-IsIncreasing missing)))
      ∙ take-nil batch_size

  loops_lem :
      (missing : V) (buffer : List ℕ) (s : S)
      → length buffer ≤ batch_size
      → (length buffer < batch_size → bits.members missing ≡ buffer)
      → All (λ m. m + 1 < u64_mod) buffer
      → push_batches bf missing (rounds bf) (last_or_zero buffer) buffer 0 s
        ≡ (ok (length buffer), push_all pool buffer s)
  loops_lem missing [] s fits all small = push_batches-stop missing (suc batch_size) 0 0 s
  loops_lem missing (x ∷ xs) s fits all small =
      elim (Bool-cases (ltb (length (x ∷ xs)) batch_size)) [
        | inl short ↦
            let lt : length (x ∷ xs) < batch_size = ground arith in
            let next : (last_or_zero (x ∷ xs) + 1) % u64_mod ≡ last_or_zero (x ∷ xs) + 1 =
              mod-eq_of_lt (last-small x xs small) in
            push_batches-more missing (suc batch_size) (last_or_zero (x ∷ xs)) (x ∷ xs) s
              (omega arith) lt
            ∙ rw (next, second_buffer missing x xs (all lt))
                (push_batches-stop missing batch_size _ _ _)
        | inr full ↦
            let eq : length (x ∷ xs) ≡ batch_size = ground arith in
            push_batches-full missing (suc batch_size) (last_or_zero (x ∷ xs)) (x ∷ xs) s
              (omega arith) eq
            ∙ ap (λ (n : ℕ). (ok n, push_all pool (x ∷ xs) s)) (sym eq)
      ]

  batches_lem :
      (missing : V) (s : S)
      → All (λ m. m + 1 < u64_mod) (bits.members missing)
      → push_batches bf missing
          (rounds bf)
          (bits.next_set_many missing 0 batch_size).0
          (bits.next_set_many missing 0 batch_size).1
          0
          s
        ≡ (
          ok (length (take batch_size (bits.members missing))),
          push_all pool (take batch_size (bits.members missing)) s,
        )
  batches_lem missing s small =
      let ms = bits.members missing in
      rw (bits.next_set_many_lem missing 0 batch_size, drop_below-zero ms)
        (loops_lem missing (take batch_size ms) s (omega (arith, length-take batch_size ms))
          (λ short. sym (take_all batch_size ms (omega (arith, length-take batch_size ms))))
          (All-take _ batch_size ms small))

  -- What a run does with a bitset: it pushes its first members.
  pub push_missing_lem :
      (missing : V) (s : S)
      → All (λ m. m + 1 < u64_mod) (bits.members missing)
      → push_missing bf missing s ≡ (
        ok tt,
        (let ms = bits.members missing in
            if length ms == 0
            then s
            else reset
                (if ltb batch_size (length ms) then busy else idle)
                (push_all pool (take batch_size ms) s)),
      )
  unfolding push_missing
  push_missing_lem missing s small = elim (Bool-cases (length (bits.members missing) == 0)) [
    | inl nothing ↦ rw (bits.count_lem missing, nothing)
    | inr some_missing ↦ rw (bits.count_lem missing, some_missing, batches_lem missing s small)
  ]
