-- ===== src/Tests/Opening.antt =====
-- The theorems on opening the block store and on a run without bounds.
use eth_tracker.Prelude.{
  ◌≡◌, refl, [], ◌∷◌, ap, sym, ◌∙◌, inl, inr, Bool-cases, arith, Option, none, some, true, bytes_eq,
}
use eth_tracker.Result.{Result, ok, panic, ok_injective}
use eth_tracker.Eth.Abi.{Bytes}
use eth_tracker.Db.Bytes.{marshal_uint64, put_be}
use eth_tracker.Db.Bolt.{lower_bound_key}
use eth_tracker.Db.Open.{File}
use eth_tracker.Backfill.{run}
use eth_tracker.Backfill.Run.{over_bolt, run-unset}
use eth_tracker.Tests.BitLists.{bit_lists}
use eth_tracker.Tests.Buckets.{Bucket, buckets, four, is_bytes}
use eth_tracker.Tests.World.{store, pool, reset, world}

abbrev pub create : Option Bucket → Result Bucket
create none = ok []
create (some b) = ok b

pub create-same : (b b' : Bucket) → create (some b) ≡ ok b' → b' ≡ b
create-same b b' h = cc h

pub create-empty : (b : Bucket) (k : Bytes) → create none ≡ ok b → buckets.get b k ≡ none
create-empty b k h =
    ap (λ (x : Bucket). buckets.get x k) (sym (ok_injective [] b h))
    ∙ elim (Bool-cases (is_bytes k)) [ inl fine ↦ rw fine refl | inr odd ↦ rw odd refl ]

abbrev pub file : File buckets
file = record {
  open_file = ok tt;
  create = create;
  create-exists = create-same;
  create-new = create-empty;
}

abbrev no_upper : Bucket
no_upper = (lower_bound_key, four) ∷ []

run-unset_example :
    run (over_bolt store buckets bit_lists pool reset 3) true (world no_upper)
    ≡ (panic, world no_upper)
unfolding marshal_uint64 put_be
run-unset_example =
    run-unset store buckets bit_lists pool reset 3 true 4 no_upper (world no_upper) refl refl refl
      refl (omega arith)
