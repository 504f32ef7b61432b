-- ===== src/Db/Bolt.antt =====
-- db/bolt.go: the block store over a bucket of bbolt.
use eth_tracker.Prelude.{
  ℕ, zero, suc, ◌+◌, ◌-◌, ◌%◌, ◌≡◌, true, ◌&&◌, List, [], ◌∷◌, Option, none, some, All, length, leb,
  ltb, ◌==◌, nat_eq, bytes_eq, contains, is_some, if◌then◌else◌,
}
use eth_tracker.Result.{Result, ok, err, panic, diverges, message, ◌>>=◌ as and_then}
use eth_tracker.Exec.{Exec, pure, lift, ◌>>=◌}
use eth_tracker.Exec.Lens.{Lens, zoom}
use eth_tracker.Eth.Abi.{Bytes}
use eth_tracker.Db.{Db}
use eth_tracker.Db.Bytes.{u64_mod, marshal_uint64, unmarshal_uint64, bytes_le, IsByte}
use eth_tracker.Db.Bitset.{BitSets}

-- Each key is at most those after it.
abbrev pub IsAscending : List Bytes → Type 0
IsAscending [] = Unit
IsAscending (k ∷ ks) = All (λ j. bytes_le k j ≡ true) ks × IsAscending ks

-- A bucket of bbolt, with the documented behaviour of the calls. A cursor is the list of the keys that
-- `Seek` and the calls of `Next` after it return. Of a cursor in a transaction that deletes as it goes
-- bbolt promises nothing: `walk` is whatever `First` and `Next` return there.
pub record Bolt (B : Type 0) : Type 0 where
  pub begin : Option B → Result (Unit {0})  -- opening a transaction may fail
  pub commit : B → Result (Unit {0})  -- so may writing it to the disk
  pub get : B → Bytes → Option Bytes
  pub put : B → Bytes → Bytes → Result B
  pub delete : B → Bytes → Result B
  pub seek : B → Bytes → List Bytes
  pub walk : B → List Bytes
  pub get-put :
      (b : B) (k v : Bytes) (b' : B)
      → put b k v ≡ ok b'
      → (j : Bytes) → get b' j ≡ (if k == j then some v else get b j)
  pub get-delete :
      (b : B) (k : Bytes) (b' : B)
      → delete b k ≡ ok b'
      → (j : Bytes) → get b' j ≡ (if k == j then none else get b j)
  pub contains-seek :
      (b : B) (k j : Bytes) → contains (seek b k) j ≡ (is_some (get b j) && bytes_le k j)
  pub seek-IsAscending : (b : B) (k : Bytes) → IsAscending (seek b k)
  pub seek_bytes : (b : B) (k : Bytes) → All (All IsByte) (seek b k)

-- "lower" and "upper"
abbrev pub lower_bound_key : Bytes
lower_bound_key = b'l' ∷ b'o' ∷ b'w' ∷ b'e' ∷ b'r' ∷ []

abbrev pub upper_bound_key : Bytes
upper_bound_key = b'u' ∷ b'p' ∷ b'p' ∷ b'e' ∷ b'r' ∷ []

-- tx.Bucket([]byte(bucketName)), and the error if it is nil
abbrev pub bucket_of : {B : Type 0} → Option B → Result B
bucket_of none = err (message "bucket blocks not found")
bucket_of (some b) = ok b

-- The end of `Update`: an error rolls the transaction back.
abbrev pub finish : {B : Type 0} → Option B → Result B → Result (Unit {0}) × Option B
finish s (ok b) = (ok tt, some b)
finish s (err e) = (err e, s)
finish s panic = (panic, s)
finish s diverges = (diverges, s)

-- b.Set(uint(i)), which panics at the capacity, the largest uint64.
unfoldable pub set_bit : {V : Type 0} → BitSets V → V → ℕ → Result V
set_bit bits b i = if ltb i (u64_mod - 1) then ok (bits.set b i) else panic

-- The loop that marks every block of the range as missing. The counter is a uint64.
unfoldable pub set_range : {V : Type 0} → BitSets V → ℕ → ℕ → ℕ → V → Result V
set_range bits zero i upper b = diverges
set_range bits (suc fuel) i upper b =
    let rest = and_then (set_bit bits b i) (set_range bits fuel ((i + 1) % u64_mod) upper) in
    if leb i upper then rest else ok b

-- More rounds than the loop can make before it ends or its call of `Set` panics.
unfoldable pub loop_fuel : ℕ
loop_fuel = u64_mod + 1

unfoldable pub clear_key : {V : Type 0} → BitSets V → Bytes → V → Result V
clear_key bits k b =
    if length k == 8 then and_then (unmarshal_uint64 k) (λ n. ok (bits.clear b n)) else ok b

-- The loop that clears the blocks that the cursor finds, up to the bound.
unfoldable pub clear_found : {V : Type 0} → BitSets V → Bytes → List Bytes → V → Result V
clear_found bits bound [] b = ok b
clear_found bits bound (k ∷ ks) b =
    if bytes_le k bound then and_then (clear_key bits k b) (clear_found bits bound ks) else ok b

-- if v == nil { return 0, nil }
abbrev pub number_or_zero : Option Bytes → Result ℕ
number_or_zero none = ok 0
number_or_zero (some v) = unmarshal_uint64 v

-- A value that is not there is the nil slice.
abbrev pub number_of : Option Bytes → Result ℕ
number_of none = unmarshal_uint64 []
number_of (some v) = unmarshal_uint64 v

module _ {B : Type 0} (bolt : Bolt B) where
  unfoldable pub view : {A : Type 0} → (B → Result A) → Exec (Option B) A
  view f s = (and_then (bolt.begin s) (λ _. and_then (bucket_of s) f), s)

  unfoldable pub update : (B → Result B) → Exec (Option B) (Unit {0})
  update f s = finish s (
      and_then (bolt.begin s)
        λ _. and_then (bucket_of s) λ b. and_then (f b) λ b'. and_then (bolt.commit b') λ _. ok b')

  unfoldable pub get : Bytes → Exec (Option B) (Option Bytes)
  unfolding view
  get k = view (λ b. ok (bolt.get b k))

  unfoldable pub set_uint64 : Bytes → ℕ → Exec (Option B) (Unit {0})
  unfolding update
  set_uint64 k v = update (λ b. bolt.put b k (marshal_uint64 v))

  unfoldable pub set_uint64_as_key : ℕ → Exec (Option B) (Unit {0})
  unfolding update
  set_uint64_as_key v = update (λ b. bolt.put b (marshal_uint64 v) [])

  unfoldable pub set_lower_bound : ℕ → Exec (Option B) (Unit {0})
  unfolding set_uint64
  set_lower_bound v = set_uint64 lower_bound_key v

  unfoldable pub set_upper_bound : ℕ → Exec (Option B) (Unit {0})
  unfolding set_uint64
  set_upper_bound v = set_uint64 upper_bound_key v

  unfoldable pub set_value : ℕ → Exec (Option B) (Unit {0})
  unfolding set_uint64_as_key
  set_value v = set_uint64_as_key v

  unfoldable pub get_lower_bound : Exec (Option B) ℕ
  unfolding get ◌>>=◌
  get_lower_bound = do v ← get lower_bound_key; lift (number_or_zero v)

  unfoldable pub get_upper_bound : Exec (Option B) ℕ
  unfolding get ◌>>=◌
  get_upper_bound = do v ← get upper_bound_key; lift (number_of v)

  unfoldable pub get_missing_values_bit_set : {V : Type 0} → BitSets V → ℕ → ℕ → Exec (Option B) V
  unfolding view
  get_missing_values_bit_set bits lower_bound upper_bound = view λ b.
      and_then (set_range bits loop_fuel lower_bound upper_bound bits.empty)
        (clear_found bits (marshal_uint64 upper_bound) (bolt.seek b (marshal_uint64 lower_bound)))

  unfoldable pub delete_key : Bytes → B → Result B
  delete_key k b = if length k == 8 then bolt.delete b k else ok b

  -- The loop of `Cleanup` over the keys that its cursor returns.
  unfoldable pub delete_found : Bytes → List Bytes → B → Result B
  delete_found target [] b = ok b
  delete_found target (k ∷ ks) b =
      if bytes_le k target then and_then (delete_key k b) (delete_found target ks) else ok b

  unfoldable pub cleanup : Exec (Option B) (Unit {0})
  unfolding ◌>>=◌
  cleanup = do
    lower_bound ← get_lower_bound
    if lower_bound == 0
        then pure tt
        else update (λ b. delete_found (marshal_uint64 (lower_bound - 1)) (bolt.walk b) b)

  -- The interface `DB` of the block store that a state of the service holds.
  abbrev pub bolt_db : {S V : Type 0} → Lens S (Option B) → BitSets V → Db S V
  bolt_db store bits = record {
    get_lower_bound = zoom store get_lower_bound;
    set_lower_bound = λ v. zoom store (set_lower_bound v);
    get_upper_bound = zoom store get_upper_bound;
    set_upper_bound = λ v. zoom store (set_upper_bound v);
    set_value = λ v. zoom store (set_value v);
    get_missing_values_bit_set =
        λ lower upper. zoom store (get_missing_values_bit_set bits lower upper);
    cleanup = zoom store cleanup;
  }
