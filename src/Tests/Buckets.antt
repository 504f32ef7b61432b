-- ===== src/Tests/Buckets.antt =====
-- Buckets as association lists, with the keys in order.
use eth_tracker.Prelude.{
  ℕ, zero, suc, ◌/◌, ◌%◌, ◌^◌, lt→ltb, ◌≡◌, refl, ap, ◌∙◌, sym, Bool, true, false, ◌&&◌, ◌||◌, List,
  [], ◌∷◌, Option, none, some, All, All-map, arith, ltb, Bool-cases, inl, inr, ◌==◌, bytes_eq,
  bytes_beq_iff, contains, is_some, if◌then◌else◌,
}
use eth_tracker.Prelude.Maps.{Map, lookup, insert, lookup-insert}
use eth_tracker.Result.{Result, ok, err, message, ok_injective}
use eth_tracker.Eth.Abi.{Bytes}
use eth_tracker.Db.Bytes.{bytes_le, IsByte, put_be}
use eth_tracker.Db.Bolt.{Bolt, IsAscending, lower_bound_key, upper_bound_key}
use eth_tracker.Db.Keys.{bytes_le_trans}

abbrev pub Bucket : Type 0
Bucket = Map Bytes Bytes

abbrev pub is_bytes : Bytes → Bool
is_bytes [] = true
is_bytes (b ∷ bs) = ltb b 256 && is_bytes bs

is_bytes-All : (bs : Bytes) → is_bytes bs ≡ true → All IsByte bs
is_bytes-All [] h = tt
is_bytes-All (b ∷ bs) h = (ground arith, is_bytes-All bs (ground arith))

abbrev remove : Bytes → Bucket → Bucket
remove k [] = []
remove k ((j, v) ∷ b) = let rest = remove k b in if j == k then rest else (j, v) ∷ rest

lookup-remove :
    (k j : Bytes) (b : Bucket) → lookup j (remove k b) ≡ (if k == j then none else lookup j b)
lookup-remove k j [] = ground arith
lookup-remove k j ((i, v) ∷ b) =
    ground (arith, bytes_beq_iff i k, bytes_beq_iff k j, bytes_beq_iff i j, lookup-remove k j b)

-- Insertion into an ascending list of keys.
abbrev place : Bytes → List Bytes → List Bytes
place k [] = k ∷ []
place k (j ∷ js) = let rest = place k js in if bytes_le k j then k ∷ j ∷ js else j ∷ rest

-- The keys from `k` on, in order.
abbrev keys_from : Bytes → Bucket → List Bytes
keys_from k [] = []
keys_from k ((j, v) ∷ b) =
    let rest = keys_from k b in if is_bytes j && bytes_le k j then place j rest else rest

bytes_le_total : (xs ys : Bytes) → bytes_le xs ys ≡ false → bytes_le ys xs ≡ true
unfolding bytes_le
bytes_le_total [] ys h = cc
bytes_le_total (x ∷ xs) [] h = refl
bytes_le_total (x ∷ xs) (y ∷ ys) h = ground (arith, bytes_le_total xs ys)

place-All : (P : Bytes → Type 0) (k : Bytes) (js : List Bytes) → P k → All P js → All P (place k js)
place-All P k [] p h = (p, tt)
place-All P k (j ∷ js) p h = elim (Bool-cases (bytes_le k j)) [
  | inl e ↦ rw e (p, h)
  | inr e ↦ rw e (h.0, place-All P k js p h.1)
]

place-IsAscending : (k : Bytes) (js : List Bytes) → IsAscending js → IsAscending (place k js)
place-IsAscending k [] h = (tt, tt)
place-IsAscending k (j ∷ js) h = elim (Bool-cases (bytes_le k j)) [
  | inl e ↦ rw e ((e, All-map _ _ js (λ i le. bytes_le_trans k j i e le) h.0), h)
  | inr e ↦ rw e (
    place-All (λ i. bytes_le j i ≡ true) k js (bytes_le_total k j e) h.0,
    place-IsAscending k js h.1,
  )
]

contains-place :
    (k : Bytes) (js : List Bytes) (i : Bytes) → contains (place k js) i ≡ (k == i || contains js i)
contains-place k [] i = refl
contains-place k (j ∷ js) i = ground (arith, contains-place k js i)

pub keys_from-IsAscending : (k : Bytes) (b : Bucket) → IsAscending (keys_from k b)
keys_from-IsAscending k [] = tt
keys_from-IsAscending k ((j, v) ∷ b) = elim (Bool-cases (is_bytes j && bytes_le k j)) [
  | inl e ↦ rw e (place-IsAscending j (keys_from k b) (keys_from-IsAscending k b))
  | inr e ↦ rw e (keys_from-IsAscending k b)
]

pub keys_from-bytes : (k : Bytes) (b : Bucket) → All (All IsByte) (keys_from k b)
keys_from-bytes k [] = tt
keys_from-bytes k ((j, v) ∷ b) = elim (Bool-cases (is_bytes j && bytes_le k j)) [
  | inl e ↦ rw e (
      place-All (All IsByte) j (keys_from k b) (is_bytes-All j (ground arith))
        (keys_from-bytes k b))
  | inr e ↦ rw e (keys_from-bytes k b)
]

abbrev read : Bucket → Bytes → Option Bytes
read b k = if is_bytes k then lookup k b else none

abbrev write : Bucket → Bytes → Bytes → Result Bucket
write b k v = if is_bytes k then ok (insert k v b) else err (message "no bytes")

same_test : (P : Bytes → Bool) (j i : Bytes) → (j == i) ≡ true → P j ≡ P i
same_test P j i h = ap P ((bytes_beq_iff j i).0 h)

pub contains-keys_from :
    (b : Bucket) (k i : Bytes) → contains (keys_from k b) i ≡ (is_some (read b i) && bytes_le k i)
contains-keys_from [] k i = ground arith
contains-keys_from ((j, v) ∷ b) k i = ground (
  arith,
  contains-keys_from b k i,
  contains-place j (keys_from k b) i,
  same_test is_bytes j i,
  same_test (bytes_le k) j i,
)

pub read-write :
    (b : Bucket) (k v : Bytes) (b' : Bucket)
    → write b k v ≡ ok b'
    → (j : Bytes) → read b' j ≡ (if k == j then some v else read b j)
read-write b k v b' e j = elim (Bool-cases (is_bytes k)) [
  | inl good ↦
      ap (λ (x : Bucket). read x j) (sym (ok_injective (insert k v b) b' (rw good at e)))
      ∙ ground (arith, lookup-insert k j v b, same_test is_bytes k j)
  | inr bad ↦ cc (rw bad at e)
]

pub read-delete :
    (b : Bucket) (k : Bytes) (b' : Bucket)
    → ok (remove k b) ≡ ok b'
    → (j : Bytes) → read b' j ≡ (if k == j then none else read b j)
read-delete b k b' e j =
    ap (λ (x : Bucket). read x j) (sym (ok_injective (remove k b) b' e))
    ∙ ground (arith, lookup-remove k j b)

abbrev pub buckets : Bolt Bucket
buckets = record {
  begin = λ s. ok tt;
  commit = λ b. ok tt;
  get = read;
  put = write;
  delete = λ b k. ok (remove k b);
  seek = λ b k. keys_from k b;
  walk = λ b. keys_from [] b;
  get-put = read-write;
  get-delete = read-delete;
  contains-seek = contains-keys_from;
  seek-IsAscending = λ b k. keys_from-IsAscending k b;
  seek_bytes = λ b k. keys_from-bytes k b;
}

pub is_bytes-put_be : (w v : ℕ) → is_bytes (put_be w v) ≡ true
unfolding put_be
is_bytes-put_be zero v = refl
is_bytes-put_be (suc w) v =
    rw (lt→ltb (v / 256 ^ w % 256) 256 (omega arith), is_bytes-put_be w (v % 256 ^ w)) refl

abbrev pub nine : List ℕ
nine = 0 ∷ 0 ∷ 0 ∷ 0 ∷ 0 ∷ 0 ∷ 0 ∷ 9 ∷ []

abbrev pub four : List ℕ
four = 0 ∷ 0 ∷ 0 ∷ 0 ∷ 0 ∷ 0 ∷ 0 ∷ 4 ∷ []

-- The blocks 4 and 9 are marked, and the bounds are 4 and 9.
abbrev pub two_blocks : Bucket
two_blocks = (lower_bound_key, four) ∷ (upper_bound_key, nine) ∷ (nine, []) ∷ (four, []) ∷ []
