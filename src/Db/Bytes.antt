-- ===== src/Db/Bytes.antt =====
-- db/bolt.go: `marshalUint64` and `unmarshalUint64`, in big-endian order, and `bytes.Compare`.
use native.Mathlib.Nat.{
  pow-suc, div-add-mod', mod-lt, mod-eq_of_lt, div-lt_iff_lt-mul, mul_comm, zero-add,
  div-eq_of_lt-le, mul-add-mod_self_right,
}
use eth_tracker.Prelude.{
  ℕ, zero, suc, ◌+◌, ◌*◌, ◌/◌, ◌%◌, ◌^◌, ◌<◌, ◌≡◌, refl, ap, ◌∙◌, subst, Bool, true, false, [], ◌∷◌,
  length, take, All, arith, ltb, leb, nat_beq, if◌then◌else◌,
}
use eth_tracker.Result.{Result, ok, panic}
use eth_tracker.Eth.Abi.{Bytes}

-- The values of a uint64 are those below this number.
abbrev pub u64_mod : ℕ
u64_mod = 2 ^ 64

-- The `w` bytes of the number `v`, the highest first.
unfoldable pub put_be : ℕ → ℕ → Bytes
put_be zero v = []
put_be (suc w) v = (v / 256 ^ w % 256) ∷ put_be w (v % 256 ^ w)

unfoldable pub get_be : ℕ → Bytes → ℕ
get_be acc [] = acc
get_be acc (b ∷ bs) = get_be (acc * 256 + b) bs

unfoldable pub marshal_uint64 : ℕ → Bytes
unfolding put_be
marshal_uint64 v = put_be 8 v

-- `Uint64` reads the first eight bytes, and panics if there are fewer.
unfoldable pub unmarshal_uint64 : Bytes → Result ℕ
unfolding get_be
unmarshal_uint64 b = if ltb (length b) 8 then panic else ok (get_be 0 (take 8 b))

-- bytes.Compare(a, b) <= 0
unfoldable pub bytes_le : Bytes → Bytes → Bool
bytes_le [] ys = true
bytes_le (x ∷ xs) [] = false
bytes_le (x ∷ xs) (y ∷ ys) = if nat_beq x y then bytes_le xs ys else ltb x y

abbrev pub IsByte : ℕ → Type 0
IsByte b = b < 256

pow_pos : (w : ℕ) → 0 < 256 ^ w
pow_pos zero = omega arith
pow_pos (suc w) = rw pow-suc (omega (arith, pow_pos w))

-- A number below `p * 256` is a byte and a number below `p`.
high_byte :
    (p v : ℕ)
    → 0 < p
    → v < p * 256
    → (v / p % 256 ≡ v / p) × (v % p < p) × (v / p * p + v % p ≡ v) × (v / p < 256)
high_byte p v pos h =
    let q : v / p < 256 = (div-lt_iff_lt-mul pos).1 (rw mul_comm h) in
    (mod-eq_of_lt q, mod-lt v pos, div-add-mod' v p, q)

high_lt : (p q q' r r' : ℕ) → q < q' → r < p → q * p + r < q' * p + r'
high_lt p q q' r r' h hr = grind arith

leb_split :
    (p q q' r r' : ℕ)
    → r < p
    → r' < p
    → leb (q * p + r) (q' * p + r') ≡ (if nat_beq q q' then leb r r' else ltb q q')
leb_split p q q' r r' hr hr' = ground (arith, high_lt p q q' r r', high_lt p q' q r' r)

get_be-put_be : (w acc v : ℕ) → v < 256 ^ w → get_be acc (put_be w v) ≡ acc * 256 ^ w + v
unfolding get_be put_be
get_be-put_be zero acc v h = omega arith
get_be-put_be (suc w) acc v h =
    let split = high_byte (256 ^ w) v (pow_pos w) (rw (← pow-suc) h) in
    rw (split.0, get_be-put_be w (acc * 256 + v / 256 ^ w) (v % 256 ^ w) split.1, pow-suc)
      (omega (arith, split.2))

length-put_be : (w v : ℕ) → length (put_be w v) ≡ w
unfolding put_be
length-put_be zero v = refl
length-put_be (suc w) v = omega (arith, length-put_be w (v % 256 ^ w))

bytes_le-put_be :
    (w a b : ℕ) → a < 256 ^ w → b < 256 ^ w → bytes_le (put_be w a) (put_be w b) ≡ leb a b
unfolding put_be bytes_le
bytes_le-put_be zero a b ha hb = ground arith
bytes_le-put_be (suc w) a b ha hb =
    let p : ℕ = 256 ^ w in
    let sa = high_byte p a (pow_pos w) (rw (← pow-suc) ha) in
    let sb = high_byte p b (pow_pos w) (rw (← pow-suc) hb) in
    rw
      (
        sa.0,
        sb.0,
        bytes_le-put_be w (a % p) (b % p) sa.1 sb.1,
        ← leb_split p (a / p) (b / p) (a % p) (b % p) sa.1 sb.1,
        sa.2,
        sb.2,
      )
      refl

get_be-acc : (acc : ℕ) (bs : Bytes) → get_be acc bs ≡ acc * 256 ^ length bs + get_be 0 bs
unfolding get_be
get_be-acc acc [] = omega arith
get_be-acc acc (b ∷ bs) =
    rw (get_be-acc (acc * 256 + b) bs, get_be-acc (0 * 256 + b) bs, pow-suc) (omega arith)

get_be-cons : (b : ℕ) (bs : Bytes) → get_be 0 (b ∷ bs) ≡ b * 256 ^ length bs + get_be 0 bs
unfolding get_be
get_be-cons b bs = rw zero-add (get_be-acc b bs)

get_be-lt : (bs : Bytes) → All IsByte bs → get_be 0 bs < 256 ^ length bs
get_be-lt [] h = unfold get_be in omega arith
get_be-lt (b ∷ bs) h =
    rw (get_be-cons b bs, pow-suc)
      (omega (arith, high_lt (256 ^ length bs) b 256 (get_be 0 bs) 0 h.0 (get_be-lt bs h.1)))

-- The high digit of `b * p + g` is `b`, and the rest is `g`.
low_part : (p b g : ℕ) → g < p → ((b * p + g) / p ≡ b) × ((b * p + g) % p ≡ g)
low_part p b g h =
    (div-eq_of_lt-le p (omega arith) (omega arith), mul-add-mod_self_right b p g ∙ mod-eq_of_lt h)

put_be-get_be : (bs : Bytes) → All IsByte bs → put_be (length bs) (get_be 0 bs) ≡ bs
unfolding put_be
put_be-get_be [] h = refl
put_be-get_be (b ∷ bs) h =
    let parts = low_part (256 ^ length bs) b (get_be 0 bs) (get_be-lt bs h.1) in
    rw (get_be-cons b bs)
      (rw (parts.0, parts.1, put_be-get_be bs h.1, mod-eq_of_lt {n = b} {m = 256} h.0))

-- Every uint64 is read back from the eight bytes that are written for it.
pub unmarshal_uint64-marshal_uint64 :
    (v : ℕ) → v < u64_mod → unmarshal_uint64 (marshal_uint64 v) ≡ ok v
unfolding marshal_uint64 unmarshal_uint64
unmarshal_uint64-marshal_uint64 v h = ap ok (get_be-put_be 8 0 v h ∙ omega arith)

-- The byte order of the keys is the order of the block numbers.
pub bytes_le-marshal_uint64 :
    (a b : ℕ) → a < u64_mod → b < u64_mod → bytes_le (marshal_uint64 a) (marshal_uint64 b) ≡ leb a b
unfolding marshal_uint64
bytes_le-marshal_uint64 a b ha hb = bytes_le-put_be 8 a b ha hb

pub length-marshal_uint64 : (v : ℕ) → length (marshal_uint64 v) ≡ 8
unfolding marshal_uint64
length-marshal_uint64 v = length-put_be 8 v

take_all : (bs : Bytes) → take (length bs) bs ≡ bs
take_all [] = refl
take_all (b ∷ bs) = ap (λ xs. b ∷ xs) (take_all bs)

-- The number of a key of eight bytes.
unfoldable pub key_number : Bytes → ℕ
unfolding get_be
key_number k = get_be 0 k

pub unmarshal_uint64-key_number :
    (k : Bytes) → length k ≡ 8 → unmarshal_uint64 k ≡ ok (key_number k)
unfolding unmarshal_uint64 key_number
unmarshal_uint64-key_number k eight =
    rw eight (ap (λ t. ok (get_be 0 t)) (subst (λ n. take n k ≡ k) eight (take_all k)))

-- A key of eight bytes is the key that is written for its number, which is a uint64.
pub marshal_uint64-key_number :
    (k : Bytes)
    → All IsByte k
    → length k ≡ 8
    → (marshal_uint64 (key_number k) ≡ k) × (key_number k < u64_mod)
unfolding marshal_uint64 key_number
marshal_uint64-key_number k bytes eight = (
  subst (λ w. put_be w (get_be 0 k) ≡ k) eight (put_be-get_be k bytes),
  subst (λ w. get_be 0 k < 256 ^ w) eight (get_be-lt k bytes),
)
