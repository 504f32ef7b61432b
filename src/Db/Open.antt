-- ===== src/Db/Open.antt =====
-- Opening the store and creating its bucket: `NewBoltDB` of db/bolt.go, and `New` of db/db.go.
use eth_tracker.Prelude.{
  Bool-cases, inl, inr, ◌≡◌, ap, sym, ◌∙◌, Option, none, some, String, ◌==◌, string_eq,
  if◌then◌else◌,
}
use eth_tracker.Result.{Result, ok, wrapped, ◌>>=◌ as and_then, >>=-eq-ok, wrapped-ok, ok_injective}
use eth_tracker.Exec.{Exec, lift, ◌>>◌, or_wrap}
use eth_tracker.Exec.Inversion.{>>=-returns, or_wrap-returns}
use eth_tracker.Eth.Abi.{Bytes}
use eth_tracker.Db.Bolt.{Bolt, finish}
use eth_tracker.Db.Values.{finish-ok}

-- The file and the bucket of bbolt, with the documented behaviour of `CreateBucketIfNotExists`.
pub record File {B : Type 0} (bolt : Bolt B) : Type 0 where
  pub open_file : Result (Unit {0})
  pub create : Option B → Result B
  pub create-exists : (b b' : B) → create (some b) ≡ ok b' → b' ≡ b
  pub create-new : (b : B) (k : Bytes) → create none ≡ ok b → bolt.get b k ≡ none

-- What the store has under the key; nothing, if the bucket was never created.
abbrev pub entry : {B : Type 0} → Bolt B → Option B → Bytes → Option Bytes
entry bolt none k = none
entry bolt (some b) k = bolt.get b k

-- DBTypeBolt
abbrev pub db_type_bolt : String
db_type_bolt = "bolt"

module _ {B : Type 0} (bolt : Bolt B) (file : File bolt) where
  unfoldable pub create_bucket : Exec (Option B) (Unit {0})
  create_bucket s = finish s (
      and_then (bolt.begin s) λ _.
        and_then (wrapped "failed to create bucket" (file.create s))
          λ b. and_then (bolt.commit b) λ _. ok b)

  unfoldable pub new_bolt_db : Exec (Option B) (Unit {0})
  new_bolt_db = do or_wrap "failed to open database" (lift file.open_file); create_bucket

  -- `New` of db.go has one implementation, which it takes for any other name too.
  unfoldable pub new_db : String → Exec (Option B) (Unit {0})
  new_db db_type = if db_type == db_type_bolt then new_bolt_db else new_bolt_db

  created :
      (s : Option B) (b : B) (k : Bytes) → file.create s ≡ ok b → bolt.get b k ≡ entry bolt s k
  created none b k e = file.create-new b k e
  created (some b0) b k e = ap (λ x. bolt.get x k) (file.create-exists b0 b e)

  create_bucket-entry :
      (s s' : Option B)
      → create_bucket s ≡ (ok tt, s')
      → (b : B) × (s' ≡ some b) × ((k : Bytes) → bolt.get b k ≡ entry bolt s k)
  unfolding create_bucket
  create_bucket-entry s s' h =
      let (b2, e2, held) = finish-ok s s' _ h in
      let (_, e3, rest) = >>=-eq-ok (bolt.begin s) _ e2 in
      let (b, e4, rest') = >>=-eq-ok (wrapped "failed to create bucket" (file.create s)) _ rest in
      let (_, e5, last) = >>=-eq-ok (bolt.commit b) _ rest' in
      (
        b,
        held ∙ ap some (sym (ok_injective b b2 last)),
        λ k. created s b k (wrapped-ok _ (file.create s) b e4),
      )

  -- If opening the block store returns without an error, the store holds a bucket, with every entry
  -- that it had before and no other.
  pub new_bolt_db-entry :
      (s s' : Option B)
      → new_bolt_db s ≡ (ok tt, s')
      → (b : B) × (s' ≡ some b) × ((k : Bytes) → bolt.get b k ≡ entry bolt s k)
  unfolding new_bolt_db lift
  new_bolt_db-entry s s' h =
      let (_, mid, opened, rest) = >>=-returns _ _ s s' tt h in
      let same : mid ≡ s =
        ap (λ (r : Result (Unit {0}) × Option B). r.1)
          (sym (or_wrap-returns _ (lift file.open_file) s mid tt opened)) in
      create_bucket-entry s s' (rw same at rest)

  -- Whatever name the settings have for the store: if `New` returns without an error, the store holds a
  -- bucket, with every entry that it had before and no other.
  pub new_db-entry :
      (db_type : String) (s s' : Option B)
      → new_db db_type s ≡ (ok tt, s')
      → (b : B) × (s' ≡ some b) × ((k : Bytes) → bolt.get b k ≡ entry bolt s k)
  unfolding new_db
  new_db-entry db_type s s' h = elim (Bool-cases (db_type == db_type_bolt)) [
    | inl known ↦ new_bolt_db-entry s s' (rw known at h)
    | inr other ↦ new_bolt_db-entry s s' (rw other at h)
  ]
