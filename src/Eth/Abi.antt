-- ===== src/Eth/Abi.antt =====
-- Signatures of events and functions, as the texts that `w3.MustNewEvent` and `w3.MustNewFunc` parse,
-- the values that `DecodeArgs` fills in, and event logs.
use Prim.Native.String.{String}
use eth_tracker.Prelude.{ℕ, List, [], ◌∷◌, Bool}

abbrev pub Address : Type 0
Address = ℕ

abbrev pub Hash : Type 0
Hash = ℕ

abbrev pub Bytes : Type 0
Bytes = List ℕ

pub data Kind : Type 0 where
  address uint256 bool : Kind

-- An `indexed` parameter of an event stands in the topics of the log.
pub data Input : Type 0 where
  indexed : Kind → Input
  plain : Kind → Input

pub record Signature : Type 0 where
  pub name : String
  pub inputs : List Input

abbrev pub kind : Input → Kind
kind (indexed k) = k
kind (plain k) = k

abbrev pub Arg : Kind → Type 0
Arg address = Address
Arg uint256 = ℕ
Arg bool = Bool

-- The decoded arguments, in the order of the signature.
abbrev pub Args : List Input → Type 0
Args [] = Unit
Args (i ∷ is) = Arg (kind i) × Args is

-- types.Log, the fields that the service reads.
pub record Log : Type 0 where
  pub address : Address
  pub topics : List Hash
  pub data_bytes : Bytes
  pub block_number : ℕ
  pub tx_hash : Hash
  pub index : ℕ
