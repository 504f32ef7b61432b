-- ===== src/Eth.antt =====
-- The values of go-ethereum and w3 that the service passes around, and what it calls of those
-- packages. An address (20 bytes), a hash (32 bytes) and a `big.Int` decoded from a `uint256` are the
-- numbers that they stand for, so `common.Address{}` is 0.
pub mod Abi
use Prim.Native.String.{String}
use eth_tracker.Prelude.{ℕ, List, Option}
use eth_tracker.Result.{Result}
use Abi.{Signature, Args, Log, Address, Hash, Bytes}

-- types.Transaction: the recipient is nil for a contract creation.
pub record Transaction : Type 0 where
  pub to : Option Address
  pub input : Bytes
  pub chain_id : ℕ

-- types.Receipt, the fields that the service reads.
pub record Receipt : Type 0 where
  pub status : ℕ
  pub logs : List Log
  pub contract_address : Address
  pub tx_hash : Hash

-- types.Block, the fields that the service reads.
pub record Block : Type 0 where
  pub number : ℕ
  pub time : ℕ

-- What the service calls of go-ethereum, ethutils and w3.
pub record Eth : Type 0 where
  pub address_hex : Address → String  -- common.Address.Hex
  pub hash_hex : Hash → String  -- common.Hash.Hex
  pub bytes_hex : Bytes → String  -- common.Bytes2Hex
  pub hex_bytes : String → Result Bytes  -- w3.B, which panics on text that is no hexadecimal
  pub zero_address : Address  -- ethutils.ZeroAddress
  pub decode_event : (e : Signature) → Log → Result (Args e.inputs)  -- w3.Event.DecodeArgs
  pub decode_func : (f : Signature) → Bytes → Result (Args f.inputs)  -- w3.Func.DecodeArgs
  pub signer : Transaction → Result Address  -- types.Sender for the latest signer of the chain
