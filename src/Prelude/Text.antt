-- ===== src/Prelude/Text.antt =====
-- Numbers in decimal, as `fmt` prints `%d` and `big.Int.String` prints.
use Prim.Native.Nat.{ℕ, zero, suc, ◌/◌, ◌%◌}
use Prim.Native.String.{String, ◌++◌}
use eth_tracker.Prelude.Tests.{ltb, if◌then◌else◌}

abbrev pub digit : ℕ → String
digit zero = "0"
digit (suc zero) = "1"
digit (suc (suc zero)) = "2"
digit (suc (suc (suc zero))) = "3"
digit (suc (suc (suc (suc zero)))) = "4"
digit (suc (suc (suc (suc (suc zero))))) = "5"
digit (suc (suc (suc (suc (suc (suc zero)))))) = "6"
digit (suc (suc (suc (suc (suc (suc (suc zero))))))) = "7"
digit (suc (suc (suc (suc (suc (suc (suc (suc zero)))))))) = "8"
digit _ = "9"

-- A number has at most as many digits as its value plus one, which is the fuel.
unfoldable pub decimal_fuel : ℕ → ℕ → String
decimal_fuel zero n = digit n
decimal_fuel (suc f) n =
    let rest = decimal_fuel f (n / 10) in if ltb n 10 then digit n else rest ++ digit (n % 10)

unfoldable pub decimal : ℕ → String
unfolding decimal_fuel
decimal n = decimal_fuel n n
