-- ===== src/Base/Decimal.antt =====
-- Numbers in decimal, as `str` writes them.
use Prim.Native.Nat.{ℕ, zero, suc, ◌/◌, ◌%◌, ◌+◌}
use Prim.Native.String.{String, ◌++◌ as ◌<>◌}
use rpi_io_t_server_project.Base.Tests.{if◌then◌else◌, ltb}
use rpi_io_t_server_project.Base.Int.{ℤ, pos, negsuc}

unfoldable pub digit : ℕ → String
digit zero = "0"
digit (suc zero) = "1"
digit (suc (suc zero)) = "2"
digit (suc (suc (suc zero))) = "3"
digit (suc (suc (suc (suc zero)))) = "4"
digit (suc (suc (suc (suc (suc zero))))) = "5"
digit (suc (suc (suc (suc (suc (suc zero)))))) = "6"
digit (suc (suc (suc (suc (suc (suc (suc zero))))))) = "7"
digit (suc (suc (suc (suc (suc (suc (suc (suc zero)))))))) = "8"
digit _ = "9"

-- The decimal digits of a number below 10 ^ fuel.
unfoldable pub decimal : ℕ → ℕ → String
unfolding digit
decimal zero n = ""
decimal (suc fuel) n =
    let high = decimal fuel (n / 10) in if ltb n 10 then digit n else (high <> digit (n % 10))

-- Twenty digits.
unfoldable pub nat_text : ℕ → String
unfolding decimal
nat_text n = decimal 20 n

unfoldable pub int_text : ℤ → String
unfolding nat_text
int_text (pos n) = nat_text n
int_text (negsuc n) = "-" <> nat_text (n + 1)
