-- ===== src/Base/Decimal.antt =====
-- `%d` of package fmt. Twenty digits are enough for every number of 64 bits.
use Prim.Native.Nat.{ℕ, zero, suc, ◌+◌, ◌/◌, ◌%◌}
use Prim.Native.String.{String, ◌++◌}
use uptime_monitor_api.Base.Tests.{ltb, if◌then◌else◌}
use uptime_monitor_api.Base.Text.{of_code}
use uptime_monitor_api.Base.Int.{ℤ, pos, negsuc}

abbrev digit : ℕ → String
digit n = String.◌∷◌ (of_code (48 + n % 10)) String.[]

unfoldable pub decimal : ℕ → ℕ → String
unfolding of_code
decimal zero n = String.[]
decimal (suc digits) n =
    let higher = decimal digits (n / 10) in if ltb n 10 then digit n else higher ++ digit n

abbrev pub show : ℕ → String
show n = decimal 20 n

abbrev pub show_ℤ : ℤ → String
show_ℤ (pos n) = show n
show_ℤ (negsuc n) = "-" ++ show (suc n)
