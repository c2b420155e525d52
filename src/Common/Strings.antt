-- ===== src/Common/Strings.antt =====
-- C strings as the lists of their bytes before the terminating 0, and the conversions of printf.
use Prim.Native.Char.{code}
use Prim.Native.String.{String}
use Prim.Native.Nat.{ℕ, zero, suc, ◌+◌, ◌-◌, ◌/◌, ◌%◌}
use mathlib.Core.List.{List, [], ◌∷◌, ◌++◌}
use kernel_modules.Common.Tests.{ltb, if◌then◌else◌}
use kernel_modules.Common.Lists.{length, replicate}
use kernel_modules.Common.Int.{ℤ, pos, negsuc}

abbrev pub codes : String → List ℕ
codes String.[] = []
codes (String.◌∷◌ c s) = code c ∷ codes s

abbrev pub space : ℕ
space = 0x20

-- The decimal digits of `n`, in front of `rest`; as many rounds as `n` says are enough.
abbrev pub digits_before : ℕ → ℕ → List ℕ → List ℕ
digits_before zero n rest = (0x30 + n % 10) ∷ rest
digits_before (suc rounds) n rest =
    let more = digits_before rounds (n / 10) ((0x30 + n % 10) ∷ rest) in
    if ltb n 10 then (0x30 + n % 10) ∷ rest else more

-- `%d`.
abbrev pub show_int : ℤ → List ℕ
show_int (pos n) = digits_before n n []
show_int (negsuc n) = 0x2d ∷ digits_before (n + 1) (n + 1) []

-- `%7d` and the like.
abbrev pub pad_left : ℕ → List ℕ → List ℕ
pad_left width text = replicate (width - length text) space ++ text

-- `%-*s`.
abbrev pub pad_right : ℕ → List ℕ → List ℕ
pad_right width text = text ++ replicate (width - length text) space
