-- ===== src/Prelude/Bytes.antt =====
-- Python's `int.to_bytes(k, "little")` and `int.from_bytes(b, "little")`: bytes are lists of numbers.
use Prim.Native.Nat.{ℕ, zero, suc, ◌+◌, ◌*◌, ◌/◌, ◌%◌, ◌^◌, ◌<◌}
use mathlib.Core.Path.{◌≡◌, refl}
use mathlib.Core.Option.{Option, none, some}
use mathlib.Core.List.{List, [], ◌∷◌}
use native.Mathlib.Omega.{arith}
use gaggia_esp_c3_mini_serve.Prelude.Tests.{ltb, if◌then◌else◌}
use gaggia_esp_c3_mini_serve.Prelude.Lists.{length, All}

abbrev pub Bytes : Type 0
Bytes = List ℕ

abbrev pub IsByte : ℕ → Type 0
IsByte b = b < 256

abbrev pub little : ℕ → ℕ → Bytes
little zero n = []
little (suc k) n = (n % 256) ∷ little k (n / 256)

-- `none` is the OverflowError of a number that does not fit.
abbrev pub to_bytes : ℕ → ℕ → Option Bytes
to_bytes n k = if ltb n (256 ^ k) then some (little k n) else none

abbrev pub from_bytes : Bytes → ℕ
from_bytes [] = 0
from_bytes (b ∷ bs) = b + 256 * from_bytes bs

pub length-little : (k n : ℕ) → length (little k n) ≡ k
length-little zero n = refl
length-little (suc k) n = omega (arith, length-little k (n / 256))

pub little-IsByte : (k n : ℕ) → All IsByte (little k n)
little-IsByte zero n = tt
little-IsByte (suc k) n = (omega arith, little-IsByte k (n / 256))
