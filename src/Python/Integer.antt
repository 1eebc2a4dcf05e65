-- ===== src/Python/Integer.antt =====
-- Python's `int`, with the operations that the program uses.
use gaggia_esp_c3_mini_serve.Prelude.{
  ℕ, ◌+◌, ◌≡◌, ◌∷◌, Bool, true, false, leb, if◌then◌else◌, arith, refl,
}
use gaggia_esp_c3_mini_serve.Python.Text.{Text, show}

-- `negsuc n` is `-(n + 1)`.
pub data ℤ : Type 0 where
  pos : ℕ → ℤ
  negsuc : ℕ → ℤ

abbrev pub leb_int : ℤ → ℤ → Bool
leb_int (pos a) (pos b) = leb a b
leb_int (pos a) (negsuc b) = false
leb_int (negsuc a) (pos b) = true
leb_int (negsuc a) (negsuc b) = leb b a

abbrev pub eq_int : ℤ → ℤ → Bool
eq_int a b = if leb_int a b then leb_int b a else false

-- `max(a, b)` and `min(a, b)`
unfoldable pub max_int : ℤ → ℤ → ℤ
max_int a b = if leb_int b a then a else b

unfoldable pub min_int : ℤ → ℤ → ℤ
min_int a b = if leb_int a b then a else b

-- `str(n)`
unfoldable pub show_int : ℤ → Text
show_int (pos n) = show n
show_int (negsuc n) = 45 ∷ show (n + 1)

pub max_int-fixed : (a b : ℤ) → max_int a (max_int a b) ≡ max_int a b
unfolding max_int
max_int-fixed (pos a) (pos b) = ground arith
max_int-fixed (pos a) (negsuc b) = ground arith
max_int-fixed (negsuc a) (pos b) = refl
max_int-fixed (negsuc a) (negsuc b) = ground arith
