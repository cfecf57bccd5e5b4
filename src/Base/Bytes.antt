-- ===== src/Base/Bytes.antt =====
-- Go strings and byte slices: lists of numbers below 256, and what `strings` and `binary` do on them.
use Prim.Native.Char.{code}
use Prim.Native.String.{String}
use kfadapter.Base.Tests.{◌==◌}
use Prim.Native.Nat.{ℕ, ◌+◌, ◌*◌, ◌/◌, ◌%◌, ◌<◌}
use mathlib.Core.Path.{◌≡◌, refl}
use mathlib.Core.Bool.{Bool, true, false, ◌&&◌, ◌||◌}
use mathlib.Core.List.{List, [], ◌∷◌}
use native.Mathlib.Omega.{arith}

abbrev pub Bytes : Type 0
Bytes = List ℕ

abbrev pub IsByte : ℕ → Type 0
IsByte b = b < 256

-- The bytes of an ASCII literal.
abbrev pub codes : String → Bytes
codes String.[] = []
codes (String.◌∷◌ c s) = code c ∷ codes s

-- `a == b` on strings; also the answer of `subtle.ConstantTimeCompare`, which is 1 exactly on equal
-- contents.
abbrev pub bytes_eq : Bytes → Bytes → Bool
bytes_eq [] [] = true
bytes_eq [] (y ∷ ys) = false
bytes_eq (x ∷ xs) [] = false
bytes_eq (x ∷ xs) (y ∷ ys) = x == y && bytes_eq xs ys

pub bytes_eq_refl : (xs : Bytes) → bytes_eq xs xs ≡ true
bytes_eq_refl [] = refl
bytes_eq_refl (x ∷ xs) = ground (arith, bytes_eq_refl xs)

pub bytes_eq→eq : (xs ys : Bytes) → bytes_eq xs ys ≡ true → xs ≡ ys
bytes_eq→eq [] [] h = refl
bytes_eq→eq [] (y ∷ ys) h = ground arith
bytes_eq→eq (x ∷ xs) [] h = ground arith
bytes_eq→eq (x ∷ xs) (y ∷ ys) h = ground (arith, bytes_eq→eq xs ys)

-- `strings.IndexByte(s, c) >= 0`
abbrev pub has_byte : ℕ → Bytes → Bool
has_byte c [] = false
has_byte c (x ∷ xs) = x == c || has_byte c xs

-- `binary.BigEndian.PutUint16` and `Uint16`
abbrev pub put_u16 : ℕ → Bytes
put_u16 n = (n / 256 % 256) ∷ (n % 256) ∷ []

abbrev pub u16_of : ℕ → ℕ → ℕ
u16_of hi lo = hi * 256 + lo
