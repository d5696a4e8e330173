-- ===== src/Prelude/ByteSlices.antt =====
-- Byte slices and strings. A Go string is a read-only slice of bytes, so the two are one type here,
-- and the conversions between them are not written.
use Prim.Native.Nat.{ℕ, zero}
use Prim.Native.Char.{code}
use Prim.Native.String.{String}
use mathlib.Core.Path.{◌≡◌, refl}
use mathlib.Core.Logic.{◌↔◌}
use mathlib.Core.Bool.{Bool, true, false, ◌&&◌}
use mathlib.Core.List.{List, [], ◌∷◌, ◌++◌}
use native.Mathlib.Omega.{arith}
use loopix_messaging.Prelude.Tests.{◌==◌}
use loopix_messaging.Prelude.Lists.{length, take, replicate, length-take}
use loopix_messaging.Prelude.Lists.{length-append, length-replicate, take-append}

abbrev pub Bytes : Type 0
Bytes = List ℕ

-- A literal of the source. All of them are ASCII.
abbrev pub bytes : String → Bytes
bytes String.[] = []
bytes (String.◌∷◌ c s) = code c ∷ bytes s

-- `bytes.Equal`, and `==` on strings.
unfoldable pub equal : Bytes → Bytes → Bool
equal [] [] = true
equal (x ∷ xs) (y ∷ ys) = x == y && equal xs ys
equal _ _ = false

pub equal_sound : (xs ys : Bytes) → equal xs ys ≡ true → xs ≡ ys
unfolding equal
equal_sound [] [] h = refl
equal_sound [] (y ∷ ys) h = cc
equal_sound (x ∷ xs) [] h = cc
equal_sound (x ∷ xs) (y ∷ ys) h = ground (arith, equal_sound xs ys)

pub equal_refl : (xs : Bytes) → equal xs xs ≡ true
unfolding equal
equal_refl [] = refl
equal_refl (x ∷ xs) = ground (arith, equal_refl xs)

pub equal_iff : (xs ys : Bytes) → (equal xs ys ≡ true) ↔ (xs ≡ ys)
equal_iff xs ys = (equal_sound xs ys, λ e. rw e (equal_refl ys))

-- `copy(a[:], b)` into a fresh array of `n` zero bytes.
unfoldable pub copy_to : ℕ → Bytes → Bytes
copy_to n b = take n (b ++ replicate n 0)

pub length-copy_to : (n : ℕ) (b : Bytes) → length (copy_to n b) ≡ n
unfolding copy_to
length-copy_to n b =
    length-take n (b ++ replicate n 0)
      (omega (arith, length-append b (replicate n 0), length-replicate n zero))

-- A slice of the array's own length is copied whole.
pub copy_to-length : (n : ℕ) (b : Bytes) → length b ≡ n → copy_to n b ≡ b
unfolding copy_to
copy_to-length n b h = rw (← h) (take-append b (replicate (length b) 0))
