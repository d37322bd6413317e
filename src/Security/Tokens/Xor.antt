-- ===== src/Security/Tokens/Xor.antt =====
-- Exclusive or with one byte string twice gives back the first: the involution that decryption
-- rests on, for numbers by their binary digits and for byte strings of one length.
use Prim.Native.Nat.{bit_xor, differ, digits, bit_xor-bitwise}
use autoedge_licensing_serve.Prelude.{
  ℕ, zero, suc, ◌+◌, ◌*◌, ◌/◌, ◌%◌, ◌≡◌, ◌≤◌, ◌<◌, refl, [], ◌∷◌, length, arith,
}
use autoedge_licensing_serve.Security.Primitives.{Bytes}
use autoedge_licensing_serve.Security.Tokens.{xor_bytes}

abbrev xor_digits : ℕ → ℕ → ℕ → ℕ
xor_digits n a b = digits (λ b. b) differ n a b

xor_digits_fuel : (n m a b : ℕ) → a ≤ n → a ≤ m → xor_digits n a b ≡ xor_digits m a b
xor_digits_fuel zero zero a b p q = refl
xor_digits_fuel zero (suc m) zero b p q = refl
xor_digits_fuel zero (suc m) (suc a) b p q = absurd (omega arith)
xor_digits_fuel (suc n) zero zero b p q = refl
xor_digits_fuel (suc n) zero (suc a) b p q = absurd (omega arith)
xor_digits_fuel (suc n) (suc m) zero b p q = refl
xor_digits_fuel (suc n) (suc m) (suc a) b p q =
    omega (arith, xor_digits_fuel n m (suc a / 2) (b / 2) (omega arith) (omega arith))

zero-bit_xor : (b : ℕ) → bit_xor 0 b ≡ b
zero-bit_xor b = bit_xor-bitwise 0 b

bit_xor_step : (a b : ℕ) → bit_xor a b ≡ bit_xor (a / 2) (b / 2) * 2 + differ (a % 2) (b % 2)
bit_xor_step zero b = omega (arith, zero-bit_xor b, zero-bit_xor (b / 2))
bit_xor_step (suc a) b = omega (
  arith,
  bit_xor-bitwise (suc a) b,
  bit_xor-bitwise (suc a / 2) (b / 2),
  xor_digits_fuel a (suc a / 2) (suc a / 2) (b / 2) (omega arith) (omega arith),
)

-- the lowest digits
differ_twice : (x y : ℕ) → x < 2 → y < 2 → (differ x y < 2) × (differ (differ x y) y ≡ x)
differ_twice zero zero p q = (omega arith, refl)
differ_twice zero (suc zero) p q = (omega arith, refl)
differ_twice (suc zero) zero p q = (omega arith, refl)
differ_twice (suc zero) (suc zero) p q = (omega arith, refl)
differ_twice zero (suc (suc y)) p q = absurd (omega arith)
differ_twice (suc zero) (suc (suc y)) p q = absurd (omega arith)
differ_twice (suc (suc x)) y p q = absurd (omega arith)

-- one digit, where the halves are known
bit_xor_halved :
    (a b : ℕ) → bit_xor (bit_xor (a / 2) (b / 2)) (b / 2) ≡ a / 2 → bit_xor (bit_xor a b) b ≡ a
bit_xor_halved a b ih =
    let d = differ_twice (a % 2) (b % 2) (omega arith) (omega arith) in
    let step = bit_xor_step a b in
    let half : bit_xor a b / 2 ≡ bit_xor (a / 2) (b / 2) = omega arith in
    let digit : bit_xor a b % 2 ≡ differ (a % 2) (b % 2) = omega arith in
    rw (bit_xor_step (bit_xor a b) b) (rw (half, digit, ih, d.1) (omega arith))

bit_xor_twice_below : (n a b : ℕ) → a + b ≤ n → bit_xor (bit_xor a b) b ≡ a
bit_xor_twice_below zero zero zero h = refl
bit_xor_twice_below zero zero (suc b) h = absurd (omega arith)
bit_xor_twice_below zero (suc a) b h = absurd (omega arith)
bit_xor_twice_below (suc n) zero zero h = refl
bit_xor_twice_below (suc n) zero (suc b) h =
    bit_xor_halved zero (suc b) (bit_xor_twice_below n (zero / 2) (suc b / 2) (omega arith))
bit_xor_twice_below (suc n) (suc a) b h =
    bit_xor_halved (suc a) b (bit_xor_twice_below n (suc a / 2) (b / 2) (omega arith))

pub bit_xor_twice : (a b : ℕ) → bit_xor (bit_xor a b) b ≡ a
bit_xor_twice a b = bit_xor_twice_below (a + b) a b (omega arith)

pub xor_bytes_twice : (a b : Bytes) → length a ≡ length b → xor_bytes (xor_bytes a b) b ≡ a
unfolding xor_bytes
xor_bytes_twice [] b h = refl
xor_bytes_twice (x ∷ a) [] h = absurd (omega arith)
xor_bytes_twice (x ∷ a) (y ∷ b) h = cc (bit_xor_twice x y, xor_bytes_twice a b (omega arith))

pub xor_bytes-length : (a b : Bytes) → length a ≡ length b → length (xor_bytes a b) ≡ length a
unfolding xor_bytes
xor_bytes-length [] b h = refl
xor_bytes-length (x ∷ a) [] h = absurd (omega arith)
xor_bytes-length (x ∷ a) (y ∷ b) h = omega (arith, xor_bytes-length a b (omega arith))
