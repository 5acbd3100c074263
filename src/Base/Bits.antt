-- ===== src/Base/Bits.antt =====
-- `&` and `|` as arithmetic at every width: shifts, disjoint fields and masks of low bits.
use Prim.Native.Nat.{
  ℕ, zero, suc, ◌+◌, ◌-◌, ◌*◌, ◌/◌, ◌%◌, ◌^◌, ◌≤◌, ◌<◌, min, max, digits, bitwise, bit_and, bit_or,
  bit_and-bitwise, bit_or-bitwise,
}
use mathlib.Core.Path.{◌≡◌, refl, ap, ◌∙◌}
use native.Mathlib.Nat.{pow-suc, one-le-pow, div-div-eq-div-mul, div-add-mod, mul-div_cancel}
use native.Mathlib.Omega.{arith}

-- The native operations run through binary digits on fuel. One unit more than enough changes nothing,
-- so fuel can be taken off down to the number itself.
module _ (rest : ℕ → ℕ) (digit : ℕ → ℕ → ℕ) where
  one_unit_more :
      (fuel x y : ℕ) → x ≤ fuel → digits rest digit (suc fuel) x y ≡ digits rest digit fuel x y
  one_unit_more zero zero y enough = refl
  one_unit_more zero (suc x) y enough = absurd (omega arith)
  one_unit_more (suc fuel) zero y enough = refl
  one_unit_more (suc fuel) (suc x) y enough =
      ap (λ (high : ℕ). high * 2 + digit (suc x % 2) (y % 2))
        (one_unit_more fuel (suc x / 2) (y / 2) (omega arith))

  spare_fuel :
      (spare x y : ℕ) (fuel : ℕ)
      → fuel ≡ spare + x
      → digits rest digit fuel x y ≡ bitwise rest digit x y
  spare_fuel zero x y fuel split = ap (λ (t : ℕ). digits rest digit t x y) (omega arith)
  spare_fuel (suc spare) x y zero split = absurd (omega arith)
  spare_fuel (suc spare) x y (suc fuel) split =
      one_unit_more fuel x y (omega arith) ∙ spare_fuel spare x y fuel (omega arith)

  -- Both numbers lose their lowest digit; what is done with the digits of the second number alone,
  -- once the first is used up, has to agree.
  halved :
      (x y : ℕ)
      → rest y ≡ rest (y / 2) * 2 + digit 0 (y % 2)
      → bitwise rest digit x y ≡ bitwise rest digit (x / 2) (y / 2) * 2 + digit (x % 2) (y % 2)
  halved zero y agrees = agrees
  halved (suc x) y agrees =
      ap (λ (high : ℕ). high * 2 + digit (suc x % 2) (y % 2))
        (spare_fuel (x - suc x / 2) (suc x / 2) (y / 2) x (omega arith))

bit_and_step : (x y : ℕ) → bit_and x y ≡ bit_and (x / 2) (y / 2) * 2 + min (x % 2) (y % 2)
bit_and_step x y = omega (
  arith,
  bit_and-bitwise x y,
  halved (λ _. 0) min x y (omega arith),
  bit_and-bitwise (x / 2) (y / 2),
)

bit_or_step : (x y : ℕ) → bit_or x y ≡ bit_or (x / 2) (y / 2) * 2 + max (x % 2) (y % 2)
bit_or_step x y = omega (
  arith,
  bit_or-bitwise x y,
  halved (λ t. t) max x y (omega arith),
  bit_or-bitwise (x / 2) (y / 2),
)

pub zero-bit_or : (b : ℕ) → bit_or 0 b ≡ b
zero-bit_or b = bit_or-bitwise 0 b

double_shift : (q k : ℕ) → q * 2 ^ suc k ≡ 2 * (q * 2 ^ k)
double_shift q k = omega (arith, ap (λ (t : ℕ). q * t) (pow-suc 2 k))

-- A field `q` set above the `k` low bits that `r` occupies.
pub bit_or_field : (k q r : ℕ) → r < 2 ^ k → bit_or r (q * 2 ^ k) ≡ r + q * 2 ^ k
bit_or_field zero q r fits = ground (arith, zero-bit_or q)
bit_or_field (suc k) q r fits = ground (
  arith,
  bit_or_step r (q * 2 ^ suc k),
  double_shift q k,
  pow-suc 2 k,
  bit_or_field k q (r / 2) (omega (arith, pow-suc 2 k)),
)

bit_or-zero_below : (n x : ℕ) → x < n → bit_or x 0 ≡ x
bit_or-zero_below zero x h = absurd (omega arith)
bit_or-zero_below (suc n) zero h = refl
bit_or-zero_below (suc n) (suc x) h =
    omega (arith, bit_or_step (suc x) 0, bit_or-zero_below n (suc x / 2) (omega arith))

pub field_bit_or : (k q r : ℕ) → r < 2 ^ k → bit_or (q * 2 ^ k) r ≡ q * 2 ^ k + r
field_bit_or zero q r fits = ground (arith, bit_or-zero_below (suc q) q (omega arith))
field_bit_or (suc k) q r fits = ground (
  arith,
  bit_or_step (q * 2 ^ suc k) r,
  double_shift q k,
  pow-suc 2 k,
  field_bit_or k q (r / 2) (omega (arith, pow-suc 2 k)),
)

half_pow : (k x : ℕ) → x / 2 / 2 ^ k ≡ x / 2 ^ suc k
half_pow k x = div-div-eq-div-mul x 2 (2 ^ k) ∙ ap (λ (t : ℕ). x / t) (omega (arith, pow-suc 2 k))

-- A mask that is shifted up reads the number shifted down.
bit_and_shifted : (k m x : ℕ) → bit_and x (m * 2 ^ k) ≡ bit_and (x / 2 ^ k) m * 2 ^ k
bit_and_shifted zero m x = ground arith
bit_and_shifted (suc k) m x = omega (
  arith,
  bit_and_step x (m * 2 ^ suc k),
  double_shift m k,
  double_shift (bit_and (x / 2 ^ suc k) m) k,
  ap (λ (t : ℕ). bit_and (x / 2) t) half_mask,
  bit_and_shifted k m (x / 2),
  ap (λ (t : ℕ). bit_and t m * 2 ^ k) (half_pow k x),
)
  where
    half_mask : m * 2 ^ suc k / 2 ≡ m * 2 ^ k
    half_mask = omega (arith, double_shift m k)

bit_and-zero_below : (n x : ℕ) → x < n → bit_and x 0 ≡ 0
bit_and-zero_below zero x h = absurd (omega arith)
bit_and-zero_below (suc n) zero h = refl
bit_and-zero_below (suc n) (suc x) h =
    omega (arith, bit_and_step (suc x) 0, bit_and-zero_below n (suc x / 2) (omega arith))

-- A mask of `k` low bits is the remainder by `2 ^ k`.
pub bit_and_low : (k x : ℕ) → bit_and x (2 ^ k - 1) ≡ x % 2 ^ k
bit_and_low zero x = ground (arith, bit_and-zero_below (suc x) x (omega arith))
bit_and_low (suc k) x = omega (
  arith,
  bit_and_step x (2 ^ suc k - 1),
  one-le-pow k 2 two,
  pow-suc 2 k,
  bit_and_low k (x / 2),
  ap (λ (t : ℕ). bit_and (x / 2) t) half_mask,
  div-add-mod (x / 2) (2 ^ k),
  div-add-mod x (2 ^ suc k),
  half_pow k x,
  ap (λ (t : ℕ). t * (x / 2 ^ suc k)) (pow-suc 2 k),
  ap (λ (t : ℕ). 2 ^ k * t) (half_pow k x),
)
  where
    two : 1 ≤ 2
    two = omega arith

    half_mask : (2 ^ suc k - 1) / 2 ≡ 2 ^ k - 1
    half_mask = omega (arith, one-le-pow k 2 two, pow-suc 2 k)

-- The field of `w` bits from bit `k` up, as the code cuts it out.
pub bit_and_field : (k w x : ℕ) → bit_and x ((2 ^ w - 1) * 2 ^ k) / 2 ^ k ≡ x / 2 ^ k % 2 ^ w
bit_and_field k w x =
    rw (bit_and_shifted k (2 ^ w - 1) x, bit_and_low w (x / 2 ^ k))
      (mul-div_cancel (x / 2 ^ k % 2 ^ w) (one-le-pow k 2 (omega arith)))
