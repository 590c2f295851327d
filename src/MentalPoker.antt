-- ===== src/MentalPoker.antt =====
-- internal/game/mentalpoker/curve.go: scalars, points, masking and unmasking. The curve of the SDK
-- and the modular inverse of math/big are a parameter, `Curve`, with the laws of a group of prime
-- order in `IsGroup`. A scalar and a point hold nil pointers until they are made: both are options.
pub mod Deck
pub mod Masks
pub mod Permutations
pub mod Shuffles
pub mod Remasks
pub mod Deals
pub mod Bases
pub mod Reads
use brc100_poker.Base.{
  ℕ, zero, suc, ◌+◌, ◌*◌, ◌/◌, ◌%◌, List, [], ◌∷◌, ◌++◌, ◌<◌, ◌≡◌, Bool, true, false, not, ◌&&◌,
  Option, none, some, ltb, leb, ◌==◌, if◌then◌else◌, ℤ, pos, negsuc, Text, length,
}

-- Coordinates, and what the SDK computes on them.
pub record Curve : Type 1 where
  pub Coords : Type 0
  pub order : ℕ
  pub on_curve : Coords → Bool
  pub mult : Coords → ℕ → Coords
  pub base_mult : ℕ → Coords
  pub mod_inverse : ℕ → Option ℕ
  pub compress : Coords → Text
  pub parse : Text → Option Coords
  pub coords_eq : Coords → Coords → Bool

-- The documented behaviour of the curve's operations on points of the curve and scalars in range.
pub record IsGroup (c : Curve) : Type 0 where
  pub mult_on :
      (p : c.Coords) (d : ℕ)
      → c.on_curve p ≡ true
      → 0 < d
      → d < c.order
      → c.on_curve (c.mult p d) ≡ true
  pub base_on : (k : ℕ) → 0 < k → k < c.order → c.on_curve (c.base_mult k) ≡ true
  pub mult_mult :
      (p : c.Coords) (a b : ℕ)
      → c.on_curve p ≡ true
      → c.mult (c.mult p a) b ≡ c.mult p (a * b % c.order)
  pub mult_one : (p : c.Coords) → c.on_curve p ≡ true → c.mult p 1 ≡ p
  pub inverse :
      (d : ℕ)
      → 0 < d
      → d < c.order
      → (i : ℕ) × (c.mod_inverse d ≡ some i) × (0 < i) × (i < c.order) × (d * i % c.order ≡ 1)
  pub compress_base :
      (i j : ℕ)
      → 0 < i
      → i < c.order
      → 0 < j
      → j < c.order
      → c.compress (c.base_mult i) ≡ c.compress (c.base_mult j)
      → i ≡ j

-- One constructor for each error of the package; `index_panic` is a read out of bounds.
pub data Fault : Type 0 where
  invalid_scalar invalid_point no_inverse zero_product masked_off_curve : Fault
  negative_index index_too_large bad_deck_size empty_deck position_out_of_range : Fault
  bad_permutation_size entry_out_of_range entry_repeated bad_scalar_count no_match : Fault
  bad_length unparsable index_panic : Fault

pub data Result {ℓ} (A : Type ℓ) : Type ℓ where
  ok : A → Result A
  err : Fault → Result A

infixl 5 ◌>>=◌
abbrev pub ◌>>=◌ {ℓ κ} : {A : Type ℓ} {B : Type κ} → Result A → (A → Result B) → Result B
ok a >>= f = f a
err e >>= f = err e

abbrev pub Scalar : Type 0
Scalar = Option ℕ

-- `BigEndian.PutUint64` and `PutUint32`, and `FillBytes`: a number in so many bytes.
abbrev pub big_endian : ℕ → ℕ → Text
big_endian zero n = []
big_endian (suc k) n = big_endian k (n / 256) ++ (n % 256 ∷ [])

-- `SetBytes`, on from a number that has been read.
unfoldable pub number_from : ℕ → Text → ℕ
number_from n [] = n
number_from n (b ∷ bs) = number_from (n * 256 + b) bs

-- `SetBytes`.
abbrev pub number : Text → ℕ
number bs = number_from 0 bs

-- `Bytes` of a scalar.
abbrev pub scalar_bytes : Scalar → Text
scalar_bytes none = []
scalar_bytes (some d) = big_endian 32 d

module _ (c : Curve) where
  abbrev pub Point : Type 0
  Point = Option c.Coords

  abbrev pub in_range : ℕ → Bool
  in_range d = not (d == 0) && ltb d c.order

  -- `Valid` of a scalar.
  abbrev pub scalar_valid : Scalar → Bool
  scalar_valid none = false
  scalar_valid (some d) = in_range d

  -- `ScalarFromBytes`.
  unfoldable pub scalar_from_bytes : Text → Result Scalar
  scalar_from_bytes b =
      if not (length b == 32)
      then err bad_length
      else if number b == 0
      then err invalid_scalar
      else if leb c.order (number b)
      then err invalid_scalar
      else ok (some (number b))

  -- `Inverse`.
  unfoldable pub inverse : Scalar → Result Scalar
  inverse none = err invalid_scalar
  inverse (some d) =
      if not (in_range d)
      then err invalid_scalar
      else elim (c.mod_inverse d) [ none ↦ err no_inverse | some i ↦ ok (some i) ]

  -- `Mul`.
  unfoldable pub mul : Scalar → Scalar → Result Scalar
  mul none t = err invalid_scalar
  mul (some d) none = err invalid_scalar
  mul (some d) (some e) =
      let p = d * e % c.order in
      if not (in_range d && in_range e)
      then err invalid_scalar
      else if p == 0
      then err zero_product
      else ok (some p)

  -- `CardPoint`.
  unfoldable pub card_point : ℤ → Result Point
  card_point (negsuc n) = err negative_index
  card_point (pos i) =
      if leb c.order (i + 1) then err index_too_large else ok (some (c.base_mult (i + 1)))

  -- `Valid` of a point.
  abbrev pub point_valid : Point → Bool
  point_valid none = false
  point_valid (some p) = c.on_curve p

  -- `PointFromBytes`.
  unfoldable pub point_from_bytes : Text → Result Point
  point_from_bytes b = if not (length b == 33) then err bad_length else elim (c.parse b) [
    | none ↦ err unparsable
    | some p ↦ if not (c.on_curve p) then err invalid_point else ok (some p)
  ]

  -- `Mask` of coordinates by a number that is in range.
  unfoldable pub mask_coords : c.Coords → ℕ → Result Point
  mask_coords p d =
      if not (c.on_curve (c.mult p d)) then err masked_off_curve else ok (some (c.mult p d))

  -- `Mask`.
  unfoldable pub mask : Point → Scalar → Result Point
  mask none s = err invalid_point
  mask (some p) none = if not (c.on_curve p) then err invalid_point else err invalid_scalar
  mask (some p) (some d) =
      if not (c.on_curve p)
      then err invalid_point
      else if not (in_range d)
      then err invalid_scalar
      else mask_coords p d

  -- `Unmask` of a point.
  unfoldable pub unmask : Point → Scalar → Result Point
  unmask p s = do inv ← inverse s; mask p inv

  -- `Equal` of two points.
  unfoldable pub point_equal : Point → Point → Bool
  point_equal none none = true
  point_equal none (some q) = false
  point_equal (some p) none = false
  point_equal (some p) (some q) = c.coords_eq p q
