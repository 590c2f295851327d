-- ===== src/MentalPoker/Masks.antt =====
-- curve.go: masks commute, and each is stripped by its own scalar, in any order.
use native.Mathlib.Nat.{mul_comm}
use brc100_poker.Base.{
  ℕ, ◌*◌, ◌%◌, ◌<◌, ◌≡◌, refl, sym, ap, ◌∙◌, true, some, List, [], ◌∷◌, map, arith, All,
}
use brc100_poker.MentalPoker.{Curve, IsGroup, ok, scalar_valid, inverse, mask_coords, mask, unmask}
use brc100_poker.MentalPoker.Deck.{unmask_all}

-- One list is the other in some order.
pub data Reordered {ℓ} {A : Type ℓ} : List A → List A → Type ℓ where
  done : Reordered [] []
  keep : (a : A) {as' bs : List A} → Reordered as' bs → Reordered (a ∷ as') (a ∷ bs)
  swap : (a b : A) (as' : List A) → Reordered (a ∷ b ∷ as') (b ∷ a ∷ as')
  chain : {as' bs cs : List A} → Reordered as' bs → Reordered bs cs → Reordered as' cs

module _ (c : Curve) (g : IsGroup c) where
  abbrev pub IsScalar : ℕ → Type 0
  IsScalar d = (0 < d) × (d < c.order)

  abbrev pub IsOn : c.Coords → Type 0
  IsOn p = c.on_curve p ≡ true

  pub mult-IsOn : (p : c.Coords) (d : ℕ) → IsOn p → IsScalar d → IsOn (c.mult p d)
  mult-IsOn p d o s = g.mult_on p d o s.0 s.1

  pub scalar_valid-IsScalar : (d : ℕ) → IsScalar d → scalar_valid c (some d) ≡ true
  scalar_valid-IsScalar d s = ground (arith, s.0, s.1)

  pub mask-on :
      (p : c.Coords) (d : ℕ)
      → IsOn p
      → IsScalar d
      → mask c (some p) (some d) ≡ ok (some (c.mult p d))
  unfolding mask mask_coords
  mask-on p d o s = ground (arith, o, s.0, s.1, mult-IsOn p d o s)

  pub mult_comm : (p : c.Coords) (a b : ℕ) → IsOn p → c.mult (c.mult p a) b ≡ c.mult (c.mult p b) a
  mult_comm p a b o =
      g.mult_mult p a b o
      ∙ ap (λ n. c.mult p (n % c.order)) (mul_comm a b)
      ∙ sym (g.mult_mult p b a o)

  mult_cancel : (p : c.Coords) (d i : ℕ) → IsOn p → d * i % c.order ≡ 1 → c.mult (c.mult p d) i ≡ p
  mult_cancel p d i o e = g.mult_mult p d i o ∙ ap (c.mult p) e ∙ g.mult_one p o

  -- The scalar that strips what `d` applied.
  pub inverse-cancels :
      (d : ℕ)
      → IsScalar d
      → (i : ℕ) × IsScalar i
        × (inverse c (some d) ≡ ok (some i))
        × ((p : c.Coords) → IsOn p → c.mult (c.mult p d) i ≡ p)
  unfolding inverse
  inverse-cancels d s =
      let (i, e, low, high, one) = g.inverse d s.0 s.1 in
      (i, (low, high), ground (arith, e, s.0, s.1), (λ p o. mult_cancel p d i o one))

  pub unmask-on :
      (p : c.Coords) (d : ℕ)
      → IsOn p
      → IsScalar d
      → unmask c (some (c.mult p d)) (some d) ≡ ok (some p)
  unfolding unmask
  unmask-on p d o s =
      let (i, is, e, cancel) = inverse-cancels d s in
      let masked = mask-on (c.mult p d) i (mult-IsOn p d o s) is in
      ground (arith, e, masked, cancel p o)

  -- A point under the masks of a list.
  abbrev pub masks : List ℕ → c.Coords → c.Coords
  masks [] p = p
  masks (d ∷ ds) p = masks ds (c.mult p d)

  pub masks-IsOn : (ds : List ℕ) (p : c.Coords) → IsOn p → All IsScalar ds → IsOn (masks ds p)
  masks-IsOn [] p o s = o
  masks-IsOn (d ∷ ds) p o s = masks-IsOn ds (c.mult p d) (mult-IsOn p d o s.0) s.1

  pub masks-mult :
      (ds : List ℕ) (p : c.Coords) (a : ℕ)
      → IsOn p
      → All IsScalar ds
      → masks ds (c.mult p a) ≡ c.mult (masks ds p) a
  masks-mult [] p a o s = refl
  masks-mult (d ∷ ds) p a o s =
      ap (masks ds) (mult_comm p a d o) ∙ masks-mult ds (c.mult p d) a (mult-IsOn p d o s.0) s.1

  pub masks-Reordered :
      {ds es : List ℕ} (p : c.Coords)
      → Reordered ds es
      → IsOn p
      → All IsScalar ds
      → (masks ds p ≡ masks es p) × All IsScalar es
  masks-Reordered p done o s = (refl, tt)
  masks-Reordered p (keep a r) o s =
      let (e, t) = masks-Reordered (c.mult p a) r (mult-IsOn p a o s.0) s.1 in (e, (s.0, t))
  masks-Reordered p (swap a b ds) o s = (ap (masks ds) (mult_comm p a b o), (s.1.0, (s.0, s.1.1)))
  masks-Reordered p (chain r q) o s =
      let (e, t) = masks-Reordered p r o s in let (f, u) = masks-Reordered p q o t in (e ∙ f, u)

  pub unmask_all-masks :
      (ds : List ℕ) (p : c.Coords)
      → IsOn p
      → All IsScalar ds
      → unmask_all c (map some ds) (some (masks ds p)) ≡ ok (some p)
  unfolding unmask_all
  unmask_all-masks [] p o s = refl
  unmask_all-masks (d ∷ ds) p o s =
      let rest = unmask_all-masks ds p o s.1 in
      let first = unmask-on (masks ds p) d (masks-IsOn ds p o s.1) s.0 in
      let valid = scalar_valid-IsScalar d s.0 in
      let moved = masks-mult ds p d o s.1 in rw moved (ground (arith, rest, first, valid))

  -- The masks of a list are stripped by its scalars in any order.
  pub unmask_all-Reordered :
      {ds es : List ℕ} (p : c.Coords)
      → Reordered ds es
      → IsOn p
      → All IsScalar ds
      → unmask_all c (map some es) (some (masks ds p)) ≡ ok (some p)
  unmask_all-Reordered {ds} {es} p r o s =
      let (e, t) = masks-Reordered p r o s in rw e (unmask_all-masks es p o t)
