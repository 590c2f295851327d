-- ===== src/MentalPoker/Remasks.antt =====
-- deck.go: one remask step strips the shuffle scalar of a seat everywhere, and puts a scalar of its
-- own on each position.
use brc100_poker.Base.{
  ℕ, zero, suc, ◌≡◌, refl, ap, subst, ◌∙◌, some, List, [], ◌∷◌, map, arith, length, get_elem?, All,
  some_eq,
}
use brc100_poker.MentalPoker.{Curve, IsGroup, ok}
use brc100_poker.MentalPoker.Deck.{remask_one, remask_from, remask_step}
use brc100_poker.MentalPoker.Masks.{
  IsScalar, IsOn, mult-IsOn, scalar_valid-IsScalar, mask-on, inverse-cancels,
}
use brc100_poker.MentalPoker.Shuffles.{cards, length-map}

module _ (c : Curve) (g : IsGroup c) where
  remask_one-on :
      (i s : ℕ) (p : c.Coords)
      → IsScalar c g i
      → IsScalar c g s
      → IsOn c g p
      → remask_one c (some i) (some p) (some s) ≡ ok (some (c.mult (c.mult p i) s))
  unfolding remask_one
  remask_one-on i s p is ss o = ground (
    arith,
    scalar_valid-IsScalar c g s ss,
    mask-on c g p i o is,
    mask-on c g (c.mult p i) s (mult-IsOn c g p i o is) ss,
  )

  -- The points after the loop.
  abbrev remasked : ℕ → List c.Coords → List ℕ → List c.Coords
  remasked i [] ss = []
  remasked i (p ∷ ps) [] = []
  remasked i (p ∷ ps) (s ∷ ss) = c.mult (c.mult p i) s ∷ remasked i ps ss

  remask_from-on :
      (i : ℕ) (ps : List c.Coords) (ss : List ℕ)
      → IsScalar c g i
      → All (IsScalar c g) ss
      → All (IsOn c g) ps
      → length ss ≡ length ps
      → remask_from c (some i) (cards c g ps) (map some ss) ≡ ok (cards c g (remasked i ps ss))
  unfolding remask_from
  remask_from-on i [] ss is s o l = refl
  remask_from-on i (p ∷ ps) [] is s o l = absurd (omega arith)
  remask_from-on i (p ∷ ps) (t ∷ ss) is s o l =
      ground
        (arith, remask_one-on i t p is s.0 o.0, remask_from-on i ps ss is s.1 o.1 (omega arith))

  remasked-IsOn :
      (i : ℕ) (ps : List c.Coords) (ss : List ℕ)
      → IsScalar c g i
      → All (IsScalar c g) ss
      → All (IsOn c g) ps
      → length ss ≡ length ps
      → All (IsOn c g) (remasked i ps ss) × (length (remasked i ps ss) ≡ length ps)
  remasked-IsOn i [] ss is s o l = (tt, refl)
  remasked-IsOn i (p ∷ ps) [] is s o l = absurd (omega arith)
  remasked-IsOn i (p ∷ ps) (t ∷ ss) is s o l =
      let (os, m) = remasked-IsOn i ps ss is s.1 o.1 (omega arith) in
      ((mult-IsOn c g (c.mult p i) t (mult-IsOn c g p i o.0 is) s.0, os), ap suc m)

  remasked-at :
      (i : ℕ) (ps : List c.Coords) (ss : List ℕ) (k t : ℕ) (p : c.Coords)
      → get_elem? ss k ≡ some t
      → get_elem? ps k ≡ some p
      → get_elem? (remasked i ps ss) k ≡ some (c.mult (c.mult p i) t)
  remasked-at i [] ss k t p e f = absurd (cc f)
  remasked-at i (q ∷ ps) [] k t p e f = absurd (cc e)
  remasked-at i (q ∷ ps) (u ∷ ss) zero t p e f =
      subst (λ x. some (c.mult (c.mult q i) u) ≡ some (c.mult (c.mult x i) t)) (some_eq f)
        (ap (λ x. some (c.mult (c.mult q i) x)) (some_eq e))
  remasked-at i (q ∷ ps) (u ∷ ss) (suc k) t p e f = remasked-at i ps ss k t p e f

  -- A step with scalars in range succeeds; what the shuffle scalar masked at a position is masked
  -- there by the scalar of the position instead.
  pub remask_step-moves :
      (d : ℕ) (ps : List c.Coords) (ss : List ℕ)
      → IsScalar c g d
      → All (IsScalar c g) ss
      → All (IsOn c g) ps
      → length ss ≡ length ps
      → (ps' : List c.Coords) × (remask_step c (cards c g ps) (some d) (map some ss)
          ≡ ok (cards c g ps'))
        × (length ps' ≡ length ps)
        × All (IsOn c g) ps'
        × ((k t : ℕ) (b : c.Coords)
            → IsOn c g b
            → get_elem? ss k ≡ some t
            → get_elem? ps k ≡ some (c.mult b d)
            → get_elem? ps' k ≡ some (c.mult b t))
  remask_step-moves d ps ss s all_s o l =
      let (i, is, e, cancel) = inverse-cancels c g d s in
      let (os, size) = remasked-IsOn i ps ss is all_s o l in
      (
        remasked i ps ss,
        unfold remask_step in
            (ground (
              arith,
              e,
              scalar_valid-IsScalar c g d s,
              remask_from-on i ps ss is all_s o l,
              length-map some ss,
              length-map some ps,
              l,
            )),
        size,
        os,
        (λ k t b on f h.
            remasked-at i ps ss k t (c.mult b d) f h ∙ ap (λ x. some (c.mult x t)) (cancel b on)),
      )
