-- ===== src/MentalPoker/Bases.antt =====
-- deck.go: the base deck, and the card index that a bare point shows.
use brc100_poker.Base.{
  ℕ, zero, suc, ◌+◌, ◌<◌, ◌≤◌, ◌≡◌, ◌≢◌, refl, sym, ap, subst, true, false, Bool-cases, inl, inr,
  some, List, [], ◌∷◌, map, arith, ◌==◌, pos, text_eq, text_eq_iff, text_eq_refl, length, get_elem?,
  All,
}
use brc100_poker.MentalPoker.{Curve, IsGroup, ok, card_point}
use brc100_poker.MentalPoker.Deck.{base_from, base_deck, match_from, card_index_of}
use brc100_poker.MentalPoker.Masks.{IsOn}
use brc100_poker.MentalPoker.Shuffles.{cards}

module _ (c : Curve) (g : IsGroup c) where
  -- The points of `k` cards from card `i` on.
  abbrev bases : ℕ → ℕ → List c.Coords
  bases i zero = []
  bases i (suc k) = c.base_mult (i + 1) ∷ bases (suc i) k

  card_point-some :
      (i : ℕ) → i + 1 < c.order → card_point c (pos i) ≡ ok (some (c.base_mult (i + 1)))
  unfolding card_point
  card_point-some i h = ground (arith, h)

  base_from-bases : (i k : ℕ) → i + k < c.order → base_from c i k ≡ ok (map some (bases i k))
  unfolding base_from
  base_from-bases i zero h = refl
  base_from-bases i (suc k) h =
      let first = card_point-some i (omega (arith, h)) in
      let rest = base_from-bases (suc i) k (omega (arith, h)) in rw first (rw rest refl)

  bases-length : (i k : ℕ) → length (bases i k) ≡ k
  bases-length i zero = refl
  bases-length i (suc k) = ap suc (bases-length (suc i) k)

  bases-IsOn : (i k : ℕ) → i + k < c.order → All (IsOn c g) (bases i k)
  bases-IsOn i zero h = tt
  bases-IsOn i (suc k) h =
      (g.base_on (i + 1) (omega arith) (omega (arith, h)), bases-IsOn (suc i) k (omega (arith, h)))

  bases-at :
      (i k j m : ℕ) → j < k → m ≡ i + j → get_elem? (bases i k) j ≡ some (c.base_mult (m + 1))
  bases-at i zero j m h e = elim h [ ]
  bases-at i (suc k) zero m h e =
      let same : m ≡ i = omega (arith, e) in ap (λ n. some (c.base_mult (n + 1))) (sym same)
  bases-at i (suc k) (suc j) m h e = bases-at (suc i) k j m (omega (arith, h)) (omega (arith, e))

  bases_differ :
      (i j : ℕ)
      → i ≢ j
      → i + 1 < c.order
      → j + 1 < c.order
      → text_eq (c.compress (c.base_mult (i + 1))) (c.compress (c.base_mult (j + 1))) ≡ false
  bases_differ i j ne hi hj =
      let no : text_eq (c.compress (c.base_mult (i + 1))) (c.compress (c.base_mult (j + 1)))
          ≢ true =
        λ e.
          let same = g.compress_base (i + 1) (j + 1) (omega arith) hi (omega arith) hj (
            (text_eq_iff (c.compress (c.base_mult (i + 1))) (c.compress (c.base_mult (j + 1)))).0
              e) in
          ne (omega (arith, same)) in
      ground (arith, no)

  match_from-finds :
      (i k m : ℕ)
      → i ≤ m
      → m < i + k
      → i + k < c.order
      → match_from c (c.compress (c.base_mult (m + 1))) i k ≡ ok m
  unfolding match_from
  match_from-finds i zero m l h b = ground (arith, l, h)
  match_from-finds i (suc k) m l h b =
      let first = card_point-some i (omega (arith, b)) in
      let on = g.base_on (i + 1) (omega arith) (omega (arith, b)) in
      let here : m ≡ i
          → text_eq (c.compress (c.base_mult (i + 1))) (c.compress (c.base_mult (m + 1))) ≡ true =
        λ e.
          subst
            (λ n.
              text_eq (c.compress (c.base_mult (i + 1))) (c.compress (c.base_mult (n + 1))) ≡ true)
            (sym e) (text_eq_refl (c.compress (c.base_mult (i + 1)))) in
      elim (Bool-cases (m == i)) [
        | inl e ↦ ground (arith, first, on, here (ground (arith, e)), e)
        | inr other_card ↦
            let ne : i ≢ m = ground (arith, other_card) in
            let other = bases_differ i m ne (omega (arith, b)) (omega (arith, h, b)) in
            let rest =
              match_from-finds (suc i) k m (omega (arith, l, ne)) (omega (arith, h))
                (omega (arith, b)) in
            ground (arith, first, on, other, rest)
      ]

  -- The deck of the cards `0` to `n - 1`.
  pub base_deck-cards :
      (n : ℕ)
      → 0 < n
      → n < c.order
      → (ps : List c.Coords) × (base_deck c (pos n) ≡ ok (cards c g ps))
        × (length ps ≡ n)
        × All (IsOn c g) ps
        × ((i : ℕ) → i < n → get_elem? ps i ≡ some (c.base_mult (i + 1)))
  unfolding base_deck
  base_deck-cards zero h b = elim h [ ]
  base_deck-cards (suc n) h b = (
    bases 0 (suc n),
    base_from-bases 0 (suc n) (omega (arith, b)),
    bases-length 0 (suc n),
    bases-IsOn 0 (suc n) (omega (arith, b)),
    (λ i small. bases-at 0 (suc n) i i small (omega arith)),
  )

  -- A bare base point shows its card.
  pub card_index_of-base :
      (n i : ℕ) → i < n → n < c.order → card_index_of c (some (c.base_mult (i + 1))) n ≡ ok i
  unfolding card_index_of
  card_index_of-base n i h b =
      let on = g.base_on (i + 1) (omega arith) (omega (arith, h, b)) in
      let found = match_from-finds 0 n i (omega arith) (omega (arith, h)) (omega (arith, b)) in
      ground (arith, on, found)
