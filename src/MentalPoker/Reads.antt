-- ===== src/MentalPoker/Reads.antt =====
-- deck.go: a deal by fair seats, and what its positions show to whoever holds the scalars of all seats.
use brc100_poker.Base.{
  ℕ, ◌+◌, ◌<◌, ◌≡◌, sym, subst, ◌∙◌, arith, some, List, All, length, get_elem?, get_elem?-map-some,
}
use brc100_poker.MentalPoker.{Curve, IsGroup, ok}
use brc100_poker.MentalPoker.Deck.{Deck, at, unmask_at}
use brc100_poker.MentalPoker.Masks.{IsScalar, masks, Reordered, unmask_all-Reordered}
use brc100_poker.MentalPoker.Shuffles.{cards, length-map}
use brc100_poker.MentalPoker.Bases.{base_deck-cards, card_index_of-base}
use brc100_poker.MentalPoker.Deals.{
  Secrets, place, column, deal, read, IsFair, column-scalars, place-lt, place-reaches,
  shuffle_all-moves, remask_all-moves,
}

module _ (c : Curve) (g : IsGroup c) where
  -- What a deal leaves: each card under the scalars of its place.
  deal-cards :
      (n : ℕ) (seats : List Secrets)
      → All (IsFair c g n) seats
      → 0 < n
      → n < c.order
      → (ps : List c.Coords) × (deal c seats n ≡ ok (cards c g ps))
        × (length ps ≡ n)
        × ((i : ℕ)
            → i < n
            → get_elem? ps (place seats i)
              ≡ some (masks c g (column seats (place seats i)) (c.base_mult (i + 1))))
  unfolding deal
  deal-cards n seats f low high =
      let (bs, base, size, on, bare) = base_deck-cards c g n low high in
      let (ps, shuffled, size', on', moved) = shuffle_all-moves c g n seats bs f size on in
      let (qs, remasked, size'', removed) = remask_all-moves c g n seats ps f size' on' in
      (
        qs,
        cc,
        size'',
        (λ i h.
            removed (place seats i) (c.base_mult (i + 1))
              (g.base_on (i + 1) (omega arith) (omega (arith, h, high)))
              (moved i (c.base_mult (i + 1)) (bare i h))),
      )

  read-shows :
      (n i q : ℕ) (ds es : List ℕ) (ps : List c.Coords)
      → i < n
      → n < c.order
      → All (IsScalar c g) ds
      → Reordered ds es
      → get_elem? ps q ≡ some (masks c g ds (c.base_mult (i + 1)))
      → read c (cards c g ps) q es n ≡ ok i
  unfolding read unmask_at at
  read-shows n i q ds es ps h high s r here =
      let on = g.base_on (i + 1) (omega arith) (omega (arith, h, high)) in
      let bare = unmask_all-Reordered c g (c.base_mult (i + 1)) r on s in
      let card = card_index_of-base c g n i h high in
      let found = get_elem?-map-some ps q here in ground (arith, found, bare, card)

  -- If every seat is fair and the deck has cards, fewer than the order of the curve, then a deal ends
  -- without an error in a deck of that size, where a deal is a chain: from the base deck, each seat
  -- applies its ShuffleStep to the deck of the seat before it, and then each its RemaskStep. Each
  -- card's final position is in the dealt deck, and the scalars of all seats for that position, taken
  -- in any order, unmask it to the card.
  pub deal-reads_each_card :
      (n i : ℕ) (seats : List Secrets) (es : List ℕ)
      → All (IsFair c g n) seats
      → 0 < n
      → n < c.order
      → i < n
      → Reordered (column seats (place seats i)) es
      → (d : Deck c) × (deal c seats n ≡ ok d)
        × (length d ≡ n)
        × (place seats i < n)
        × (read c d (place seats i) es n ≡ ok i)
  deal-reads_each_card n i seats es f low high h r =
      let (ps, done, size, shown) = deal-cards n seats f low high in
      let small = place-lt c g n i seats f h in
      let scalars = column-scalars c g n (place seats i) seats f small in
      (
        cards c g ps,
        done,
        length-map some ps ∙ size,
        small,
        read-shows n i (place seats i) (column seats (place seats i)) es ps h high scalars r
            (shown i h),
      )

  -- If every seat is fair and the deck has cards, fewer than the order of the curve, then each
  -- position of the dealt deck shows some card of the deck: the scalars of all seats for the position,
  -- taken in any order, unmask it to a card whose final position it is.
  pub deal-shows_each_position :
      (n q : ℕ) (seats : List Secrets) (es : List ℕ)
      → All (IsFair c g n) seats
      → n < c.order
      → q < n
      → Reordered (column seats q) es
      → (d : Deck c) × (i : ℕ) × (deal c seats n ≡ ok d)
        × (i < n)
        × (place seats i ≡ q)
        × (read c d q es n ≡ ok i)
  deal-shows_each_position n q seats es f high h r =
      let (i, small, at_q) = place-reaches c g n q seats f h in
      let back = subst (λ p. Reordered (column seats p) es) (sym at_q) r in
      let (d, done, size, lt, shown) =
        deal-reads_each_card n i seats es f (omega (arith, h)) high small back in
      (d, i, done, small, at_q, subst (λ p. read c d p es n ≡ ok i) at_q shown)
