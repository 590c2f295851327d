-- ===== src/Cards/Laws.antt =====
-- The index of a card and the card of an index are inverse, and the deck is listed by index.
use brc100_poker.Base.{◌≡◌, true, some, arith, ℤ}
use brc100_poker.Cards.{Card, index, from_index, is_valid}

-- A valid card is the card of its index.
pub from_index-index : (c : Card) → is_valid c ≡ true → from_index (index c) ≡ some c
unfolding from_index index is_valid
from_index-index c h = ground arith

-- The card of an index is valid and has that index.
pub index-from_index :
    (i : ℤ) {c : Card} → from_index i ≡ some c → (index c ≡ i) × (is_valid c ≡ true)
unfolding from_index index is_valid
index-from_index i e = ground arith

-- Two valid cards with one index are one card.
pub index-injective :
    (c d : Card) → is_valid c ≡ true → is_valid d ≡ true → index c ≡ index d → c ≡ d
unfolding index is_valid
index-injective c d hc hd e = ground arith
