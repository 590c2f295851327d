-- ===== src/Tests/CardTests.antt =====
-- Cards and hands at concrete inputs.
use brc100_poker.Base.{ℕ, ◌≡◌, refl, [], ◌∷◌, length}
use brc100_poker.Cards.{Card}
use brc100_poker.Eval.{straight_flush, full_house, score5, combinations}

abbrev ace_of_clubs : Card
ace_of_clubs = record { rank = 14; suit = 3 }

abbrev card : ℕ → ℕ → Card
card r s = record { rank = r; suit = s }

-- The wheel in one suit is a straight flush, five high.
wheel :
    score5 (card 14 2 ∷ card 2 2 ∷ card 3 2 ∷ card 4 2 ∷ card 5 2 ∷ []) ≡ (straight_flush, 0x850000)
unfolding score5
wheel = refl

boat : score5 (card 9 0 ∷ card 9 1 ∷ card 9 2 ∷ card 4 2 ∷ card 4 3 ∷ []) ≡ (full_house, 0x694000)
unfolding score5
boat = refl

combinations_count : length (combinations 7 5) ≡ 21
unfolding combinations
combinations_count = refl
