-- ===== src/Cards.antt =====
-- internal/game/cards/cards.go: cards, their canonical index and the ordered deck.
-- A rank is an int in the source; no code path builds a negative one, so it is a number here.
-- A suit is the uint8 of the source, and may lie outside 0..3.
pub mod Laws
use brc100_poker.Base.{
  ℕ, zero, suc, ◌+◌, ◌*◌, ◌-◌, ◌/◌, ◌%◌, Bool, true, false, ◌&&◌, ◌||◌, Option, none, some, List,
  [], ◌∷◌, ◌++◌, leb, ltb, ◌==◌, if◌then◌else◌, ℤ, pos, negsuc, sub_ℕ, get_elem?, set,
}

abbrev pub spades : ℕ
spades = 0

abbrev pub hearts : ℕ
hearts = 1

abbrev pub diamonds : ℕ
diamonds = 2

abbrev pub clubs : ℕ
clubs = 3

abbrev pub min_rank : ℕ
min_rank = 2

abbrev pub max_rank : ℕ
max_rank = 14

abbrev pub deck_size : ℕ
deck_size = 52

pub record Card : Type 0 where
  pub rank : ℕ
  pub suit : ℕ

-- `(c.Rank-MinRank)*4 + int(c.Suit)`, negative for a rank below two.
unfoldable pub index : Card → ℤ
index c = sub_ℕ (c.rank * 4 + c.suit) (min_rank * 4)

-- The error of an index out of range is `none`.
unfoldable pub from_index : ℤ → Option Card
from_index (negsuc n) = none
from_index (pos i) =
    if leb deck_size i then none else some (record { rank = i / 4 + min_rank; suit = i % 4 })

-- `Card.Valid`.
unfoldable pub is_valid : Card → Bool
is_valid c = leb min_rank c.rank && (leb c.rank max_rank && leb c.suit clubs)

-- `Suit.Red`.
unfoldable pub red : ℕ → Bool
red s = s == hearts || s == diamonds

-- `MustFromIndex`, whose panic is `none`, run from `i` for `n` positions.
unfoldable pub ordered_from : ℕ → ℕ → Option (List Card)
unfolding from_index
ordered_from i zero = some []
ordered_from i (suc n) =
    let rest = ordered_from (suc i) n in
    elim (from_index (pos i)) [
      | none ↦ none
      | some c ↦ elim rest [ none ↦ none | some cs ↦ some (c ∷ cs) ]
    ]

-- `Ordered`.
unfoldable pub ordered : Option (List Card)
unfolding ordered_from
ordered = ordered_from 0 deck_size

-- `d[i], d[j] = d[j], d[i]`; an index out of range is a panic.
unfoldable pub swap : ℕ → ℕ → List Card → Option (List Card)
swap i j d = elim (get_elem? d i) [
  | none ↦ none
  | some x ↦ elim (get_elem? d j) [ none ↦ none | some y ↦ some (set (set d i y) j x) ]
]

-- The loop of `Shuffled` from position `i` down to 1. The random source is a list of draws, one
-- for each round, and `n.Int64()` is the draw modulo the bound, as `rand.Int` promises.
unfoldable pub shuffle_from : ℕ → List ℕ → List Card → Option (List Card)
unfolding swap
shuffle_from zero draws d = some d
shuffle_from (suc i) [] d = none
shuffle_from (suc i) (r ∷ draws) d = elim (swap (suc i) (r % (i + 2)) d) [
  | none ↦ none
  | some d' ↦ shuffle_from i draws d'
]

-- `Shuffled`; a source that runs dry is the read error.
unfoldable pub shuffled : List ℕ → Option (List Card)
unfolding shuffle_from ordered
shuffled draws = elim ordered [ none ↦ none | some d ↦ shuffle_from 51 draws d ]
