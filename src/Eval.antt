-- ===== src/Eval.antt =====
-- internal/game/eval/eval.go: the score of five cards, and the best hand among more.
-- The array of five cards is a list, `rankCount` and `suitCount` are functions of the rank and the
-- suit, and an error is `none`.
use brc100_poker.Base.{
  ℕ, zero, suc, ◌+◌, ◌*◌, ◌-◌, ◌^◌, Bool, not, ◌&&◌, ◌||◌, Option, none, some, List, [], ◌∷◌, ◌++◌,
  reverse, leb, ltb, ◌==◌, if◌then◌else◌, ℤ, pos, negsuc, length, get_elem?, count_if, all,
}
use brc100_poker.Cards.{Card, is_valid}

pub data Category : Type 0 where
  high_card pair two_pair trips straight flush full_house quads straight_flush : Category

-- `int64(cat)`.
abbrev pub category_code : Category → ℕ
category_code high_card = 0
category_code pair = 1
category_code two_pair = 2
category_code trips = 3
category_code straight = 4
category_code flush = 5
category_code full_house = 6
category_code quads = 7
category_code straight_flush = 8

abbrev pub hand_size : ℕ
hand_size = 5

pub record EvalResult : Type 0 where
  pub category : Category
  pub score : ℕ
  pub best : List Card

-- `rankCount[r]`.
unfoldable pub rank_count : List Card → ℕ → ℕ
rank_count five r = count_if (λ c. c.rank == r) five

-- `suitCount[s]`.
unfoldable pub suit_count : List Card → ℕ → ℕ
suit_count five s = count_if (λ c. c.suit == s) five

unfoldable pub is_flush : List Card → Bool
unfolding suit_count
is_flush five =
    suit_count five 0 == hand_size
    || (suit_count five 1 == hand_size
        || (suit_count five 2 == hand_size || suit_count five 3 == hand_size))

-- `present[r]`.
unfoldable pub present : List Card → ℕ → Bool
unfolding rank_count
present five r = ltb 0 (rank_count five r)

-- The loop `for hi := MaxRank; hi >= 6; hi--`, with `hi = k + 5` and `k` rounds left; 0 for none.
unfoldable pub straight_scan : List Card → ℕ → ℕ
unfolding present
straight_scan five zero = 0
straight_scan five (suc k) =
    let rest = straight_scan five k in
    if present five (k + 6)
      && (present five (k + 5)
          && (present five (k + 4) && (present five (k + 3) && present five (k + 2))))
    then k + 6
    else rest

-- `straightHigh`, the wheel included.
unfoldable pub straight_high : List Card → ℕ
unfolding straight_scan present
straight_high five =
    let hi = straight_scan five 9 in
    if hi == 0
      && (present five 14
          && (present five 2 && (present five 3 && (present five 4 && present five 5))))
    then 5
    else hi

-- The ranks that occur, highest first: rounds left `k`, rank `k + 1`.
unfoldable pub ranks_down : List Card → ℕ → List ℕ
unfolding rank_count
ranks_down five zero = []
ranks_down five (suc k) =
    let rest = ranks_down five k in if ltb 0 (rank_count five (k + 2)) then (k + 2) ∷ rest else rest

-- The inner loop of `sortByCountThenRank`: `b` moves left past the sorted prefix, which is held
-- in reverse, until an element that may stand before it.
unfoldable pub sink_rank : (ℕ → ℕ) → ℕ → List ℕ → List ℕ
sink_rank count b [] = b ∷ []
sink_rank count b (a ∷ prefix) =
    let rest = sink_rank count b prefix in
    if ltb (count b) (count a) || (count a == count b && leb b a) then b ∷ a ∷ prefix else a ∷ rest

-- The outer loop, with the sorted prefix in reverse.
unfoldable pub sort_ranks : (ℕ → ℕ) → List ℕ → List ℕ → List ℕ
unfolding sink_rank
sort_ranks count prefix [] = reverse prefix
sort_ranks count prefix (r ∷ rs) = sort_ranks count (sink_rank count r prefix) rs

-- `byCount` once sorted.
unfoldable pub by_count : List Card → List ℕ
unfolding ranks_down sort_ranks rank_count
by_count five = sort_ranks (rank_count five) [] (ranks_down five 13)

abbrev pub rank_at : List ℕ → ℕ → ℕ
rank_at rs i = elim (get_elem? rs i) [ none ↦ 0 | some r ↦ r ]

-- `groupSize`.
unfoldable pub group_size : List Card → List ℕ → ℕ → ℕ
unfolding rank_count
group_size five groups i = elim (get_elem? groups i) [ none ↦ 0 | some r ↦ rank_count five r ]

unfoldable pub repeat_rank : ℕ → ℕ → List ℕ → List ℕ
repeat_rank zero r rest = rest
repeat_rank (suc n) r rest = r ∷ repeat_rank n r rest

-- `descendingRanks`: every card's rank, highest first; rounds left `k`, rank `k + 1`.
unfoldable pub descending_from : List Card → ℕ → List ℕ
unfolding repeat_rank rank_count
descending_from five zero = []
descending_from five (suc k) =
    repeat_rank (rank_count five (k + 2)) (k + 2) (descending_from five k)

unfoldable pub descending_ranks : List Card → List ℕ
unfolding descending_from
descending_ranks five = descending_from five 13

-- The `switch` of `score5`: the first case that holds.
unfoldable pub classify : List Card → Category × List ℕ
unfolding is_flush straight_high by_count group_size descending_ranks
classify five =
    let groups = by_count five in
    let hi = straight_high five in
    let first = group_size five groups 0 in
    let second = group_size five groups 1 in
    if ltb 0 hi && is_flush five
    then (straight_flush, hi ∷ [])
    else if first == 4
    then (quads, rank_at groups 0 ∷ rank_at groups 1 ∷ [])
    else if first == 3 && second == 2
    then (full_house, rank_at groups 0 ∷ rank_at groups 1 ∷ [])
    else if is_flush five
    then (flush, descending_ranks five)
    else if ltb 0 hi
    then (straight, hi ∷ [])
    else if first == 3
    then (trips, groups)
    else if first == 2 && second == 2
    then (two_pair, groups)
    else if first == 2
    then (pair, groups)
    else (high_card, descending_ranks five)

-- `score = score*16 + int64(t)` over the tiebreak ranks.
unfoldable pub pack_ranks : ℕ → List ℕ → ℕ
pack_ranks score [] = score
pack_ranks score (t ∷ ts) = pack_ranks (score * 16 + t) ts

-- The category and its kickers, padded to five fields of four bits.
unfoldable pub pack : Category → List ℕ → ℕ
unfolding pack_ranks
pack cat tiebreak = pack_ranks (category_code cat) tiebreak * 16 ^ (hand_size - length tiebreak)

unfoldable pub score5 : List Card → Category × ℕ
unfolding classify pack
score5 five = let (cat, tiebreak) = classify five in (cat, pack cat tiebreak)

-- `Score5`.
unfoldable pub score_hand : List Card → Option EvalResult
unfolding score5
score_hand five =
    let (cat, score) = score5 five in
    if all is_valid five then some (record { category = cat; score = score; best = five }) else none

-- One round of the loop of `forEachCombination`: the next index list in lexicographic order. Part
-- `i` is raised if nothing to its right can be and it is below `n-k+i`; the parts behind follow on.
unfoldable pub count_up : ℕ → ℕ → List ℕ
count_up zero x = []
count_up (suc m) x = x ∷ count_up m (suc x)

unfoldable pub next_combination : ℕ → ℕ → ℕ → List ℕ → Option (List ℕ)
unfolding count_up
next_combination n k i [] = none
next_combination n k i (x ∷ xs) = elim (next_combination n k (suc i) xs) [
  | some xs' ↦ some (x ∷ xs')
  | none ↦ if x == n - k + i then none else some (suc x ∷ count_up (length xs) (x + 2))
]

-- The index lists that the callback sees, from `idx` on, in order.
unfoldable pub combinations_from : ℕ → ℕ → ℕ → List ℕ → List (List ℕ)
unfolding next_combination
combinations_from zero n k idx = []
combinations_from (suc fuel) n k idx =
    idx
    ∷ elim (next_combination n k 0 idx) [ none ↦ [] | some idx' ↦ combinations_from fuel n k idx' ]

-- `forEachCombination`, as the list of its calls. There are at most `2 ^ n` index lists.
unfoldable pub combinations : ℕ → ℕ → List (List ℕ)
unfolding combinations_from count_up
combinations n k = if k == 0 || ltb n k then [] else combinations_from (2 ^ n) n k (count_up k 0)

-- `five[k] = hand[i]` over an index list; every index is in range.
unfoldable pub pick : List Card → List ℕ → List Card
pick hand [] = []
pick hand (i ∷ idx) = elim (get_elem? hand i) [ none ↦ pick hand idx | some c ↦ c ∷ pick hand idx ]

-- The callback: keep the first hand of the greatest score.
unfoldable pub keep_best : Option EvalResult → List Card → Option EvalResult
unfolding score5
keep_best none five =
    let (cat, score) = score5 five in some (record { category = cat; score = score; best = five })
keep_best (some r) five =
    let (cat, score) = score5 five in
    if ltb r.score score
    then some (record { category = cat; score = score; best = five })
    else some r

unfoldable pub best_of : Option EvalResult → List (List Card) → Option EvalResult
unfolding keep_best
best_of r [] = r
best_of r (five ∷ fives) = best_of (keep_best r five) fives

unfoldable pub picks : List Card → List (List ℕ) → List (List Card)
unfolding pick
picks hand [] = []
picks hand (idx ∷ rest) = pick hand idx ∷ picks hand rest

-- `Best`.
unfoldable pub best : List Card → Option EvalResult
best hand =
    if ltb (length hand) hand_size
    then none
    else if not (all is_valid hand)
    then none
    else best_of none (picks hand (combinations (length hand) hand_size))

-- The nested loops of `BestConstrained`: the hole cards outside, the board inside.
unfoldable pub join_each : List Card → List (List Card) → List (List Card)
join_each hs [] = []
join_each hs (bs ∷ rest) = (hs ++ bs) ∷ join_each hs rest

unfoldable pub join_all : List (List Card) → List (List Card) → List (List Card)
unfolding join_each
join_all [] boards = []
join_all (hs ∷ rest) boards = join_each hs boards ++ join_all rest boards

-- `BestConstrained` for a positive `useHole`. `HandSize - useHole` may be negative: then the board
-- test passes and the inner loop makes no call.
unfoldable pub best_using : List Card → List Card → ℕ → Option EvalResult
best_using hole board use_hole =
    if ltb (length hole) use_hole
    then none
    else if ltb (length board) (hand_size - use_hole)
    then none
    else if not (all is_valid (hole ++ board))
    then none
    else best_of none (
        join_all (picks hole (combinations (length hole) use_hole))
          (picks board (combinations (length board) (hand_size - use_hole))))

-- `BestConstrained`; `useHole <= 0` pools all cards.
unfoldable pub best_constrained : List Card → List Card → ℤ → Option EvalResult
best_constrained hole board (negsuc n) = best (hole ++ board)
best_constrained hole board (pos zero) = best (hole ++ board)
best_constrained hole board (pos (suc n)) = best_using hole board (suc n)
