-- ===== src/Engine/Scoring.antt =====
-- engine.go: `scoreAndPay`, the pot in layers by distinct total commitment.
use brc100_poker.Base.{
  ℕ, ◌+◌, ◌-◌, ◌*◌, ◌/◌, not, ◌&&◌, none, some, Bool, List, [], ◌∷◌, ◌++◌, leb, ltb, ◌==◌,
  if◌then◌else◌, ℤ, pos, ltb_ℤ, eqb_ℤ, minus_one, length, get_elem?, modify_at, all, count_if,
  keep_if,
}
use brc100_poker.Cards.{Card}
use brc100_poker.Eval.{best_constrained}
use brc100_poker.Engine.State.{
  Seat, State, no_live_seat, scoring_failed, no_winner, payout_panicked, overflowed, Result, ok,
  err, Outcome, int64_limit, checked,
}

-- The keys of `levelSet`, sorted: each level once.
unfoldable pub insert_level : ℕ → List ℕ → List ℕ
insert_level l [] = l ∷ []
insert_level l (x ∷ xs) =
    let rest = insert_level l xs in
    if l == x then x ∷ xs else if ltb l x then l ∷ x ∷ xs else x ∷ rest

unfoldable pub levels : List Seat → List ℕ
unfolding insert_level
levels [] = []
levels (s ∷ seats) =
    let rest = levels seats in
    if ltb 0 s.total_commit then insert_level s.total_commit rest else rest

-- `won[w] += amt`.
unfoldable pub add_won : ℕ → ℕ → List (ℕ × ℕ) → List (ℕ × ℕ)
add_won w amt [] = (w, amt) ∷ []
add_won w amt ((k, v) ∷ won) =
    let rest = add_won w amt won in if w == k then (k, v + amt) ∷ won else (k, v) ∷ rest

unfoldable pub add_each : List ℕ → ℕ → List (ℕ × ℕ) → List (ℕ × ℕ)
unfolding add_won
add_each [] each won = won
add_each (w ∷ ws) each won = add_each ws each (add_won w each won)

-- The scoring loop over the live seats, with the best score and the winners so far.
unfoldable pub find_winners : List Card → ℤ → ℤ → List ℕ → List Seat → Result (List ℕ)
find_winners board use_hole best winners [] = ok winners
find_winners board use_hole best winners (s ∷ live) =
    elim (best_constrained s.hole board use_hole) [
      | none ↦ err scoring_failed
      | some r ↦
          if ltb_ℤ best (pos r.score)
          then find_winners board use_hole (pos r.score) (s.index ∷ []) live
          else find_winners board use_hole best
              (if eqb_ℤ (pos r.score) best then winners ++ s.index ∷ [] else winners) live
    ]

-- `sort.Ints`, by insertion.
unfoldable pub insert_sorted : ℕ → List ℕ → List ℕ
insert_sorted a [] = a ∷ []
insert_sorted a (b ∷ bs) = let rest = insert_sorted a bs in if leb a b then a ∷ b ∷ bs else b ∷ rest

unfoldable pub sort_ints : List ℕ → List ℕ
unfolding insert_sorted
sort_ints [] = []
sort_ints (a ∷ as') = insert_sorted a (sort_ints as')

-- One layer is shared out: an equal part each, and the odd chips to the first winner.
unfoldable pub pay_layer : ℕ → List ℕ → List (ℕ × ℕ) → Result (List (ℕ × ℕ))
unfolding add_each add_won
pay_layer pot_at_level [] won = err no_winner
pay_layer pot_at_level (w ∷ ws) won =
    let each = pot_at_level / length (w ∷ ws) in
    let rem = pot_at_level - each * length (w ∷ ws) in
    let won' = add_each (w ∷ ws) each won in ok (if ltb 0 rem then add_won w rem won' else won')

-- The live seats that a layer goes to: those that reach it, or every live seat if they all folded.
unfoldable pub live_at : ℕ → List Seat → List Seat
live_at lvl seats = elim (keep_if (λ (s : Seat). leb lvl s.total_commit && not s.folded) seats) [
  | [] ↦ keep_if (λ (s : Seat). not s.folded) seats
  | s ∷ live ↦ s ∷ live
]

abbrev pub sorted_ok : Result (List ℕ) → Result (List ℕ)
sorted_ok (ok winners) = ok (sort_ints winners)
sorted_ok (err e) = err e

unfoldable pub winners_among : List Card → ℤ → List Seat → Result (List ℕ)
winners_among board use_hole [] = err no_live_seat
winners_among board use_hole (s ∷ live) =
    sorted_ok (find_winners board use_hole minus_one [] (s ∷ live))

-- The winners of a layer, sorted.
unfoldable pub layer_winners : State → ℕ → Result (List ℕ)
layer_winners st lvl = winners_among st.board st.use_hole (live_at lvl st.seats)

-- Every amount is one that an int64 holds.
abbrev pub amounts_fit : List (ℕ × ℕ) → Bool
amounts_fit won = all (λ (p : ℕ × ℕ). ltb p.1 int64_limit) won

-- `slice * len(eligible)`.
unfoldable pub layer_pot : ℕ → ℕ → List Seat → Result ℕ
layer_pot prev lvl seats = checked ((lvl - prev) * count_if (λ s. leb lvl s.total_commit) seats)

-- The loop over the levels. The amounts of `won` only grow, so that none wraps in a layer that leaves
-- them all in an int64.
unfoldable pub score_layers : State → ℕ → List ℕ → List (ℕ × ℕ) → Result (List (ℕ × ℕ))
score_layers st prev [] won = ok won
score_layers st prev (lvl ∷ lvls) won = elim (layer_pot prev lvl st.seats) [
  | err e ↦ err e
  | ok chips ↦ elim (layer_winners st lvl) [
    | err e ↦ err e
    | ok winners ↦ elim (pay_layer chips winners won) [
      | err e ↦ err e
      | ok won' ↦
          let rest = score_layers st lvl lvls won' in
          if amounts_fit won' then rest else err overflowed
    ]
  ]
]

-- `Payouts[seat] = amt`.
unfoldable pub set_payout : ℕ → ℕ → List (ℕ × ℕ) → List (ℕ × ℕ)
set_payout seat amt [] = (seat, amt) ∷ []
set_payout seat amt ((k, v) ∷ rest) =
    let tail = set_payout seat amt rest in if seat == k then (k, amt) ∷ rest else (k, v) ∷ tail

-- What one step of the payout loop writes.
abbrev pub credit : ℕ → ℕ → State → State
credit seat amt st = record st {
  seats = modify_at seat (λ s. record s { stack = s.stack + amt }) st.seats;
  payouts = set_payout seat amt st.payouts;
}

-- The loop over `won`, which adds to each stack and writes each payout. A seat that is not at the
-- table is a panic.
unfoldable pub pay_out : List (ℕ × ℕ) → State → Outcome
unfolding set_payout
pay_out [] st = (st, none)
pay_out ((seat, amt) ∷ won) st =
    let rest = pay_out won (credit seat amt st) in
    elim (get_elem? st.seats seat) [
      | none ↦ (st, some payout_panicked)
      | some s ↦ if ltb (s.stack + amt) int64_limit then rest else (st, some overflowed)
    ]

unfoldable pub score_and_pay : State → Outcome
score_and_pay st = elim (score_layers st 0 (levels st.seats) []) [
  | err e ↦ (st, some e)
  | ok won ↦ pay_out won st
]
