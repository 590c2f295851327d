-- ===== src/Engine/Payout.antt =====
-- `scoreAndPay` of engine.go: what is paid out of the layers, and to whom.
use brc100_poker.Base.{
  ℕ, zero, suc, ◌+◌, ◌-◌, ◌*◌, ◌/◌, ◌<◌, ◌≡◌, ◌≢◌, refl, ◌⊎◌, inl, inr, none, some, List, [], ◌∷◌,
  arith, All, subst, sym, ap, ◌∙◌, sum_of, length, modify_at, sum_of-ge, get_elem?, tests, ltb,
  true, ◌≤◌, length-modify_at, sum_of-modify_at_same,
}
use brc100_poker.Engine.State.{Seat, State, Error, ok, err, int64_limit, Result-cases, Result-ok_eq}
use brc100_poker.Engine.Scoring.{
  add_won, add_each, pay_layer, layer_winners, layer_pot, score_layers, set_payout, credit, pay_out,
  levels, score_and_pay,
}
use brc100_poker.Engine.Layers.{layers_total, layer_chips, layers_total-commits}
use brc100_poker.Engine.Winners.{AllBelow, SeatBelow, layer_winners-AllBelow}

-- The chips of a map from seats to chips, and what the seats hold and have committed.
abbrev pub paid : List (ℕ × ℕ) → ℕ
paid won = sum_of (λ p. p.1) won

abbrev pub stacks : List Seat → ℕ
stacks seats = sum_of (λ s. s.stack) seats

abbrev pub commits : List Seat → ℕ
commits seats = sum_of (λ s. s.total_commit) seats

abbrev KeyBelow : ℕ → ℕ × ℕ → Type 0
KeyBelow n p = p.0 < n

abbrev Fresh : ℕ → List (ℕ × ℕ) → Type 0
Fresh k won = All (λ p. p.0 ≢ k) won

-- No seat has two entries.
abbrev HasDistinctKeys : List (ℕ × ℕ) → Type 0
HasDistinctKeys [] = Unit
HasDistinctKeys ((k, v) ∷ won) = Fresh k won × HasDistinctKeys won

-- What the layers build: entries of seats at the table, one for each.
abbrev IsShare : ℕ → List (ℕ × ℕ) → Type 0
IsShare n won = All (KeyBelow n) won × HasDistinctKeys won

paid-add_won : (w amt : ℕ) (won : List (ℕ × ℕ)) → paid (add_won w amt won) ≡ paid won + amt
unfolding add_won
paid-add_won w amt [] = omega arith
paid-add_won w amt ((k, v) ∷ won) = ground (arith, paid-add_won w amt won)

add_won-KeyBelow :
    (n w amt : ℕ) (won : List (ℕ × ℕ))
    → w < n
    → All (KeyBelow n) won
    → All (KeyBelow n) (add_won w amt won)
unfolding add_won
add_won-KeyBelow n w amt [] h b = (h, tt)
add_won-KeyBelow n w amt ((k, v) ∷ won) h b = ground (arith, add_won-KeyBelow n w amt won h b.1)

add_won-Fresh :
    (j w amt : ℕ) (won : List (ℕ × ℕ)) → w ≢ j → Fresh j won → Fresh j (add_won w amt won)
unfolding add_won
add_won-Fresh j w amt [] h f = (h, tt)
add_won-Fresh j w amt ((k, v) ∷ won) h f = ground (arith, add_won-Fresh j w amt won h f.1)

add_won-HasDistinctKeys :
    (w amt : ℕ) (won : List (ℕ × ℕ)) → HasDistinctKeys won → HasDistinctKeys (add_won w amt won)
unfolding add_won
add_won-HasDistinctKeys w amt [] d = (tt, tt)
add_won-HasDistinctKeys w amt ((k, v) ∷ won) d =
    ground (arith, add_won-HasDistinctKeys w amt won d.1, add_won-Fresh k w amt won)

add_won-IsShare :
    (n w amt : ℕ) (won : List (ℕ × ℕ)) → w < n → IsShare n won → IsShare n (add_won w amt won)
add_won-IsShare n w amt won h (b, d) =
    (add_won-KeyBelow n w amt won h b, add_won-HasDistinctKeys w amt won d)

paid-add_each :
    (ws : List ℕ) (each : ℕ) (won : List (ℕ × ℕ))
    → paid (add_each ws each won) ≡ paid won + each * length ws
unfolding add_each
paid-add_each [] each won = omega arith
paid-add_each (w ∷ ws) each won =
    omega (arith, paid-add_each ws each (add_won w each won), paid-add_won w each won)

add_each-IsShare :
    (n : ℕ) (ws : List ℕ) (each : ℕ) (won : List (ℕ × ℕ))
    → AllBelow n ws
    → IsShare n won
    → IsShare n (add_each ws each won)
unfolding add_each
add_each-IsShare n [] each won b h = h
add_each-IsShare n (w ∷ ws) each won b h =
    add_each-IsShare n ws each (add_won w each won) b.1 (add_won-IsShare n w each won b.0 h)

-- A layer is paid out to the last chip.
pub paid-pay_layer :
    (chips : ℕ) (ws : List ℕ) (won : List (ℕ × ℕ)) {won' : List (ℕ × ℕ)}
    → pay_layer chips ws won ≡ ok won'
    → paid won' ≡ paid won + chips
unfolding pay_layer
paid-pay_layer chips [] won e = absurd (cc)
paid-pay_layer chips (w ∷ ws) won e = ground (
  arith,
  paid-add_each (w ∷ ws) (chips / length (w ∷ ws)) won,
  paid-add_won w (chips - chips / length (w ∷ ws) * length (w ∷ ws))
      (add_each (w ∷ ws) (chips / length (w ∷ ws)) won),
)

pay_layer-IsShare :
    (n chips : ℕ) (ws : List ℕ) (won : List (ℕ × ℕ)) {won' : List (ℕ × ℕ)}
    → AllBelow n ws
    → IsShare n won
    → pay_layer chips ws won ≡ ok won'
    → IsShare n won'
unfolding pay_layer
pay_layer-IsShare n chips [] won b h e = absurd (cc)
pay_layer-IsShare n chips (w ∷ ws) won b h e = ground (
  arith,
  add_each-IsShare n (w ∷ ws) (chips / length (w ∷ ws)) won b h,
  add_won-IsShare n w (chips - chips / length (w ∷ ws) * length (w ∷ ws))
      (add_each (w ∷ ws) (chips / length (w ∷ ws)) won) b.0,
)

pub layer_pot-layer_chips :
    (prev l : ℕ) (seats : List Seat) {chips : ℕ}
    → layer_pot prev l seats ≡ ok chips
    → chips ≡ layer_chips prev l seats
unfolding layer_pot
layer_pot-layer_chips prev l seats e = ground (arith, e)

-- The layers pay their pots, to seats at the table.
score_layers-pays :
    (st : State) (n prev : ℕ) (lvls : List ℕ) (won : List (ℕ × ℕ)) {won' : List (ℕ × ℕ)}
    → All (SeatBelow n) st.seats
    → IsShare n won
    → score_layers st prev lvls won ≡ ok won'
    → IsShare n won' × (paid won' ≡ paid won + layers_total prev lvls st.seats)
unfolding score_layers
score_layers-pays st n prev [] won b h e =
    (subst (IsShare n) (cc) h, omega (arith, ap paid (Result-ok_eq e)))
score_layers-pays st n prev (lvl ∷ lvls) won {won'} b h e =
    elim (Result-cases (layer_pot prev lvl st.seats)) [
      | inr (x, failed) ↦ absurd (ground (arith, failed))
      | inl (chips, potted) ↦ elim (Result-cases (layer_winners st lvl)) [
        | inr (x, failed) ↦ absurd (ground (arith, failed, potted))
        | inl (ws, winners) ↦ elim (Result-cases (pay_layer chips ws won)) [
          | inr (x, failed) ↦ absurd (ground (arith, failed, winners, potted))
          | inl (won1, payout) ↦
              let below = layer_winners-AllBelow n st lvl b winners in
              let share = pay_layer-IsShare n chips ws won below h payout in
              let rest =
                score_layers-pays st n lvl lvls won1 {won' = won'} b share (ground arith) in
              (
                rest.0,
                omega (
                  arith,
                  rest.1,
                  paid-pay_layer chips ws won payout,
                  layer_pot-layer_chips prev lvl st.seats potted,
                ),
              )
        ]
      ]
    ]

set_payout-Fresh :
    (j k amt : ℕ) (ps : List (ℕ × ℕ)) → k ≢ j → Fresh j ps → Fresh j (set_payout k amt ps)
unfolding set_payout
set_payout-Fresh j k amt [] h f = (h, tt)
set_payout-Fresh j k amt ((i, v) ∷ ps) h f = ground (arith, set_payout-Fresh j k amt ps h f.1)

paid-set_payout :
    (k amt : ℕ) (ps : List (ℕ × ℕ)) → Fresh k ps → paid (set_payout k amt ps) ≡ paid ps + amt
unfolding set_payout
paid-set_payout k amt [] f = omega arith
paid-set_payout k amt ((i, v) ∷ ps) f = ground (arith, paid-set_payout k amt ps f.1)

pub paid-set_payout_first :
    (k amt : ℕ) (ps : List (ℕ × ℕ)) → ps ≡ [] → paid (set_payout k amt ps) ≡ amt
paid-set_payout_first k amt ps u =
    omega (arith, paid-set_payout k amt ps (subst (Fresh k) (sym u) tt), ap paid u)

-- No key of `won` has a payout yet.
abbrev AreFresh : List (ℕ × ℕ) → List (ℕ × ℕ) → Type 0
AreFresh [] ps = Unit
AreFresh ((k, v) ∷ won) ps = Fresh k ps × AreFresh won ps

AreFresh-nil : (won : List (ℕ × ℕ)) → AreFresh won []
AreFresh-nil [] = tt
AreFresh-nil ((k, v) ∷ won) = (tt, AreFresh-nil won)

AreFresh-set_payout :
    (k amt : ℕ) (won ps : List (ℕ × ℕ))
    → Fresh k won
    → AreFresh won ps
    → AreFresh won (set_payout k amt ps)
AreFresh-set_payout k amt [] ps f a = tt
AreFresh-set_payout k amt ((j, v) ∷ won) ps f a =
    (set_payout-Fresh j k amt ps (λ e. f.0 (sym e)) a.0, AreFresh-set_payout k amt won ps f.1 a.1)

stacks-modify_at :
    (i amt : ℕ) (seats : List Seat)
    → i < length seats
    → stacks (modify_at i (λ s. record s { stack = s.stack + amt }) seats) ≡ stacks seats + amt
stacks-modify_at i amt [] h = absurd (omega arith)
stacks-modify_at zero amt (s ∷ seats) h = omega arith
stacks-modify_at (suc i) amt (s ∷ seats) h = omega (arith, stacks-modify_at i amt seats)

-- What the payout loop writes when it ends.
abbrev pub paid_out : List (ℕ × ℕ) → State → State
paid_out [] st = st
paid_out ((k, v) ∷ won) st = paid_out won (credit k v st)

-- Paying out moves the shares into the stacks and into the payouts, and into nothing else.
paid_out-pays :
    (won : List (ℕ × ℕ)) (st : State)
    → IsShare (length st.seats) won
    → AreFresh won st.payouts
    → let st' = paid_out won st in
      (stacks st'.seats ≡ stacks st.seats + paid won)
      × (commits st'.seats ≡ commits st.seats)
      × (paid st'.payouts ≡ paid st.payouts + paid won)
paid_out-pays [] st h f = (omega arith, refl, omega arith)
paid_out-pays ((k, v) ∷ won) st (b, d) f =
    let add = λ (s : Seat). record s { stack = s.stack + v } in
    let size = length-modify_at k add st.seats in
    let rest =
      paid_out-pays won (credit k v st) (subst (λ n. All (KeyBelow n) won) (sym size) b.1, d.1)
        (AreFresh-set_payout k v won st.payouts d.0 f.1) in
    (
      omega (arith, rest.0, stacks-modify_at k v st.seats b.0),
      rest.1 ∙ sum_of-modify_at_same (λ s. s.total_commit) add k st.seats (λ s. refl),
      omega (arith, rest.2, paid-set_payout k v st.payouts f.0),
    )

seat_at : (i : ℕ) (seats : List Seat) → i < length seats → (s : Seat) × (get_elem? seats i ≡ some s)
seat_at i [] h = absurd (omega arith)
seat_at zero (s ∷ seats) h = (s, refl)
seat_at (suc i) (s ∷ seats) h = seat_at i seats (omega arith)

-- Shares that the stacks can take in are paid out to the end.
pay_out-ends :
    (won : List (ℕ × ℕ)) (st : State)
    → IsShare (length st.seats) won
    → stacks st.seats + paid won < int64_limit
    → pay_out won st ≡ (paid_out won st, none)
unfolding pay_out
pay_out-ends [] st h l = refl
pay_out-ends ((k, v) ∷ won) st (b, d) l =
    let add = λ (s : Seat). record s { stack = s.stack + v } in
    let size = length-modify_at k add st.seats in
    let (s, found) = seat_at k st.seats b.0 in
    let held : s.stack ≤ stacks st.seats = sum_of-ge (λ (t : Seat). t.stack) k st.seats found in
    let fits : ltb (s.stack + v) int64_limit ≡ true = omega tests in
    let rest =
      pay_out-ends won (credit k v st) (subst (λ n. All (KeyBelow n) won) (sym size) b.1, d.1)
        (omega (arith, stacks-modify_at k v st.seats b.0)) in
    rw (found, fits, pay_out) rest

-- The two ways in which `scoreAndPay` ends: it fails and has paid nothing, or it pays `won`.
pub score_and_pay-ends :
    (st : State)
    → ((e : Error) × (score_layers st 0 (levels st.seats) [] ≡ err e)
        × (score_and_pay st ≡ (st, some e)))
      ⊎ ((won : List (ℕ × ℕ)) × (score_layers st 0 (levels st.seats) [] ≡ ok won)
          × (score_and_pay st ≡ pay_out won st))
unfolding score_and_pay
score_and_pay-ends st = elim (Result-cases (score_layers st 0 (levels st.seats) [])) [
  | inr (x, failed) ↦ inl (x, failed, rw (failed, score_and_pay))
  | inl (won, shared) ↦ inr (won, shared, rw (shared, score_and_pay))
]

-- When every seat's index is a position at the table, nothing has been paid yet and the chips of all
-- stacks and commitments are fewer than 2 ^ 63, the shares of the layers are paid out to the end:
-- no seat is missing and no stack overflows. They are the whole pot: the stacks grow by all that was
-- committed, the commitments stand, and the payouts add up to them.
pub pay_out-pays_pot :
    (st : State) (won : List (ℕ × ℕ))
    → All (SeatBelow (length st.seats)) st.seats
    → st.payouts ≡ []
    → stacks st.seats + commits st.seats < int64_limit
    → score_layers st 0 (levels st.seats) [] ≡ ok won
    → (pay_out won st ≡ (paid_out won st, none))
      × (let st' = paid_out won st in
          (stacks st'.seats ≡ stacks st.seats + commits st.seats)
          × (commits st'.seats ≡ commits st.seats)
          × (paid st'.payouts ≡ commits st.seats))
pay_out-pays_pot st won b u l shared =
    let (share, sum) =
      score_layers-pays st (length st.seats) 0 (levels st.seats) [] {won' = won} b (tt, tt)
        shared in
    let fresh = subst (AreFresh won) (sym u) (AreFresh-nil won) in
    let (held, kept, out) = paid_out-pays won st share fresh in
    let all_of_it = layers_total-commits st.seats in
    let nothing = ap paid u in
    (pay_out-ends won st share (omega arith), (omega arith, kept, omega arith))
