-- ===== src/Engine/ScoreErrors.antt =====
-- `scoreAndPay` of engine.go: how scoring can fail.
use brc100_poker.Base.{
  ℕ, ◌≡◌, refl, true, false, Option, none, some, List, [], ◌∷◌, ◌++◌, if◌then◌else◌, arith, ◌+◌,
  ◌-◌, ◌*◌, ◌<◌, leb, ltb, count_if, if_both, subst, sym, ℤ, pos, minus_one, ltb_ℤ, eqb_ℤ,
}
use brc100_poker.Cards.{Card}
use brc100_poker.Eval.{EvalResult, best_constrained}
use brc100_poker.Engine.State.{
  Seat, State, scoring_failed, Result, ok, err, is_fault, is_play_fault, int64_limit,
}
use brc100_poker.Engine.Scoring.{
  find_winners, winners_among, layer_winners, pay_layer, layer_pot, score_layers, sorted_ok,
  live_at, amounts_fit,
}
use brc100_poker.Engine.Layers.{layers_total, layer_pot-fits}
use brc100_poker.Engine.Payout.{paid, paid-pay_layer, layer_pot-layer_chips}

-- Scoring errs in three ways, none of them a fault.
abbrev pub ErrsSoftly {ℓ} : {A : Type ℓ} → Result A → Type 0
ErrsSoftly (ok a) = Unit
ErrsSoftly (err e) = is_fault (some e) ≡ false

-- No error is a fault of the play: there is no panic outside the payout.
abbrev pub ErrsInPlay {ℓ} : {A : Type ℓ} → Result A → Type 0
ErrsInPlay (ok a) = Unit
ErrsInPlay (err e) = is_play_fault (some e) ≡ false

find_winners-ErrsSoftly :
    (board : List Card) (use_hole best : ℤ) (ws : List ℕ) (live : List Seat)
    → ErrsSoftly (find_winners board use_hole best ws live)
unfolding find_winners
find_winners-ErrsSoftly board use_hole best ws [] = tt
find_winners-ErrsSoftly board use_hole best ws (s ∷ live) =
    scored (λ b ws'. find_winners-ErrsSoftly board use_hole b ws' live)
      (best_constrained s.hole board use_hole)
  where
    scored :
        ((b : ℤ) (ws' : List ℕ) → ErrsSoftly (find_winners board use_hole b ws' live))
        → (m : Option EvalResult)
        → ErrsSoftly (elim m [
          | none ↦ err scoring_failed
          | some r ↦
              if ltb_ℤ best (pos r.score)
              then find_winners board use_hole (pos r.score) (s.index ∷ []) live
              else find_winners board use_hole best
                  (if eqb_ℤ (pos r.score) best then ws ++ s.index ∷ [] else ws)
                  live
        ])
    scored ih none = refl
    scored ih (some r) =
        elim (ltb_ℤ best (pos r.score))
          as (λ b. ErrsSoftly (
            if b
            then find_winners board use_hole (pos r.score) (s.index ∷ []) live
            else find_winners board use_hole best
                (if eqb_ℤ (pos r.score) best then ws ++ s.index ∷ [] else ws) live)) [
                  | true ↦ ih (pos r.score) (s.index ∷ [])
                  | false ↦ ih best (if eqb_ℤ (pos r.score) best then ws ++ s.index ∷ [] else ws)
                ]

sorted_ok-ErrsSoftly : (r : Result (List ℕ)) → ErrsSoftly r → ErrsSoftly (sorted_ok r)
sorted_ok-ErrsSoftly (ok ws) h = tt
sorted_ok-ErrsSoftly (err e) h = h

layer_winners-ErrsSoftly : (st : State) (lvl : ℕ) → ErrsSoftly (layer_winners st lvl)
unfolding layer_winners winners_among
layer_winners-ErrsSoftly st lvl = among (live_at lvl st.seats)
  where
    among : (live : List Seat) → ErrsSoftly (winners_among st.board st.use_hole live)
    among [] = refl
    among (s ∷ live) =
        sorted_ok-ErrsSoftly (find_winners st.board st.use_hole minus_one [] (s ∷ live))
          (find_winners-ErrsSoftly st.board st.use_hole minus_one [] (s ∷ live))

pay_layer-ErrsSoftly :
    (chips : ℕ) (ws : List ℕ) (won : List (ℕ × ℕ)) → ErrsSoftly (pay_layer chips ws won)
unfolding pay_layer
pay_layer-ErrsSoftly chips [] won = refl
pay_layer-ErrsSoftly chips (w ∷ ws) won = tt

bind-ErrsInPlay :
    {A B : Type 0} (f : A → Result B) (r : Result A)
    → ErrsInPlay r
    → ((a : A) → ErrsInPlay (f a))
    → ErrsInPlay (elim r [ ok a ↦ f a | err e ↦ err e ])
bind-ErrsInPlay f (ok a) h k = k a
bind-ErrsInPlay f (err e) h k = h

bind-ErrsSoftly :
    {A B : Type 0} (f : A → Result B) (r : Result A)
    → ErrsSoftly r
    → ((a : A) → r ≡ ok a → ErrsSoftly (f a))
    → ErrsSoftly (elim r [ ok a ↦ f a | err e ↦ err e ])
bind-ErrsSoftly f (ok a) h k = k a refl
bind-ErrsSoftly f (err e) h k = h

ErrsSoftly-ErrsInPlay {ℓ} : {A : Type ℓ} (r : Result A) → ErrsSoftly r → ErrsInPlay r
ErrsSoftly-ErrsInPlay (ok a) h = tt
ErrsSoftly-ErrsInPlay (err e) h = ground (arith, h)

layer_pot-ErrsInPlay : (prev lvl : ℕ) (seats : List Seat) → ErrsInPlay (layer_pot prev lvl seats)
unfolding layer_pot
layer_pot-ErrsInPlay prev lvl seats =
    let chips = (lvl - prev) * count_if (λ (s : Seat). leb lvl s.total_commit) seats in
    if_both ErrsInPlay (ltb chips int64_limit) (λ _. tt) (λ _. refl)

pub score_layers-ErrsInPlay :
    (st : State) (prev : ℕ) (lvls : List ℕ) (won : List (ℕ × ℕ))
    → ErrsInPlay (score_layers st prev lvls won)
unfolding score_layers
score_layers-ErrsInPlay st prev [] won = tt
score_layers-ErrsInPlay st prev (lvl ∷ lvls) won =
    bind-ErrsInPlay _ (layer_pot prev lvl st.seats) (layer_pot-ErrsInPlay prev lvl st.seats)
      (λ chips.
        bind-ErrsInPlay _ (layer_winners st lvl)
          (ErrsSoftly-ErrsInPlay (layer_winners st lvl) (layer_winners-ErrsSoftly st lvl))
          (λ winners.
            bind-ErrsInPlay _ (pay_layer chips winners won)
              (ErrsSoftly-ErrsInPlay (pay_layer chips winners won)
                (pay_layer-ErrsSoftly chips winners won))
              (λ won'.
                if_both ErrsInPlay (amounts_fit won')
                  (λ _. score_layers-ErrsInPlay st lvl lvls won') (λ _. refl))))

amounts_fit-paid : (won : List (ℕ × ℕ)) → paid won < int64_limit → amounts_fit won ≡ true
amounts_fit-paid [] h = refl
amounts_fit-paid ((k, v) ∷ won) h = ground (arith, amounts_fit-paid won)

-- Layers whose chips an int64 holds, with what was won before, overflow nowhere.
pub score_layers-ErrsSoftly :
    (st : State) (prev : ℕ) (lvls : List ℕ) (won : List (ℕ × ℕ))
    → paid won + layers_total prev lvls st.seats < int64_limit
    → ErrsSoftly (score_layers st prev lvls won)
unfolding score_layers
score_layers-ErrsSoftly st prev [] won l = tt
score_layers-ErrsSoftly st prev (lvl ∷ lvls) won l =
    let fit = layer_pot-fits prev lvl st.seats (omega arith) in
    bind-ErrsSoftly _ (layer_pot prev lvl st.seats) (subst ErrsSoftly (sym fit) tt) (λ chips potted.
      bind-ErrsSoftly _ (layer_winners st lvl) (layer_winners-ErrsSoftly st lvl) (λ winners _.
        bind-ErrsSoftly _ (pay_layer chips winners won) (pay_layer-ErrsSoftly chips winners won)
          (λ won' payout.
            let sum = paid-pay_layer chips winners won payout in
            let same = layer_pot-layer_chips prev lvl st.seats potted in
            if_both ErrsSoftly (amounts_fit won')
              (λ _. score_layers-ErrsSoftly st lvl lvls won' (omega arith))
              (λ over. absurd (cc (over, amounts_fit-paid won' (omega arith)))))))
