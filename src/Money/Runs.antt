-- ===== src/Money/Runs.antt =====
-- moneystate.go: any sequence of calls on a tracker that NewMoneyTracker built.
use brc100_poker.Base.{
  ℕ, zero, suc, ◌≡◌, refl, subst, List, [], ◌∷◌, arith, ℤ, pos, negsuc, Text, inl,
}
use brc100_poker.Money.{
  States, ok, new_states, new_money_tracker, mark_refund, mark_committed, mark_settling,
  mark_settled, payout_received, mark_stalled, mark_recovered, set_hand, set_height,
}
use brc100_poker.Money.Refund.{
  AllKept, map-AllKept, same_terms-IsKept, mark_refund-AllKept, mark_committed-AllKept,
  payout_received-AllKept, mark_recovered-AllKept, mark_stalled-AllKept, mark_settling-AllKept,
}

-- A call that changes the states.
pub data Op : Type 0 where
  hand_op : ℕ → Text → Op
  refund_op : ℕ → ℤ → Op
  committed_op : ℕ → ℤ → Op
  settling_op : ℕ → Text → Op
  settled_op : ℕ → Text → (ℕ → ℕ) → Op
  payout_op : ℕ → ℤ → Op
  stalled_op : ℕ → ℤ → Text → Op
  recovered_op : ℕ → ℤ → Op
  height_op : ℕ → Op

unfoldable pub step : Op → States → States
step (hand_op now hand_id) states = set_hand now hand_id states
step (refund_op now seat) states = (mark_refund now seat states).0
step (committed_op now seat) states = (mark_committed now seat states).0
step (settling_op now txid) states = mark_settling now txid states
step (settled_op now txid payouts) states = mark_settled now txid payouts states
step (payout_op now seat) states = (payout_received now seat states).0
step (stalled_op now seat reason) states = (mark_stalled now seat reason states).0
step (recovered_op now seat) states = (mark_recovered now seat states).0
step (height_op height) states = set_height height states

unfoldable pub run : List Op → States → States
run [] states = states
run (op ∷ ops) states = run ops (step op states)

module _ (stake pot height : ℕ) where
  step-AllKept :
      (op : Op) (states : States)
      → AllKept stake pot height 0 states
      → AllKept stake pot height 0 (step op states)
  unfolding step set_hand mark_settled set_height
  step-AllKept (hand_op now hand_id) states a =
      map-AllKept stake pot height _ 0 states
        (λ i s h. record {
          at = h.at;
          stake_kept = h.stake_kept;
          pot_kept = h.pot_kept;
          height_kept = h.height_kept;
          covered = h.covered;
        })
        a
  step-AllKept (refund_op now seat) states a =
      mark_refund-AllKept stake pot height now seat states a
  step-AllKept (committed_op now seat) states a =
      mark_committed-AllKept stake pot height now seat states a
  step-AllKept (settling_op now txid) states a =
      mark_settling-AllKept stake pot height now txid states a
  step-AllKept (settled_op now txid payouts) states a =
      map-AllKept stake pot height _ 0 states
        (λ i s. same_terms-IsKept stake pot height i s _ (refl, refl, refl, refl, inl refl)) a
  step-AllKept (payout_op now seat) states a =
      payout_received-AllKept stake pot height now seat states a
  step-AllKept (stalled_op now seat reason) states a =
      mark_stalled-AllKept stake pot height now seat reason states a
  step-AllKept (recovered_op now seat) states a =
      mark_recovered-AllKept stake pot height now seat states a
  step-AllKept (height_op tip) states a =
      map-AllKept stake pot height _ 0 states
        (λ i s h. record {
          at = h.at;
          stake_kept = h.stake_kept;
          pot_kept = h.pot_kept;
          height_kept = h.height_kept;
          covered = h.covered;
        })
        a

  run_from-AllKept :
      (ops : List Op) (states : States)
      → AllKept stake pot height 0 states
      → AllKept stake pot height 0 (run ops states)
  unfolding run
  run_from-AllKept [] states a = a
  run_from-AllKept (op ∷ ops) states a =
      run_from-AllKept ops (step op states) (step-AllKept op states a)

  new_states-AllKept :
      (now i n : ℕ) → AllKept stake pot height i (new_states now stake pot height i n)
  unfolding new_states
  new_states-AllKept now i zero = tt
  new_states-AllKept now i (suc n) = (
    record {
      at = refl;
      stake_kept = refl;
      pot_kept = refl;
      height_kept = refl;
      covered = (λ e. cc e);
    },
    new_states-AllKept now (suc i) n,
  )

-- Whatever calls are made on a tracker that NewMoneyTracker built, refused ones included, the state
-- at each position is that of its seat, its stake, pot and refund height are those the tracker was
-- built with, and a seat that is shown as committed or settling holds its refund.
pub run-AllKept :
    (now : ℕ) (seats : ℤ) (stake pot height : ℕ) (ops : List Op) {states : States}
    → new_money_tracker now seats stake pot height ≡ ok states
    → AllKept stake pot height 0 (run ops states)
unfolding new_money_tracker
run-AllKept now (negsuc n) stake pot height ops e = absurd (cc e)
run-AllKept now (pos n) stake pot height ops {states} e =
    let same : new_states now stake pot height 0 n ≡ states = ground arith in
    run_from-AllKept stake pot height ops states
      (subst (AllKept stake pot height 0) same (new_states-AllKept stake pot height now 0 n))
