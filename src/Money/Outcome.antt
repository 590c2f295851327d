-- ===== src/Money/Outcome.antt =====
-- moneystate.go: stalls, settlements, and what a player is told of them.
use brc100_poker.Base.{
  ℕ, zero, suc, ◌≡◌, refl, ap, subst, true, false, Option, [], ◌∷◌, map, arith, if_both, ℤ, pos,
  negsuc, Text, All,
}
use brc100_poker.Table.{is_empty}
use brc100_poker.Money.{
  MoneyState, States, ok, at_risk, new_states, MoneyError, settle_state, stall_state,
  new_money_tracker, mark_settling, mark_settled, mark_stalled,
}

stall_state-settle_state :
    (now then_at : ℕ) (txid : Text) (payouts : ℕ → ℕ) (seat : ℤ) (reason : Text) (states : States)
    → map (stall_state then_at seat reason) (map (settle_state now txid payouts) states)
      ≡ map (settle_state now txid payouts) states
stall_state-settle_state now then_at txid payouts seat reason [] = refl
stall_state-settle_state now then_at txid payouts seat reason (s ∷ states) =
    ap (λ rest. settle_state now txid payouts s ∷ rest)
      (stall_state-settle_state now then_at txid payouts seat reason states)

-- A stall that comes after a settlement, accepted or refused, leaves every seat as the settlement
-- left it.
pub mark_stalled-mark_settled :
    (now then_at : ℕ) (txid : Text) (payouts : ℕ → ℕ) (seat : ℤ) (reason : Text) (states : States)
    → (mark_stalled then_at seat reason (mark_settled now txid payouts states)).0
      ≡ mark_settled now txid payouts states
unfolding mark_stalled mark_settled
mark_stalled-mark_settled now then_at txid payouts seat reason states =
    let after = map (settle_state now txid payouts) states in
    if_both (λ (o : States × Option MoneyError). o.0 ≡ after) (is_empty reason) (λ _. refl)
      (λ _. stall_state-settle_state now then_at txid payouts seat reason states)

-- Announcing a settlement leaves at risk exactly the seats that were: nothing is final yet.
pub at_risk-mark_settling :
    (now : ℕ) (txid : Text) (states : States)
    → map at_risk (mark_settling now txid states) ≡ map at_risk states
unfolding mark_settling at_risk
at_risk-mark_settling now txid [] = refl
at_risk-mark_settling now txid (s ∷ states) = ground (arith, at_risk-mark_settling now txid states)

alarms :
    (now then_at stake pot height i n : ℕ) (seat : ℤ) (reason : Text)
    → All
        (λ (s : MoneyState). (at_risk s ≡ true) × (s.has_refund ≡ false))
        (map (stall_state then_at seat reason) (new_states now stake pot height i n))
unfolding new_states at_risk
alarms now then_at stake pot height i zero seat reason = tt
alarms now then_at stake pot height i (suc n) seat reason =
    ((refl, refl), alarms now then_at stake pot height (suc i) n seat reason)

-- A stall with a reason shows every seat of a new tracker as at risk, though no refund is held and
-- no stake has been committed.
pub mark_stalled-alarms :
    (now then_at : ℕ) (seats : ℤ) (stake pot height : ℕ) (seat : ℤ) (reason : Text)
    {states : States}
    → new_money_tracker now seats stake pot height ≡ ok states
    → is_empty reason ≡ false
    → All
        (λ (s : MoneyState). (at_risk s ≡ true) × (s.has_refund ≡ false))
        (mark_stalled then_at seat reason states).0
unfolding mark_stalled new_money_tracker
mark_stalled-alarms now then_at (negsuc n) stake pot height seat reason e f = absurd (cc e)
mark_stalled-alarms now then_at (pos n) stake pot height seat reason {states} e f =
    let same : new_states now stake pot height 0 n ≡ states = ground (arith, e) in
    let Alarmed =
      λ (ss : States). All (λ (s : MoneyState). (at_risk s ≡ true) × (s.has_refund ≡ false)) ss in
    if_both (λ (o : States × Option MoneyError). Alarmed o.0) (is_empty reason)
      (λ empty. absurd (cc (f, empty)))
      (λ _.
        subst (λ ss. Alarmed (map (stall_state then_at seat reason) ss)) same
          (alarms now then_at stake pot height 0 n seat reason))
