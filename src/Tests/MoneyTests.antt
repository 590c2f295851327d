-- ===== src/Tests/MoneyTests.antt =====
-- The money states of a table at concrete inputs.
use brc100_poker.Base.{
  ℕ, ◌≡◌, refl, true, false, List, [], ◌∷◌, pos, negsuc, Text, All, ◌==◌, if◌then◌else◌,
}
use brc100_poker.Money.{
  MoneyState, States, ok, new_state, new_states, new_money_tracker, at_risk, mark_stalled,
}
use brc100_poker.Money.Refund.{AllKept}
use brc100_poker.Money.Runs.{
  Op, hand_op, refund_op, committed_op, settling_op, settled_op, payout_op, stalled_op, height_op,
  run, run-AllKept,
}
use brc100_poker.Money.Outcome.{mark_stalled-alarms}

abbrev txid : Text
txid = b'f' ∷ []

abbrev reason : Text
reason = b's' ∷ []

abbrev payouts : ℕ → ℕ
payouts seat = if seat == 1 then 90 else 0

abbrev fresh : States
fresh = new_state 1 50 100 900 0 ∷ new_state 1 50 100 900 1 ∷ []

new-fresh : new_money_tracker 1 (pos 2) 50 100 900 ≡ ok fresh
unfolding new_money_tracker new_states
new-fresh = refl

-- The first commitment of seat 1 is refused, since it holds no refund yet.
abbrev calls : List Op
calls =
    hand_op 2 txid
    ∷ refund_op 3 (pos 0)
    ∷ committed_op 4 (pos 0)
    ∷ committed_op 5 (pos 1)
    ∷ refund_op 6 (pos 1)
    ∷ committed_op 7 (pos 1)
    ∷ height_op 850
    ∷ settling_op 8 txid
    ∷ settled_op 9 txid payouts
    ∷ payout_op 10 (pos 1)
    ∷ stalled_op 11 (negsuc 0) reason
    ∷ []

run-AllKept_example : AllKept 50 100 900 0 (run calls fresh)
run-AllKept_example = run-AllKept 1 (pos 2) 50 100 900 calls new-fresh

mark_stalled-alarms_example :
    All
      (λ (s : MoneyState). (at_risk s ≡ true) × (s.has_refund ≡ false))
      (mark_stalled 2 (pos 1) reason fresh).0
mark_stalled-alarms_example =
    mark_stalled-alarms 1 2 (pos 2) 50 100 900 (pos 1) reason new-fresh refl
