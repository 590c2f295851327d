-- ===== src/Tests/TableTests.antt =====
-- A table at concrete inputs.
use brc100_poker.Base.{◌≡◌, refl, ◌↔◌, ◌≤◌, false, List, [], ◌∷◌, pos, negsuc, Text}
use brc100_poker.Base.Bytes.{normalise}
use brc100_poker.Table.{
  Terms, Table, phase_open, ok, new, validate, join, authorise, seat_of, begin_deal, advance,
  fully_funded, is_open, close_roster, mark_funded, mark_funded_at, mark_refund_held, update_seat,
  stall, close, touch, is_allowed, lookup,
}
use brc100_poker.Table.Roster.{IsSeated, keys}
use brc100_poker.Table.Joining.{authorise-seat_of}
use brc100_poker.Table.Phases.{
  Op, join_op, close_roster_op, refund_op, fund_op, run, step, run-IsSeated,
}
use brc100_poker.Table.Frozen.{rank, run-fixes_roster}

abbrev pub terms : Terms
terms = record {
  table_id = b't' ∷ [];
  buy_in_satoshis = 1000;
  small_blind = 5;
  big_blind = 10;
  seats = pos 2;
  refund_lock_height = 900;
}

abbrev empty_table : Table
empty_table = record {
  terms = terms;
  phase = phase_open;
  seats = [];
  by_identity = [];
  stall_reason = [];
  stalled_seat = negsuc 0;
}

new-terms : new terms ≡ ok empty_table
unfolding new validate
new-terms = refl

abbrev alice : Text
alice = b'0' ∷ b'2' ∷ b'a' ∷ []

abbrev bob : Text
bob = b'0' ∷ b'3' ∷ b'b' ∷ []

-- Alice's key in capitals, with a space in front.
abbrev loud_alice : Text
loud_alice = 32 ∷ b'0' ∷ b'2' ∷ b'A' ∷ []

abbrev calls : List Op
calls =
    join_op 1 alice
    ∷ join_op 2 loud_alice
    ∷ join_op 3 bob
    ∷ close_roster_op
    ∷ refund_op (pos 0)
    ∷ fund_op (pos 0)
    ∷ fund_op (pos 1)
    ∷ []

-- Names on this definition's line are open wherever it is unfolded.
table_code : Unit {0}
unfolding run step join normalise lookup close_roster mark_refund_held mark_funded mark_funded_at
    update_seat fully_funded begin_deal advance is_allowed stall close touch
table_code = tt

run-IsSeated_example : IsSeated (run calls empty_table)
run-IsSeated_example = run-IsSeated terms calls new-terms

authorise-seat_of_example :
    (authorise (pos 0) loud_alice (run calls empty_table) ≡ ok tt)
    ↔ (seat_of loud_alice (run calls empty_table) ≡ ok 0)
authorise-seat_of_example =
    authorise-seat_of (run calls empty_table) 0 loud_alice run-IsSeated_example

run-fixes_roster_example :
    let t = run calls empty_table in
    (rank t.phase ≤ rank (run calls t).phase)
    × ((run calls t).terms ≡ t.terms)
    × (is_open t.phase ≡ false → keys (run calls t).seats ≡ keys t.seats)
run-fixes_roster_example = run-fixes_roster calls (run calls empty_table)

abbrev all_calls : List Op
all_calls =
    join_op 1 alice
    ∷ join_op 3 bob
    ∷ close_roster_op
    ∷ refund_op (pos 0)
    ∷ fund_op (pos 0)
    ∷ refund_op (pos 1)
    ∷ fund_op (pos 1)
    ∷ []
