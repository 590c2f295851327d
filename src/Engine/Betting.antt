-- ===== src/Engine/Betting.antt =====
-- engine.go: posting and committing chips, who may act, and the legal actions.
use brc100_poker.Base.{
  ℕ, zero, suc, ◌+◌, ◌-◌, ◌%◌, min, Bool, true, false, not, ◌&&◌, ◌||◌, none, some, List, ltb, ◌==◌,
  if◌then◌else◌, ℤ, pos, negsuc, minus_one, ltb_ℤ, leb_ℤ, sub_ℕ, ◌^◌, length, get_elem?, modify_at,
  count_if, sum_of,
}
use brc100_poker.Engine.State.{Seat, Legal, State, int64}

-- `commit`: at most the stack moves in, and an empty stack is all-in.
unfoldable pub commit : ℕ → Seat → Seat
commit amt s =
    let pay = min amt s.stack in
    record s {
      stack = s.stack - pay;
      street_commit = s.street_commit + pay;
      total_commit = s.total_commit + pay;
      all_in = s.all_in || s.stack - pay == 0;
    }

-- `postBlind`, whose body is that of `commit`.
unfoldable pub post_blind : ℕ → ℕ → State → State
unfolding commit
post_blind seat amt st = record st { seats = modify_at seat (commit amt) st.seats }

-- `!s.Folded && !s.AllIn`.
abbrev pub is_able : Seat → Bool
is_able s = not s.folded && not s.all_in

-- The loop of `nextAbleToAct` over `i = at % n`, with the rounds left.
unfoldable pub scan_able : List Seat → ℕ → ℕ → ℤ
scan_able seats at zero = minus_one
scan_able seats at (suc rounds) =
    let rest = scan_able seats (at + 1) rounds in
    let i = at % length seats in
    elim (get_elem? seats i) [ none ↦ minus_one | some s ↦ if is_able s then pos i else rest ]

unfoldable pub next_able_to_act : List Seat → ℕ → ℤ
unfolding scan_able
next_able_to_act seats from = scan_able seats (from + 1) (length seats)

unfoldable pub live_count : List Seat → ℕ
live_count seats = count_if (λ s. not s.folded) seats

unfoldable pub able_to_act_count : List Seat → ℕ
able_to_act_count seats = count_if is_able seats

-- `Pot`: chips committed less chips paid, in int64 arithmetic.
unfoldable pub pot : State → ℤ
pot st =
    int64 (sum_of (λ s. s.total_commit) st.seats + (2 ^ 64 - sum_of (λ p. p.1) st.payouts % 2 ^ 64))

-- The zero value of `Legal`.
abbrev pub no_legal : Legal
no_legal = record {
  can_fold = false;
  can_check = false;
  can_call = false;
  can_bet_raise = false;
  call_amount = pos 0;
  min_to = pos 0;
  max_to = 0;
}

-- `min64`.
abbrev pub min64 : ℤ → ℤ → ℤ
min64 a b = if ltb_ℤ a b then a else b

-- `Legal` once the seat to act is known.
unfoldable pub legal_of : State → Seat → Legal
legal_of st s =
    let to_call = sub_ℕ st.current_bet s.street_commit in
    let top = s.street_commit + s.stack in
    let least =
      int64 (if st.current_bet == 0 then st.big_blind else st.current_bet + st.min_raise) in
    let may_raise = ltb st.current_bet top && ltb 0 s.stack in
    record {
      can_fold = true;
      can_check = leb_ℤ to_call (pos 0);
      can_call = ltb_ℤ (pos 0) to_call && ltb 0 s.stack;
      can_bet_raise = may_raise;
      call_amount = min64 to_call (pos s.stack);
      min_to = if may_raise then min64 least (pos top) else pos 0;
      max_to = if may_raise then top else 0;
    }

-- `Legal`.
unfoldable pub legal : State → Legal
unfolding legal_of
legal st = elim st.to_act [
  | negsuc n ↦ no_legal
  | pos i ↦ elim (get_elem? st.seats i) [
    | none ↦ no_legal
    | some s ↦
        if st.done || (st.awaiting_board || st.awaiting_showdown) then no_legal else legal_of st s
  ]
]
