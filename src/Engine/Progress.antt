-- ===== src/Engine/Progress.antt =====
-- engine.go: the order of a hand in the transitions between streets and at its end.
use brc100_poker.Base.{
  ℕ, ◌+◌, ltb, if◌then◌else◌, get_elem?, ◌≤◌, ◌≡◌, refl, true, false, not, Option, none, some, List,
  [], ◌∷◌, arith, leb, ℤ, pos, negsuc, minus_one, if_both, subst, sym, keep_if, sum_of,
}
use brc100_poker.Engine.State.{
  Seat, State, Error, Result, ok, err, Outcome, payout_panicked, overflowed, int64_limit,
  is_play_fault,
}
use brc100_poker.Engine.Betting.{next_able_to_act, able_to_act_count}
use brc100_poker.Engine.Scoring.{score_layers, pay_out, levels, score_and_pay, set_payout, credit}
use brc100_poker.Engine.Streets.{
  award_first_live, finished, show_down, settle, is_river, finish_street_transition,
}
use brc100_poker.Engine.ScoreErrors.{ErrsInPlay, score_layers-ErrsInPlay}
use brc100_poker.Engine.Order.{
  streets_left, CanAct, IsOrderly, IsBetting, KeepsOrder, next_able_to_act-CanAct,
}

pub IsBetting-IsOrderly : (st : State) → IsBetting st → CanAct st.seats st.to_act → IsOrderly st
IsBetting-IsOrderly st b t = record {
  done_no_wait = λ e. absurd (cc b.not_done);
  one_wait = λ e. absurd (cc b.no_board);
  street_open = λ _. b.street_open;
  deck_enough = λ _. b.deck_enough;
  pending_open = λ e. absurd (cc b.no_board);
  pending_enough = λ e. absurd (cc b.no_board);
  can_act = t;
}

-- A state that is done, and waits for nothing.
abbrev pub IsOver : State → Type 0
IsOver st =
    (st.done ≡ true)
    × (st.awaiting_board ≡ false)
    × (st.awaiting_showdown ≡ false)
    × (st.to_act ≡ minus_one)

IsOver-KeepsOrder :
    (st : State) (e : Option Error) → IsOver st → is_play_fault e ≡ false → KeepsOrder (st, e)
IsOver-KeepsOrder st e (d, b, w, t) f = record {
  orderly = record {
    done_no_wait = λ _. (b, w);
    one_wait = λ _. w;
    street_open = λ o. absurd (cc d);
    deck_enough = λ o. absurd (cc d);
    pending_open = λ o. absurd (cc b);
    pending_enough = λ o. absurd (cc b);
    can_act = subst (CanAct st.seats) (sym t) tt;
  };
  no_play_fault = f;
  goes_on = λ _. rw d;
}

pay_out-KeepsOrder : (won : List (ℕ × ℕ)) (st : State) → IsOver st → KeepsOrder (pay_out won st)
unfolding pay_out
pay_out-KeepsOrder [] st o = IsOver-KeepsOrder st none o refl
pay_out-KeepsOrder ((k, v) ∷ won) st o =
    credited (get_elem? st.seats k) (pay_out-KeepsOrder won (credit k v st) o)
  where
    credited :
        (m : Option Seat)
        → KeepsOrder (pay_out won (credit k v st))
        → KeepsOrder (elim m [
          | none ↦ (st, some payout_panicked)
          | some s ↦
              if ltb (s.stack + v) int64_limit
              then pay_out won (credit k v st)
              else (st, some overflowed)
        ])
    credited none rest = IsOver-KeepsOrder st (some payout_panicked) o refl
    credited (some s) rest =
        if_both KeepsOrder (ltb (s.stack + v) int64_limit) (λ _. rest)
          (λ _. IsOver-KeepsOrder st (some overflowed) o refl)

pub score_and_pay-KeepsOrder : (st : State) → IsOver st → KeepsOrder (score_and_pay st)
unfolding score_and_pay
score_and_pay-KeepsOrder st o =
    ended (score_layers st 0 (levels st.seats) [])
      (score_layers-ErrsInPlay st 0 (levels st.seats) [])
  where
    ended :
        (r : Result (List (ℕ × ℕ)))
        → ErrsInPlay r
        → KeepsOrder (elim r [ err e ↦ (st, some e) | ok won ↦ pay_out won st ])
    ended (err e) h = IsOver-KeepsOrder st (some e) o h
    ended (ok won) h = pay_out-KeepsOrder won st o

pub finished-IsOver : (st : State) → IsBetting st → IsOver (finished st)
finished-IsOver st b = (refl, b.no_board, b.no_showdown, refl)

show_down-KeepsOrder : (st : State) → IsBetting st → KeepsOrder (show_down st)
unfolding show_down
show_down-KeepsOrder st b =
    if_both KeepsOrder st.defer_reveal
      (λ deferred. record {
        orderly = record {
          done_no_wait = λ e. absurd (cc b.not_done);
          one_wait = λ e. absurd (cc b.no_board);
          street_open = λ _. b.street_open;
          deck_enough = λ _. b.deck_enough;
          pending_open = λ e. absurd (cc b.no_board);
          pending_enough = λ e. absurd (cc b.no_board);
          can_act = tt;
        };
        no_play_fault = refl;
        goes_on = λ _. ground arith;
      })
      (λ known. score_and_pay-KeepsOrder (finished st) (finished-IsOver st b))

pub settle-KeepsOrder : (st : State) → IsBetting st → KeepsOrder (settle st)
unfolding settle
settle-KeepsOrder st b = go (keep_if (λ (s : Seat). not s.folded) st.seats)
  where
    go :
        (live : List Seat)
        → KeepsOrder (elim live [
          | [] ↦ show_down st
          | s ∷ more ↦ elim more [
            | [] ↦
                let won = sum_of (λ (t : Seat). t.total_commit) st.seats in
                if ltb (s.stack + won) int64_limit
                then (
                  record (finished st) {
                    seats = award_first_live won st.seats;
                    payouts = set_payout s.index won st.payouts;
                  },
                  none,
                )
                else (finished st, some overflowed)
            | t ∷ rest ↦ show_down st
          ]
        ])
    go [] = show_down-KeepsOrder st b
    go (s ∷ []) =
        if_both KeepsOrder
          (ltb (s.stack + sum_of (λ (t : Seat). t.total_commit) st.seats) int64_limit)
          (λ _. IsOver-KeepsOrder _ none (refl, b.no_board, b.no_showdown, refl) refl)
          (λ _. IsOver-KeepsOrder (finished st) (some overflowed) (finished-IsOver st b) refl)
    go (s ∷ t ∷ more) = show_down-KeepsOrder st b

-- A betting state that is given a seat to act.
pub in_turn-KeepsOrder :
    (st : State) (i : ℕ)
    → IsBetting st
    → CanAct st.seats (pos i)
    → KeepsOrder (record st { to_act = pos i }, none)
in_turn-KeepsOrder st i b t = record {
  orderly =
      IsBetting-IsOrderly _
        (record {
          not_done = b.not_done;
          no_board = b.no_board;
          no_showdown = b.no_showdown;
          street_open = b.street_open;
          deck_enough = b.deck_enough;
        })
        t;
  no_play_fault = refl;
  goes_on = λ _. rw (b.not_done, b.no_board, b.no_showdown);
}

-- What the street loop owes on a betting state with at most `fuel` streets left.
abbrev pub Advances : ℕ → (State → Outcome) → Type 0
Advances fuel next =
    (st : State) → IsBetting st → streets_left st.street ≤ fuel → KeepsOrder (next st)

pub finish_street_transition-KeepsOrder :
    (fuel : ℕ) (next : State → Outcome)
    → Advances fuel next
    → Advances fuel (finish_street_transition next)
unfolding finish_street_transition
finish_street_transition-KeepsOrder fuel next h st b l =
    if_both KeepsOrder (leb (able_to_act_count st.seats) 1)
      (λ _. if_both KeepsOrder (is_river st.street) (λ _. settle-KeepsOrder st b) (λ _. h st b l))
      (λ _. turn (next_able_to_act st.seats st.button) (next_able_to_act-CanAct st.seats st.button))
  where
    turn :
        (z : ℤ)
        → CanAct st.seats z
        → KeepsOrder (elim z [
          | pos i ↦ (record st { to_act = pos i }, none)
          | negsuc n ↦ next (record st { to_act = negsuc n })
        ])
    turn (pos i) t = in_turn-KeepsOrder st i b t
    turn (negsuc n) t =
        h _
          (record {
            not_done = b.not_done;
            no_board = b.no_board;
            no_showdown = b.no_showdown;
            street_open = b.street_open;
            deck_enough = b.deck_enough;
          })
          l
