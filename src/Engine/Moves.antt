-- ===== src/Engine/Moves.antt =====
-- engine.go: the entry points of a hand in play are sound.
use brc100_poker.Base.{
  ℕ, suc, ◌+◌, ◌-◌, ◌<◌, ◌≡◌, refl, false, not, ◌&&◌, ◌||◌, Option, none, some, List, [], ◌∷◌,
  arith, min, leb, ltb, ◌==◌, ℤ, pos, negsuc, pos_part, leb_ℤ, ltb_ℤ, eqb_ℤ, all, if_both, ◌∙◌,
  length, get_elem?, modify_at,
}
use brc100_poker.Cards.{Card, is_valid}
use brc100_poker.Engine.State.{
  is_pay_fault, int64_limit, Seat, State, Error, Result, ok, err, Outcome, Action, ActionKind, fold,
  check, call, bet, raise, other, panicked, hand_complete, waiting_for_board, waiting_for_showdown,
  out_of_turn, not_waiting_for_board, wrong_board_count, invalid_card, not_waiting_for_showdown,
}
use brc100_poker.Engine.Betting.{commit, legal}
use brc100_poker.Engine.Streets.{
  finished, next_street, street_fuel, advance, supply_board, set_revealed_hole, complete_showdown,
}
use brc100_poker.Engine.Hand.{apply, apply_turn, act, mark_acted, bet_or_raise, raise_by, reopen}
use brc100_poker.Engine.Conserve.{
  IndexedFrom, IsConsistent, IsSound, SameChips, commit-KeepsChips, modify_at-IsConsistent,
  IsConsistent-same, score_and_pay-IsSound,
}
use brc100_poker.Engine.Play.{
  in_play-IsSound, finish_street_transition-IsSound, next_street-IsSound, advance-IsSound,
}

reopen-IndexedFrom :
    (i j k : ℕ) (seats : List Seat) → IndexedFrom k seats → IndexedFrom k (reopen i j seats)
unfolding reopen
reopen-IndexedFrom i j k [] ix = ix
reopen-IndexedFrom i j k (s ∷ seats) ix =
    (ground arith, reopen-IndexedFrom i (suc j) (suc k) seats ix.1)

reopen-SameChips : (i j : ℕ) (seats : List Seat) → SameChips seats (reopen i j seats)
unfolding reopen
reopen-SameChips i j [] = refl
reopen-SameChips i j (s ∷ seats) = ground (arith, reopen-SameChips i (suc j) seats)

-- What a step of the hand leaves, if it does not err: a consistent hand in play.
data Keeps (total : ℕ) : Result State → Type 0 where
  kept : {st : State} → IsConsistent total st → st.done ≡ false → Keeps total (ok st)
  refused : {e : Error} → is_pay_fault (some e) ≡ false → Keeps total (err e)

module _ (total : ℕ) (bounded : total < int64_limit) where
  raise_by-IsConsistent :
      (st : State) (i : ℕ) (s : Seat) (add : ℕ)
      → IsConsistent total st
      → IsConsistent total (raise_by st i s add)
  unfolding raise_by
  raise_by-IsConsistent st i s add c =
      let c' = modify_at-IsConsistent total st i (commit add) (commit-KeepsChips add) c in
      let seats' = modify_at i (commit add) st.seats in
      if_both (IsConsistent total) (ltb st.current_bet (commit add s).street_commit)
        (λ _. record {
          indexed = reopen-IndexedFrom i 0 0 seats' c'.indexed;
          conserved = reopen-SameChips i 0 seats' ∙ c'.conserved;
          unpaid = c.unpaid;
        })
        (λ _. c')

  raise_by-done : (st : State) (i : ℕ) (s : Seat) (add : ℕ) → (raise_by st i s add).done ≡ st.done
  unfolding raise_by
  raise_by-done st i s add =
      if_both (λ (st' : State). st'.done ≡ st.done)
        (ltb st.current_bet (commit add s).street_commit) (λ _. refl) (λ _. refl)

  bet_or_raise-IsConsistent :
      (st : State) (i : ℕ) (s : Seat) (to : ℤ)
      → st.done ≡ false
      → IsConsistent total st
      → Keeps total (bet_or_raise st i s to)
  unfolding bet_or_raise
  bet_or_raise-IsConsistent st i s to o c =
      let l = legal st in
      let top = s.street_commit + s.stack in
      let add = min (pos_part to) top - s.street_commit in
      if_both (Keeps total) (not l.can_bet_raise) (λ _. refused refl)
        (λ _.
          if_both (Keeps total)
            (not (leb_ℤ (pos top) to) && (ltb_ℤ to l.min_to || ltb_ℤ (pos l.max_to) to))
            (λ _. refused refl)
            (λ _.
              if_both (Keeps total) (add == 0) (λ _. refused refl)
                (λ _. kept (raise_by-IsConsistent st i s add c) (raise_by-done st i s add ∙ o))))

  act-IsConsistent :
      (kind : ActionKind) (to : ℤ) (st : State) (i : ℕ) (s : Seat)
      → st.done ≡ false
      → IsConsistent total st
      → Keeps total (act kind to st i s)
  unfolding act
  act-IsConsistent fold to st i s o c =
      kept (modify_at-IsConsistent total st i _ (λ t. (refl, refl)) c) o
  act-IsConsistent check to st i s o c =
      if_both (Keeps total) (ltb s.street_commit st.current_bet) (λ _. refused refl) (λ _. kept c o)
  act-IsConsistent call to st i s o c =
      if_both (Keeps total) (leb st.current_bet s.street_commit) (λ _. refused refl)
        (λ _.
          kept
            (modify_at-IsConsistent total st i _
              (commit-KeepsChips (min (st.current_bet - s.street_commit) s.stack)) c)
            o)
  act-IsConsistent bet to st i s o c = bet_or_raise-IsConsistent st i s to o c
  act-IsConsistent raise to st i s o c = bet_or_raise-IsConsistent st i s to o c
  act-IsConsistent other to st i s o c = refused refl

  mark_acted-IsConsistent :
      (i : ℕ) (st : State) → IsConsistent total st → IsConsistent total (mark_acted i st)
  unfolding mark_acted
  mark_acted-IsConsistent i st c = modify_at-IsConsistent total st i _ (λ t. (refl, refl)) c

  mark_acted-done : (i : ℕ) (st : State) → (mark_acted i st).done ≡ st.done
  unfolding mark_acted
  mark_acted-done i st = refl

  acted-IsSound :
      (st : State) (i : ℕ)
      → st.done ≡ false
      → IsConsistent total st
      → (r : Result State) → Keeps total r
      → IsSound total (elim r [ err e ↦ (st, some e) | ok st' ↦ advance (mark_acted i st') ])
  acted-IsSound st i o c (ok st') (kept c' o') =
      advance-IsSound total bounded (mark_acted i st') (mark_acted-done i st' ∙ o')
        (mark_acted-IsConsistent i st' c')
  acted-IsSound st i o c (err e) (refused soft) = in_play-IsSound total st (some e) soft o c

  pub apply_turn-IsSound :
      (st : State) (a : Action)
      → st.done ≡ false
      → IsConsistent total st
      → IsSound total (apply_turn st a)
  unfolding apply_turn
  apply_turn-IsSound st a o c = turn st.to_act
    where
      seated :
          (i : ℕ) (m : Option Seat)
          → IsSound total (elim m [
            | none ↦ (st, some panicked)
            | some s ↦ elim (act a.kind a.to st i s) [
              | err e ↦ (st, some e)
              | ok st' ↦ advance (mark_acted i st')
            ]
          ])
      seated i none = in_play-IsSound total st (some panicked) refl o c
      seated i (some s) =
          acted-IsSound st i o c (act a.kind a.to st i s) (act-IsConsistent a.kind a.to st i s o c)

      turn :
          (z : ℤ)
          → IsSound total (elim z [
            | negsuc n ↦ (st, some panicked)
            | pos i ↦ elim (get_elem? st.seats i) [
              | none ↦ (st, some panicked)
              | some s ↦ elim (act a.kind a.to st i s) [
                | err e ↦ (st, some e)
                | ok st' ↦ advance (mark_acted i st')
              ]
            ]
          ])
      turn (negsuc n) = in_play-IsSound total st (some panicked) refl o c
      turn (pos i) = seated i (get_elem? st.seats i)

  -- A refused operation leaves the state, so it is sound.
  pub refused-IsSound :
      (st : State) (e : Error)
      → is_pay_fault (some e) ≡ false
      → IsConsistent total st
      → IsSound total (st, some e)
  refused-IsSound st e soft c = (c, (λ h. absurd (cc h)), soft)

  -- If fewer than 2 ^ 63 chips were brought to the table, then every action, legal or not, keeps a
  -- consistent hand consistent: the seats keep their positions and no chip is made or lost. An
  -- action that ends the hand without an error has paid out the whole pot, and no action overflows
  -- the chips or panics in the payout.
  pub apply-IsSound : (st : State) (a : Action) → IsConsistent total st → IsSound total (apply st a)
  unfolding apply
  apply-IsSound st a c =
      if_both (IsSound total) st.done (λ _. refused-IsSound st hand_complete refl c)
        (λ o.
          if_both (IsSound total) st.awaiting_board
            (λ _. refused-IsSound st waiting_for_board refl c)
            (λ _.
              if_both (IsSound total) st.awaiting_showdown
                (λ _. refused-IsSound st waiting_for_showdown refl c)
                (λ _.
                  if_both (IsSound total) (not (eqb_ℤ a.seat st.to_act))
                    (λ _. refused-IsSound st out_of_turn refl c)
                    (λ _. apply_turn-IsSound st a o c))))

  -- Supplying the board keeps a hand that is not done consistent, whatever cards are supplied.
  pub supply_board-IsSound :
      (st : State) (revealed : List Card)
      → st.done ≡ false
      → IsConsistent total st
      → IsSound total (supply_board revealed st)
  unfolding supply_board
  supply_board-IsSound st revealed o c =
      if_both (IsSound total) (not st.awaiting_board)
        (λ _. refused-IsSound st not_waiting_for_board refl c)
        (λ _.
          if_both (IsSound total) (not (length revealed == st.pending_board_count))
            (λ _. refused-IsSound st wrong_board_count refl c)
            (λ _.
              if_both (IsSound total) (not (all is_valid revealed))
                (λ _. refused-IsSound st invalid_card refl c)
                (λ _.
                  finish_street_transition-IsSound total bounded (next_street street_fuel)
                    (next_street-IsSound total bounded street_fuel) _ o
                    (IsConsistent-same total st _ refl refl o c))))

  -- Revealing hole cards changes no chips and no position.
  pub set_revealed_hole-IsConsistent :
      (st : State) (seat : ℤ) (hole : List Card)
      → IsConsistent total st
      → IsConsistent total (set_revealed_hole seat hole st).0
  unfolding set_revealed_hole
  set_revealed_hole-IsConsistent st (negsuc n) hole c = c
  set_revealed_hole-IsConsistent st (pos i) hole c =
      if_both (λ (o : Outcome). IsConsistent total o.0) (leb (length st.seats) i) (λ _. c)
        (λ _.
          if_both (λ (o : Outcome). IsConsistent total o.0) (not (all is_valid hole)) (λ _. c)
            (λ _.
              modify_at-IsConsistent total st i (λ s. record s { hole = hole }) (λ s. (refl, refl))
                c))

  -- Scoring a deferred showdown keeps a hand that is not done consistent, and pays out the whole
  -- pot unless it errs.
  pub complete_showdown-IsSound :
      (st : State) → st.done ≡ false → IsConsistent total st → IsSound total (complete_showdown st)
  unfolding complete_showdown
  complete_showdown-IsSound st o c =
      if_both (IsSound total) (not st.awaiting_showdown)
        (λ _. refused-IsSound st not_waiting_for_showdown refl c)
        (λ _.
          score_and_pay-IsSound total bounded (finished (record st { awaiting_showdown = false }))
            refl (c.unpaid o) (IsConsistent-same total st _ refl refl o c))
