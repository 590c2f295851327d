-- ===== src/Engine/Runs.antt =====
-- A whole hand of engine.go: any sequence of calls on a hand that `New` opened.
use brc100_poker.Base.{
  ℕ, ◌≡◌, ◌≢◌, refl, false, not, none, some, List, [], ◌∷◌, ℤ, pos, negsuc, if_both, All, Bool,
  true, Option, ◌<◌, leb, all, length,
}
use brc100_poker.Cards.{Card, is_valid}
use brc100_poker.Engine.State.{
  State, Action, ActionKind, Config, Error, Outcome, is_fault, int64_limit, not_waiting_for_board,
  not_waiting_for_showdown,
}
use brc100_poker.Engine.Streets.{supply_board, set_revealed_hole, complete_showdown}
use brc100_poker.Engine.Hand.{apply}
use brc100_poker.Engine.Payout.{stacks}
use brc100_poker.Engine.Conserve.{IsConsistent}
use brc100_poker.Engine.Order.{IsOrderly, is_seat}
use brc100_poker.Engine.Moves.{apply-IsSound, set_revealed_hole-IsConsistent}
use brc100_poker.Engine.Entry.{apply-IsTidy, supply_board-IsTidy, complete_showdown-IsTidy}
use brc100_poker.Engine.Opening.{set_revealed_hole-IsOrderly}

-- A call on a hand; an action names a seat from 0 on.
pub data Op : Type 0 where
  play : ActionKind → ℕ → ℤ → Op
  board : List Card → Op
  reveal : ℤ → List Card → Op
  showdown : Op

unfoldable pub step : Op → State → Outcome
step (play kind seat to) st = apply st (record { kind = kind; seat = pos seat; to = to })
step (board revealed) st = supply_board revealed st
step (reveal seat hole) st = set_revealed_hole seat hole st
step showdown st = complete_showdown st

-- The calls in order; the caller goes on after an error.
unfoldable pub run : List Op → State → State
run [] st = st
run (op ∷ ops) st = run ops (step op st).0

-- What holds of a hand between two calls.
abbrev pub IsSafe : ℕ → State → Type 0
IsSafe total st = IsConsistent total st × IsOrderly st

-- What each call gives beside the state.
unfoldable pub errors : List Op → State → List (Option Error)
errors [] st = []
errors (op ∷ ops) st = (step op st).1 ∷ errors ops (step op st).0

set_revealed_hole_sound :
    (seat : ℤ) (hole : List Card) (st : State) → is_fault (set_revealed_hole seat hole st).1 ≡ false
unfolding set_revealed_hole
set_revealed_hole_sound (negsuc n) hole st = refl
set_revealed_hole_sound (pos i) hole st =
    if_both (λ (o : Outcome). is_fault o.1 ≡ false) (leb (length st.seats) i) (λ _. refl)
      (λ _.
        if_both (λ (o : Outcome). is_fault o.1 ≡ false) (not (all is_valid hole)) (λ _. refl)
          (λ _. refl))

module _ (total : ℕ) (bounded : total < int64_limit) where
  step-IsSafe :
      (op : Op) (st : State)
      → IsSafe total st
      → IsSafe total (step op st).0 × (is_fault (step op st).1 ≡ false)
  unfolding step
  step-IsSafe (play kind seat to) st (c, h) =
      let a : Action = record { kind = kind; seat = pos seat; to = to } in
      let tidy = apply-IsTidy total bounded st a h c refl in
      (((apply-IsSound total bounded st a c).0, tidy.orderly), tidy.no_fault)
  step-IsSafe (board revealed) st (c, h) =
      let (tidy, kept) = supply_board-IsTidy total bounded st revealed h c in
      ((kept, tidy.orderly), tidy.no_fault)
  step-IsSafe (reveal seat hole) st (c, h) = (
    (
      set_revealed_hole-IsConsistent total bounded st seat hole c,
      set_revealed_hole-IsOrderly seat hole st h,
    ),
    set_revealed_hole_sound seat hole st,
  )
  step-IsSafe showdown st (c, h) =
      let (tidy, kept) = complete_showdown-IsTidy total bounded st h c in
      ((kept, tidy.orderly), tidy.no_fault)

  pub run-IsSafe :
      (ops : List Op) (st : State)
      → IsSafe total st
      → IsSafe total (run ops st) × All (λ e. is_fault e ≡ false) (errors ops st)
  unfolding run errors
  run-IsSafe [] st h = (h, tt)
  run-IsSafe (op ∷ ops) st h =
      let (safe, sound) = step-IsSafe op st h in
      let (rest, faults) = run-IsSafe ops (step op st).0 safe in (rest, (sound, faults))

-- A hand that is not done, in which no seat is to act, and that refuses every action, every board
-- and the scoring.
abbrev pub IsStuck : State → Type 0
IsStuck st =
    (st.done ≡ false)
    × (is_seat st.to_act ≡ false)
    × ((a : Action) → ((apply st a).0 ≡ st) × ((apply st a).1 ≢ none))
    × ((revealed : List Card) → supply_board revealed st ≡ (st, some not_waiting_for_board))
    × (complete_showdown st ≡ (st, some not_waiting_for_showdown))

-- Every action is refused, and changes nothing.
abbrev Refuses : State → Outcome → Type 0
Refuses st o = (o.0 ≡ st) × (o.1 ≢ none)

-- A configuration with two seats: the button, at seat 0 or at seat 1, brings `a` chips and the other
-- seat `b`.
abbrev pub heads_up : Bool → ℕ → ℕ → Config → Config
heads_up true a b cfg = record cfg { stacks = pos a ∷ pos b ∷ []; button = pos 0 }
heads_up false a b cfg = record cfg { stacks = pos b ∷ pos a ∷ []; button = pos 1 }
