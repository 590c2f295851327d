-- ===== src/Engine/Play.antt =====
-- engine.go: each operation of a hand in play is sound.
use brc100_poker.Base.{
  ℕ, zero, suc, ◌+◌, ◌≤◌, ◌<◌, ◌≡◌, tests, true, if◌then◌else◌, refl, inl, inr, false, not, Option,
  none, some, List, [], ◌∷◌, arith, leb, ltb, ◌==◌, pos, negsuc, pos_part, keep_if, Bool-cases,
  if_both, sym, ap, ◌∙◌, length,
}
use brc100_poker.Engine.State.{
  Seat, State, Street, Error, out_of_fuel, panicked, overflowed, Outcome, is_pay_fault, int64_limit,
}
use brc100_poker.Engine.Betting.{next_able_to_act, able_to_act_count, live_count}
use brc100_poker.Engine.Scoring.{set_payout}
use brc100_poker.Engine.Streets.{
  award_first_live, finished, show_down, settle, clear_seat, open_street, is_river, deal_board,
  cards_due, street_due, finish_street_transition, next_street, street_fuel, advance, is_closed,
}
use brc100_poker.Engine.Payout.{paid, stacks, commits, paid-set_payout_first}
use brc100_poker.Engine.Conserve.{
  IndexedFrom, IsConsistent, IsSound, map-IndexedFrom, map-SameChips, clear_seat-KeepsChips,
  IsConsistent-same, score_and_pay-IsSound,
}

-- A state in play that errs nowhere: what an operation leaves when it does not end the hand.
pub in_play-IsSound :
    (total : ℕ) (st : State) (e : Option Error)
    → is_pay_fault e ≡ false
    → st.done ≡ false
    → IsConsistent total st
    → IsSound total (st, e)
in_play-IsSound total st e soft open' c = (c, (λ _ d. absurd (cc d)), soft)

finished-IsConsistent :
    (total : ℕ) (st : State)
    → st.done ≡ false
    → IsConsistent total st
    → IsConsistent total (finished st)
finished-IsConsistent total st o c = IsConsistent-same total st (finished st) refl refl o c

show_down-IsSound :
    (total : ℕ) (bounded : total < int64_limit) (st : State)
    → st.done ≡ false
    → IsConsistent total st
    → IsSound total (show_down st)
unfolding show_down
show_down-IsSound total bounded st o c =
    if_both (IsSound total) st.defer_reveal
      (λ deferred. in_play-IsSound total _ none refl o (IsConsistent-same total st _ refl refl o c))
      (λ known.
        score_and_pay-IsSound total bounded (finished st) refl (c.unpaid o)
          (finished-IsConsistent total st o c))

-- Awarding the pot to the first live seat, where there is one.
award_first_live-pays :
    (won k : ℕ) (seats : List Seat) (s : Seat) (live : List Seat)
    → keep_if (λ (t : Seat). not t.folded) seats ≡ s ∷ live
    → IndexedFrom k seats
    → let seats' = award_first_live won seats in
      IndexedFrom k seats' × (stacks seats' ≡ stacks seats + won) × (commits seats' ≡ commits seats)
unfolding award_first_live
award_first_live-pays won k [] s live e ix = absurd (cc e)
award_first_live-pays won k (t ∷ seats) s live e ix = elim (Bool-cases t.folded) [
  | inl out ↦
      let rest = award_first_live-pays won (suc k) seats s live (rw (out) at e) ix.1 in
      rw (out) ((ix.0, rest.0), omega arith, omega arith)
  | inr stays ↦ rw stays (ix, omega arith, refl)
]

first_live-stacks :
    (seats : List Seat) (s : Seat) (live : List Seat)
    → keep_if (λ (t : Seat). not t.folded) seats ≡ s ∷ live
    → s.stack ≤ stacks seats
first_live-stacks [] s live e = absurd (cc e)
first_live-stacks (t ∷ seats) s live e = elim (Bool-cases t.folded) [
  | inl out ↦ omega (arith, first_live-stacks seats s live (rw (out) at e))
  | inr stays ↦
      let same : t ≡ s = cc (rw (stays) at e) in omega (arith, ap (λ (u : Seat). u.stack) same)
]

-- Ending the hand is sound: an uncontested pot goes whole to the last live seat, and a contested
-- one is scored or waits for the hole cards.
settle-IsSound :
    (total : ℕ) (bounded : total < int64_limit) (st : State)
    → st.done ≡ false
    → IsConsistent total st
    → IsSound total (settle st)
unfolding settle
settle-IsSound total bounded st o c = go (keep_if (λ (s : Seat). not s.folded) st.seats) refl
  where
    uncontested :
        (s : Seat)
        → keep_if (λ (t : Seat). not t.folded) st.seats ≡ s ∷ []
        → let won = commits st.seats in
          IsSound total (
            record (finished st) {
              seats = award_first_live won st.seats;
              payouts = set_payout s.index won st.payouts;
            },
            none,
          )
    uncontested s e =
        let (ix, held, kept) =
          award_first_live-pays (commits st.seats) 0 st.seats s [] e c.indexed in
        let out = paid-set_payout_first s.index (commits st.seats) st.payouts (c.unpaid o) in
        let nothing = ap paid (c.unpaid o) in
        let chips = c.conserved in
        (
          record { indexed = ix; conserved = omega arith; unpaid = λ h. absurd (cc h) },
          (λ _ _. out ∙ sym kept),
          refl,
        )

    fits :
        (s : Seat)
        → keep_if (λ (t : Seat). not t.folded) st.seats ≡ s ∷ []
        → ltb (s.stack + commits st.seats) int64_limit ≡ true
    fits s e =
        let chips = c.conserved in
        let holds = first_live-stacks st.seats s [] e in
        let nothing = ap paid (c.unpaid o) in omega tests

    go :
        (live : List Seat)
        → keep_if (λ (s : Seat). not s.folded) st.seats ≡ live
        → IsSound total (elim live [
          | [] ↦ show_down st
          | s ∷ more ↦ elim more [
            | [] ↦
                let won = commits st.seats in
                if ltb (s.stack + won) int64_limit
                then (
                  record (finished st) {
                    seats = award_first_live won st.seats;
                    payouts = set_payout s.index won st.payouts;
                  },
                  none,
                )
                else (finished st, some overflowed)
            | t ∷ rest ↦ show_down st
          ]
        ])
    go [] e = show_down-IsSound total bounded st o c
    go (s ∷ []) e =
        if_both (IsSound total) (ltb (s.stack + commits st.seats) int64_limit)
          (λ _. uncontested s e) (λ over. absurd (cc (over, fits s e)))
    go (s ∷ t ∷ more) e = show_down-IsSound total bounded st o c

open_street-IsConsistent :
    (total : ℕ) (st : State)
    → st.done ≡ false
    → IsConsistent total st
    → IsConsistent total (open_street st)
unfolding open_street
open_street-IsConsistent total st o c = record {
  indexed = map-IndexedFrom clear_seat 0 st.seats clear_seat-KeepsChips c.indexed;
  conserved = map-SameChips clear_seat st.seats clear_seat-KeepsChips ∙ c.conserved;
  unpaid = c.unpaid;
}

open_street-done : (st : State) → (open_street st).done ≡ st.done
unfolding open_street
open_street-done st = refl

module _ (total : ℕ) (bounded : total < int64_limit) where
  -- What the street loop owes on every state in play.
  abbrev pub PlaysSoundly : (State → Outcome) → Type 0
  PlaysSoundly next =
      (st : State) → st.done ≡ false → IsConsistent total st → IsSound total (next st)

  pub finish_street_transition-IsSound :
      (next : State → Outcome) → PlaysSoundly next → PlaysSoundly (finish_street_transition next)
  unfolding finish_street_transition
  finish_street_transition-IsSound next h st o c =
      if_both (IsSound total) (leb (able_to_act_count st.seats) 1)
        (λ _.
          if_both (IsSound total) (is_river st.street) (λ _. settle-IsSound total bounded st o c)
            (λ _. h st o c))
        (λ _.
          elim (next_able_to_act st.seats st.button)
            as (λ z. IsSound total (elim z [
              | pos i ↦ (record st { to_act = pos i }, none)
              | negsuc n ↦ next (record st { to_act = negsuc n })
            ])) [
              | pos i ↦
                  in_play-IsSound total _ none refl o (IsConsistent-same total st _ refl refl o c)
              | negsuc n ↦ h _ o (IsConsistent-same total st _ refl refl o c)
            ])

  deal_board-IsConsistent :
      (need : ℕ) (st : State)
      → st.done ≡ false
      → IsConsistent total st
      → (due : Street) (next : State → Outcome) → PlaysSoundly next
      → IsSound total (elim (deal_board need st) [
        | none ↦ (st, some panicked)
        | some dealt ↦ finish_street_transition next (record dealt { street = due })
      ])
  unfolding deal_board
  deal_board-IsConsistent need st o c due next h =
      elim (Bool-cases (ltb (length st.deck) (st.deck_pos + need))) [
        | inl short ↦ rw short (in_play-IsSound total st (some panicked) refl o c)
        | inr enough ↦ rw enough (
            finish_street_transition-IsSound next h _ o
              (IsConsistent-same total st _ refl refl o c))
      ]

  pub next_street-IsSound : (fuel : ℕ) → PlaysSoundly (next_street fuel)
  unfolding next_street
  next_street-IsSound zero st o c = in_play-IsSound total st (some out_of_fuel) refl o c
  next_street-IsSound (suc fuel) st o c =
      let c' = open_street-IsConsistent total st o c in
      let o' = open_street-done st ∙ o in
      if_both (IsSound total) (is_river st.street) (λ _. settle-IsSound total bounded st o c)
        (λ _.
          if_both (IsSound total) st.defer_reveal
            (λ _.
              in_play-IsSound total _ none refl o'
                (IsConsistent-same total (open_street st) _ refl refl o' c'))
            (λ _.
              deal_board-IsConsistent (cards_due st.street) (open_street st) o' c'
                (street_due st.street) (next_street fuel) (next_street-IsSound fuel)))

  pub advance-IsSound : PlaysSoundly advance
  unfolding advance
  advance-IsSound st o c =
      if_both (IsSound total) (live_count st.seats == 1) (λ _. settle-IsSound total bounded st o c)
        (λ _.
          if_both (IsSound total) (is_closed st) (λ _. next_street-IsSound street_fuel st o c)
            (λ _.
              elim (next_able_to_act st.seats (pos_part st.to_act))
                as (λ z. IsSound total (elim z [
                  | pos i ↦ (record st { to_act = pos i }, none)
                  | negsuc n ↦ next_street street_fuel st
                ])) [
                  | pos i ↦
                      in_play-IsSound total _ none refl o
                        (IsConsistent-same total st _ refl refl o c)
                  | negsuc n ↦ next_street-IsSound street_fuel st o c
                ]))
