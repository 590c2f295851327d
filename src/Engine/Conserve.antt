-- ===== src/Engine/Conserve.antt =====
-- engine.go: the chips of a hand. A state is consistent when each seat's
-- index is its position, the stacks and commitments hold what was brought to the table and what
-- has been paid, and nothing is paid before the hand is done.
use brc100_poker.Base.{
  ℕ, zero, suc, ◌+◌, ◌≤◌, ◌<◌, ◌≡◌, refl, inl, inr, true, false, none, List, [], ◌∷◌, map, arith,
  All, subst, sym, ap, ◌∙◌, length, modify_at,
}
use brc100_poker.Engine.State.{Seat, State, Outcome, is_pay_fault, int64_limit}
use brc100_poker.Engine.Betting.{commit}
use brc100_poker.Engine.Scoring.{levels, credit, score_and_pay}
use brc100_poker.Engine.Layers.{layers_total-commits}
use brc100_poker.Engine.ScoreErrors.{ErrsSoftly, score_layers-ErrsSoftly}
use brc100_poker.Engine.Streets.{clear_seat}
use brc100_poker.Engine.Winners.{SeatBelow}
use brc100_poker.Engine.Payout.{
  paid, stacks, commits, paid_out, score_and_pay-ends, pay_out-pays_pot,
}

-- Seat `k` of the table stands first, and each seat's index is its position.
abbrev pub IndexedFrom : ℕ → List Seat → Type 0
IndexedFrom k [] = Unit
IndexedFrom k (s ∷ seats) = (s.index ≡ k) × IndexedFrom (suc k) seats

-- `total` chips were brought to the table.
pub record IsConsistent (total : ℕ) (st : State) : Type 0 where
  pub indexed : IndexedFrom 0 st.seats
  pub conserved : stacks st.seats + commits st.seats ≡ total + paid st.payouts
  pub unpaid : st.done ≡ false → st.payouts ≡ []

-- The state that an operation leaves is consistent, with an error or without one, a hand that is done
-- without an error has paid out its whole pot, and nothing overflows or panics in the payout.
abbrev pub IsSound : ℕ → Outcome → Type 0
IsSound total o =
    IsConsistent total o.0
    × (o.1 ≡ none → o.0.done ≡ true → paid o.0.payouts ≡ commits o.0.seats)
    × (is_pay_fault o.1 ≡ false)

IndexedFrom-below :
    (k n : ℕ) (seats : List Seat)
    → IndexedFrom k seats
    → k + length seats ≤ n
    → All (SeatBelow n) seats
IndexedFrom-below k n [] h b = tt
IndexedFrom-below k n (s ∷ seats) h b =
    (omega arith, IndexedFrom-below (suc k) n seats h.1 (omega arith))

-- An update of a seat that moves chips only between its stack and its commitment.
abbrev pub KeepsChips : (Seat → Seat) → Type 0
KeepsChips f =
    (s : Seat)
    → ((f s).index ≡ s.index) × ((f s).stack + (f s).total_commit ≡ s.stack + s.total_commit)

-- What such updates keep of all seats.
abbrev pub SameChips : List Seat → List Seat → Type 0
SameChips seats seats' = stacks seats' + commits seats' ≡ stacks seats + commits seats

modify_at-IndexedFrom :
    (f : Seat → Seat) (k i : ℕ) (seats : List Seat)
    → ((s : Seat) → (f s).index ≡ s.index)
    → IndexedFrom k seats
    → IndexedFrom k (modify_at i f seats)
modify_at-IndexedFrom f k i [] h ix = ix
modify_at-IndexedFrom f k zero (s ∷ seats) h ix = (h s ∙ ix.0, ix.1)
modify_at-IndexedFrom f k (suc i) (s ∷ seats) h ix =
    (ix.0, modify_at-IndexedFrom f (suc k) i seats h ix.1)

modify_at-SameChips :
    (f : Seat → Seat) (i : ℕ) (seats : List Seat)
    → KeepsChips f
    → SameChips seats (modify_at i f seats)
modify_at-SameChips f i [] h = refl
modify_at-SameChips f zero (s ∷ seats) h = omega (arith, (h s).1)
modify_at-SameChips f (suc i) (s ∷ seats) h = omega (arith, modify_at-SameChips f i seats h)

pub map-IndexedFrom :
    (f : Seat → Seat) (k : ℕ) (seats : List Seat)
    → KeepsChips f
    → IndexedFrom k seats
    → IndexedFrom k (map f seats)
map-IndexedFrom f k [] h ix = ix
map-IndexedFrom f k (s ∷ seats) h ix = ((h s).0 ∙ ix.0, map-IndexedFrom f (suc k) seats h ix.1)

pub map-SameChips :
    (f : Seat → Seat) (seats : List Seat) → KeepsChips f → SameChips seats (map f seats)
map-SameChips f [] h = refl
map-SameChips f (s ∷ seats) h = omega (arith, (h s).1, map-SameChips f seats h)

pub commit-KeepsChips : (amt : ℕ) → KeepsChips (commit amt)
unfolding commit
commit-KeepsChips amt s = ground arith

pub clear_seat-KeepsChips : KeepsChips clear_seat
unfolding clear_seat
clear_seat-KeepsChips s = (refl, refl)

-- A consistent state stays so under an update of the seats that keeps the chips.
pub modify_at-IsConsistent :
    (total : ℕ) (st : State) (i : ℕ) (f : Seat → Seat)
    → KeepsChips f
    → IsConsistent total st
    → IsConsistent total (record st { seats = modify_at i f st.seats })
modify_at-IsConsistent total st i f h c = record {
  indexed = modify_at-IndexedFrom f 0 i st.seats (λ s. (h s).0) c.indexed;
  conserved = modify_at-SameChips f i st.seats h ∙ c.conserved;
  unpaid = c.unpaid;
}

-- A state that differs in nothing that consistency reads.
pub IsConsistent-same :
    (total : ℕ) (st st' : State)
    → st'.seats ≡ st.seats
    → st'.payouts ≡ st.payouts
    → st.done ≡ false
    → IsConsistent total st
    → IsConsistent total st'
IsConsistent-same total st st' es ep open' c = record {
  indexed = subst (IndexedFrom 0) (sym es) c.indexed;
  conserved = rw (es, ep) c.conserved;
  unpaid = λ _. ep ∙ c.unpaid open';
}

paid_out-IndexedFrom :
    (won : List (ℕ × ℕ)) (st : State)
    → IndexedFrom 0 st.seats
    → IndexedFrom 0 (paid_out won st).seats
paid_out-IndexedFrom [] st ix = ix
paid_out-IndexedFrom ((k, v) ∷ won) st ix =
    let add = λ (s : Seat). record s { stack = s.stack + v } in
    paid_out-IndexedFrom won (credit k v st) (modify_at-IndexedFrom add 0 k st.seats (λ s. refl) ix)

paid_out-done : (won : List (ℕ × ℕ)) (st : State) → (paid_out won st).done ≡ st.done
paid_out-done [] st = refl
paid_out-done ((k, v) ∷ won) st = paid_out-done won (credit k v st)

-- Scoring a finished hand that has paid nothing is sound.
pub score_and_pay-IsSound :
    (total : ℕ) (bounded : total < int64_limit) (st : State)
    → st.done ≡ true
    → st.payouts ≡ []
    → IsConsistent total st
    → IsSound total (score_and_pay st)
score_and_pay-IsSound total bounded st d u c =
    let nothing = ap paid u in
    let chips = c.conserved in
    elim (score_and_pay-ends st) [
      | inl (x, failed, ends) ↦
          let all_of_it = layers_total-commits st.seats in
          let soft =
            subst ErrsSoftly failed
              (score_layers-ErrsSoftly st 0 (levels st.seats) [] (omega arith)) in
          rw ends (c, (λ e. absurd (cc e)), ground (arith, soft))
      | inr (won, shared, ends) ↦
          let (payout, (held, kept, out)) =
            pay_out-pays_pot st won
              (IndexedFrom-below 0 (length st.seats) st.seats c.indexed (omega arith)) u
              (omega arith) shared in
          rw (ends ∙ payout) (
            record {
              indexed = paid_out-IndexedFrom won st c.indexed;
              conserved = omega arith;
              unpaid = λ e. absurd (cc (paid_out-done won st));
            },
            (λ _ _. out ∙ sym kept),
            refl,
          )
    ]
