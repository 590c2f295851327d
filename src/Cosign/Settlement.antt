-- ===== src/Cosign/Settlement.antt =====
-- verify.go: what a seat has made sure of when it signs a settlement.
use brc100_poker.Base.{
  ℕ, zero, suc, ◌+◌, ◌%◌, ◌^◌, ◌≤◌, ◌<◌, ◌≡◌, ◌≢◌, ◌⊎◌, refl, sym, ap, subst, ◌∙◌, true, false, not,
  ◌&&◌, none, some, List, [], ◌∷◌, arith, ◌==◌, pos, Text, to_lower, get_elem?, All, All-map,
  some_eq, count_if, count_if-cons_true, count_if-cons_false,
}
use brc100_poker.Cosign.{
  Input, Transaction, Expectation, Proposal, ok, is_empty, spends, spent_elsewhere, tally,
  match_payouts, tolerates, check_value, check_payouts, check_outputs, check_input, verify_proposal,
}
use brc100_poker.Cosign.Tally.{
  value, paid_to, total_out, tally-paid, tally-sum, find_key→value, match_payouts-value,
  match_payouts-left, tolerates-value,
}

-- What an accepted proposal went through.
record Accepted (p : Proposal) (want : Expectation) : Type 0 where
  tx : Transaction
  at : ℕ
  input : Input
  sums : List (Text × ℕ) × ℕ
  rest : List (Text × ℕ)
  has_tx : p.tx ≡ some tx
  has_input : p.pot_input ≡ pos at
  found : get_elem? tx.inputs at ≡ some input
  spends_pot : spends want.pot_txid want.pot_vout input ≡ true
  once : spent_elsewhere at 0 tx.inputs want.pot_txid want.pot_vout ≡ false
  bounded : (is_empty want.payouts && (want.max_fee == 0)) ≡ false
  tallied : tally tx.outputs [] 0 ≡ ok sums
  matched : match_payouts want.payouts sums.0 ≡ ok rest
  tolerated : (not (is_empty want.payouts) && not (tolerates want.max_fee rest)) ≡ false
  valued : check_value want sums.1 ≡ none

-- Each level of the checks, taken apart.
module _ (want : Expectation) where
  check_payouts-none :
      (got : List (Text × ℕ)) (total : ℕ)
      → check_payouts want got total ≡ none
      → (rest : List (Text × ℕ)) × (match_payouts want.payouts got ≡ ok rest)
        × ((not (is_empty want.payouts) && not (tolerates want.max_fee rest)) ≡ false)
        × (check_value want total ≡ none)
  unfolding check_payouts
  check_payouts-none got total e = ground arith

  check_outputs-none :
      (tx : Transaction)
      → check_outputs want tx ≡ none
      → (sums : List (Text × ℕ) × ℕ) × (tally tx.outputs [] 0 ≡ ok sums)
        × (check_payouts want sums.0 sums.1 ≡ none)
  unfolding check_outputs
  check_outputs-none tx e = ground arith

  check_input-none :
      (tx : Transaction) (i : ℕ)
      → check_input want tx i ≡ none
      → (x : Input) × (get_elem? tx.inputs i ≡ some x)
        × (spends want.pot_txid want.pot_vout x ≡ true)
        × (spent_elsewhere i 0 tx.inputs want.pot_txid want.pot_vout ≡ false)
        × (check_outputs want tx ≡ none)
  unfolding check_input spends
  check_input-none tx i e = ground arith

  verify_proposal-none :
      (p : Proposal)
      → verify_proposal p want ≡ none
      → (tx : Transaction) × (i : ℕ) × (p.tx ≡ some tx)
        × (p.pot_input ≡ pos i)
        × ((is_empty want.payouts && (want.max_fee == 0)) ≡ false)
        × (check_input want tx i ≡ none)
  unfolding verify_proposal
  verify_proposal-none p e = ground arith

verify_proposal-Accepted :
    (p : Proposal) (want : Expectation) → verify_proposal p want ≡ none → Accepted p want
verify_proposal-Accepted p want e =
    let (tx, i, has_tx, has_input, bounded, c) = verify_proposal-none want p e in
    let (x, found, spent, once, o) = check_input-none want tx i c in
    let (sums, tallied, q) = check_outputs-none want tx o in
    let (rest, matched, tolerated, valued) = check_payouts-none want sums.0 sums.1 q in
    record {
      tx = tx;
      at = i;
      input = x;
      sums = sums;
      rest = rest;
      has_tx = has_tx;
      has_input = has_input;
      found = found;
      spends_pot = spent;
      once = once;
      bounded = bounded;
      tallied = tallied;
      matched = matched;
      tolerated = tolerated;
      valued = valued;
    }

module _ (txid : Text) (vout : ℕ) where
  spent_elsewhere-none :
      (skip i : ℕ) (xs : List Input)
      → skip < i
      → spent_elsewhere skip i xs txid vout ≡ false
      → count_if (spends txid vout) xs ≡ 0
  unfolding spent_elsewhere
  spent_elsewhere-none skip i [] b e = refl
  spent_elsewhere-none skip i (x ∷ xs) b e =
      ground (arith, spent_elsewhere-none skip (suc i) xs (omega arith))

  -- Where the one input spends the pot and no other does, one input does.
  spent_elsewhere-count :
      (skip k i : ℕ) (xs : List Input) {x : Input}
      → skip ≡ i + k
      → get_elem? xs k ≡ some x
      → spends txid vout x ≡ true
      → spent_elsewhere skip i xs txid vout ≡ false
      → count_if (spends txid vout) xs ≡ 1
  unfolding spent_elsewhere
  spent_elsewhere-count skip k i [] at g s e = absurd (cc g)
  spent_elsewhere-count skip zero i (y ∷ ys) at g s e =
      let here : spends txid vout y ≡ true =
        subst (λ z. spends txid vout z ≡ true) (sym (some_eq g)) s in
      let apart : spent_elsewhere skip (suc i) ys txid vout ≡ false = ground arith in
      let none_after = spent_elsewhere-none skip (suc i) ys (omega arith) apart in
      count_if-cons_true (spends txid vout) y ys here ∙ ap suc none_after
  spent_elsewhere-count skip (suc k) i (y ∷ ys) at g s e =
      let away : (spends txid vout y ≡ false)
          × (spent_elsewhere skip (suc i) ys txid vout ≡ false) =
        ground arith in
      count_if-cons_false (spends txid vout) y ys away.0
      ∙ spent_elsewhere-count skip k (suc i) ys (omega arith) g s away.1

-- A settlement that a seat accepts spends the seat's pot in the input that the proposal names, and
-- in no other.
pub verify_proposal-spends_once :
    (p : Proposal) (want : Expectation)
    → verify_proposal p want ≡ none
    → (tx : Transaction) × (i : ℕ) × (x : Input) × (p.tx ≡ some tx)
      × (p.pot_input ≡ pos i)
      × (get_elem? tx.inputs i ≡ some x)
      × (spends want.pot_txid want.pot_vout x ≡ true)
      × (count_if (spends want.pot_txid want.pot_vout) tx.inputs ≡ 1)
verify_proposal-spends_once p want e =
    let a = verify_proposal-Accepted p want e in
    (
      a.tx,
      a.at,
      a.input,
      a.has_tx,
      a.has_input,
      a.found,
      a.spends_pot,
      spent_elsewhere-count want.pot_txid want.pot_vout a.at a.at 0 a.tx.inputs (omega arith)
          a.found a.spends_pot a.once,
    )

check_value-bounds :
    (want : Expectation) (total : ℕ)
    → check_value want total ≡ none
    → (total ≤ want.pot_satoshis)
      × ((want.max_fee ≡ 0) ⊎ (want.pot_satoshis ≤ total + want.max_fee))
unfolding check_value
check_value-bounds want total e = ground arith

-- A settlement that a seat accepts pays every recipient that the seat expects exactly the amount
-- expected, the outputs to one script taken together; its outputs are within the pot, and what they
-- leave of it is within the fee bound, if there is one. Sums are taken modulo 2^64.
pub verify_proposal-pays :
    (p : Proposal) (want : Expectation)
    → verify_proposal p want ≡ none
    → (tx : Transaction) × (p.tx ≡ some tx)
      × All (λ e. paid_to (to_lower e.0) tx.outputs % 2 ^ 64 ≡ e.1) want.payouts
      × (total_out tx.outputs % 2 ^ 64 ≤ want.pot_satoshis)
      × ((want.max_fee ≡ 0) ⊎ (want.pot_satoshis ≤ total_out tx.outputs % 2 ^ 64 + want.max_fee))
verify_proposal-pays p want e =
    let a = verify_proposal-Accepted p want e in
    let total = tally-sum a.tx.outputs a.tallied in
    let (within, fee) =
      subst
        (λ t.
          (t ≤ want.pot_satoshis) × ((want.max_fee ≡ 0) ⊎ (want.pot_satoshis ≤ t + want.max_fee)))
        total (check_value-bounds want a.sums.1 a.valued) in
    (
      a.tx,
      a.has_tx,
      All-map
          (λ p h.
            sym (tally-paid (to_lower p.0) a.tx.outputs a.tallied)
            ∙ find_key→value (to_lower p.0) a.sums.0 h)
          want.payouts (match_payouts-value want.payouts a.sums.0 a.matched),
      within,
      fee,
    )

-- In a settlement that a seat accepts, when the seat expects payouts, what a script outside them
-- receives in all is within the fee allowance, modulo 2^64.
pub verify_proposal-bounds_rest :
    (p : Proposal) (want : Expectation) (tx : Transaction) (key : Text)
    → verify_proposal p want ≡ none
    → p.tx ≡ some tx
    → is_empty want.payouts ≡ false
    → All (λ e. to_lower e.0 ≢ key) want.payouts
    → paid_to key tx.outputs % 2 ^ 64 ≤ want.max_fee
verify_proposal-bounds_rest p want tx key e has some_expected other =
    let a = verify_proposal-Accepted p want e in
    let same : a.tx ≡ tx = cc (a.has_tx, has) in
    let kept = match_payouts-left key want.payouts a.sums.0 a.matched other in
    let tolerant : tolerates want.max_fee a.rest ≡ true =
      ground (arith, a.tolerated, some_expected) in
    let paid = tally-paid key a.tx.outputs a.tallied in
    let small = tolerates-value key want.max_fee a.rest tolerant in
    let same_value : value key a.rest ≡ value key a.sums.0 = rw (value, kept) refl in
    subst (λ (t : Transaction). paid_to key t.outputs % 2 ^ 64 ≤ want.max_fee) same
      (subst (λ n. n ≤ want.max_fee) (same_value ∙ paid) small)
