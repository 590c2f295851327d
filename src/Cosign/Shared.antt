-- ===== src/Cosign/Shared.antt =====
-- shared_refund.go: what a seat has made sure of when it accepts a shared refund.
use brc100_poker.Base.{
  ℕ, suc, ◌+◌, ◌%◌, ◌^◌, ◌≤◌, ◌<◌, ◌≡◌, ◌≢◌, ◌⊎◌, sym, ap, ◌∙◌, Bool, false, none, some, List, [],
  ◌∷◌, arith, ltb, if◌then◌else◌, Text, to_lower, All, count_if,
}
use brc100_poker.Cosign.{
  Transaction, SharedRefundExpectation, ok, spends, find_pot_input_from, is_final, match_balances,
  check_shares, check_restored, verify_shared_refund, find_key, tally, delete,
}
use brc100_poker.Cosign.Tally.{
  value, paid_to, total_out, tally-paid, tally-sum, find_key→value, find_key-deleted, find_key-kept,
}
use brc100_poker.Cosign.Refunds.{IsLocked, HasInput, find_pot_input_from-some, all-false}

module _ (max_fee : ℕ) where
  match_balances-cons :
      (script : Text) (sats : ℕ) (balances got : List (Text × ℕ)) (short : ℕ)
      {rest : List (Text × ℕ) × ℕ}
      → match_balances max_fee ((script, sats) ∷ balances) got short ≡ ok rest
      → (v : ℕ) × (find_key (to_lower script) got ≡ some v)
        × (v ≤ sats)
        × (sats ≤ v + max_fee)
        × (match_balances max_fee balances
              (delete (to_lower script) got)
              (if ltb v sats then suc short else short)
            ≡ ok rest)
  unfolding match_balances
  match_balances-cons script sats balances got short e = ground arith

  match_balances-left :
      (key : Text) (balances got : List (Text × ℕ)) (short : ℕ) {rest : List (Text × ℕ) × ℕ}
      → match_balances max_fee balances got short ≡ ok rest
      → All (λ b. to_lower b.0 ≢ key) balances
      → find_key key rest.0 ≡ find_key key got
  unfolding match_balances
  match_balances-left key [] got short e n = ground arith
  match_balances-left key ((script, sats) ∷ balances) got short e n =
      let (v, found, over, under, h) = match_balances-cons script sats balances got short e in
      match_balances-left key balances (delete (to_lower script) got) _ h n.1
      ∙ find_key-kept key (to_lower script) got n.0

  module _ (paid : Text → ℕ) where
    -- A balance is paid in full, or short by the fee bound at most.
    abbrev pub IsRestored : Text × ℕ → Type 0
    IsRestored b = (paid (to_lower b.0) ≤ b.1) × (b.1 ≤ paid (to_lower b.0) + max_fee)

    abbrev pub is_short : Text × ℕ → Bool
    is_short b = ltb (paid (to_lower b.0)) b.1

    -- The balances matched one by one, where the tally holds what is paid.
    match_balances-ok :
        (balances got : List (Text × ℕ)) (short : ℕ) {rest : List (Text × ℕ) × ℕ}
        → ((k : Text) (v : ℕ) → find_key k got ≡ some v → paid k ≡ v)
        → match_balances max_fee balances got short ≡ ok rest
        → All IsRestored balances × (rest.1 ≡ short + count_if is_short balances)
    unfolding match_balances
    match_balances-ok [] got short f e = (tt, ground arith)
    match_balances-ok ((script, sats) ∷ balances) got short f e =
        let (v, found, over, under, h) = match_balances-cons script sats balances got short e in
        let k = to_lower script in
        let same : paid k ≡ v = f k v found in
        let (all_restored, count) =
          match_balances-ok balances (delete k got) _
            (λ j w there. f j w (find_key-deleted j k got there)) h in
        (
          ((omega (arith, over, same), omega (arith, under, same)), all_restored),
          ground (arith, count, same),
        )

-- What a shared refund went through.
record Accepted (final_sequence : ℕ) (tx : Transaction) (want : SharedRefundExpectation)
    : Type 0 where
  at : ℕ
  sums : List (Text × ℕ) × ℕ
  rest : List (Text × ℕ) × ℕ
  lock : 0 < tx.lock_time
  unfinal : is_final final_sequence tx ≡ false
  early : (want.max_lock_height ≡ 0) ⊎ (tx.lock_time ≤ want.max_lock_height)
  spent : find_pot_input_from 0 tx.inputs want.pot_txid want.pot_vout ≡ some at
  tallied : tally tx.outputs [] 0 ≡ ok sums
  matched : match_balances want.max_fee want.balances sums.0 0 ≡ ok rest
  nothing_left : rest.0 ≡ []
  one_short : rest.1 ≤ 1
  within : sums.1 ≤ want.pot_satoshis
  fee : want.pot_satoshis ≤ sums.1 + want.max_fee

module _ (want : SharedRefundExpectation) where
  check_shares-none :
      (got : List (Text × ℕ)) (total : ℕ)
      → check_shares want got total ≡ none
      → (rest : List (Text × ℕ) × ℕ) × (match_balances want.max_fee want.balances got 0 ≡ ok rest)
        × (rest.0 ≡ [])
        × (rest.1 ≤ 1)
        × (total ≤ want.pot_satoshis)
        × (want.pot_satoshis ≤ total + want.max_fee)
  unfolding check_shares
  check_shares-none got total e = ground arith

  check_restored-none :
      (tx : Transaction)
      → check_restored want tx ≡ none
      → (sums : List (Text × ℕ) × ℕ) × (tally tx.outputs [] 0 ≡ ok sums)
        × (check_shares want sums.0 sums.1 ≡ none)
  unfolding check_restored
  check_restored-none tx e = ground arith

  verify_shared_refund-none :
      (final_sequence : ℕ) (tx : Transaction)
      → verify_shared_refund final_sequence (some tx) want ≡ none
      → (at : ℕ) × (0 < tx.lock_time)
        × (is_final final_sequence tx ≡ false)
        × ((want.max_lock_height ≡ 0) ⊎ (tx.lock_time ≤ want.max_lock_height))
        × (find_pot_input_from 0 tx.inputs want.pot_txid want.pot_vout ≡ some at)
        × (check_restored want tx ≡ none)
  unfolding verify_shared_refund
  verify_shared_refund-none final_sequence tx e = ground arith

verify_shared_refund-Accepted :
    (final_sequence : ℕ) (tx : Transaction) (want : SharedRefundExpectation)
    → verify_shared_refund final_sequence (some tx) want ≡ none
    → Accepted final_sequence tx want
verify_shared_refund-Accepted final_sequence tx want e =
    let (at, lock, unfinal, early, spent, r) = verify_shared_refund-none want final_sequence tx e in
    let (sums, tallied, c) = check_restored-none want tx r in
    let (rest, matched, nothing_left, one_short, within, fee) =
      check_shares-none want sums.0 sums.1 c in
    record {
      at = at;
      sums = sums;
      rest = rest;
      lock = lock;
      unfinal = unfinal;
      early = early;
      spent = spent;
      tallied = tallied;
      matched = matched;
      nothing_left = nothing_left;
      one_short = one_short;
      within = within;
      fee = fee;
    }

-- A shared refund that a seat accepts is locked, to no height above the one it may carry, where it
-- has one, and spends the pot. Each balance is paid in full or short by the fee bound at most, and
-- at most one is short; the outputs are within the pot and leave at most the fee bound of it. Sums
-- are taken modulo 2^64.
pub verify_shared_refund-restores :
    (final_sequence : ℕ) (tx : Transaction) (want : SharedRefundExpectation)
    → verify_shared_refund final_sequence (some tx) want ≡ none
    → let paid : Text → ℕ = λ key. paid_to key tx.outputs % 2 ^ 64 in
      IsLocked final_sequence tx
      × ((want.max_lock_height ≡ 0) ⊎ (tx.lock_time ≤ want.max_lock_height))
      × HasInput (spends want.pot_txid want.pot_vout) tx
      × All (IsRestored want.max_fee paid) want.balances
      × (count_if (is_short want.max_fee paid) want.balances ≤ 1)
      × (total_out tx.outputs % 2 ^ 64 ≤ want.pot_satoshis)
      × (want.pot_satoshis ≤ total_out tx.outputs % 2 ^ 64 + want.max_fee)
verify_shared_refund-restores final_sequence tx want e =
    let a = verify_shared_refund-Accepted final_sequence tx want e in
    let total = tally-sum tx.outputs a.tallied in
    let (restored, short) =
      match_balances-ok want.max_fee (λ key. paid_to key tx.outputs % 2 ^ 64) want.balances a.sums.0
        0 (λ k v f. sym (tally-paid k tx.outputs a.tallied) ∙ find_key→value k a.sums.0 f)
        a.matched in
    (
      (a.lock, all-false final_sequence tx.inputs (unfold is_final in a.unfinal)),
      a.early,
      find_pot_input_from-some 0 tx.inputs want.pot_txid want.pot_vout a.spent,
      restored,
      omega (arith, a.one_short, short),
      omega (arith, a.within, total),
      omega (arith, a.fee, total),
    )

-- A shared refund that a seat accepts pays nothing, modulo 2^64, to a script outside the balances.
pub verify_shared_refund-pays_no_other :
    (final_sequence : ℕ) (tx : Transaction) (want : SharedRefundExpectation) (key : Text)
    → verify_shared_refund final_sequence (some tx) want ≡ none
    → All (λ b. to_lower b.0 ≢ key) want.balances
    → paid_to key tx.outputs % 2 ^ 64 ≡ 0
unfolding find_key
verify_shared_refund-pays_no_other final_sequence tx want key e other =
    let a = verify_shared_refund-Accepted final_sequence tx want e in
    let left = match_balances-left want.max_fee key want.balances a.sums.0 0 a.matched other in
    let gone : find_key key a.sums.0 ≡ none = sym left ∙ ap (find_key key) a.nothing_left in
    let nothing : value key a.sums.0 ≡ 0 = ground (arith, gone) in
    sym (tally-paid key tx.outputs a.tallied) ∙ nothing

-- A shared refund that matures at the very height of the bound is checked as if there were no
-- bound, so that a refund of the same height as the one it replaces is not refused for it.
pub verify_shared_refund-equal_height :
    (final_sequence : ℕ) (tx : Transaction) (want : SharedRefundExpectation)
    → verify_shared_refund final_sequence (some tx) (record want { max_lock_height = tx.lock_time })
      ≡ verify_shared_refund final_sequence (some tx) (record want { max_lock_height = 0 })
unfolding verify_shared_refund check_restored check_shares
verify_shared_refund-equal_height final_sequence tx want = ground arith
