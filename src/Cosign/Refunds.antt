-- ===== src/Cosign/Refunds.antt =====
-- verify.go: what a seat has made sure of when it accepts a refund of its own stake.
use brc100_poker.Base.{
  ℕ, suc, ◌+◌, ◌%◌, ◌^◌, ◌≤◌, ◌<◌, ◌≡◌, ◌⊎◌, inl, inr, refl, subst, Bool, true, false, not, none,
  some, List, [], ◌∷◌, arith, ◌==◌, Text, text_eq, to_lower, get_elem?, All, Bool-cases, all,
  text_eq_iff,
}
use brc100_poker.Cosign.{
  Input, Output, Transaction, ok, spends, find_pot_input_from, is_final, own_outputs, check_paid,
  check_own, verify_refund,
}
use brc100_poker.Cosign.Tally.{total_out}

-- An input of the transaction that passes a test.
abbrev pub HasInput : (Input → Bool) → Transaction → Type 0
HasInput p tx = (j : ℕ) × (x : Input) × (get_elem? tx.inputs j ≡ some x) × (p x ≡ true)

-- The lock time binds: it is set, and some input is not final.
abbrev pub IsLocked : ℕ → Transaction → Type 0
IsLocked final_sequence tx =
    (0 < tx.lock_time) × HasInput (λ (x : Input). not (x.sequence_number == final_sequence)) tx

pub find_pot_input_from-some :
    (i : ℕ) (xs : List Input) (txid : Text) (vout : ℕ) {n : ℕ}
    → find_pot_input_from i xs txid vout ≡ some n
    → (j : ℕ) × (x : Input) × (get_elem? xs j ≡ some x) × (spends txid vout x ≡ true)
unfolding find_pot_input_from
find_pot_input_from-some i [] txid vout e = absurd (cc e)
find_pot_input_from-some i (y ∷ ys) txid vout {n} e = elim (Bool-cases (spends txid vout y)) [
  | inl here ↦ (0, y, refl, here)
  | inr away ↦
      let there : find_pot_input_from (suc i) ys txid vout ≡ some n = ground (arith, e, away) in
      let (j, x, g, s) = find_pot_input_from-some (suc i) ys txid vout there in (suc j, x, g, s)
]

pub all-false :
    (final_sequence : ℕ) (xs : List Input)
    → all (λ (i : Input). i.sequence_number == final_sequence) xs ≡ false
    → (j : ℕ) × (x : Input) × (get_elem? xs j ≡ some x)
      × (not (x.sequence_number == final_sequence) ≡ true)
all-false final_sequence [] e = absurd (cc e)
all-false final_sequence (y ∷ ys) e = elim (Bool-cases (y.sequence_number == final_sequence)) [
  | inl final ↦
      let (j, x, g, s) = all-false final_sequence ys (ground (arith, e, final)) in (suc j, x, g, s)
  | inr unfinal ↦ (0, y, refl, ground (arith, unfinal))
]

own_outputs-ok :
    (want : Text) (outputs : List Output) (paid : ℕ) {n : ℕ}
    → own_outputs want outputs paid ≡ ok n
    → paid < 2 ^ 64
    → (n ≡ (paid + total_out outputs) % 2 ^ 64)
      × All (λ (o : Output). (s : Text) × (o.locking_script ≡ some s) × (to_lower s ≡ want)) outputs
unfolding own_outputs
own_outputs-ok want [] paid e b = (ground arith, tt)
own_outputs-ok want (o ∷ outputs) paid {n} e b =
    let (s, l, same, h) : (s : Text) × (o.locking_script ≡ some s)
        × (text_eq (to_lower s) want ≡ true)
        × (own_outputs want outputs ((paid + o.satoshis) % 2 ^ 64) ≡ ok n) =
      ground arith in
    let (sum, rest) = own_outputs-ok want outputs ((paid + o.satoshis) % 2 ^ 64) h (omega arith) in
    (omega (arith, sum), ((s, l, (text_eq_iff _ _).0 same), rest))

-- A refund of its own stake that a seat accepts is locked, spends the pot, and pays nothing to a
-- script that is not the seat's; what it pays, modulo 2^64, is positive, within the stake, and
-- short of it by the fee bound at most, if there is one.
pub verify_refund-returns_stake :
    (final_sequence : ℕ) (tx : Transaction) (txid : Text) (vout stake : ℕ) (own : Text)
    (max_fee : ℕ)
    → verify_refund final_sequence (some tx) txid vout stake (some own) max_fee ≡ none
    → IsLocked final_sequence tx
      × HasInput (spends txid vout) tx
      × All
          (λ (o : Output). (s : Text) × (o.locking_script ≡ some s) × (to_lower s ≡ to_lower own))
          tx.outputs
      × (0 < total_out tx.outputs % 2 ^ 64)
      × (total_out tx.outputs % 2 ^ 64 ≤ stake)
      × ((max_fee ≡ 0) ⊎ (stake ≤ total_out tx.outputs % 2 ^ 64 + max_fee))
unfolding verify_refund check_own check_paid is_final
verify_refund-returns_stake final_sequence tx txid vout stake own max_fee e =
    let (i, paid, lock, unfinal, at, o, c) : (i : ℕ) × (paid : ℕ) × (0 < tx.lock_time)
        × (is_final final_sequence tx ≡ false)
        × (find_pot_input_from 0 tx.inputs txid vout ≡ some i)
        × (own_outputs (to_lower own) tx.outputs 0 ≡ ok paid)
        × (check_paid stake max_fee paid ≡ none) =
      ground arith in
    let (sum, outs) = own_outputs-ok (to_lower own) tx.outputs 0 o (omega arith) in
    let paid_eq : paid ≡ total_out tx.outputs % 2 ^ 64 = omega (arith, sum) in
    let (some_paid, within, fee) =
      subst (λ t. (0 < t) × (t ≤ stake) × ((max_fee ≡ 0) ⊎ (stake ≤ t + max_fee))) paid_eq
        (ground (arith, c)) in
    (
      (lock, all-false final_sequence tx.inputs unfinal),
      find_pot_input_from-some 0 tx.inputs txid vout at,
      outs,
      some_paid,
      within,
      fee,
    )
