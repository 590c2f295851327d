-- ===== src/Cosign.antt =====
-- internal/protocol/cosign: what a seat checks before it signs, verify.go and shared_refund.go, with
-- `FindPotInput` of pot.go. A transaction of the SDK is the fields that these files read; a hash and
-- a script are what `String()` gives of them, which is all that is used, and a nil pointer is `none`.
-- Amounts are uint64 and their sums wrap. A Go map is a list of its entries, in whatever order the
-- range over it takes; an error is `some`. `final_sequence` is the SDK's DefaultSequenceNumber.
pub mod Tally
pub mod Settlement
pub mod Refunds
pub mod Shared
pub mod Building
pub mod Entries
pub mod Accepting
pub mod Pot
pub mod Assembly
use brc100_poker.Base.{
  ℕ, zero, suc, ◌+◌, ◌-◌, ◌%◌, ◌^◌, Bool, true, false, not, ◌&&◌, ◌||◌, Option, none, some, List,
  [], ◌∷◌, leb, ltb, ◌==◌, if◌then◌else◌, ℤ, pos, negsuc, Text, text_eq, to_lower, length,
  get_elem?, all, any, keep_if,
}

pub record Input : Type 0 where
  pub source_txid : Option Text
  pub source_vout : ℕ
  pub sequence_number : ℕ

pub record Output : Type 0 where
  pub locking_script : Option Text
  pub satoshis : ℕ

pub record Transaction : Type 0 where
  pub inputs : List Input
  pub outputs : List Output
  pub lock_time : ℕ

pub record Expectation : Type 0 where
  pub pot_txid : Text
  pub pot_vout : ℕ
  pub pot_satoshis : ℕ
  pub payouts : List (Text × ℕ)
  pub max_fee : ℕ

pub record Proposal : Type 0 where
  pub tx : Option Transaction
  pub pot_input : ℤ

pub record SharedRefundExpectation : Type 0 where
  pub pot_txid : Text
  pub pot_vout : ℕ
  pub pot_satoshis : ℕ
  pub balances : List (Text × ℕ)
  pub max_fee : ℕ
  pub max_lock_height : ℕ

-- One constructor for each refusal.
pub data Refusal : Type 0 where
  no_transaction no_pot_named unbounded outside_inputs no_source other_pot : Refusal
  spent_twice no_script not_paid wrong_amount unexpected over_pot over_fee : Refusal
  no_own_script no_locktime all_final no_balances no_fee_bound matures_late : Refusal
  not_spending_pot foreign_script pays_nothing over_stake many_short : Refusal
  both_forms no_pot_script no_key owed_nothing unbalanced no_fee fee_too_large : Refusal
  bad_key bad_txid no_recipient not_payable no_lock_height : Refusal

pub data Result {ℓ} (A : Type ℓ) : Type ℓ where
  ok : A → Result A
  refuse : Refusal → Result A

abbrev pub is_empty {ℓ} : {A : Type ℓ} → List A → Bool
is_empty [] = true
is_empty (x ∷ xs) = false

-- The condition on an input that both loops write out.
unfoldable pub spends : Text → ℕ → Input → Bool
spends txid vout i = elim i.source_txid [
  | none ↦ false
  | some t ↦ text_eq t txid && (i.source_vout == vout)
]

-- `FindPotInput` from position `i` on.
unfoldable pub find_pot_input_from : ℕ → List Input → Text → ℕ → Option ℕ
find_pot_input_from i [] txid vout = none
find_pot_input_from i (x ∷ xs) txid vout =
    let rest = find_pot_input_from (suc i) xs txid vout in
    if spends txid vout x then some i else rest

abbrev pub find_pot_input : Transaction → Text → ℕ → Option ℕ
find_pot_input tx txid vout = find_pot_input_from 0 tx.inputs txid vout

-- The loop over the other inputs: does one at another position than `skip` spend the pot?
unfoldable pub spent_elsewhere : ℕ → ℕ → List Input → Text → ℕ → Bool
spent_elsewhere skip i [] txid vout = false
spent_elsewhere skip i (x ∷ xs) txid vout =
    let rest = spent_elsewhere skip (suc i) xs txid vout in
    if i == skip then rest else spends txid vout x || rest

-- The map `got`, by lower-case script.
unfoldable pub find_key : Text → List (Text × ℕ) → Option ℕ
find_key key [] = none
find_key key ((k, v) ∷ got) = if text_eq k key then some v else find_key key got

-- `got[key] += sats`.
unfoldable pub add_to : Text → ℕ → List (Text × ℕ) → List (Text × ℕ)
add_to key sats [] = (key, sats % 2 ^ 64) ∷ []
add_to key sats ((k, v) ∷ got) =
    let rest = add_to key sats got in
    if text_eq k key then (k, (v + sats) % 2 ^ 64) ∷ got else (k, v) ∷ rest

-- `delete(got, key)`.
unfoldable pub delete : Text → List (Text × ℕ) → List (Text × ℕ)
delete key got = keep_if (λ e. not (text_eq e.0 key)) got

-- The loop over the outputs, with `got` and `totalOut` so far.
unfoldable pub tally : List Output → List (Text × ℕ) → ℕ → Result (List (Text × ℕ) × ℕ)
tally [] got total = ok (got, total)
tally (o ∷ outputs) got total = elim o.locking_script [
  | none ↦ refuse no_script
  | some script ↦
      tally outputs (add_to (to_lower script) o.satoshis got) ((total + o.satoshis) % 2 ^ 64)
]

-- The loop over the expected payouts: what is left of `got`.
unfoldable pub match_payouts : List (Text × ℕ) → List (Text × ℕ) → Result (List (Text × ℕ))
match_payouts [] got = ok got
match_payouts ((script, sats) ∷ payouts) got = elim (find_key (to_lower script) got) [
  | none ↦ refuse not_paid
  | some paid ↦
      if not (paid == sats)
      then refuse wrong_amount
      else match_payouts payouts (delete (to_lower script) got)
]

-- The loop over what is left tolerates an amount within the fee allowance.
unfoldable pub tolerates : ℕ → List (Text × ℕ) → Bool
tolerates max_fee got = all (λ e. ltb 0 max_fee && leb e.1 max_fee) got

-- The end of `VerifyProposal`: the value is conserved within the fee bound.
unfoldable pub check_value : Expectation → ℕ → Option Refusal
check_value want total =
    if ltb want.pot_satoshis total
    then some over_pot
    else if ltb 0 want.max_fee && ltb want.max_fee (want.pot_satoshis - total)
    then some over_fee
    else none

unfoldable pub check_payouts : Expectation → List (Text × ℕ) → ℕ → Option Refusal
check_payouts want got total = elim (match_payouts want.payouts got) [
  | refuse r ↦ some r
  | ok rest ↦
      if not (is_empty want.payouts) && not (tolerates want.max_fee rest)
      then some unexpected
      else check_value want total
]

unfoldable pub check_outputs : Expectation → Transaction → Option Refusal
check_outputs want tx = elim (tally tx.outputs [] 0) [
  | refuse r ↦ some r
  | ok sums ↦ check_payouts want sums.0 sums.1
]

-- The checks on the input that the proposal names.
unfoldable pub check_input : Expectation → Transaction → ℕ → Option Refusal
check_input want tx i = elim (get_elem? tx.inputs i) [
  | none ↦ some outside_inputs
  | some x ↦ elim x.source_txid [
    | none ↦ some no_source
    | some t ↦
        if not (text_eq t want.pot_txid && (x.source_vout == want.pot_vout))
        then some other_pot
        else if spent_elsewhere i 0 tx.inputs want.pot_txid want.pot_vout
        then some spent_twice
        else check_outputs want tx
  ]
]

-- `VerifyProposal`.
unfoldable pub verify_proposal : Proposal → Expectation → Option Refusal
verify_proposal p want = elim p.tx [
  | none ↦ some no_transaction
  | some tx ↦
      if is_empty want.pot_txid
      then some no_pot_named
      else if is_empty want.payouts && (want.max_fee == 0)
      then some unbounded
      else elim p.pot_input [ negsuc n ↦ some outside_inputs | pos i ↦ check_input want tx i ]
]

-- Is every input final, and so the locktime void?
unfoldable pub is_final : ℕ → Transaction → Bool
is_final final_sequence tx = all (λ (i : Input). i.sequence_number == final_sequence) tx.inputs

-- The loop of `VerifyRefund` over the outputs, with what has been paid to the seat so far.
unfoldable pub own_outputs : Text → List Output → ℕ → Result ℕ
own_outputs want [] paid = ok paid
own_outputs want (o ∷ outputs) paid = elim o.locking_script [
  | none ↦ refuse no_script
  | some script ↦
      if text_eq (to_lower script) want
      then own_outputs want outputs ((paid + o.satoshis) % 2 ^ 64)
      else refuse foreign_script
]

unfoldable pub check_paid : ℕ → ℕ → ℕ → Option Refusal
check_paid stake max_fee paid =
    if paid == 0
    then some pays_nothing
    else if ltb stake paid
    then some over_stake
    else if ltb 0 max_fee && ltb max_fee (stake - paid)
    then some over_fee
    else none

unfoldable pub check_own : Text → ℕ → ℕ → Transaction → Option Refusal
check_own want stake max_fee tx = elim (own_outputs want tx.outputs 0) [
  | refuse r ↦ some r
  | ok paid ↦ check_paid stake max_fee paid
]

-- `VerifyRefund`.
unfoldable pub verify_refund :
    ℕ → Option Transaction → Text → ℕ → ℕ → Option Text → ℕ → Option Refusal
verify_refund final_sequence none txid vout stake own max_fee = some no_transaction
verify_refund final_sequence (some tx) txid vout stake none max_fee = some no_own_script
verify_refund final_sequence (some tx) txid vout stake (some own) max_fee =
    if tx.lock_time == 0
    then some no_locktime
    else if is_final final_sequence tx
    then some all_final
    else elim (find_pot_input tx txid vout) [
      | none ↦ some not_spending_pot
      | some i ↦ check_own (to_lower own) stake max_fee tx
    ]

-- The loop of `VerifySharedRefund` over the balances: what is left, and how many seats are short.
unfoldable pub match_balances :
    ℕ → List (Text × ℕ) → List (Text × ℕ) → ℕ → Result (List (Text × ℕ) × ℕ)
match_balances max_fee [] got short = ok (got, short)
match_balances max_fee ((script, sats) ∷ balances) got short =
    elim (find_key (to_lower script) got) [
      | none ↦ refuse not_paid
      | some paid ↦
          let rest = match_balances max_fee balances (delete (to_lower script) got) in
          if paid == sats
          then rest short
          else if ltb paid sats && leb (sats - paid) max_fee
          then rest (suc short)
          else refuse wrong_amount
    ]

unfoldable pub check_shares : SharedRefundExpectation → List (Text × ℕ) → ℕ → Option Refusal
check_shares want got total = elim (match_balances want.max_fee want.balances got 0) [
  | refuse r ↦ some r
  | ok rest ↦
      if ltb 1 rest.1
      then some many_short
      else if not (is_empty rest.0)
      then some unexpected
      else if ltb want.pot_satoshis total
      then some over_pot
      else if ltb want.max_fee (want.pot_satoshis - total)
      then some over_fee
      else none
]

unfoldable pub check_restored : SharedRefundExpectation → Transaction → Option Refusal
check_restored want tx = elim (tally tx.outputs [] 0) [
  | refuse r ↦ some r
  | ok sums ↦ check_shares want sums.0 sums.1
]

-- `VerifySharedRefund`.
unfoldable pub verify_shared_refund :
    ℕ → Option Transaction → SharedRefundExpectation → Option Refusal
verify_shared_refund final_sequence none want = some no_transaction
verify_shared_refund final_sequence (some tx) want =
    if is_empty want.pot_txid
    then some no_pot_named
    else if is_empty want.balances
    then some no_balances
    else if want.max_fee == 0
    then some no_fee_bound
    else if tx.lock_time == 0
    then some no_locktime
    else if is_final final_sequence tx
    then some all_final
    else if ltb 0 want.max_lock_height && ltb want.max_lock_height tx.lock_time
    then some matures_late
    else elim (find_pot_input tx want.pot_txid want.pot_vout) [
      | none ↦ some not_spending_pot
      | some i ↦ check_restored want tx
    ]
