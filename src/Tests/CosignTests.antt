-- ===== src/Tests/CosignTests.antt =====
-- Settlements and refunds at concrete inputs.
use brc100_poker.Base.{
  Option, ◌==◌, if◌then◌else◌, arith, ℕ, ◌%◌, ◌^◌, ◌≡◌, refl, ◌≤◌, ◌+◌, ◌<◌, ◌⊎◌, true, none, some,
  [], ◌∷◌, pos, Text, text_ne, get_elem?, All, count_if,
}
use brc100_poker.Base.Bytes.{to_lower}
use brc100_poker.Cosign.{
  ok, Input, Output, Transaction, Expectation, Proposal, SharedRefundExpectation, spends,
  spent_elsewhere, find_key, add_to, delete, tally, match_payouts, tolerates, check_value,
  check_payouts, check_outputs, check_input, verify_proposal, is_final, own_outputs, check_paid,
  check_own, verify_refund, find_pot_input_from, match_balances, check_shares, check_restored,
  verify_shared_refund,
}
use brc100_poker.Cosign.Building.{
  RefundArgs, build_refund, build_shared_refund, scan_recipients, build_scanned, shared_tx,
  outputs_from,
}
use brc100_poker.Cosign.Accepting.{expectation_of, build_refund-verifies}
use brc100_poker.Cosign.Tally.{paid_to, total_out}
use brc100_poker.Cosign.Settlement.{
  verify_proposal-pays, verify_proposal-spends_once, verify_proposal-bounds_rest,
}
use brc100_poker.Cosign.Refunds.{IsLocked, HasInput, verify_refund-returns_stake}
use brc100_poker.Cosign.Shared.{
  IsRestored, is_short, verify_shared_refund-restores, verify_shared_refund-pays_no_other,
  verify_shared_refund-equal_height,
}

-- Names on this definition's line are open wherever it is unfolded.
cosign_code : Unit {0}
unfolding spends spent_elsewhere find_key add_to delete tally match_payouts tolerates check_value
    check_payouts check_outputs check_input verify_proposal is_final own_outputs check_paid
    check_own verify_refund find_pot_input_from match_balances check_shares check_restored
    verify_shared_refund to_lower
cosign_code = tt

abbrev pub pot : Text
pot = b'a' ∷ b'b' ∷ []

abbrev pub alice : Text
alice = b'7' ∷ b'6' ∷ b'a' ∷ []

-- Alice's script in capitals.
abbrev loud_alice : Text
loud_alice = b'7' ∷ b'6' ∷ b'A' ∷ []

abbrev pub bob : Text
bob = b'7' ∷ b'6' ∷ b'b' ∷ []

abbrev funding_input : Input
funding_input = record { source_txid = some bob; source_vout = 0; sequence_number = 9 }

abbrev pot_input : Input
pot_input = record { source_txid = some pot; source_vout = 1; sequence_number = 7 }

-- Alice is paid in two outputs; five satoshis go back to Bob.
abbrev pub settlement : Transaction
settlement = record {
  inputs = funding_input ∷ pot_input ∷ [];
  outputs =
      record { locking_script = some loud_alice; satoshis = 60 }
      ∷ record { locking_script = some bob; satoshis = 5 }
      ∷ record { locking_script = some alice; satoshis = 30 }
      ∷ [];
  lock_time = 0;
}

abbrev proposal : Proposal
proposal = record { tx = some settlement; pot_input = pos 1 }

abbrev pub expected : Expectation
expected = record {
  pot_txid = pot;
  pot_vout = 1;
  pot_satoshis = 100;
  payouts = (alice, 90) ∷ [];
  max_fee = 5;
}

pub proposal-accepted : verify_proposal proposal expected ≡ none
unfolding cosign_code
proposal-accepted = refl

verify_proposal-pays_example :
    (tx : Transaction) × (proposal.tx ≡ some tx)
    × All (λ e. paid_to (to_lower e.0) tx.outputs % 2 ^ 64 ≡ e.1) expected.payouts
    × (total_out tx.outputs % 2 ^ 64 ≤ expected.pot_satoshis)
    × ((expected.max_fee ≡ 0)
        ⊎ (expected.pot_satoshis ≤ total_out tx.outputs % 2 ^ 64 + expected.max_fee))
verify_proposal-pays_example = verify_proposal-pays proposal expected proposal-accepted

verify_proposal-spends_once_example :
    (tx : Transaction) × (i : ℕ) × (x : Input) × (proposal.tx ≡ some tx)
    × (proposal.pot_input ≡ pos i)
    × (get_elem? tx.inputs i ≡ some x)
    × (spends pot 1 x ≡ true)
    × (count_if (spends pot 1) tx.inputs ≡ 1)
verify_proposal-spends_once_example =
    verify_proposal-spends_once proposal expected proposal-accepted

verify_proposal-bounds_rest_example : paid_to bob settlement.outputs % 2 ^ 64 ≤ 5
unfolding cosign_code
verify_proposal-bounds_rest_example =
    verify_proposal-bounds_rest proposal expected settlement bob proposal-accepted refl refl
      (text_ne (to_lower alice) bob refl, tt)

-- Outputs of 2^64 + 99 in all wrap to 99, and pass the bound on the value.
abbrev wrapping : Proposal
wrapping = record {
  tx = some (record settlement {
    outputs =
        record { locking_script = some alice; satoshis = 18446744073709551615 }
        ∷ record { locking_script = some bob; satoshis = 100 }
        ∷ [];
  });
  pot_input = pos 1;
}

wrapping-accepted : verify_proposal wrapping (record expected { payouts = [] }) ≡ none
unfolding cosign_code
wrapping-accepted = refl

abbrev allowance : ℕ
allowance = 5

abbrev refund : Transaction
refund = record {
  inputs = pot_input ∷ [];
  outputs = record { locking_script = some alice; satoshis = 48 } ∷ [];
  lock_time = 900;
}

verify_refund-returns_stake_example :
    IsLocked 9 refund
    × HasInput (spends pot 1) refund
    × All
        (λ (o : Output).
          (s : Text) × (o.locking_script ≡ some s) × (to_lower s ≡ to_lower loud_alice))
        refund.outputs
    × (0 < total_out refund.outputs % 2 ^ 64)
    × (total_out refund.outputs % 2 ^ 64 ≤ 50)
    × ((allowance ≡ 0) ⊎ (50 ≤ total_out refund.outputs % 2 ^ 64 + allowance))
unfolding cosign_code
verify_refund-returns_stake_example =
    verify_refund-returns_stake 9 refund pot 1 50 loud_alice allowance refl

abbrev pub shared_refund : Transaction
shared_refund = record refund {
  outputs =
      record { locking_script = some alice; satoshis = 57 }
      ∷ record { locking_script = some bob; satoshis = 40 }
      ∷ [];
}

abbrev pub balances : SharedRefundExpectation
balances = record {
  pot_txid = pot;
  pot_vout = 1;
  pot_satoshis = 100;
  balances = (bob, 40) ∷ (alice, 60) ∷ [];
  max_fee = 5;
  max_lock_height = 950;
}

pub shared_refund-accepted : verify_shared_refund 9 (some shared_refund) balances ≡ none
unfolding cosign_code
shared_refund-accepted = refl

verify_shared_refund-restores_example :
    let paid : Text → ℕ = λ key. paid_to key shared_refund.outputs % 2 ^ 64 in
    IsLocked 9 shared_refund
    × ((balances.max_lock_height ≡ 0) ⊎ (shared_refund.lock_time ≤ balances.max_lock_height))
    × HasInput (spends pot 1) shared_refund
    × All (IsRestored 5 paid) balances.balances
    × (count_if (is_short 5 paid) balances.balances ≤ 1)
    × (total_out shared_refund.outputs % 2 ^ 64 ≤ 100)
    × (100 ≤ total_out shared_refund.outputs % 2 ^ 64 + 5)
verify_shared_refund-restores_example =
    verify_shared_refund-restores 9 shared_refund balances shared_refund-accepted

verify_shared_refund-pays_no_other_example : paid_to pot shared_refund.outputs % 2 ^ 64 ≡ 0
unfolding cosign_code
verify_shared_refund-pays_no_other_example =
    verify_shared_refund-pays_no_other 9 shared_refund balances pot shared_refund-accepted
      (text_ne (to_lower bob) pot refl, (text_ne (to_lower alice) pot refl, tt))

verify_shared_refund-equal_height_example :
    verify_shared_refund 9 (some shared_refund) (record balances { max_lock_height = 900 })
    ≡ verify_shared_refund 9 (some shared_refund) (record balances { max_lock_height = 0 })
verify_shared_refund-equal_height_example =
    verify_shared_refund-equal_height 9 shared_refund balances

-- A key is a number here, and every other SDK function answers as it does on good input.
abbrev lock : ℕ → Option Text
lock key = some (if key == 0 then alice else bob)

abbrev hash : Text → Option Text
hash txid = some txid

abbrev refund_args : RefundArgs ℕ
refund_args = record {
  pot_txid = pot;
  pot_vout = 1;
  pot_satoshis = 100;
  pot_script = some pot;
  recipient = none;
  satoshis = 0;
  recipients = (some 1, 40) ∷ (some 0, 60) ∷ [];
  lock_height = 900;
  fee = 5;
}

abbrev built : Transaction
built = record {
  inputs = record { source_txid = some pot; source_vout = 1; sequence_number = 8 } ∷ [];
  outputs =
      record { locking_script = some bob; satoshis = 40 }
      ∷ record { locking_script = some alice; satoshis = 55 }
      ∷ [];
  lock_time = 900;
}

builds : build_refund lock hash 9 refund_args ≡ ok built
unfolding build_refund build_shared_refund scan_recipients build_scanned shared_tx outputs_from
builds = refl

build_refund-verifies_example :
    verify_shared_refund 9 (some built) (expectation_of lock hash 9 refund_args) ≡ none
unfolding cosign_code
build_refund-verifies_example =
    build_refund-verifies lock hash 9 refund_args builds (omega arith) refl refl refl
      ((text_ne (to_lower alice) (to_lower bob) refl, tt), (tt, tt)) (omega arith)
