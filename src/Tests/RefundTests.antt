-- ===== src/Tests/RefundTests.antt =====
-- refund.go of internal/agent: a wallet is asked to sign the shared refund of CosignTests.
use brc100_poker.Base.{
  ◌%◌, ◌^◌, ◌+◌, ◌≤◌, ◌≡◌, refl, ℕ, arith, Option, some, [], ◌∷◌, pos, Text, text_eq, to_lower,
  if◌then◌else◌,
}
use brc100_poker.Cosign.{Transaction, SharedRefundExpectation}
use brc100_poker.Cosign.Tally.{paid_to}
use brc100_poker.Cosign.Pot.{sign_input}
use brc100_poker.Agent.Refund.{
  SignRefundParams, done, scan_balances, shared_refund_expectation, sign_refund, handle_sign_refund,
  own_key,
}
use brc100_poker.Agent.Repaid.{balance_of, handle_sign_refund-repays}
use brc100_poker.Tests.CosignTests.{pot, alice, bob, shared_refund, shared_refund-accepted}
use brc100_poker.Tests.AgentTests.{signing, hand, script_any, signature}

-- Key 3 is the wallet's own, which alice's script pays.
abbrev pays : Text → Option Text
pays key = if text_eq key (3 ∷ []) then some alice else some bob

abbrev parse_refund : Text → Option Transaction
parse_refund raw = some shared_refund

abbrev request : SignRefundParams
request = record {
  hand_id = hand;
  raw_tx = hand;
  pot_input = pos 0;
  pot_txid = pot;
  pot_vout = 1;
  pot_satoshis = 100;
  pot_script_hex = hand;
  seat = pos 0;
  balances =
      record { recipient_key = 7 ∷ []; satoshis = 40 }
      ∷ record { recipient_key = 3 ∷ []; satoshis = 60 }
      ∷ [];
  max_lock_height = 950;
  max_fee = 5;
}

refund-signed : handle_sign_refund signing 3 pays parse_refund script_any 9 request ≡ done signature
unfolding handle_sign_refund sign_refund shared_refund_expectation scan_balances sign_input
refund-signed = ground (arith, shared_refund-accepted)

handle_sign_refund-repays_example :
    (tx : Transaction) × (want : SharedRefundExpectation) × (v : ℕ) × (parse_refund hand ≡ some tx)
    × (shared_refund_expectation (own_key signing 3 pays parse_refund script_any 9) pays request
        ≡ done want)
    × (balance_of alice want.balances ≡ some v)
    × (paid_to (to_lower alice) tx.outputs % 2 ^ 64 ≤ v)
    × (v ≤ paid_to (to_lower alice) tx.outputs % 2 ^ 64 + 5)
handle_sign_refund-repays_example =
    handle_sign_refund-repays signing 3 pays parse_refund script_any 9 request signature alice refl
      refund-signed
