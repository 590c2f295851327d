-- ===== src/Tests/AgentTests.antt =====
-- A wallet with one stake, asked to sign the settlement of CosignTests.
use brc100_poker.Base.{
  ◌%◌, ◌^◌, ◌≡◌, arith, Bool, true, Option, some, [], ◌∷◌, pos, Text, All, to_lower,
}
use brc100_poker.Cosign.{Transaction}
use brc100_poker.Cosign.Tally.{paid_to}
use brc100_poker.Cosign.Pot.{Sdk, Signature, sign_input}
use brc100_poker.Agent.{
  Stake, SigningRequest, done, record_stake, stake_of, signing_request, sign_checked,
  handle_sign_pot,
}
use brc100_poker.Agent.Signing.{record_all, handle_sign_pot-pays}
use brc100_poker.Tests.CosignTests.{pot, settlement, expected, proposal-accepted}
use brc100_poker.Tests.LedgerTests.{plain}

abbrev pub signing : Sdk
signing = record plain { sighash = λ tx sources i. some []; sign = λ k hash. some (k ∷ []) }

abbrev pub hand : Text
hand = b'h' ∷ []

abbrev stake : Stake
stake = record {
  hand_id = hand;
  pot_txid = pot;
  pot_vout = 1;
  pot_satoshis = 100;
  seat = pos 0;
  expectation = expected;
  pot_script_hex = hand;
  refund_held = true;
  refund_tx_hex = hand;
}

abbrev parse_any : Text → Option Transaction
parse_any raw = some settlement

abbrev approve_any : SigningRequest → Bool
approve_any r = true

abbrev pub script_any : Text → Bool
script_any t = true

abbrev pub signature : Signature
signature = record { seat = pos 0; identity_key = 3 ∷ []; der = 3 ∷ 65 ∷ [] }

signs :
    handle_sign_pot signing 3 parse_any script_any approve_any
      (record_all (stake ∷ []) [])
      hand
      hand
      (pos 1)
    ≡ done signature
unfolding handle_sign_pot sign_checked record_stake sign_input
signs = ground (arith, proposal-accepted)

handle_sign_pot-pays_example :
    (s : Stake) × (tx : Transaction) × (stake_of hand (record_all (stake ∷ []) []) ≡ some s)
    × (parse_any hand ≡ some tx)
    × (s.refund_held ≡ true)
    × (approve_any (signing_request s hand tx) ≡ true)
    × (signature.seat ≡ s.seat)
    × All (λ e. paid_to (to_lower e.0) tx.outputs % 2 ^ 64 ≡ e.1) s.expectation.payouts
handle_sign_pot-pays_example =
    handle_sign_pot-pays signing 3 parse_any script_any approve_any (stake ∷ []) hand hand (pos 1)
      signature signs
