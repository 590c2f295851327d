-- ===== src/Agent/Refund.antt =====
-- internal/agent/refund.go: the gate before a player's wallet signs a shared refund. `derive` is what
-- the SDK makes of an identity key: the script that pays it, in hex.
use brc100_poker.Base.{
  ℕ, Bool, false, not, ◌||◌, Option, none, some, List, [], ◌∷◌, ◌==◌, if◌then◌else◌, ℤ, Text,
  text_eq, length,
}
use brc100_poker.Table.{is_empty}
use brc100_poker.Cosign.{Transaction, Refusal, SharedRefundExpectation, verify_shared_refund}
use brc100_poker.Cosign.Pot.{
  Sdk, Signature, PotError, Result, ok, err, attach, input_at, sign_input,
}

pub record RefundBalance : Type 0 where
  pub recipient_key : Text
  pub satoshis : ℕ

-- `signRefundParams`, without the fields that are only kept for older tables.
pub record SignRefundParams : Type 0 where
  pub hand_id : Text
  pub raw_tx : Text
  pub pot_input : ℤ
  pub pot_txid : Text
  pub pot_vout : ℕ
  pub pot_satoshis : ℕ
  pub pot_script_hex : Text
  pub seat : ℤ
  pub balances : List RefundBalance
  pub max_lock_height : ℕ
  pub max_fee : ℕ

pub data RefundError : Type 0 where
  incomplete no_fee_bound unparsable outside no_balances : RefundError
  zero_balance unusable_key pays_self_nothing : RefundError
  refused : Refusal → RefundError
  bad_pot_script : RefundError
  signing_failed : PotError → RefundError

pub data Reply {ℓ} (A : Type ℓ) : Type ℓ where
  done : A → Reply A
  failed : RefundError → Reply A

-- `balances[k] = v`.
abbrev pub put_balance : Text → ℕ → List (Text × ℕ) → List (Text × ℕ)
put_balance k v [] = (k, v) ∷ []
put_balance k v (e ∷ rest) = if text_eq k e.0 then (k, v) ∷ rest else e ∷ put_balance k v rest

module _ (own : Text) (derive : Text → Option Text) where
  -- The loop of `sharedRefundExpectation`: the balances by script, and whether one is this wallet's.
  unfoldable pub scan_balances :
      List RefundBalance → List (Text × ℕ) → Bool → Reply (List (Text × ℕ) × Bool)
  scan_balances [] wanted self = done (wanted, self)
  scan_balances (b ∷ balances) wanted self = elim (derive b.recipient_key) [
    | none ↦ if b.satoshis == 0 then failed zero_balance else failed unusable_key
    | some script ↦
        let rest =
          scan_balances balances (put_balance script b.satoshis wanted)
            (self || text_eq b.recipient_key own) in
        if b.satoshis == 0 then failed zero_balance else rest
  ]

  -- `sharedRefundExpectation`, for an agent that holds a key.
  unfoldable pub shared_refund_expectation : SignRefundParams → Reply SharedRefundExpectation
  shared_refund_expectation p = elim (scan_balances p.balances [] false) [
    | failed e ↦ failed e
    | done found ↦
        if not found.1
        then failed pays_self_nothing
        else done (record {
          pot_txid = p.pot_txid;
          pot_vout = p.pot_vout;
          pot_satoshis = p.pot_satoshis;
          balances = found.0;
          max_fee = p.max_fee;
          max_lock_height = p.max_lock_height;
        })
  ]

module _ (sdk : Sdk) (priv : sdk.PrivateKey) (derive : Text → Option Text)
    (parse : Text → Option Transaction) (is_script : Text → Bool) (final_sequence : ℕ) where
  abbrev pub own_key : Text
  own_key = sdk.key_hex (sdk.public_key priv)

  abbrev pub signed : Result Signature → Reply Signature
  signed (err e) = failed (signing_failed e)
  signed (ok sig) = done sig

  -- `handleSignRefund` with its transaction.
  unfoldable pub sign_refund : SignRefundParams → Transaction → Reply Signature
  sign_refund p tx = elim (shared_refund_expectation own_key derive p) [
    | failed e ↦ failed e
    | done want ↦ elim (verify_shared_refund final_sequence (some tx) want) [
      | some why ↦ failed (refused why)
      | none ↦
          if not (is_script p.pot_script_hex)
          then failed bad_pot_script
          else signed (
              sign_input sdk tx (attach p.pot_input (p.pot_satoshis, p.pot_script_hex) (λ i. none))
                p.pot_input p.seat priv)
    ]
  ]

  -- `handleSignRefund`.
  unfoldable pub handle_sign_refund : SignRefundParams → Reply Signature
  handle_sign_refund p =
      if is_empty p.hand_id || is_empty p.raw_tx || is_empty p.pot_txid || is_empty p.pot_script_hex
      then failed incomplete
      else if p.max_fee == 0
      then failed no_fee_bound
      else elim (parse p.raw_tx) [
        | none ↦ failed unparsable
        | some tx ↦ elim (input_at sdk tx p.pot_input) [
          | none ↦ failed outside
          | some i ↦ if length p.balances == 0 then failed no_balances else sign_refund p tx
        ]
      ]
