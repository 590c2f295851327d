-- ===== src/Agent.antt =====
-- internal/agent/agent.go: the stakes that a player's wallet records, and the gates before it signs a
-- settlement. The parsing of transactions and scripts and the player's approval are parameters, with
-- the signing of the SDK; a request's JSON is its fields.
pub mod Signing
pub mod Deal
pub mod Secrets
pub mod Refund
pub mod Repaid
use brc100_poker.Base.{
  ℕ, ◌+◌, ◌-◌, ◌%◌, ◌^◌, Bool, true, false, not, ◌||◌, Option, none, some, List, [], ◌∷◌, map, ltb,
  leb, ◌==◌, if◌then◌else◌, ℤ, pos, negsuc, Text, text_eq, to_lower, any, length,
}
use brc100_poker.Cosign.{
  Transaction, Output, Input, Expectation, Proposal, Refusal, verify_proposal,
}
use brc100_poker.Cosign.Pot.{
  Sdk, Signature, PotError, Result, ok, err, Sources, attach, input_at, sign_input,
}
use brc100_poker.Table.{is_empty}

-- `Stake`.
pub record Stake : Type 0 where
  pub hand_id : Text
  pub pot_txid : Text
  pub pot_vout : ℕ
  pub pot_satoshis : ℕ
  pub seat : ℤ
  pub expectation : Expectation
  pub pot_script_hex : Text
  pub refund_held : Bool
  pub refund_tx_hex : Text

-- What an output of a request for approval says.
pub record SigningOutput : Type 0 where
  pub satoshis : ℕ
  pub locking_script : Text
  pub expected : Bool

-- `SigningRequest`.
pub record SigningRequest : Type 0 where
  pub hand_id : Text
  pub pot_txid : Text
  pub pot_vout : ℕ
  pub pot_satoshis : ℕ
  pub raw_tx : Text
  pub outputs : List SigningOutput
  pub fee_satoshis : ℕ

pub data AgentError : Type 0 where
  no_hand_id no_pot no_refund : AgentError
  bad_request no_stake unparsable_transaction input_outside : AgentError
  mismatch : Refusal → AgentError
  bad_pot_script not_approved : AgentError
  signing_failed : PotError → AgentError

pub data Reply {ℓ} (A : Type ℓ) : Type ℓ where
  done : A → Reply A
  failed : AgentError → Reply A

-- The map `stakes`: a new record of a hand replaces the old one.
abbrev pub put_stake : Stake → List Stake → List Stake
put_stake s [] = s ∷ []
put_stake s (t ∷ stakes) =
    if text_eq s.hand_id t.hand_id then s ∷ stakes else t ∷ put_stake s stakes

-- `RecordStake`.
unfoldable pub record_stake : Stake → List Stake → List Stake × Reply (Unit {0})
record_stake s stakes =
    if is_empty s.hand_id
    then (stakes, failed no_hand_id)
    else if is_empty s.pot_txid
    then (stakes, failed no_pot)
    else if not s.refund_held
    then (stakes, failed no_refund)
    else (put_stake s stakes, done tt)

-- `Stake`.
abbrev pub stake_of : Text → List Stake → Option Stake
stake_of hand [] = none
stake_of hand (s ∷ stakes) = if text_eq hand s.hand_id then some s else stake_of hand stakes

-- `o.LockingScript.String()`.
abbrev pub script_text : Output → Text
script_text o = elim o.locking_script [ none ↦ [] | some t ↦ t ]

-- The loop over the outputs of `handleSignPot`: what is paid, in uint64, and what the player sees.
abbrev pub paid_from : ℕ → List Output → ℕ
paid_from paid [] = paid
paid_from paid (o ∷ outputs) = paid_from ((paid + o.satoshis) % 2 ^ 64) outputs

abbrev pub describe : Stake → Output → SigningOutput
describe s o = record {
  satoshis = o.satoshis;
  locking_script = script_text o;
  expected = any (λ (e : Text × ℕ). text_eq e.0 (to_lower (script_text o))) s.expectation.payouts;
}

-- The request that the player is asked to approve.
abbrev pub signing_request : Stake → Text → Transaction → SigningRequest
signing_request s raw tx =
    let paid = paid_from 0 tx.outputs in
    record {
      hand_id = s.hand_id;
      pot_txid = s.pot_txid;
      pot_vout = s.pot_vout;
      pot_satoshis = s.pot_satoshis;
      raw_tx = raw;
      outputs = map (describe s) tx.outputs;
      fee_satoshis = if ltb paid s.pot_satoshis then s.pot_satoshis - paid else 0;
    }

module _ (sdk : Sdk) (priv : sdk.PrivateKey) (parse : Text → Option Transaction)
    (is_script : Text → Bool) (approves : SigningRequest → Bool) where
  -- The last call of `handleSignPot`.
  abbrev pub signed : Result Signature → Reply Signature
  signed (err e) = failed (signing_failed e)
  signed (ok sig) = done sig

  -- A transaction that is parsed from its bytes has no outputs attached.
  abbrev pub no_sources : Sources
  no_sources i = none

  -- `handleSignPot` once the stake and the transaction are at hand.
  unfoldable pub sign_checked : Stake → Text → Transaction → ℤ → Reply Signature
  sign_checked s raw tx index =
      elim (verify_proposal (record { tx = some tx; pot_input = index }) s.expectation) [
        | some why ↦ failed (mismatch why)
        | none ↦
            if not (is_script s.pot_script_hex)
            then failed bad_pot_script
            else if not (approves (signing_request s raw tx))
            then failed not_approved
            else signed (
                sign_input sdk tx (attach index (s.pot_satoshis, s.pot_script_hex) no_sources) index
                  s.seat priv)
      ]

  -- `handleSignPot`.
  unfoldable pub handle_sign_pot : List Stake → Text → Text → ℤ → Reply Signature
  handle_sign_pot stakes hand raw index =
      if is_empty hand || is_empty raw then failed bad_request else elim (stake_of hand stakes) [
        | none ↦ failed no_stake
        | some s ↦ elim (parse raw) [
          | none ↦ failed unparsable_transaction
          | some tx ↦ elim (input_at sdk tx index) [
            | none ↦ failed input_outside
            | some i ↦ sign_checked s raw tx index
          ]
        ]
      ]
