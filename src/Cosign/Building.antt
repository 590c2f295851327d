-- ===== src/Cosign/Building.antt =====
-- settle.go: `BuildRefund` and `buildSharedRefund`. The script that pays a key and the hash that a
-- txid parses to come from the SDK and are parameters, each as its `String()`, or `none` for an
-- error; so is the final sequence number.
use brc100_poker.Base.{
  ℕ, suc, ◌+◌, ◌-◌, ◌%◌, ◌^◌, Bool, true, false, not, ◌||◌, Option, none, some, List, [], ◌∷◌, leb,
  ltb, ◌==◌, if◌then◌else◌, ℤ, pos, minus_one, eqb_ℤ, ltb_ℤ, Text,
}
use brc100_poker.Cosign.{
  Output, Transaction, Result, ok, refuse, is_empty, both_forms, no_pot_script, no_key,
  owed_nothing, unbalanced, no_fee, fee_too_large, bad_key, bad_txid, no_recipient, not_payable,
  no_lock_height,
}

pub record RefundArgs (K : Type 0) : Type 0 where
  pub pot_txid : Text
  pub pot_vout : ℕ
  pub pot_satoshis : ℕ
  pub pot_script : Option Text
  pub recipient : Option K
  pub satoshis : ℕ
  pub recipients : List (Option K × ℕ)
  pub lock_height : ℕ
  pub fee : ℕ

-- What the loop over the recipients has found: the total, the largest balance and its index.
pub record Scan : Type 0 where
  pub total : ℕ
  pub largest : ℕ
  pub largest_idx : ℤ

abbrev pub start_scan : Scan
start_scan = record { total = 0; largest = 0; largest_idx = minus_one }

abbrev pub scan_one : ℕ → ℕ → Scan → Scan
scan_one i sats scan = record {
  total = (scan.total + sats) % 2 ^ 64;
  largest = if ltb scan.largest sats then sats else scan.largest;
  largest_idx = if ltb scan.largest sats then pos i else scan.largest_idx;
}

-- The amount of recipient `i`: the largest carries the fee.
abbrev pub amount_of : ℕ → ℤ → ℕ → ℕ → ℕ
amount_of fee largest_idx i sats =
    if eqb_ℤ (pos i) largest_idx then (sats + 2 ^ 64 - fee) % 2 ^ 64 else sats

-- A refund's one input is not final, so that the lock time binds.
abbrev pub refund_tx : ℕ → Text → ℕ → ℕ → List Output → Transaction
refund_tx final_sequence txid vout lock_height outputs = record {
  inputs =
      record { source_txid = some txid; source_vout = vout; sequence_number = final_sequence - 1 }
      ∷ [];
  outputs = outputs;
  lock_time = lock_height;
}

abbrev pub has_some {ℓ} : {A : Type ℓ} → Option A → Bool
has_some none = false
has_some (some a) = true

module _ {K : Type 0} where
  unfoldable pub scan_recipients : ℕ → List (Option K × ℕ) → Scan → Result Scan
  scan_recipients i [] scan = ok scan
  scan_recipients i ((key, sats) ∷ recipients) scan = elim key [
    | none ↦ refuse no_key
    | some k ↦
        let rest = scan_recipients (suc i) recipients (scan_one i sats scan) in
        if sats == 0 then refuse owed_nothing else rest
  ]

  module _ (lock : K → Option Text) (hash : Text → Option Text) (final_sequence : ℕ) where
    -- The loop over the outputs from recipient `i` on. The first loop has refused a missing key.
    unfoldable pub outputs_from : ℕ → ℤ → ℕ → List (Option K × ℕ) → Result (List Output)
    outputs_from fee largest_idx i [] = ok []
    outputs_from fee largest_idx i ((none, sats) ∷ recipients) = refuse bad_key
    outputs_from fee largest_idx i ((some k, sats) ∷ recipients) = elim (lock k) [
      | none ↦ refuse bad_key
      | some script ↦ elim (outputs_from fee largest_idx (suc i) recipients) [
        | refuse r ↦ refuse r
        | ok outputs ↦ ok (
            record { locking_script = some script; satoshis = amount_of fee largest_idx i sats }
            ∷ outputs)
      ]
    ]

    unfoldable pub shared_tx : RefundArgs K → ℤ → Result Transaction
    shared_tx args largest_idx = elim (hash args.pot_txid) [
      | none ↦ refuse bad_txid
      | some txid ↦ elim (outputs_from args.fee largest_idx 0 args.recipients) [
        | refuse r ↦ refuse r
        | ok outputs ↦ ok (refund_tx final_sequence txid args.pot_vout args.lock_height outputs)
      ]
    ]

    -- `buildSharedRefund` after its loop.
    unfoldable pub build_scanned : RefundArgs K → Scan → Result Transaction
    build_scanned args scan =
        if not (scan.total == args.pot_satoshis)
        then refuse unbalanced
        else if args.fee == 0
        then refuse no_fee
        else if ltb_ℤ scan.largest_idx (pos 0) || leb scan.largest args.fee
        then refuse fee_too_large
        else shared_tx args scan.largest_idx

    -- `buildSharedRefund`.
    unfoldable pub build_shared_refund : RefundArgs K → Result Transaction
    build_shared_refund args =
        if has_some args.recipient || not (args.satoshis == 0)
        then refuse both_forms
        else if not (has_some args.pot_script)
        then refuse no_pot_script
        else if args.lock_height == 0
        then refuse no_lock_height
        else elim (scan_recipients 0 args.recipients start_scan) [
          | refuse r ↦ refuse r
          | ok scan ↦ build_scanned args scan
        ]

    -- `BuildRefund` for a key that stands.
    unfoldable pub build_single : RefundArgs K → K → Result Transaction
    build_single args key =
        if args.satoshis == 0 || ltb args.pot_satoshis args.satoshis
        then refuse not_payable
        else if args.lock_height == 0
        then refuse no_lock_height
        else if not (has_some args.pot_script)
        then refuse no_pot_script
        else elim (lock key) [
          | none ↦ refuse bad_key
          | some script ↦ elim (hash args.pot_txid) [
            | none ↦ refuse bad_txid
            | some txid ↦ ok (
                refund_tx final_sequence txid args.pot_vout args.lock_height
                  (record { locking_script = some script; satoshis = args.satoshis } ∷ []))
          ]
        ]

    -- `BuildRefund`.
    unfoldable pub build_refund : RefundArgs K → Result Transaction
    build_refund args =
        if not (is_empty args.recipients)
        then build_shared_refund args
        else elim args.recipient [ none ↦ refuse no_recipient | some key ↦ build_single args key ]
