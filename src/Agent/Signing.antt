-- ===== src/Agent/Signing.antt =====
-- agent.go: what a wallet has made sure of when it signs a settlement.
use brc100_poker.Base.{
  ℕ, ◌%◌, ◌^◌, ◌≡◌, ◌⊎◌, inl, inr, refl, sym, ap, subst, ◌∙◌, Bool, true, Bool-cases, Option-cases,
  Option, none, some, List, [], ◌∷◌, arith, if◌then◌else◌, ℤ, Text, text_eq, to_lower, All, some_eq,
  ◌||◌,
}
use brc100_poker.Cosign.{Transaction, verify_proposal}
use brc100_poker.Cosign.Tally.{paid_to}
use brc100_poker.Cosign.Settlement.{verify_proposal-pays}
use brc100_poker.Cosign.Pot.{
  Sdk, Signature, PotError, Result, ok, err, Sources, attach, input_at, sign_input,
}
use brc100_poker.Table.{is_empty}
use brc100_poker.Agent.{
  Stake, SigningRequest, done, put_stake, record_stake, stake_of, signing_request, sign_checked,
  handle_sign_pot,
}

-- The calls of `RecordStake`, one after the other, whether accepted or not.
abbrev pub record_all : List Stake → List Stake → List Stake
record_all [] stakes = stakes
record_all (s ∷ calls) stakes = record_all calls (record_stake s stakes).0

abbrev IsHeld : Stake → Type 0
IsHeld s = s.refund_held ≡ true

put_stake-IsHeld :
    (s : Stake) (stakes : List Stake)
    → IsHeld s
    → All IsHeld stakes
    → All IsHeld (put_stake s stakes)
put_stake-IsHeld s [] h all = (h, tt)
put_stake-IsHeld s (t ∷ stakes) h all = elim (Bool-cases (text_eq s.hand_id t.hand_id)) [
  | inl same ↦
      subst (λ b. All IsHeld (if b then s ∷ stakes else t ∷ put_stake s stakes)) (sym same)
        (h, all.1)
  | inr other ↦
      subst (λ b. All IsHeld (if b then s ∷ stakes else t ∷ put_stake s stakes)) (sym other)
        (all.0, put_stake-IsHeld s stakes h all.1)
]

record_stake-cases :
    (s : Stake) (stakes : List Stake)
    → ((record_stake s stakes).0 ≡ stakes)
      ⊎ (IsHeld s × ((record_stake s stakes).0 ≡ put_stake s stakes))
unfolding record_stake
record_stake-cases s stakes = elim (Bool-cases s.refund_held) [
  | inr missing ↦ inl (ground (arith, missing))
  | inl held ↦ elim (Bool-cases (is_empty s.hand_id || is_empty s.pot_txid)) [
    | inl refused ↦ inl (ground (arith, refused))
    | inr accepted ↦ inr (held, ground (arith, held, accepted))
  ]
]

record_all-IsHeld :
    (calls stakes : List Stake) → All IsHeld stakes → All IsHeld (record_all calls stakes)
record_all-IsHeld [] stakes all = all
record_all-IsHeld (s ∷ calls) stakes all = elim (record_stake-cases s stakes) [
  | inl same ↦ record_all-IsHeld calls (record_stake s stakes).0 (subst (All IsHeld) (sym same) all)
  | inr (held, put) ↦
      record_all-IsHeld calls (record_stake s stakes).0
        (subst (All IsHeld) (sym put) (put_stake-IsHeld s stakes held all))
]

stake_of-IsHeld :
    (hand : Text) (stakes : List Stake) {s : Stake}
    → All IsHeld stakes
    → stake_of hand stakes ≡ some s
    → IsHeld s
stake_of-IsHeld hand [] all e = absurd (cc e)
stake_of-IsHeld hand (t ∷ stakes) all e = elim (Bool-cases (text_eq hand t.hand_id)) [
  | inl here ↦
      let same = some_eq (sym (ap (λ b. if b then some t else stake_of hand stakes) here) ∙ e) in
      subst IsHeld same all.0
  | inr further ↦
      stake_of-IsHeld hand stakes all.1
        (sym (ap (λ b. if b then some t else stake_of hand stakes) further) ∙ e)
]

module _ (sdk : Sdk) (priv : sdk.PrivateKey) (parse : Text → Option Transaction)
    (is_script : Text → Bool) (approves : SigningRequest → Bool) where
  Result-cases {ℓ} :
      {A : Type ℓ} (r : Result A) → ((a : A) × (r ≡ ok a)) ⊎ ((e : PotError) × (r ≡ err e))
  Result-cases (ok a) = inl (a, refl)
  Result-cases (err e) = inr (e, refl)

  abbrev pot_attached : Stake → ℤ → Sources
  pot_attached s index = attach index (s.pot_satoshis, s.pot_script_hex) (λ i. none)

  sign_input-seat :
      (tx : Transaction) (sources : Sources) (index seat : ℤ) {sig : Signature}
      → sign_input sdk tx sources index seat priv ≡ ok sig
      → sig.seat ≡ seat
  unfolding sign_input
  sign_input-seat tx sources index seat e = elim (Option-cases (input_at sdk tx index)) [
    | inl outside ↦ absurd (ground (arith, e, outside))
    | inr (i, inside) ↦ elim (Option-cases (sources index)) [
      | inl bare ↦ absurd (ground (arith, e, inside, bare))
      | inr (output, spent) ↦ elim (Option-cases (sdk.sighash tx sources index)) [
        | inl no_hash ↦ absurd (ground (arith, e, inside, spent, no_hash))
        | inr (hash, hashed) ↦ elim (Option-cases (sdk.sign priv hash)) [
          | inl unsigned ↦ absurd (ground (arith, e, inside, spent, hashed, unsigned))
          | inr (der, written) ↦ ground (arith, e, inside, spent, hashed, written)
        ]
      ]
    ]
  ]

  sign_checked-gates :
      (s : Stake) (raw : Text) (tx : Transaction) (index : ℤ) {sig : Signature}
      → sign_checked sdk priv parse is_script approves s raw tx index ≡ done sig
      → (verify_proposal (record { tx = some tx; pot_input = index }) s.expectation ≡ none)
        × (approves (signing_request s raw tx) ≡ true)
        × (sign_input sdk tx (pot_attached s index) index s.seat priv ≡ ok sig)
  unfolding sign_checked
  sign_checked-gates s raw tx index e =
      elim (Option-cases
        (verify_proposal (record { tx = some tx; pot_input = index }) s.expectation)) [
          | inr (why, bad) ↦ absurd (ground (arith, e, bad))
          | inl fits ↦
              elim (Result-cases (sign_input sdk tx (pot_attached s index) index s.seat priv)) [
                | inr (why, bad) ↦ absurd (ground (arith, e, fits, bad))
                | inl (other, good) ↦ (fits, ground (arith, e, fits), ground (arith, e, fits, good))
              ]
        ]

  handle_sign_pot-reaches :
      (stakes : List Stake) (hand raw : Text) (index : ℤ) {sig : Signature}
      → handle_sign_pot sdk priv parse is_script approves stakes hand raw index ≡ done sig
      → (s : Stake) × (tx : Transaction) × (stake_of hand stakes ≡ some s)
        × (parse raw ≡ some tx)
        × (sign_checked sdk priv parse is_script approves s raw tx index ≡ done sig)
  unfolding handle_sign_pot
  handle_sign_pot-reaches stakes hand raw index e = elim (Option-cases (stake_of hand stakes)) [
    | inl missing ↦ absurd (ground (arith, e, missing))
    | inr (s, known) ↦ elim (Option-cases (parse raw)) [
      | inl garbled ↦ absurd (ground (arith, e, known, garbled))
      | inr (tx, parsed) ↦ elim (Option-cases (input_at sdk tx index)) [
        | inl outside ↦ absurd (ground (arith, e, known, parsed, outside))
        | inr (i, inside) ↦ (s, tx, known, parsed, ground (arith, e, known, parsed, inside))
      ]
    ]
  ]

  -- When a wallet that has recorded any stakes, refused ones included, signs a settlement for a hand,
  -- it holds a stake in that hand and a refund of it, the player has approved the request made from
  -- that very transaction, the signature is for the stake's seat, and the transaction pays each
  -- payout that the stake expects exactly, modulo `2 ^ 64`.
  pub handle_sign_pot-pays :
      (calls : List Stake) (hand raw : Text) (index : ℤ) (sig : Signature)
      → handle_sign_pot sdk priv parse is_script approves (record_all calls []) hand raw index
        ≡ done sig
      → (s : Stake) × (tx : Transaction) × (stake_of hand (record_all calls []) ≡ some s)
        × (parse raw ≡ some tx)
        × (s.refund_held ≡ true)
        × (approves (signing_request s raw tx) ≡ true)
        × (sig.seat ≡ s.seat)
        × All (λ e. paid_to (to_lower e.0) tx.outputs % 2 ^ 64 ≡ e.1) s.expectation.payouts
  handle_sign_pot-pays calls hand raw index sig e =
      let (s, tx, known, parsed, checked) =
        handle_sign_pot-reaches (record_all calls []) hand raw index e in
      let (fits, approved, signed_it) = sign_checked-gates s raw tx index checked in
      let held = stake_of-IsHeld hand (record_all calls []) (record_all-IsHeld calls [] tt) known in
      let (tx', same, paid, within, fee) =
        verify_proposal-pays (record { tx = some tx; pot_input = index }) s.expectation fits in
      (
        s,
        tx,
        known,
        parsed,
        held,
        approved,
        sign_input-seat tx (pot_attached s index) index s.seat signed_it,
        subst
            (λ t.
              All (λ (x : Text × ℕ). paid_to (to_lower x.0) t.outputs % 2 ^ 64 ≡ x.1)
                s.expectation.payouts)
            (sym (some_eq same)) paid,
      )
