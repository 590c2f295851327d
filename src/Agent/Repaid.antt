-- ===== src/Agent/Repaid.antt =====
-- refund.go: the wallet that signs a shared refund is paid its own balance by it.
use brc100_poker.Base.{
  ℕ, ◌+◌, ◌%◌, ◌^◌, ◌≤◌, ◌≡◌, ◌⊎◌, inl, inr, refl, sym, ap, subst, ◌∙◌, Bool, true, false, ◌||◌,
  Bool-cases, Option-cases, Option, none, some, List, [], ◌∷◌, if◌then◌else◌, arith, Text, text_eq,
  text_eq_iff, text_eq_refl, to_lower, any, All, some_eq,
}
use brc100_poker.Cosign.{Transaction, SharedRefundExpectation, verify_shared_refund}
use brc100_poker.Cosign.Pot.{Sdk, Signature, input_at}
use brc100_poker.Cosign.Tally.{paid_to}
use brc100_poker.Cosign.Shared.{IsRestored, verify_shared_refund-restores}
use brc100_poker.Agent.Refund.{
  RefundBalance, SignRefundParams, RefundError, Reply, done, failed, put_balance, scan_balances,
  shared_refund_expectation, own_key, sign_refund, handle_sign_refund,
}

Reply-cases {ℓ} :
    {A : Type ℓ} (r : Reply A) → ((a : A) × (r ≡ done a)) ⊎ ((e : RefundError) × (r ≡ failed e))
Reply-cases (done a) = inl (a, refl)
Reply-cases (failed e) = inr (e, refl)

done_eq {ℓ} : {A : Type ℓ} {a b : A} → done a ≡ done b → a ≡ b
done_eq e = cc

-- A balance for a script is among those wanted.
abbrev pub IsWanted : Text → List (Text × ℕ) → Type 0
IsWanted k wanted = any (λ (e : Text × ℕ). text_eq k e.0) wanted ≡ true

put_balance-IsWanted :
    (k : Text) (v : ℕ) (wanted : List (Text × ℕ)) → IsWanted k (put_balance k v wanted)
put_balance-IsWanted k v [] = ground (arith, text_eq_refl k)
put_balance-IsWanted k v (e ∷ wanted) = elim (Bool-cases (text_eq k e.0)) [
  | inl same ↦ ground (arith, same, text_eq_refl k)
  | inr other ↦ ground (arith, other, put_balance-IsWanted k v wanted)
]

put_balance-keeps :
    (j k : Text) (v : ℕ) (wanted : List (Text × ℕ))
    → IsWanted j wanted
    → IsWanted j (put_balance k v wanted)
put_balance-keeps j k v [] w = absurd (cc w)
put_balance-keeps j k v (e ∷ wanted) w = elim (Bool-cases (text_eq k e.0)) [
  | inl same ↦ ground (arith, same, w, (text_eq_iff k e.0).0 same)
  | inr other ↦ elim (Bool-cases (text_eq j e.0)) [
    | inl here ↦ ground (arith, other, here)
    | inr further ↦
        ground (arith, other, further, put_balance-keeps j k v wanted (ground (arith, w, further)))
  ]
]

module _ (own : Text) (derive : Text → Option Text) (script : Text)
    (mine : derive own ≡ some script) where
  scan_balances-IsWanted :
      (balances : List RefundBalance) (wanted : List (Text × ℕ)) (self : Bool)
      {found : List (Text × ℕ) × Bool}
      → (self ≡ true → IsWanted script wanted)
      → scan_balances own derive balances wanted self ≡ done found
      → found.1 ≡ true
      → IsWanted script found.0
  unfolding scan_balances
  scan_balances-IsWanted [] wanted self {found} h e t =
      let same : (wanted, self) ≡ found = done_eq e in
      subst (λ (f : List (Text × ℕ) × Bool). IsWanted script f.0) same
        (h (ap (λ (f : List (Text × ℕ) × Bool). f.1) same ∙ t))
  scan_balances-IsWanted (b ∷ balances) wanted self {found} h e t =
      elim (Option-cases (derive b.recipient_key)) [
        | inl bad ↦ absurd (ground (arith, e, bad))
        | inr (k, derived) ↦
            let next : scan_balances own derive balances (put_balance k b.satoshis wanted)
                  (self || text_eq b.recipient_key own)
                ≡ done found =
              ground (arith, e, derived) in
            scan_balances-IsWanted balances (put_balance k b.satoshis wanted)
              (self || text_eq b.recipient_key own)
              (λ either. elim (Bool-cases self) [
                | inl before ↦ put_balance-keeps script k b.satoshis wanted (h before)
                | inr not_before ↦
                    let same : b.recipient_key ≡ own =
                      (text_eq_iff b.recipient_key own).0 (ground (arith, either, not_before)) in
                    let scripts : k ≡ script = some_eq (sym derived ∙ ap derive same ∙ mine) in
                    subst (λ s. IsWanted s (put_balance k b.satoshis wanted)) scripts
                      (put_balance-IsWanted k b.satoshis wanted)
              ])
              next t
      ]

-- The balance that is wanted for a script.
abbrev pub balance_of : Text → List (Text × ℕ) → Option ℕ
balance_of k [] = none
balance_of k (e ∷ wanted) = if text_eq k e.0 then some e.1 else balance_of k wanted

balance_of-IsRestored :
    (max_fee : ℕ) (paid : Text → ℕ) (k : Text) (wanted : List (Text × ℕ))
    → IsWanted k wanted
    → All (IsRestored max_fee paid) wanted
    → (v : ℕ) × (balance_of k wanted ≡ some v) × IsRestored max_fee paid (k, v)
balance_of-IsRestored max_fee paid k [] w all = absurd (cc w)
balance_of-IsRestored max_fee paid k (e ∷ wanted) w all = elim (Bool-cases (text_eq k e.0)) [
  | inl here ↦ (
    e.1,
    ap (λ b. if b then some e.1 else balance_of k wanted) here,
    subst (λ t. IsRestored max_fee paid (t, e.1)) (sym ((text_eq_iff k e.0).0 here)) all.0,
  )
  | inr further ↦
      let (v, found, restored) =
        balance_of-IsRestored max_fee paid k wanted (ground (arith, w, further)) all.1 in
      (v, ap (λ b. if b then some e.1 else balance_of k wanted) further ∙ found, restored)
]

shared_refund_expectation-IsWanted :
    (own : Text) (derive : Text → Option Text) (script : Text) (p : SignRefundParams)
    (want : SharedRefundExpectation)
    → derive own ≡ some script
    → shared_refund_expectation own derive p ≡ done want
    → IsWanted script want.balances × (want.max_fee ≡ p.max_fee)
unfolding shared_refund_expectation
shared_refund_expectation-IsWanted own derive script p want mine e =
    elim (Reply-cases (scan_balances own derive p.balances [] false)) [
      | inr (why, bad) ↦ absurd (ground (arith, e, bad))
      | inl (found, good) ↦
          let self : found.1 ≡ true = ground (arith, e, good) in
          let kept : found.0 ≡ want.balances = ground (arith, e, good) in
          let wanted =
            scan_balances-IsWanted own derive script mine p.balances [] false (λ no. absurd (cc no))
              good self in
          (subst (IsWanted script) kept wanted, ground (arith, e, good))
    ]

module _ (sdk : Sdk) (priv : sdk.PrivateKey) (derive : Text → Option Text)
    (parse : Text → Option Transaction) (is_script : Text → Bool) (final_sequence : ℕ) where
  handle_sign_refund-gates :
      (p : SignRefundParams) {sig : Signature}
      → handle_sign_refund sdk priv derive parse is_script final_sequence p ≡ done sig
      → (tx : Transaction) × (want : SharedRefundExpectation) × (parse p.raw_tx ≡ some tx)
        × (shared_refund_expectation
              (own_key sdk priv derive parse is_script final_sequence)
              derive
              p
            ≡ done want)
        × (verify_shared_refund final_sequence (some tx) want ≡ none)
  unfolding handle_sign_refund sign_refund
  handle_sign_refund-gates p e = elim (Option-cases (parse p.raw_tx)) [
    | inl garbled ↦ absurd (ground (arith, e, garbled))
    | inr (tx, parsed) ↦ elim (Option-cases (input_at sdk tx p.pot_input)) [
      | inl outside ↦ absurd (ground (arith, e, parsed, outside))
      | inr (i, inside) ↦
          elim (Reply-cases (
            shared_refund_expectation (own_key sdk priv derive parse is_script final_sequence)
              derive p)) [
                | inr (why, bad) ↦ absurd (ground (arith, e, parsed, inside, bad))
                | inl (want, good) ↦
                    elim (Option-cases (verify_shared_refund final_sequence (some tx) want)) [
                      | inr (why, bad) ↦ absurd (ground (arith, e, parsed, inside, good, bad))
                      | inl fits ↦ (tx, want, parsed, good, fits)
                    ]
              ]
    ]
  ]

  -- When a wallet signs a refund, and its own key has a script, then the balances that it derived from
  -- the request hold one for that script, and the transaction pays the script no more than that balance
  -- and no less than it but for the fee bound, modulo `2 ^ 64`.
  pub handle_sign_refund-repays :
      (p : SignRefundParams) (sig : Signature) (script : Text)
      → derive (own_key sdk priv derive parse is_script final_sequence) ≡ some script
      → handle_sign_refund sdk priv derive parse is_script final_sequence p ≡ done sig
      → (tx : Transaction) × (want : SharedRefundExpectation) × (v : ℕ) × (parse p.raw_tx ≡ some tx)
        × (shared_refund_expectation
              (own_key sdk priv derive parse is_script final_sequence)
              derive
              p
            ≡ done want)
        × (balance_of script want.balances ≡ some v)
        × (paid_to (to_lower script) tx.outputs % 2 ^ 64 ≤ v)
        × (v ≤ paid_to (to_lower script) tx.outputs % 2 ^ 64 + p.max_fee)
  handle_sign_refund-repays p sig script mine e =
      let (tx, want, parsed, wanted, fits) = handle_sign_refund-gates p e in
      let (has, fee) =
        shared_refund_expectation-IsWanted (own_key sdk priv derive parse is_script final_sequence)
          derive script p want mine wanted in
      let (locked, height, spends_pot, restored, short, within, rest) =
        verify_shared_refund-restores final_sequence tx want fits in
      let (v, found, restored_v) =
        balance_of-IsRestored want.max_fee (λ key. paid_to key tx.outputs % 2 ^ 64) script
          want.balances has restored in
      (
        tx,
        want,
        v,
        parsed,
        wanted,
        found,
        restored_v.0,
        subst (λ f. v ≤ paid_to (to_lower script) tx.outputs % 2 ^ 64 + f) fee restored_v.1,
      )
