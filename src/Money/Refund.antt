-- ===== src/Money/Refund.antt =====
-- moneystate.go: any sequence of calls, and the refund that a seat holds before its stake is in.
use brc100_poker.Base.{
  ℕ, zero, suc, ◌≡◌, refl, subst, ◌∙◌, Bool, true, false, Option, none, some, [], ◌∷◌, map, arith,
  if_both, ℤ, pos, negsuc, Text, get_elem?, modify_at, some_eq, inl, inr, ◌⊎◌,
}
use brc100_poker.Table.{is_empty}
use brc100_poker.Money.{
  MoneyPhase, MoneyState, States, Result, ok, err, MoneyError, committed, settling, update_at,
  update, mark_refund, mark_committed, is_committed, mark_settling, payout_received, is_final,
  mark_stalled, mark_recovered, no_seat,
}

-- The phases that say a stake is in the pot and the hand goes on.
abbrev pub is_live : MoneyPhase → Bool
is_live committed = true
is_live settling = true
is_live _ = false

-- The state of seat `i` of a tracker with these terms: its stake, pot and refund height are those of
-- the terms, and a stake that is live has its refund.
pub record IsKept (stake pot height i : ℕ) (s : MoneyState) : Type 0 where
  pub at : s.seat ≡ i
  pub stake_kept : s.stake_satoshis ≡ stake
  pub pot_kept : s.pot_satoshis ≡ pot
  pub height_kept : s.refund_spendable_at_height ≡ height
  pub covered : is_live s.phase ≡ true → s.has_refund ≡ true

Result-cases :
    (r : Result MoneyState) → ((e : MoneyError) × (r ≡ err e)) ⊎ ((s : MoneyState) × (r ≡ ok s))
Result-cases (err e) = inl (e, refl)
Result-cases (ok s) = inr (s, refl)

module _ (stake pot height : ℕ) where
  -- Each seat's state, from seat `i` on.
  abbrev pub AllKept : ℕ → States → Type 0
  AllKept i [] = Unit
  AllKept i (s ∷ states) = IsKept stake pot height i s × AllKept (suc i) states

  -- A change that keeps every state keeps them all.
  abbrev Keeps : (MoneyState → MoneyState) → Type 0
  Keeps f = (i : ℕ) (s : MoneyState) → IsKept stake pot height i s → IsKept stake pot height i (f s)

  pub map-AllKept :
      (f : MoneyState → MoneyState) (i : ℕ) (states : States)
      → Keeps f
      → AllKept i states
      → AllKept i (map f states)
  map-AllKept f i [] k a = tt
  map-AllKept f i (s ∷ states) k a = (k i s a.0, map-AllKept f (suc i) states k a.1)

  modify_at-AllKept :
      (s' : MoneyState) (i j : ℕ) (states : States) {s : MoneyState}
      → get_elem? states j ≡ some s
      → ((k : ℕ) → IsKept stake pot height k s → IsKept stake pot height k s')
      → AllKept i states
      → AllKept i (modify_at j (λ _. s') states)
  modify_at-AllKept s' i j [] g k a = a
  modify_at-AllKept s' i zero (t ∷ states) g k a =
      (k i (subst (IsKept stake pot height i) (some_eq g) a.0), a.1)
  modify_at-AllKept s' i (suc j) (t ∷ states) g k a =
      (a.0, modify_at-AllKept s' (suc i) j states g k a.1)

  -- An update keeps the states where what it gives does, at any time.
  abbrev Allows : (MoneyState → Result MoneyState) → Type 0
  Allows f =
      (now i : ℕ) (s s' : MoneyState)
      → f s ≡ ok s'
      → IsKept stake pot height i s
      → IsKept stake pot height i (record s' { updated_at = now })

  -- What an update of one seat comes to: nothing, or the state that `f` gives there.
  update_at_both {ℓ} :
      (P : States → Type ℓ) (now i : ℕ) (f : MoneyState → Result MoneyState) (states : States)
      → P states
      → ((s s' : MoneyState)
          → get_elem? states i ≡ some s
          → f s ≡ ok s'
          → P (modify_at i (λ _. record s' { updated_at = now }) states))
      → P (update_at now i f states).0
  unfolding update_at
  update_at_both P now i f states h k = by_state (get_elem? states i) refl
    where
      write : MoneyState → States
      write s' = modify_at i (λ _. record s' { updated_at = now }) states

      by_result :
          (s : MoneyState) (r : Result MoneyState)
          → get_elem? states i ≡ some s
          → f s ≡ r
          → P
              (elim r as (λ _. States × Option MoneyError) [
                | err e ↦ (states, some e)
                | ok s' ↦ (write s', none)
              ]).0
      by_result s (err e) there given = h
      by_result s (ok s') there given = k s s' there given

      by_state :
          (m : Option MoneyState)
          → get_elem? states i ≡ m
          → P
              (elim m as (λ _. States × Option MoneyError) [
                | none ↦ (states, some no_seat)
                | some s ↦ elim (f s) as (λ _. States × Option MoneyError) [
                  | err e ↦ (states, some e)
                  | ok s' ↦ (write s', none)
                ]
              ]).0
      by_state none there = h
      by_state (some s) there = by_result s (f s) there refl

  update-AllKept :
      (now : ℕ) (seat : ℤ) (f : MoneyState → Result MoneyState) (states : States)
      → Allows f
      → AllKept 0 states
      → AllKept 0 (update now seat f states).0
  unfolding update
  update-AllKept now (negsuc n) f states k a = a
  update-AllKept now (pos i) f states k a =
      update_at_both (AllKept 0) now i f states a (λ s s' there given.
        modify_at-AllKept (record s' { updated_at = now }) 0 i states there
          (λ j h. k now j s s' given h) a)

  -- A state that says the same of the terms, and is live only with a refund.
  pub same_terms-IsKept :
      (i : ℕ) (s s' : MoneyState)
      → (s'.seat ≡ s.seat)
        × (s'.stake_satoshis ≡ s.stake_satoshis)
        × (s'.pot_satoshis ≡ s.pot_satoshis)
        × (s'.refund_spendable_at_height ≡ s.refund_spendable_at_height)
        × ((is_live s'.phase ≡ false) ⊎ (s'.has_refund ≡ true))
      → IsKept stake pot height i s
      → IsKept stake pot height i s'
  same_terms-IsKept i s s' e h = record {
    at = e.0 ∙ h.at;
    stake_kept = e.1 ∙ h.stake_kept;
    pot_kept = e.2 ∙ h.pot_kept;
    height_kept = e.3 ∙ h.height_kept;
    covered = (λ live. ground (arith, live, e.4));
  }

  pub mark_refund-AllKept :
      (now : ℕ) (seat : ℤ) (states : States)
      → AllKept 0 states
      → AllKept 0 (mark_refund now seat states).0
  unfolding mark_refund
  mark_refund-AllKept now seat states =
      update-AllKept now seat _ states (λ t i s s' e. same_terms-IsKept i s _ (ground (arith, e)))

  pub mark_committed-AllKept :
      (now : ℕ) (seat : ℤ) (states : States)
      → AllKept 0 states
      → AllKept 0 (mark_committed now seat states).0
  unfolding mark_committed
  mark_committed-AllKept now seat states =
      update-AllKept now seat _ states (λ t i s s' e. same_terms-IsKept i s _ (ground (arith, e)))

  pub payout_received-AllKept :
      (now : ℕ) (seat : ℤ) (states : States)
      → AllKept 0 states
      → AllKept 0 (payout_received now seat states).0
  unfolding payout_received
  payout_received-AllKept now seat states =
      update-AllKept now seat _ states
        (λ t i s s' e h. same_terms-IsKept i s _ (ground (arith, e, h.covered)) h)

  pub mark_recovered-AllKept :
      (now : ℕ) (seat : ℤ) (states : States)
      → AllKept 0 states
      → AllKept 0 (mark_recovered now seat states).0
  unfolding mark_recovered
  mark_recovered-AllKept now seat states =
      update-AllKept now seat _ states (λ t i s s' e. same_terms-IsKept i s _ (ground (arith, e)))

  pub mark_stalled-AllKept :
      (now : ℕ) (seat : ℤ) (reason : Text) (states : States)
      → AllKept 0 states
      → AllKept 0 (mark_stalled now seat reason states).0
  unfolding mark_stalled
  mark_stalled-AllKept now seat reason states a =
      if_both (λ (o : States × Option MoneyError). AllKept 0 o.0) (is_empty reason) (λ _. a)
        (λ _.
          map-AllKept _ 0 states
            (λ i s h.
              if_both (IsKept stake pot height i) (is_final s.phase) (λ _. h)
                (λ _. same_terms-IsKept i s _ (refl, refl, refl, refl, inl refl) h))
            a)

  pub mark_settling-AllKept :
      (now : ℕ) (txid : Text) (states : States)
      → AllKept 0 states
      → AllKept 0 (mark_settling now txid states)
  unfolding mark_settling
  mark_settling-AllKept now txid states = map-AllKept _ 0 states (λ i s h.
      if_both (IsKept stake pot height i) (is_committed s.phase)
        (λ c.
          same_terms-IsKept i s _ (refl, refl, refl, refl, inr (h.covered (ground (arith, c)))) h)
        (λ _. h))
