-- ===== src/Hand/Passes.antt =====
-- hand.go: the two passes of the deal. What comes in is what another seat has sent.
use brc100_poker.Base.{not, ◌==◌, if◌then◌else◌, ℤ, pos, eqb_ℤ, sub_ℕ, length}
use brc100_poker.MentalPoker.{Curve, ok, err}
use brc100_poker.MentalPoker.Deck.{Deck, base_deck, shuffle_step, remask_step}
use brc100_poker.Hand.{
  HandPlayer, Sending, silent, send_shuffle, send_remask, Reply, fine, failed, not_first,
  deck_fault, no_deck, encode_deck,
}

module _ (c : Curve) where
  -- `contributeShuffle`.
  unfoldable pub contribute_shuffle : HandPlayer c → Deck c → HandPlayer c × Reply Sending
  contribute_shuffle h input = elim (shuffle_step c input h.global h.pending_perm) [
    | err e ↦ (h, failed (deck_fault e))
    | ok out ↦ (record h { deck = out }, fine (send_shuffle (encode_deck c out)))
  ]

  -- `StartShuffle`.
  unfoldable pub start_shuffle : HandPlayer c → HandPlayer c × Reply Sending
  start_shuffle h =
      if not (h.seat == 0) then (h, failed not_first) else elim (base_deck c (pos h.deck_size)) [
        | err e ↦ (h, failed (deck_fault e))
        | ok base ↦ contribute_shuffle h base
      ]

  -- `ApplyShuffle`.
  unfoldable pub apply_shuffle : HandPlayer c → Deck c → ℤ → HandPlayer c × Reply Sending
  apply_shuffle h deck from_seat =
      if not (eqb_ℤ from_seat (sub_ℕ h.seat 1)) then (h, fine silent) else contribute_shuffle h deck

  -- `contributeRemask`.
  unfoldable pub contribute_remask : HandPlayer c → Deck c → HandPlayer c × Reply Sending
  contribute_remask h input = elim (remask_step c input h.global h.per_position) [
    | err e ↦ (h, failed (deck_fault e))
    | ok out ↦ (record h { deck = out }, fine (send_remask (encode_deck c out)))
  ]

  -- `StartRemask`.
  unfoldable pub start_remask : HandPlayer c → HandPlayer c × Reply Sending
  start_remask h =
      if not (h.seat == 0)
      then (h, failed not_first)
      else if length h.deck == 0
      then (h, failed no_deck)
      else contribute_remask h h.deck

  -- `ApplyRemask`.
  unfoldable pub apply_remask : HandPlayer c → Deck c → ℤ → HandPlayer c × Reply Sending
  apply_remask h deck from_seat =
      if not (eqb_ℤ from_seat (sub_ℕ h.seat 1)) then (h, fine silent) else contribute_remask h deck
