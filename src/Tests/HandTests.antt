-- ===== src/Tests/HandTests.antt =====
-- The first of two seats in a hand of three cards, over the group of PokerTests, and a hash that keeps
-- the last 32 bytes.
use brc100_poker.Base.{
  zero, suc, ◌≡◌, ◌⊎◌, refl, some, none, List, [], ◌∷◌, arith, ℤ, pos, Text, ap,
}
use brc100_poker.Cards.{Card, from_index}
use brc100_poker.MentalPoker.{
  Scalar, ok, mask, mask_coords, big_endian, number_from, number, scalar_from_bytes, point_equal,
  inverse, unmask, card_point,
}
use brc100_poker.MentalPoker.Deck.{
  Deck, validate_from, validate_permutation, scatter, shuffle_step, at, unmask_all, unmask_at,
  match_from, card_index_of, deck_equal,
}
use brc100_poker.MentalPoker.Deals.{place, entry}
use brc100_poker.Proof.{
  stream, encode_perm, committed, commit_shuffle, check_shuffle, verify_shuffle,
}
use brc100_poker.Proof.Binding.{Collide, shuffle_stream, verify_shuffle-honest}
use brc100_poker.Hand.{
  HandPlayer, fine, new_player, record_disclosure, disclose, others, show, card, hole_positions,
  hole_from, disclosed_by,
}
use brc100_poker.Hand.Peers.{record_peer_commitments, verify_peer_shuffle}
use brc100_poker.Hand.Binding.{Published, record_all, verify_peer_shuffle-binds}
use brc100_poker.Hand.Reading.{HasDisclosed, card-reads_dealt, card-needs_all}
use brc100_poker.Tests.PokerTests.{
  seven, seven-IsGroup, first_seat, two_seats, first_seat-IsFair, second_seat-IsFair, dealt,
}

abbrev last_bytes : Text → Text
last_bytes t = big_endian 32 (number t)

abbrev input : Deck seven
input = some 1 ∷ some 2 ∷ some 3 ∷ []

abbrev output : Deck seven
output = some 6 ∷ some 2 ∷ some 4 ∷ []

abbrev perm : List ℤ
perm = pos 1 ∷ pos 2 ∷ pos 0 ∷ []

stepped : shuffle_step seven input (some 2) perm ≡ ok output
unfolding shuffle_step validate_permutation validate_from scatter mask mask_coords
stepped = refl

verify_shuffle-honest_example :
    (t : Text) × (commit_shuffle seven last_bytes (some 2) perm ≡ committed t)
    × (verify_shuffle seven last_bytes input output (some 2) perm t ≡ none)
verify_shuffle-honest_example =
    verify_shuffle-honest seven last_bytes input output (some 2) perm (λ q. ground arith)
      (omega arith) stepped

-- The first seat, before it has heard from the second.
abbrev player : HandPlayer seven
player = new_player seven 0 2 3 (some 2) (some 3 ∷ some 4 ∷ some 5 ∷ []) perm

-- The second seat has disclosed its scalar for position 2.
abbrev informed : HandPlayer seven
informed = record player {
  deck = some 1 ∷ some 1 ∷ some 3 ∷ [];
  disclosed = record { position = pos 2; from_seat = pos 1; scalar = some 3 } ∷ [];
}

recorded :
    (record_disclosure seven player (pos 1) (pos 2 ∷ []) (big_endian 32 3 ∷ [])).0.disclosed
    ≡ informed.disclosed
unfolding record_disclosure disclose scalar_from_bytes number_from
recorded = refl

shown : card seven informed (pos 2) ≡ fine (record { rank = 2; suit = 2 })
unfolding card others show unmask_at at unmask_all unmask inverse mask mask_coords card_index_of
    match_from card_point from_index
shown = refl

informed-HasDisclosed : HasDisclosed seven informed two_seats 0 2
informed-HasDisclosed zero x e ne = absurd (ne refl)
informed-HasDisclosed (suc zero) x e ne =
    ap (λ o. elim o [ none ↦ none | some y ↦ some (some (entry y.per_position 2)) ]) e
informed-HasDisclosed (suc (suc j)) x e ne = absurd (cc e)

card-reads_dealt_example :
    (x : Card) × (from_index (pos 2) ≡ some x)
    × (card seven informed (pos (place two_seats 2)) ≡ fine x)
card-reads_dealt_example =
    card-reads_dealt seven seven-IsGroup 3 2 0 two_seats first_seat informed
      (first_seat-IsFair, (second_seat-IsFair, tt)) (omega arith) (omega arith) (omega arith) refl
      refl refl refl refl dealt informed-HasDisclosed

card-needs_all_example : (s : Scalar) × (disclosed_by (pos 2) (pos 1) informed.disclosed ≡ some s)
card-needs_all_example =
    card-needs_all seven informed (pos 2) (record { rank = 2; suit = 2 }) 1 shown (omega arith)
      (omega arith)

-- The first seat with the commitment of the second, and the deck that was handed to it.
abbrev audited : HandPlayer seven
audited = record player {
  peer_shuffle_commit = (pos 1, last_bytes (shuffle_stream seven last_bytes (some 2) perm)) ∷ [];
  input_deck = (pos 1, input) ∷ [];
}

opened : verify_peer_shuffle seven last_bytes audited (pos 1) (some 2) perm output ≡ fine tt
unfolding verify_peer_shuffle verify_shuffle commit_shuffle check_shuffle stream encode_perm
    number_from shuffle_step validate_permutation validate_from scatter mask mask_coords deck_equal
    point_equal
opened = refl

abbrev changed : Published
changed = record { seat = pos 1; shuffle = big_endian 32 1; remask = big_endian 32 2 }

opened_later :
    verify_peer_shuffle seven last_bytes
      (record_all seven (changed ∷ []) audited)
      (pos 1)
      (some 2)
      perm
      output
    ≡ fine tt
unfolding record_peer_commitments verify_peer_shuffle verify_shuffle commit_shuffle check_shuffle
    stream encode_perm number_from shuffle_step validate_permutation validate_from scatter mask
    mask_coords deck_equal point_equal
opened_later = refl

verify_peer_shuffle-binds_example :
    (◌≡◌ {A = Scalar} (some 2) (some 2) × (perm ≡ perm) × (output ≡ output))
    ⊎ Collide seven last_bytes (some 2) perm (some 2) perm
verify_peer_shuffle-binds_example =
    verify_peer_shuffle-binds seven last_bytes (changed ∷ []) audited (pos 1) input output output
      (some 2) (some 2) perm perm (λ p q e. ground (arith, e)) (omega arith) refl (omega arith)
      opened opened_later

-- Two seats with two cards each, then the board.
positions : hole_positions 2 2 ≡ ((0 ∷ 1 ∷ []) ∷ (2 ∷ 3 ∷ []) ∷ [], 4 ∷ 5 ∷ 6 ∷ 7 ∷ 8 ∷ [])
unfolding hole_positions hole_from
positions = refl
