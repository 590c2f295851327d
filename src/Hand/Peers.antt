-- ===== src/Hand/Peers.antt =====
-- hand.go: the commitments of the seats, and the check of an opened pass.
use brc100_poker.Base.{
  ℕ, Bool, ◌||◌, false, not, Option, none, some, List, [], ◌∷◌, map, leb, ◌==◌, if◌then◌else◌, ℤ,
  pos, negsuc, eqb_ℤ, leb_ℤ, Text, text_eq, length,
}
use brc100_poker.MentalPoker.{Curve, Scalar}
use brc100_poker.MentalPoker.Deck.{Deck}
use brc100_poker.Proof.{
  Refusal, Commitment, commit_shuffle, commit_remask, committed, refused, verify_shuffle,
  verify_remask,
}
use brc100_poker.Hand.{
  HandPlayer, Reply, fine, failed, lookup, commit_fault, seat_outside, malformed_commitments,
  shuffle_changed, remask_changed, not_committed, no_input, pass_refused,
}

-- `m[k] = v`.
abbrev pub put {ℓ} : {A : Type ℓ} → ℤ → A → List (ℤ × A) → List (ℤ × A)
put k v [] = (k, v) ∷ []
put k v (entry ∷ rest) = if eqb_ℤ k entry.0 then (k, v) ∷ rest else entry ∷ put k v rest

-- `sort.Ints`.
abbrev pub insert : ℤ → List ℤ → List ℤ
insert k [] = k ∷ []
insert k (j ∷ js) = if leb_ℤ k j then k ∷ j ∷ js else j ∷ insert k js

abbrev pub sort_ints : List ℤ → List ℤ
sort_ints [] = []
sort_ints (k ∷ ks) = insert k (sort_ints ks)

-- `proof.CommitmentSize`.
abbrev pub commitment_size : ℕ
commitment_size = 32

-- A text that is recorded for a seat, and is not this one.
abbrev pub differs : ℤ → Text → List (ℤ × Text) → Bool
differs k t m = elim (lookup k m) [ none ↦ false | some old ↦ not (text_eq old t) ]

module _ (c : Curve) where
  -- `RecordPeerCommitments`.
  unfoldable pub record_peer_commitments :
      HandPlayer c → ℤ → Text → Text → HandPlayer c × Reply (Unit {0})
  record_peer_commitments h (negsuc k) shuffle remask = (h, failed seat_outside)
  record_peer_commitments h (pos k) shuffle remask =
      if leb h.seats k
      then (h, failed seat_outside)
      else if not (length shuffle == commitment_size) || not (length remask == commitment_size)
      then (h, failed malformed_commitments)
      else if differs (pos k) shuffle h.peer_shuffle_commit
      then (h, failed shuffle_changed)
      else if differs (pos k) remask h.peer_remask_commit
      then (h, failed remask_changed)
      else (
        record h {
          peer_shuffle_commit = put (pos k) shuffle h.peer_shuffle_commit;
          peer_remask_commit = put (pos k) remask h.peer_remask_commit;
        },
        fine tt,
      )

  -- `RecordInput`.
  unfoldable pub record_input : HandPlayer c → ℤ → Deck c → HandPlayer c
  record_input h k deck = record h { input_deck = put k deck h.input_deck }

  -- `CommittedSeats`.
  unfoldable pub committed_seats : HandPlayer c → List ℤ
  committed_seats h = sort_ints (map (λ (entry : ℤ × Text). entry.0) h.peer_shuffle_commit)

module _ (c : Curve) (sha : Text → Text) where
  -- A commitment that is kept, or a new one.
  abbrev pub keep_or : Option Text → Commitment → Commitment
  keep_or none new = new
  keep_or (some old) new = committed old

  -- `Commitments`. A shuffle commitment stays when the remask commitment fails.
  unfoldable pub commitments : HandPlayer c → HandPlayer c × Reply (Text × Text)
  commitments h = elim (keep_or h.shuffle_commit (commit_shuffle c sha h.global h.pending_perm)) [
    | refused e ↦ (h, failed (commit_fault e))
    | committed shuffle ↦
        elim (keep_or h.remask_commit (commit_remask c sha h.global h.per_position)) [
          | refused e ↦ (record h { shuffle_commit = some shuffle }, failed (commit_fault e))
          | committed remask ↦ (
            record h { shuffle_commit = some shuffle; remask_commit = some remask },
            fine (shuffle, remask),
          )
        ]
  ]

  -- The result of a check, for the caller.
  abbrev pub verdict : Option Refusal → Reply (Unit {0})
  verdict none = fine tt
  verdict (some e) = failed (pass_refused e)

  -- `VerifyPeerShuffle`.
  unfoldable pub verify_peer_shuffle :
      HandPlayer c → ℤ → Scalar → List ℤ → Deck c → Reply (Unit {0})
  verify_peer_shuffle h k global perm claimed = elim (lookup k h.peer_shuffle_commit) [
    | none ↦ failed not_committed
    | some commitment ↦ elim (lookup k h.input_deck) [
      | none ↦ failed no_input
      | some input ↦ verdict (verify_shuffle c sha input claimed global perm commitment)
    ]
  ]

  -- `VerifyPeerRemask`.
  unfoldable pub verify_peer_remask :
      HandPlayer c → ℤ → Scalar → List Scalar → Deck c → Reply (Unit {0})
  verify_peer_remask h k global scalars claimed = elim (lookup k h.peer_remask_commit) [
    | none ↦ failed not_committed
    | some commitment ↦ elim (lookup k h.input_deck) [
      | none ↦ failed no_input
      | some input ↦ verdict (verify_remask c sha input claimed global scalars commitment)
    ]
  ]
