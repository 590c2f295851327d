-- ===== src/Proof.antt =====
-- internal/game/proof/proof.go: commitments to a pass over the deck, and the check of an opened
-- pass. SHA-256 is a parameter, `sha`, on the bytes that are written to it.
pub mod Fields
pub mod Binding
pub mod Seats
pub mod Sorting
pub mod Order
use brc100_poker.Base.{
  ℕ, zero, suc, ◌-◌, ◌/◌, ◌%◌, ◌^◌, Bool, true, false, not, ◌&&◌, Option, none, some, List, [], ◌∷◌,
  ◌++◌, map, ◌==◌, if◌then◌else◌, ℤ, pos, negsuc, Text, text_eq, length,
}
use brc100_poker.MentalPoker.{
  Curve, Scalar, Point, Fault, Result, ok, err, scalar_valid, big_endian, scalar_bytes,
  bad_permutation_size,
}
use brc100_poker.MentalPoker.Deck.{
  Deck, deck_equal, validate_permutation, shuffle_step, remask_step,
}

-- `uint32` of a Go int.
abbrev pub uint32 : ℤ → ℕ
uint32 (pos n) = n % 2 ^ 32
uint32 (negsuc n) = 2 ^ 32 - 1 - n % 2 ^ 32

-- `field`: what one field adds to the stream.
abbrev pub field : Text → Text
field b = big_endian 8 (length b) ++ b

-- What `sum` writes to the hash.
unfoldable pub stream : List Text → Text
stream [] = []
stream (b ∷ fields) = field b ++ stream fields

-- `encodePerm`.
unfoldable pub encode_perm : List ℤ → Text
encode_perm [] = []
encode_perm (v ∷ perm) = big_endian 4 (uint32 v) ++ encode_perm perm

-- `brc100-poker/proof/shuffle/v1`.
abbrev pub domain_shuffle : Text
domain_shuffle =
    b'b' ∷ b'r' ∷ b'c' ∷ b'1' ∷ b'0' ∷ b'0' ∷ b'-' ∷ b'p' ∷ b'o' ∷ b'k' ∷ b'e' ∷ b'r' ∷ b'/' ∷ b'p'
    ∷ b'r' ∷ b'o' ∷ b'o' ∷ b'f' ∷ b'/' ∷ b's' ∷ b'h' ∷ b'u' ∷ b'f' ∷ b'f' ∷ b'l' ∷ b'e' ∷ b'/'
    ∷ b'v' ∷ b'1' ∷ []

-- `brc100-poker/proof/remask/v1`.
abbrev pub domain_remask : Text
domain_remask =
    b'b' ∷ b'r' ∷ b'c' ∷ b'1' ∷ b'0' ∷ b'0' ∷ b'-' ∷ b'p' ∷ b'o' ∷ b'k' ∷ b'e' ∷ b'r' ∷ b'/' ∷ b'p'
    ∷ b'r' ∷ b'o' ∷ b'o' ∷ b'f' ∷ b'/' ∷ b'r' ∷ b'e' ∷ b'm' ∷ b'a' ∷ b's' ∷ b'k' ∷ b'/' ∷ b'v'
    ∷ b'1' ∷ []

-- The errors of the package about a pass.
pub data Refusal : Type 0 where
  bad_scalar empty_permutation empty_scalars bad_position_scalar : Refusal
  not_well_formed : Refusal → Refusal
  commitment_mismatch : Refusal
  bad_permutation recompute_failed : Fault → Refusal
  output_mismatch bad_count : Refusal

pub data Commitment : Type 0 where
  committed : Text → Commitment
  refused : Refusal → Commitment

module _ (c : Curve) (sha : Text → Text) where
  -- `CommitShuffle`.
  unfoldable pub commit_shuffle : Scalar → List ℤ → Commitment
  commit_shuffle global perm =
      if not (scalar_valid c global)
      then refused bad_scalar
      else if length perm == 0
      then refused empty_permutation
      else committed (sha (stream (domain_shuffle ∷ scalar_bytes global ∷ encode_perm perm ∷ [])))

  -- The loop of `CommitRemask`: the fields of the scalars, or none if one is invalid.
  unfoldable pub scalar_fields : List Scalar → Option (List Text)
  scalar_fields [] = some []
  scalar_fields (s ∷ scalars) = elim (scalar_fields scalars) [
    | none ↦ none
    | some rest ↦ if not (scalar_valid c s) then none else some (scalar_bytes s ∷ rest)
  ]

  -- `CommitRemask`.
  unfoldable pub commit_remask : Scalar → List Scalar → Commitment
  commit_remask global scalars =
      if not (scalar_valid c global)
      then refused bad_scalar
      else if length scalars == 0
      then refused empty_scalars
      else elim (scalar_fields scalars) [
        | none ↦ refused bad_position_scalar
        | some fields ↦ committed (sha (stream (domain_remask ∷ scalar_bytes global ∷ fields)))
      ]

  -- `VerifyShuffle` after the commitment.
  unfoldable pub check_shuffle : Deck c → Deck c → Scalar → List ℤ → Option Refusal
  check_shuffle input claimed global perm = elim (validate_permutation perm (length input)) [
    | some e ↦ some (bad_permutation e)
    | none ↦ elim (shuffle_step c input global perm) [
      | err e ↦ some (recompute_failed e)
      | ok recomputed ↦ if not (deck_equal c recomputed claimed) then some output_mismatch else none
    ]
  ]

  -- `VerifyShuffle`.
  unfoldable pub verify_shuffle : Deck c → Deck c → Scalar → List ℤ → Text → Option Refusal
  verify_shuffle input claimed global perm commitment = elim (commit_shuffle global perm) [
    | refused e ↦ some (not_well_formed e)
    | committed want ↦
        if not (text_eq want commitment)
        then some commitment_mismatch
        else check_shuffle input claimed global perm
  ]

  -- `VerifyRemask` after the commitment.
  unfoldable pub check_remask : Deck c → Deck c → Scalar → List Scalar → Option Refusal
  check_remask input claimed global scalars =
      if not (length scalars == length input)
      then some bad_count
      else elim (remask_step c input global scalars) [
        | err e ↦ some (recompute_failed e)
        | ok recomputed ↦
            if not (deck_equal c recomputed claimed) then some output_mismatch else none
      ]

  -- `VerifyRemask`.
  unfoldable pub verify_remask : Deck c → Deck c → Scalar → List Scalar → Text → Option Refusal
  verify_remask input claimed global scalars commitment = elim (commit_remask global scalars) [
    | refused e ↦ some (not_well_formed e)
    | committed want ↦
        if not (text_eq want commitment)
        then some commitment_mismatch
        else check_remask input claimed global scalars
  ]
