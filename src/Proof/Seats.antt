-- ===== src/Proof/Seats.antt =====
-- proof.go: the nonces of the seats, the seed that they make together, and the order of the seats.
use brc100_poker.Base.{
  ℕ, Bool, true, false, not, Option, none, some, List, [], ◌∷◌, ◌++◌, ltb, ◌==◌, if◌then◌else◌,
  Text, text_eq, any, length,
}
use brc100_poker.Table.{is_empty}
use brc100_poker.Proof.{stream}

-- `brc100-poker/proof/seat-nonce/v1`, `seat-seed` and `seat-order`.
abbrev pub domain_prefix : Text
domain_prefix =
    b'b' ∷ b'r' ∷ b'c' ∷ b'1' ∷ b'0' ∷ b'0' ∷ b'-' ∷ b'p' ∷ b'o' ∷ b'k' ∷ b'e' ∷ b'r' ∷ b'/' ∷ b'p'
    ∷ b'r' ∷ b'o' ∷ b'o' ∷ b'f' ∷ b'/' ∷ []

abbrev pub domain_seat_nonce : Text
domain_seat_nonce =
    domain_prefix
    ++ (b's' ∷ b'e' ∷ b'a' ∷ b't' ∷ b'-' ∷ b'n' ∷ b'o' ∷ b'n' ∷ b'c' ∷ b'e' ∷ b'/' ∷ b'v' ∷ b'1'
        ∷ [])

abbrev pub domain_seat_seed : Text
domain_seat_seed =
    domain_prefix
    ++ (b's' ∷ b'e' ∷ b'a' ∷ b't' ∷ b'-' ∷ b's' ∷ b'e' ∷ b'e' ∷ b'd' ∷ b'/' ∷ b'v' ∷ b'1' ∷ [])

abbrev pub domain_seat_order : Text
domain_seat_order =
    domain_prefix
    ++ (b's' ∷ b'e' ∷ b'a' ∷ b't' ∷ b'-' ∷ b'o' ∷ b'r' ∷ b'd' ∷ b'e' ∷ b'r' ∷ b'/' ∷ b'v' ∷ b'1'
        ∷ [])

-- `NonceSize`, and the size of a seed.
abbrev pub nonce_size : ℕ
nonce_size = 32

abbrev pub seed_size : ℕ
seed_size = 32

pub record SeatReveal : Type 0 where
  pub identity_key : Text
  pub nonce : Text

pub data SeatError : Type 0 where
  bad_nonce_size nonce_mismatch no_reveals no_identity_key repeated_key no_players : SeatError
  bad_seed_size : SeatError

pub data Result {ℓ} (A : Type ℓ) : Type ℓ where
  ok : A → Result A
  err : SeatError → Result A

-- The order of Go's strings.
abbrev pub ltb_text : Text → Text → Bool
ltb_text [] [] = false
ltb_text [] (b ∷ t) = true
ltb_text (a ∷ s) [] = false
ltb_text (a ∷ s) (b ∷ t) = if ltb a b then true else if a == b then ltb_text s t else false

-- `sort.Slice` by an order.
abbrev pub insert_by {ℓ} : {A : Type ℓ} → (A → A → Bool) → A → List A → List A
insert_by less a [] = a ∷ []
insert_by less a (x ∷ xs) = if less a x then a ∷ x ∷ xs else x ∷ insert_by less a xs

abbrev pub sort_by {ℓ} : {A : Type ℓ} → (A → A → Bool) → List A → List A
sort_by less [] = []
sort_by less (x ∷ xs) = insert_by less x (sort_by less xs)

abbrev pub before : SeatReveal → SeatReveal → Bool
before r s = ltb_text r.identity_key s.identity_key

-- The loop of `JointSeed` over the sorted reveals: the fields that are hashed.
unfoldable pub seed_fields : List SeatReveal → List Text → Result (List Text)
seed_fields [] seen = ok []
seed_fields (r ∷ reveals) seen =
    let rest : Result (List Text) = elim (seed_fields reveals (r.identity_key ∷ seen)) [
      | err e ↦ err e
      | ok fields ↦ ok (r.identity_key ∷ r.nonce ∷ fields)
    ] in
    if is_empty r.identity_key
    then err no_identity_key
    else if not (length r.nonce == nonce_size)
    then err bad_nonce_size
    else if any (text_eq r.identity_key) seen
    then err repeated_key
    else rest

-- The first error of the loop of `AssignSeats` over the keys.
unfoldable pub check_keys : List Text → List Text → Option SeatError
check_keys [] seen = none
check_keys (k ∷ keys) seen =
    let rest = check_keys keys (k ∷ seen) in
    if is_empty k
    then some no_identity_key
    else if any (text_eq k) seen
    then some repeated_key
    else rest

module _ (sha : Text → Text) where
  -- `CommitSeatNonce`.
  unfoldable pub commit_seat_nonce : Text → Result Text
  commit_seat_nonce nonce =
      if not (length nonce == nonce_size)
      then err bad_nonce_size
      else ok (sha (stream (domain_seat_nonce ∷ nonce ∷ [])))

  -- `VerifySeatNonce`.
  unfoldable pub verify_seat_nonce : Text → Text → Option SeatError
  verify_seat_nonce commitment nonce = elim (commit_seat_nonce nonce) [
    | err e ↦ some e
    | ok want ↦ if not (text_eq want commitment) then some nonce_mismatch else none
  ]

  -- `JointSeed`.
  unfoldable pub joint_seed : List SeatReveal → Result Text
  joint_seed reveals =
      if length reveals == 0
      then err no_reveals
      else elim (seed_fields (sort_by before reveals) []) [
        | err e ↦ err e
        | ok fields ↦ ok (sha (stream (domain_seat_seed ∷ fields)))
      ]

  abbrev pub score : Text → Text → Text
  score seed key = sha (stream (domain_seat_order ∷ seed ∷ key ∷ []))

  -- The comparison of `AssignSeats`.
  abbrev pub seated_before : Text → Text → Text → Bool
  seated_before seed j k =
      if not (text_eq (score seed j) (score seed k))
      then ltb_text (score seed j) (score seed k)
      else ltb_text j k

  -- `AssignSeats`.
  unfoldable pub assign_seats : List Text → Text → Result (List Text)
  assign_seats keys seed =
      if length keys == 0
      then err no_players
      else if not (length seed == seed_size)
      then err bad_seed_size
      else elim (check_keys keys []) [
        | some e ↦ err e
        | none ↦ ok (sort_by (seated_before seed) keys)
      ]
