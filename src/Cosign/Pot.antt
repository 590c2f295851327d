-- ===== src/Cosign/Pot.antt =====
-- pot.go: the pot's script, and the signatures that spend it. Scripts, keys, hashes and signatures are
-- the SDK's: what the file calls of them is the record `Sdk`.
use brc100_poker.Base.{
  ℕ, ◌+◌, ◌*◌, ◌%◌, ◌^◌, Bool, true, false, not, ◌&&◌, Option, none, some, List, [], ◌∷◌, ◌++◌, ltb,
  leb, ◌==◌, if◌then◌else◌, ℤ, pos, negsuc, eqb_ℤ, Text, text_eq, any, length, get_elem?, set,
}
use brc100_poker.Cosign.{Input, Transaction}
use brc100_poker.Table.{is_empty}
use brc100_poker.MentalPoker.Deck.{replicate}

-- The output that an input spends, where one is attached to it: its satoshis and its script.
abbrev pub Sources : Type 0
Sources = ℤ → Option (ℕ × Text)

-- `SetSourceTxOutput` on an input.
abbrev pub attach : ℤ → ℕ × Text → Sources → Sources
attach index output sources i = if eqb_ℤ index i then some output else sources i

pub record Sdk : Type 1 where
  pub Script : Type 0
  pub empty_script : Script
  pub append_opcodes : Script → List ℕ → Option Script
  pub append_push_data : Script → Text → Option Script
  -- The sighash flag `AllForkID`, and the opcodes.
  pub all_fork_id : ℕ
  pub op_0 : ℕ
  pub small_int : ℕ → ℕ
  pub op_checkmultisig : ℕ
  pub Key : Type 0
  pub compressed : Key → Text
  pub key_hex : Key → Text
  pub PrivateKey : Type 0
  pub public_key : PrivateKey → Key
  -- `CalcInputSignatureHash`, which reads the outputs attached to the inputs.
  pub sighash : Transaction → Sources → ℤ → Option Text
  pub sign : PrivateKey → Text → Option Text
  pub verifies : Text → Text → Key → Option Bool

-- `Signature`.
pub record Signature : Type 0 where
  pub seat : ℤ
  pub identity_key : Text
  pub der : Text

pub data PotError : Type 0 where
  too_few too_many no_public_key repeated_key append_failed : PotError
  no_tx input_outside no_private_key no_source_output no_sighash not_signed : PotError
  short_signature other_sighash other_key unparsable not_verified : PotError
  incomplete seat_outside seat_twice empty_signature seat_missing : PotError

pub data Result {ℓ} (A : Type ℓ) : Type ℓ where
  ok : A → Result A
  err : PotError → Result A

-- `MaxSeats`.
abbrev pub max_pot_seats : ℕ
max_pot_seats = 6

-- `UnlockingScriptLength`.
abbrev pub unlocking_script_length : ℕ → ℕ
unlocking_script_length seats = (1 + seats * (1 + 73) + 8) % 2 ^ 32

-- The last byte of a text that is not empty, and what is before it.
abbrev pub last_byte : Text → ℕ
last_byte [] = 0
last_byte (b ∷ bs) = if is_empty bs then b else last_byte bs

abbrev pub but_last : Text → Text
but_last [] = []
but_last (b ∷ bs) = if is_empty bs then [] else b ∷ but_last bs

module _ (sdk : Sdk) where
  -- The loop of `PotScript` over the keys.
  unfoldable pub append_keys : List (Option sdk.Key) → List Text → sdk.Script → Result sdk.Script
  append_keys [] seen s = ok s
  append_keys (none ∷ keys) seen s = err no_public_key
  append_keys (some k ∷ keys) seen s = elim (sdk.append_push_data s (sdk.compressed k)) [
    | none ↦ if any (text_eq (sdk.compressed k)) seen then err repeated_key else err append_failed
    | some s' ↦
        let rest = append_keys keys (sdk.compressed k ∷ seen) s' in
        if any (text_eq (sdk.compressed k)) seen then err repeated_key else rest
  ]

  -- The last opcodes of `PotScript`.
  abbrev pub finish_script : ℕ → Result sdk.Script → Result sdk.Script
  finish_script n (err e) = err e
  finish_script n (ok s) =
      elim (sdk.append_opcodes s (sdk.small_int n ∷ sdk.op_checkmultisig ∷ [])) [
        | none ↦ err append_failed
        | some s' ↦ ok s'
      ]

  -- `PotScript`. The small-int opcode exists for each number of seats that is let through.
  unfoldable pub pot_script : List (Option sdk.Key) → Result sdk.Script
  pot_script keys =
      if ltb (length keys) 2
      then err too_few
      else if ltb max_pot_seats (length keys)
      then err too_many
      else elim (sdk.append_opcodes sdk.empty_script (sdk.small_int (length keys) ∷ [])) [
        | none ↦ err append_failed
        | some s ↦ finish_script (length keys) (append_keys keys [] s)
      ]

  abbrev pub input_at : Transaction → ℤ → Option Input
  input_at tx (negsuc n) = none
  input_at tx (pos i) = get_elem? tx.inputs i

  -- `SignInput` with a transaction, the outputs attached to its inputs, and a key.
  unfoldable pub sign_input : Transaction → Sources → ℤ → ℤ → sdk.PrivateKey → Result Signature
  sign_input tx sources index seat priv = elim (input_at tx index) [
    | none ↦ err input_outside
    | some i ↦ elim (sources index) [
      | none ↦ err no_source_output
      | some output ↦ elim (sdk.sighash tx sources index) [
        | none ↦ err no_sighash
        | some hash ↦ elim (sdk.sign priv hash) [
          | none ↦ err not_signed
          | some sig ↦ ok (record {
            seat = seat;
            identity_key = sdk.key_hex (sdk.public_key priv);
            der = sig ++ (sdk.all_fork_id ∷ []);
          })
        ]
      ]
    ]
  ]

  -- `VerifySignature`; `verifies` has no result for a signature that it cannot parse.
  unfoldable pub verify_signature :
      Transaction → Sources → ℤ → Signature → Option sdk.Key → Option PotError
  verify_signature tx sources index sig none = some no_public_key
  verify_signature tx sources index sig (some pub_key) =
      if ltb (length sig.der) 2
      then some short_signature
      else if not (last_byte sig.der == sdk.all_fork_id)
      then some other_sighash
      else if not (is_empty sig.identity_key)
          && not (text_eq sig.identity_key (sdk.key_hex pub_key))
      then some other_key
      else elim (sdk.sighash tx sources index) [
        | none ↦ some no_sighash
        | some hash ↦ elim (sdk.verifies hash (but_last sig.der) pub_key) [
          | none ↦ some unparsable
          | some fits ↦ if not fits then some not_verified else none
        ]
      ]

  -- A seat of `ordered` that holds a signature.
  abbrev pub is_taken : List (Option Text) → ℕ → Bool
  is_taken ordered k = elim (get_elem? ordered k) [
    | none ↦ false
    | some slot ↦ elim slot [ none ↦ false | some der ↦ true ]
  ]

  -- The body of the first loop of `Assemble`: a signature goes to its seat.
  unfoldable pub place_at : ℕ → ℤ → Text → List (Option Text) → Result (List (Option Text))
  place_at seats (negsuc n) der ordered = err seat_outside
  place_at seats (pos k) der ordered =
      if leb seats k
      then err seat_outside
      else if is_taken ordered k
      then err seat_twice
      else if is_empty der
      then err empty_signature
      else ok (set ordered k (some der))

  -- The first loop of `Assemble`.
  unfoldable pub place_all : ℕ → List Signature → List (Option Text) → Result (List (Option Text))
  place_all seats [] ordered = ok ordered
  place_all seats (s ∷ sigs) ordered = elim (place_at seats s.seat s.der ordered) [
    | err e ↦ err e
    | ok placed ↦ place_all seats sigs placed
  ]

  -- The loops of `Assemble` over the ordered signatures.
  unfoldable pub push_all : List (Option Text) → sdk.Script → Result sdk.Script
  push_all [] s = ok s
  push_all (none ∷ ordered) s = err seat_missing
  push_all (some der ∷ ordered) s = elim (sdk.append_push_data s der) [
    | none ↦ err append_failed
    | some s' ↦ push_all ordered s'
  ]

  -- `Assemble` after the signatures are in order.
  abbrev pub unlock : Result (List (Option Text)) → Result sdk.Script
  unlock (err e) = err e
  unlock (ok ordered) =
      if any (λ o. elim o [ none ↦ true | some der ↦ false ]) ordered
      then err seat_missing
      else elim (sdk.append_opcodes sdk.empty_script (sdk.op_0 ∷ [])) [
        | none ↦ err append_failed
        | some s ↦ push_all ordered s
      ]

  -- `Assemble`.
  unfoldable pub assemble : List Signature → ℕ → Result sdk.Script
  assemble sigs seats =
      if ltb seats 2
      then err too_few
      else if not (length sigs == seats)
      then err incomplete
      else unlock (place_all seats sigs (replicate seats none))
