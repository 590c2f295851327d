-- ===== src/Tests/LedgerTests.antt =====
-- A ledger with a pot of two seats.
use brc100_poker.Base.{ℕ, ◌+◌, ◌≡◌, refl, some, none, List, [], ◌∷◌, ◌++◌, arith, pos, Text}
use brc100_poker.MentalPoker.Masks.{swap}
use brc100_poker.Ledger.{
  Pot, funding, settling, rejected, broadcast, Ledger, ok, encode_seats, decode_from, decode_seats,
  record_pot, set_pot_state, pots_in_state, record_intent, unresolved,
}
use brc100_poker.Ledger.Seats.{decode_seats-encode_seats}
use brc100_poker.Ledger.Recovery.{Call, moving, resolving, run, IsListed, record_intent-unresolved}
use brc100_poker.Cosign.Pot.{Sdk, Signature, place_at, place_all, push_all, assemble}
use brc100_poker.Cosign.Assembly.{assemble-Reordered}
use brc100_poker.Cosign.Pot

abbrev two_keys : List Text
two_keys = (b'a' ∷ b'1' ∷ []) ∷ (b'b' ∷ b'2' ∷ []) ∷ []

decode_seats-encode_seats_example : decode_seats (encode_seats two_keys) ≡ two_keys
decode_seats-encode_seats_example =
    decode_seats-encode_seats two_keys
      (((omega arith), ((omega arith), tt)), (((omega arith), ((omega arith), tt)), tt))
      (λ e. absurd (cc e))

abbrev two_pot : Pot
two_pot = record {
  hand_id = b'h' ∷ [];
  txid = b't' ∷ [];
  vout = 0;
  satoshis = 2000;
  locking_script = b's' ∷ [];
  seats = two_keys;
  state = funding;
  created_at = 0;
  updated_at = 0;
}

abbrev empty_ledger : Ledger
empty_ledger = record { pots = []; attempts = []; next_id = 1 }

abbrev one_pot : Ledger
one_pot = (set_pot_state 6 (b'h' ∷ []) settling (record_pot 5 two_pot empty_ledger).0).0

-- The pot that is settling is found after a restart, with its seats.
restart :
    pots_in_state settling one_pot
    ≡ (record two_pot { state = settling; created_at = 5; updated_at = 6 }) ∷ []
unfolding pots_in_state set_pot_state record_pot decode_seats decode_from
restart = refl

abbrev later_calls : List Call
later_calls =
    resolving 8 2 rejected [] ∷ resolving 9 1 broadcast [] ∷ moving 9 (b'h' ∷ []) settling ∷ []

intended_first : (record_intent 7 (b'h' ∷ []) (b'p' ∷ []) (b'x' ∷ []) one_pot).1 ≡ ok 1
unfolding record_intent set_pot_state record_pot
intended_first = refl

record_intent-unresolved_example :
    IsListed 1
      (b'h' ∷ [])
      (b'x' ∷ [])
      (unresolved (run later_calls (record_intent 7 (b'h' ∷ []) (b'p' ∷ []) (b'x' ∷ []) one_pot).0))
record_intent-unresolved_example =
    record_intent-unresolved 7 (b'h' ∷ []) (b'p' ∷ []) (b'x' ∷ []) one_pot 1 later_calls
      intended_first ((λ e. absurd (ground (arith, e))), ((λ e. tt), (tt, tt)))

-- Scripts are their bytes, a push has no prefix, and every key is a number.
abbrev pub plain : Sdk
plain = record {
  Script = Text;
  empty_script = [];
  append_opcodes = λ s ops. some (s ++ ops);
  append_push_data = λ s data_bytes. some (s ++ data_bytes);
  all_fork_id = 65;
  op_0 = 0;
  small_int = λ n. n + 80;
  op_checkmultisig = 174;
  Key = ℕ;
  compressed = λ k. k ∷ [];
  key_hex = λ k. k ∷ [];
  PrivateKey = ℕ;
  public_key = λ k. k;
  sighash = λ tx sources i. none;
  sign = λ k hash. none;
  verifies = λ hash sig k. none;
}

abbrev first_signature : Signature
first_signature = record { seat = pos 0; identity_key = []; der = 1 ∷ 65 ∷ [] }

abbrev second_signature : Signature
second_signature = record { seat = pos 1; identity_key = []; der = 2 ∷ 65 ∷ [] }

assembled :
    assemble plain (second_signature ∷ first_signature ∷ []) 2 ≡ Pot.ok (0 ∷ 1 ∷ 65 ∷ 2 ∷ 65 ∷ [])
unfolding assemble place_all place_at push_all
assembled = refl

assemble-Reordered_example :
    assemble plain (first_signature ∷ second_signature ∷ []) 2 ≡ Pot.ok (0 ∷ 1 ∷ 65 ∷ 2 ∷ 65 ∷ [])
assemble-Reordered_example =
    assemble-Reordered plain 2 (0 ∷ 1 ∷ 65 ∷ 2 ∷ 65 ∷ []) (swap second_signature first_signature [])
      assembled
