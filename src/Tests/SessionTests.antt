-- ===== src/Tests/SessionTests.antt =====
-- A session at a table with one seat, which deals. Every payload but the empty one carries one message.
use brc100_poker.Base.{◌≡◌, refl, Option, some, none, true, List, [], ◌∷◌, ℕ, pos, Text, All}
use brc100_poker.Base.Bytes.{normalise}
use brc100_poker.Dedup.{first_seen, has_seen, remember, evict, forget}
use brc100_poker.Table.{Table, Seat, phase_dealing, authorise, touch, update_seat}
use brc100_poker.Session.{
  Session, Envelope, Message, shuffle, validate, allows, apply, on_message, send_to, missing,
  replay, serve_catch_up,
}
use brc100_poker.Session.Receive.{
  IsChecked, run, run-handles_only_admitted, on_message-handles_again,
}
use brc100_poker.Tests.TableTests.{terms}

abbrev only_seat : Seat
only_seat = record {
  index = 0;
  identity_key = b'k' ∷ [];
  funded = true;
  refund_held = true;
  joined_at = 1;
  last_seen = 1;
}

abbrev dealing_table : Table
dealing_table = record {
  terms = terms;
  phase = phase_dealing;
  seats = only_seat ∷ [];
  by_identity = (b'k' ∷ [], 0) ∷ [];
  stall_reason = [];
  stalled_seat = pos 0;
}

abbrev shuffled : Envelope
shuffled = record {
  table_id = terms.table_id;
  hand_id = b'h' ∷ [];
  kind = shuffle;
  seat = pos 0;
  identity_key = b'k' ∷ [];
  seq = 1;
  recipient = [];
  body = b'd' ∷ [];
}

abbrev decode_shuffle : Text → Option Envelope
decode_shuffle [] = none
decode_shuffle (b ∷ bs) = some shuffled

abbrev encode_any : Envelope → Option Text
encode_any e = some e.body

abbrev listening : Session
listening = record {
  table = dealing_table;
  table_id = terms.table_id;
  dedup = record { seen = []; order = []; limit = 4096 };
  self_seat = pos 0;
  self_key = b'k' ∷ [];
  applied = [];
  log = [];
  next_seq = 0;
  handles = λ k. true;
  handled = [];
}

abbrev first_delivery : Message
first_delivery = record { id = b'1' ∷ []; payload = b'p' ∷ [] }

abbrev second_delivery : Message
second_delivery = record { id = b'2' ∷ []; payload = b'p' ∷ [] }

abbrev garbled : Message
garbled = record { id = b'3' ∷ []; payload = [] }

abbrev deliveries : List (ℕ × Message)
deliveries = (5, first_delivery) ∷ (6, first_delivery) ∷ (7, garbled) ∷ []

-- The repeated id and the garbled payload reach no handler.
handled_once : (run decode_shuffle deliveries listening).handled ≡ shuffled ∷ []
unfolding on_message apply allows validate authorise touch update_seat first_seen has_seen remember
    evict forget normalise
handled_once = refl

-- A sent message is in the log, and is replayed to a seat that has nothing of it.
replayed :
    serve_catch_up encode_any (send_to encode_any listening shuffle [] (b'd' ∷ [])).0 []
    ≡ (b'd' ∷ []) ∷ []
unfolding serve_catch_up missing replay send_to validate
replayed = refl

run-handles_only_admitted_example :
    All (IsChecked listening) (run decode_shuffle deliveries listening).handled
run-handles_only_admitted_example =
    run-handles_only_admitted decode_shuffle deliveries listening refl

fresh_first : (first_seen (b'1' ∷ []) listening.dedup).1 ≡ true
unfolding first_seen has_seen
fresh_first = refl

fresh_second : (first_seen (b'2' ∷ []) (first_seen (b'1' ∷ []) listening.dedup).0).1 ≡ true
unfolding first_seen has_seen remember evict forget
fresh_second = refl

admitted :
    allows listening.table_id listening.self_key phase_dealing
      (authorise (pos 0) (b'k' ∷ []) dealing_table)
      shuffled
    ≡ true
unfolding allows validate authorise normalise
admitted = refl

on_message-handles_again_example :
    (run decode_shuffle ((5, first_delivery) ∷ (6, second_delivery) ∷ []) listening).handled
    ≡ shuffled ∷ shuffled ∷ []
on_message-handles_again_example =
    on_message-handles_again decode_shuffle 5 6 listening first_delivery second_delivery shuffled
      refl refl fresh_first fresh_second admitted refl
