-- ===== src/Ledger/Seats.antt =====
-- potledger.go: the text of the seats is read back.
use brc100_poker.Base.{
  ◌≡◌, ◌≢◌, refl, sym, ap, ◌∙◌, List, [], ◌∷◌, ◌++◌, arith, Text, All, append_assoc, append-nil,
}
use brc100_poker.Ledger.{separator, encode_rest, encode_seats, decode_from, decode_seats}

-- A key without the separator.
abbrev pub IsKey : Text → Type 0
IsKey key = All (λ b. b ≢ separator) key

decode_from-key :
    (start key rest : Text)
    → IsKey key
    → decode_from start (key ++ rest) ≡ decode_from (start ++ key) rest
unfolding decode_from
decode_from-key start [] rest k = ap (λ t. decode_from t rest) (sym (append-nil start))
decode_from-key start (b ∷ key) rest k =
    let other : decode_from start (b ∷ (key ++ rest))
        ≡ decode_from (start ++ b ∷ []) (key ++ rest) =
      ground (arith, k.0) in
    other
    ∙ decode_from-key (start ++ b ∷ []) key rest k.1
    ∙ ap (λ t. decode_from t rest) (append_assoc start (b ∷ []) key)

decode_from-rest :
    (start : Text) (seats : List Text)
    → All IsKey seats
    → decode_from start (encode_rest seats) ≡ start ∷ seats
unfolding decode_from
decode_from-rest start [] k = refl
decode_from-rest start (s ∷ seats) k =
    let tail : decode_from [] (s ++ encode_rest seats) ≡ s ∷ seats =
      decode_from-key [] s (encode_rest seats) k.0 ∙ decode_from-rest s seats k.1 in
    ground (arith, tail)

-- The seats of a pot are read back from the text that they are recorded as, when no key holds a line
-- feed and they are not one empty key.
pub decode_seats-encode_seats :
    (seats : List Text)
    → All IsKey seats
    → seats ≢ [] ∷ []
    → decode_seats (encode_seats seats) ≡ seats
unfolding decode_seats
decode_seats-encode_seats [] k ne = refl
decode_seats-encode_seats ([] ∷ []) k ne = absurd (ne refl)
decode_seats-encode_seats ([] ∷ (s ∷ seats)) k ne = decode_from-rest [] (s ∷ seats) k.1
decode_seats-encode_seats ((b ∷ key) ∷ seats) k ne =
    decode_from-key [] (b ∷ key) (encode_rest seats) k.0 ∙ decode_from-rest (b ∷ key) seats k.1
