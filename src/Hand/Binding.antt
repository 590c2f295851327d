-- ===== src/Hand/Binding.antt =====
-- hand.go over proof.go: a commitment that was recorded for a seat stays, and binds the seat.
use brc100_poker.Base.{
  ◌^◌, ◌≤◌, ◌≡◌, ◌⊎◌, inl, inr, refl, sym, ap, subst, ◌∙◌, true, false, Bool-cases, Option-cases,
  none, some, List, [], ◌∷◌, arith, ℤ, pos, negsuc, eqb_ℤ, eqb_ℤ→eq, Text, text_eq_iff, length,
  some_eq,
}
use brc100_poker.MentalPoker.{Curve, Scalar}
use brc100_poker.MentalPoker.Deck.{Deck}
use brc100_poker.Proof.{verify_shuffle}
use brc100_poker.Proof.Binding.{Collide, verify_shuffle-binds}
use brc100_poker.Hand.{HandPlayer, fine, lookup}
use brc100_poker.Hand.Peers.{put, differs, record_peer_commitments, verify_peer_shuffle}

-- What a seat publishes: the seat, its shuffle commitment and its remask commitment.
pub record Published : Type 0 where
  pub seat : ℤ
  pub shuffle : Text
  pub remask : Text

-- A text that does not differ from a recorded one may be put: every key keeps what it had.
put-keeps :
    (m : List (ℤ × Text)) (k j : ℤ) (t old : Text)
    → differs k t m ≡ false
    → lookup j m ≡ some old
    → lookup j (put k t m) ≡ some old
put-keeps [] k j t old d e = absurd (cc e)
put-keeps ((i, u) ∷ m) k j t old d e = elim (Bool-cases (eqb_ℤ k i)) [
  | inl same ↦
      let key : k ≡ i = eqb_ℤ→eq k i same in
      let kept : u ≡ t = (text_eq_iff u t).0 (ground (arith, d, same)) in
      ground (arith, same, e, key, kept)
  | inr other ↦ elim (Bool-cases (eqb_ℤ j i)) [
    | inl here ↦ ground (arith, other, here, e)
    | inr further ↦
        let rest = put-keeps m k j t old (ground (arith, d, other)) (ground (arith, e, further)) in
        ground (arith, other, further, rest)
  ]
]

module _ (c : Curve) where
  -- The messages of `RecordPeerCommitments`, one after the other, whether accepted or not.
  abbrev pub record_all : List Published → HandPlayer c → HandPlayer c
  record_all [] h = h
  record_all (m ∷ ms) h = record_all ms (record_peer_commitments c h m.seat m.shuffle m.remask).0

  record_peer-keeps :
      (h : HandPlayer c) (k : ℤ) (shuffle remask : Text) (j : ℤ) (old : Text)
      → lookup j h.peer_shuffle_commit ≡ some old
      → lookup j (record_peer_commitments c h k shuffle remask).0.peer_shuffle_commit ≡ some old
  unfolding record_peer_commitments
  record_peer-keeps h (negsuc k) shuffle remask j old e = e
  record_peer-keeps h (pos k) shuffle remask j old e =
      elim (Bool-cases (differs (pos k) shuffle h.peer_shuffle_commit)) [
        | inl changed ↦ ground (arith, e, changed)
        | inr kept ↦
            let after = put-keeps h.peer_shuffle_commit (pos k) j shuffle old kept e in
            ground (arith, e, kept, after)
      ]

  record_peer-keeps_remask :
      (h : HandPlayer c) (k : ℤ) (shuffle remask : Text) (j : ℤ) (old : Text)
      → lookup j h.peer_remask_commit ≡ some old
      → lookup j (record_peer_commitments c h k shuffle remask).0.peer_remask_commit ≡ some old
  unfolding record_peer_commitments
  record_peer-keeps_remask h (negsuc k) shuffle remask j old e = e
  record_peer-keeps_remask h (pos k) shuffle remask j old e =
      elim (Bool-cases (differs (pos k) remask h.peer_remask_commit)) [
        | inl changed ↦ ground (arith, e, changed)
        | inr kept ↦
            let after = put-keeps h.peer_remask_commit (pos k) j remask old kept e in
            ground (arith, e, kept, after)
      ]

  record_peer-input :
      (h : HandPlayer c) (k : ℤ) (shuffle remask : Text)
      → (record_peer_commitments c h k shuffle remask).0.input_deck ≡ h.input_deck
  unfolding record_peer_commitments
  record_peer-input h (negsuc k) shuffle remask = refl
  record_peer-input h (pos k) shuffle remask = ground arith

  record_all-input :
      (ms : List Published) (h : HandPlayer c) → (record_all ms h).input_deck ≡ h.input_deck
  record_all-input [] h = refl
  record_all-input (m ∷ ms) h =
      record_all-input ms (record_peer_commitments c h m.seat m.shuffle m.remask).0
      ∙ record_peer-input h m.seat m.shuffle m.remask

  -- A seat's recorded commitments stay through any messages that publish commitments, for any seats.
  pub record_all-keeps :
      (ms : List Published) (h : HandPlayer c) (k : ℤ) (shuffle remask : Text)
      → lookup k h.peer_shuffle_commit ≡ some shuffle
      → lookup k h.peer_remask_commit ≡ some remask
      → (lookup k (record_all ms h).peer_shuffle_commit ≡ some shuffle)
        × (lookup k (record_all ms h).peer_remask_commit ≡ some remask)
  record_all-keeps [] h k shuffle remask es er = (es, er)
  record_all-keeps (m ∷ ms) h k shuffle remask es er =
      record_all-keeps ms (record_peer_commitments c h m.seat m.shuffle m.remask).0 k shuffle remask
        (record_peer-keeps h m.seat m.shuffle m.remask k shuffle es)
        (record_peer-keeps_remask h m.seat m.shuffle m.remask k remask er)

  record_all-keeps_shuffle :
      (ms : List Published) (h : HandPlayer c) (k : ℤ) (shuffle : Text)
      → lookup k h.peer_shuffle_commit ≡ some shuffle
      → lookup k (record_all ms h).peer_shuffle_commit ≡ some shuffle
  record_all-keeps_shuffle [] h k shuffle e = e
  record_all-keeps_shuffle (m ∷ ms) h k shuffle e =
      record_all-keeps_shuffle ms (record_peer_commitments c h m.seat m.shuffle m.remask).0 k
        shuffle (record_peer-keeps h m.seat m.shuffle m.remask k shuffle e)

module _ (c : Curve) (sha : Text → Text) where
  verify_peer-accepted :
      (h : HandPlayer c) (k : ℤ) (g : Scalar) (p : List ℤ) (out input : Deck c)
      → lookup k h.input_deck ≡ some input
      → verify_peer_shuffle c sha h k g p out ≡ fine tt
      → (commitment : Text) × (lookup k h.peer_shuffle_commit ≡ some commitment)
        × (verify_shuffle c sha input out g p commitment ≡ none)
  unfolding verify_peer_shuffle
  verify_peer-accepted h k g p out input i e =
      elim (Option-cases (lookup k h.peer_shuffle_commit)) [
        | inl missing ↦ absurd (ground (arith, e, missing))
        | inr (commitment, found) ↦
            elim (Option-cases (verify_shuffle c sha input out g p commitment)) [
              | inl accepted ↦ (commitment, found, accepted)
              | inr (why, bad) ↦ absurd (ground (arith, e, found, i, bad))
            ]
      ]

  -- Let a seat's input deck of at most `2 ^ 32` cards be recorded, and let the order of the curve fit
  -- in 32 bytes and its equality of coordinates be exact. If an opening of that seat's shuffle is
  -- accepted, and another one after any messages that publish commitments, then both openings have
  -- the same scalar, permutation and claimed output, or the texts hashed for them differ and have
  -- the same hash.
  pub verify_peer_shuffle-binds :
      (ms : List Published) (h : HandPlayer c) (k : ℤ) (input out1 out2 : Deck c) (g1 g2 : Scalar)
      (p1 p2 : List ℤ)
      → ((p q : c.Coords) → c.coords_eq p q ≡ true → p ≡ q)
      → c.order ≤ 256 ^ 32
      → lookup k h.input_deck ≡ some input
      → length input ≤ 2 ^ 32
      → verify_peer_shuffle c sha h k g1 p1 out1 ≡ fine tt
      → verify_peer_shuffle c sha (record_all c ms h) k g2 p2 out2 ≡ fine tt
      → ((g1 ≡ g2) × (p1 ≡ p2) × (out1 ≡ out2)) ⊎ Collide c sha g1 p1 g2 p2
  verify_peer_shuffle-binds ms h k input out1 out2 g1 g2 p1 p2 exact small i size e1 e2 =
      let later = record_all c ms h in
      let (c1, f1, a1) = verify_peer-accepted h k g1 p1 out1 input i e1 in
      let (c2, f2, a2) =
        verify_peer-accepted later k g2 p2 out2 input (ap (lookup k) (record_all-input c ms h) ∙ i)
          e2 in
      let same : c1 ≡ c2 = some_eq (sym (record_all-keeps_shuffle c ms h k c1 f1) ∙ f2) in
      verify_shuffle-binds c sha input out1 out2 g1 g2 p1 p2 c2 exact small size
        (subst (λ t. verify_shuffle c sha input out1 g1 p1 t ≡ none) same a1) a2
