-- ===== src/Proof/Binding.antt =====
-- proof.go: a published commitment leaves a player one pass over the deck.
use brc100_poker.Base.{
  ℕ, ◌^◌, ◌<◌, ◌≤◌, ◌≡◌, ◌≢◌, ◌⊎◌, inl, inr, refl, sym, ap, subst, ◌∙◌, Bool, true, false,
  Bool-cases, Option-cases, text_eq_refl, none, some, List, [], ◌∷◌, map, arith, ℤ, pos, negsuc,
  Text, text_eq, text_eq_iff, text_ne, length, All-map, set,
}
use brc100_poker.MentalPoker.{
  Curve, Scalar, Fault, Result, ok, err, scalar_valid, point_equal, scalar_bytes,
}
use brc100_poker.MentalPoker.Deck.{
  Deck, deck_equal, validate_from, validate_permutation, replicate, shuffle_step,
}
use brc100_poker.MentalPoker.Permutations.{IsPermutation, validate_permutation-IsPermutation}
use brc100_poker.Proof.{
  stream, encode_perm, domain_shuffle, committed, commit_shuffle, check_shuffle, verify_shuffle,
}
use brc100_poker.Proof.Fields.{
  IsShort, IsUint32, length-big_endian, big_endian-injective, stream-injective, length-encode_perm,
  encode_perm-injective,
}

Result-cases {ℓ} :
    {A : Type ℓ} (r : Result A) → ((a : A) × (r ≡ ok a)) ⊎ ((e : Fault) × (r ≡ err e))
Result-cases (ok a) = inl (a, refl)
Result-cases (err e) = inr (e, refl)

-- The entries of a permutation that was accepted are not negative.
validate_from-pos :
    (n : ℕ) (perm : List ℤ) (seen : List Bool)
    → validate_from n perm seen ≡ none
    → (vs : List ℕ) × (perm ≡ map pos vs)
unfolding validate_from
validate_from-pos n [] seen e = ([], refl)
validate_from-pos n (negsuc v ∷ perm) seen e = absurd (cc e)
validate_from-pos n (pos v ∷ perm) seen e =
    let (vs, same) = validate_from-pos n perm (set seen v true) (ground (arith, e)) in
    (v ∷ vs, ap (λ rest. pos v ∷ rest) same)

accepted_perm :
    (n : ℕ) (perm : List ℤ)
    → validate_permutation perm n ≡ none
    → (vs : List ℕ) × (perm ≡ map pos vs) × IsPermutation vs n
unfolding validate_permutation
accepted_perm n perm e =
    let (vs, same) = validate_from-pos n perm (replicate n false) (ground (arith, e)) in
    (
      vs,
      same,
      validate_permutation-IsPermutation vs n (subst (λ p. validate_permutation p n ≡ none) same e),
    )

accepted_size : (p : List ℤ) (n : ℕ) → validate_permutation p n ≡ none → length p ≡ n
unfolding validate_permutation
accepted_size p n e = ground (arith, e)

module _ (c : Curve) (sha : Text → Text) where
  abbrev pub shuffle_stream : Scalar → List ℤ → Text
  shuffle_stream global perm = stream (domain_shuffle ∷ scalar_bytes global ∷ encode_perm perm ∷ [])

  -- Two openings whose streams differ and have one hash.
  abbrev pub Collide : Scalar → List ℤ → Scalar → List ℤ → Type 0
  Collide g1 p1 g2 p2 =
      (shuffle_stream g1 p1 ≢ shuffle_stream g2 p2)
      × (sha (shuffle_stream g1 p1) ≡ sha (shuffle_stream g2 p2))

  -- What an accepted opening has shown.
  pub record IsOpened (input claimed : Deck c) (global : Scalar) (perm : List ℤ) (commitment : Text)
      : Type 0 where
    pub valid : scalar_valid c global ≡ true
    pub hashed : sha (shuffle_stream global perm) ≡ commitment
    pub shuffles : validate_permutation perm (length input) ≡ none
    pub output : Deck c
    pub recomputed : shuffle_step c input global perm ≡ ok output
    pub same : deck_equal c output claimed ≡ true

  verify_shuffle-IsOpened :
      (input claimed : Deck c) (global : Scalar) (perm : List ℤ) (commitment : Text)
      → verify_shuffle c sha input claimed global perm commitment ≡ none
      → IsOpened input claimed global perm commitment
  unfolding verify_shuffle commit_shuffle check_shuffle
  verify_shuffle-IsOpened input claimed global perm commitment e =
      elim (Result-cases (shuffle_step c input global perm)) [
        | inr (fault, bad) ↦ absurd (ground (arith, e, bad))
        | inl (out, good) ↦ record {
          valid = ground (arith, e);
          hashed =
              (text_eq_iff (sha (shuffle_stream global perm)) commitment).0 (ground (arith, e));
          shuffles = ground (arith, e);
          output = out;
          recomputed = good;
          same = ground (arith, e, good);
        }
      ]

  deck_equal-eq :
      ((p q : c.Coords) → c.coords_eq p q ≡ true → p ≡ q)
      → (d e : Deck c) → deck_equal c d e ≡ true
      → d ≡ e
  unfolding deck_equal point_equal
  deck_equal-eq exact [] [] h = refl
  deck_equal-eq exact [] (q ∷ e) h = absurd (cc h)
  deck_equal-eq exact (p ∷ d) [] h = absurd (cc h)
  deck_equal-eq exact (none ∷ d) (none ∷ e) h = ap (λ r. none ∷ r) (deck_equal-eq exact d e h)
  deck_equal-eq exact (none ∷ d) (some q ∷ e) h = absurd (cc h)
  deck_equal-eq exact (some p ∷ d) (none ∷ e) h = absurd (cc h)
  deck_equal-eq exact (some p ∷ d) (some q ∷ e) h =
      let here = exact p q (ground (arith, h)) in
      let rest = deck_equal-eq exact d e (ground (arith, h)) in cc

  -- Accepted openings that were hashed alike are alike, or they are a collision.
  streams-cases :
      (g1 g2 : Scalar) (p1 p2 : List ℤ)
      → sha (shuffle_stream g1 p1) ≡ sha (shuffle_stream g2 p2)
      → (shuffle_stream g1 p1 ≡ shuffle_stream g2 p2) ⊎ Collide g1 p1 g2 p2
  streams-cases g1 g2 p1 p2 e =
      elim (Bool-cases (text_eq (shuffle_stream g1 p1) (shuffle_stream g2 p2))) [
        | inl same ↦ inl ((text_eq_iff (shuffle_stream g1 p1) (shuffle_stream g2 p2)).0 same)
        | inr differ ↦ inr (text_ne (shuffle_stream g1 p1) (shuffle_stream g2 p2) differ, e)
      ]

  scalar_bytes-injective :
      (g1 g2 : Scalar)
      → c.order ≤ 256 ^ 32
      → scalar_valid c g1 ≡ true
      → scalar_valid c g2 ≡ true
      → scalar_bytes g1 ≡ scalar_bytes g2
      → g1 ≡ g2
  scalar_bytes-injective none g2 o v1 v2 e = absurd (cc v1)
  scalar_bytes-injective (some a) none o v1 v2 e = absurd (cc v2)
  scalar_bytes-injective (some a) (some b) o v1 v2 e =
      ap some (big_endian-injective 32 a b (ground (arith, o, v1)) (ground (arith, o, v2)) e)

  scalar_bytes-IsShort : (s : Scalar) → IsShort (scalar_bytes s)
  scalar_bytes-IsShort none = omega arith
  scalar_bytes-IsShort (some d) = omega (arith, length-big_endian 32 d)

  stream_fields :
      (g1 g2 : Scalar) (p1 p2 : List ℤ)
      → length p1 ≤ 2 ^ 32
      → length p2 ≤ 2 ^ 32
      → shuffle_stream g1 p1 ≡ shuffle_stream g2 p2
      → (scalar_bytes g1 ≡ scalar_bytes g2) × (encode_perm p1 ≡ encode_perm p2)
  stream_fields g1 g2 p1 p2 l1 l2 e =
      let s1 : IsShort (encode_perm p1) = omega (arith, l1, length-encode_perm p1) in
      let s2 : IsShort (encode_perm p2) = omega (arith, l2, length-encode_perm p2) in
      let same =
        stream-injective (domain_shuffle ∷ scalar_bytes g1 ∷ encode_perm p1 ∷ [])
          (domain_shuffle ∷ scalar_bytes g2 ∷ encode_perm p2 ∷ [])
          (omega arith, (scalar_bytes-IsShort g1, (s1, tt)))
          (omega arith, (scalar_bytes-IsShort g2, (s2, tt))) e in
      (cc, cc)

  accepted_length :
      (input : Deck c) {out : Deck c} {g : Scalar} {p : List ℤ} {commitment : Text}
      → length input ≤ 2 ^ 32
      → IsOpened input out g p commitment
      → length p ≤ 2 ^ 32
  accepted_length input {p = p} size o =
      omega (arith, accepted_size p (length input) o.shuffles, size)

  accepted_perms :
      (input : Deck c) {out1 out2 : Deck c} (g1 g2 : Scalar) {p1 p2 : List ℤ} {c1 c2 : Text}
      → length input ≤ 2 ^ 32
      → IsOpened input out1 g1 p1 c1
      → IsOpened input out2 g2 p2 c2
      → encode_perm p1 ≡ encode_perm p2
      → p1 ≡ p2
  accepted_perms input g1 g2 {p1} {p2} size o1 o2 e =
      let (vs, pos1, perm1) = accepted_perm (length input) p1 o1.shuffles in
      let (ws, pos2, perm2) = accepted_perm (length input) p2 o2.shuffles in
      let bounded : (v : ℕ) → v < length input → IsUint32 v = λ v h. omega (arith, h, size) in
      let coded : encode_perm (map pos vs) ≡ encode_perm (map pos ws) =
        ap encode_perm (sym pos1) ∙ e ∙ ap encode_perm pos2 in
      let same =
        encode_perm-injective vs ws (All-map bounded vs perm1.entries)
          (All-map bounded ws perm2.entries) coded in
      pos1 ∙ ap (map pos) same ∙ sym pos2

  outputs :
      {input out1 out2 : Deck c} {g1 g2 : Scalar} {p1 p2 : List ℤ} {c1 c2 : Text}
      → ((p q : c.Coords) → c.coords_eq p q ≡ true → p ≡ q)
      → IsOpened input out1 g1 p1 c1
      → IsOpened input out2 g2 p2 c2
      → g1 ≡ g2
      → p1 ≡ p2
      → out1 ≡ out2
  outputs {out1 = out1} {out2} exact o1 o2 g p =
      let left : o1.output ≡ out1 = deck_equal-eq exact o1.output out1 o1.same in
      let right : o2.output ≡ out2 = deck_equal-eq exact o2.output out2 o2.same in
      let first = o1.recomputed in let second = o2.recomputed in cc

  -- If two openings were accepted against one commitment for one input of at most `2 ^ 32` cards, on
  -- a curve whose order fits in 32 bytes and whose equality of coordinates is exact, then they have
  -- the same scalar, the same permutation and the same claimed output, or the texts hashed
  -- for them differ and have the same hash.
  pub verify_shuffle-binds :
      (input out1 out2 : Deck c) (g1 g2 : Scalar) (p1 p2 : List ℤ) (commitment : Text)
      → ((p q : c.Coords) → c.coords_eq p q ≡ true → p ≡ q)
      → c.order ≤ 256 ^ 32
      → length input ≤ 2 ^ 32
      → verify_shuffle c sha input out1 g1 p1 commitment ≡ none
      → verify_shuffle c sha input out2 g2 p2 commitment ≡ none
      → ((g1 ≡ g2) × (p1 ≡ p2) × (out1 ≡ out2)) ⊎ Collide g1 p1 g2 p2
  verify_shuffle-binds input out1 out2 g1 g2 p1 p2 commitment exact small size e1 e2 =
      let o1 = verify_shuffle-IsOpened input out1 g1 p1 commitment e1 in
      let o2 = verify_shuffle-IsOpened input out2 g2 p2 commitment e2 in
      elim (streams-cases g1 g2 p1 p2 (o1.hashed ∙ sym o2.hashed)) [
        | inr collision ↦ inr collision
        | inl streams ↦
            let (scalars, perms) =
              stream_fields g1 g2 p1 p2 (accepted_length input size o1)
                (accepted_length input size o2) streams in
            let same_global = scalar_bytes-injective g1 g2 small o1.valid o2.valid scalars in
            let same_perm : p1 ≡ p2 = accepted_perms input g1 g2 size o1 o2 perms in
            inl (same_global, same_perm, outputs exact o1 o2 same_global same_perm)
      ]

  deck_equal_refl :
      ((p : c.Coords) → c.coords_eq p p ≡ true) → (d : Deck c) → deck_equal c d d ≡ true
  unfolding deck_equal point_equal
  deck_equal_refl same [] = refl
  deck_equal_refl same (none ∷ d) = deck_equal_refl same d
  deck_equal_refl same (some p ∷ d) = ground (arith, same p, deck_equal_refl same d)

  shuffle_step-guards :
      (input : Deck c) (g : Scalar) (p : List ℤ) {out : Deck c}
      → shuffle_step c input g p ≡ ok out
      → (scalar_valid c g ≡ true) × (validate_permutation p (length input) ≡ none)
  unfolding shuffle_step
  shuffle_step-guards input g p e = elim (Option-cases (validate_permutation p (length input))) [
    | inl fine ↦ (ground (arith, e), fine)
    | inr (fault, bad) ↦ absurd (ground (arith, e, bad))
  ]

  -- If a shuffle step on a deck with cards succeeds, and equal coordinates test equal, then the seat
  -- can commit to the step, and the check of its opening against that commitment accepts the deck
  -- that the step gave.
  pub verify_shuffle-honest :
      (input out : Deck c) (g : Scalar) (p : List ℤ)
      → ((q : c.Coords) → c.coords_eq q q ≡ true)
      → 0 < length input
      → shuffle_step c input g p ≡ ok out
      → (commitment : Text) × (commit_shuffle c sha g p ≡ committed commitment)
        × (verify_shuffle c sha input out g p commitment ≡ none)
  unfolding verify_shuffle commit_shuffle check_shuffle
  verify_shuffle-honest input out g p exact long done =
      let (valid, shuffles) = shuffle_step-guards input g p done in
      let same = deck_equal_refl exact out in
      let hash = sha (shuffle_stream g p) in
      let sized : length p ≡ length input = accepted_size p (length input) shuffles in
      let committing : commit_shuffle c sha g p ≡ committed hash =
        ground (arith, valid, sized, long) in
      (hash, committing, ground (arith, committing, text_eq_refl hash, shuffles, done, same))
