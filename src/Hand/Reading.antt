-- ===== src/Hand/Reading.antt =====
-- hand.go: `Card` at a seat that holds the dealt deck.
use brc100_poker.Base.{
  ℕ, zero, suc, ◌+◌, ◌/◌, ◌%◌, ◌<◌, ◌≤◌, ◌≡◌, ◌≢◌, ◌⊎◌, inl, inr, refl, sym, ap, subst, ◌∙◌,
  Bool-cases, Option-cases, none, some, List, [], ◌∷◌, map, arith, ◌==◌, ℤ, pos, length, get_elem?,
  get_elem?-map-some, All, All-get_elem?, some_eq,
}
use brc100_poker.Cards.{Card, from_index}
use brc100_poker.MentalPoker.{Curve, IsGroup, Scalar, Result, ok, err, Fault}
use brc100_poker.MentalPoker.Deck.{unmask_at, card_index_of}
use brc100_poker.MentalPoker.Masks.{Reordered, done, keep, swap, chain}
use brc100_poker.MentalPoker.Shuffles.{get_elem?-in}
use brc100_poker.MentalPoker.Deals.{Secrets, entry, entry-some, place, column, deal, read, IsFair}
use brc100_poker.MentalPoker.Reads.{deal-reads_each_card}
use brc100_poker.Hand.{
  HandPlayer, HandError, Reply, fine, failed, disclosed_by, others, show, own_scalar, card,
}

ok_eq {ℓ} : {A : Type ℓ} {a b : A} → ok a ≡ ok b → a ≡ b
ok_eq e = cc

-- A list without its entry at an index.
abbrev without : List ℕ → ℕ → List ℕ
without [] j = []
without (d ∷ ds) zero = ds
without (d ∷ ds) (suc j) = d ∷ without ds j

same_order : (ds : List ℕ) → Reordered ds ds
same_order [] = done
same_order (d ∷ ds) = keep d (same_order ds)

to_front : (ds : List ℕ) (j d : ℕ) → get_elem? ds j ≡ some d → Reordered ds (d ∷ without ds j)
to_front [] j d e = absurd (cc e)
to_front (a ∷ ds) zero d e =
    subst (λ x. Reordered (a ∷ ds) (x ∷ ds)) (some_eq e) (same_order (a ∷ ds))
to_front (a ∷ ds) (suc j) d e = chain (keep a (to_front ds j d e)) (swap a d (without ds j))

column-at :
    (seats : List Secrets) (q j : ℕ) {s : Secrets}
    → get_elem? seats j ≡ some s
    → get_elem? (column seats q) j ≡ some (entry s.per_position q)
column-at [] q j e = absurd (cc e)
column-at (s ∷ seats) q zero e =
    ap (λ o. elim o [ none ↦ none | some x ↦ some (entry x.per_position q) ]) e
column-at (s ∷ seats) q (suc j) e = column-at seats q j e

module _ (c : Curve) where
  -- The seats from seat `s` on, but this one, have disclosed position `q`.
  abbrev pub HasDisclosed : HandPlayer c → List Secrets → ℕ → ℕ → Type 0
  HasDisclosed h seats s q =
      (j : ℕ) (x : Secrets)
      → get_elem? seats j ≡ some x
      → s + j ≢ h.seat
      → disclosed_by (pos q) (pos (s + j)) h.disclosed ≡ some (some (entry x.per_position q))

  HasDisclosed-rest :
      (h : HandPlayer c) (x : Secrets) (seats : List Secrets) (s q : ℕ)
      → HasDisclosed h (x ∷ seats) s q
      → HasDisclosed h seats (suc s) q
  HasDisclosed-rest h x seats s q d j y e ne =
      let same : suc s + j ≡ s + suc j = omega arith in
      ap (λ n. disclosed_by (pos q) (pos n) h.disclosed) same ∙ d (suc j) y e (omega (arith, ne))

  HasDisclosed-first :
      (h : HandPlayer c) (x : Secrets) (seats : List Secrets) (s q : ℕ)
      → HasDisclosed h (x ∷ seats) s q
      → s ≢ h.seat
      → disclosed_by (pos q) (pos s) h.disclosed ≡ some (some (entry x.per_position q))
  HasDisclosed-first h x seats s q d ne =
      let same : s ≡ s + 0 = omega arith in
      ap (λ n. disclosed_by (pos q) (pos n) h.disclosed) same ∙ d 0 x refl (omega (arith, ne))

  others-past :
      (h : HandPlayer c) (seats : List Secrets) (s q : ℕ)
      → h.seat < s
      → HasDisclosed h seats s q
      → others c h (pos q) s (length seats) ≡ fine (map some (column seats q))
  unfolding others
  others-past h [] s q past d = refl
  others-past h (x ∷ seats) s q past d =
      let rest =
        others-past h seats (suc s) q (omega (arith, past)) (HasDisclosed-rest h x seats s q d) in
      let here : disclosed_by (pos q) (pos s) h.disclosed ≡ some (some (entry x.per_position q)) =
        HasDisclosed-first h x seats s q d (omega (arith, past)) in
      ground (arith, rest, here, past)

  others-skip :
      (h : HandPlayer c) (seats : List Secrets) (s j q : ℕ)
      → h.seat ≡ s + j
      → j < length seats
      → HasDisclosed h seats s q
      → others c h (pos q) s (length seats) ≡ fine (map some (without (column seats q) j))
  unfolding others
  others-skip h [] s j q at_j small d = elim small [ ]
  others-skip h (x ∷ seats) s zero q at_j small d =
      let rest =
        others-past h seats (suc s) q (omega (arith, at_j)) (HasDisclosed-rest h x seats s q d) in
      ground (arith, rest, at_j)
  others-skip h (x ∷ seats) s (suc j) q at_j small d =
      let rest =
        others-skip h seats (suc s) j q (omega (arith, at_j)) (omega (arith, small))
          (HasDisclosed-rest h x seats s q d) in
      let here : disclosed_by (pos q) (pos s) h.disclosed ≡ some (some (entry x.per_position q)) =
        HasDisclosed-first h x seats s q d (omega (arith, at_j)) in
      ground (arith, rest, here, at_j)

  Result-cases {ℓ} :
      {A : Type ℓ} (r : Result A) → ((a : A) × (r ≡ ok a)) ⊎ ((e : Fault) × (r ≡ err e))
  Result-cases (ok a) = inl (a, refl)
  Result-cases (err e) = inr (e, refl)

  from_index-some : (i : ℕ) → i < 52 → (x : Card) × (from_index (pos i) ≡ some x)
  unfolding from_index
  from_index-some i h = (record { rank = i / 4 + 2; suit = i % 4 }, ground (arith, h))

  show-reads :
      (h : HandPlayer c) (q i : ℕ) (es : List ℕ) (x : Card)
      → read c h.deck q es h.deck_size ≡ ok i
      → from_index (pos i) ≡ some x
      → show c h (pos q) (map some es) ≡ fine x
  unfolding show read
  show-reads h q i es x e known = elim (Result-cases (unmask_at c h.deck (pos q) (map some es))) [
    | inl (p, bare) ↦
        let index : card_index_of c p h.deck_size ≡ ok i = ground (arith, e, bare) in
        ground (arith, bare, index, known)
    | inr (why, bad) ↦ absurd (ground (arith, e, bad))
  ]

  Reply-cases {ℓ} :
      {A : Type ℓ} (r : Reply A) → ((a : A) × (r ≡ fine a)) ⊎ ((e : HandError) × (r ≡ failed e))
  Reply-cases (fine a) = inl (a, refl)
  Reply-cases (failed e) = inr (e, refl)

  others-disclosed :
      (h : HandPlayer c) (q : ℤ) (s m j : ℕ) (xs : List Scalar)
      → others c h q s m ≡ fine xs
      → s ≤ j
      → j < s + m
      → j ≢ h.seat
      → (x : Scalar) × (disclosed_by q (pos j) h.disclosed ≡ some x)
  unfolding others
  others-disclosed h q s zero j xs e low high ne = absurd (omega (arith, low, high))
  others-disclosed h q s (suc m) j xs e low high ne =
      elim (Option-cases (disclosed_by q (pos j) h.disclosed)) [
        | inr found ↦ found
        | inl missing ↦ elim (Reply-cases (others c h q (suc s) m)) [
          | inr (why, bad) ↦ elim (Option-cases (disclosed_by q (pos s) h.disclosed)) [
            | inl absent ↦ absurd (ground (arith, e, bad, absent))
            | inr (y, present) ↦ absurd (ground (arith, e, bad, present))
          ]
          | inl (ys, rest) ↦ elim (Bool-cases (s == j)) [
            | inl here ↦ absurd (ground (arith, e, missing, here, ne))
            | inr further ↦
                others-disclosed h q (suc s) m j ys rest (ground (arith, low, further))
                  (omega (arith, high)) ne
          ]
        ]
      ]

  -- If `Card` gives a card, then every other seat has disclosed a scalar for the position.
  pub card-needs_all :
      (h : HandPlayer c) (q : ℤ) (x : Card) (j : ℕ)
      → card c h q ≡ fine x
      → j < h.seats
      → j ≢ h.seat
      → (s : Scalar) × (disclosed_by q (pos j) h.disclosed ≡ some s)
  unfolding card
  card-needs_all h q x j e high ne = elim (Reply-cases (others c h q 0 h.seats)) [
    | inl (xs, gathered) ↦
        others-disclosed h q 0 h.seats j xs gathered (omega arith) (omega (arith, high)) ne
    | inr (why, bad) ↦ elim (Option-cases (own_scalar c h q)) [
      | inl outside ↦ absurd (ground (arith, e, outside))
      | inr (own, known) ↦ absurd (ground (arith, e, known, bad))
    ]
  ]

module _ (c : Curve) (g : IsGroup c) where
  -- Let fair seats have dealt a deck of at most 52 cards, fewer than the order of the curve, and let a
  -- player at one of the seats hold that deck and its own scalars. Once every other seat has disclosed
  -- its scalar for the position where card `i` ended, `Card` at that position gives card `i`.
  pub card-reads_dealt :
      (n i k : ℕ) (seats : List Secrets) (own : Secrets) (h : HandPlayer c)
      → All (IsFair c g n) seats
      → n < c.order
      → n ≤ 52
      → i < n
      → get_elem? seats k ≡ some own
      → h.seat ≡ k
      → h.seats ≡ length seats
      → h.deck_size ≡ n
      → h.per_position ≡ map some own.per_position
      → deal c seats n ≡ ok h.deck
      → HasDisclosed c h seats 0 (place seats i)
      → (x : Card) × (from_index (pos i) ≡ some x) × (card c h (pos (place seats i)) ≡ fine x)
  unfolding card
  card-reads_dealt n i k seats own h f high full small mine at_k all size scalars dealt disclosed =
      let q = place seats i in
      let t = entry own.per_position q in
      let es = t ∷ without (column seats q) k in
      let fair : length own.per_position ≡ n =
        (All-get_elem? (IsFair c g n) k seats mine f).one_each in
      let order = to_front (column seats q) k t (column-at seats q k mine) in
      let (d, done', long, lt, shown) =
        deal-reads_each_card c g n i seats es f (omega (arith, small)) high small order in
      let same : d ≡ h.deck = ok_eq (sym done' ∙ dealt) in
      let known : own_scalar c h (pos q) ≡ some (some t) =
        ap (λ ns. get_elem? ns q) scalars
        ∙ get_elem?-map-some own.per_position q
            (entry-some own.per_position q (omega (arith, lt, fair))) in
      let gathered : others c h (pos q) 0 h.seats ≡ fine (map some (without (column seats q) k)) =
        ap (others c h (pos q) 0) all
        ∙ others-skip c h seats 0 k q (omega (arith, at_k)) (get_elem?-in seats k mine) disclosed in
      let readable : read c h.deck q es h.deck_size ≡ ok i =
        subst (λ m. read c h.deck q es m ≡ ok i) (sym size)
          (subst (λ e. read c e q es n ≡ ok i) same shown) in
      let sized : length h.deck ≡ n = subst (λ e. length e ≡ n) same long in
      let (x, named) = from_index-some c i (omega (arith, small, full)) in
      let final = show-reads c h q i es x readable named in
      (x, named, ground (arith, known, gathered, final, sized, small))
