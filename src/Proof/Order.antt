-- ===== src/Proof/Order.antt =====
-- proof.go: the seed and the seats do not depend on the order in which the players are named.
use brc100_poker.Base.{
  ◌<◌, ◌≡◌, ◌≢◌, inl, inr, refl, sym, ap, subst, ◌∙◌, Bool, true, false, not, Bool-cases, none,
  List, [], ◌∷◌, arith, ltb, ◌==◌, if◌then◌else◌, Text, text_eq, text_eq_iff, text_ne, length, All,
  any,
}
use brc100_poker.Table.{is_empty}
use brc100_poker.MentalPoker.Masks.{Reordered}
use brc100_poker.Proof.Seats.{
  SeatReveal, ok, ltb_text, sort_by, before, joint_seed, score, seated_before, check_keys,
  assign_seats,
}
use brc100_poker.Proof.Sorting.{
  Ordered, IsTransitive, All-Reordered, Distinct, sort_by-Reordered, sort_by-moves,
  Distinct-AllOrdered, Reordered-length, Distinct-Reordered,
}

ltb_text_trans : (s t u : Text) → ltb_text s t ≡ true → ltb_text t u ≡ true → ltb_text s u ≡ true
ltb_text_trans [] [] u h k = absurd (cc h)
ltb_text_trans [] (b ∷ t) [] h k = absurd (cc k)
ltb_text_trans [] (b ∷ t) (c ∷ u) h k = refl
ltb_text_trans (a ∷ s) [] u h k = absurd (cc h)
ltb_text_trans (a ∷ s) (b ∷ t) [] h k = absurd (cc k)
ltb_text_trans (a ∷ s) (b ∷ t) (c ∷ u) h k = ground (arith, h, k, ltb_text_trans s t u)

ltb_text-Ordered : (s t : Text) → s ≢ t → Ordered ltb_text s t
ltb_text-Ordered [] [] ne = absurd (ne refl)
ltb_text-Ordered [] (b ∷ t) ne = inl (refl, refl)
ltb_text-Ordered (a ∷ s) [] ne = inr (refl, refl)
ltb_text-Ordered (a ∷ s) (b ∷ t) ne = elim (Bool-cases (a == b)) [
  | inl same ↦
      let tails : s ≢ t = λ e. ne (ground (arith, same, e)) in
      elim (ltb_text-Ordered s t tails) [
        | inl (h, k) ↦ inl (ground (arith, same, h), ground (arith, same, k))
        | inr (h, k) ↦ inr (ground (arith, same, h), ground (arith, same, k))
      ]
  | inr differ ↦ elim (Bool-cases (ltb a b)) [
    | inl less ↦ inl (ground (arith, less), ground (arith, less))
    | inr more ↦ inr (ground (arith, more, differ), ground (arith, more, differ))
  ]
]

text_eq-ne : (s t : Text) → s ≢ t → text_eq s t ≡ false
text_eq-ne s t ne = elim (Bool-cases (text_eq s t)) [
  | inl same ↦ absurd (ne ((text_eq_iff s t).0 same))
  | inr differ ↦ differ
]

-- A key that is not among those seen.
abbrev IsNew : List Text → Text → Type 0
IsNew seen k = any (text_eq k) seen ≡ false

check_keys-none :
    (keys seen : List Text)
    → All (λ k. is_empty k ≡ false) keys
    → Distinct (λ (k : Text). k) keys
    → All (IsNew seen) keys
    → check_keys keys seen ≡ none
unfolding check_keys
check_keys-none [] seen full d n = refl
check_keys-none (k ∷ keys) seen full d n =
    let rest = check_keys-none keys (k ∷ seen) full.1 d.1 (later keys d.0 n.1) in
    ground (arith, full.0, n.0, rest)
  where
    later : (js : List Text) → All (λ j. k ≢ j) js → All (IsNew seen) js → All (IsNew (k ∷ seen)) js
    later [] ne n' = tt
    later (j ∷ js) ne n' =
        let apart : text_eq j k ≡ false = text_eq-ne j k (λ e. ne.0 (sym e)) in
        (ground (arith, apart, n'.0), later js ne.1 n'.1)

all-IsNew : (keys : List Text) → All (IsNew []) keys
all-IsNew [] = tt
all-IsNew (k ∷ keys) = (refl, all-IsNew keys)

ltb_text_irrefl : (s : Text) → ltb_text s s ≡ false
ltb_text_irrefl [] = refl
ltb_text_irrefl (a ∷ s) = ground (arith, ltb_text_irrefl s)

-- The comparison of two pairs, by the first text and then by the second.
abbrev pair_before : Text → Text → Text → Text → Bool
pair_before p a q b = if not (text_eq p q) then ltb_text p q else ltb_text a b

pair_before-same : (p a q b : Text) → text_eq p q ≡ true → pair_before p a q b ≡ ltb_text a b
pair_before-same p a q b e = ap (λ t. if not t then ltb_text p q else ltb_text a b) e

pair_before-other : (p a q b : Text) → text_eq p q ≡ false → pair_before p a q b ≡ ltb_text p q
pair_before-other p a q b e = ap (λ t. if not t then ltb_text p q else ltb_text a b) e

pair_before_trans :
    (p a q b r x : Text)
    → pair_before p a q b ≡ true
    → pair_before q b r x ≡ true
    → pair_before p a r x ≡ true
pair_before_trans p a q b r x h k = elim (Bool-cases (text_eq p q)) [
  | inl pq ↦
      let e = (text_eq_iff p q).0 pq in
      elim (Bool-cases (text_eq q r)) [
        | inl qr ↦
            let pr : text_eq p r ≡ true = subst (λ t. text_eq t r ≡ true) (sym e) qr in
            pair_before-same p a r x pr
            ∙ ltb_text_trans a b x (sym (pair_before-same p a q b pq) ∙ h)
                (sym (pair_before-same q b r x qr) ∙ k)
        | inr qr ↦
            let pr : text_eq p r ≡ false = subst (λ t. text_eq t r ≡ false) (sym e) qr in
            pair_before-other p a r x pr
            ∙ subst (λ t. ltb_text t r ≡ true) (sym e) (sym (pair_before-other q b r x qr) ∙ k)
      ]
  | inr pq ↦
      let less : ltb_text p q ≡ true = sym (pair_before-other p a q b pq) ∙ h in
      elim (Bool-cases (text_eq q r)) [
        | inl qr ↦
            let e = (text_eq_iff q r).0 qr in
            pair_before-other p a r x (subst (λ t. text_eq p t ≡ false) e pq)
            ∙ subst (λ t. ltb_text p t ≡ true) e less
        | inr qr ↦
            let through = ltb_text_trans p q r less (sym (pair_before-other q b r x qr) ∙ k) in
            let ne : p ≢ r = λ e. absurd (
              ground
                (arith, subst (λ t. ltb_text p t ≡ true) (sym e) through, ltb_text_irrefl p)) in
            pair_before-other p a r x (text_eq-ne p r ne) ∙ through
      ]
]

module _ (sha : Text → Text) where
  seated_before_trans : (seed : Text) → IsTransitive (seated_before sha seed)
  seated_before_trans seed a b x h k =
      pair_before_trans (score sha seed a) a (score sha seed b) b (score sha seed x) x h k

  seated_before-Ordered : (seed j k : Text) → j ≢ k → Ordered (seated_before sha seed) j k
  seated_before-Ordered seed j k ne =
      let p = score sha seed j in
      let q = score sha seed k in
      elim (Bool-cases (text_eq p q)) [
        | inl same ↦
            let e = (text_eq_iff p q).0 same in
            let back : text_eq q p ≡ true = (text_eq_iff q p).1 (sym e) in
            elim (ltb_text-Ordered j k ne) [
              | inl (h, l) ↦
                  inl (pair_before-same p j q k same ∙ h, pair_before-same q k p j back ∙ l)
              | inr (h, l) ↦
                  inr (pair_before-same q k p j back ∙ h, pair_before-same p j q k same ∙ l)
            ]
        | inr differ ↦
            let back : text_eq q p ≡ false = text_eq-ne q p (λ e. text_ne p q differ (sym e)) in
            elim (ltb_text-Ordered p q (text_ne p q differ)) [
              | inl (h, l) ↦
                  inl (pair_before-other p j q k differ ∙ h, pair_before-other q k p j back ∙ l)
              | inr (h, l) ↦
                  inr (pair_before-other q k p j back ∙ h, pair_before-other p j q k differ ∙ l)
            ]
      ]

  -- When no two reveals have one identity key, the joint seed, or the error, is the same in whatever
  -- order the reveals arrive.
  pub joint_seed-Reordered :
      {reveals reveals' : List SeatReveal}
      → Reordered reveals reveals'
      → Distinct (λ (r : SeatReveal). r.identity_key) reveals
      → joint_seed sha reveals ≡ joint_seed sha reveals'
  unfolding joint_seed
  joint_seed-Reordered {reveals} {reveals'} r d =
      let same =
        sort_by-Reordered before
          (λ a b x h k. ltb_text_trans a.identity_key b.identity_key x.identity_key h k) r
          (Distinct-AllOrdered before
            (λ a b x h k. ltb_text_trans a.identity_key b.identity_key x.identity_key h k)
            (λ (r : SeatReveal). r.identity_key)
            (λ x y ne. ltb_text-Ordered x.identity_key y.identity_key ne) reveals d) in
      rw (same, Reordered-length r) refl

  -- Players whose keys are not empty and of whom no two have one key, in any order, are seated in the
  -- same order by a seed of 32 bytes, each of them once.
  pub assign_seats-Reordered :
      {keys keys' : List Text} (seed : Text)
      → Reordered keys keys'
      → 0 < length keys
      → length seed ≡ 32
      → All (λ k. is_empty k ≡ false) keys
      → Distinct (λ (k : Text). k) keys
      → (seats : List Text) × (assign_seats sha keys seed ≡ ok seats)
        × (assign_seats sha keys' seed ≡ ok seats)
        × Reordered keys seats
  unfolding assign_seats
  assign_seats-Reordered {keys} {keys'} seed r some_keys size full d =
      let less = seated_before sha seed in
      let ordered =
        Distinct-AllOrdered less (seated_before_trans seed) (λ (k : Text). k)
          (λ x y ne. seated_before-Ordered seed x y ne) keys d in
      let same = sort_by-Reordered less (seated_before_trans seed) r ordered in
      let fine : check_keys keys [] ≡ none = check_keys-none keys [] full d (all-IsNew keys) in
      let fine' : check_keys keys' [] ≡ none =
        check_keys-none keys' [] (All-Reordered (λ k. is_empty k ≡ false) r full)
          (Distinct-Reordered (λ (k : Text). k) r d) (all-IsNew keys') in
      let long = Reordered-length r in
      (
        sort_by less keys,
        ground (arith, fine, size, some_keys),
        ground (arith, fine', size, some_keys, long, same),
        sort_by-moves less (seated_before_trans seed) keys,
      )
