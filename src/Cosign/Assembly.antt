-- ===== src/Cosign/Assembly.antt =====
-- pot.go: the order in which signatures arrive does not change what `Assemble` builds.
use brc100_poker.Base.{
  ℕ, zero, suc, ◌<◌, ◌≤◌, ◌≡◌, ◌≢◌, ◌⊎◌, inl, inr, refl, sym, ap, subst, ◌∙◌, false, Option, none,
  some, List, [], ◌∷◌, arith, ℤ, pos, negsuc, Text, length, set,
}
use brc100_poker.Table.{is_empty}
use brc100_poker.MentalPoker.Deck.{replicate}
use brc100_poker.MentalPoker.Permutations.{length-replicate}
use brc100_poker.MentalPoker.Shuffles.{length-set}
use brc100_poker.MentalPoker.Masks.{Reordered, done, keep, swap, chain}
use brc100_poker.Cosign.Pot.{
  Sdk, Signature, PotError, Result, ok, err, is_taken, place_at, place_all, assemble,
}

set_comm {ℓ} :
    {A : Type ℓ} (xs : List A) (i j : ℕ) (a b : A)
    → i ≢ j
    → set (set xs i a) j b ≡ set (set xs j b) i a
set_comm [] i j a b ne = refl
set_comm (x ∷ xs) zero zero a b ne = absurd (ne refl)
set_comm (x ∷ xs) zero (suc j) a b ne = refl
set_comm (x ∷ xs) (suc i) zero a b ne = refl
set_comm (x ∷ xs) (suc i) (suc j) a b ne =
    ap (λ ys. x ∷ ys) (set_comm xs i j a b (λ e. ne (ap suc e)))

Reordered-length {ℓ} : {A : Type ℓ} {xs ys : List A} → Reordered xs ys → length xs ≡ length ys
Reordered-length done = refl
Reordered-length (keep a r) = ap suc (Reordered-length r)
Reordered-length (swap a b xs) = refl
Reordered-length (chain r q) = Reordered-length r ∙ Reordered-length q

module _ (sdk : Sdk) where
  is_taken-set :
      (ordered : List (Option Text)) (i j : ℕ) (der : Text)
      → is_taken sdk (set ordered i (some der)) j ≡ false
      → (is_taken sdk ordered j ≡ false) × ((j < length ordered) → i ≢ j)
  is_taken-set [] i j der e = (refl, (λ h. elim h [ ]))
  is_taken-set (o ∷ ordered) zero zero der e = absurd (cc e)
  is_taken-set (o ∷ ordered) zero (suc j) der e = (e, (λ h. omega arith))
  is_taken-set (o ∷ ordered) (suc i) zero der e = (e, (λ h. omega arith))
  is_taken-set (o ∷ ordered) (suc i) (suc j) der e =
      let (free, apart) = is_taken-set ordered i j der e in
      (free, (λ h same. apart (omega (arith, h)) (omega (arith, same))))

  is_taken-set_other :
      (ordered : List (Option Text)) (i j : ℕ) (der : Text)
      → i ≢ j
      → is_taken sdk (set ordered i (some der)) j ≡ is_taken sdk ordered j
  is_taken-set_other [] i j der ne = refl
  is_taken-set_other (o ∷ ordered) zero zero der ne = absurd (ne refl)
  is_taken-set_other (o ∷ ordered) zero (suc j) der ne = refl
  is_taken-set_other (o ∷ ordered) (suc i) zero der ne = refl
  is_taken-set_other (o ∷ ordered) (suc i) (suc j) der ne =
      is_taken-set_other ordered i j der (λ e. ne (ap suc e))

  Result-cases {ℓ} :
      {A : Type ℓ} (r : Result A) → ((a : A) × (r ≡ ok a)) ⊎ ((e : PotError) × (r ≡ err e))
  Result-cases (ok a) = inl (a, refl)
  Result-cases (err e) = inr (e, refl)

  -- A first signature that was placed.
  pub record IsPlaced (seats : ℕ) (s : Signature) (sigs : List Signature)
      (ordered out : List (Option Text)) : Type 0 where
    pub seat : ℕ
    pub at_seat : s.seat ≡ pos seat
    pub small : seat < seats
    pub free : is_taken sdk ordered seat ≡ false
    pub nonempty : is_empty s.der ≡ false
    pub rest : place_all sdk seats sigs (set ordered seat (some s.der)) ≡ ok out

  place_at-seat :
      (seats : ℕ) (k : ℤ) (der : Text) (ordered : List (Option Text)) {placed : List (Option Text)}
      → place_at sdk seats k der ordered ≡ ok placed
      → (n : ℕ) × (k ≡ pos n)
        × (n < seats)
        × (is_taken sdk ordered n ≡ false)
        × (is_empty der ≡ false)
        × (placed ≡ set ordered n (some der))
  unfolding place_at
  place_at-seat seats (negsuc n) der ordered e = absurd (cc e)
  place_at-seat seats (pos n) der ordered e =
      (n, refl, ground (arith, e), ground (arith, e), ground (arith, e), ground (arith, e))

  place_at-fits :
      (seats n : ℕ) (der : Text) (ordered : List (Option Text))
      → n < seats
      → is_taken sdk ordered n ≡ false
      → is_empty der ≡ false
      → place_at sdk seats (pos n) der ordered ≡ ok (set ordered n (some der))
  unfolding place_at
  place_at-fits seats n der ordered h f e = ground (arith, h, f, e)

  place_all-IsPlaced :
      (seats : ℕ) (s : Signature) (sigs : List Signature) (ordered : List (Option Text))
      {out : List (Option Text)}
      → place_all sdk seats (s ∷ sigs) ordered ≡ ok out
      → IsPlaced seats s sigs ordered out
  unfolding place_all
  place_all-IsPlaced seats s sigs ordered {out} e =
      elim (Result-cases (place_at sdk seats s.seat s.der ordered)) [
        | inr (why, bad) ↦ absurd (ground (arith, e, bad))
        | inl (placed, good) ↦
            let (n, at_n, small, free, full, moved) =
              place_at-seat seats s.seat s.der ordered good in
            let after : place_all sdk seats sigs placed ≡ ok out = ground (arith, e, good) in
            record {
              seat = n;
              at_seat = at_n;
              small = small;
              free = free;
              nonempty = full;
              rest = subst (λ o. place_all sdk seats sigs o ≡ ok out) moved after;
            }
      ]

  IsPlaced-place_all :
      (seats : ℕ) (s : Signature) (sigs : List Signature) (ordered : List (Option Text))
      {out : List (Option Text)}
      → IsPlaced seats s sigs ordered out
      → place_all sdk seats (s ∷ sigs) ordered ≡ ok out
  unfolding place_all
  IsPlaced-place_all seats s sigs ordered p =
      let here =
        ap (λ k. place_at sdk seats k s.der ordered) p.at_seat
        ∙ place_at-fits seats p.seat s.der ordered p.small p.free p.nonempty in
      ground (arith, here, p.rest)

  IsPlaced-map :
      (seats : ℕ) (s : Signature) {sigs sigs' : List Signature} (ordered : List (Option Text))
      {out : List (Option Text)} (p : IsPlaced seats s sigs ordered out)
      → place_all sdk seats sigs' (set ordered p.seat (some s.der)) ≡ ok out
      → IsPlaced seats s sigs' ordered out
  IsPlaced-map seats s ordered p e = record {
    seat = p.seat;
    at_seat = p.at_seat;
    small = p.small;
    free = p.free;
    nonempty = p.nonempty;
    rest = e;
  }

  place_all-Reordered :
      (seats : ℕ) {sigs sigs' : List Signature} (ordered out : List (Option Text))
      → Reordered sigs sigs'
      → seats ≤ length ordered
      → place_all sdk seats sigs ordered ≡ ok out
      → place_all sdk seats sigs' ordered ≡ ok out
  place_all-Reordered seats ordered out done l e = e
  place_all-Reordered seats ordered out (keep s r) l e =
      let p = place_all-IsPlaced seats s _ ordered e in
      IsPlaced-place_all seats s _ ordered (
        IsPlaced-map seats s ordered p (
          place_all-Reordered seats (set ordered p.seat (some s.der)) out r
            (subst (λ n. seats ≤ n) (sym (length-set ordered p.seat (some s.der))) l) p.rest))
  place_all-Reordered seats ordered out (swap a b sigs) l e =
      let p = place_all-IsPlaced seats a (b ∷ sigs) ordered e in
      let q = place_all-IsPlaced seats b sigs (set ordered p.seat (some a.der)) p.rest in
      let (free_b, apart) = is_taken-set ordered p.seat q.seat a.der q.free in
      let ne : p.seat ≢ q.seat = apart (omega (arith, q.small, l)) in
      let free_a : is_taken sdk (set ordered q.seat (some b.der)) p.seat ≡ false =
        is_taken-set_other ordered q.seat p.seat b.der (λ same. ne (sym same)) ∙ p.free in
      let both =
        subst (λ o. place_all sdk seats sigs o ≡ ok out)
          (set_comm ordered p.seat q.seat (some a.der) (some b.der) ne) q.rest in
      let second : IsPlaced seats a sigs (set ordered q.seat (some b.der)) out = record {
        seat = p.seat;
        at_seat = p.at_seat;
        small = p.small;
        free = free_a;
        nonempty = p.nonempty;
        rest = both;
      } in
      IsPlaced-place_all seats b (a ∷ sigs) ordered (record {
        seat = q.seat;
        at_seat = q.at_seat;
        small = q.small;
        free = free_b;
        nonempty = q.nonempty;
        rest = IsPlaced-place_all seats a sigs (set ordered q.seat (some b.der)) second;
      })
  place_all-Reordered seats ordered out (chain r q) l e =
      place_all-Reordered seats ordered out q l (place_all-Reordered seats ordered out r l e)

  -- If `Assemble` builds a script from the signatures of all seats, then it builds the same script
  -- from them in any other order of arrival.
  pub assemble-Reordered :
      (seats : ℕ) {sigs sigs' : List Signature} (script : sdk.Script)
      → Reordered sigs sigs'
      → assemble sdk sigs seats ≡ ok script
      → assemble sdk sigs' seats ≡ ok script
  unfolding assemble
  assemble-Reordered seats {sigs} {sigs'} script r e =
      elim (Result-cases (place_all sdk seats sigs (replicate seats none))) [
        | inr (why, bad) ↦ absurd (ground (arith, e, bad))
        | inl (out, good) ↦
            let long : length (replicate {A = Option Text} seats none) ≡ seats =
              length-replicate seats none in
            let same =
              place_all-Reordered seats (replicate seats none) out r (omega (arith, long)) good in
            ground (arith, e, good, same, Reordered-length r)
      ]
