-- ===== src/Proof/Sorting.antt =====
-- proof.go: `sort.Slice` sorts a list the same way in whatever order it stands, when an order tells its
-- elements apart.
use brc100_poker.Base.{
  ◌≡◌, ◌≢◌, ◌⊎◌, inl, inr, refl, sym, ap, subst, ◌∙◌, Bool, true, false, Bool-cases, List, [], ◌∷◌,
  arith, if◌then◌else◌, Text, length, All, All-map, suc,
}
use brc100_poker.MentalPoker.Masks.{Reordered, done, keep, swap, chain}
use brc100_poker.Proof.Seats.{insert_by, sort_by}

-- One comes before the other.
abbrev pub IsBefore {ℓ} : {A : Type ℓ} → (A → A → Bool) → A → A → Type 0
IsBefore less a b = (less a b ≡ true) × (less b a ≡ false)

abbrev pub Ordered {ℓ} : {A : Type ℓ} → (A → A → Bool) → A → A → Type 0
Ordered less a b = IsBefore less a b ⊎ IsBefore less b a

abbrev pub IsTransitive {ℓ} : {A : Type ℓ} → (A → A → Bool) → Type ℓ
IsTransitive {A = A} less = (a b x : A) → less a b ≡ true → less b x ≡ true → less a x ≡ true

pub All-Reordered {ℓ κ} :
    {A : Type ℓ} (P : A → Type κ) {xs ys : List A} → Reordered xs ys → All P xs → All P ys
All-Reordered P done p = p
All-Reordered P (keep a r) p = (p.0, All-Reordered P r p.1)
All-Reordered P (swap a b xs) p = (p.1.0, (p.0, p.1.1))
All-Reordered P (chain r q) p = All-Reordered P q (All-Reordered P r p)

pub same_order {ℓ} : {A : Type ℓ} (xs : List A) → Reordered xs xs
same_order [] = done
same_order (x ∷ xs) = keep x (same_order xs)

-- No two elements with one key.
abbrev pub Distinct {ℓ} : {A : Type ℓ} → (A → Text) → List A → Type 0
Distinct key [] = Unit
Distinct key (x ∷ xs) = All (λ y. key x ≢ key y) xs × Distinct key xs

module _ {ℓ} {A : Type ℓ} (less : A → A → Bool) (trans : IsTransitive less) where
  insert_by-before :
      (a b : A) (xs : List A)
      → IsBefore less a b
      → insert_by less a (insert_by less b xs) ≡ insert_by less b (insert_by less a xs)
  insert_by-before a b [] h = ground (arith, h.0, h.1)
  insert_by-before a b (x ∷ xs) h = elim (Bool-cases (less a x)) [
    | inl first ↦ elim (Bool-cases (less b x)) [
      | inl second ↦ ground (arith, h.0, h.1, first, second)
      | inr later ↦ ground (arith, h.0, h.1, first, later)
    ]
    | inr not_first ↦ elim (Bool-cases (less b x)) [
      | inl second ↦ absurd (ground (arith, trans a b x h.0 second, not_first))
      | inr later ↦ ground (arith, not_first, later, insert_by-before a b xs h)
    ]
  ]

  -- Each is ordered with every later one.
  abbrev pub AllOrdered : List A → Type ℓ
  AllOrdered [] = Unit
  AllOrdered (x ∷ xs) = All (λ y. Ordered less x y) xs × AllOrdered xs

  AllOrdered-Reordered : {xs ys : List A} → Reordered xs ys → AllOrdered xs → AllOrdered ys
  AllOrdered-Reordered done o = o
  AllOrdered-Reordered (keep a r) o =
      (All-Reordered (λ y. Ordered less a y) r o.0, AllOrdered-Reordered r o.1)
  AllOrdered-Reordered (swap a b xs) o =
      ((elim o.0.0 [ inl h ↦ inr h | inr h ↦ inl h ], o.1.0), (o.0.1, o.1.1))
  AllOrdered-Reordered (chain r q) o = AllOrdered-Reordered q (AllOrdered-Reordered r o)

  pub sort_by-Reordered :
      {xs ys : List A} → Reordered xs ys → AllOrdered xs → sort_by less xs ≡ sort_by less ys
  sort_by-Reordered done o = refl
  sort_by-Reordered (keep a r) o = ap (insert_by less a) (sort_by-Reordered r o.1)
  sort_by-Reordered (swap a b xs) o = elim o.0.0 [
    | inl h ↦ insert_by-before a b (sort_by less xs) h
    | inr h ↦ sym (insert_by-before b a (sort_by less xs) h)
  ]
  sort_by-Reordered (chain r q) o =
      sort_by-Reordered r o ∙ sort_by-Reordered q (AllOrdered-Reordered r o)

  insert_by-front : (a : A) (xs : List A) → Reordered (a ∷ xs) (insert_by less a xs)
  insert_by-front a [] = keep a done
  insert_by-front a (x ∷ xs) = elim (Bool-cases (less a x)) [
    | inl first ↦
        subst
          (λ (l : Bool). Reordered (a ∷ x ∷ xs) (if l then a ∷ x ∷ xs else x ∷ insert_by less a xs))
          (sym first) (same_order (a ∷ x ∷ xs))
    | inr later ↦
        subst
          (λ (l : Bool). Reordered (a ∷ x ∷ xs) (if l then a ∷ x ∷ xs else x ∷ insert_by less a xs))
          (sym later) (chain (swap a x xs) (keep x (insert_by-front a xs)))
  ]

  pub sort_by-moves : (xs : List A) → Reordered xs (sort_by less xs)
  sort_by-moves [] = done
  sort_by-moves (x ∷ xs) = chain (keep x (sort_by-moves xs)) (insert_by-front x (sort_by less xs))

  pub Distinct-AllOrdered :
      (key : A → Text)
      → ((x y : A) → key x ≢ key y → Ordered less x y)
      → (xs : List A) → Distinct key xs
      → AllOrdered xs
  Distinct-AllOrdered key h [] d = tt
  Distinct-AllOrdered key h (x ∷ xs) d =
      (All-map (λ y ne. h x y ne) xs d.0, Distinct-AllOrdered key h xs d.1)

pub Reordered-length {ℓ} : {A : Type ℓ} {xs ys : List A} → Reordered xs ys → length xs ≡ length ys
Reordered-length done = refl
Reordered-length (keep a r) = ap suc (Reordered-length r)
Reordered-length (swap a b xs) = refl
Reordered-length (chain r q) = Reordered-length r ∙ Reordered-length q

pub Distinct-Reordered {ℓ} :
    {A : Type ℓ} (key : A → Text) {xs ys : List A}
    → Reordered xs ys
    → Distinct key xs
    → Distinct key ys
Distinct-Reordered key done d = d
Distinct-Reordered key (keep a r) d =
    (All-Reordered (λ y. key a ≢ key y) r d.0, Distinct-Reordered key r d.1)
Distinct-Reordered key (swap a b xs) d = (((λ e. d.0.0 (sym e)), d.1.0), (d.0.1, d.1.1))
Distinct-Reordered key (chain r q) d = Distinct-Reordered key q (Distinct-Reordered key r d)
