-- ===== src/Cosign/Tally.antt =====
-- The sums of the outputs by script, and what is left of them once the expected ones are taken out.
use brc100_poker.Base.{
  ℕ, ◌+◌, ◌%◌, ◌^◌, ◌≤◌, ◌<◌, ◌≡◌, ◌≢◌, refl, subst, ◌∙◌, true, Option, none, some, List, [], ◌∷◌,
  arith, if◌then◌else◌, Text, text_eq, text_eq_iff, to_lower, All, All-map, inl, inr, sum_of,
  Bool-cases,
}
use brc100_poker.Cosign.{
  Output, Result, ok, refuse, find_key, add_to, delete, tally, match_payouts, tolerates, no_script,
}

-- The amount that `got` holds for a script; a missing key reads 0.
abbrev pub value : Text → List (Text × ℕ) → ℕ
value key got = elim (find_key key got) [ none ↦ 0 | some v ↦ v ]

-- What an output pays to a script, in any case.
abbrev pub pays_to : Text → Output → ℕ
pays_to key o = elim o.locking_script [
  | none ↦ 0
  | some script ↦ if text_eq (to_lower script) key then o.satoshis else 0
]

abbrev pub paid_to : Text → List Output → ℕ
paid_to key outputs = sum_of (pays_to key) outputs

abbrev pub total_out : List Output → ℕ
total_out outputs = sum_of (λ (o : Output). o.satoshis) outputs

value-add_to :
    (key j : Text) (sats : ℕ) (got : List (Text × ℕ))
    → value key (add_to j sats got)
      ≡ (if text_eq j key then (value key got + sats) % 2 ^ 64 else value key got)
unfolding add_to find_key
value-add_to key j sats [] = ground arith
value-add_to key j sats ((k, v) ∷ got) =
    ground
      (arith, value-add_to key j sats got, text_eq_iff k j, text_eq_iff k key, text_eq_iff j key)

-- One turn of the loop over the outputs.
pub tally-cons :
    (o : Output) (outputs : List Output) (got : List (Text × ℕ)) (total : ℕ)
    {sums : List (Text × ℕ) × ℕ}
    → tally (o ∷ outputs) got total ≡ ok sums
    → (script : Text) × (o.locking_script ≡ some script)
      × (tally outputs (add_to (to_lower script) o.satoshis got) ((total + o.satoshis) % 2 ^ 64)
          ≡ ok sums)
unfolding tally
tally-cons o outputs got total {sums} e = by_script o.locking_script refl e
  where
    by_script :
        (m : Option Text)
        → o.locking_script ≡ m
        → elim m as (λ _. Result (List (Text × ℕ) × ℕ)) [
          | none ↦ refuse no_script
          | some script ↦
              tally outputs
                (add_to (to_lower script) o.satoshis got)
                ((total + o.satoshis) % 2 ^ 64)
        ]
          ≡ ok sums
        → (script : Text) × (o.locking_script ≡ some script)
          × (tally outputs (add_to (to_lower script) o.satoshis got) ((total + o.satoshis) % 2 ^ 64)
              ≡ ok sums)
    by_script none l h = absurd (cc h)
    by_script (some script) l h = (script, l, h)

-- The tally of a script is what the outputs pay to it, wrapped.
pub tally-value :
    (key : Text) (outputs : List Output) (got : List (Text × ℕ)) (total : ℕ)
    {sums : List (Text × ℕ) × ℕ}
    → tally outputs got total ≡ ok sums
    → value key got < 2 ^ 64
    → value key sums.0 ≡ (value key got + paid_to key outputs) % 2 ^ 64
unfolding tally
tally-value key [] got total {sums} e b =
    let same : (got, total) ≡ sums = cc in
    subst (λ (x : List (Text × ℕ) × ℕ). value key x.0 ≡ (value key got + 0) % 2 ^ 64) same
      (omega arith)
tally-value key (o ∷ outputs) got total {sums} e b =
    let (script, l, h) = tally-cons o outputs got total e in
    let j = to_lower script in
    let v = value-add_to key j o.satoshis got in
    let pays : pays_to key o ≡ (if text_eq j key then o.satoshis else 0) = ground (arith, l) in
    let small : value key (add_to j o.satoshis got) < 2 ^ 64 = ground (arith, v) in
    let ih =
      tally-value key outputs (add_to j o.satoshis got) ((total + o.satoshis) % 2 ^ 64) h small in
    elim (Bool-cases (text_eq j key)) [
      | inl y ↦
          let pay : pays_to key o ≡ o.satoshis = ground (arith, pays, y) in
          let new : value key (add_to j o.satoshis got) ≡ (value key got + o.satoshis) % 2 ^ 64 =
            ground (arith, v, y) in
          omega (arith, ih, pay, new)
      | inr n ↦
          let pay : pays_to key o ≡ 0 = ground (arith, pays, n) in
          let new : value key (add_to j o.satoshis got) ≡ value key got = ground (arith, v, n) in
          omega (arith, ih, pay, new)
    ]

pub tally-total :
    (outputs : List Output) (got : List (Text × ℕ)) (total : ℕ) {sums : List (Text × ℕ) × ℕ}
    → tally outputs got total ≡ ok sums
    → total < 2 ^ 64
    → sums.1 ≡ (total + total_out outputs) % 2 ^ 64
unfolding tally
tally-total [] got total e b = ground arith
tally-total (o ∷ outputs) got total {sums} e b =
    let (script, l, h) = tally-cons o outputs got total e in
    let ih =
      tally-total outputs (add_to (to_lower script) o.satoshis got) ((total + o.satoshis) % 2 ^ 64)
        h (omega arith) in
    omega (arith, ih)

-- The same from an empty tally.
pub tally-paid :
    (key : Text) (outputs : List Output) {sums : List (Text × ℕ) × ℕ}
    → tally outputs [] 0 ≡ ok sums
    → value key sums.0 ≡ paid_to key outputs % 2 ^ 64
unfolding find_key
tally-paid key outputs e = omega (arith, tally-value key outputs [] 0 e (omega arith))

pub tally-sum :
    (outputs : List Output) {sums : List (Text × ℕ) × ℕ}
    → tally outputs [] 0 ≡ ok sums
    → sums.1 ≡ total_out outputs % 2 ^ 64
tally-sum outputs e = omega (arith, tally-total outputs [] 0 e (omega arith))

pub find_key→value :
    (key : Text) (got : List (Text × ℕ)) {v : ℕ} → find_key key got ≡ some v → value key got ≡ v
find_key→value key got e = ground arith

find_key-delete :
    (j k : Text) (got : List (Text × ℕ))
    → find_key j (delete k got) ≡ (if text_eq k j then none else find_key j got)
unfolding find_key delete
find_key-delete j k [] = ground arith
find_key-delete j k ((i, v) ∷ got) =
    ground (arith, find_key-delete j k got, text_eq_iff i k, text_eq_iff i j, text_eq_iff k j)

pub find_key-deleted :
    (j k : Text) (got : List (Text × ℕ)) {v : ℕ}
    → find_key j (delete k got) ≡ some v
    → find_key j got ≡ some v
find_key-deleted j k got e = ground (arith, find_key-delete j k got)

pub find_key-kept :
    (j k : Text) (got : List (Text × ℕ)) → k ≢ j → find_key j (delete k got) ≡ find_key j got
find_key-kept j k got n = ground (arith, find_key-delete j k got, text_eq_iff k j)

match_payouts-cons :
    (script : Text) (sats : ℕ) (payouts got : List (Text × ℕ)) {rest : List (Text × ℕ)}
    → match_payouts ((script, sats) ∷ payouts) got ≡ ok rest
    → (find_key (to_lower script) got ≡ some sats)
      × (match_payouts payouts (delete (to_lower script) got) ≡ ok rest)
unfolding match_payouts
match_payouts-cons script sats payouts got e = ground arith

-- Every payout that matched is in the tally, for its amount.
pub match_payouts-value :
    (payouts got : List (Text × ℕ)) {rest : List (Text × ℕ)}
    → match_payouts payouts got ≡ ok rest
    → All (λ p. find_key (to_lower p.0) got ≡ some p.1) payouts
match_payouts-value [] got e = tt
match_payouts-value ((script, sats) ∷ payouts) got e =
    let (here, h) = match_payouts-cons script sats payouts got e in
    let k = to_lower script in
    (
      here,
      All-map (λ p. find_key-deleted (to_lower p.0) k got) payouts
          (match_payouts-value payouts (delete k got) h),
    )

-- What no payout names is left.
pub match_payouts-left :
    (key : Text) (payouts got : List (Text × ℕ)) {rest : List (Text × ℕ)}
    → match_payouts payouts got ≡ ok rest
    → All (λ p. to_lower p.0 ≢ key) payouts
    → find_key key rest ≡ find_key key got
unfolding match_payouts
match_payouts-left key [] got e n = cc
match_payouts-left key ((script, sats) ∷ payouts) got e n =
    let (here, h) = match_payouts-cons script sats payouts got e in
    match_payouts-left key payouts (delete (to_lower script) got) h n.1
    ∙ find_key-kept key (to_lower script) got n.0

pub tolerates-value :
    (key : Text) (max_fee : ℕ) (got : List (Text × ℕ))
    → tolerates max_fee got ≡ true
    → value key got ≤ max_fee
unfolding tolerates find_key
tolerates-value key max_fee [] e = ground arith
tolerates-value key max_fee ((k, v) ∷ got) e = ground (arith, tolerates-value key max_fee got)
