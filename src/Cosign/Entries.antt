-- ===== src/Cosign/Entries.antt =====
-- The outputs of a built refund, as the tally of the check counts them and matches them with the
-- balances: settle.go against shared_refund.go.
use brc100_poker.Base.{
  ℕ, zero, suc, ◌+◌, ◌%◌, ◌^◌, ◌≤◌, ◌<◌, ◌≡◌, ◌≢◌, refl, sym, ap, subst, ◌∙◌, Option, none, some,
  List, [], ◌∷◌, map, arith, ℤ, pos, Text, text_eq_iff, text_eq_refl, to_lower, get_elem?, All,
  sum_of, some_eq,
}
use brc100_poker.Table.Roster.{HasDistinct}
use brc100_poker.Cosign.{Output, ok, match_balances, find_key, tally, delete, add_to}
use brc100_poker.Cosign.Tally.{total_out}
use brc100_poker.Cosign.Building.{amount_of, outputs_from}

-- The map `got` after the outputs of these entries.
abbrev pub adds : List (Text × ℕ) → List (Text × ℕ) → List (Text × ℕ)
adds [] got = got
adds ((k, v) ∷ es) got = adds es (add_to k v got)

abbrev pub Apart : Text → List (Text × ℕ) → Type 0
Apart k es = All (λ e. e.0 ≢ k) es

add_to-skip :
    (k j : Text) (v w : ℕ) (got : List (Text × ℕ))
    → j ≢ k
    → add_to j w ((k, v) ∷ got) ≡ (k, v) ∷ add_to j w got
unfolding add_to
add_to-skip k j v w got n = ground (arith, text_eq_iff k j, n)

adds-skip :
    (k : Text) (v : ℕ) (es got : List (Text × ℕ))
    → Apart k es
    → adds es ((k, v) ∷ got) ≡ (k, v) ∷ adds es got
adds-skip k v [] got a = refl
adds-skip k v ((j, w) ∷ es) got a =
    ap (adds es) (add_to-skip k j v w got a.0) ∙ adds-skip k v es (add_to j w got) a.1

abbrev pub AllApart : List (Text × ℕ) → Type 0
AllApart [] = Unit
AllApart ((k, v) ∷ es) = Apart k es × AllApart es

-- Distinct scripts are tallied one by one.
pub adds-nil : (es : List (Text × ℕ)) → AllApart es → All (λ e. e.1 < 2 ^ 64) es → adds es [] ≡ es
unfolding add_to
adds-nil [] a b = refl
adds-nil ((k, v) ∷ es) a b =
    let small : v % 2 ^ 64 ≡ v = omega (arith, b.0) in
    ap (λ n. adds es ((k, n) ∷ [])) small
    ∙ adds-skip k v es [] a.0
    ∙ ap (λ rest. (k, v) ∷ rest) (adds-nil es a.1 b.1)

delete-Apart : (k : Text) (es : List (Text × ℕ)) → Apart k es → delete k es ≡ es
unfolding delete
delete-Apart k [] a = refl
delete-Apart k ((j, w) ∷ es) a = ground (arith, text_eq_iff j k, a.0, delete-Apart k es a.1)

delete-head : (k : Text) (v : ℕ) (es : List (Text × ℕ)) → Apart k es → delete k ((k, v) ∷ es) ≡ es
unfolding delete
delete-head k v es a = ground (arith, text_eq_refl k, delete-Apart k es a)

abbrev pub balance_sum {ℓ} : {K : Type ℓ} → List (Option K × ℕ) → ℕ
balance_sum recipients = sum_of (λ r. r.1) recipients

module _ {K : Type 0} (lock : K → Option Text) where
  -- The script that pays a recipient, as it is written.
  abbrev pub script_of : Option K × ℕ → Text
  script_of r = elim r.0 [ none ↦ [] | some k ↦ elim (lock k) [ none ↦ [] | some script ↦ script ] ]

  abbrev pub balances_of : List (Option K × ℕ) → List (Text × ℕ)
  balances_of recipients = map (λ r. (script_of r, r.1)) recipients

  abbrev pub scripts_of : List (Option K × ℕ) → List Text
  scripts_of recipients = map (λ r. to_lower (script_of r)) recipients

  -- The tally that the built outputs come to.
  abbrev pub entries : ℕ → ℤ → ℕ → List (Option K × ℕ) → List (Text × ℕ)
  entries fee idx i [] = []
  entries fee idx i (r ∷ recipients) =
      (to_lower (script_of r), amount_of fee idx i r.1) ∷ entries fee idx (suc i) recipients

  pub outputs_from-tally :
      (hash : Text → Option Text) (final_sequence fee : ℕ) (idx : ℤ) (i : ℕ)
      (recipients : List (Option K × ℕ)) (got : List (Text × ℕ)) (total : ℕ) {outputs : List Output}
      → outputs_from lock hash final_sequence fee idx i recipients ≡ ok outputs
      → (t : ℕ) × (tally outputs got total ≡ ok (adds (entries fee idx i recipients) got, t))
        × (total_out outputs ≡ sum_of (λ e. e.1) (entries fee idx i recipients))
  unfolding outputs_from tally
  outputs_from-tally hash final_sequence fee idx i [] got total {outputs} e =
      let same : [] ≡ outputs = cc in
      subst (λ os. (t : ℕ) × (tally os got total ≡ ok (got, t)) × (total_out os ≡ 0)) same
        (total, refl, refl)
  outputs_from-tally hash final_sequence fee idx i ((none, sats) ∷ recipients) got total e =
      absurd (cc e)
  outputs_from-tally hash final_sequence fee idx i ((some k, sats) ∷ recipients) got total {outputs}
        e =
      let (script, rest, l, r, same) : (script : Text) × (rest : List Output) × (lock k
            ≡ some script)
          × (outputs_from lock hash final_sequence fee idx (suc i) recipients ≡ ok rest)
          × (outputs
              ≡ record { locking_script = some script; satoshis = amount_of fee idx i sats }
                ∷ rest) =
        ground arith in
      let amount = amount_of fee idx i sats in
      let (t, tallied, sum) =
        outputs_from-tally hash final_sequence fee idx (suc i) recipients
          (add_to (to_lower script) amount got) ((total + amount) % 2 ^ 64) r in
      let written : script ≡ script_of (some k, sats) = ground (arith, l) in
      let after = entries fee idx (suc i) recipients in
      subst
        (λ os.
          (n : ℕ) × (tally os got total
            ≡ ok (adds after (add_to (to_lower (script_of (some k, sats))) amount got), n))
          × (total_out os ≡ amount + sum_of (λ e. e.1) after))
        (sym same)
        (
          t,
          tallied ∙ ap (λ s. ok (adds after (add_to (to_lower s) amount got), t)) written,
          omega (arith, sum),
        )

  entries-Apart :
      (key : Text) (fee : ℕ) (idx : ℤ) (i : ℕ) (recipients : List (Option K × ℕ))
      → All (λ j. j ≢ key) (scripts_of recipients)
      → Apart key (entries fee idx i recipients)
  entries-Apart key fee idx i [] a = tt
  entries-Apart key fee idx i (r ∷ recipients) a =
      (a.0, entries-Apart key fee idx (suc i) recipients a.1)

  pub entries-AllApart :
      (fee : ℕ) (idx : ℤ) (i : ℕ) (recipients : List (Option K × ℕ))
      → HasDistinct (scripts_of recipients)
      → AllApart (entries fee idx i recipients)
  entries-AllApart fee idx i [] d = tt
  entries-AllApart fee idx i (r ∷ recipients) d = (
    entries-Apart (to_lower (script_of r)) fee idx (suc i) recipients d.0,
    entries-AllApart fee idx (suc i) recipients d.1,
  )

  module _ (fee n : ℕ) where
    -- From beyond the recipient that carries the fee on, every balance is paid in full.
    entries-past :
        (i : ℕ) (recipients : List (Option K × ℕ))
        → n < i
        → sum_of (λ e. e.1) (entries fee (pos n) i recipients) ≡ balance_sum recipients
    entries-past i [] b = refl
    entries-past i (r ∷ recipients) b =
        ground (arith, entries-past (suc i) recipients (omega arith))

    -- The outputs come to the balances less the fee.
    pub entries-sum :
        (i j : ℕ) (recipients : List (Option K × ℕ)) {r : Option K × ℕ}
        → n ≡ i + j
        → get_elem? recipients j ≡ some r
        → fee < r.1
        → r.1 < 2 ^ 64
        → sum_of (λ e. e.1) (entries fee (pos n) i recipients) + fee ≡ balance_sum recipients
    entries-sum i j [] at g b c = absurd (cc g)
    entries-sum i zero (x ∷ recipients) {r} at g b c =
        let same : x.1 ≡ r.1 = ap (λ (p : Option K × ℕ). p.1) (some_eq g) in
        let past = entries-past (suc i) recipients (omega arith) in ground (arith, past, same)
    entries-sum i (suc j) (x ∷ recipients) at g b c =
        let ih = entries-sum (suc i) j recipients (omega arith) g b c in ground (arith, ih)

    amount_of-small : (i sats : ℕ) → sats < 2 ^ 64 → amount_of fee (pos n) i sats < 2 ^ 64
    amount_of-small i sats b = ground arith

    pub entries-small :
        (i : ℕ) (recipients : List (Option K × ℕ))
        → balance_sum recipients < 2 ^ 64
        → All (λ e. e.1 < 2 ^ 64) (entries fee (pos n) i recipients)
    entries-small i [] b = tt
    entries-small i (r ∷ recipients) b =
        (amount_of-small i r.1 (omega arith), entries-small (suc i) recipients (omega arith))

    -- One balance matched in full, or short of the fee.
    match_balances-full :
        (script : Text) (sats short : ℕ) (balances es : List (Text × ℕ))
        → Apart (to_lower script) es
        → match_balances fee ((script, sats) ∷ balances) ((to_lower script, sats) ∷ es) short
          ≡ match_balances fee balances es short
    unfolding match_balances find_key
    match_balances-full script sats short balances es a =
        ground (arith, text_eq_refl (to_lower script), delete-head (to_lower script) sats es a)

    match_balances-less :
        (script : Text) (sats paid short : ℕ) (balances es : List (Text × ℕ))
        → Apart (to_lower script) es
        → paid < sats
        → sats ≤ paid + fee
        → match_balances fee ((script, sats) ∷ balances) ((to_lower script, paid) ∷ es) short
          ≡ match_balances fee balances es (suc short)
    unfolding match_balances find_key
    match_balances-less script sats paid short balances es a b c =
        ground (arith, text_eq_refl (to_lower script), delete-head (to_lower script) paid es a)

    match_balances-past :
        (i short : ℕ) (recipients : List (Option K × ℕ))
        → n < i
        → HasDistinct (scripts_of recipients)
        → match_balances fee (balances_of recipients) (entries fee (pos n) i recipients) short
          ≡ ok ([], short)
    unfolding match_balances
    match_balances-past i short [] b d = refl
    match_balances-past i short (r ∷ recipients) b d =
        let full : amount_of fee (pos n) i r.1 ≡ r.1 = ground arith in
        let es = entries fee (pos n) (suc i) recipients in
        let k = to_lower (script_of r) in
        ap (λ a. match_balances fee (balances_of (r ∷ recipients)) ((k, a) ∷ es) short) full
        ∙ match_balances-full (script_of r) r.1 short (balances_of recipients) es
            (entries-Apart k fee (pos n) (suc i) recipients d.0)
        ∙ match_balances-past (suc i) short recipients (omega arith) d.1

    pub match_balances-built :
        (i j short : ℕ) (recipients : List (Option K × ℕ)) {r : Option K × ℕ}
        → n ≡ i + j
        → get_elem? recipients j ≡ some r
        → 0 < fee
        → fee < r.1
        → r.1 < 2 ^ 64
        → HasDistinct (scripts_of recipients)
        → match_balances fee (balances_of recipients) (entries fee (pos n) i recipients) short
          ≡ ok ([], suc short)
    match_balances-built i j short [] at g z b c d = absurd (cc g)
    match_balances-built i zero short (x ∷ recipients) {r} at g z b c d =
        let same : x.1 ≡ r.1 = ap (λ (p : Option K × ℕ). p.1) (some_eq g) in
        let less : amount_of fee (pos n) i x.1 + fee ≡ x.1 = ground (arith, same) in
        let es = entries fee (pos n) (suc i) recipients in
        let k = to_lower (script_of x) in
        match_balances-less (script_of x) x.1 (amount_of fee (pos n) i x.1) short
          (balances_of recipients) es (entries-Apart k fee (pos n) (suc i) recipients d.0)
          (omega (arith, less)) (omega (arith, less))
        ∙ match_balances-past (suc i) (suc short) recipients (omega arith) d.1
    match_balances-built i (suc j) short (x ∷ recipients) at g z b c d =
        let full : amount_of fee (pos n) i x.1 ≡ x.1 = ground arith in
        let es = entries fee (pos n) (suc i) recipients in
        let k = to_lower (script_of x) in
        ap (λ a. match_balances fee (balances_of (x ∷ recipients)) ((k, a) ∷ es) short) full
        ∙ match_balances-full (script_of x) x.1 short (balances_of recipients) es
            (entries-Apart k fee (pos n) (suc i) recipients d.0)
        ∙ match_balances-built (suc i) j short recipients (omega arith) g z b c d.1
