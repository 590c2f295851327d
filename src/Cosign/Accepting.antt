-- ===== src/Cosign/Accepting.antt =====
-- settle.go and shared_refund.go together: a shared refund that is built is one that is accepted.
use brc100_poker.Base.{
  ℕ, suc, ◌+◌, ◌%◌, ◌^◌, ◌≤◌, ◌<◌, ◌≡◌, ◌⊎◌, inl, inr, refl, sym, ap, subst, ◌∙◌, false, Option,
  none, some, List, [], ◌∷◌, arith, ltb, ℤ, pos, ltb_ℤ, Text, text_eq_refl, get_elem?, sum_of-ge,
  Bool-cases,
}
use brc100_poker.Table.Roster.{HasDistinct}
use brc100_poker.Cosign.{
  Output, Transaction, SharedRefundExpectation, Result, ok, refuse, is_empty, spends,
  find_pot_input_from, is_final, match_balances, check_shares, check_restored, verify_shared_refund,
  tally,
}
use brc100_poker.Cosign.Tally.{tally-sum}
use brc100_poker.Cosign.Building.{
  RefundArgs, Scan, scan_one, start_scan, scan_recipients, outputs_from, refund_tx, shared_tx,
  build_scanned, build_shared_refund, build_refund,
}
use brc100_poker.Cosign.Entries.{
  adds-nil, balances_of, scripts_of, entries, balance_sum, outputs_from-tally, entries-AllApart,
  entries-sum, entries-small, match_balances-built,
}

-- What the scan comes to: the sum, and a recipient that holds the largest balance.
scan_recipients-ok :
    {K : Type 0} (i : ℕ) (recipients : List (Option K × ℕ)) (scan : Scan) {scan' : Scan}
    → scan_recipients i recipients scan ≡ ok scan'
    → scan.total < 2 ^ 64
    → (scan'.total ≡ (scan.total + balance_sum recipients) % 2 ^ 64)
      × (((scan'.largest_idx ≡ scan.largest_idx) × (scan'.largest ≡ scan.largest))
          ⊎ ((j : ℕ) × (r : Option K × ℕ) × (scan'.largest_idx ≡ pos (i + j))
              × (get_elem? recipients j ≡ some r)
              × (r.1 ≡ scan'.largest)))
unfolding scan_recipients
scan_recipients-ok i [] scan {scan'} e b =
    let same : scan ≡ scan' = cc in
    (
      omega (arith, ap (λ (s : Scan). s.total) same),
      inl (ap (λ (s : Scan). s.largest_idx) (sym same), ap (λ (s : Scan). s.largest) (sym same)),
    )
scan_recipients-ok i ((none, sats) ∷ recipients) scan e b = absurd (cc e)
scan_recipients-ok i ((some k, sats) ∷ recipients) scan {scan'} e b =
    let h : scan_recipients (suc i) recipients (scan_one i sats scan) ≡ ok scan' = ground arith in
    let (sum, found) =
      scan_recipients-ok (suc i) recipients (scan_one i sats scan) h (omega arith) in
    (
      omega (arith, sum),
      elim found [
        | inl (idx, top) ↦ elim (Bool-cases (ltb scan.largest sats)) [
          | inl larger ↦
              inr
                (0, (some k, sats), ground (arith, idx, larger), refl, ground (arith, top, larger))
          | inr smaller ↦ inl (ground (arith, idx, smaller), ground (arith, top, smaller))
        ]
        | inr (j, r, idx, g, top) ↦ inr (suc j, r, idx ∙ ap pos (omega arith), g, top)
      ],
    )

module _ {K : Type 0} (lock : K → Option Text) (hash : Text → Option Text)
    (final_sequence : ℕ) where
  -- What a seat expects of a refund that is built from these arguments.
  abbrev pub expectation_of : RefundArgs K → SharedRefundExpectation
  expectation_of args = record {
    pot_txid = args.pot_txid;
    pot_vout = args.pot_vout;
    pot_satoshis = args.pot_satoshis;
    balances = balances_of lock args.recipients;
    max_fee = args.fee;
    max_lock_height = args.lock_height;
  }

  build_shared_refund-ok :
      (args : RefundArgs K) {tx : Transaction}
      → build_shared_refund lock hash final_sequence args ≡ ok tx
      → (scan : Scan) × (0 < args.lock_height)
        × (scan_recipients 0 args.recipients start_scan ≡ ok scan)
        × (build_scanned lock hash final_sequence args scan ≡ ok tx)
  unfolding build_shared_refund
  build_shared_refund-ok args {tx} e = by_scan (scan_recipients 0 args.recipients start_scan) refl
    where
      by_scan :
          (m : Result Scan)
          → scan_recipients 0 args.recipients start_scan ≡ m
          → (scan : Scan) × (0 < args.lock_height)
            × (scan_recipients 0 args.recipients start_scan ≡ ok scan)
            × (build_scanned lock hash final_sequence args scan ≡ ok tx)
      by_scan (refuse r) m = absurd (ground (arith, m, e))
      by_scan (ok scan) m = (scan, ground (arith, m, e), m, ground (arith, m, e))

  build_scanned-ok :
      (args : RefundArgs K) (scan : Scan) {tx : Transaction}
      → build_scanned lock hash final_sequence args scan ≡ ok tx
      → (scan.total ≡ args.pot_satoshis)
        × (0 < args.fee)
        × (ltb_ℤ scan.largest_idx (pos 0) ≡ false)
        × (args.fee < scan.largest)
        × (shared_tx lock hash final_sequence args scan.largest_idx ≡ ok tx)
  unfolding build_scanned
  build_scanned-ok args scan e = ground arith

  shared_tx-ok :
      (args : RefundArgs K) (idx : ℤ) {tx : Transaction}
      → hash args.pot_txid ≡ some args.pot_txid
      → shared_tx lock hash final_sequence args idx ≡ ok tx
      → (outputs : List Output) × (outputs_from lock hash final_sequence args.fee idx 0
            args.recipients
          ≡ ok outputs)
        × (tx ≡ refund_tx final_sequence args.pot_txid args.pot_vout args.lock_height outputs)
  unfolding shared_tx
  shared_tx-ok args idx h e = ground arith

  check_shares-passes :
      (want : SharedRefundExpectation) (got : List (Text × ℕ)) (total : ℕ)
      → match_balances want.max_fee want.balances got 0 ≡ ok ([], 1)
      → total ≤ want.pot_satoshis
      → want.pot_satoshis ≤ total + want.max_fee
      → check_shares want got total ≡ none
  unfolding check_shares
  check_shares-passes want got total m a b = ground arith

  is_empty-balances_of :
      (recipients : List (Option K × ℕ))
      → is_empty (balances_of lock recipients) ≡ is_empty recipients
  is_empty-balances_of [] = refl
  is_empty-balances_of (r ∷ recipients) = refl

  verify_shared_refund-passes :
      (args : RefundArgs K) (outputs : List Output)
      → 0 < final_sequence
      → 0 < args.lock_height
      → 0 < args.fee
      → is_empty args.pot_txid ≡ false
      → is_empty args.recipients ≡ false
      → check_restored
          (expectation_of args)
          (refund_tx final_sequence args.pot_txid args.pot_vout args.lock_height outputs)
        ≡ none
      → verify_shared_refund final_sequence
          (some (refund_tx final_sequence args.pot_txid args.pot_vout args.lock_height outputs))
          (expectation_of args)
        ≡ none
  unfolding verify_shared_refund is_final find_pot_input_from spends
  verify_shared_refund-passes args outputs s l f t r c =
      ground
        (arith, text_eq_refl args.pot_txid, is_empty-balances_of args.recipients, s, l, f, t, r, c)

  -- The outputs restore the balances, the largest of them less the fee.
  check_restored-passes :
      (args : RefundArgs K) (n j : ℕ) (outputs : List Output) (r : Option K × ℕ)
      → outputs_from lock hash final_sequence args.fee (pos n) 0 args.recipients ≡ ok outputs
      → n ≡ 0 + j
      → get_elem? args.recipients j ≡ some r
      → 0 < args.fee
      → args.fee < r.1
      → balance_sum args.recipients ≡ args.pot_satoshis
      → balance_sum args.recipients < 2 ^ 64
      → HasDistinct (scripts_of lock args.recipients)
      → check_restored
          (expectation_of args)
          (refund_tx final_sequence args.pot_txid args.pot_vout args.lock_height outputs)
        ≡ none
  unfolding check_restored tally
  check_restored-passes args n j outputs r written at g some_fee less balanced b d =
      let es = entries lock args.fee (pos n) 0 args.recipients in
      let (t, tallied, sum) =
        outputs_from-tally lock hash final_sequence args.fee (pos n) 0 args.recipients [] 0
          written in
      let alone =
        adds-nil es (entries-AllApart lock args.fee (pos n) 0 args.recipients d)
          (entries-small lock args.fee n 0 args.recipients b) in
      let counted : tally outputs [] 0 ≡ ok (es, t) = tallied ∙ ap (λ got. ok (got, t)) alone in
      let total = tally-sum outputs counted in
      let bounded : r.1 < 2 ^ 64 = omega (arith, b, sum_of-ge (λ p. p.1) j args.recipients g) in
      let spent = entries-sum lock args.fee n 0 j args.recipients at g less bounded in
      let matched =
        match_balances-built lock args.fee n 0 j 0 args.recipients at g some_fee less bounded d in
      let within : t ≤ args.pot_satoshis = omega (arith, total, sum, spent, balanced, b) in
      let short : args.pot_satoshis ≤ t + args.fee =
        omega (arith, total, sum, spent, balanced, b) in
      rw counted (check_shares-passes (expectation_of args) es t matched within short)

-- A refund that BuildRefund builds for several recipients is accepted by a seat that expects the
-- same balances, with the fee as its bound and the lock height as the highest it accepts: where the
-- final sequence number is not 0, the pot's txid is not empty and parses to itself, the recipients' scripts are distinct in
-- any case, and the balances do not overflow together.
pub build_refund-verifies :
    {K : Type 0} (lock : K → Option Text) (hash : Text → Option Text) (final_sequence : ℕ)
    (args : RefundArgs K) {tx : Transaction}
    → build_refund lock hash final_sequence args ≡ ok tx
    → 0 < final_sequence
    → is_empty args.pot_txid ≡ false
    → hash args.pot_txid ≡ some args.pot_txid
    → is_empty args.recipients ≡ false
    → HasDistinct (scripts_of lock args.recipients)
    → balance_sum args.recipients < 2 ^ 64
    → verify_shared_refund final_sequence (some tx) (expectation_of lock hash final_sequence args)
      ≡ none
unfolding build_refund
build_refund-verifies lock hash final_sequence args {tx} e s t h some_one d b =
    let built : build_shared_refund lock hash final_sequence args ≡ ok tx =
      ground (arith, e, some_one) in
    let (scan, locked, scanned, rest) =
      build_shared_refund-ok lock hash final_sequence args built in
    let (balanced, some_fee, found, top, made) =
      build_scanned-ok lock hash final_sequence args scan rest in
    let (outputs, written, same) =
      shared_tx-ok lock hash final_sequence args scan.largest_idx h made in
    let (sum, at) = scan_recipients-ok 0 args.recipients start_scan scanned (omega arith) in
    subst
      (λ u.
        verify_shared_refund final_sequence (some u) (expectation_of lock hash final_sequence args)
        ≡ none)
      (sym same)
      (verify_shared_refund-passes lock hash final_sequence args outputs s locked some_fee t
        some_one
        (elim at [
          | inl (idx, zero_top) ↦ absurd (ground (arith, zero_top, top))
          | inr (j, r, idx, g, largest) ↦
              check_restored-passes lock hash final_sequence args (0 + j) j outputs r
                (subst
                  (λ z.
                    outputs_from lock hash final_sequence args.fee z 0 args.recipients ≡ ok outputs)
                  idx written)
                refl g some_fee (omega (arith, top, largest)) (omega (arith, sum, balanced, b)) b d
        ]))
