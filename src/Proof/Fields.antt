-- ===== src/Proof/Fields.antt =====
-- proof.go: length-prefixed fields. Different fields are different streams of bytes.
use native.Mathlib.Nat.{mod-add-div, div-lt_iff_lt-mul, pow-suc}
use brc100_poker.Base.{
  ℕ, zero, suc, ◌+◌, ◌*◌, ◌/◌, ◌%◌, ◌^◌, ◌<◌, ◌≡◌, ◌≢◌, refl, sym, ap, subst, ◌∙◌, List, [], ◌∷◌,
  ◌++◌, arith, ℤ, pos, map, Text, length, length-append, append_assoc, All,
}
use brc100_poker.MentalPoker.{big_endian, number_from, number}
use brc100_poker.Proof.{stream, encode_perm, uint32}

-- Two lists that begin with as many elements each: those agree, and so do the rests.
pub split_append {ℓ} :
    {A : Type ℓ} (as' bs xs ys : List A)
    → length as' ≡ length bs
    → as' ++ xs ≡ bs ++ ys
    → (as' ≡ bs) × (xs ≡ ys)
split_append [] [] xs ys l e = (refl, e)
split_append [] (b ∷ bs) xs ys l e = absurd (omega (arith, l))
split_append (a ∷ as') [] xs ys l e = absurd (omega (arith, l))
split_append (a ∷ as') (b ∷ bs) xs ys l e =
    let same : as' ++ xs ≡ bs ++ ys = cc in
    let (one, two) = split_append as' bs xs ys (omega (arith, l)) same in (cc, two)

pub length-big_endian : (k n : ℕ) → length (big_endian k n) ≡ k
length-big_endian zero n = refl
length-big_endian (suc k) n =
    length-append (big_endian k (n / 256)) (n % 256 ∷ [])
    ∙ omega (arith, length-big_endian k (n / 256))

div-fits : (k n : ℕ) → n < 256 ^ suc k → n / 256 < 256 ^ k
div-fits k n h = (div-lt_iff_lt-mul (omega arith)).1 (subst (λ w. n < w) (pow-suc 256 k) h)

-- Numbers that fit in so many bytes are read back.
pub big_endian-injective :
    (k m n : ℕ) → m < 256 ^ k → n < 256 ^ k → big_endian k m ≡ big_endian k n → m ≡ n
big_endian-injective zero m n hm hn e = omega (arith, hm, hn)
big_endian-injective (suc k) m n hm hn e =
    let size = length-big_endian k (m / 256) ∙ sym (length-big_endian k (n / 256)) in
    let (high, low) =
      split_append (big_endian k (m / 256)) (big_endian k (n / 256)) (m % 256 ∷ []) (n % 256 ∷ [])
        size e in
    let quotient : m / 256 ≡ n / 256 =
      big_endian-injective k (m / 256) (n / 256) (div-fits k m hm) (div-fits k n hn) high in
    let digit : m % 256 ≡ n % 256 = cc in
    omega (arith, quotient, digit, mod-add-div m 256, mod-add-div n 256)

number_from-append :
    (n : ℕ) (bs cs : Text) → number_from n (bs ++ cs) ≡ number_from (number_from n bs) cs
unfolding number_from
number_from-append n [] cs = refl
number_from-append n (b ∷ bs) cs = number_from-append (n * 256 + b) bs cs

pub number-big_endian : (k n : ℕ) → n < 256 ^ k → number (big_endian k n) ≡ n
unfolding number_from
number-big_endian zero n h = omega (arith, h)
number-big_endian (suc k) n h =
    let high = number-big_endian k (n / 256) (div-fits k n h) in
    number_from-append 0 (big_endian k (n / 256)) (n % 256 ∷ [])
    ∙ omega (arith, high, mod-add-div n 256)

-- A text whose length fits in the prefix.
abbrev pub IsShort : Text → Type 0
IsShort b = length b < 256 ^ 8

stream-cons_ne : (b : Text) (bs : List Text) → stream (b ∷ bs) ≢ []
unfolding stream
stream-cons_ne b bs e =
    let long = length-append (big_endian 8 (length b) ++ b) (stream bs) in
    let head = length-append (big_endian 8 (length b)) b in
    let none_left : length ((big_endian 8 (length b) ++ b) ++ stream bs) ≡ 0 = ap length e in
    omega (arith, long, head, none_left, length-big_endian 8 (length b))

pub stream-injective :
    (bs cs : List Text) → All IsShort bs → All IsShort cs → stream bs ≡ stream cs → bs ≡ cs
unfolding stream
stream-injective [] [] sb sc e = refl
stream-injective [] (x ∷ cs) sb sc e = absurd (stream-cons_ne x cs (sym e))
stream-injective (b ∷ bs) [] sb sc e = absurd (stream-cons_ne b bs e)
stream-injective (b ∷ bs) (x ∷ cs) sb sc e =
    let (prefix, rest) =
      split_append (big_endian 8 (length b)) (big_endian 8 (length x)) (b ++ stream bs)
        (x ++ stream cs) (length-big_endian 8 (length b) ∙ sym (length-big_endian 8 (length x)))
        (sym (append_assoc (big_endian 8 (length b)) b (stream bs))
          ∙ e
          ∙ append_assoc (big_endian 8 (length x)) x (stream cs)) in
    let size = big_endian-injective 8 (length b) (length x) sb.0 sc.0 prefix in
    let (same, others) = split_append b x (stream bs) (stream cs) size rest in
    let all_others = stream-injective bs cs sb.1 sc.1 others in cc

abbrev pub IsUint32 : ℕ → Type 0
IsUint32 v = v < 2 ^ 32

pub length-encode_perm : (perm : List ℤ) → length (encode_perm perm) ≡ 4 * length perm
unfolding encode_perm
length-encode_perm [] = refl
length-encode_perm (v ∷ perm) =
    let more = length-append (big_endian 4 (uint32 v)) (encode_perm perm) in
    omega (arith, more, length-big_endian 4 (uint32 v), length-encode_perm perm)

lengths_ne :
    (vs ws : List ℕ)
    → length (map pos vs) ≢ length (map pos ws)
    → encode_perm (map pos vs) ≢ encode_perm (map pos ws)
lengths_ne vs ws ne e =
    let lengths : length (encode_perm (map pos vs)) ≡ length (encode_perm (map pos ws)) =
      ap length e in
    ne (omega (arith, lengths, length-encode_perm (map pos vs), length-encode_perm (map pos ws)))

pub encode_perm-injective :
    (vs ws : List ℕ)
    → All IsUint32 vs
    → All IsUint32 ws
    → encode_perm (map pos vs) ≡ encode_perm (map pos ws)
    → vs ≡ ws
unfolding encode_perm
encode_perm-injective [] [] sv sw e = refl
encode_perm-injective [] (w ∷ ws) sv sw e = absurd (lengths_ne [] (w ∷ ws) (omega arith) e)
encode_perm-injective (v ∷ vs) [] sv sw e = absurd (lengths_ne (v ∷ vs) [] (omega arith) e)
encode_perm-injective (v ∷ vs) (w ∷ ws) sv sw e =
    let (first, rest) =
      split_append (big_endian 4 (v % 2 ^ 32)) (big_endian 4 (w % 2 ^ 32))
        (encode_perm (map pos vs)) (encode_perm (map pos ws))
        (length-big_endian 4 (v % 2 ^ 32) ∙ sym (length-big_endian 4 (w % 2 ^ 32))) e in
    let same = big_endian-injective 4 (v % 2 ^ 32) (w % 2 ^ 32) (omega arith) (omega arith) first in
    let here : v ≡ w = omega (arith, same, sv.0, sw.0) in
    let others = encode_perm-injective vs ws sv.1 sw.1 rest in cc
