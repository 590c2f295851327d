-- ===== src/Base/Bytes.antt =====
-- Text as a list of bytes, with strings.ToLower and strings.TrimSpace on ASCII, which is what
-- identity keys (hex) and script text (hex) are made of.
use Prim.Native.Nat.{ℕ, ◌+◌}
use mathlib.Core.Path.{◌≡◌, refl}
use mathlib.Core.Logic.{◌↔◌, ◌≢◌}
use mathlib.Core.Bool.{Bool, true, false, ◌&&◌, ◌||◌}
use mathlib.Core.List.{List, [], ◌∷◌}
use native.Mathlib.Omega.{arith}
use brc100_poker.Base.Tests.{leb, ◌==◌, if◌then◌else◌}

abbrev pub Text : Type 0
Text = List ℕ

abbrev pub text_eq : Text → Text → Bool
text_eq [] [] = true
text_eq [] (b ∷ bs) = false
text_eq (a ∷ as') [] = false
text_eq (a ∷ as') (b ∷ bs) = a == b && text_eq as' bs

abbrev pub lower_byte : ℕ → ℕ
lower_byte c = if leb b'A' c && leb c b'Z' then c + 32 else c

unfoldable pub to_lower : Text → Text
to_lower [] = []
to_lower (c ∷ cs) = lower_byte c ∷ to_lower cs

-- Tab, line feed, vertical tab, form feed, carriage return and space.
abbrev pub is_space : ℕ → Bool
is_space c = c == 32 || leb 9 c && leb c 13

unfoldable pub trim_left : Text → Text
trim_left [] = []
trim_left (c ∷ cs) = let rest = trim_left cs in if is_space c then rest else c ∷ cs

unfoldable pub trim_right : Text → Text
trim_right [] = []
trim_right (c ∷ cs) = elim (trim_right cs) [
  | [] ↦ if is_space c then [] else c ∷ []
  | d ∷ ds ↦ c ∷ d ∷ ds
]

unfoldable pub trim_space : Text → Text
unfolding trim_left trim_right
trim_space t = trim_left (trim_right t)

pub text_eq_iff : (s t : Text) → (text_eq s t ≡ true) ↔ (s ≡ t)
text_eq_iff [] [] = ((λ _. refl), (λ _. refl))
text_eq_iff [] (b ∷ bs) = ((λ h. cc), (λ h. cc))
text_eq_iff (a ∷ as') [] = ((λ h. cc), (λ h. cc))
text_eq_iff (a ∷ as') (b ∷ bs) =
    ((λ h. ground (arith, text_eq_iff as' bs)), (λ h. ground (arith, text_eq_iff as' bs)))

pub text_eq_refl : (s : Text) → text_eq s s ≡ true
text_eq_refl s = (text_eq_iff s s).1 refl

pub text_ne : (s t : Text) → text_eq s t ≡ false → s ≢ t
text_ne s t h e = absurd (ground (arith, h, e, text_eq_iff s t))

pub to_lower-to_lower : (t : Text) → to_lower (to_lower t) ≡ to_lower t
unfolding to_lower
to_lower-to_lower [] = refl
to_lower-to_lower (c ∷ cs) = ground (arith, to_lower-to_lower cs)

trim_left-to_lower : (t : Text) → trim_left (to_lower t) ≡ to_lower (trim_left t)
unfolding trim_left to_lower
trim_left-to_lower [] = refl
trim_left-to_lower (c ∷ cs) = ground (arith, trim_left-to_lower cs)

trim_right-to_lower : (t : Text) → trim_right (to_lower t) ≡ to_lower (trim_right t)
unfolding trim_right to_lower
trim_right-to_lower [] = refl
trim_right-to_lower (c ∷ cs) = ground (arith, trim_right-to_lower cs)

trim_left-trim_left : (t : Text) → trim_left (trim_left t) ≡ trim_left t
unfolding trim_left
trim_left-trim_left [] = refl
trim_left-trim_left (c ∷ cs) = ground (arith, trim_left-trim_left cs)

trim_right-trim_right : (t : Text) → trim_right (trim_right t) ≡ trim_right t
unfolding trim_right
trim_right-trim_right [] = refl
trim_right-trim_right (c ∷ cs) = ground (arith, trim_right-trim_right cs)

trim_right-trim_left : (t : Text) → trim_right (trim_left t) ≡ trim_left (trim_right t)
unfolding trim_left trim_right
trim_right-trim_left [] = refl
trim_right-trim_left (c ∷ cs) = ground (arith, trim_right-trim_left cs)

-- `strings.ToLower(strings.TrimSpace(s))`.
unfoldable pub normalise : Text → Text
unfolding to_lower trim_space
normalise t = to_lower (trim_space t)

-- Normalising twice is normalising once.
pub normalise-normalise : (t : Text) → normalise (normalise t) ≡ normalise t
unfolding normalise trim_space
normalise-normalise t =
    let u = trim_right t in
    simp (
      trim_right-to_lower, trim_left-to_lower, trim_right-trim_left, trim_right-trim_right,
      trim_left-trim_left, to_lower-to_lower,
    )
