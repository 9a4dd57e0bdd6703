-- ===== src/Scraper/Address.antt =====
-- isPrivateAddress and embeddedIpv4 of src/modules/content/scraper.service.ts, on texts. Node's
-- isIP is the parameter `is_ip`, which answers 4, 6, or 0 for what is no address.
pub mod Blocks
pub mod Depth
pub mod Mapped
use flow_ai.Common.{
  ℕ, zero, suc, ◌-◌, ◌+◌, ◌/◌, ◌%◌, Bool, true, false, ◌&&◌, ◌||◌, not, Option, none, some, is_some,
  List, [], ◌∷◌, ◌++◌, ltb, leb, ◌==◌, if◌then◌else◌, length, Text, codes, same_text, lower,
  starts_with, split, is_digit, number, show, parse_hex,
}
use mathlib.Core.Option

-- The ranges that are refused, by the first two parts of an address.
abbrev pub is_private_quad : ℕ → ℕ → Bool
is_private_quad a b =
    a == 0
    || a == 10
    || a == 127
    || (a == 169 && b == 254)
    || (a == 172 && leb 16 b && leb b 31)
    || (a == 192 && b == 168)
    || (a == 100 && leb 64 b && leb b 127)
    || (a == 192 && b == 0)
    || leb 224 a

-- The parts read as numbers, `none` when one is NaN.
abbrev pub numbers : List Text → Option (List ℕ)
numbers [] = some []
numbers (p ∷ ps) =
    let rest = numbers ps in
    elim (number p) [ none ↦ none | some n ↦ elim rest [ none ↦ none | some ns ↦ some (n ∷ ns) ] ]

abbrev pub is_private_parts : Option (List ℕ) → Bool
is_private_parts (some (a ∷ b ∷ c ∷ d ∷ [])) = is_private_quad a b
is_private_parts _ = true

unfoldable pub is_private_v4 : Text → Bool
is_private_v4 address = is_private_parts (numbers (split b'.' address))

-- parts.join('.')
abbrev pub dotted : ℕ → ℕ → ℕ → ℕ → Text
dotted a b c d = show a ++ b'.' ∷ (show b ++ b'.' ∷ (show c ++ b'.' ∷ show d))

-- What follows the last colon, and whether it is four parts of one to three digits.
abbrev pub after_last_colon : Text → Option Text
after_last_colon [] = none
after_last_colon (c ∷ s) =
    let rest = after_last_colon s in
    elim rest [ some t ↦ some t | none ↦ if c == b':' then some s else none ]

abbrev pub all_digits : Text → Bool
all_digits [] = true
all_digits (c ∷ s) = is_digit c && all_digits s

abbrev pub is_part : Text → Bool
is_part p = all_digits p && leb 1 (length p) && leb (length p) 3

abbrev pub is_quad : List Text → Bool
is_quad (p ∷ q ∷ r ∷ s ∷ []) = is_part p && is_part q && is_part r && is_part s
is_quad _ = false

abbrev pub dotted_tail : Text → Option Text
dotted_tail v6 = elim (after_last_colon v6) [
  | none ↦ none
  | some t ↦ if is_quad (split b'.' t) then some t else none
]

-- v6.split('::')[0] and what follows the first '::'.
abbrev pub until_pair : Text → Text
until_pair [] = []
until_pair (c ∷ []) = c ∷ []
until_pair (c ∷ d ∷ s) =
    let rest = until_pair (d ∷ s) in if c == b':' && d == b':' then [] else c ∷ rest

abbrev pub after_pair : Text → Option Text
after_pair [] = none
after_pair (c ∷ []) = none
after_pair (c ∷ d ∷ s) =
    let rest = after_pair (d ∷ s) in if c == b':' && d == b':' then some s else rest

abbrev pub filled : List Text → List Text
filled [] = []
filled ([] ∷ ps) = filled ps
filled ((c ∷ p) ∷ ps) = (c ∷ p) ∷ filled ps

abbrev pub zeros : ℕ → List Text
zeros zero = []
zeros (suc n) = codes "0" ∷ zeros n

-- The groups with '::' expanded, `none` when there are too many.
abbrev pub expanded : Text → Option (List Text)
expanded v6 = elim (after_pair v6) [
  | none ↦ some (split b':' v6)
  | some after ↦
      let head = filled (split b':' (until_pair v6)) in
      let tail = filled (split b':' (until_pair after)) in
      if ltb 8 (length head + length tail)
      then none
      else some (head ++ (zeros (8 - (length head + length tail)) ++ tail))
]

abbrev pub is_zero : Text → Bool
is_zero g = elim (parse_hex g) [ none ↦ false | some n ↦ n == 0 ]

-- parseInt(g, 16) === 0xffff
abbrev pub is_ffff : Text → Bool
is_ffff g = elim (parse_hex g) [ none ↦ false | some n ↦ n == 65535 ]

abbrev pub quad_of : Option ℕ → Option ℕ → Option Text
quad_of (some high) (some low) = some (dotted (high / 256) (high % 256) (low / 256) (low % 256))
quad_of _ _ = none

abbrev pub mapped : List Text → Option Text
mapped (a ∷ b ∷ c ∷ d ∷ e ∷ f ∷ g ∷ h ∷ []) =
    if is_zero a && is_zero b && is_zero c && is_zero d && is_zero e && is_ffff f
    then quad_of (parse_hex g) (parse_hex h)
    else none
mapped _ = none

unfoldable pub embedded_ipv4 : Text → Option Text
embedded_ipv4 v6 = elim (dotted_tail v6) [
  | some quad ↦ some quad
  | none ↦ elim (expanded v6) [ none ↦ none | some groups ↦ mapped groups ]
]

abbrev pub is_local_v6 : Text → Bool
is_local_v6 v6 =
    same_text v6 (codes "::")
    || same_text v6 (codes "::1")
    || starts_with v6 (codes "fe80")
    || starts_with v6 (codes "fc")
    || starts_with v6 (codes "fd")

module _ (is_ip : Text → ℕ) where
  -- One round, `inner` judging the embedded address.
  unfoldable pub judge : (Text → Bool) → Text → Bool
  judge inner address =
      if is_ip address == 4
      then is_private_v4 address
      else if is_ip address == 6
      then (if is_local_v6 (lower address)
          then true
          else elim (embedded_ipv4 (lower address)) [ none ↦ false | some quad ↦ inner quad ])
      else true

  -- The method calls itself on the embedded address; two rounds are enough (Depth).
  unfoldable pub is_private_within : ℕ → Text → Bool
  is_private_within zero address = true
  is_private_within (suc n) address = judge (is_private_within n) address

  unfoldable pub is_private_address : Text → Bool
  is_private_address = is_private_within 2
