-- ===== src/Common/Decimal.antt =====
-- Texts cut at a character and joined again, and numbers in decimal and hexadecimal.
use Prim.Native.Nat.{ℕ, zero, suc, ◌+◌, ◌-◌, ◌*◌, ◌/◌, ◌%◌, ◌<◌}
use mathlib.Core.Path.{◌≡◌, refl, ap, ◌∙◌}
use mathlib.Core.Bool.{Bool, true, false, ◌&&◌, ◌||◌}
use mathlib.Core.Option.{Option, none, some}
use mathlib.Core.List.{List, [], ◌∷◌, ◌++◌}
use native.Mathlib.Omega.{arith}
use flow_ai.Common.Tests.{leb, ltb, ◌==◌, if◌then◌else◌, Bool-cases}
use flow_ai.Common.Lists.{includes, All}
use mathlib.Core.Logic.{inl, inr}
use flow_ai.Common.Strings.{Text}

abbrev pub starts_with : Text → Text → Bool
starts_with s [] = true
starts_with [] (d ∷ t) = false
starts_with (c ∷ s) (d ∷ t) = c == d && starts_with s t

abbrev push : ℕ → List Text → List Text
push c [] = (c ∷ []) ∷ []
push c (p ∷ ps) = (c ∷ p) ∷ ps

-- s.split(c)
unfoldable pub split : ℕ → Text → List Text
split c [] = [] ∷ []
split c (d ∷ s) = let rest = split c s in if d == c then [] ∷ rest else push d rest

pub split_none : (c : ℕ) (s : Text) → includes c s ≡ false → split c s ≡ s ∷ []
unfolding split
split_none c [] h = refl
split_none c (d ∷ s) h = ground (arith, split_none c s)

pub split-append :
    (c : ℕ) (s t : Text) → includes c s ≡ false → split c (s ++ c ∷ t) ≡ s ∷ split c t
unfolding split
split-append c [] t h = ground arith
split-append c (d ∷ s) t h = ground (arith, split-append c s t)

abbrev pub is_digit : ℕ → Bool
is_digit c = leb b'0' c && leb c b'9'

-- Number(s) of a string of digits; `none` for NaN.
unfoldable pub number_from : Text → ℕ → Option ℕ
number_from [] n = some n
number_from (c ∷ s) n =
    let rest = number_from s (n * 10 + (c - b'0')) in if is_digit c then rest else none

pub number : Text → Option ℕ
unfolding number_from
number s = number_from s 0

-- A number in decimal: its last digit after the others.
unfoldable pub show_within : ℕ → ℕ → Text
show_within zero n = []
show_within (suc k) n =
    let rest = show_within k (n / 10) in
    if ltb n 10 then (b'0' + n) ∷ [] else rest ++ (b'0' + n % 10) ∷ []

unfoldable pub show : ℕ → Text
unfolding show_within
show n = show_within (suc n) n

number_last :
    (s : Text) (m v d : ℕ)
    → number_from s m ≡ some v
    → d < 10
    → number_from (s ++ (b'0' + d) ∷ []) m ≡ some (v * 10 + d)
unfolding number_from
number_last [] m v d h low = ground arith
number_last (c ∷ s) m v d h low = ground (arith, number_last s (m * 10 + (c - b'0')) v d)

number-show_within : (k n : ℕ) → n < k → number_from (show_within k n) 0 ≡ some n
unfolding show_within number_from
number-show_within zero n h = absurd (omega arith)
number-show_within (suc k) n h =
    ground (
      arith,
      number-show_within k (n / 10),
      number_last (show_within k (n / 10)) 0 (n / 10) (n % 10),
    )

-- Reading a printed number gives it back.
pub number-show : (n : ℕ) → number (show n) ≡ some n
unfolding number show
number-show n = number-show_within (suc n) n (omega arith)

pub includes-append : (c : ℕ) (s t : Text) → includes c (s ++ t) ≡ (includes c s || includes c t)
includes-append c [] t = refl
includes-append c (d ∷ s) t = ground (arith, includes-append c s t)

show_within_clean : (c k n : ℕ) → is_digit c ≡ false → includes c (show_within k n) ≡ false
unfolding show_within
show_within_clean c zero n h = refl
show_within_clean c (suc k) n h = ground (
  arith,
  show_within_clean c k (n / 10) h,
  includes-append c (show_within k (n / 10)) ((b'0' + n % 10) ∷ []),
)

-- A printed number has digits only.
pub show_clean : (c n : ℕ) → is_digit c ≡ false → includes c (show n) ≡ false
unfolding show
show_clean c n = show_within_clean c (suc n) n

-- The value of a hexadecimal digit.
abbrev pub hex_digit : ℕ → Option ℕ
hex_digit c =
    if is_digit c
    then some (c - b'0')
    else if leb b'a' c && leb c b'f'
    then some (c - b'a' + 10)
    else if leb b'A' c && leb c b'F'
    then some (c - b'A' + 10)
    else none

-- parseInt(s, 16) of a string with no sign, blank or prefix: the longest start of digits, NaN if
-- there is none.
abbrev pub parse_hex_from : Text → ℕ → ℕ
parse_hex_from [] n = n
parse_hex_from (c ∷ s) n = elim (hex_digit c) [ none ↦ n | some d ↦ parse_hex_from s (n * 16 + d) ]

abbrev pub parse_hex : Text → Option ℕ
parse_hex [] = none
parse_hex (c ∷ s) = elim (hex_digit c) [ none ↦ none | some d ↦ some (parse_hex_from s d) ]

-- parts.join(c)
abbrev pub join : ℕ → List Text → Text
join c [] = []
join c (p ∷ []) = p
join c (p ∷ q ∷ ps) = p ++ c ∷ join c (q ∷ ps)

split-cons : (c : ℕ) (s : Text) → (p : Text) × (ps : List Text) × (split c s ≡ p ∷ ps)
unfolding split
split-cons c [] = ([], [], refl)
split-cons c (d ∷ s) =
    let (p, ps, e) = split-cons c s in
    elim (Bool-cases (d == c)) [
      | inl here ↦ ([], p ∷ ps, ground (arith, e))
      | inr other ↦ (d ∷ p, ps, ground (arith, e))
    ]

join-push : (c d : ℕ) (p : Text) (ps : List Text) → join c (push d (p ∷ ps)) ≡ d ∷ join c (p ∷ ps)
join-push c d p [] = refl
join-push c d p (q ∷ ps) = refl

-- What was cut is joined again.
pub join-split : (c : ℕ) (s : Text) → join c (split c s) ≡ s
unfolding split
join-split c [] = refl
join-split c (d ∷ s) =
    let (p, ps, e) = split-cons c s in ground (arith, e, join-push c d p ps, join-split c s)

-- Texts without the character are cut apart where they were joined.
pub split-join :
    (c : ℕ) (p : Text) (ps : List Text)
    → All (λ q. includes c q ≡ false) (p ∷ ps)
    → split c (join c (p ∷ ps)) ≡ p ∷ ps
split-join c p [] h = split_none c p h.0
split-join c p (q ∷ ps) h =
    split-append c p (join c (q ∷ ps)) h.0 ∙ ap (λ r. p ∷ r) (split-join c q ps h.1)
