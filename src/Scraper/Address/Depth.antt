-- ===== src/Scraper/Address/Depth.antt =====
-- The address that an IPv6 address carries carries none itself, so two rounds are enough.
use flow_ai.Common.{
  ℕ, ◌/◌, ◌%◌, ◌≡◌, refl, false, Option, none, some, List, [], ◌∷◌, ◌++◌, arith, Text, split,
  split_none, lower, includes, includes-append, show, show_clean, parse_hex, Option-cases,
  Bool-cases, inl, inr,
}
use flow_ai.Scraper.Address.{
  judge, is_private_within, is_private_address, embedded_ipv4, after_last_colon, dotted, quad_of,
  mapped, expanded, after_pair, is_quad,
}

none_clean : (s : Text) → after_last_colon s ≡ none → includes b':' s ≡ false
none_clean [] e = refl
none_clean (c ∷ s) e = elim (Option-cases (after_last_colon s)) [
  | inr (u, f) ↦ absurd (ground arith)
  | inl n ↦ ground (arith, none_clean s n)
]

last_clean : (s t : Text) → after_last_colon s ≡ some t → includes b':' t ≡ false
last_clean [] t e = ground arith
last_clean (c ∷ s) t e = elim (Option-cases (after_last_colon s)) [
  | inr (u, f) ↦ ground (arith, last_clean s u f)
  | inl n ↦ ground (arith, none_clean s n)
]

dotted_clean : (a b c d : ℕ) → includes b':' (dotted a b c d) ≡ false
dotted_clean a b c d = ground (
  arith,
  includes-append b':' (show a) (b'.' ∷ (show b ++ b'.' ∷ (show c ++ b'.' ∷ show d))),
  includes-append b':' (show b) (b'.' ∷ (show c ++ b'.' ∷ show d)),
  includes-append b':' (show c) (b'.' ∷ show d),
  show_clean b':' a refl,
  show_clean b':' b refl,
  show_clean b':' c refl,
  show_clean b':' d refl,
)

quad_clean : (x y : Option ℕ) (q : Text) → quad_of x y ≡ some q → includes b':' q ≡ false
quad_clean none y q e = ground arith
quad_clean (some x) none q e = ground arith
quad_clean (some x) (some y) q e =
    ground (arith, dotted_clean (x / 256) (x % 256) (y / 256) (y % 256))

mapped_clean : (groups : List Text) (q : Text) → mapped groups ≡ some q → includes b':' q ≡ false
mapped_clean (a ∷ b ∷ c ∷ d ∷ e ∷ f ∷ g ∷ h ∷ []) q m =
    ground (arith, quad_clean (parse_hex g) (parse_hex h) q)
mapped_clean [] q m = ground arith
mapped_clean (a ∷ []) q m = ground arith
mapped_clean (a ∷ b ∷ []) q m = ground arith
mapped_clean (a ∷ b ∷ c ∷ []) q m = ground arith
mapped_clean (a ∷ b ∷ c ∷ d ∷ []) q m = ground arith
mapped_clean (a ∷ b ∷ c ∷ d ∷ e ∷ []) q m = ground arith
mapped_clean (a ∷ b ∷ c ∷ d ∷ e ∷ f ∷ []) q m = ground arith
mapped_clean (a ∷ b ∷ c ∷ d ∷ e ∷ f ∷ g ∷ []) q m = ground arith
mapped_clean (a ∷ b ∷ c ∷ d ∷ e ∷ f ∷ g ∷ h ∷ i ∷ groups) q m = ground arith

embedded_clean : (v q : Text) → embedded_ipv4 v ≡ some q → includes b':' q ≡ false
unfolding embedded_ipv4
embedded_clean v q m = elim (Option-cases (after_last_colon v)) [
  | inr (t, e) ↦ elim (Bool-cases (is_quad (split b'.' t))) [
    | inl quad ↦ ground (arith, last_clean v t e)
    | inr other ↦ elim (Option-cases (expanded v)) [
      | inl n ↦ absurd (ground arith)
      | inr (groups, f) ↦ ground (arith, mapped_clean groups q)
    ]
  ]
  | inl e ↦ elim (Option-cases (expanded v)) [
    | inl n ↦ absurd (ground arith)
    | inr (groups, f) ↦ ground (arith, mapped_clean groups q)
  ]
]

lower_clean : (s : Text) → includes b':' s ≡ false → includes b':' (lower s) ≡ false
lower_clean [] e = refl
lower_clean (c ∷ s) e = ground (arith, lower_clean s)

last_none : (s : Text) → includes b':' s ≡ false → after_last_colon s ≡ none
last_none [] e = refl
last_none (c ∷ s) e = ground (arith, last_none s)

pair_none : (s : Text) → includes b':' s ≡ false → after_pair s ≡ none
pair_none [] e = refl
pair_none (c ∷ []) e = refl
pair_none (c ∷ d ∷ s) e = ground (arith, pair_none (d ∷ s))

embedded_none : (s : Text) → includes b':' s ≡ false → embedded_ipv4 s ≡ none
unfolding embedded_ipv4
embedded_none s e = ground (arith, last_none s e, pair_none s e, split_none b':' s e)

-- The rounds end: the verdict on an address is the one that the method gives when the address
-- that is embedded in it, if any, has the verdict of the method itself.
pub verdict_is_recursive :
    (is_ip : Text → ℕ) (address : Text)
    → is_private_address is_ip address ≡ judge is_ip (is_private_address is_ip) address
unfolding is_private_address is_private_within judge
verdict_is_recursive is_ip address = elim (Option-cases (embedded_ipv4 (lower address))) [
  | inl n ↦ ground arith
  | inr (q, e) ↦
      let last = embedded_none (lower q) (lower_clean q (embedded_clean (lower address) q e)) in
      ground arith
]
