-- ===== src/Scraper/Address/Mapped.antt =====
-- An IPv4-mapped IPv6 address is judged as the IPv4 address in it.
use flow_ai.Common.{
  ℕ, ◌+◌, ◌-◌, ◌*◌, ◌/◌, ◌%◌, ◌<◌, ◌≡◌, refl, Bool, true, false, ◌&&◌, ◌||◌, not, none, some, List,
  [], ◌∷◌, ◌++◌, arith, ◌==◌, leb, is_empty, length, Text, codes, split, split_none, split-append,
  lower, includes, parse_hex, is_digit, ap, ◌∙◌, if◌then◌else◌, ltb,
}
use flow_ai.Scraper.Address.{
  dotted, is_private_address, is_private_within, judge, embedded_ipv4, after_last_colon, zeros,
  dotted_tail, until_pair, filled, expanded, quad_of,
}
use flow_ai.Scraper.Address.Blocks.{address_value, in_blocks, blocks, v4_judged_by_blocks}

-- Hexadecimal digits in lower case, at least one.
abbrev pub all_hex : Text → Bool
all_hex [] = true
all_hex (c ∷ s) = (is_digit c || (leb b'a' c && leb c b'f')) && all_hex s

abbrev pub is_group : Text → Bool
is_group s = all_hex s && not (is_empty s)

-- ::ffff:g:h
abbrev pub mapped_text : Text → Text → Text
mapped_text g h = codes "::ffff:" ++ (g ++ b':' ∷ h)

clean :
    (c : ℕ) (s : Text)
    → leb b'0' c && not (leb b':' c) ≡ false
    → leb b'a' c ≡ false
    → all_hex s ≡ true
    → includes c s ≡ false
clean c [] u v h = refl
clean c (d ∷ s) u v h = ground (arith, clean c s)

lower_hex : (s : Text) → all_hex s ≡ true → lower s ≡ s
lower_hex [] h = refl
lower_hex (c ∷ s) h = ground (arith, lower_hex s)

lower-append : (s t : Text) → lower (s ++ t) ≡ lower s ++ lower t
lower-append [] t = refl
lower-append (c ∷ s) t = cc (lower-append s t)

lower_mapped :
    (g h : Text) → all_hex g ≡ true → all_hex h ≡ true → lower (mapped_text g h) ≡ mapped_text g h
lower_mapped g h hg hh =
    ap (λ t. codes "::ffff:" ++ t) (lower-append g (b':' ∷ h) ∙ cc (lower_hex g hg, lower_hex h hh))

last_none : (s : Text) → includes b':' s ≡ false → after_last_colon s ≡ none
last_none [] e = refl
last_none (c ∷ s) e = ground (arith, last_none s)

last-append : (s t : Text) → includes b':' t ≡ false → after_last_colon (s ++ b':' ∷ t) ≡ some t
last-append [] t e = ground (arith, last_none t)
last-append (c ∷ s) t e = ground (arith, last-append s t)

until_none : (s : Text) → includes b':' s ≡ false → until_pair s ≡ s
until_none [] e = refl
until_none (c ∷ []) e = refl
until_none (c ∷ d ∷ s) e = ground (arith, until_none (d ∷ s))

until-append :
    (s t : Text) (d : ℕ)
    → includes b':' s ≡ false
    → (d == b':') ≡ false
    → until_pair (s ++ b':' ∷ d ∷ t) ≡ s ++ b':' ∷ until_pair (d ∷ t)
until-append [] t d e k = ground arith
until-append (c ∷ []) t d e k = ground (arith, until-append [] t d)
until-append (c ∷ x ∷ s) t d e k = ground (arith, until-append (x ∷ s) t d)

-- The first character of a group is no colon.
group-cases :
    (h : Text)
    → is_group h ≡ true
    → (c : ℕ) × (s : Text) × (h ≡ c ∷ s) × ((c == b':') ≡ false) × (all_hex h ≡ true)
group-cases [] k = absurd (ground arith)
group-cases (c ∷ s) k = (c, s, refl, ground arith, ground arith)

dotted_none :
    (g h : Text) → is_group g ≡ true → is_group h ≡ true → dotted_tail (mapped_text g h) ≡ none
dotted_none g h kg kh =
    let (c, s, e, k, hh) = group-cases h kh in
    let l : after_last_colon (mapped_text g h) ≡ some h =
      last-append (codes "::ffff:" ++ g) h (clean b':' h refl refl hh) in
    let m : split b'.' h ≡ h ∷ [] = split_none b'.' h (clean b'.' h refl refl hh) in
    ground (arith, l, m)

tail_kept :
    (g h : Text)
    → is_group g ≡ true
    → is_group h ≡ true
    → until_pair (codes "ffff:" ++ (g ++ b':' ∷ h)) ≡ codes "ffff:" ++ (g ++ b':' ∷ h)
tail_kept [] h kg kh = absurd (ground arith)
tail_kept (c ∷ s) [] kg kh = absurd (ground arith)
tail_kept (c ∷ s) (d ∷ t) kg kh =
    let eg : includes b':' (c ∷ s) ≡ false = clean b':' (c ∷ s) refl refl (ground arith) in
    let eh : includes b':' (d ∷ t) ≡ false = clean b':' (d ∷ t) refl refl (ground arith) in
    until-append (codes "ffff") (s ++ b':' ∷ d ∷ t) c refl (ground arith)
    ∙ ap (λ x. codes "ffff:" ++ x)
        (until-append (c ∷ s) t d eg (ground arith)
          ∙ ap (λ x. (c ∷ s) ++ b':' ∷ x) (until_none (d ∷ t) eh))

split_kept :
    (g h : Text)
    → is_group g ≡ true
    → is_group h ≡ true
    → split b':' (codes "ffff:" ++ (g ++ b':' ∷ h)) ≡ codes "ffff" ∷ g ∷ h ∷ []
split_kept g h kg kh =
    let (c, s, e, k, hg) = group-cases g kg in
    let (d, t, f, l, hh) = group-cases h kh in
    split-append b':' (codes "ffff") (g ++ b':' ∷ h) refl
    ∙ ap (λ x. codes "ffff" ∷ x)
        (split-append b':' g h (clean b':' g refl refl hg)
          ∙ ap (λ x. g ∷ x) (split_none b':' h (clean b':' h refl refl hh)))

filled_kept :
    (g h : Text)
    → is_group g ≡ true
    → is_group h ≡ true
    → filled (codes "ffff" ∷ g ∷ h ∷ []) ≡ codes "ffff" ∷ g ∷ h ∷ []
filled_kept [] h kg kh = absurd (ground arith)
filled_kept (c ∷ s) [] kg kh = absurd (ground arith)
filled_kept (c ∷ s) (d ∷ t) kg kh = refl

expanded_mapped :
    (g h : Text)
    → is_group g ≡ true
    → is_group h ≡ true
    → expanded (mapped_text g h) ≡ some (zeros 5 ++ (codes "ffff" ∷ g ∷ h ∷ []))
unfolding split
expanded_mapped g h kg kh =
    let tail : filled (split b':' (until_pair (codes "ffff:" ++ (g ++ b':' ∷ h))))
        ≡ codes "ffff" ∷ g ∷ h ∷ [] =
      ap (λ t. filled (split b':' t)) (tail_kept g h kg kh)
      ∙ ap filled (split_kept g h kg kh)
      ∙ filled_kept g h kg kh in
    ap
      (λ (t : List Text).
        if ltb 8 (0 + length t) then none else some (zeros (8 - (0 + length t)) ++ t))
      tail

embedded_mapped :
    (g h : Text)
    → is_group g ≡ true
    → is_group h ≡ true
    → embedded_ipv4 (mapped_text g h) ≡ quad_of (parse_hex g) (parse_hex h)
unfolding embedded_ipv4
embedded_mapped g h kg kh = ground (arith, dotted_none g h kg kh, expanded_mapped g h kg kh)

-- An IPv4-mapped address ::ffff:g:h, its last two groups written with the digits 0 to 9 and a to f,
-- is refused exactly when the IPv4 address that they hold lies in one of the blocks.
pub mapped_judged_by_blocks :
    (is_ip : Text → ℕ) (g h : Text) (high low : ℕ)
    → is_group g ≡ true
    → is_group h ≡ true
    → parse_hex g ≡ some high
    → parse_hex h ≡ some low
    → high < 65536
    → low < 65536
    → is_ip (mapped_text g h) ≡ 6
    → is_ip (dotted (high / 256) (high % 256) (low / 256) (low % 256)) ≡ 4
    → is_private_address is_ip (mapped_text g h) ≡ in_blocks blocks (high * 65536 + low)
unfolding is_private_address is_private_within judge
mapped_judged_by_blocks is_ip g h high low kg kh eg eh bg bh six four =
    let (c, s, e, k, hg) = group-cases g kg in
    let (d, t, f, l, hh) = group-cases h kh in
    let held : embedded_ipv4 (lower (mapped_text g h))
        ≡ some (dotted (high / 256) (high % 256) (low / 256) (low % 256)) =
      ap embedded_ipv4 (lower_mapped g h hg hh) ∙ embedded_mapped g h kg kh ∙ cc (eg, eh) in
    let whole : address_value (high / 256) (high % 256) (low / 256) (low % 256)
        ≡ high * 65536 + low =
      omega arith in
    let judged =
      v4_judged_by_blocks is_ip (high / 256) (high % 256) (low / 256) (low % 256) (omega arith)
        (omega arith) (omega arith) (omega arith) four
      ∙ ap (in_blocks blocks) whole in
    ground (arith, held, judged, six)
