-- ===== src/Scraper/Address/Blocks.antt =====
-- The ranges that are refused, as blocks of addresses: an IPv4 address is a number of 32 bits.
use Prim.Native.Nat.{◌^◌}
use flow_ai.Common.{
  ℕ, ◌+◌, ◌-◌, ◌*◌, ◌/◌, ◌<◌, ◌≡◌, refl, Bool, false, ◌||◌, some, List, [], ◌∷◌, arith, ◌==◌, Text,
  split, split_none, split-append, number, number-show, show, show_clean, ap, ◌∙◌,
}
use flow_ai.Scraper.Address.{
  is_private_quad, numbers, is_private_parts, is_private_v4, dotted, is_private_address,
  is_private_within, judge,
}

abbrev pub address_value : ℕ → ℕ → ℕ → ℕ → ℕ
address_value a b c d = a * 16777216 + b * 65536 + c * 256 + d

-- A block a.b.0.0/len, as its first 16 bits and its length.
pub record Block : Type 0 where
  pub first : ℕ
  pub second : ℕ
  pub len : ℕ

abbrev pub in_block : ℕ → Block → Bool
in_block n block =
    n / 2 ^ (32 - block.len) == address_value block.first block.second 0 0 / 2 ^ (32 - block.len)

abbrev block : ℕ → ℕ → ℕ → Block
block a b len = record { first = a; second = b; len = len }

-- This network, private, loopback, link-local, private, private, shared, protocol assignments, and
-- multicast with all above.
abbrev pub blocks : List Block
blocks =
    block 0 0 8
    ∷ block 10 0 8
    ∷ block 127 0 8
    ∷ block 169 254 16
    ∷ block 172 16 12
    ∷ block 192 168 16
    ∷ block 100 64 10
    ∷ block 192 0 16
    ∷ block 224 0 3
    ∷ []

abbrev pub in_blocks : List Block → ℕ → Bool
in_blocks [] n = false
in_blocks (b ∷ bs) n = in_block n b || in_blocks bs n

-- The leading bits of an address that the blocks look at.
leading :
    (a b c d : ℕ)
    → a < 256
    → b < 256
    → c < 256
    → d < 256
    → (address_value a b c d / 16777216 ≡ a)
      × (address_value a b c d / 65536 ≡ a * 256 + b)
      × (address_value a b c d / 1048576 ≡ a * 16 + b / 16)
      × (address_value a b c d / 4194304 ≡ a * 4 + b / 64)
      × (address_value a b c d / 536870912 ≡ a / 32)
leading a b c d ha hb hc hd = (omega arith, omega arith, omega arith, omega arith, omega arith)

quad_in_blocks :
    (a b c d : ℕ)
    → a < 256
    → b < 256
    → c < 256
    → d < 256
    → is_private_quad a b ≡ in_blocks blocks (address_value a b c d)
quad_in_blocks a b c d ha hb hc hd =
    let (e24, e16, e20, e22, e29) = leading a b c d ha hb hc hd in
    rw (e24, e16, e20, e22, e29) (ground arith)

split-dotted : (a b c d : ℕ) → split b'.' (dotted a b c d) ≡ show a ∷ show b ∷ show c ∷ show d ∷ []
split-dotted a b c d =
    split-append b'.' (show a) _ (show_clean b'.' a refl)
    ∙ ap (λ ps. show a ∷ ps)
        (split-append b'.' (show b) _ (show_clean b'.' b refl)
          ∙ ap (λ ps. show b ∷ ps)
              (split-append b'.' (show c) _ (show_clean b'.' c refl)
                ∙ ap (λ ps. show c ∷ ps) (split_none b'.' (show d) (show_clean b'.' d refl))))

numbers_cons :
    (p : Text) (ps : List Text) {n : ℕ} {ns : List ℕ}
    → number p ≡ some n
    → numbers ps ≡ some ns
    → numbers (p ∷ ps) ≡ some (n ∷ ns)
numbers_cons p ps e f = ground arith

pub v4-dotted : (a b c d : ℕ) → is_private_v4 (dotted a b c d) ≡ is_private_quad a b
unfolding is_private_v4
v4-dotted a b c d = rw (split-dotted a b c d) (
    ap is_private_parts (
      numbers_cons (show a) (show b ∷ show c ∷ show d ∷ []) (number-show a) (
        numbers_cons (show b) (show c ∷ show d ∷ []) (number-show b) (
          numbers_cons (show c) (show d ∷ []) (number-show c)
            (numbers_cons (show d) [] {ns = []} (number-show d) refl)))))

-- A printed IPv4 address is refused exactly when, as a number of 32 bits, it lies in one of the
-- blocks: 0/8, 10/8, 127/8, 169.254/16, 172.16/12, 192.168/16, 100.64/10, 192.0/16 and 224/3.
pub v4_judged_by_blocks :
    (is_ip : Text → ℕ) (a b c d : ℕ)
    → a < 256
    → b < 256
    → c < 256
    → d < 256
    → is_ip (dotted a b c d) ≡ 4
    → is_private_address is_ip (dotted a b c d) ≡ in_blocks blocks (address_value a b c d)
unfolding is_private_address is_private_within judge
v4_judged_by_blocks is_ip a b c d ha hb hc hd four =
    rw four (v4-dotted a b c d ∙ quad_in_blocks a b c d ha hb hc hd)
