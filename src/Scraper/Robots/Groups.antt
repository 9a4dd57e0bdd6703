-- ===== src/Scraper/Robots/Groups.antt =====
-- A robots.txt as it is written, and the rules that are read from it.
use flow_ai.Common.{
  is_blank, trim_start, trim_end, trim, ℕ, ◌≡◌, refl, Bool, true, false, ◌&&◌, not, List, [], ◌∷◌,
  ◌++◌, arith, ◌==◌, if◌then◌else◌, is_empty, Text, codes, same_text, lower, before, split,
  split-append, join, includes, includes-append, Bool-cases, inl, inr, All, join-split, split-join,
  ap, ◌∙◌, sym,
}
use mathlib.Core.List.{append_assoc}
use flow_ai.Scraper.Robots.{line_of, read_line, rules_of, read_lines, parse_robots}

pub record Group : Type 0 where
  pub agent : Text
  pub paths : List Text

-- Neither a blank nor the mark of a comment.
abbrev pub is_plain : ℕ → Bool
is_plain c = not (is_blank c) && not (c == b'#')

abbrev pub all_plain : Text → Bool
all_plain [] = true
all_plain (c ∷ s) = is_plain c && all_plain s

-- Some characters, all of them plain.
abbrev pub Word : Text → Type 0
Word s = (all_plain s ≡ true) × (is_empty s ≡ false)

abbrev pub Written : Group → Type 0
Written g = Word g.agent × All Word g.paths

abbrev pub agent_line : Text → Text
agent_line agent = codes "User-agent: " ++ agent

abbrev pub disallow_line : Text → Text
disallow_line path = codes "Disallow: " ++ path

abbrev pub group_lines : List Text → List Text → List Text
group_lines [] ls = ls
group_lines (p ∷ ps) ls = disallow_line p ∷ group_lines ps ls

abbrev pub lines : List Group → List Text
lines [] = []
lines (g ∷ gs) = agent_line g.agent ∷ group_lines g.paths (lines gs)

-- The paths of the groups for all agents, in their order.
abbrev pub expected : List Group → List Text
expected [] = []
expected (g ∷ gs) = if same_text g.agent (codes "*") then g.paths ++ expected gs else expected gs

no_comment : (s : Text) → all_plain s ≡ true → before b'#' s ≡ s
no_comment [] h = refl
no_comment (c ∷ s) h = ground (arith, no_comment s)

end_kept : (s : Text) → all_plain s ≡ true → trim_end s ≡ s
end_kept [] h = refl
end_kept (c ∷ s) h = ground (arith, end_kept s)

trim-Word : (s : Text) → Word s → trim s ≡ s
trim-Word [] h = absurd (ground arith)
trim-Word (c ∷ s) h = ground (arith, end_kept (c ∷ s))

some_left : (s : Text) (d : ℕ) (t : Text) → is_empty (s ++ d ∷ t) ≡ false
some_left [] d t = refl
some_left (c ∷ s) d t = refl

trim_end_append : (s t : Text) → Word t → trim_end (s ++ t) ≡ s ++ t
trim_end_append [] t h = end_kept t h.0
trim_end_append (c ∷ s) [] h = absurd (ground arith)
trim_end_append (c ∷ s) (d ∷ t) h = ground (arith, trim_end_append s (d ∷ t) h, some_left s d t)

plain_apart : (c : ℕ) (s : Text) → is_plain c ≡ false → all_plain s ≡ true → includes c s ≡ false
plain_apart c [] k h = refl
plain_apart c (d ∷ s) k h = ground (arith, plain_apart c s)

before-append :
    (s t : Text) → includes b'#' s ≡ false → all_plain t ≡ true → before b'#' (s ++ t) ≡ s ++ t
before-append [] t e h = no_comment t h
before-append (c ∷ s) t e h = ground (arith, before-append s t)

start_kept : (k t : Text) → Word k → trim_start (k ++ t) ≡ k ++ t
start_kept [] t h = absurd (ground arith)
start_kept (c ∷ k) t h = ground arith

-- A line `key: value` is read as it is meant.
read-field :
    (k a : Text)
    → Word k
    → includes b':' k ≡ false
    → includes b'#' k ≡ false
    → Word a
    → read_line (k ++ b':' ∷ b' ' ∷ a) ≡ record { key = lower k; value = a }
unfolding read_line
read-field k a hk ck mk h =
    let line = k ++ b':' ∷ b' ' ∷ a in
    let split_up : (k ++ b':' ∷ b' ' ∷ []) ++ a ≡ line = append_assoc k (b':' ∷ b' ' ∷ []) a in
    let bare : before b'#' line ≡ line =
      ap (before b'#') (sym split_up)
      ∙ before-append (k ++ b':' ∷ b' ' ∷ []) a
          (ground (arith, includes-append b'#' k (b':' ∷ b' ' ∷ []))) h.0
      ∙ split_up in
    let kept : trim_end line ≡ line =
      ap trim_end (sym split_up) ∙ trim_end_append (k ++ b':' ∷ b' ' ∷ []) a h ∙ split_up in
    let started : trim line ≡ line = ap trim_end (start_kept k (b':' ∷ b' ' ∷ a) hk) ∙ kept in
    let cut : split b':' line ≡ k ∷ split b':' (b' ' ∷ a) = split-append b':' k (b' ' ∷ a) ck in
    let back : join b':' (split b':' (b' ' ∷ a)) ≡ b' ' ∷ a = join-split b':' (b' ' ∷ a) in
    ap (λ t. line_of (split b':' (trim t))) bare
    ∙ ap (λ t. line_of (split b':' t)) started
    ∙ ap line_of cut
    ∙ ap (λ t. record { key = lower (trim k); value = trim t }) back
    ∙ ap (λ t. record { key = lower t; value = trim a }) (trim-Word k hk)
    ∙ ap (λ t. record { key = lower k; value = t }) (trim-Word a h)

read-group_lines :
    (inside : Bool) (ps ls : List Text)
    → All Word ps
    → rules_of inside (read_lines (group_lines ps ls))
      ≡ (if inside then ps ++ rules_of inside (read_lines ls) else rules_of inside (read_lines ls))
read-group_lines true [] ls h = refl
read-group_lines false [] ls h = refl
read-group_lines inside (p ∷ ps) ls h =
    let here = read-field (codes "Disallow") p (refl, refl) refl refl h.0 in
    ground (arith, here, h.0.1, read-group_lines inside ps ls h.1)

rules-lines :
    (inside : Bool) (gs : List Group)
    → All Written gs
    → rules_of inside (read_lines (lines gs)) ≡ expected gs
rules-lines inside [] h = refl
rules-lines inside (g ∷ gs) h =
    let here = read-field (codes "User-agent") g.agent (refl, refl) refl refl h.0.0 in
    elim (Bool-cases (same_text g.agent (codes "*"))) [
      | inl all ↦
          ground
            (arith, here, read-group_lines true g.paths (lines gs) h.0.1, rules-lines true gs h.1)
      | inr other ↦
          ground
            (arith, here, read-group_lines false g.paths (lines gs) h.0.1, rules-lines false gs h.1)
    ]

-- No line holds a line feed.
field_unbroken : (k a : Text) → includes 10 k ≡ false → Word a → includes 10 (k ++ a) ≡ false
field_unbroken k a e h = ground (arith, includes-append 10 k a, plain_apart 10 a refl h.0)

group_lines-All :
    (ps ls : List Text)
    → All Word ps
    → All (λ q. includes 10 q ≡ false) ls
    → All (λ q. includes 10 q ≡ false) (group_lines ps ls)
group_lines-All [] ls h k = k
group_lines-All (p ∷ ps) ls h k =
    (field_unbroken (codes "Disallow: ") p refl h.0, group_lines-All ps ls h.1 k)

lines-All : (gs : List Group) → All Written gs → All (λ q. includes 10 q ≡ false) (lines gs)
lines-All [] h = tt
lines-All (g ∷ gs) h = (
  field_unbroken (codes "User-agent: ") g.agent refl h.0.0,
  group_lines-All g.paths (lines gs) h.0.1 (lines-All gs h.1),
)

-- A robots.txt written as groups, each a line for its agent and a line for each path, the words
-- having no blank and no comment mark, is read back as the paths of the groups for all agents, in
-- their order.
pub parse-groups :
    (gs : List Group) → All Written gs → parse_robots (join 10 (lines gs)) ≡ expected gs
unfolding parse_robots split read_line
parse-groups [] h = refl
parse-groups (g ∷ gs) h =
    ap (λ ls. rules_of false (read_lines ls))
      (split-join 10 (agent_line g.agent) (group_lines g.paths (lines gs)) (lines-All (g ∷ gs) h))
    ∙ rules-lines false (g ∷ gs) h
