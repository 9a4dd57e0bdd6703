-- ===== src/Scraper/Robots.antt =====
-- parseRobots and the test of robotsAllows of src/modules/content/scraper.service.ts.
pub mod Groups
use flow_ai.Common.{
  ℕ, Bool, true, false, ◌&&◌, ◌||◌, not, List, [], ◌∷◌, ◌==◌, leb, if◌then◌else◌, is_empty, Text,
  codes, same_text, lower, before, trim, split, starts_with, join,
}

-- One line without its comment, cut at its first colon; a carriage return at the end of a line is
-- a blank, and so goes with trim.
pub record Line : Type 0 where
  pub key : Text
  pub value : Text

abbrev pub line_of : List Text → Line
line_of [] = record { key = []; value = [] }
line_of (k ∷ rest) = record { key = lower (trim k); value = trim (join b':' rest) }

unfoldable pub read_line : Text → Line
read_line line = line_of (split b':' (trim (before b'#' line)))

-- The rules of the lines, given whether the group of all agents is being read. A line that is
-- empty has no key and adds nothing.
abbrev pub rules_of : Bool → List Line → List Text
rules_of inside [] = []
rules_of inside (l ∷ ls) =
    let inside' =
      if same_text l.key (codes "user-agent") then same_text l.value (codes "*") else inside in
    let rest = rules_of inside' ls in
    if same_text l.key (codes "disallow") && inside && not (is_empty l.value)
    then l.value ∷ rest
    else rest

abbrev pub read_lines : List Text → List Line
read_lines [] = []
read_lines (l ∷ ls) = read_line l ∷ read_lines ls

unfoldable pub parse_robots : Text → List Text
parse_robots body = rules_of false (read_lines (split 10 body))

-- The path against the rules of its origin.
abbrev pub disallowed : List Text → Text → Bool
disallowed [] path = false
disallowed (rule ∷ rules) path =
    (not (is_empty rule) && starts_with path rule) || disallowed rules path
