-- ===== src/Scraper/Tests.antt =====
-- The theorems on the scraper at addresses, a redirect, a body and a robots.txt.
use flow_ai.Common.{
  ℕ, suc, ◌+◌, ◌*◌, ◌≤◌, ◌≡◌, refl, true, false, Option, none, some, List, [], ◌∷◌, arith, includes,
  if◌then◌else◌, length, All, Text, codes, show, ◌⊎◌, ◌<◌, ◌++◌, join,
}
use flow_ai.Scraper.Address.{dotted, is_private_address}
use flow_ai.Scraper.Address.Blocks.{in_blocks, blocks, address_value, v4_judged_by_blocks}
use flow_ai.Scraper.Address.Mapped.{mapped_text, mapped_judged_by_blocks}
use flow_ai.Scraper.Guard.{Url, Net}
use flow_ai.Scraper.Fetch.{Connection, scrape, read_capped, max_bytes}
use flow_ai.Scraper.Fetch.Public.{scraped-Public}
use flow_ai.Scraper.Fetch.Capped.{read_within_cap, whole}
use flow_ai.Scraper.Robots.{parse_robots}
use flow_ai.Scraper.Robots.Groups.{Group, lines, expected, parse-groups}

abbrev is_ip : Text → ℕ
is_ip t = if includes b':' t then 6 else 4

v4_judged_by_blocks_example :
    is_private_address is_ip (dotted 172 20 0 1) ≡ in_blocks blocks (address_value 172 20 0 1)
unfolding show
v4_judged_by_blocks_example =
    v4_judged_by_blocks is_ip 172 20 0 1 (omega arith) (omega arith) (omega arith) (omega arith)
      refl

-- Loopback, in the form that URLs are brought to.
mapped_judged_by_blocks_example :
    is_private_address is_ip (mapped_text (codes "7f00") (codes "1"))
    ≡ in_blocks blocks (32512 * 65536 + 1)
unfolding show
mapped_judged_by_blocks_example =
    mapped_judged_by_blocks is_ip (codes "7f00") (codes "1") 32512 1 refl refl refl refl
      (omega arith) (omega arith) refl refl

-- Each request is redirected to the name "b", which resolves to a private address the second time.
abbrev net : Net
net = record {
  State = ℕ;
  lookup = λ n host.
      (some ((if includes b'b' host then codes "10.0.0.1" else codes "8.8.8.8") ∷ []), suc n);
  send = λ n url address. (
    some (record {
      status = 302;
      location = some (codes "b");
      content_type = [];
      content_length = none;
      body = [];
    }),
    n,
  );
  robots = λ n origin. (none, n);
}

abbrev parse_url : Text → Option Url
parse_url t = some (record {
  protocol = codes "http:";
  username = [];
  password = [];
  hostname = t;
  origin = t;
  pathname = codes "/";
})

abbrev not_ip : Text → ℕ
not_ip t = if includes b'.' t then 4 else 0

scraped-Public_example :
    let (outcome, log, w) =
      scrape not_ip net parse_url
        (λ location base. some location)
        (λ bytes. bytes)
        true
        true
        (codes "a" ∷ codes "a" ∷ [])
        3
        ([], 0) in
    All (λ (c : Connection). is_private_address not_ip c.address ≡ false) log × (length log ≤ 4 * 3)
scraped-Public_example =
    scraped-Public not_ip net parse_url (λ location base. some location) (λ bytes. bytes) true true
      (codes "a" ∷ codes "a" ∷ []) 3 ([], 0)

abbrev body : List (List ℕ)
body = (1 ∷ 2 ∷ []) ∷ [] ∷ (3 ∷ []) ∷ []

read_within_cap_example :
    (length (read_capped body) ≤ max_bytes)
    × (rest : List ℕ) × (read_capped body ++ rest ≡ whole body)
    × ((read_capped body ≡ whole body) ⊎ (max_bytes < length (whole body)))
read_within_cap_example = read_within_cap body

abbrev groups : List Group
groups =
    record { agent = codes "*"; paths = codes "/private" ∷ codes "/a:b" ∷ [] }
    ∷ record { agent = codes "bot"; paths = codes "/" ∷ [] }
    ∷ []

parse-groups_example : parse_robots (join 10 (lines groups)) ≡ expected groups
parse-groups_example =
    parse-groups groups
      (((refl, refl), ((refl, refl), ((refl, refl), tt))), (((refl, refl), ((refl, refl), tt)), tt))
