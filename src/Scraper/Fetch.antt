-- ===== src/Scraper/Fetch.antt =====
-- fetchPage, readCapped, robotsAllows, loadRobots and scrape of
-- src/modules/content/scraper.service.ts. `new URL(location, url)` is the parameter `resolve`. The
-- text of a page, which the source takes out of the HTML by regular expressions, is the parameter
-- `extract_text` on the bytes of the body. The four workers of scrape take the URLs in turn; here
-- one fetch ends before the next begins.
pub mod Public
pub mod Capped
use flow_ai.Common.{
  ℕ, zero, suc, ◌+◌, ◌*◌, min, Bool, true, false, ◌&&◌, ◌||◌, not, Option, none, some, List, [],
  ◌∷◌, ◌++◌, ltb, leb, ◌==◌, if◌then◌else◌, length, is_empty, Text, codes, same_text, lower,
  starts_with,
}
use flow_ai.Scraper.Guard.{Url, Response, Net, Unsafe, Checked, safe, unsafe, assert_safe_url}
use flow_ai.Scraper.Robots.{parse_robots, disallowed}

abbrev pub max_bytes : ℕ
max_bytes = 2 * 1024 * 1024

abbrev pub max_chars_per_page : ℕ
max_chars_per_page = 8000

abbrev pub max_redirects : ℕ
max_redirects = 3

pub record ScrapedPage : Type 0 where
  pub url : Text
  pub text : Text
  pub chars : ℕ

pub data FetchError : Type 0 where
  refused : Unsafe → FetchError
  disallowed_by_robots unreachable redirect_without_location bad_location : FetchError
  http_error : ℕ → FetchError
  unsupported_type too_large too_many_redirects : FetchError

pub data Fetched : Type 0 where
  page : ScrapedPage → Fetched
  unreadable : Fetched
  error : FetchError → Fetched

abbrev pub take : ℕ → Text → Text
take zero s = []
take (suc n) [] = []
take (suc n) (c ∷ s) = c ∷ take n s

-- The chunks until one would pass the cap, `total` being what was read before.
unfoldable pub read_from : ℕ → List (List ℕ) → List ℕ
read_from total [] = []
read_from total (chunk ∷ chunks) =
    let rest = read_from (total + length chunk) chunks in
    if ltb max_bytes (total + length chunk) then [] else chunk ++ rest

unfoldable pub read_capped : List (List ℕ) → List ℕ
read_capped body = read_from 0 body

abbrev pub contains : Text → Text → Bool
contains [] t = is_empty t
contains (c ∷ s) t = starts_with (c ∷ s) t || contains s t

-- /text\/html|application\/xhtml|text\/plain/i
abbrev pub is_readable_type : Text → Bool
is_readable_type t =
    contains (lower t) (codes "text/html")
    || contains (lower t) (codes "application/xhtml")
    || contains (lower t) (codes "text/plain")

abbrev pub is_too_large : Option ℕ → Bool
is_too_large none = false
is_too_large (some n) = ltb max_bytes n

-- The rules of an origin in the process's cache.
abbrev pub cached : Text → List (Text × List Text) → Option (List Text)
cached key [] = none
cached key ((k, rules) ∷ c) = if same_text k key then some rules else cached key c

-- The rules of the origins that were met, cached for the life of the process, and the network.
abbrev pub World : Net → Type 0
World net = List (Text × List Text) × net.State

-- A connection: the URL that is asked for, and the address.
pub record Connection : Type 0 where
  pub url : Text
  pub address : Text

module _ (is_ip : Text → ℕ) (net : Net) (parse_url : Text → Option Url)
    (resolve : Text → Text → Option Text) (extract_text : List ℕ → Text)
    (respect_robots : Bool) where
  -- The first hundred thousand characters of robots.txt; a failure means no rules.
  abbrev pub load_robots : Text → net.State → List Text × net.State
  load_robots origin n =
      let (body, n') = net.robots n origin in
      (elim body [ none ↦ [] | some b ↦ parse_robots (take 100000 b) ], n')

  unfoldable pub robots_allows : Url → World net → Bool × World net
  robots_allows url (cache, n) =
      let (rules, n') = load_robots url.origin n in
      let path = if is_empty url.pathname then codes "/" else url.pathname in
      elim (cached url.origin cache) [
        | some known ↦ (not (disallowed known path), (cache, n))
        | none ↦ (not (disallowed rules path), ((url.origin, rules) ∷ cache, n'))
      ]

  abbrev pub page_of : Text → List (List ℕ) → Fetched
  page_of url body =
      let text = extract_text (read_capped body) in
      if ltb (length text) 200
      then unreadable
      else page (record {
        url = url;
        text = take max_chars_per_page text;
        chars = min (length text) max_chars_per_page;
      })

  -- What a response that is no redirect gives.
  abbrev pub read_response : Text → Response → Fetched
  read_response url r =
      if ltb r.status 200 || leb 300 r.status
      then error (http_error r.status)
      else if not (is_readable_type r.content_type)
      then error unsupported_type
      else if is_too_large r.content_length
      then error too_large
      else page_of url r.body

  -- Whether the robots of the URL let it be fetched.
  abbrev pub permitted : Url → World net → Bool × World net
  permitted url w = if respect_robots then robots_allows url w else (true, w)

  abbrev pub Outcome : Type 0
  Outcome = Fetched × List Connection × World net

  -- `go_on` fetches the next hop. The connections that were made come with the result.
  abbrev pub redirected :
      (Text → World net → Outcome) → Text → Connection → World net → Option Text → Outcome
  redirected go_on url made w none = (error redirect_without_location, made ∷ [], w)
  redirected go_on url made w (some location) = elim (resolve location url) [
    | none ↦ (error bad_location, made ∷ [], w)
    | some next ↦ let (fetched, log, w') = go_on next w in (fetched, made ∷ log, w')
  ]

  abbrev pub answered :
      (Text → World net → Outcome) → Text → Connection → World net → Option Response → Outcome
  answered go_on url made w none = (error unreachable, made ∷ [], w)
  answered go_on url made w (some r) =
      if leb 300 r.status && ltb r.status 400
      then redirected go_on url made w r.location
      else (read_response url r, made ∷ [], w)

  abbrev pub visited :
      (Text → World net → Outcome) → Text → World net → Option Url → Checked → Outcome
  visited go_on url w parsed (unsafe why) = (error (refused why), [], w)
  visited go_on url w none (safe address) = (error (refused Unsafe.malformed_url), [], w)
  visited go_on url w (some parsed) (safe address) =
      let (allowed, (cache, n)) = permitted parsed w in
      let (response, m) = net.send n parsed address in
      let made : Connection = record { url = url; address = address } in
      if allowed
      then answered go_on url made (cache, m) response
      else (error disallowed_by_robots, [], (cache, n))

  -- The hops that are left.
  unfoldable pub fetch_from : ℕ → Text → World net → Outcome
  fetch_from zero url w = (error too_many_redirects, [], w)
  fetch_from (suc hops) url (cache, n) =
      let (checked, n') = assert_safe_url is_ip net parse_url url n in
      visited (fetch_from hops) url (cache, n') (parse_url url) checked

  unfoldable pub fetch_page : Text → World net → Fetched × List Connection × World net
  fetch_page url w = fetch_from (suc max_redirects) url w

-- [...new Set(urls)]
abbrev pub has_text : Text → List Text → Bool
has_text t [] = false
has_text t (u ∷ us) = same_text u t || has_text t us

abbrev pub unique_from : List Text → List Text → List Text
unique_from seen [] = []
unique_from seen (u ∷ us) =
    let with_it = unique_from (u ∷ seen) us in
    let without_it = unique_from seen us in if has_text u seen then without_it else u ∷ with_it

abbrev pub first_urls : ℕ → List Text → List Text
first_urls zero us = []
first_urls (suc n) [] = []
first_urls (suc n) (u ∷ us) = u ∷ first_urls n us

pub record ScrapeOutcome : Type 0 where
  pub pages : List ScrapedPage
  pub skipped : List (Text × Option FetchError)

abbrev pub recorded : Text → Fetched → ScrapeOutcome → ScrapeOutcome
recorded url (page p) o = record o { pages = p ∷ o.pages }
recorded url unreadable o = record o { skipped = (url, none) ∷ o.skipped }
recorded url (error e) o = record o { skipped = (url, some e) ∷ o.skipped }

module _ (is_ip : Text → ℕ) (net : Net) (parse_url : Text → Option Url)
    (resolve : Text → Text → Option Text) (extract_text : List ℕ → Text)
    (respect_robots : Bool) where
  unfoldable pub scrape_all : List Text → World net → ScrapeOutcome × List Connection × World net
  scrape_all [] w = (record { pages = []; skipped = [] }, [], w)
  scrape_all (u ∷ us) w =
      let (fetched, log, w') =
        fetch_page is_ip net parse_url resolve extract_text respect_robots u w in
      let (outcome, log', w'') = scrape_all us w' in (recorded u fetched outcome, log ++ log', w'')

  unfoldable pub scrape :
      Bool → List Text → ℕ → World net → ScrapeOutcome × List Connection × World net
  scrape enabled urls limit w =
      if enabled
      then scrape_all (first_urls limit (unique_from [] urls)) w
      else (record { pages = []; skipped = [] }, [], w)
