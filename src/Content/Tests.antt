-- ===== src/Content/Tests.antt =====
-- The publishing theorem at an item that failed once before, and a channel that is down.
use mathlib.Core.Option
use flow_ai.Common.{ℕ, ◌+◌, ◌≤◌, ◌≡◌, refl, Bool, Option, none, some, List, [], ◌∷◌, ◌++◌, arith}
use flow_ai.Database.Rows.{rows}
use flow_ai.AgentSettings
use flow_ai.AgentSettings.{Rows, linkedin, can_publish, default_settings}
use flow_ai.Content.{ContentItem, Reply, failure, scheduled, publish_due}
use flow_ai.Content.Attempts.{Tried, nothing, found, done, tick, occurrences, attempts_bounded}

abbrev post : ContentItem
post = record {
  organization_id = 1;
  channel = linkedin;
  title = none;
  caption = some 5;
  body = none;
  status = scheduled;
  scheduled_for = some 100;
  published_at = none;
  external_post_id = none;
  error = none;
  attempts = 1;
}

abbrev calendar : List (Option ContentItem)
calendar = some post ∷ []

abbrev settings : Rows
settings = AgentSettings.put 1 default_settings (λ _. none)

abbrev nothing_yet : List (Option ContentItem) → (ContentItem → Bool) → ℕ
nothing_yet s p = 0

abbrev down : ContentItem → Reply
down item = failure 503

abbrev due : List (ℕ × ContentItem)
due = (0, post) ∷ []

post-Tried : Tried (rows ContentItem) 0 1 calendar
post-Tried = record {
  item = post;
  stored = refl;
  count = refl;
  at_most = omega arith;
  retried = λ _. omega arith;
}

abbrev handed : List ℕ
handed = (publish_due (rows ContentItem) nothing_yet down 0 200 due settings calendar).0 ++ []

attempts_bounded_example :
    (1 + occurrences 0 handed ≤ 3)
    × (Option.map
          (λ r. r.attempts)
          ((rows ContentItem).find
            (publish_due (rows ContentItem) nothing_yet down 0 200 due settings calendar).2
            0)
        ≡ some (1 + occurrences 0 handed))
attempts_bounded_example =
    attempts_bounded (rows ContentItem) 0 1 settings
      (publish_due (rows ContentItem) nothing_yet down 0 200 due settings calendar).1 calendar
      (publish_due (rows ContentItem) nothing_yet down 0 200 due settings calendar).2 handed
      post-Tried (tick nothing_yet down 0 200 due (found refl refl tt nothing) done)
