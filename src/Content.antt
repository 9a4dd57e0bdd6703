-- ===== src/Content.antt =====
-- src/modules/content/content.service.ts: the content calendar and its publishing, with the rail
-- postsPublishedToday of src/modules/agent-settings/agent-settings.service.ts.
pub mod Attempts
pub mod Tests
use flow_ai.Common.{
  ℕ, suc, ◌+◌, ◌*◌, Bool, true, false, ◌&&◌, not, Option, none, some, or_default, or_else, is_some,
  List, [], ◌∷◌, leb, ◌==◌, if◌then◌else◌, Result, ok, failed, not_found, server_error,
}
use flow_ai.Database.{Table}
use flow_ai.AgentSettings.{AgentSettings, Rows, PublishChannel, same_channel, Refusal, can_publish}

pub data ContentStatus : Type 0 where
  draft scheduled publishing published publish_failed cancelled : ContentStatus

abbrev pub is_scheduled : ContentStatus → Bool
is_scheduled scheduled = true
is_scheduled _ = false

abbrev pub is_published : ContentStatus → Bool
is_published published = true
is_published _ = false

pub data PublishError : Type 0 where
  blocked : Refusal → PublishError
  channel_error : ℕ → PublishError

pub record ContentItem : Type 0 where
  pub organization_id : ℕ
  pub channel : PublishChannel
  pub title : Option ℕ
  pub caption : Option ℕ
  pub body : Option ℕ
  pub status : ContentStatus
  pub scheduled_for : Option ℕ
  pub published_at : Option ℕ
  pub external_post_id : Option ℕ
  pub error : Option PublishError
  pub attempts : ℕ

abbrev pub max_publish_attempts : ℕ
max_publish_attempts = 3

abbrev pub retry_ms : ℕ
retry_ms = 15 * 60000

pub record ContentDto : Type 0 where
  pub channel : PublishChannel
  pub title : Option ℕ
  pub caption : Option ℕ
  pub body : Option ℕ
  pub scheduled_for : Option ℕ

-- PartialType(CreateContentDto)
pub record UpdateContentDto : Type 0 where
  pub channel : Option PublishChannel
  pub title : Option ℕ
  pub caption : Option ℕ
  pub body : Option ℕ
  pub scheduled_for : Option ℕ

abbrev pub status_for : Option ℕ → ContentStatus
status_for none = draft
status_for (some t) = scheduled

abbrev pub owned : ℕ → ℕ → ℕ → ContentItem → Bool
owned org id i r = i == id && r.organization_id == org

-- The where clause of publishDueItems.
abbrev pub is_due : ℕ → ContentItem → Bool
is_due now r = is_scheduled r.status && elim r.scheduled_for [ none ↦ false | some t ↦ leb t now ]

-- What the channel answers: the id of the post, or an error.
pub data Reply : Type 0 where
  success failure : ℕ → Reply
  threw : Reply

abbrev pub is_thrown : Reply → Bool
is_thrown threw = true
is_thrown _ = false

-- `scheduled_for` is undefined, and so stays, once the attempts are used up.
abbrev pub settled : Reply → ℕ → ℕ → ContentItem → ContentItem
settled (success post) attempts now r = record r {
  status = published;
  published_at = some now;
  external_post_id = some post;
  error = none;
}
-- Nothing is written then: the item stays as it was begun.
settled threw attempts now r = r
settled (failure e) attempts now r = record r {
  status = if leb max_publish_attempts (attempts + 1) then publish_failed else scheduled;
  error = some (channel_error e);
  scheduled_for =
      if leb max_publish_attempts (attempts + 1) then r.scheduled_for else some (now + retry_ms);
}

abbrev pub begun : ContentItem → ContentItem
begun r = record r { status = publishing; attempts = r.attempts + 1 }

abbrev pub refused : Refusal → ContentItem → ContentItem
refused reason r = record r { status = publish_failed; error = some (blocked reason) }

module _ (items : Table ContentItem) where
  pub create : ℕ → ContentDto → items.State → ℕ × items.State
  create org dto s = items.create s (record {
    organization_id = org;
    channel = dto.channel;
    title = dto.title;
    caption = dto.caption;
    body = dto.body;
    status = status_for dto.scheduled_for;
    scheduled_for = dto.scheduled_for;
    published_at = none;
    external_post_id = none;
    error = none;
    attempts = 0;
  })

  pub find_one : ℕ → ℕ → items.State → Result (ℕ × ContentItem)
  find_one org id s = elim (items.find_first s (owned org id)) [
    | none ↦ failed not_found
    | some x ↦ ok x
  ]

  -- The fields of a dto that are undefined stay.
  pub update : ℕ → ℕ → UpdateContentDto → items.State → Result (Option ContentItem) × items.State
  update org id dto s =
      let f = λ (r : ContentItem). record r {
        channel = or_default dto.channel r.channel;
        title = or_else dto.title r.title;
        caption = or_else dto.caption r.caption;
        body = or_else dto.body r.body;
        scheduled_for = or_else dto.scheduled_for r.scheduled_for;
        status = if is_some dto.scheduled_for then scheduled else r.status;
      } in
      let (row, s') = items.update s id f in
      elim (find_one org id s) [ failed e ↦ (failed e, s) | ok _ ↦ (ok row, s') ]

  pub cancel : ℕ → ℕ → items.State → Result (Option ContentItem) × items.State
  cancel org id s =
      let (row, s') = items.update s id (λ r. record r { status = cancelled }) in
      elim (find_one org id s) [ failed e ↦ (failed e, s) | ok _ ↦ (ok row, s') ]

  -- `count` is prisma.count with a where clause, `publish` channelsService.publish.
  module _ (count : items.State → (ContentItem → Bool) → ℕ) (publish : ContentItem → Reply)
      (start_of_day now : ℕ) where
    pub posts_published_today : ℕ → PublishChannel → items.State → ℕ
    posts_published_today org channel s = count s (λ r.
        r.organization_id == org
        && same_channel channel r.channel
        && is_published r.status
        && elim r.published_at [ none ↦ false | some t ↦ leb start_of_day t ])

    -- Whether the channel was asked, the settings, and the items.
    pub execute_publish : ℕ → ContentItem → Rows → items.State → Bool × Rows × items.State
    execute_publish id item rows s =
        let (refusal, rows') =
          can_publish item.organization_id item.channel
            (posts_published_today item.organization_id item.channel s) rows in
        elim refusal [
          | some reason ↦ (false, rows', (items.update s id (refused reason)).1)
          | none ↦
              let s' = (items.update s id begun).1 in
              (true, rows', (items.update s' id (settled (publish item) item.attempts now)).1)
        ]

    pub publish_now : ℕ → ℕ → Rows → items.State → Result Bool × Rows × items.State
    publish_now org id rows s = elim (find_one org id s) [
      | failed e ↦ (failed e, rows, s)
      | ok (i, item) ↦
          let (asked, rows', s') = execute_publish i item rows s in
          (if asked && is_thrown (publish item) then failed server_error else ok asked, rows', s')
    ]

    -- The items that findMany found, in turn, and the ids of those for which the channel was asked.
    pub publish_due : List (ℕ × ContentItem) → Rows → items.State → List ℕ × Rows × items.State
    publish_due [] rows s = ([], rows, s)
    publish_due ((i, item) ∷ due) rows s =
        let (asked, rows', s') = execute_publish i item rows s in
        let (handed, rows'', s'') = publish_due due rows' s' in
        (if asked then i ∷ handed else handed, rows'', s'')
