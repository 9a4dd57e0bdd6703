-- ===== src/Content/Attempts.antt =====
-- How often the scheduler asks the channel to publish an item.
use mathlib.Core.Option
use flow_ai.Common.{
  ℕ, suc, ◌+◌, ◌≤◌, ◌<◌, ◌≡◌, sym, ◌∙◌, subst, Bool, true, false, Option, some, List, [], ◌∷◌, ◌++◌,
  arith, ◌==◌, if◌then◌else◌, All, Bool-cases, Option-cases, inl, inr,
}
use flow_ai.Database.{Table}
use flow_ai.AgentSettings.{Rows, Refusal, can_publish}
use flow_ai.Content.{
  ContentItem, Reply, success, failure, threw, is_scheduled, is_due, settled, begun, refused,
  posts_published_today, execute_publish, publish_due,
}

-- How often a number stands in a list.
pub occurrences : ℕ → List ℕ → ℕ
occurrences i [] = 0
occurrences i (j ∷ l) = (if j == i then 1 else 0) + occurrences i l

occurrences-append :
    (i : ℕ) (l m : List ℕ) → occurrences i (l ++ m) ≡ occurrences i l + occurrences i m
unfolding occurrences
occurrences-append i [] m = omega arith
occurrences-append i (j ∷ l) m = omega (arith, occurrences-append i l m)

occurrences_same :
    (i j n : ℕ) (b : Bool) (l : List ℕ)
    → (i == j) ≡ true
    → (n + (if b then 1 else 0)) + occurrences i l ≡ n + occurrences i (if b then j ∷ l else l)
unfolding occurrences
occurrences_same i j n b l e = ground arith

occurrences_other :
    (i j n : ℕ) (b : Bool) (l : List ℕ)
    → (i == j) ≡ false
    → n + occurrences i l ≡ n + occurrences i (if b then j ∷ l else l)
unfolding occurrences
occurrences_other i j n b l e = ground arith

module _ (items : Table ContentItem) where
  -- The item has had n attempts, at most 3, and fewer if it is still scheduled.
  pub record Tried (i n : ℕ) (s : items.State) : Type 0 where
    pub item : ContentItem
    pub stored : items.find s i ≡ some item
    pub count : item.attempts ≡ n
    pub at_most : n ≤ 3
    pub retried : is_scheduled item.status ≡ true → n < 3

  -- What findMany promises of the rows it answers: they are stored and due, each once.
  pub data Found (now : ℕ) : List (ℕ × ContentItem) → items.State → Type 0 where
    nothing : {s : items.State} → Found now [] s
    found :
        {i : ℕ} {r : ContentItem} {due : List (ℕ × ContentItem)} {s : items.State}
        → items.find s i ≡ some r
        → is_due now r ≡ true
        → All (λ d. (d.0 == i) ≡ false) due
        → Found now due s
        → Found now ((i, r) ∷ due) s

  module _ (count : items.State → (ContentItem → Bool) → ℕ) (publish : ContentItem → Reply)
      (start_of_day now : ℕ) where
    gate : ContentItem → Rows → items.State → Option Refusal
    gate item rows s =
        (can_publish item.organization_id item.channel
          (posts_published_today items count publish start_of_day now item.organization_id
            item.channel s)
          rows).0

    asked : ℕ → ContentItem → Rows → items.State → Bool
    asked i item rows s = (execute_publish items count publish start_of_day now i item rows s).0

    after : ℕ → ContentItem → Rows → items.State → items.State
    after i item rows s = (execute_publish items count publish start_of_day now i item rows s).2

    -- Other items are as before.
    find-after_other :
        (i j : ℕ) (item : ContentItem) (rows : Rows) (s : items.State)
        → (j == i) ≡ false
        → items.find (after i item rows s) j ≡ items.find s j
    unfolding execute_publish after gate
    find-after_other i j item rows s h = elim (Option-cases (gate item rows s)) [
      | inl e ↦
          let s' = (items.update s i begun).1 in
          rw (e, after, execute_publish)
            (ground (
              arith,
              items.find-update s i begun j,
              items.find-update s' i (settled (publish item) item.attempts now) j,
            ))
      | inr (reason, e) ↦
          rw (e, after, execute_publish) (ground (arith, items.find-update s i (refused reason) j))
    ]

    settled-Tried :
        (i n : ℕ) (reply : Reply) (item : ContentItem) (s : items.State)
        → items.find s i ≡ some (settled reply item.attempts now (begun item))
        → item.attempts ≡ n
        → n < 3
        → Tried i (suc n) s
    settled-Tried i n (success post) item s e c h = record {
      item = settled (success post) item.attempts now (begun item);
      stored = e;
      count = omega (arith, c);
      at_most = omega arith;
      retried = λ q. ground arith;
    }
    settled-Tried i n (failure x) item s e c h = record {
      item = settled (failure x) item.attempts now (begun item);
      stored = e;
      count = omega (arith, c);
      at_most = omega arith;
      retried = λ q. ground arith;
    }
    settled-Tried i n threw item s e c h = record {
      item = begun item;
      stored = e;
      count = omega (arith, c);
      at_most = omega arith;
      retried = λ q. ground arith;
    }

    -- A due item is asked for once, or refused.
    after-Tried :
        (i n : ℕ) (item : ContentItem) (rows : Rows) (s : items.State)
        → items.find s i ≡ some item
        → is_due now item ≡ true
        → Tried i n s
        → Tried i (n + (if asked i item rows s then 1 else 0)) (after i item rows s)
    unfolding execute_publish after asked gate
    after-Tried i n item rows s e d t = elim (Option-cases (gate item rows s)) [
      | inl g ↦
          let s' = (items.update s i begun).1 in
          let f = settled (publish item) item.attempts now in
          let begins : items.find s' i ≡ some (begun item) =
            items.find-update s i begun i ∙ ground arith in
          let settles : items.find (items.update s' i f).1 i ≡ some (f (begun item)) =
            ground (arith, items.find-update s' i f i) in
          rw (g, after, asked, execute_publish)
            (subst (λ m. Tried i m (items.update s' i f).1) (omega arith)
              (settled-Tried i n (publish item) item (items.update s' i f).1 settles
                (ground (arith, t.stored, t.count)) (ground (arith, t.stored, t.retried))))
      | inr (reason, g) ↦
          let refuses : items.find (items.update s i (refused reason)).1 i
              ≡ some (refused reason item) =
            ground (arith, items.find-update s i (refused reason) i) in
          rw (g, after, asked, execute_publish)
            (record {
              item = refused reason item;
              stored = refuses;
              count = ground (arith, t.stored, t.count);
              at_most = omega (arith, t.at_most);
              retried = λ q. ground arith;
            })
    ]

    other-Tried :
        (i j n : ℕ) (item : ContentItem) (rows : Rows) (s : items.State)
        → (j == i) ≡ false
        → Tried j n s
        → Tried j n (after i item rows s)
    other-Tried i j n item rows s h t = record {
      item = t.item;
      stored = find-after_other i j item rows s h ∙ t.stored;
      count = t.count;
      at_most = t.at_most;
      retried = t.retried;
    }

    after-Found :
        (i : ℕ) (item : ContentItem) (rows : Rows) (s : items.State) (due : List (ℕ × ContentItem))
        → All (λ d. (d.0 == i) ≡ false) due
        → Found now due s
        → Found now due (after i item rows s)
    after-Found i item rows s [] a nothing = nothing
    after-Found i item rows s ((j, r) ∷ due) a (found e d apart rest) =
        found (find-after_other i j item rows s a.0 ∙ e) d apart
          (after-Found i item rows s due a.1 rest)

    publish_due-Tried :
        (i n : ℕ) (due : List (ℕ × ContentItem)) (rows : Rows) (s : items.State)
        → Found now due s
        → Tried i n s
        → let (handed, rows', s') = publish_due items count publish start_of_day now due rows s in
          Tried i (n + occurrences i handed) s'
    unfolding publish_due occurrences after asked
    publish_due-Tried i n [] rows s f t = subst (λ m. Tried i m s) (omega arith) t
    publish_due-Tried i n ((j, r) ∷ due) rows s (found e d apart rest) t =
        let (b, rows', s') = execute_publish items count publish start_of_day now j r rows s in
        let (handed, rows'', s'') = publish_due items count publish start_of_day now due rows' s' in
        let f = after-Found j r rows s due apart rest in
        elim (Bool-cases (i == j)) [
          | inl same ↦
              let here : i ≡ j = ground arith in
              let once = after-Tried j n r rows s e d (subst (λ k. Tried k n s) here t) in
              let all = publish_due-Tried j (n + (if b then 1 else 0)) due rows' s' f once in
              subst (λ m. Tried i m s'') (occurrences_same i j n b handed same)
                (subst (λ k. Tried k ((n + (if b then 1 else 0)) + occurrences k handed) s'')
                  (sym here) all)
          | inr other ↦
              subst (λ m. Tried i m s'') (occurrences_other i j n b handed other)
                (publish_due-Tried i n due rows' s' f (other-Tried j i n r rows s other t))
        ]

  -- Ticks of the scheduler, one after the other, and the items for which the channel was asked.
  pub data Ticks : Rows → items.State → List ℕ → Rows → items.State → Type 0 where
    done : {rows : Rows} {s : items.State} → Ticks rows s [] rows s
    tick :
        {rows rows' : Rows} {s s' : items.State} {handed : List ℕ}
        (count : items.State → (ContentItem → Bool) → ℕ) (publish : ContentItem → Reply)
        (start_of_day now : ℕ) (due : List (ℕ × ContentItem))
        → Found now due s
        → Ticks
            (publish_due items count publish start_of_day now due rows s).1
            (publish_due items count publish start_of_day now due rows s).2
            handed
            rows'
            s'
        → Ticks rows s
            ((publish_due items count publish start_of_day now due rows s).0 ++ handed)
            rows'
            s'

  Ticks-Tried :
      (i n : ℕ) {rows rows' : Rows} {s s' : items.State} {handed : List ℕ}
      → Ticks rows s handed rows' s'
      → Tried i n s
      → Tried i (n + occurrences i handed) s'
  unfolding occurrences
  Ticks-Tried i n {s} done t = subst (λ m. Tried i m s) (omega arith) t
  Ticks-Tried i n {rows} {rows'} {s} {s'} (tick {handed} count publish start_of_day now due f more)
        t =
      let first = (publish_due items count publish start_of_day now due rows s).0 in
      let once = publish_due-Tried count publish start_of_day now i n due rows s f t in
      subst (λ m. Tried i m s') (omega (arith, occurrences-append i first handed))
        (Ticks-Tried i (n + occurrences i first) more once)

  -- For an item with at most three attempts so far, and fewer if it is scheduled: however the
  -- channel answers, the ticks of the scheduler ask it to publish an item at most
  -- three times in all, the attempts that the item had before counted in, as long as nobody
  -- changes the item in between; and the item's count of attempts is exact.
  pub attempts_bounded :
      (i n : ℕ) (rows rows' : Rows) (s s' : items.State) (handed : List ℕ)
      → Tried i n s
      → Ticks rows s handed rows' s'
      → (n + occurrences i handed ≤ 3)
        × (Option.map (λ r. r.attempts) (items.find s' i) ≡ some (n + occurrences i handed))
  attempts_bounded i n rows rows' s s' handed t h =
      let after = Ticks-Tried i n h t in (after.at_most, ground (arith, after.stored, after.count))
