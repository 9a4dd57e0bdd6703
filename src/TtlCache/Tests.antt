-- ===== src/TtlCache/Tests.antt =====
-- Runs of the cache, and its theorems at concrete calls.
use flow_ai.Common.{ℕ, ◌≤◌, ◌≡◌, refl, none, some, List, [], ◌∷◌}
use flow_ai.TtlCache.{Entry, new, get, set, delete}
use flow_ai.TtlCache.Store.{lookup, assign, without}
use flow_ai.TtlCache.History.{Call, sets, gets, deletes, step, run, in_force, get_is_latest}

-- Two writes of key 7, a lookup after the first has run out, and a deletion of another key.
abbrev calls : List (Call ℕ)
calls = sets 7 100 0 ∷ sets 8 5 1 ∷ gets 7 40 ∷ sets 7 200 50 ∷ deletes 8 ∷ []

-- A full cache of two entries drops the oldest.
evicts_oldest :
    (get (run (new {V = ℕ} 30 2) (sets 1 10 0 ∷ sets 2 20 0 ∷ sets 3 30 0 ∷ [])) 1 0).0 ≡ none
unfolding get set delete run step new lookup assign without
evicts_oldest = refl

hits : (get (run (new 30 2) calls) 7 60).0 ≡ some 200
unfolding get set delete run step new lookup assign without
hits = refl

get_is_latest_example :
    (e : Entry ℕ) × (in_force 30 7 none calls ≡ some e) × (e.value ≡ 200) × (60 ≤ e.expires_at)
get_is_latest_example = get_is_latest 30 2 calls 7 60 200 hits
