-- ===== src/TagsCache/Actions.antt =====
-- tags_cache.c: the requests of the clients and the turns of `reader_thread`, one after the other.
use mocp.Prelude.{ℕ, suc, ◌≢◌, Option, none, some, List, [], ◌∷◌}
use mocp.Prelude.Int.{ℤ}
use mocp.Bytes.{Str}
use mocp.TagsCache.Requests.{
  Request, Requests, reader_turn, add_request, tags_cache_clear_queue, tags_cache_clear_up_to,
}

-- What the clients and the reader do, one after the other.
pub data Action : Type 0 where
  adds : Str → ℤ → ℕ → Action
  clears : ℕ → Action
  clears_up_to : Str → ℕ → Action
  reads : Action

-- an action, with the request that is served
abbrev pub act : Action → Requests → Option (ℕ × Request) × Requests
act (adds file sel i) c = (none, add_request c file sel i)
act (clears i) c = (none, tags_cache_clear_queue c i)
act (clears_up_to file i) c = (none, tags_cache_clear_up_to c file i)
act reads c = reader_turn c

-- the requests that are served, with their clients
abbrev pub served : List Action → Requests → List (ℕ × Request)
served [] c = []
served (a ∷ h) c = let (o, c') = act a c in elim o [ none ↦ served h c' | some r ↦ r ∷ served h c' ]

-- the state behind the actions
abbrev pub after : List Action → Requests → Requests
after [] c = c
after (a ∷ h) c = after h (act a c).1

-- the turns of the reader
abbrev pub turns : List Action → ℕ
turns [] = 0
turns (reads ∷ h) = suc (turns h)
turns (adds file sel i ∷ h) = turns h
turns (clears i ∷ h) = turns h
turns (clears_up_to file i ∷ h) = turns h

-- The action drops no request of client i.
abbrev pub Keeps : ℕ → Action → Type 0
Keeps i (adds file sel j) = Unit {0}
Keeps i (clears j) = i ≢ j
Keeps i (clears_up_to file j) = i ≢ j
Keeps i reads = Unit {0}
