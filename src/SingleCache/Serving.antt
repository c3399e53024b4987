-- ===== src/SingleCache/Serving.antt =====
-- src/assignment_1/Cache.h: the request that a cache serves, from the port to the answer.
use psa.Prelude.{
  ℕ, ◌≡◌, ◌⊎◌, inl, inr, refl, Bool, true, false, List, [], ◌∷◌, Option, none, some, update, arith,
  ◌≢◌, Option-cases,
}
use psa.Lines.{Function}
use psa.Stats.Counts.{Event, write_hit, write_miss, read_hit, read_miss, record_event}
use psa.Bus.{Floating}
use psa.World.{World, count}
use psa.SingleCache.{
  Pc, idle, looked, hit_retry, hit_half, hit_invalidating, read_half, again, back_retry,
  back_writing, back_waiting, fill_retry, fill_reading, fill_waiting, own_retry, own_half,
  own_invalidating, refetch, finished, is_write, missed, hit, execute,
}
use psa.SingleCache.Completion.{
  serves_write, event_of, code_of, is_finished, is_idle, IsServing, execute-completes,
}

-- A request: whether it is a write, and its address
abbrev pub Asked : Type 0
Asked = Bool × ℕ

-- The request that stands at the port of a cache
abbrev pub port_request : Option (Function × ℕ) → List Asked
port_request none = []
port_request (some (f, addr)) = (is_write f, addr) ∷ []

abbrev pub address : Pc → ℕ
address idle = 0
address (looked _ addr _ _) = addr
address (hit_retry _ addr _) = addr
address (hit_half _ addr _) = addr
address (hit_invalidating addr _) = addr
address (read_half _ addr _) = addr
address (again _ addr) = addr
address (back_retry _ addr _ _) = addr
address (back_writing _ addr _ _) = addr
address (back_waiting _ addr _ _ _) = addr
address (fill_retry _ addr _) = addr
address (fill_reading _ addr _) = addr
address (fill_waiting _ addr _ _) = addr
address (own_retry _ addr _) = addr
address (own_half _ addr _) = addr
address (own_invalidating addr _) = addr
address (refetch _ addr _) = addr
address finished = 0

-- The request that a cache serves
abbrev pub cache_request : Pc → List Asked
cache_request idle = []
cache_request finished = []
cache_request pc = (serves_write pc, address pc) ∷ []

abbrev pub is_write_event : Event → Bool
is_write_event write_hit = true
is_write_event write_miss = true
is_write_event read_hit = false
is_write_event read_miss = false

-- The port and the trace stay as they are, and so does the address.
abbrev Keeps : World → ℕ → World × Pc → Type 0
Keeps w a (w', pc') =
    (w'.requests ≡ w.requests)
    × (w'.trace ≡ w.trace)
    × ((is_finished pc' ≡ true) ⊎ ((is_idle pc' ≡ false) × (address pc' ≡ a)))

missed-Keeps :
    (w : World) (id : ℕ) (f : Function) (addr v : ℕ) → Keeps w addr (missed w id f addr v)
unfolding missed
missed-Keeps w id f addr v = ground arith

hit-Keeps : (w : World) (id : ℕ) (f : Function) (addr r : ℕ) → Keeps w addr (hit w id f addr r)
unfolding hit
hit-Keeps w id f addr r = ground arith

-- A step of a cache from a place where it serves a request
execute-Keeps :
    (z : Floating) (elapsed : ℕ) (w : World) (id : ℕ) (pc : Pc)
    → is_idle pc ≡ false
    → is_finished pc ≡ false
    → Keeps w (address pc) (execute z elapsed w id pc)
unfolding execute
execute-Keeps z elapsed w id idle h e = ground arith
execute-Keeps z elapsed w id finished h e = ground arith
execute-Keeps z elapsed w id (looked f addr none v) h e = missed-Keeps w id f addr v
execute-Keeps z elapsed w id (looked f addr (some r) v) h e = hit-Keeps w id f addr r
execute-Keeps z elapsed w id _ h e = ground arith

-- The cache goes on with its request, or ends it: it answers it and counts it.
abbrev pub Serves : World → ℕ → Pc → World × Pc → Type 0
Serves w id pc (w', pc') =
    ((is_finished pc' ≡ false)
      × (cache_request pc' ≡ cache_request pc)
      × (w'.dones ≡ w.dones)
      × (w'.stats ≡ w.stats))
    ⊎ ((is_finished pc' ≡ true)
        × (cache_request pc' ≡ [])
        × (w'.dones ≡ update w.dones id (some (code_of (event_of pc))))
        × (w'.stats ≡ (count (record_event (event_of pc)) w id).stats))

-- What is counted is of the kind of the request.
pub event_of-kind : (pc : Pc) → IsServing pc → is_write_event (event_of pc) ≡ serves_write pc
event_of-kind idle h = ground arith
event_of-kind _ h = ground arith

pub cache_request-serving :
    (pc : Pc)
    → is_idle pc ≡ false
    → is_finished pc ≡ false
    → cache_request pc ≡ (serves_write pc, address pc) ∷ []
cache_request-serving idle h e = ground arith
cache_request-serving finished h e = ground arith
cache_request-serving _ h e = refl

abbrev pub SamePort : World → World → Type 0
SamePort w' w = (w'.requests ≡ w.requests) × (w'.trace ≡ w.trace)

pub execute-Serves :
    (z : Floating) (elapsed : ℕ) (w : World) (id : ℕ) (pc : Pc)
    → IsServing pc
    → is_idle pc ≡ false
    → is_finished pc ≡ false
    → let (w', pc') = execute z elapsed w id pc in
      IsServing pc' × SamePort w' w × Serves w id pc (w', pc')
execute-Serves z elapsed w id pc serving busy going =
    let (w', pc') = execute z elapsed w id pc in
    let (serving', outcome) = execute-completes z elapsed w id pc serving in
    let (requests, trace, keeps) = execute-Keeps z elapsed w id pc busy going in
    (
      serving',
      (requests, trace),
      elim outcome [
        | inl (ends, dones, stats) ↦ inr (ends, ends_empty pc' ends, dones, stats)
        | inr (goes, dones, stats, kind) ↦ inl (
          goes,
          let busy' : is_idle pc' ≡ false = ground arith in
              let same : (serves_write pc' ≡ serves_write pc) × (address pc' ≡ address pc) =
                ground arith in
              rw
                (
                  cache_request-serving pc' busy' goes,
                  cache_request-serving pc busy going,
                  same.0,
                  same.1,
                )
                refl,
          dones,
          stats,
        )
      ],
    )
  where
    ends_empty : (pc : Pc) → is_finished pc ≡ true → cache_request pc ≡ []
    ends_empty finished e = refl
    ends_empty _ e = ground arith

-- A cache that is idle takes the request at its port, if there is one.
abbrev pub Takes : World → ℕ → World × Pc → Type 0
Takes w id (w', pc') =
    IsServing pc'
    × (is_finished pc' ≡ false)
    × (cache_request pc' ≡ port_request (w.requests id))
    × (port_request (w'.requests id) ≡ [])
    × ((j : ℕ) → id ≢ j → w'.requests j ≡ w.requests j)
    × (w'.dones ≡ w.dones)
    × (w'.stats ≡ w.stats)
    × (w'.trace ≡ w.trace)

pub idle-Takes :
    (z : Floating) (elapsed : ℕ) (w : World) (id : ℕ) → Takes w id (execute z elapsed w id idle)
unfolding execute
idle-Takes z elapsed w id = elim (Option-cases (w.requests id)) [
  | inl e ↦ rw (execute, e) ground arith
  | inr ((f, addr), e) ↦ rw (execute, e) ground arith
]

pub place-cases :
    (pc : Pc) → (pc ≡ idle) ⊎ (pc ≡ finished) ⊎ ((is_idle pc ≡ false) × (is_finished pc ≡ false))
place-cases idle = inl refl
place-cases finished = inr (inl refl)
place-cases _ = inr (inr (refl, refl))
