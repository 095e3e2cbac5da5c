-- ===== src/Handler/Stats.antt =====
-- The counters of internal/handler/stats.go. Each atomic operation of a request is one step, and the
-- steps of the requests come in any order. A minute is the time that `Truncate` gives.
use zai_proxy.Text.{codes, Bytes, bytes_eq}
use zai_proxy.Base.{
  ◌||◌, false, Bool, ℤ, pos, inc, dec, ℕ, zero, suc, ◌+◌, ◌≤◌, ◌≡◌, ap, ◌∙◌, inl, inr, not, ◌&&◌,
  List, [], ◌∷◌, arith, ◌==◌, if◌then◌else◌, Bool-cases,
}

-- `shouldTrackRequest`, of a method and a path.
unfoldable pub should_track_request : Bytes → Bytes → Bool
unfolding bytes_eq
should_track_request method path =
    if bytes_eq method (codes "OPTIONS")
    then false
    else not (
        bytes_eq path (codes "/")
        || bytes_eq path (codes "/healthz")
        || bytes_eq path (codes "/stats"))

pub record RequestStats : Type 0 where
  pub total_requests : ℕ
  pub in_flight : ℤ
  pub last_minute_start : ℕ
  pub last_minute_count : ℕ

abbrev pub zero_stats : RequestStats
zero_stats = record {
  total_requests = 0;
  in_flight = pos 0;
  last_minute_start = 0;
  last_minute_count = 0;
}

-- How far a request is: before `beginRequest`, behind it, and behind each operation of
-- `endRequest`. `loaded` has the minute and the start that was read.
pub data Position : Type 0 where
  waiting : Position
  serving : Position
  left : Position
  counted : Position
  loaded : ℕ → ℕ → Position
  swapped : Position
  adding : Position
  ended : Position

-- The next atomic operation of a request, at the minute given.
unfoldable pub step_request : ℕ → RequestStats → Position → RequestStats × Position
step_request minute s waiting = (record s { in_flight = inc s.in_flight }, serving)
step_request minute s serving = (record s { in_flight = dec s.in_flight }, left)
step_request minute s left = (record s { total_requests = suc s.total_requests }, counted)
step_request minute s counted = (s, loaded minute s.last_minute_start)
step_request minute s (loaded now prev) =
    if not (prev == now) && s.last_minute_start == prev
    then (record s { last_minute_start = now }, swapped)
    else (s, adding)
step_request minute s swapped = (record s { last_minute_count = 0 }, adding)
step_request minute s adding = (record s { last_minute_count = suc s.last_minute_count }, ended)
step_request minute s ended = (s, ended)

-- A step of the request with the number given, if there is one.
unfoldable pub step_at : ℕ → ℕ → RequestStats → List Position → RequestStats × List Position
unfolding step_request
step_at n minute s [] = (s, [])
step_at zero minute s (p ∷ ps) = let (s', p') = step_request minute s p in (s', p' ∷ ps)
step_at (suc n) minute s (p ∷ ps) = let (s', ps') = step_at n minute s ps in (s', p ∷ ps')

-- A schedule: the number of a request and the minute of each step.
unfoldable pub run_steps :
    List (ℕ × ℕ) → RequestStats → List Position → RequestStats × List Position
unfolding step_at
run_steps [] s ps = (s, ps)
run_steps ((n, minute) ∷ steps) s ps =
    let (s', ps') = step_at n minute s ps in run_steps steps s' ps'

-- `currentRPM`
abbrev pub current_rpm : ℕ → RequestStats → ℕ
current_rpm minute s = if not (s.last_minute_start == minute) then 0 else s.last_minute_count

abbrev pub serves : Position → ℕ
serves serving = 1
serves _ = 0

abbrev pub counts : Position → ℕ
counts waiting = 0
counts serving = 0
counts left = 0
counts _ = 1

abbrev pub ends : Position → ℕ
ends ended = 1
ends _ = 0

-- A tally over all the requests.
abbrev pub tally : (Position → ℕ) → List Position → ℕ
tally f [] = 0
tally f (p ∷ ps) = f p + tally f ps

-- The counters against tallies of the requests, `a`, `b` and `c` of them elsewhere.
abbrev Matches : ℕ → ℕ → ℕ → RequestStats → Type 0
Matches a b c s = (s.in_flight ≡ pos a) × (s.total_requests ≡ b) × (s.last_minute_count ≤ c)

step_request-Matches :
    (minute a b c : ℕ) (s : RequestStats) (p : Position)
    → Matches (serves p + a) (counts p + b) (ends p + c) s
    → Matches
        (serves (step_request minute s p).1 + a)
        (counts (step_request minute s p).1 + b)
        (ends (step_request minute s p).1 + c)
        (step_request minute s p).0
unfolding step_request
step_request-Matches minute a b c s waiting (f, t, l) = (ap inc f ∙ ap pos (omega arith), t, l)
step_request-Matches minute a b c s serving (f, t, l) =
    let one : serves serving + a ≡ suc a = omega arith in
    (ap dec (f ∙ ap pos one) ∙ ap pos (omega arith), t, l)
step_request-Matches minute a b c s left (f, t, l) = (f, omega arith, l)
step_request-Matches minute a b c s counted (f, t, l) = (f, t, l)
step_request-Matches minute a b c s (loaded now prev) (f, t, l) =
    elim (Bool-cases (not (prev == now) && s.last_minute_start == prev)) [
      | inl e ↦ rw e (f, t, l)
      | inr n ↦ rw n (f, t, l)
    ]
step_request-Matches minute a b c s swapped (f, t, l) = (f, t, omega arith)
step_request-Matches minute a b c s adding (f, t, l) = (f, t, omega arith)
step_request-Matches minute a b c s ended (f, t, l) = (f, t, l)

Matches-at :
    (a b c a' b' c' : ℕ) (s : RequestStats)
    → a ≡ a'
    → b ≡ b'
    → c ≡ c'
    → Matches a b c s
    → Matches a' b' c' s
Matches-at a b c a' b' c' s p q r (f, t, l) = (f ∙ ap pos p, t ∙ q, omega arith)

abbrev MatchesAll : ℕ → ℕ → ℕ → RequestStats → List Position → Type 0
MatchesAll a b c s ps = Matches (tally serves ps + a) (tally counts ps + b) (tally ends ps + c) s

step_at-MatchesAll :
    (n minute a b c : ℕ) (s : RequestStats) (ps : List Position)
    → MatchesAll a b c s ps
    → MatchesAll a b c (step_at n minute s ps).0 (step_at n minute s ps).1
unfolding step_at
step_at-MatchesAll n minute a b c s [] h = h
step_at-MatchesAll zero minute a b c s (p ∷ ps) h =
    let (s', p') = step_request minute s p in
    Matches-at _ _ _ _ _ _ (step_request minute s p).0 (omega arith) (omega arith) (omega arith) (
      step_request-Matches minute (tally serves ps + a) (tally counts ps + b) (tally ends ps + c) s
        p (Matches-at _ _ _ _ _ _ s (omega arith) (omega arith) (omega arith) h))
step_at-MatchesAll (suc n) minute a b c s (p ∷ ps) h =
    Matches-at _ _ _ _ _ _ (step_at n minute s ps).0 (omega arith) (omega arith) (omega arith) (
      step_at-MatchesAll n minute (serves p + a) (counts p + b) (ends p + c) s ps
        (Matches-at _ _ _ _ _ _ s (omega arith) (omega arith) (omega arith) h))

-- The counters are true of the requests: the requests in flight are those being served, the total
-- is of those that have counted themselves, and the count of the last minute is at most the number
-- of requests that have ended.
abbrev pub Tallies : RequestStats × List Position → Type 0
Tallies p =
    (p.0.in_flight ≡ pos (tally serves p.1))
    × (p.0.total_requests ≡ tally counts p.1)
    × (p.0.last_minute_count ≤ tally ends p.1)

step_at-Tallies :
    (n minute : ℕ) (s : RequestStats) (ps : List Position)
    → Tallies (s, ps)
    → Tallies (step_at n minute s ps)
step_at-Tallies n minute s ps h =
    Matches-at _ _ _ _ _ _ (step_at n minute s ps).0 (omega arith) (omega arith) (omega arith) (
      step_at-MatchesAll n minute 0 0 0 s ps
        (Matches-at _ _ _ _ _ _ s (omega arith) (omega arith) (omega arith) h))

-- In every order of the atomic steps, and at any times, the counters stay true of the requests:
-- those in flight are the ones being served, the total is of those that have counted themselves,
-- and the count of the last minute is at most the number of requests that have ended.
pub run_steps-Tallies :
    (steps : List (ℕ × ℕ)) (s : RequestStats) (ps : List Position)
    → Tallies (s, ps)
    → Tallies (run_steps steps s ps)
unfolding run_steps
run_steps-Tallies [] s ps h = h
run_steps-Tallies ((n, minute) ∷ steps) s ps h =
    run_steps-Tallies steps (step_at n minute s ps).0 (step_at n minute s ps).1
      (step_at-Tallies n minute s ps h)
