-- ===== src/CloneLimiter/Slots.antt =====
-- Requests that come and go: the slots in use are those of the requests that are being served.
use gitus.Prelude.{ℕ, arith, some, ◌≡◌, none, ◌+◌, ◌≤◌, ◌<◌, ◌-◌}
use gitus.CloneLimiter.{CloneLimiter, new_clone_limiter, try_acquire, release, some, none}

-- A limiter and the number of requests that hold a slot of it.
pub record Server : Type 0 where
  pub limiter : CloneLimiter
  pub serving : ℕ

-- A request comes, and gets a slot or is turned away; a request that holds a slot ends.
pub data Step (s : Server) : Server → Type 0 where
  admit :
      (l : CloneLimiter)
      → try_acquire (some s.limiter) ≡ some (some l)
      → Step s (record { limiter = l; serving = s.serving + 1 })
  turn_away : try_acquire (some s.limiter) ≡ none → Step s s
  finish :
      (l : CloneLimiter)
      → 0 < s.serving
      → release (some s.limiter) ≡ some l
      → Step s (record { limiter = l; serving = s.serving - 1 })

pub data Reach (s : Server) : Server → Type 0 where
  here : Reach s s
  next : {t u : Server} → Reach s t → Step t u → Reach s u

abbrev pub start : ℕ → Server
start n = record { limiter = new_clone_limiter n; serving = 0 }

pub record IsBounded (capacity : ℕ) (s : Server) : Type 0 where
  pub same : s.limiter.capacity ≡ capacity
  pub counted : s.limiter.used ≡ s.serving
  pub within : s.serving ≤ capacity

Step-IsBounded : {c : ℕ} {s t : Server} → Step s t → IsBounded c s → IsBounded c t
unfolding try_acquire release
Step-IsBounded {c} {s} (admit l h) b = ground arith
Step-IsBounded (turn_away h) b = b
Step-IsBounded {c} {s} (finish l p h) b = ground arith

start-IsBounded : (n : ℕ) → IsBounded (new_clone_limiter n).capacity (start n)
unfolding new_clone_limiter
start-IsBounded n = omega arith

-- Whatever requests come and go, in whatever order, the limiter never has more of them served at a
-- time than it was made for, and its counter is the number of the requests that are being served.
pub Reach-IsBounded :
    (n : ℕ) {s : Server} → Reach (start n) s → IsBounded (new_clone_limiter n).capacity s
Reach-IsBounded n here = start-IsBounded n
Reach-IsBounded n (next r st) = Step-IsBounded st (Reach-IsBounded n r)
