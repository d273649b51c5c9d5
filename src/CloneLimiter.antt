-- ===== src/CloneLimiter.antt =====
-- routes/clone_limiter.go: the channel of slots is its capacity and the number of its elements.
pub mod Slots
mod Tests
use gitus.Prelude.{ℕ, Option, if◌then◌else◌, some, ◌==◌, ltb, ◌-◌, none, ◌+◌}

abbrev pub default_max_concurrent_clone : ℕ
default_max_concurrent_clone = 8

pub record CloneLimiter : Type 0 where
  pub capacity : ℕ
  pub used : ℕ

-- Go's `n <= 0` for an `int` that the caller has read: a negative one is handed over as 0.
unfoldable pub new_clone_limiter : ℕ → CloneLimiter
new_clone_limiter n = record {
  capacity = (if n == 0 then default_max_concurrent_clone else n);
  used = 0;
}

-- `none` stands for `nil, false`. A nil limiter gives a slot that costs nothing.
unfoldable pub try_acquire : Option CloneLimiter → Option (Option CloneLimiter)
try_acquire none = some none
try_acquire (some l) =
    if ltb l.used l.capacity then some (some (record l { used = l.used + 1 })) else none

-- The function that a successful TryAcquire returns.
unfoldable pub release : Option CloneLimiter → Option CloneLimiter
release none = none
release (some l) = some (record l { used = l.used - 1 })
