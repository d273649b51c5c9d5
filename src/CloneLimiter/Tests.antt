-- ===== src/CloneLimiter/Tests.antt =====
-- A limiter of one slot.
use gitus.Prelude.{refl}
use gitus.CloneLimiter.{try_acquire, new_clone_limiter}
use gitus.CloneLimiter.Slots.{IsBounded, Server, Reach, Reach-IsBounded, start, next, here, admit}

abbrev full : Server
full = record { limiter = record { capacity = 1; used = 1 }; serving = 1 }

full_reached : Reach (start 1) full
unfolding try_acquire new_clone_limiter
full_reached = next here (admit (record { capacity = 1; used = 1 }) refl)

Reach-IsBounded_example : IsBounded (new_clone_limiter 1).capacity full
Reach-IsBounded_example = Reach-IsBounded 1 full_reached
