-- ===== src/Tcache/Tests.antt =====
-- A cache with one entry, which expires at time 15.
use gitus.Prelude.{
  Bytes, codes, lookup, some, ◌≡◌, arith, if◌then◌else◌, insert, beq, remove, [], none, refl,
}
use gitus.Tcache.{TCache, get, new_tcache, register, sweep, delete, drop_expired, compact, push}
use gitus.Tcache.Steps.{Reach, fresh, then_step, registers, Reach-IsSound, get-sweep_reached}
use gitus.Tcache.Sound.{IsSound}
use gitus.Tcache.Reads.{get-delete}

abbrev key : Bytes
key = codes "k"

filled : TCache
filled = register key (codes "v") (some 10) 5 new_tcache

filled_reached : Reach filled
unfolding filled
filled_reached = then_step fresh (registers key (codes "v") (some 10) 5 (omega arith))

-- It is there at time 14, and gone at time 15; the sweeper then drops it.
read_before : get key 14 filled ≡ some (codes "v")
unfolding filled get register new_tcache lookup insert push beq
read_before = refl

read_after : get key 15 filled ≡ none
unfolding filled get register new_tcache lookup insert push beq
read_after = refl

swept_empty : sweep 15 filled ≡ record { val = []; expiries = []; seq = 1 }
unfolding filled sweep drop_expired compact register new_tcache lookup insert remove push beq
swept_empty = refl

get-delete_example :
    get key 14 (delete key filled) ≡ (if beq key key then none else get key 14 filled)
get-delete_example = get-delete key key 14 filled

Reach-IsSound_example : IsSound filled
Reach-IsSound_example = Reach-IsSound filled filled_reached

get-sweep_reached_example : get key 16 (sweep 15 filled) ≡ get key 16 filled
get-sweep_reached_example = get-sweep_reached 15 16 filled key filled_reached (omega arith)
