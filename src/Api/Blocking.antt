-- ===== src/Api/Blocking.antt =====
-- imputio/src/executor/mod.rs: `imputio_spawn_blocking` and the flag of a thread.
use toy_io.Common.{◌≡◌, refl, Bool, true, false, Option, none, some}
use toy_io.Api.{imputio_spawn_blocking}

-- Then run the rest, if there was no panic.
abbrev pub and_then :
    {A B : Type 0} → Option (Bool × A) → (Bool → A → Option (Bool × B)) → Option (Bool × B)
and_then none rest = none
and_then (some (flag, a)) rest = rest flag a

-- Blocking calls may follow each other on a thread, and may not be nested: on a thread with no such
-- call going on, a second call after a first one that returns is made like the first one, while a
-- future that itself makes a blocking call panics, whatever it does afterwards.
pub blocking_lem :
    {A B : Type 0} (first : Bool → Option (Bool × A)) (second : Bool → Option (Bool × B))
    (rest : Bool → B → Option (Bool × A)) (flag : Bool) (a : A)
    → first true ≡ some (flag, a)
    → (and_then
          (imputio_spawn_blocking first false)
          (λ flag' _. imputio_spawn_blocking second flag')
        ≡ imputio_spawn_blocking second false)
      × (imputio_spawn_blocking (λ flag'. and_then (imputio_spawn_blocking second flag') rest) false
          ≡ none)
unfolding imputio_spawn_blocking
blocking_lem first second rest flag a e = (rw (e, imputio_spawn_blocking) refl, refl)
