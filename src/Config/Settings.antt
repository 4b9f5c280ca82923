-- ===== src/Config/Settings.antt =====
-- imputio/src/executor/mod.rs: what a chain of `with_` calls makes of a configuration.
use Prim.Native.String.{String}
use toy_io.Common.{ℕ, ◌≡◌, refl, ◌∙◌, ap, Option, none, some, List, [], ◌∷◌}
use toy_io.Config.Thread.{ThreadConfig}
use toy_io.Config.PollThread.{PollThreadConfig, PollerCfg}
use toy_io.Config.PollThread
use toy_io.Config.ExecThread.{ExecThreadConfig}
use toy_io.Config.ExecThread

-- The calls that both configurations of a thread have.
pub data Setting : Type 0 where
  name : String → Setting
  core_affinity : ℕ → Setting
  stack_size : ℕ → Setting
  no_parking : Setting
  parking : ℕ → Setting

pub exec_set : ExecThreadConfig → Setting → ExecThreadConfig
exec_set c (name n) = ExecThread.with_name c n
exec_set c (core_affinity n) = ExecThread.with_core_affinity c n
exec_set c (stack_size n) = ExecThread.with_stack_size c n
exec_set c no_parking = ExecThread.with_no_parking c
exec_set c (parking n) = ExecThread.with_parking c n

pub poll_set : PollThreadConfig → Setting → PollThreadConfig
poll_set c (name n) = PollThread.with_name c n
poll_set c (core_affinity n) = PollThread.with_core_affinity c n
poll_set c (stack_size n) = PollThread.with_stack_size c n
poll_set c no_parking = PollThread.with_no_parking c
poll_set c (parking n) = PollThread.with_parking c n

pub set_all : {C : Type 0} → (C → Setting → C) → C → List Setting → C
set_all step c [] = c
set_all step c (s ∷ ss) = set_all step (step c s) ss

-- The value that a setting gives a field, if it is about it.
abbrev pub names : Setting → Option String
names (name n) = some n
names _ = none

abbrev pub cores : Setting → Option (Option ℕ)
cores (core_affinity n) = some (some n)
cores _ = none

abbrev pub sizes : Setting → Option ℕ
sizes (stack_size n) = some n
sizes _ = none

abbrev pub parks : Setting → Option (Option ℕ)
parks no_parking = some none
parks (parking n) = some (some n)
parks _ = none

abbrev pub or_else : {A : Type 0} → Option A → A → A
or_else none a = a
or_else (some b) a = b

-- The last value that a list of settings gives a field, or else the first value.
abbrev pub last_of : {A : Type 0} → (Setting → Option A) → A → List Setting → A
last_of pick a [] = a
last_of pick a (s ∷ ss) = last_of pick (or_else (pick s) a) ss

module _ {A C : Type 0} (step : C → Setting → C) (field : C → A) (pick : Setting → Option A)
    (sets : (c : C) (s : Setting) → field (step c s) ≡ or_else (pick s) (field c)) where
  set_all-last_of :
      (ss : List Setting) (c : C) → field (set_all step c ss) ≡ last_of pick (field c) ss
  unfolding set_all
  set_all-last_of [] c = refl
  set_all-last_of (s ∷ ss) c =
      set_all-last_of ss (step c s) ∙ ap (λ a. last_of pick a ss) (sets c s)

-- A thread's configuration has, in each field, the last value that was set for it.
abbrev pub IsLast : ThreadConfig → ThreadConfig → List Setting → Type 0
IsLast after c ss =
    (after.thread_name ≡ last_of names c.thread_name ss)
    × (after.core_id ≡ last_of cores c.core_id ss)
    × (after.stack_size ≡ last_of sizes c.stack_size ss)
    × (after.parking ≡ last_of parks c.parking ss)

module _ {C : Type 0} (step : C → Setting → C) (thread : C → ThreadConfig)
    (sets : (c : C) (s : Setting) → IsLast (thread (step c s)) (thread c) (s ∷ [])) where
  set_all-IsLast : (ss : List Setting) (c : C) → IsLast (thread (set_all step c ss)) (thread c) ss
  set_all-IsLast ss c = (
    set_all-last_of step (λ c. (thread c).thread_name) names (λ c s. (sets c s).0) ss c,
    set_all-last_of step (λ c. (thread c).core_id) cores (λ c s. (sets c s).1) ss c,
    set_all-last_of step (λ c. (thread c).stack_size) sizes (λ c s. (sets c s).2) ss c,
    set_all-last_of step (λ c. (thread c).parking) parks (λ c s. (sets c s).3) ss c,
  )

exec_set-IsLast :
    (c : ExecThreadConfig) (s : Setting) → IsLast (exec_set c s).thread_cfg c.thread_cfg (s ∷ [])
unfolding exec_set ExecThread.with_name ExecThread.with_core_affinity ExecThread.with_stack_size
    ExecThread.with_no_parking ExecThread.with_parking
exec_set-IsLast c (name n) = (refl, refl, refl, refl)
exec_set-IsLast c (core_affinity n) = (refl, refl, refl, refl)
exec_set-IsLast c (stack_size n) = (refl, refl, refl, refl)
exec_set-IsLast c no_parking = (refl, refl, refl, refl)
exec_set-IsLast c (parking n) = (refl, refl, refl, refl)

poll_set-IsLast :
    (c : PollThreadConfig) (s : Setting) → IsLast (poll_set c s).thread_cfg c.thread_cfg (s ∷ [])
unfolding poll_set PollThread.with_name PollThread.with_core_affinity PollThread.with_stack_size
    PollThread.with_no_parking PollThread.with_parking
poll_set-IsLast c (name n) = (refl, refl, refl, refl)
poll_set-IsLast c (core_affinity n) = (refl, refl, refl, refl)
poll_set-IsLast c (stack_size n) = (refl, refl, refl, refl)
poll_set-IsLast c no_parking = (refl, refl, refl, refl)
poll_set-IsLast c (parking n) = (refl, refl, refl, refl)

exec_set-poll :
    (ss : List Setting) (c : ExecThreadConfig)
    → (set_all exec_set c ss).poll_thread_cfg ≡ c.poll_thread_cfg
unfolding set_all
exec_set-poll [] c = refl
exec_set-poll (s ∷ ss) c = exec_set-poll ss (exec_set c s) ∙ same s
  where
    same : (s : Setting) → (exec_set c s).poll_thread_cfg ≡ c.poll_thread_cfg
    same (name n) = unfold exec_set ExecThread.with_name in refl
    same (core_affinity n) = unfold exec_set ExecThread.with_core_affinity in refl
    same (stack_size n) = unfold exec_set ExecThread.with_stack_size in refl
    same no_parking = unfold exec_set ExecThread.with_no_parking in refl
    same (parking n) = unfold exec_set ExecThread.with_parking in refl

-- The settings of an executor and of its I/O actor do not mix: after any chain of calls on each,
-- and with the second put into the first, each thread has in each field the last value that was set
-- for that thread, or else the value that it had, in whichever order the chains are run.
pub settings_lem :
    (c : ExecThreadConfig) (p : PollThreadConfig) (ss ps later : List Setting)
    → let before = set_all exec_set c ss in
      let after =
        set_all exec_set (ExecThread.with_poll_thread_cfg before (set_all poll_set p ps)) later in
      IsLast after.poll_thread_cfg.thread_cfg p.thread_cfg ps
      × IsLast before.thread_cfg c.thread_cfg ss
      × IsLast after.thread_cfg before.thread_cfg later
unfolding ExecThread.with_poll_thread_cfg
settings_lem c p ss ps later =
    let before = set_all exec_set c ss in
    let joined = ExecThread.with_poll_thread_cfg before (set_all poll_set p ps) in
    (
      rw (exec_set-poll later joined)
          (set_all-IsLast poll_set (λ c. c.thread_cfg) poll_set-IsLast ps p),
      set_all-IsLast exec_set (λ c. c.thread_cfg) exec_set-IsLast ss c,
      set_all-IsLast exec_set (λ c. c.thread_cfg) exec_set-IsLast later joined,
    )
