-- ===== src/Schedule/Thread/Stale.antt =====
-- A start time that the thread has looked up outlives the start times that a client writes.
use der_scheduling.Prelude.{ℕ, ◌<◌, ◌≡◌, refl, ◌∙◌, ap, ◌≢◌, arith}
use der_scheduling.Platform.{Platform, attribute_value}
use der_scheduling.World.{World, Schedule, ScheduleState, update}
use der_scheduling.Schedule.State.Frame.{save-schedule}
use der_scheduling.Schedule.Access.{str_tm_write_access_handler}
use der_scheduling.Schedule.Enable.{enabled_schedule, disable_schedule}
use der_scheduling.Schedule.Enable.Structs.{enabled_schedule-struct, disable_schedule-schedule}
use der_scheduling.Schedule.Thread.{ensure_next_start_time, start_schedule, ready_round}
use der_scheduling.Schedule.Thread.Execution.{start_schedule-struct}

module _ ⦃lib : Platform⦄ where
  open lib use {Node, Value}

  str_tm_write-schedule :
      (now s : ℕ) (attr : Node) (v : Value) (w : World)
      → (str_tm_write_access_handler now s attr v w).0.schedule ≡ w.schedule
  unfolding str_tm_write_access_handler update
  str_tm_write-schedule now s attr v w =
      ground (arith, save-schedule s (update (attribute_value v) attr w))

  -- A client disables a schedule, writes a start time and enables the schedule again.
  abbrev pub rescheduled : (t1 t2 t3 s : ℕ) → Node → Value → World → World
  rescheduled t1 t2 t3 s attr v w =
      (enabled_schedule t3 s
        (str_tm_write_access_handler t2 s attr v (disable_schedule t1 s w)).0).0

  rescheduled-next :
      (t1 t2 t3 s : ℕ) (attr : Node) (v : Value) (w : World)
      → ((rescheduled t1 t2 t3 s attr v w).schedule s).next_start_time
        ≡ (w.schedule s).next_start_time
  rescheduled-next t1 t2 t3 s attr v w =
      let u = disable_schedule t1 s w in
      let u' = (str_tm_write_access_handler t2 s attr v u).0 in
      ap (λ (x : Schedule). x.next_start_time) (enabled_schedule-struct t3 s u')
      ∙ ap (λ (f : ℕ → Schedule). (f s).next_start_time)
          (str_tm_write-schedule t2 s attr v u ∙ disable_schedule-schedule t1 s w)

  ready_round-known :
      (now s : ℕ) (w : World)
      → (w.schedule s).next_start_time ≢ 0
      → (w.schedule s).next_start_time < now
      → ready_round now s w ≡ (start_schedule now s w, ScheduleState.running)
  unfolding ready_round ensure_next_start_time
  ready_round-known now s w h k = ground arith

  -- If the thread knows a next start time and the clock is past it, the schedule is started at that
  -- time, whatever start time a client has written between disabling and enabling it.
  pub rescheduled-stale :
      (t1 t2 t3 now s : ℕ) (attr : Node) (v : Value) (w : World)
      → (w.schedule s).next_start_time ≢ 0
      → (w.schedule s).next_start_time < now
      → let (w', state) = ready_round now s (rescheduled t1 t2 t3 s attr v w) in
        (state ≡ ScheduleState.running)
        × ((w'.schedule s).start_time ≡ (w.schedule s).next_start_time)
  rescheduled-stale t1 t2 t3 now s attr v w h k =
      let u = rescheduled t1 t2 t3 s attr v w in
      let e = rescheduled-next t1 t2 t3 s attr v w in
      rw (ready_round-known now s u (rw e h) (rw e k))
        (refl, ap (λ (x : Schedule). x.start_time) (start_schedule-struct now s u) ∙ e)
