-- ===== src/System/Restoring.antt =====
-- Restoring from files keeps the lists of schedules and controllers.
use der_scheduling.Prelude.{
  ℕ, zero, suc, ◌+◌, refl, Bool, Option, none, some, List, [], ◌∷◌, String, arith, fold,
}
use der_scheduling.Prelude.Int.{ℤ, uint64_of_int}
use der_scheduling.Platform.{Platform, SetValue, set_int32, set_uint32}
use der_scheduling.World.{World}
use der_scheduling.Schedule.Getters.{ln_child}
use der_scheduling.Schedule.Setters.{
  set_schd_reuse, set_prio, set_num_entr, set_schd_intv_value_in_ms, set_schd_intv_in_ms,
}
use der_scheduling.Storage.Reading.{
  Restoring, ◌>>=◌, ◌>>◌, go_on, call, required, text_of, followed, is_done, set_unchecked,
}
use der_scheduling.Storage.Entries.{restore_entry, restore_entries}
use der_scheduling.Storage.StartTimes.{
  restore_field, restore_start_time, restore_each, restore_start_times, restore_calendar,
  restore_set_cal, restore_set_tm, restore_at, restore_named, restore_with_id, set_field,
  time_of_item,
}
use der_scheduling.Storage.Restore.{
  schedule_update_act_str_tm, restore_num_entr, restore_act_str_tm,
}
use der_scheduling.System.Keeps.{Keeps, Keeps-refl, Keeps-trans, Keeps-same, set_schedule-Keeps}
use der_scheduling.System.Status.{update_time_status-Keeps}

module _ ⦃lib : Platform⦄ where
  open lib use {
    get_child, Node, Json, Text, Double, get_item, is_string, is_bool, is_number, is_array,
    value_string, value_int, value_double, to_uint64, array_size, array_item, parse, print,
    print_unformatted,
  }

  -- A `Restoring` function that keeps the lists, whether or not it comes to its end.
  unfoldable pub KeepsLists : {A : Type 0} → Restoring A → Type 0
  KeepsLists m = (w : World) → Keeps w (m w).0

  go_on-Keeps :
      {A B : Type 0} (f : A → Restoring B) (w : World) (r : World × Option A)
      → Keeps w r.0
      → ((a : A) → KeepsLists (f a))
      → Keeps w (go_on f r).0
  unfolding KeepsLists
  go_on-Keeps f w (u, none) h k = h
  go_on-Keeps f w (u, some a) h k = Keeps-trans h (k a u)

  followed-Keeps : (o : Option String) (w : World) → Keeps w (followed o w).0
  followed-Keeps none w = Keeps-same refl refl
  followed-Keeps (some text) w = Keeps-refl w

  -- An item that must be there, a call, and a text that is followed, each with the rest.
  pub required-KeepsLists :
      {B : Type 0} (test : Json → Bool) (json : Json) (key : String) (f : Json → Restoring B)
      → ((item : Json) → KeepsLists (f item))
      → KeepsLists (required test json key >>= f)
  unfolding KeepsLists required
  required-KeepsLists test json key f h w =
      go_on-Keeps f w (required test json key w) (Keeps-refl w) h

  pub call-KeepsLists :
      {B : Type 0} (g : World → World) (m : Restoring B)
      → ((w : World) → Keeps w (g w))
      → KeepsLists m
      → KeepsLists (call g >> m)
  unfolding KeepsLists
  call-KeepsLists g m h k w = Keeps-trans (h w) (k (g w))

  pub text_of-KeepsLists :
      {B : Type 0} (j : Json) (f : String → Restoring B)
      → ((text : String) → KeepsLists (f text))
      → KeepsLists (text_of j >>= f)
  unfolding KeepsLists
  text_of-KeepsLists j f h w =
      go_on-Keeps f w (followed (value_string j) w) (followed-Keeps (value_string j) w) h

  pub done-Keeps :
      {A : Type 0} (w : World) (r : World × Option A) → Keeps w r.0 → Keeps w (is_done r).0
  done-Keeps w (u, none) h = h
  done-Keeps w (u, some a) h = h

  pub fold-Keeps :
      (f : ℕ → World → World) (ns : List ℕ) (w : World)
      → ((n : ℕ) (u : World) → Keeps u (f n u))
      → Keeps w (fold f ns w)
  fold-Keeps f [] w h = Keeps-refl w
  fold-Keeps f (n ∷ ns) w h = Keeps-trans (h n w) (fold-Keeps f ns (f n w) h)

  pub set_unchecked-Keeps :
      (u : SetValue Double) (n : Node) (w : World) → Keeps w (set_unchecked u n w)
  unfolding set_unchecked
  set_unchecked-Keeps u n w = Keeps-same (ground arith) (ground arith)

  pub reuse-Keeps : (s : ℕ) (b : Bool) (w : World) → Keeps w (set_schd_reuse s b w)
  unfolding set_schd_reuse
  reuse-Keeps s b w = Keeps-same (ground arith) (ground arith)

  pub prio-Keeps : (s : ℕ) (i : ℤ) (w : World) → Keeps w (set_prio s i w)
  unfolding set_prio
  prio-Keeps s i w = Keeps-same (ground arith) (ground arith)

  count-Keeps : (s : ℕ) (i : ℤ) (w : World) → Keeps w (set_num_entr s i w)
  unfolding set_num_entr
  count-Keeps s i w = Keeps-same (ground arith) (ground arith)

  pub num_entr-Keeps : (s : ℕ) (i : ℤ) (w : World) → Keeps w (restore_num_entr s i w)
  unfolding restore_num_entr
  num_entr-Keeps s i w =
      Keeps-trans (count-Keeps s i w) (set_schedule-Keeps s _ (set_num_entr s i w) refl)

  interval-Keeps : (s n : ℕ) (w : World) → Keeps w (set_schd_intv_value_in_ms s n w)
  unfolding set_schd_intv_value_in_ms
  interval-Keeps s n w = Keeps-same (ground arith) (ground arith)

  pub schd_intv-Keeps : (s : ℕ) (i : ℤ) (w : World) → Keeps w (set_schd_intv_in_ms s i w)
  unfolding set_schd_intv_in_ms
  schd_intv-Keeps s i w =
      Keeps-trans (interval-Keeps s (uint64_of_int i) w) (set_schedule-Keeps s _ _ refl)

  pub act_str_tm-Keeps :
      (now s : ℕ) (o : Option Json) (w : World) → Keeps w (restore_act_str_tm now s o w)
  unfolding schedule_update_act_str_tm
  act_str_tm-Keeps now s none w = Keeps-refl w
  act_str_tm-Keeps now s (some j) w = ground (
    arith,
    Keeps-refl w,
    Keeps-trans
        (set_schedule-Keeps s (record (w.schedule s) { start_time = to_uint64 (value_double j) }) w
          refl)
        (update_time_status-Keeps now s (to_uint64 (value_double j)) "ActStrTm" _),
  )

  entry-Keeps : (s : ℕ) (j : Json) (i : ℕ) (w : World) → Keeps w (restore_entry s j i w)
  unfolding restore_entry
  entry-Keeps s j i w = Keeps-same (ground arith) (ground arith)

  pub entries-Keeps :
      (s : ℕ) (j : Json) (count i : ℕ) (w : World) → Keeps w (restore_entries s j count i w)
  unfolding restore_entries
  entries-Keeps s j zero i w = Keeps-refl w
  entries-Keeps s j (suc count) i w =
      Keeps-trans (entry-Keeps s j i w) (entries-Keeps s j count (i + 1) (restore_entry s j i w))

  field-Keeps :
      (u : ℤ → SetValue Double) (name : String) (j : Json) (n : Node) (w : World)
      → Keeps w (restore_field u name j n w)
  unfolding restore_field
  field-Keeps u name j n w = set-Keeps (get_item j name) (get_child (some n) name)
    where
      set-Keeps : (o : Option Json) (m : Option Node) → Keeps w (set_field u o m w)
      set-Keeps (some item) (some m) = set_unchecked-Keeps (u (value_int item)) m w
      set-Keeps _ _ = Keeps-refl w

  calendar-Keeps : (o : Option Json) (n : Node) (w : World) → Keeps w (restore_calendar o n w)
  calendar-Keeps none n w = Keeps-refl w
  calendar-Keeps (some j) n w = Keeps-trans (field-Keeps set_uint32 "occ" j n w) (
      Keeps-trans (field-Keeps set_int32 "occType" j n _) (
        Keeps-trans (field-Keeps set_int32 "occPer" j n _) (
          Keeps-trans (field-Keeps set_int32 "weekDay" j n _) (
            Keeps-trans (field-Keeps set_int32 "month" j n _) (
              Keeps-trans (field-Keeps set_uint32 "day" j n _) (
                Keeps-trans (field-Keeps set_uint32 "hr" j n _)
                  (field-Keeps set_uint32 "mn" j n _)))))))

  set_cal-Keeps : (o : Option Node) (j : Json) (w : World) → Keeps w (restore_set_cal o j w)
  set_cal-Keeps none j w = Keeps-refl w
  set_cal-Keeps (some n) j w = calendar-Keeps (get_item j "setCal") n w

  set_tm-Keeps : (o : Option Node) (t : ℕ) (w : World) → Keeps w (restore_set_tm o t w)
  set_tm-Keeps o t w = Keeps-same (ground arith) (ground arith)

  at-Keeps : (o : Option Node) (j : Json) (w : World) → Keeps w (restore_at o j w)
  at-Keeps none j w = Keeps-refl w
  at-Keeps (some n) j w =
      Keeps-trans (set_tm-Keeps (get_child (some n) "setTm") (time_of_item (get_item j "t")) w)
        (set_cal-Keeps (get_child (some n) "setCal") j _)

  named-Keeps : (s : ℕ) (o : Option String) (j : Json) (w : World) → Keeps w (restore_named s o j w)
  named-Keeps s none j w = Keeps-same refl refl
  named-Keeps s (some name) j w = at-Keeps (ln_child w s name) j w

  id-Keeps : (s : ℕ) (o : Option Json) (j : Json) (w : World) → Keeps w (restore_with_id s o j w)
  id-Keeps s none j w = Keeps-refl w
  id-Keeps s (some name) j w = named-Keeps s (value_string name) j w

  start_time-Keeps : (s : ℕ) (o : Option Json) (w : World) → Keeps w (restore_start_time s o w)
  start_time-Keeps s none w = Keeps-refl w
  start_time-Keeps s (some j) w = id-Keeps s (get_item j "id") j w

  each-Keeps : (s : ℕ) (j : Json) (count i : ℕ) (w : World) → Keeps w (restore_each s j count i w)
  unfolding restore_each
  each-Keeps s j zero i w = Keeps-refl w
  each-Keeps s j (suc count) i w =
      Keeps-trans (start_time-Keeps s (array_item j i) w)
        (each-Keeps s j count (i + 1) (restore_start_time s (array_item j i) w))

  pub start_times-Keeps :
      (s : ℕ) (o : Option Json) (w : World) → Keeps w (restore_start_times s o w)
  start_times-Keeps s none w = Keeps-refl w
  start_times-Keeps s (some j) w = each-Keeps s j (array_size j) 0 w
