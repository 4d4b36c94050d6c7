-- ===== src/Storage/Restore/Files.antt =====
-- A schedule that is saved is restored from its file (storage_json.c), and one that has no file is
-- written to it.
use text.Mathlib.TextPositions.{eq_refl}
use der_scheduling.Prelude.{ℕ, ◌≡◌, refl, ap, ◌∙◌, true, false, Option, none, some, String}
use der_scheduling.Platform.{Platform}
use der_scheduling.World.{World}
use der_scheduling.Storage.Filenames.{convert_obj_ref_to_filename}
use der_scheduling.Storage.Save.{
  create_schedule, save_schedule, write_string_to_file, write_printed,
}
use der_scheduling.Storage.Reading.{read_file_to_buffer}
use der_scheduling.Storage.Restore.{get_schedule_data, get_filename_for_schedule, restore_schedule}
use der_scheduling.Storage.Restore.RoundTrip.{
  saved, restored, IsStorable, get_schedule_data-create_schedule,
}

module _ ⦃lib : Platform⦄ where
  open lib use {
    Json, Text, get_item, is_string, is_bool, is_number, is_array, value_string, value_int,
    value_double, create_string, create_bool, create_number, double_of_int, double_of_uint64,
    create_string-holds, create_bool-holds, create_number-holds, value_int-create_number, to_uint64,
    to_uint64-double_of_uint64, object_reference, IsPrintable, print, print_unformatted, parse,
    parse-print, parse-print_unformatted, can_open, can_print, can_read,
  }

  -- A schedule whose tree has a text: what is written can be read.
  pub record IsWritable (s : ℕ) (w : World) (written printed : Text) : Type 0 where
    pub tree_printable : IsPrintable (create_schedule w s)
    pub written_text : print_unformatted (create_schedule w s) ≡ some written
    pub printed_text : print (create_schedule w s) ≡ some printed
    pub file_opens : can_open (get_filename_for_schedule s w) ≡ true
    pub file_prints : can_print written ≡ true
    pub file_reads : can_read (get_filename_for_schedule s w) ≡ true

  save_schedule-file :
      (s : ℕ) (w : World) {written printed : Text}
      → IsWritable s w written printed
      → (save_schedule s w).files (get_filename_for_schedule s w) ≡ some written
  unfolding save_schedule write_string_to_file
  save_schedule-file s w h =
      rw (h.written_text, h.file_opens, h.file_prints)
        (rw (eq_refl (get_filename_for_schedule s w)) refl)

  file_read :
      (s : ℕ) (v w : World) {written : Text}
      → get_filename_for_schedule s w ≡ get_filename_for_schedule s v
      → w.files (get_filename_for_schedule s v) ≡ some written
      → can_read (get_filename_for_schedule s v) ≡ true
      → read_file_to_buffer (get_filename_for_schedule s w) w ≡ some written
  unfolding read_file_to_buffer
  file_read s v w same held reads = rw (same, reads) held

  restore_schedule-read :
      (now s : ℕ) (w : World) {buffer : Text} {tree : Json}
      → read_file_to_buffer (get_filename_for_schedule s w) w ≡ some buffer
      → parse buffer ≡ some tree
      → restore_schedule now s w ≡ (get_schedule_data now s (print tree) w).0
  unfolding restore_schedule
  restore_schedule-read now s w read p = rw (read, p) refl

  restore_schedule-new :
      (now s : ℕ) (w : World)
      → read_file_to_buffer (get_filename_for_schedule s w) w ≡ none
      → restore_schedule now s w
        ≡ (get_schedule_data now s (print (create_schedule w s)) (
            write_printed
              (get_filename_for_schedule s w)
              (print_unformatted (create_schedule w s))
              w)).0
  unfolding restore_schedule
  restore_schedule-new now s w read = rw read refl

  -- A schedule that a run of the program saved is restored in a run that finds the files as they were
  -- left, and that has the schedule at the same logical node: restoring sets every setting, the start
  -- time and the state to the saved values, and takes the entries and the start times from the file.
  -- The tree of the schedule must have a text, its file must open, be written and be read, and its
  -- numbers must fit the types that they are read into.
  pub restore_schedule-save_schedule :
      (now s : ℕ) (v w : World) {written printed : Text}
      → IsWritable s v written printed
      → IsStorable (saved v s)
      → w.files ≡ (save_schedule s v).files
      → (w.schedule s).schedule_ln ≡ (v.schedule s).schedule_ln
      → restore_schedule now s w ≡ restored now s (saved v s) w
  restore_schedule-save_schedule now s v w h k files node =
      restore_schedule-read now s w
        (file_read s v w (ap (λ n. convert_obj_ref_to_filename (object_reference false n)) node)
          (ap (λ (f : String → Option Text). f (get_filename_for_schedule s v)) files
            ∙ save_schedule-file s v h)
          h.file_reads)
        (parse-print_unformatted _ _ h.tree_printable h.written_text)
      ∙ rw
          (
            h.printed_text,
            get_schedule_data-create_schedule now s s v w _
                (parse-print _ _ h.tree_printable h.printed_text) k,
          )
          refl

  -- A schedule with no file that can be read is written to its file, and then set to what it was
  -- written with.
  restore_schedule_first :
      (now s : ℕ) (w : World) {printed : Text}
      → read_file_to_buffer (get_filename_for_schedule s w) w ≡ none
      → IsPrintable (create_schedule w s)
      → print (create_schedule w s) ≡ some printed
      → IsStorable (saved w s)
      → restore_schedule now s w
        ≡ restored now s (saved w s) (
            write_printed
              (get_filename_for_schedule s w)
              (print_unformatted (create_schedule w s))
              w)
  restore_schedule_first now s w read printable p k =
      restore_schedule-new now s w read
      ∙ rw (p, get_schedule_data-create_schedule now s s w _ _ (parse-print _ _ printable p) k) refl
