-- ===== src/Lib.antt =====
-- DER scheduling: the scheduler of src/scheduler, which runs the schedules (FSCH) and the schedule
-- controllers (FSCC) of an IEC 61850 server.
--
-- The parts and how they interact. A schedule (src/scheduler/schedule.c) reads its settings from the
-- data model of the server, is enabled and disabled by clients or by the user of the library, and is
-- run by a thread, which starts it when a start time has come, puts its entries out one by one, and
-- ends it. It tells its schedule controllers of each new state, priority and value. A schedule
-- controller (src/scheduler/schedule_controller.c) selects one running schedule as the active one and
-- hands that schedule's values to its target. The scheduler (src/scheduler/der_scheduler.c) owns both,
-- finds schedules by their references and calls the user's handler of target values. The storage
-- (src/scheduler/storage/storage_json.c) writes schedules and controllers to JSON files and restores
-- them.
--
-- Where what is modelled:
--   Platform: what the program uses and does not implement, as one record: libiec61850, cJSON,
--     doubles, the time zone, files. Its laws are what the theorems need of these libraries.
--   World: struct sSchedule, struct sScheduleController, struct sScheduler, and the whole state.
--   Names: scheduler_checkIfMultiObjInst, and the numbered names that sprintf makes.
--   Schedule: schedule.c, one module for each group of its functions. Getters, Values, Interval read
--     the settings; StartTimes and Calendar compute start times; State writes the status and sends the
--     events; Validity and Enable are the checks, enabledSchedule and disableSchedule; Access and
--     Control are the handlers of client writes and controls; Thread is schedule_thread; Setters
--     has the functions that set settings in place; Create is Schedule_create.
--   Controller: schedule_controller.c. Select is scheduleController_getActiveSchedule, Update writes
--     values and target values, Notify has the three functions that schedules call, References has
--     the handlers of client writes, Initialize is ScheduleController_initialize.
--   Scheduler: der_scheduler.c, the look-up of schedules and the calls that start from a reference.
--     Create is Scheduler_create with the search of the data model, Database the calls that set the
--     storage and the handler of target values.
--   Storage: storage_json.c. Save and SaveController write files; Reading, Entries, StartTimes,
--     Restore and RestoreController read them and set what they hold.
--   System: the program as a whole, as steps on one state: the rounds of threads, the requests of
--     clients and the calls of the user, in any order; Created and Program start from its creation.
--   Example: examples/scheduler_example1.c, a program that uses the scheduler: its queue of target
--     values, and the calls that set it up.
--   Examples: a small plant at which the theorems are applied.
--
-- How the state corresponds. A pointer to a struct is a number, and World holds the structs behind the
-- numbers, so that a schedule and the controllers that know it share them as in C. Lists of pointers
-- are lists of numbers: LinkedList of libiec61850 adds at the end and removes the first equal
-- element. Values of the data model live in `model`, which only the platform reads and
-- writes. An operation takes a World and gives the next one, with its result. Following a NULL pointer
-- or dividing by zero sets `faulted`, and the model goes on; the process would be gone.
--
-- The choices made. Each handler and each round of the thread reads the clock once, where the code
-- may read it several times within the same call; the time is the argument `now`. Memory suffices.
-- Output to the console and locks are left out. A call of a handler and a round of a thread are one
-- step each; System has their interleavings, while two steps that overlap in time are not modelled.
-- An int that overflows wraps. What a library call does when it is given NULL is left to the
-- platform. Names are ASCII. The digits of a number n are computed on the fuel n + 1, which
-- is more than they are.
--
-- The callbacks that are installed in the server are a list in the state; which of them the server
-- calls for a write is the platform's. A JSON tree is what the platform's laws say of it: the items
-- under its keys and the elements of its arrays. The loop that installs the write handlers of the
-- entries runs on a fuel that is an argument: above the number of entries, its value does not matter.
-- Structs that are created have the numbers of the structs before them as their pointers.
--
-- Not modelled: the destructors, which stop threads and free memory; sleeping; the test client, which
-- only calls the client library; and the conformance tests, which run against a server.
pub mod Prelude
pub mod Platform
pub mod Names
pub mod World
pub mod Schedule
pub mod Storage
pub mod Controller
pub mod Scheduler
pub mod System
pub mod Example
pub mod Examples
