-- ===== src/Trace/Monitor.antt =====
-- benchmark/thread_switch_ebpf/monitor_task.py: the two eBPF handlers and the lines of the log.
pub mod Switch
pub mod Tasks
use pmu_roboflex.Prelude.{
  ℕ, Bool, true, false, ◌≡◌, refl, List, [], ◌∷◌, ◌++◌, Text, codes, ◌==◌, if◌then◌else◌,
}
use pmu_roboflex.Prelude.Decimal.{str_nat}
use pmu_roboflex.Prelude.Words.{strip}

-- `data.type`.
pub data Kind : Type 0 where
  start stop : Kind

-- `struct data_t`.
pub record Event : Type 0 where
  pub pid : ℕ
  pub tid : ℕ
  pub ts : ℕ
  pub kind : Kind
  pub comm : Text

-- What the handlers read of a `task_struct`.
pub record Task : Type 0 where
  pub tgid : ℕ
  pub pid : ℕ
  pub comm : Text

abbrev pub event_of : Kind → ℕ → Task → Event
event_of kind now task = record {
  pid = task.tgid;
  tid = task.pid;
  ts = now;
  kind = kind;
  comm = task.comm;
}

module _ (target : ℕ → Bool) where
  -- One branch of a handler: an event if the table `target_pids` holds the task's group.
  abbrev pub submit : Kind → ℕ → Task → List Event
  submit kind now task = if target task.tgid then event_of kind now task ∷ [] else []

  -- The raw tracepoint `sched_switch`: on CPU 0 only, first the task that comes, then the one that goes.
  unfoldable pub on_raw_tracepoint : ℕ → ℕ → Task → Task → List Event
  on_raw_tracepoint cpu now prev next =
      if cpu == 0 then submit start now next ++ submit stop now prev else []

  -- The kprobe on `finish_task_switch`, where the current task is the one that comes: first the task
  -- that goes.
  unfoldable pub on_kprobe : ℕ → ℕ → Task → Task → List Event
  on_kprobe cpu now prev current =
      if cpu == 0 then submit stop now prev ++ submit start now current else []

-- `{event.type}` of a `c_char`.
abbrev pub kind_name : Kind → Text
kind_name start = codes "S"
kind_name stop = codes "E"

-- `print_event`, with the end of the line.
unfoldable pub print_event : Event → Text
print_event event =
    codes "["
    ++ str_nat event.ts
    ++ codes "] PID:"
    ++ str_nat event.pid
    ++ codes " TID:"
    ++ str_nat event.tid
    ++ codes " EVENT:b'"
    ++ kind_name event.kind
    ++ codes "' COMM:"
    ++ event.comm
    ++ codes "\n"

-- What the socket server prints for a message, with the end of the line.
unfoldable pub print_external : ℕ → Text → Text
print_external ts message =
    codes "[" ++ str_nat ts ++ codes "] EXTERNAL_EVENT: " ++ strip message ++ codes "\n"

print_event_test :
    print_event (event_of stop 77 (record { tgid = 4; pid = 5; comm = codes "taskA" }))
    ≡ codes "[77] PID:4 TID:5 EVENT:b'E' COMM:taskA\n"
unfolding print_event str_nat
print_event_test = refl
