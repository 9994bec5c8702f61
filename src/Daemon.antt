-- ===== src/Daemon.antt =====
-- src/server.c: the scheduling daemon, from a datagram to its effects. The cJSON library and the
-- kernel's answers are parameters. A handler is a computation over the daemon's state that may end in a
-- read through a NULL pointer; what it prints besides log messages is not recorded.
pub mod Errors
pub mod Fatal
pub mod Handlers
pub mod Protocol
pub mod Served
pub mod Loop
pub mod Reached
pub mod Sessions
pub mod Queue
pub mod Waker
use pmu_roboflex.Prelude.{
  ℕ, ◌+◌, ◌≡◌, refl, Bool, true, false, not, ◌||◌, Option, none, some, List, [], ◌∷◌, ◌++◌, Text,
  codes, text_beq, length, take, ◌==◌, if◌then◌else◌,
}
use pmu_roboflex.Prelude.Int.{ℤ, pos, negsuc, is_negative, is_zero, beq_int}
use pmu_roboflex.Events.{EventBits, no_event, robflex_get_event_idx, set_event_bit, unset_event_bit}

-- What the daemon reads of a cJSON item: `valueint`, and `valuestring`, `none` where it is NULL.
pub record Item : Type 0 where
  pub valueint : ℤ
  pub valuestring : Option Text

-- cJSON: a parsed text is a node; both functions give `none` for NULL.
pub record CJson (Node : Type 0) : Type 0 where
  pub parse : Text → Option Node
  pub get_object_item : Node → Text → Option Item

-- The calls that leave the daemon, the lines of the log among them.
pub data SysCall : Type 0 where
  sched_setscheduler : ℤ → ℤ → ℤ → SysCall
  setpriority : ℤ → ℤ → SysCall
  sigqueue : ℤ → ℤ → SysCall
  log : ℤ → Option Text → SysCall

-- What the kernel answers to the n-th call.
abbrev pub Kernel : Type 0
Kernel = ℕ → SysCall → ℤ

pub record Daemon : Type 0 where
  -- the event bits behind `ptr_shmem`
  pub ptr_shmem : Option EventBits
  pub calls : List SysCall

-- After main has mapped the memory and zeroed the bits.
abbrev pub started : Daemon
started = record { ptr_shmem = some no_event; calls = [] }

-- `none` is the end of the process by a read through NULL.
abbrev pub M : Type 0 → Type 0
M A = Daemon → Option (A × Daemon)

abbrev pub return : {A : Type 0} → A → M A
return a d = some (a, d)

infixl 5 ◌>>=◌
abbrev pub ◌>>=◌ : {A B : Type 0} → M A → (A → M B) → M B
◌>>=◌ m f d = elim (m d) [ none ↦ none | some (a, d') ↦ f a d' ]

-- `p->field` for a pointer that may be NULL.
abbrev pub deref : {A : Type 0} → Option A → M A
deref none d = none
deref (some a) d = some (a, d)

abbrev pub is_null : {A : Type 0} → Option A → Bool
is_null none = true
is_null (some a) = false

abbrev pub sched_other : ℤ
sched_other = pos 0

abbrev pub failure : ℤ
failure = negsuc 0

unfoldable pub call : Kernel → SysCall → M ℤ
call kernel c d = some (kernel (length d.calls) c, record d { calls = d.calls ++ c ∷ [] })

unfoldable pub set_bit : ℤ → M ℤ
unfolding set_event_bit
set_bit event_idx d =
    let (ret, m) = set_event_bit d.ptr_shmem event_idx in some (ret, record d { ptr_shmem = m })

unfoldable pub unset_bit : ℤ → M ℤ
unfolding unset_event_bit
unset_bit event_idx d =
    let (ret, m) = unset_event_bit d.ptr_shmem event_idx in some (ret, record d { ptr_shmem = m })

-- The index of an event as an int.
abbrev pub idx_of : Item → ℤ
idx_of event_name = pos (robflex_get_event_idx event_name.valuestring)

-- The text that cJSON_Parse sees: a C string ends at a NUL.
unfoldable pub until_nul : Text → Text
until_nul [] = []
until_nul (c ∷ s) = if c == 0 then [] else c ∷ until_nul s

-- `sizeof(buffer) - 1`; the rest of a longer datagram is lost.
abbrev pub max_received : ℕ
max_received = 255

module _ {Node : Type 0} (cjson : CJson Node) (kernel : Kernel) where
  abbrev field : Node → Text → Option Item
  field = cjson.get_object_item

  -- For SCHED_OTHER the priority is the nice value.
  unfoldable pub set_nice : ℤ → ℤ → M ℤ
  unfolding call
  set_nice tid priority = do
    ret ← call kernel (sched_setscheduler tid sched_other (pos 0))
    if is_negative ret then return failure else do
      nice ← call kernel (setpriority tid priority)
      if is_negative nice then return failure else return (pos 0)

  unfoldable pub do_sched_setscheduler : Node → M ℤ
  unfolding set_nice call
  do_sched_setscheduler root =
      let tid = field root (codes "tid") in
      let policy = field root (codes "policy") in
      let priority = field root (codes "priority") in
      if is_null tid || is_null policy || is_null priority then return failure else do
        t ← deref tid
        pol ← deref policy
        prio ← deref priority
        if beq_int pol.valueint sched_other
            then set_nice t.valueint prio.valueint
            else call kernel (sched_setscheduler t.valueint pol.valueint prio.valueint)

  unfoldable pub do_set_priority : Node → M ℤ
  unfolding call
  do_set_priority root =
      let tid = field root (codes "tid") in
      let priority = field root (codes "priority") in
      if is_null tid || is_null priority then return failure else do
        t ← deref tid
        prio ← deref priority
        call kernel (setpriority t.valueint prio.valueint)

  unfoldable pub do_log_message : Node → M ℤ
  unfolding call
  do_log_message root =
      let tid = field root (codes "tid") in
      let message = field root (codes "message") in
      if is_null tid || is_null message then return failure else do
        t ← deref tid
        m ← deref message
        printed ← call kernel (log t.valueint m.valuestring)
        return (pos 0)

  -- The signal is CPI_SET_SIGNAL.
  unfoldable pub do_update_ctrl_time_cost : Node → M ℤ
  unfolding call
  do_update_ctrl_time_cost root =
      let tid = field root (codes "tid") in
      let value_in_us = field root (codes "value_in_us") in
      if is_null value_in_us || is_null tid
      then return failure
      else do t ← deref tid; v ← deref value_in_us; call kernel (sigqueue t.valueint v.valueint)

  -- The line that is printed reads `timeout`, which the guard does not ask for.
  unfoldable pub do_apply_event : Node → M ℤ
  unfolding set_bit robflex_get_event_idx
  do_apply_event root =
      let event_name = field root (codes "event_name") in
      let timeout = field root (codes "timeout") in
      let strength = field root (codes "strength") in
      if is_null event_name || is_null strength then return failure else do
        name ← deref event_name
        t ← deref timeout
        s ← deref strength
        if beq_int (idx_of name) (negsuc 0) then return failure else set_bit (idx_of name)

  unfoldable pub do_cancel_event : Node → M ℤ
  unfolding unset_bit robflex_get_event_idx
  do_cancel_event root =
      let event_name = field root (codes "event_name") in
      let strength = field root (codes "strength") in
      if is_null event_name then return failure else do
        name ← deref event_name
        s ← deref strength
        if beq_int (idx_of name) (negsuc 0) then return failure else unset_bit (idx_of name)

  -- The chain of strcmp.
  unfoldable pub run_command : Text → Node → M ℤ
  unfolding do_sched_setscheduler do_set_priority do_log_message do_update_ctrl_time_cost
      do_apply_event do_cancel_event
  run_command cmd root =
      if text_beq cmd (codes "sched_setscheduler")
      then do_sched_setscheduler root
      else if text_beq cmd (codes "set_priority")
      then do_set_priority root
      else if text_beq cmd (codes "log_message")
      then do_log_message root
      else if text_beq cmd (codes "update_ctrl_time_cost")
      then do_update_ctrl_time_cost root
      else if text_beq cmd (codes "apply_event")
      then do_apply_event root
      else if text_beq cmd (codes "cancel_event")
      then do_cancel_event root
      else return failure

  unfoldable pub cmd_dispatcher : Node → M ℤ
  unfolding run_command
  cmd_dispatcher root =
      let cmd = field root (codes "cmd") in
      if is_null cmd
      then return failure
      else do c ← deref cmd; name ← deref c.valuestring; run_command name root

  -- The request ends in the state that the command leaves; its result is only printed.
  unfoldable pub dispatch : Option Node → Daemon → Option Daemon
  unfolding cmd_dispatcher
  dispatch none d = some d
  dispatch (some root) d = elim (cmd_dispatcher root d) [ none ↦ none | some (ret, d') ↦ some d' ]

  -- What recvfrom gives: a datagram, or `none` for an error.
  unfoldable pub handle_client_request : Option Text → Daemon → Option Daemon
  unfolding dispatch until_nul
  handle_client_request none d = some d
  handle_client_request (some datagram) d =
      dispatch (cjson.parse (until_nul (take max_received datagram))) d

  -- The loop of main, over what its calls of recvfrom give while it runs.
  unfoldable pub serve : List (Option Text) → Daemon → Option Daemon
  unfolding handle_client_request
  serve [] d = some d
  serve (r ∷ received) d = elim (handle_client_request r d) [
    | none ↦ none
    | some d' ↦ serve received d'
  ]
