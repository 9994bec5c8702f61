-- ===== src/CClient.antt =====
-- The commands of src/robflex_api.c: each builds an object with cJSON, prints it into a buffer of 1024
-- bytes, and sends it to the daemon. cJSON's print, the kernel and vsnprintf are parameters.
pub mod Sockets
use pmu_roboflex.Prelude.{
  ℕ, ◌+◌, ◌≡◌, refl, Bool, ◌&&◌, ◌-◌, Option, none, some, List, [], ◌∷◌, ◌++◌, Text, codes, take,
  if◌then◌else◌,
}
use pmu_roboflex.Prelude.Int.{ℤ, pos, negsuc, is_negative, is_zero}
use pmu_roboflex.Json.{str, num, Object}

-- The answers of the kernel: to the n-th call of socket, and to the n-th call of sendto on a descriptor.
-- `print` is cJSON_PrintPreallocated with the buffer of MAX_JSON_SIZE, `none` where the text does not
-- fit; the texts of an object are the bytes of C strings here.
pub record System : Type 0 where
  pub gettid : ℤ
  pub socket : ℕ → ℤ
  pub sendto : ℕ → ℤ → Text → ℤ
  pub print : Object → Option Text

pub record Sent : Type 0 where
  pub fd : ℤ
  pub cmd_json : Text

-- The state of a thread: `socket_fd` is 0 until the first command.
pub record Caller : Type 0 where
  pub socket_fd : ℤ
  -- the calls of socket, and those of sendto
  pub sockets : ℕ
  pub sends : List Sent
  pub n_sends : ℕ

abbrev pub fresh : Caller
fresh = record { socket_fd = pos 0; sockets = 0; sends = []; n_sends = 0 }

abbrev pub failed : ℤ
failed = negsuc 0

-- The socket of the thread, opened where `socket_fd` is 0.
unfoldable pub with_socket : System → Caller → Caller
with_socket sys c =
    if is_zero c.socket_fd
    then record c { socket_fd = sys.socket c.sockets; sockets = c.sockets + 1 }
    else c

-- `sendto`, with the return value of the command.
unfoldable pub send : System → Text → Caller → ℤ × Caller
send sys cmd_json c = (
  if is_negative (sys.sendto c.n_sends c.socket_fd cmd_json) then failed else pos 0,
  record c {
    sends = c.sends ++ record { fd = c.socket_fd; cmd_json = cmd_json } ∷ [];
    n_sends = c.n_sends + 1;
  },
)

-- A call of socket that fails returns at once; a later command goes on with the negative descriptor.
unfoldable pub send_command_to_daemon : System → Text → Caller → ℤ × Caller
unfolding with_socket send
send_command_to_daemon sys cmd_json c =
    if is_zero c.socket_fd && is_negative (sys.socket c.sockets)
    then (failed, with_socket sys c)
    else send sys cmd_json (with_socket sys c)

-- The text that vsnprintf leaves in a buffer of MAX_LOG_SIZE bytes.
abbrev pub max_log_size : ℕ
max_log_size = 512

abbrev pub formatted_message : Text → Text
formatted_message message = take (max_log_size - 1) message

-- `tid ? tid : gettid()`.
abbrev pub own_tid : System → ℤ → ℤ
own_tid sys tid = if is_zero tid then sys.gettid else tid

-- A call of one of the functions; the message of a log is the formatted one.
pub data Command : Type 0 where
  set_scheduler : ℤ → ℤ → ℤ → Command
  set_priority : ℤ → ℤ → Command
  log_message : ℤ → Text → Command
  update_ctrl_time_cost : ℤ → ℤ → Command
  apply_event : Text → ℕ → ℤ → Command
  cancel_event : Text → ℤ → Command

unfoldable pub root_of : System → Command → Object
root_of sys (set_scheduler tid policy priority) =
    (codes "cmd", str (codes "sched_setscheduler"))
    ∷ (codes "tid", num (own_tid sys tid))
    ∷ (codes "policy", num policy)
    ∷ (codes "priority", num priority)
    ∷ []
root_of sys (set_priority tid priority) =
    (codes "cmd", str (codes "set_priority"))
    ∷ (codes "tid", num (own_tid sys tid))
    ∷ (codes "priority", num priority)
    ∷ []
root_of sys (log_message tid message) =
    (codes "cmd", str (codes "log_message"))
    ∷ (codes "tid", num (own_tid sys tid))
    ∷ (codes "message", str (formatted_message message))
    ∷ []
root_of sys (update_ctrl_time_cost tid value_in_us) =
    (codes "cmd", str (codes "update_ctrl_time_cost"))
    ∷ (codes "tid", num (own_tid sys tid))
    ∷ (codes "value_in_us", num value_in_us)
    ∷ []
root_of sys (apply_event event_name timeout strength) =
    (codes "cmd", str (codes "apply_event"))
    ∷ (codes "event_name", str event_name)
    ∷ (codes "timeout", num (pos timeout))
    ∷ (codes "strength", num strength)
    ∷ []
root_of sys (cancel_event event_name strength) =
    (codes "cmd", str (codes "cancel_event"))
    ∷ (codes "event_name", str event_name)
    ∷ (codes "strength", num strength)
    ∷ []

-- The end of each function: a text that does not fit is not sent.
abbrev pub send_printed : System → Option Text → Caller → ℤ × Caller
send_printed sys none c = (failed, c)
send_printed sys (some cmd_json) c = send_command_to_daemon sys cmd_json c

unfoldable pub perform : System → Command → Caller → ℤ × Caller
unfolding root_of send_command_to_daemon
perform sys command c = send_printed sys (sys.print (root_of sys command)) c

-- The calls of a thread, one after the other, with what they return.
unfoldable pub run : System → List Command → Caller → List ℤ × Caller
unfolding perform
run sys [] c = ([], c)
run sys (command ∷ commands) c =
    let (ret, c') = perform sys command c in
    let (rets, c'') = run sys commands c' in (ret ∷ rets, c'')
