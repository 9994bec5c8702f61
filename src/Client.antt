-- ===== src/Client.antt =====
-- src/python/robflex_api.py: the client of the scheduling daemon. The thread-local socket and what the
-- process has done with it are a state that each function takes and returns; what the kernel answers
-- is `Net`. The children have the functions of the API and the proofs.
pub mod Api
pub mod Delivery
pub mod Session
use pmu_roboflex.Prelude.{
  ℕ, ◌+◌, ◌≡◌, refl, Option, none, some, List, [], ◌∷◌, ◌++◌, Text, codes, length, ltb,
  if◌then◌else◌,
}
use pmu_roboflex.Prelude.Int.{ℤ, pos, negsuc, is_negative}
use pmu_roboflex.Prelude.Utf8.{encode_utf8}
use pmu_roboflex.Json.{Object, dumps}

abbrev pub socket_path : Text
socket_path = codes "/tmp/schedule_daemon.sock"

abbrev pub max_json_size : ℕ
max_json_size = 4096

abbrev pub max_log_size : ℕ
max_log_size = 1024

-- The kernel's answers. `none` is an exception (OSError or a timeout).
pub record Net : Type 0 where
  -- the n-th call of socket.socket
  pub socket : ℕ → Option ℕ
  -- the n-th call of sendto: socket, bytes and address
  pub sendto : ℕ → ℕ → Text → Text → Option ℤ
  pub gettid : ℤ

-- One call of sendto.
pub record Datagram : Type 0 where
  pub fd : ℕ
  pub bytes : Text
  pub address : Text

pub record Client : Type 0 where
  -- `_local.sock`; `none` is a missing attribute or None, which the code treats alike
  pub sock : Option ℕ
  -- the calls of socket.socket so far, and the sockets that they returned
  pub attempts : ℕ
  pub opened : List ℕ
  pub closed : List ℕ
  pub sent : List Datagram
  -- the sizes printed by "Warning: JSON payload too large"
  pub warned : List ℕ

abbrev pub fresh : Client
fresh = record { sock = none; attempts = 0; opened = []; closed = []; sent = []; warned = [] }

abbrev pub success : ℤ
success = pos 0

abbrev pub failure : ℤ
failure = negsuc 0

unfoldable pub remember_socket : Option ℕ → Client → Option ℕ × Client
remember_socket none c = (none, record c { attempts = c.attempts + 1 })
remember_socket (some fd) c =
    (some fd, record c { sock = some fd; attempts = c.attempts + 1; opened = c.opened ++ fd ∷ [] })

-- The socket of the thread, made at the first use; `none` is the RuntimeError.
unfoldable pub get_socket : Net → Client → Option ℕ × Client
unfolding remember_socket
get_socket net c = elim c.sock [
  | some fd ↦ (some fd, c)
  | none ↦ remember_socket (net.socket c.attempts) c
]

unfoldable pub warn_if_large : Text → Client → Client
warn_if_large cmd_json c =
    if ltb max_json_size (length cmd_json)
    then record c { warned = c.warned ++ length cmd_json ∷ [] }
    else c

-- What the function returns for the number of bytes that sendto gives; an exception is caught.
unfoldable pub reply_of_sendto : Option ℤ → ℤ
reply_of_sendto none = failure
reply_of_sendto (some num_bytes) = if is_negative num_bytes then failure else success

unfoldable pub send_bytes : Net → ℕ → Text → Client → ℤ × Client
unfolding reply_of_sendto
send_bytes net fd bytes c = (
  reply_of_sendto (net.sendto (length c.sent) fd bytes socket_path),
  record c { sent = c.sent ++ record { fd = fd; bytes = bytes; address = socket_path } ∷ [] },
)

unfoldable pub send_text : Net → ℕ → Text → Client → ℤ × Client
unfolding warn_if_large send_bytes encode_utf8
send_text net fd cmd_json c = elim (encode_utf8 cmd_json) [
  | some bytes ↦ send_bytes net fd bytes (warn_if_large cmd_json c)
  | none ↦ (failure, warn_if_large cmd_json c)
]

unfoldable pub send_on : Net → Object → Option ℕ → Client → ℤ × Client
unfolding send_text dumps
send_on net cmd_dict none c = (failure, c)
send_on net cmd_dict (some fd) c = send_text net fd (dumps cmd_dict) c

-- Every exception is caught and gives -1.
unfoldable pub send_command_to_daemon : Net → Object → Client → ℤ × Client
unfolding get_socket send_on
send_command_to_daemon net cmd_dict c =
    let (found, c') = get_socket net c in send_on net cmd_dict found c'

-- An error of close() is ignored.
unfoldable pub robflex_cleanup : Client → Client
robflex_cleanup c = elim c.sock [
  | none ↦ c
  | some fd ↦ record c { sock = none; closed = c.closed ++ fd ∷ [] }
]
