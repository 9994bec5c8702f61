-- ===== src/Daemon/Sessions.antt =====
-- A thread that uses src/python/robflex_api.py, and the daemon of src/server.c at the other end.
use pmu_roboflex.Prelude.{
  ℕ, ◌≡◌, refl, Bool, true, false, Option, some, List, [], ◌∷◌, ◌++◌, map, Text, All, if◌then◌else◌,
  arith, ap, ◌∙◌, Option-cases, inl, inr,
}
use pmu_roboflex.Prelude.Int.{ℤ, pos, beq_int}
use pmu_roboflex.Prelude.Utf8.{encode_utf8}
use pmu_roboflex.Json.{Object, dumps}
use pmu_roboflex.Client.{
  Net, Datagram, Client, fresh, get_socket, send_command_to_daemon, robflex_cleanup,
}
use pmu_roboflex.Client.Delivery.{datagram_of, send_command_to_daemon_lem, get_socket-Acquired}
use pmu_roboflex.Client.Api.{
  Formatting, Formatted, formatted, type_error, other_error, format_message, cut_to_log_size,
  own_tid,
}
use pmu_roboflex.Client.Session.{
  Call, set_scheduler, set_priority, log_message, update_ctrl_time_cost, apply_event, cancel_event,
  cleanup, payload, perform, run,
}
use pmu_roboflex.Client.Session.Steps.{by_payload, perform-by_payload, send_if, log_payload_of}
use pmu_roboflex.Client.Session.Payloads
use pmu_roboflex.Client.Session.Payloads.{IsCommand, length-cut_to_log_size}
use pmu_roboflex.Events.{EventBits, is_no_index, robflex_get_event_idx, test_event_bit}
use pmu_roboflex.Events.Names.{robflex_get_event_idx-le}
use pmu_roboflex.Events.Bits.{
  IsMapped, is_index, set-IsMapped, unset-IsMapped, event_bits_refine, test-no_event,
}
use pmu_roboflex.Daemon.{CJson, Kernel, Daemon, started, serve}
use pmu_roboflex.Daemon.Loop.{serve-append, serve-one}
use pmu_roboflex.Daemon.Protocol.{IsReadable, ReadsObjects, effect}
use pmu_roboflex.Daemon.Served.{command_served}

-- Which events are on, by their indices.
abbrev pub Events : Type 0
Events = ℤ → Bool

abbrev pub index_of : Text → ℤ
index_of event_name = pos (robflex_get_event_idx (encode_utf8 event_name))

abbrev pub switched : Bool → Text → Events → Events
switched b event_name events j = if beq_int (index_of event_name) j then b else events j

-- What a command does to the events.
abbrev pub told : {o : Object} → IsCommand o → Events → Events
told (Payloads.scheduler tid policy prio) events = events
told (Payloads.priority tid prio) events = events
told (Payloads.log tid message h) events = events
told (Payloads.time_cost tid value) events = events
told (Payloads.apply name timeout strength) events = switched true name events
told (Payloads.cancel name strength) events = switched false name events

-- What the calls of a thread do to the events, of all that they ask.
pub replay : {Arg : Type 0} → List (Call Arg) → Events → Events
replay [] events = events
replay (apply_event name timeout strength ∷ calls) events = replay calls (switched true name events)
replay (cancel_event name strength ∷ calls) events = replay calls (switched false name events)
replay (set_scheduler tid policy prio ∷ calls) events = replay calls events
replay (set_priority tid prio ∷ calls) events = replay calls events
replay (log_message tid message args ∷ calls) events = replay calls events
replay (update_ctrl_time_cost tid value ∷ calls) events = replay calls events
replay (cleanup ∷ calls) events = replay calls events

-- The datagrams in the order in which they are handed over.
abbrev pub received_of : List Datagram → List (Option Text)
received_of sent = map (λ (g : Datagram). some g.bytes) sent

in_range : (name : Text) → is_index (index_of name) ≡ true
unfolding is_no_index
in_range name = ground (arith, robflex_get_event_idx-le (encode_utf8 name))

-- The events of a mapped memory.
record Shows (m : Option EventBits) (events : Events) : Type 0 where
  mapped : IsMapped m
  tests : (j : ℤ) → test_event_bit m j ≡ events j

effect-Shows :
    (kernel : Kernel) {o : Object} (k : IsCommand o) (d : Daemon) (events : Events)
    → Shows d.ptr_shmem events
    → Shows (effect kernel k d).ptr_shmem (told k events)
unfolding effect
effect-Shows kernel (Payloads.scheduler tid policy prio) d events h = h
effect-Shows kernel (Payloads.priority tid prio) d events h = h
effect-Shows kernel (Payloads.log tid message small) d events h = h
effect-Shows kernel (Payloads.time_cost tid value) d events h = h
effect-Shows kernel (Payloads.apply name timeout strength) d events h = record {
  mapped = set-IsMapped d.ptr_shmem (index_of name) h.mapped;
  tests = λ j. ground (
    arith,
    in_range name,
    (event_bits_refine d.ptr_shmem (index_of name) j h.mapped).1,
    h.tests j,
  );
}
effect-Shows kernel (Payloads.cancel name strength) d events h = record {
  mapped = unset-IsMapped d.ptr_shmem (index_of name) h.mapped;
  tests = λ j. ground (
    arith,
    in_range name,
    (event_bits_refine d.ptr_shmem (index_of name) j h.mapped).3,
    h.tests j,
  );
}

-- The payload of a call is one that the daemon reads whole.
abbrev pub IsModest : {Arg : Type 0} → Formatting Arg → Net → Call Arg → Type 0
IsModest formatting net call = (o : Object) → payload formatting net call ≡ some o → IsReadable o

sent-cleanup : (c : Client) → (robflex_cleanup c).sent ≡ c.sent
unfolding robflex_cleanup
sent-cleanup c = ground arith

module _ {Node : Type 0} (cjson : CJson Node) (reads : ReadsObjects cjson) (kernel : Kernel)
    {Arg : Type 0} (formatting : Formatting Arg) (net : Net)
    (opens : (n : ℕ) → (fd : ℕ) × (net.socket n ≡ some fd)) where
  -- The daemon has taken the datagrams of a thread, and shows the events.
  record Follows (c : Client) (events : Events) : Type 0 where
    daemon : Daemon
    served : serve cjson kernel (received_of c.sent) started ≡ some daemon
    shows : Shows daemon.ptr_shmem events

  found : (c : Client) → (fd : ℕ) × ((get_socket net c).0 ≡ some fd)
  unfolding get_socket
  found c = elim (Option-cases c.sock) [
    | inl e ↦ let (fd, f) = opens c.attempts in (fd, rw (e, f) refl)
    | inr (fd, e) ↦ (fd, rw e refl)
  ]

  -- A send with a socket at hand adds the datagram of its payload.
  send_adds :
      (o : Object) (c : Client)
      → (fd : ℕ) × ((send_command_to_daemon net o c).1.sent ≡ c.sent ++ datagram_of fd o ∷ [])
  send_adds o c =
      let (fd, e) = found c in
      (
        fd,
        rw (send_command_to_daemon_lem, e)
            (ap (λ (l : List Datagram). l ++ datagram_of fd o ∷ [])
              (get_socket-Acquired net c).sent),
      )

  received_of-append :
      (xs : List Datagram) (g : Datagram)
      → received_of (xs ++ g ∷ []) ≡ received_of xs ++ some g.bytes ∷ []
  received_of-append [] g = refl
  received_of-append (x ∷ xs) g = ap (λ l. some x.bytes ∷ l) (received_of-append xs g)

  send-Follows :
      {o : Object} (k : IsCommand o) (c : Client) (events : Events)
      → IsReadable o
      → Follows c events
      → Follows (send_command_to_daemon net o c).1 (told k events)
  send-Follows {o} k c events (plain, short) f =
      let (fd, e) = send_adds o c in
      record {
        daemon = effect kernel k f.daemon;
        served =
            rw (e, received_of-append)
              (serve-append cjson kernel (received_of c.sent) (some (dumps o) ∷ []) started f.daemon
                  f.served
                ∙ serve-one cjson kernel (some (dumps o)) f.daemon (effect kernel k f.daemon)
                    (command_served cjson reads kernel k f.daemon plain short));
        shows = effect-Shows kernel k f.daemon events f.shows;
      }

  log-Follows :
      (tid : ℤ) (f : Formatted) (c : Client) (events : Events)
      → ((o : Object) → log_payload_of tid f ≡ some o → IsReadable o)
      → Follows c events
      → Follows (send_if net (log_payload_of tid f) c) events
  log-Follows tid (formatted t) c events h f =
      send-Follows (Payloads.log tid (cut_to_log_size t) (length-cut_to_log_size t)) c events
        (h _ refl) f
  log-Follows tid type_error c events h f = f
  log-Follows tid other_error c events h f = f

  cleanup-Follows :
      (c : Client) (events : Events) → Follows c events → Follows (robflex_cleanup c) events
  cleanup-Follows c events f = record {
    daemon = f.daemon;
    served = rw (sent-cleanup c) f.served;
    shows = f.shows;
  }

  call-Follows :
      (call : Call Arg) (c : Client) (events : Events)
      → IsModest formatting net call
      → Follows c events
      → Follows (by_payload formatting net call c) (replay (call ∷ []) events)
  unfolding replay payload
  call-Follows (set_scheduler tid policy prio) c events h f =
      send-Follows (Payloads.scheduler (own_tid net tid) policy prio) c events (h _ refl) f
  call-Follows (set_priority tid prio) c events h f =
      send-Follows (Payloads.priority (own_tid net tid) prio) c events (h _ refl) f
  call-Follows (log_message tid message args) c events h f =
      log-Follows tid (format_message formatting message args) c events h f
  call-Follows (update_ctrl_time_cost tid value) c events h f =
      send-Follows (Payloads.time_cost (own_tid net tid) value) c events (h _ refl) f
  call-Follows (apply_event name timeout strength) c events h f =
      send-Follows (Payloads.apply name timeout strength) c events (h _ refl) f
  call-Follows (cancel_event name strength) c events h f =
      send-Follows (Payloads.cancel name strength) c events (h _ refl) f
  call-Follows cleanup c events h f = cleanup-Follows c events f

  replay-cons :
      (call : Call Arg) (calls : List (Call Arg)) (events : Events)
      → replay (call ∷ calls) events ≡ replay calls (replay (call ∷ []) events)
  unfolding replay
  replay-cons (set_scheduler tid policy prio) calls events = refl
  replay-cons call calls events = refl

  run-cons :
      (call : Call Arg) (calls : List (Call Arg)) (c : Client)
      → run formatting net (call ∷ calls) c
        ≡ run formatting net calls (perform formatting net call c)
  unfolding run
  run-cons call calls c = refl

  run-Follows :
      (calls : List (Call Arg)) (c : Client) (events : Events)
      → All (IsModest formatting net) calls
      → Follows c events
      → Follows (run formatting net calls c) (replay calls events)
  run-Follows [] c events h f = unfold run replay in f
  run-Follows (call ∷ calls) c events (h, hs) f =
      let first : Follows (perform formatting net call c) (replay (call ∷ []) events) =
        rw perform-by_payload (call-Follows call c events h f) in
      let rest =
        run-Follows calls (perform formatting net call c) (replay (call ∷ []) events) hs first in
      rw (replay-cons, run-cons) rest

  fresh-Follows : Follows fresh (λ j. false)
  unfolding serve
  fresh-Follows = record {
    daemon = started;
    served = refl;
    shows = record { mapped = refl; tests = test-no_event };
  }

  -- From the API to the event bits. Let a thread that has not yet called make any calls of the Python
  -- client, let every call of socket.socket succeed, let each payload be one that the daemon reads whole
  -- (at most 255 bytes, numbers that an int holds, texts without a NUL or a half of a surrogate pair),
  -- let cJSON read and search it as documented, and let the daemon, just started, take the datagrams in
  -- the order in which they were handed over. Then the daemon never fails, and in the end an event bit
  -- is set exactly if the replay of the apply and cancel calls says so.
  pub session_events :
      (calls : List (Call Arg))
      → All (IsModest formatting net) calls
      → (d : Daemon) × (serve cjson kernel
            (received_of (run formatting net calls fresh).sent)
            started
          ≡ some d)
        × ((j : ℤ) → test_event_bit d.ptr_shmem j ≡ replay calls (λ i. false) j)
  session_events calls h =
      let f = run-Follows calls fresh (λ j. false) h fresh-Follows in
      (f.daemon, f.served, f.shows.tests)
