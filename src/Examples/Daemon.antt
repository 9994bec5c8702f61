-- ===== src/Examples/Daemon.antt =====
-- The daemon (src/server.c) at concrete datagrams, with the reader of `Json.Read` for cJSON.
use pmu_roboflex.Prelude.{
  ℕ, ◌+◌, ◌≡◌, ◌↔◌, refl, true, false, inl, Option, All, none, some, List, [], ◌∷◌, Text, codes,
  length, arith, subst, some_inj, ◌∙◌,
}
use pmu_roboflex.Prelude.Int.{ℤ, ◌≤ℤ◌, pos}
use pmu_roboflex.Json.{Value, str, num, Object, dumps}
use pmu_roboflex.Json.Read.{read}
use pmu_roboflex.Json.RoundTrip.{read-dumps, IsScalarObject, IsScalarValue}
use pmu_roboflex.Client.{Net, fresh}
use pmu_roboflex.Client.Api.{apply_payload, cancel_payload}
use pmu_roboflex.Client.Session.{Call, apply_event, cancel_event, cleanup, payload, run}
use pmu_roboflex.Client.Session.Payloads
use pmu_roboflex.Events.{
  EventBits, is_no_index, no_event, set_event_bit, unset_event_bit, test_event_bit,
}
use pmu_roboflex.Events.Bits.{IsMapped, event_bits_refine}
use pmu_roboflex.Daemon.{CJson, Kernel, Daemon, started, until_nul, handle_client_request, serve}
use pmu_roboflex.Daemon.Loop.{serve-cons}
use pmu_roboflex.Prelude.Utf8.{encode_utf8}
use pmu_roboflex.Daemon.Protocol.{
  member, found_item, IsPlainValue, IsPlain, IsReadable, ReadsObjects, effect,
}
use pmu_roboflex.Daemon.Served.{command_served}
use pmu_roboflex.Daemon.Errors.{buffer_of, rejected, bad_cmd, apply, errors_change_nothing}
use pmu_roboflex.Daemon.Fatal.{IsFatal, fatal_iff}
use pmu_roboflex.Daemon.Reached.{serve-event_range}
use pmu_roboflex.Daemon.Queue.{System, boot, arrive, Reach, here, next, Takes, reached_drains}
use pmu_roboflex.Daemon.Sessions.{received_of, replay, IsModest, session_events}
use pmu_roboflex.Hook.{choose}
use pmu_roboflex.Hook.Session.{Answers, IsReadableEntry, test_event_bit-Answers, choose-session}
use pmu_roboflex.Examples.Messages.{texts}
use pmu_roboflex.Examples.Hook.{thread}

abbrev reader : CJson Object
reader = record { parse = read; get_object_item = λ o key. found_item (member key o) }

plain_value-scalar : (v : Value) → IsPlainValue v → IsScalarValue v
plain_value-scalar (str s) h = h.0
plain_value-scalar (num i) h = tt

plain-scalar : (o : Object) → IsPlain o → IsScalarObject o
plain-scalar [] h = tt
plain-scalar ((key, v) ∷ o) ((hk, hv), h) = ((hk.0, plain_value-scalar v hv), plain-scalar o h)

reads : ReadsObjects reader
reads = record {
  node = λ o. o;
  parses = λ o p. read-dumps o (plain-scalar o p);
  finds = λ o key p. refl;
}

-- The kernel grants everything.
abbrev kernel : Kernel
kernel n c = pos 0

abbrev net : Net
net = record {
  socket = λ n. some (5 + n);
  sendto = λ n fd bytes address. some (pos (length bytes));
  gettid = pos 42;
}

opens : (n : ℕ) → (fd : ℕ) × (net.socket n ≡ some fd)
opens n = (5 + n, refl)

abbrev on : Object
on = apply_payload (codes "high_speed") (pos 1000) (pos 1)

abbrev off : Object
off = cancel_payload (codes "high_speed") (pos 1)

on-IsReadable : IsReadable on
unfolding dumps
on-IsReadable = omega arith

off-IsReadable : IsReadable off
unfolding dumps
off-IsReadable = omega arith

abbrev calls : List (Call Text)
calls =
    apply_event (codes "high_speed") (pos 1000) (pos 1)
    ∷ cancel_event (codes "high_speed") (pos 1)
    ∷ cleanup
    ∷ apply_event (codes "high_speed") (pos 1000) (pos 1)
    ∷ []

apply-IsModest : IsModest texts net (apply_event (codes "high_speed") (pos 1000) (pos 1))
unfolding payload
apply-IsModest o e = subst IsReadable (some_inj e) on-IsReadable

cancel-IsModest : IsModest texts net (cancel_event (codes "high_speed") (pos 1))
unfolding payload
cancel-IsModest o e = subst IsReadable (some_inj e) off-IsReadable

cleanup-IsModest : IsModest texts net cleanup
unfolding payload
cleanup-IsModest o e = cc

abbrev after_on : Daemon
after_on = effect kernel (Payloads.apply (codes "high_speed") (pos 1000) (pos 1)) started

session_events_example :
    (d : Daemon) × (serve reader kernel (received_of (run texts net calls fresh).sent) started
      ≡ some d)
    × ((j : ℤ) → test_event_bit d.ptr_shmem j ≡ replay calls (λ i. false) j)
session_events_example =
    session_events reader reads kernel texts net opens calls
      (apply-IsModest, (cancel-IsModest, (cleanup-IsModest, (apply-IsModest, tt))))

command_served_example :
    handle_client_request reader kernel (some (dumps on)) started ≡ some after_on
command_served_example =
    command_served reader reads kernel (Payloads.apply (codes "high_speed") (pos 1000) (pos 1))
      started on-IsReadable.0 on-IsReadable.1

-- One datagram has arrived.
abbrev waiting : System
waiting = record { queue = dumps on ∷ []; daemon = started }

waiting-Reach : Reach reader kernel boot waiting
waiting-Reach = next here (
    arrive (dumps on) on (
      Payloads.apply (codes "high_speed") (pos 1000) (pos 1),
      on-IsReadable.0,
      on-IsReadable.1,
      refl,
    ))

reached_drains_example : (t : System) × Takes reader kernel 1 waiting t × (t.queue ≡ [])
reached_drains_example = reached_drains reader kernel reads waiting waiting-Reach

-- An apply_event without a timeout.
abbrev no_time : Object
no_time =
    (codes "cmd", str (codes "apply_event"))
    ∷ (codes "event_name", str (codes "high_speed"))
    ∷ (codes "strength", num (pos 1))
    ∷ []

abbrev no_name : Object
no_name = (codes "cmd", str (codes "apply_event")) ∷ (codes "strength", num (pos 1)) ∷ []

fatal_iff_example :
    (handle_client_request reader kernel (some (dumps no_time)) started ≡ none)
    ↔ ((root : Object) × (read (buffer_of (dumps no_time)) ≡ some root) × IsFatal reader root)
fatal_iff_example = fatal_iff reader kernel started (dumps no_time)

no_name-read : read (buffer_of (dumps no_name)) ≡ some no_name
unfolding read dumps until_nul
no_name-read = refl

errors_change_nothing_example :
    handle_client_request reader kernel (some (dumps no_name)) started ≡ some started
unfolding encode_utf8
errors_change_nothing_example = errors_change_nothing reader kernel started (some (dumps no_name)) (
    rejected (dumps no_name) no_name no_name-read
      (bad_cmd _ (codes "apply_event") refl refl (apply refl (inl refl))))

one_served : serve reader kernel (some (dumps on) ∷ none ∷ []) started ≡ some after_on
unfolding serve handle_client_request
one_served =
    serve-cons reader kernel (some (dumps on)) (none ∷ []) started after_on command_served_example
    ∙ refl

serve-event_range_example :
    IsMapped after_on.ptr_shmem
    × ((j : ℤ) → test_event_bit after_on.ptr_shmem j ≡ true → (pos 0 ≤ℤ j) × (j ≤ℤ pos 8))
serve-event_range_example =
    serve-event_range reader kernel (some (dumps on) ∷ none ∷ []) after_on one_served

event_bits_refine_example :
    ((set_event_bit (some no_event) (pos 70)).0 ≡ pos 0)
    × (test_event_bit (set_event_bit (some no_event) (pos 70)).1 (pos 6)
        ≡ test_event_bit (some no_event) (pos 6))
    × ((unset_event_bit (some no_event) (pos 70)).0 ≡ pos 0)
    × (test_event_bit (unset_event_bit (some no_event) (pos 70)).1 (pos 6)
        ≡ test_event_bit (some no_event) (pos 6))
unfolding set_event_bit unset_event_bit test_event_bit
event_bits_refine_example = event_bits_refine (some no_event) (pos 70) (pos 6) refl

-- The daemon behind the calls, and what a tick reads of it.
abbrev behind :
    (d : Daemon) × (serve reader kernel (received_of (run texts net calls fresh).sent) started
      ≡ some d)
    × ((j : ℤ) → test_event_bit d.ptr_shmem j ≡ replay calls (λ i. false) j)
behind =
    session_events reader reads kernel texts net opens calls
      (apply-IsModest, (cancel-IsModest, (cleanup-IsModest, (apply-IsModest, tt))))

read_of-Answers : (m : Option EventBits) → IsMapped m → Answers m (test_event_bit m)
read_of-Answers none h = absurd h
read_of-Answers (some words) h = test_event_bit-Answers words

thread-IsReadable : All IsReadableEntry thread.event_map.entries
unfolding is_no_index
thread-IsReadable = ((λ used. refl), ((λ used. refl), ((λ used. refl), tt)))

choose-session_example :
    choose (test_event_bit behind.0.ptr_shmem) thread ≡ choose (replay calls (λ i. false)) thread
choose-session_example =
    choose-session reader reads kernel texts net opens calls behind.0
      (test_event_bit behind.0.ptr_shmem) thread
      (apply-IsModest, (cancel-IsModest, (cleanup-IsModest, (apply-IsModest, tt)))) behind.1
      (read_of-Answers behind.0.ptr_shmem
        (serve-event_range reader kernel (received_of (run texts net calls fresh).sent) behind.0
          behind.1).0)
      thread-IsReadable
