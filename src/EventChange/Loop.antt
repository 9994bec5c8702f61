-- ===== src/EventChange/Loop.antt =====
-- The main loop of benchmark/robflex_event_change/robflex_event_change.py.
use pmu_roboflex.Prelude.{
  ℕ, ◌+◌, ◌≤◌, ◌≡◌, refl, Bool, true, false, Bool-cases, inl, inr, List, [], ◌∷◌, Text, codes,
  text_beq, starts_with, if◌then◌else◌, length, length-append, All, All-append, arith, Option, none,
  some, append-nil,
}
use pmu_roboflex.Prelude.Int.{ℤ}
use pmu_roboflex.Prelude.Words.{split, strip, lower}
use pmu_roboflex.Json.{Object, dumps}
use pmu_roboflex.Client.{
  Net, Client, Datagram, fresh, socket_path, get_socket, send_command_to_daemon, robflex_cleanup,
}
use pmu_roboflex.Client.Delivery.{
  outcome, datagram_of, send_command_to_daemon_lem, get_socket-Acquired,
}
use pmu_roboflex.Client.Api.{
  apply_payload, cancel_payload, robflex_apply_event, robflex_cancel_event,
}
use pmu_roboflex.Client.Session.Sockets.{IsAccounted, get_socket-IsAccounted}
use pmu_roboflex.EventChange.{
  Shell, apply_on, cancel_on, handle_apply, handle_cancel, is_quit, is_help, dispatch, handle_parts,
  handle_line, Input, line, interrupt, handle_raw, loop, main, banner,
}

-- The two payloads that the script sends.
pub data IsEvent : Object → Type 0 where
  apply : (name : Text) (timeout strength : ℤ) → IsEvent (apply_payload name timeout strength)
  cancel : (name : Text) (strength : ℤ) → IsEvent (cancel_payload name strength)

-- How one line may move the client: not at all, or by one send of an event.
data Moved (net : Net) (c : Client) : Client → Type 0 where
  idle : Moved net c c
  sends : (o : Object) → IsEvent o → Moved net c (send_command_to_daemon net o c).1

module _ (net : Net) where
  loop_goes_on :
      (raw : Text) (inputs : List Input) (s : Shell)
      → (handle_raw net raw s).0 ≡ true
      → loop net (line raw ∷ inputs) s ≡ loop net inputs (handle_raw net raw s).1
  unfolding loop
  loop_goes_on raw inputs s h = rw (h, loop)

  loop_stops :
      (raw : Text) (inputs : List Input) (s : Shell)
      → (handle_raw net raw s).0 ≡ false
      → loop net (line raw ∷ inputs) s ≡ (handle_raw net raw s).1
  unfolding loop
  loop_stops raw inputs s h = rw (h, loop)

  apply_on-Moved :
      (name : Text) (timeout strength : ℤ) (s : Shell)
      → Moved net s.client (apply_on net name timeout strength s).client
  unfolding apply_on robflex_apply_event
  apply_on-Moved name timeout strength s = sends _ (apply name timeout strength)

  cancel_on-Moved :
      (name : Text) (strength : ℤ) (s : Shell)
      → Moved net s.client (cancel_on net name strength s).client
  unfolding cancel_on robflex_cancel_event
  cancel_on-Moved name strength s = sends _ (cancel name strength)

  handle_apply-Moved :
      (words : List Text) (s : Shell) → Moved net s.client (handle_apply net words s).client
  unfolding handle_apply
  handle_apply-Moved [] s = idle
  handle_apply-Moved (name ∷ []) s = apply_on-Moved name _ _ s
  handle_apply-Moved (name ∷ timeout ∷ []) s = apply_on-Moved name _ _ s
  handle_apply-Moved (name ∷ timeout ∷ strength ∷ _) s = apply_on-Moved name _ _ s

  handle_cancel-Moved :
      (words : List Text) (s : Shell) → Moved net s.client (handle_cancel net words s).client
  unfolding handle_cancel
  handle_cancel-Moved [] s = idle
  handle_cancel-Moved (name ∷ []) s = cancel_on-Moved name _ s
  handle_cancel-Moved (name ∷ strength ∷ _) s = cancel_on-Moved name _ s

  if-Moved :
      (c : Client) (b : Bool) (x y : Bool × Shell)
      → Moved net c x.1.client
      → Moved net c y.1.client
      → Moved net c (if b then x else y).1.client
  if-Moved c true x y hx hy = hx
  if-Moved c false x y hx hy = hy

  dispatch-Moved :
      (cmd : Text) (rest : List Text) (s : Shell)
      → Moved net s.client (dispatch net cmd rest s).1.client
  unfolding dispatch
  dispatch-Moved cmd rest s = if-Moved s.client (is_quit cmd) _ _ idle (
      if-Moved s.client (is_help cmd) _ _ idle (
        if-Moved s.client (text_beq cmd (codes "apply")) _ _ (handle_apply-Moved rest s) (
          if-Moved s.client (text_beq cmd (codes "cancel")) _ _ (handle_cancel-Moved rest s) idle)))

  handle_parts-Moved :
      (parts : List Text) (s : Shell) → Moved net s.client (handle_parts net parts s).1.client
  handle_parts-Moved [] s = unfold handle_parts in idle
  handle_parts-Moved (cmd ∷ rest) s = unfold handle_parts in dispatch-Moved (lower cmd) rest s

  handle_raw-Moved : (raw : Text) (s : Shell) → Moved net s.client (handle_raw net raw s).1.client
  unfolding handle_raw handle_line
  handle_raw-Moved raw s =
      if-Moved s.client (starts_with (codes "#") (strip raw)) _ _ idle
        (handle_parts-Moved (split (strip raw)) s)

  -- An invariant of the sends of events is one of the loop; so is a measure that grows by at most one
  -- with each of them.
  module _ {P : ℕ → Client → Type 0} (idles : (n : ℕ) (c : Client) → P n c → P (n + 1) c)
      (step : (n : ℕ) (o : Object) (c : Client)
        → IsEvent o
        → P n c
        → P (n + 1) (send_command_to_daemon net o c).1) where
    Moved-keeps : (n : ℕ) {c c' : Client} → Moved net c c' → P n c → P (n + 1) c'
    Moved-keeps n idle h = idles n _ h
    Moved-keeps n (sends o e) h = step n o _ e h

    loop_induction :
        (inputs : List Input) (n : ℕ) (s : Shell)
        → P n s.client
        → (m : ℕ) × (m ≤ n + length inputs) × P m (loop net inputs s).client
    loop_induction [] n s h = unfold loop in (n, omega arith, h)
    loop_induction (interrupt ∷ _) n s h = unfold loop in (n, omega arith, h)
    loop_induction (line raw ∷ inputs) n s h =
        let moved : P (n + 1) (handle_raw net raw s).1.client =
          Moved-keeps n (handle_raw-Moved raw s) h in
        elim (Bool-cases (handle_raw net raw s).0) [
          | inl goes_on ↦
              let (m, bound, held) = loop_induction inputs (n + 1) (handle_raw net raw s).1 moved in
              rw (loop_goes_on raw inputs s goes_on) (m, omega arith, held)
          | inr stops ↦ rw (loop_stops raw inputs s stops) (n + 1, omega arith, moved)
        ]

abbrev start : Shell
start = record { client = fresh; printed = banner ∷ [] }

-- A datagram that spells the setting or the clearing of an event, for the daemon's path.
abbrev pub IsEventDatagram : Datagram → Type 0
IsEventDatagram d = (o : Object) × IsEvent o × (d.bytes ≡ dumps o) × (d.address ≡ socket_path)

-- What holds of the client after `n` lines.
record IsTame (n : ℕ) (c : Client) : Type 0 where
  few : length c.sent ≤ n
  events : All IsEventDatagram c.sent
  accounted : IsAccounted c

outcome-IsTame :
    (net : Net) (n : ℕ) (o : Object) (found : Option ℕ) (c : Client)
    → IsEvent o
    → IsTame n c
    → IsTame (n + 1) (outcome net o found c).1
outcome-IsTame net n o none c e h = record {
  few = omega arith;
  events = h.events;
  accounted = h.accounted;
}
outcome-IsTame net n o (some fd) c e h = record {
  few = omega (arith, length-append c.sent (datagram_of fd o ∷ []));
  events = All-append IsEventDatagram c.sent _ h.events ((o, e, refl, refl), tt);
  accounted = h.accounted;
}

get_socket-IsTame : (net : Net) (n : ℕ) (c : Client) → IsTame n c → IsTame n (get_socket net c).1
get_socket-IsTame net n c h = record {
  few = rw (get_socket-Acquired net c).sent h.few;
  events = rw (get_socket-Acquired net c).sent h.events;
  accounted = get_socket-IsAccounted net c h.accounted;
}

send-IsTame :
    (net : Net) (n : ℕ) (o : Object) (c : Client)
    → IsEvent o
    → IsTame n c
    → IsTame (n + 1) (send_command_to_daemon net o c).1
send-IsTame net n o c e h = rw send_command_to_daemon_lem (
    outcome-IsTame net n o (get_socket net c).0 (get_socket net c).1 e
      (get_socket-IsTame net n c h))

wait-IsTame : (n : ℕ) (c : Client) → IsTame n c → IsTame (n + 1) c
wait-IsTame n c h = record { few = omega arith; events = h.events; accounted = h.accounted }

-- What the script leaves behind when it ends.
pub record IsFinished (lines : ℕ) (c : Client) : Type 0 where
  pub no_socket : c.sock ≡ none
  pub all_closed : c.opened ≡ c.closed
  pub few : length c.sent ≤ lines
  pub events : All IsEventDatagram c.sent

cleanup-IsFinished :
    (n lines : ℕ) (c : Client) → n ≤ lines → IsTame n c → IsFinished lines (robflex_cleanup c)
cleanup-IsFinished n lines c fits h = record {
  no_socket = unfold robflex_cleanup in ground arith;
  all_closed = unfold robflex_cleanup in ground (arith, h.accounted, append-nil {0} c.closed);
  few = unfold robflex_cleanup in ground (arith, h.few);
  events = unfold robflex_cleanup in ground (arith, h.events);
}

-- Whatever is typed, and however the input ends (its end, `quit`, or an interrupt), the script returns
-- 0, holds no socket, has closed every socket that it opened, and has sent at most one datagram for
-- each line, each of them an apply_event or a cancel_event.
pub main-IsFinished :
    (net : Net) (inputs : List Input)
    → ((main net inputs).0 ≡ 0) × IsFinished (length inputs) (main net inputs).1.client
unfolding main
main-IsFinished net inputs =
    let (m, fits, tame) =
      loop_induction net {P = IsTame} wait-IsTame (send-IsTame net) inputs 0 start
        (record { few = omega arith; events = tt; accounted = refl }) in
    (refl, cleanup-IsFinished m (length inputs) (loop net inputs start).client (omega arith) tame)
