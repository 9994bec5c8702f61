-- ===== src/Client/Delivery.antt =====
-- What `_send_command_to_daemon` hands to the kernel, on each of its paths.
use pmu_roboflex.Prelude.{
  ℕ, ◌<◌, ◌≡◌, refl, ◌⊎◌, inl, inr, Option, Option-cases, Bool-cases, List, ap, sym, subst, none,
  some, [], ◌∷◌, ◌++◌, Text, codes, All, length, ltb, if◌then◌else◌, append-nil, arith, ◌∙◌,
}
use pmu_roboflex.Prelude.Int.{ℤ, pos, negsuc}
use pmu_roboflex.Prelude.Utf8.{encode_utf8, encode_utf8-ascii}
use pmu_roboflex.Json.{Object, dumps}
use pmu_roboflex.Json.Ascii.{IsPrintable, dumps-IsPrintable}
use pmu_roboflex.Client.{
  Net, Datagram, Client, socket_path, success, failure, remember_socket, get_socket, warn_if_large,
  reply_of_sendto, send_bytes, send_text, send_on, send_command_to_daemon,
}

printable_ascii : (s : Text) → All IsPrintable s → All (λ c. c < 0x80) s
printable_ascii [] h = tt
printable_ascii (c ∷ s) (hc, hs) = (omega arith, printable_ascii s hs)

-- The payload is its own encoding, so that encoding it never fails.
pub encode_utf8-dumps : (o : Object) → encode_utf8 (dumps o) ≡ some (dumps o)
encode_utf8-dumps o = encode_utf8-ascii (dumps o) (printable_ascii (dumps o) (dumps-IsPrintable o))

-- The datagram of a payload on a socket.
abbrev pub datagram_of : ℕ → Object → Datagram
datagram_of fd o = record { fd = fd; bytes = dumps o; address = socket_path }

send_text-dumps :
    (net : Net) (fd : ℕ) (o : Object) (c : Client)
    → send_text net fd (dumps o) c ≡ send_bytes net fd (dumps o) (warn_if_large (dumps o) c)
unfolding send_text
send_text-dumps net fd o c = ground (arith, encode_utf8-dumps o)

-- The state after a send on the socket `fd`.
abbrev pub after_send : ℕ → Object → Client → Client
after_send fd o c = record c {
  sent = c.sent ++ datagram_of fd o ∷ [];
  warned = (warn_if_large (dumps o) c).warned;
}

send_bytes-warn :
    (net : Net) (fd : ℕ) (o : Object) (c : Client)
    → send_bytes net fd (dumps o) (warn_if_large (dumps o) c)
      ≡ (reply_of_sendto (net.sendto (length c.sent) fd (dumps o) socket_path), after_send fd o c)
unfolding send_bytes warn_if_large
send_bytes-warn net fd o c = ground arith

-- What a send gives for the socket that it found.
abbrev pub outcome : Net → Object → Option ℕ → Client → ℤ × Client
outcome net o none c = (failure, c)
outcome net o (some fd) c =
    (reply_of_sendto (net.sendto (length c.sent) fd (dumps o) socket_path), after_send fd o c)

send_on-outcome :
    (net : Net) (o : Object) (found : Option ℕ) (c : Client)
    → send_on net o found c ≡ outcome net o found c
send_on-outcome net o none c = unfold send_on in refl
send_on-outcome net o (some fd) c =
    let text : send_on net o (some fd) c ≡ send_bytes net fd (dumps o) (warn_if_large (dumps o) c) =
      unfold send_on in send_text-dumps net fd o c in
    text ∙ send_bytes-warn net fd o c

-- A send by the socket that it finds.
pub send_command_to_daemon_lem :
    (net : Net) (o : Object) (c : Client)
    → send_command_to_daemon net o c ≡ outcome net o (get_socket net c).0 (get_socket net c).1
send_command_to_daemon_lem net o c =
    unfold send_command_to_daemon in send_on-outcome net o (get_socket net c).0 (get_socket net c).1

-- The socket that a call finds is the one that it leaves; the lists of datagrams are untouched.
pub record Acquired (before : Client) (found : Option ℕ) (after : Client) : Type 0 where
  pub kept : after.sock ≡ found
  pub sent : after.sent ≡ before.sent
  pub closed : after.closed ≡ before.closed
  pub warned : after.warned ≡ before.warned

pub get_socket-Acquired :
    (net : Net) (c : Client) → Acquired c (get_socket net c).0 (get_socket net c).1
unfolding get_socket
get_socket-Acquired net c = ground arith

outcome-replies :
    (net : Net) (o : Object) (found : Option ℕ) (c : Client)
    → ((outcome net o found c).0 ≡ success) ⊎ ((outcome net o found c).0 ≡ failure)
unfolding reply_of_sendto
outcome-replies net o none c = inr refl
outcome-replies net o (some fd) c = ground arith

pub send_replies :
    (net : Net) (o : Object) (c : Client)
    → ((send_command_to_daemon net o c).0 ≡ success)
      ⊎ ((send_command_to_daemon net o c).0 ≡ failure)
send_replies net o c =
    rw send_command_to_daemon_lem (outcome-replies net o (get_socket net c).0 (get_socket net c).1)

outcome-delivers :
    (net : Net) (o : Object) (found : Option ℕ) (before c : Client)
    → Acquired before found c
    → (outcome net o found c).0 ≡ success
    → (fd : ℕ) × ((outcome net o found c).1.sock ≡ some fd)
      × ((outcome net o found c).1.sent ≡ before.sent ++ datagram_of fd o ∷ [])
outcome-delivers net o none before c a h = cc
outcome-delivers net o (some fd) before c a h = (fd, a.kept, rw (← a.sent) refl)

-- A send that returns 0 has handed exactly one datagram to the kernel, its payload, on the socket
-- that the thread keeps.
pub send_delivers :
    (net : Net) (o : Object) (c : Client)
    → (send_command_to_daemon net o c).0 ≡ success
    → (fd : ℕ) × ((send_command_to_daemon net o c).1.sock ≡ some fd)
      × ((send_command_to_daemon net o c).1.sent ≡ c.sent ++ datagram_of fd o ∷ [])
send_delivers net o c =
    rw send_command_to_daemon_lem (
      outcome-delivers net o (get_socket net c).0 c (get_socket net c).1
        (get_socket-Acquired net c))

-- The socket that a send has: the thread's own, or else a new one.
pub data HasSocket (net : Net) (c : Client) (fd : ℕ) : Type 0 where
  kept : c.sock ≡ some fd → HasSocket net c fd
  made : c.sock ≡ none → net.socket c.attempts ≡ some fd → HasSocket net c fd

-- What a send returns for the answer of sendto: 0 for a number of bytes, -1 for a negative one or an
-- exception.
pub data Replies : Option ℤ → ℤ → Type 0 where
  taken : (n : ℕ) → Replies (some (pos n)) (pos 0)
  refused : (n : ℕ) → Replies (some (negsuc n)) (negsuc 0)
  raised : Replies none (negsuc 0)

-- The size that is printed for a text.
abbrev pub size_above : Text → List ℕ
size_above s = if ltb 4096 (length s) then length s ∷ [] else []

-- A send on the socket `fd`.
pub record IsHanded (net : Net) (o : Object) (c : Client) (fd : ℕ) (r : ℤ × Client) : Type 0 where
  pub socket : HasSocket net c fd
  pub reply :
      Replies (net.sendto (length c.sent) fd (dumps o) (codes "/tmp/schedule_daemon.sock")) r.0
  pub sock : r.1.sock ≡ some fd
  pub sent :
      r.1.sent
      ≡ c.sent
        ++ record { fd = fd; bytes = dumps o; address = codes "/tmp/schedule_daemon.sock" } ∷ []
  pub warned : r.1.warned ≡ c.warned ++ size_above (dumps o)

-- A send without a socket.
pub record IsUnsent (net : Net) (c : Client) (r : ℤ × Client) : Type 0 where
  pub no_socket : c.sock ≡ none
  pub not_made : net.socket c.attempts ≡ none
  pub reply : r.0 ≡ negsuc 0
  pub sock : r.1.sock ≡ none
  pub sent : r.1.sent ≡ c.sent
  pub warned : r.1.warned ≡ c.warned

Found : Net → Client → Option ℕ → Type 0
Found net c none = (c.sock ≡ none) × (net.socket c.attempts ≡ none)
Found net c (some fd) = HasSocket net c fd

remember_socket-same : (found : Option ℕ) (c : Client) → (remember_socket found c).0 ≡ found
unfolding remember_socket
remember_socket-same none c = refl
remember_socket-same (some fd) c = refl

-- The socket that is found, for what the thread has and what can be made.
found_at :
    (net : Net) (c : Client) (sock : Option ℕ)
    → c.sock ≡ sock
    → (get_socket net c).0 ≡ (elim sock [ some fd ↦ some fd | none ↦ net.socket c.attempts ])
unfolding get_socket
found_at net c none h =
    rw h (remember_socket-same (net.socket c.attempts) (record c { sock = none }))
found_at net c (some fd) h = rw h refl

get_socket-Found : (net : Net) (c : Client) → Found net c (get_socket net c).0
unfolding Found
get_socket-Found net c = elim (Option-cases c.sock) [
  | inl unset ↦
      subst (Found net c) (sym (found_at net c none unset))
        (elim (Option-cases (net.socket c.attempts)) [
          | inl fails ↦ subst (Found net c) (sym fails) (unset, fails)
          | inr (fd, new) ↦ subst (Found net c) (sym new) (made unset new)
        ])
  | inr (fd, set) ↦ subst (Found net c) (sym (found_at net c (some fd) set)) (kept set)
]

reply_of_sendto-Replies : (answer : Option ℤ) → Replies answer (reply_of_sendto answer)
unfolding reply_of_sendto
reply_of_sendto-Replies none = raised
reply_of_sendto-Replies (some (pos n)) = taken n
reply_of_sendto-Replies (some (negsuc n)) = refused n

warned-warn : (s : Text) (c : Client) → (warn_if_large s c).warned ≡ c.warned ++ size_above s
unfolding warn_if_large
warned-warn s c = elim (Bool-cases (ltb 4096 (length s))) [
  | inl large ↦ rw large refl
  | inr small ↦ rw (small, append-nil) refl
]

outcome-cases :
    (net : Net) (o : Object) (c : Client) (found : Option ℕ) (c' : Client)
    → Found net c found
    → Acquired c found c'
    → ((fd : ℕ) × IsHanded net o c fd (outcome net o found c'))
      ⊎ IsUnsent net c (outcome net o found c')
unfolding Found
outcome-cases net o c none c' f a = inr (record {
  no_socket = f.0;
  not_made = f.1;
  reply = refl;
  sock = a.kept;
  sent = a.sent;
  warned = a.warned;
})
outcome-cases net o c (some fd) c' f a = inl (
  fd,
  record {
    socket = f;
    reply =
        rw (← a.sent)
          (reply_of_sendto-Replies (net.sendto (length c'.sent) fd (dumps o) socket_path));
    sock = a.kept;
    sent = rw a.sent refl;
    warned =
        warned-warn (dumps o) c' ∙ ap (λ (sizes : List ℕ). sizes ++ size_above (dumps o)) a.warned;
  },
)

-- Every send either has a socket, the thread's own or else one that it makes, or has none and can make
-- none. In the first case it hands exactly one datagram to the kernel, the payload as `dumps` writes it to
-- the daemon's path, on that socket, which the thread keeps; it returns 0 if sendto gives a number of
-- bytes, and -1 if that is negative or sendto raises an exception; and it prints the size if that is above
-- 4096. In the second case it sends and prints nothing and returns -1.
pub send_command_to_daemon-cases :
    (net : Net) (o : Object) (c : Client)
    → ((fd : ℕ) × IsHanded net o c fd (send_command_to_daemon net o c))
      ⊎ IsUnsent net c (send_command_to_daemon net o c)
send_command_to_daemon-cases net o c = rw send_command_to_daemon_lem (
    outcome-cases net o c (get_socket net c).0 (get_socket net c).1 (get_socket-Found net c)
      (get_socket-Acquired net c))
