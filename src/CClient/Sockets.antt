-- ===== src/CClient/Sockets.antt =====
-- The socket of a thread that sends commands by src/robflex_api.c.
use pmu_roboflex.Prelude.{
  ℕ, ◌+◌, ◌≤◌, ◌≡◌, refl, true, false, ◌&&◌, Bool-cases, inl, inr, ◌⊎◌, Option, none, some, List,
  [], ◌∷◌, Text, All, All-append, arith, ap, ◌∙◌,
}
use pmu_roboflex.Prelude.Int.{ℤ, pos, is_negative, is_zero}
use pmu_roboflex.CClient.{
  System, Sent, Caller, fresh, failed, with_socket, send, send_command_to_daemon, Command, root_of,
  send_printed, perform, run,
}

-- A negative descriptor cannot be sent to.
abbrev pub RefusesNegative : System → Type 0
RefusesNegative sys =
    (n : ℕ) (fd : ℤ) (s : Text) → is_negative fd ≡ true → is_negative (sys.sendto n fd s) ≡ true

-- A thread before its first command, or with the first descriptor that it was given; all it sent went
-- to that descriptor.
pub record IsBound (sys : System) (c : Caller) : Type 0 where
  pub bound :
      ((c.socket_fd ≡ pos 0) × (c.sockets ≡ 0)) ⊎ ((c.socket_fd ≡ sys.socket 0) × (c.sockets ≡ 1))
  pub targets : All (λ (s : Sent). s.fd ≡ sys.socket 0) c.sends

module _ (sys : System) (first : is_zero (sys.socket 0) ≡ false) where
  opened-IsBound :
      (c : Caller)
      → IsBound sys c
      → IsBound sys (with_socket sys c) × ((with_socket sys c).socket_fd ≡ sys.socket 0)
  unfolding with_socket
  opened-IsBound c h = elim h.bound [
    | inl (unset, none_yet) ↦ rw unset (
      record {
        bound = inr (ap sys.socket none_yet, ap (λ (n : ℕ). n + 1) none_yet);
        targets = h.targets;
      },
      ap sys.socket none_yet,
    )
    | inr (set, once) ↦
        let stays : is_zero c.socket_fd ≡ false = ap is_zero set ∙ first in rw stays (h, set)
  ]

  send-IsBound :
      (s : Text) (c : Caller)
      → IsBound sys c
      → c.socket_fd ≡ sys.socket 0
      → IsBound sys (send sys s c).1
  unfolding send
  send-IsBound s c h e = record {
    bound = h.bound;
    targets = All-append (λ (s : Sent). s.fd ≡ sys.socket 0) c.sends _ h.targets (e, tt);
  }

  command-IsBound :
      (s : Text) (c : Caller) → IsBound sys c → IsBound sys (send_command_to_daemon sys s c).1
  unfolding send_command_to_daemon
  command-IsBound s c h =
      let (opened, target) = opened-IsBound c h in
      elim (Bool-cases (is_zero c.socket_fd && is_negative (sys.socket c.sockets))) [
        | inl e ↦ rw e opened
        | inr e ↦ rw e (send-IsBound s (with_socket sys c) opened target)
      ]

  printed-IsBound :
      (p : Option Text) (c : Caller) → IsBound sys c → IsBound sys (send_printed sys p c).1
  printed-IsBound none c h = h
  printed-IsBound (some s) c h = command-IsBound s c h

  run-IsBound :
      (commands : List Command) (c : Caller) → IsBound sys c → IsBound sys (run sys commands c).1
  unfolding run perform
  run-IsBound [] c h = h
  run-IsBound (command ∷ commands) c h =
      run-IsBound commands (perform sys command c).1
        (printed-IsBound (sys.print (root_of sys command)) c h)

  module _ (negative : is_negative (sys.socket 0) ≡ true) (refuses : RefusesNegative sys) where
    send-fails : (s : Text) (c : Caller) → c.socket_fd ≡ sys.socket 0 → (send sys s c).0 ≡ failed
    unfolding send
    send-fails s c e = rw (refuses c.n_sends c.socket_fd s (ap is_negative e ∙ negative)) refl

    command-fails :
        (s : Text) (c : Caller) → IsBound sys c → (send_command_to_daemon sys s c).0 ≡ failed
    unfolding send_command_to_daemon
    command-fails s c h =
        elim (Bool-cases (is_zero c.socket_fd && is_negative (sys.socket c.sockets))) [
          | inl e ↦ rw e refl
          | inr e ↦ rw e (send-fails s (with_socket sys c) (opened-IsBound c h).1)
        ]

    printed-fails :
        (p : Option Text) (c : Caller) → IsBound sys c → (send_printed sys p c).0 ≡ failed
    printed-fails none c h = refl
    printed-fails (some s) c h = command-fails s c h

    run-fails :
        (commands : List Command) (c : Caller)
        → IsBound sys c
        → All (λ (r : ℤ). r ≡ failed) (run sys commands c).0
    unfolding run perform
    run-fails [] c h = tt
    run-fails (command ∷ commands) c h =
        let p = sys.print (root_of sys command) in
        (printed-fails p c h, run-fails commands (perform sys command c).1 (printed-IsBound p c h))

fresh-IsBound : (sys : System) → IsBound sys fresh
fresh-IsBound sys = record { bound = inl (refl, refl); targets = tt }

sockets-le : (sys : System) (c : Caller) → IsBound sys c → c.sockets ≤ 1
sockets-le sys c h = elim h.bound [
  | inl (unset, none_yet) ↦ omega arith
  | inr (set, once) ↦ omega arith
]

-- If the kernel refuses to send to a negative descriptor, and the first call of socket does not give 0, a
-- thread calls socket at most once, whatever it sends and whatever a second call would give, and sends
-- everything to what the first call gave; if that call failed, every command of the thread fails.
pub run-one_socket :
    (sys : System) (commands : List Command)
    → RefusesNegative sys
    → is_zero (sys.socket 0) ≡ false
    → ((run sys commands fresh).1.sockets ≤ 1)
      × All (λ (s : Sent). s.fd ≡ sys.socket 0) (run sys commands fresh).1.sends
      × ((is_negative (sys.socket 0) ≡ false)
          ⊎ All (λ (r : ℤ). r ≡ failed) (run sys commands fresh).0)
run-one_socket sys commands refuses first =
    let bound = run-IsBound sys first commands fresh (fresh-IsBound sys) in
    (
      sockets-le sys (run sys commands fresh).1 bound,
      bound.targets,
      elim (Bool-cases (is_negative (sys.socket 0))) [
        | inl e ↦ inr (run-fails sys first e refuses commands fresh (fresh-IsBound sys))
        | inr e ↦ inl e
      ],
    )
