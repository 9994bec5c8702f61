-- ===== src/Daemon/Queue.antt =====
-- The daemon's socket as a queue: clients of src/python/robflex_api.py put datagrams into it at any time,
-- and the loop of src/server.c takes them out, in any interleaving.
use pmu_roboflex.Prelude.{
  ℕ, zero, suc, ◌≤◌, ◌≡◌, refl, some, List, [], ◌∷◌, ◌++◌, Text, All, All-append, length, subst,
}
use pmu_roboflex.Json.{Object, dumps}
use pmu_roboflex.Client.Session.Payloads.{IsCommand}
use pmu_roboflex.Daemon.{CJson, Kernel, Daemon, started, max_received, handle_client_request}
use pmu_roboflex.Daemon.Protocol.{IsPlain, ReadsObjects, effect}
use pmu_roboflex.Daemon.Reached.{IsSound, started-IsSound, handle-IsSound}
use pmu_roboflex.Daemon.Served.{command_served}

-- The datagram of a command that the daemon reads whole.
abbrev pub Spells : Text → Object → Type 0
Spells datagram o =
    IsCommand o × IsPlain o × (length (dumps o) ≤ max_received) × (datagram ≡ dumps o)

pub record System : Type 0 where
  pub queue : List Text
  pub daemon : Daemon

abbrev pub boot : System
boot = record { queue = []; daemon = started }

module _ {Node : Type 0} (cjson : CJson Node) (kernel : Kernel) where
  -- The daemon takes the first datagram.
  pub data Take (s : System) : System → Type 0 where
    take :
        (datagram : Text) (rest : List Text) (d : Daemon)
        → s.queue ≡ datagram ∷ rest
        → handle_client_request cjson kernel (some datagram) s.daemon ≡ some d
        → Take s (record { queue = rest; daemon = d })

  pub data Step (s : System) : System → Type 0 where
    arrive :
        (datagram : Text) (o : Object)
        → Spells datagram o
        → Step s (record s { queue = s.queue ++ datagram ∷ [] })
    serve_one : {t : System} → Take s t → Step s t

  pub data Reach (s : System) : System → Type 0 where
    here : Reach s s
    next : {t u : System} → Reach s t → Step t u → Reach s u

  -- A number of takes, and nothing else.
  pub data Takes : ℕ → System → System → Type 0 where
    done : {s : System} → Takes zero s s
    more : {n : ℕ} {s t u : System} → Take s t → Takes n t u → Takes (suc n) s u

  abbrev IsSpelled : Text → Type 0
  IsSpelled datagram = (o : Object) × Spells datagram o

  record IsOpen (s : System) : Type 0 where
    spelled : All IsSpelled s.queue
    sound : IsSound s.daemon

  Take-IsOpen : {s t : System} → Take s t → IsOpen s → IsOpen t
  Take-IsOpen {s} (take datagram rest d e f) h = record {
    spelled = (subst (All IsSpelled) e h.spelled).1;
    sound = handle-IsSound cjson kernel (some datagram) s.daemon d h.sound f;
  }

  Step-IsOpen : {s t : System} → Step s t → IsOpen s → IsOpen t
  Step-IsOpen {s} (arrive datagram o spelled) h = record {
    spelled = All-append IsSpelled s.queue (datagram ∷ []) h.spelled ((o, spelled), tt);
    sound = h.sound;
  }
  Step-IsOpen (serve_one t) h = Take-IsOpen t h

  Reach-IsOpen : {s t : System} → IsOpen s → Reach s t → IsOpen t
  Reach-IsOpen h here = h
  Reach-IsOpen h (next r st) = Step-IsOpen st (Reach-IsOpen h r)

  boot-IsOpen : IsOpen boot
  boot-IsOpen = record { spelled = tt; sound = started-IsSound }

  drains :
      (reads : ReadsObjects cjson) (queue : List Text) (d : Daemon)
      → All IsSpelled queue
      → (d' : Daemon) × Takes
          (length queue)
          (record { queue = queue; daemon = d })
          (record { queue = []; daemon = d' })
  drains reads [] d h = (d, done)
  drains reads (datagram ∷ queue) d ((o, (k, plain, short, e)), h) =
      let d1 = effect kernel k d in
      let (d', r) = drains reads queue d1 h in
      (
        d',
        more
            (take datagram queue d1 refl (rw e (command_served cjson reads kernel k d plain short)))
            r,
      )

  -- If cJSON reads and searches JSON texts as documented: from every state that the system reaches when
  -- clients hand over datagrams of commands that the daemon reads whole, at any time and from any number
  -- of clients, the daemon can take all the queued datagrams, in exactly as many rounds of its loop as
  -- there are datagrams, none of them ending the process, and the queue is empty then.
  pub reached_drains :
      (reads : ReadsObjects cjson) (s : System)
      → Reach boot s
      → (t : System) × Takes (length s.queue) s t × (t.queue ≡ [])
  reached_drains reads s r =
      let (d, takes) = drains reads s.queue s.daemon (Reach-IsOpen boot-IsOpen r).spelled in
      (record { queue = []; daemon = d }, takes, refl)
