-- ===== src/Hook/Session.antt =====
-- From the calls of src/python/robflex_api.py to the context that a tick of src/dym_hook.c uses, through the
-- bits that src/server.c writes and src/robflex_api.c reads.
use pmu_roboflex.Prelude.{
  ℕ, ◌+◌, ◌≡◌, refl, Bool, true, false, Bool-cases, inl, inr, ◌&&◌, Option, none, some, some_inj,
  List, [], ◌∷◌, All, ◌==◌, if◌then◌else◌, arith, ap, ◌∙◌, sym, subst,
}
use pmu_roboflex.Prelude.Int.{ℤ, pos, negsuc, ltb_int}
use pmu_roboflex.Events.{EventBits, is_no_index, test_event_bit, robflex_test_event}
use pmu_roboflex.Contexts.{Entry}
use pmu_roboflex.Contexts.Types.{LocalContext}
use pmu_roboflex.Hook.{Thread, Chosen, own, entry, is_active, highest, choose}
use pmu_roboflex.Client.{Net, fresh}
use pmu_roboflex.Client.Api.{Formatting}
use pmu_roboflex.Client.Session.{Call, run}
use pmu_roboflex.Daemon.Protocol.{ReadsObjects}
use pmu_roboflex.Daemon.Sessions.{IsModest, received_of, replay, session_events}
use pmu_roboflex.Daemon.{CJson, Kernel, Daemon, started, serve}

-- What a tick is told is what the library's test reads from the mapped memory, where that has a bit.
abbrev pub Answers : Option EventBits → (ℤ → Bool) → Type 0
Answers none is_set = ⊥
Answers (some words) is_set =
    (i : ℤ) (b : Bool) → robflex_test_event words i ≡ some b → is_set i ≡ b

-- An entry in use has an index that can be read.
abbrev pub IsReadableEntry : Entry LocalContext → Type 0
IsReadableEntry e = e.in_use ≡ true → is_no_index e.event_idx ≡ false

robflex_test_event-test_event_bit :
    (words : EventBits) (i : ℤ)
    → is_no_index i ≡ false
    → robflex_test_event words i ≡ some (test_event_bit (some words) i)
unfolding robflex_test_event test_event_bit is_no_index
robflex_test_event-test_event_bit words (pos n) h =
    let z : (n + 1 == 0) ≡ false = ground arith in rw (z, h) refl
robflex_test_event-test_event_bit words (negsuc n) h = ground arith

-- The daemon's own test is such an answer.
pub test_event_bit-Answers :
    (words : EventBits) → Answers (some words) (test_event_bit (some words))
unfolding robflex_test_event test_event_bit is_no_index
test_event_bit-Answers words (pos n) b e = elim (Bool-cases (is_no_index (pos n))) [
  | inl out ↦ absurd (
      let z : (n + 1 == 0) ≡ false = ground arith in
      let gone : robflex_test_event words (pos n) ≡ none = rw (z, out) refl in cc)
  | inr within ↦ some_inj (sym (robflex_test_event-test_event_bit words (pos n) within) ∙ e)
]
test_event_bit-Answers words (negsuc n) b e = elim (Bool-cases (n == 0)) [
  | inl z ↦
      some_inj
        (let gone : robflex_test_event words (negsuc n) ≡ some false = ground arith in sym gone ∙ e)
  | inr z ↦ absurd (let gone : robflex_test_event words (negsuc n) ≡ none = ground arith in cc)
]

-- Two tests that agree on the entries in use choose alike.
module _ (is_set is_set' : ℤ → Bool) where
  abbrev Agree : Entry LocalContext → Type 0
  Agree e = is_active is_set e ≡ is_active is_set' e

  highest-Agree :
      (i : ℕ) (es : List (Entry LocalContext)) (best : ℤ × Chosen)
      → All Agree es
      → highest is_set i es best ≡ highest is_set' i es best
  unfolding highest
  highest-Agree i [] best h = refl
  highest-Agree i (e ∷ es) best (h, hs) =
      highest-Agree (i + 1) es _ hs
      ∙ ap
          (λ (b : Bool).
            highest is_set' (i + 1) es
              (if b && ltb_int best.0 e.ctx.level then (e.ctx.level, entry i) else best))
          h

  active-Agree :
      (e : Entry LocalContext)
      → (e.in_use ≡ true → is_set e.event_idx ≡ is_set' e.event_idx)
      → Agree e
  active-Agree e h = elim (Bool-cases e.in_use) [
    | inl used ↦ ap (λ (b : Bool). e.in_use && b) (h used)
    | inr free ↦
        ap (λ (b : Bool). b && is_set e.event_idx) free
        ∙ sym (ap (λ (b : Bool). b && is_set' e.event_idx) free)
  ]

module _ {Node : Type 0} (cjson : CJson Node) (reads : ReadsObjects cjson) (kernel : Kernel)
    {Arg : Type 0} (formatting : Formatting Arg) (net : Net)
    (opens : (n : ℕ) → (fd : ℕ) × (net.socket n ≡ some fd)) where
  Answers-replay :
      (m : Option EventBits) (is_set events : ℤ → Bool)
      → Answers m is_set
      → ((j : ℤ) → test_event_bit m j ≡ events j)
      → (es : List (Entry LocalContext)) → All IsReadableEntry es
      → All (Agree is_set events) es
  Answers-replay m is_set events a shows [] hs = tt
  Answers-replay none is_set events a shows (e ∷ es) hs = absurd a
  Answers-replay (some words) is_set events a shows (e ∷ es) (h, hs) = (
    active-Agree is_set events e (λ used.
        a e.event_idx (test_event_bit (some words) e.event_idx)
          (robflex_test_event-test_event_bit words e.event_idx (h used))
        ∙ shows e.event_idx),
    Answers-replay (some words) is_set events a shows es hs,
  )

  -- From the API to a tick. Let a thread that has not yet called make any calls of the Python client,
  -- let every call of socket.socket succeed, let each payload be one that the daemon reads whole (at most
  -- 255 bytes, numbers that an int holds, texts without a NUL or a half of a surrogate pair), let cJSON
  -- read and search it as documented, and let the daemon, just started, come to a state by the datagrams
  -- in the order in which they were handed over. Let a tick of a thread whose entries in use all have
  -- indices from 0 to 1023 be told what the library's test reads in the daemon's memory. Then it uses the
  -- context that the replay of the apply and cancel calls chooses.
  pub choose-session :
      (calls : List (Call Arg)) (d : Daemon) (is_set : ℤ → Bool) (t : Thread)
      → All (IsModest formatting net) calls
      → serve cjson kernel (received_of (run formatting net calls fresh).sent) started ≡ some d
      → Answers d.ptr_shmem is_set
      → All IsReadableEntry t.event_map.entries
      → choose is_set t ≡ choose (replay calls (λ i. false)) t
  unfolding choose
  choose-session calls d is_set t modest served a h =
      let (d', served', shows) =
        session_events cjson reads kernel formatting net opens calls modest in
      let same : d' ≡ d = some_inj (sym served' ∙ served) in
      let events = replay calls (λ i. false) in
      let bits : (j : ℤ) → test_event_bit d.ptr_shmem j ≡ events j =
        subst (λ (e : Daemon). (j : ℤ) → test_event_bit e.ptr_shmem j ≡ events j) same shows in
      ap (λ (r : ℤ × Chosen). r.1)
        (highest-Agree is_set events 0 t.event_map.entries (t.loc_ctx.level, own)
          (Answers-replay d.ptr_shmem is_set events a bits t.event_map.entries h))
