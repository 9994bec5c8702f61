-- ===== src/Daemon/Reached.antt =====
-- What src/server.c keeps of the shared memory, whatever datagrams it receives and however cJSON reads
-- them.
use pmu_roboflex.Prelude.{
  ℕ, ◌≤◌, ◌<◌, ◌≡◌, refl, Bool, true, false, Option, none, some, List, [], ◌∷◌, Text, if◌then◌else◌,
  arith, Bool-cases, inl, inr, subst, some_inj, leb, leb→le,
}
use pmu_roboflex.Prelude.Int.{ℤ, ◌≤ℤ◌, pos, negsuc}
use pmu_roboflex.Events.{
  EventBits, robflex_get_event_idx, set_event_bit, unset_event_bit, test_event_bit,
}
use pmu_roboflex.Events.Names.{robflex_get_event_idx-le}
use pmu_roboflex.Events.Bits.{
  IsMapped, set-IsMapped, unset-IsMapped, event_bits_refine, test-no_event,
}
use pmu_roboflex.Daemon.{
  Item, CJson, SysCall, Kernel, Daemon, started, M, return, ◌>>=◌, deref, call, set_bit, unset_bit,
  idx_of, set_nice, do_sched_setscheduler, do_set_priority, do_log_message,
  do_update_ctrl_time_cost, do_apply_event, do_cancel_event, run_command, cmd_dispatcher, dispatch,
  handle_client_request, serve,
}
use pmu_roboflex.Daemon.Loop.{serve-cons_inv}

-- The memory is mapped whole, and no bit above the last event's is set.
pub record IsSound (d : Daemon) : Type 0 where
  pub mapped : IsMapped d.ptr_shmem
  pub clear : (j : ℕ) → 8 < j → test_event_bit d.ptr_shmem (pos j) ≡ false

abbrev Ensures : {A : Type 0} → Option (A × Daemon) → Type 0
Ensures none = Unit
Ensures (some (a, d)) = IsSound d

-- A computation keeps the memory sound, if it ends.
record Keeps {A : Type 0} (m : M A) : Type 0 where
  keeps : (d : Daemon) → IsSound d → Ensures (m d)

module _ {A : Type 0} where
  return-Keeps : (a : A) → Keeps (return a)
  return-Keeps a = record { keeps = λ d h. h }

  deref_keeps : (p : Option A) (d : Daemon) → IsSound d → Ensures (deref p d)
  deref_keeps none d h = tt
  deref_keeps (some a) d h = h

  deref-Keeps : (p : Option A) → Keeps (deref p)
  deref-Keeps p = record { keeps = deref_keeps p }

  if-Keeps : (b : Bool) (m n : M A) → Keeps m → Keeps n → Keeps (if b then m else n)
  if-Keeps true m n hm hn = hm
  if-Keeps false m n hm hn = hn

bind-Ensures :
    {A B : Type 0} (r : Option (A × Daemon)) (f : A → M B)
    → ((a : A) → Keeps (f a))
    → Ensures r
    → Ensures {A = B} (elim r [ none ↦ none | some (a, d') ↦ f a d' ])
bind-Ensures none f hf h = tt
bind-Ensures (some (a, d)) f hf h = (hf a).keeps d h

bind-Keeps :
    {A B : Type 0} (m : M A) (f : A → M B) → Keeps m → ((a : A) → Keeps (f a)) → Keeps (m >>= f)
bind-Keeps m f hm hf = record { keeps = λ d h. bind-Ensures (m d) f hf (hm.keeps d h) }

call-Keeps : (kernel : Kernel) (c : SysCall) → Keeps (call kernel c)
unfolding call
call-Keeps kernel c = record { keeps = λ d h. record { mapped = h.mapped; clear = h.clear } }

set-clear :
    (m : Option EventBits) (i j : ℕ)
    → IsMapped m
    → i ≤ 8
    → 8 < j
    → test_event_bit m (pos j) ≡ false
    → test_event_bit (set_event_bit m (pos i)).1 (pos j) ≡ false
set-clear m i j h small big e = ground (arith, (event_bits_refine m (pos i) (pos j) h).1)

unset-clear :
    (m : Option EventBits) (i j : ℕ)
    → IsMapped m
    → test_event_bit m (pos j) ≡ false
    → test_event_bit (unset_event_bit m (pos i)).1 (pos j) ≡ false
unset-clear m i j h e = ground (arith, (event_bits_refine m (pos i) (pos j) h).3)

set_bit-Keeps : (name : Item) → Keeps (set_bit (idx_of name))
unfolding set_bit
set_bit-Keeps name = record {
  keeps = λ d h. record {
    mapped = set-IsMapped d.ptr_shmem (idx_of name) h.mapped;
    clear = λ j big.
        set-clear d.ptr_shmem (robflex_get_event_idx name.valuestring) j h.mapped
          (robflex_get_event_idx-le name.valuestring) big (h.clear j big);
  };
}

unset_bit-Keeps : (name : Item) → Keeps (unset_bit (idx_of name))
unfolding unset_bit
unset_bit-Keeps name = record {
  keeps = λ d h. record {
    mapped = unset-IsMapped d.ptr_shmem (idx_of name) h.mapped;
    clear = λ j big.
        unset-clear d.ptr_shmem (robflex_get_event_idx name.valuestring) j h.mapped (h.clear j big);
  };
}

ruleset keep_rules =
    (return-Keeps, deref-Keeps, if-Keeps, bind-Keeps, call-Keeps, set_bit-Keeps, unset_bit-Keeps)

module _ {Node : Type 0} (cjson : CJson Node) (kernel : Kernel) where
  set_nice-Keeps : (tid prio : ℤ) → Keeps (set_nice cjson kernel tid prio)
  unfolding set_nice
  set_nice-Keeps tid prio = search keep_rules

  do_sched_setscheduler-Keeps : (root : Node) → Keeps (do_sched_setscheduler cjson kernel root)
  unfolding do_sched_setscheduler
  do_sched_setscheduler-Keeps root = search (keep_rules, set_nice-Keeps) depth 9

  do_set_priority-Keeps : (root : Node) → Keeps (do_set_priority cjson kernel root)
  unfolding do_set_priority
  do_set_priority-Keeps root = search keep_rules

  do_log_message-Keeps : (root : Node) → Keeps (do_log_message cjson kernel root)
  unfolding do_log_message
  do_log_message-Keeps root = search keep_rules

  do_update_ctrl_time_cost-Keeps :
      (root : Node) → Keeps (do_update_ctrl_time_cost cjson kernel root)
  unfolding do_update_ctrl_time_cost
  do_update_ctrl_time_cost-Keeps root = search keep_rules

  do_apply_event-Keeps : (root : Node) → Keeps (do_apply_event cjson kernel root)
  unfolding do_apply_event
  do_apply_event-Keeps root = search keep_rules depth 9

  do_cancel_event-Keeps : (root : Node) → Keeps (do_cancel_event cjson kernel root)
  unfolding do_cancel_event
  do_cancel_event-Keeps root = search keep_rules

  run_command-Keeps : (cmd : Text) (root : Node) → Keeps (run_command cjson kernel cmd root)
  unfolding run_command
  run_command-Keeps cmd root =
      search
        (
          keep_rules, do_sched_setscheduler-Keeps, do_set_priority-Keeps, do_log_message-Keeps,
          do_update_ctrl_time_cost-Keeps, do_apply_event-Keeps, do_cancel_event-Keeps,
        )
        depth 9

  cmd_dispatcher-Keeps : (root : Node) → Keeps (cmd_dispatcher cjson kernel root)
  unfolding cmd_dispatcher
  cmd_dispatcher-Keeps root = search (keep_rules, run_command-Keeps)

  dispatched-IsSound :
      (r : Option (ℤ × Daemon))
      → Ensures r
      → (d : Daemon)
      → elim r as (λ _. Option Daemon) [ none ↦ none | some (ret, d') ↦ some d' ] ≡ some d
      → IsSound d
  dispatched-IsSound none h d e = cc
  dispatched-IsSound (some (ret, d')) h d e = subst IsSound (some_inj e) h

  dispatch-IsSound :
      (root : Option Node) (d d' : Daemon)
      → IsSound d
      → dispatch cjson kernel root d ≡ some d'
      → IsSound d'
  unfolding dispatch
  dispatch-IsSound none d d' h e = subst IsSound (some_inj e) h
  dispatch-IsSound (some root) d d' h e =
      dispatched-IsSound (cmd_dispatcher cjson kernel root d)
        ((cmd_dispatcher-Keeps root).keeps d h) d' e

  pub handle-IsSound :
      (r : Option Text) (d d' : Daemon)
      → IsSound d
      → handle_client_request cjson kernel r d ≡ some d'
      → IsSound d'
  unfolding handle_client_request
  handle-IsSound none d d' h e = subst IsSound (some_inj e) h
  handle-IsSound (some datagram) d d' h e = dispatch-IsSound _ d d' h e

  -- Whatever is received, and however cJSON reads it.
  pub serve-IsSound :
      (received : List (Option Text)) (d d' : Daemon)
      → IsSound d
      → serve cjson kernel received d ≡ some d'
      → IsSound d'
  serve-IsSound [] d d' h e =
      let same : some d ≡ some d' = unfold serve in e in subst IsSound (some_inj same) h
  serve-IsSound (r ∷ received) d d' h e =
      let (m, f, g) = serve-cons_inv cjson kernel r received d d' e in
      serve-IsSound received m d' (handle-IsSound r d m h f) g

pub started-IsSound : IsSound started
started-IsSound = record { mapped = refl; clear = λ j h. test-no_event (pos j) }

bit_range :
    (m : Option EventBits)
    → ((j : ℕ) → 8 < j → test_event_bit m (pos j) ≡ false)
    → (j : ℤ) → test_event_bit m j ≡ true
    → (pos 0 ≤ℤ j) × (j ≤ℤ pos 8)
bit_range m clear (pos j) e = elim (Bool-cases (leb j 8)) [
  | inl small ↦ (omega arith, omega (arith, leb→le j 8 small))
  | inr big ↦ absurd (let off : test_event_bit m (pos j) ≡ false = clear j (ground arith) in cc)
]
bit_range none clear (negsuc j) e =
    absurd (let off : false ≡ true = unfold test_event_bit in e in cc)
bit_range (some words) clear (negsuc j) e =
    absurd (let off : false ≡ true = unfold test_event_bit in e in cc)

-- Whatever datagrams the daemon receives after its start, and however cJSON reads them: while it runs,
-- its event bits stay mapped in full, and the only ones that are ever set are 0 to 8.
pub serve-event_range :
    {Node : Type 0} (cjson : CJson Node) (kernel : Kernel) (received : List (Option Text))
    (d : Daemon)
    → serve cjson kernel received started ≡ some d
    → IsMapped d.ptr_shmem
      × ((j : ℤ) → test_event_bit d.ptr_shmem j ≡ true → (pos 0 ≤ℤ j) × (j ≤ℤ pos 8))
serve-event_range cjson kernel received d e =
    let sound = serve-IsSound cjson kernel received started d started-IsSound e in
    (sound.mapped, bit_range d.ptr_shmem sound.clear)
