-- ===== src/Contexts/Attach/Replay.antt =====
-- The functions of src/robflex_api.c that attach contexts, against a map from event indices to
-- contexts that is never full.
use pmu_roboflex.Prelude.{
  ℕ, suc, ◌≤◌, ◌≡◌, refl, false, Option, none, some, List, [], ◌∷◌, Text, if◌then◌else◌, ◌==◌,
  length, arith, Bool-cases, inl, inr, ap, sym, some_inj, ◌∙◌,
}
use pmu_roboflex.Prelude.Int.{ℤ, pos, negsuc, beq_int}
use pmu_roboflex.Events.{robflex_get_event_idx}
use pmu_roboflex.Events.Names.{robflex_get_event_idx-le}
use pmu_roboflex.Contexts.{
  Entry, is_none_idx, success, failure, robflex_event_table_init, cleared,
  robflex_event_table_upsert, robflex_event_table_erase, robflex_event_table_get_ctx,
}
use pmu_roboflex.Contexts.Types.{LocalContext}
use pmu_roboflex.Contexts.Slots.{used}
use pmu_roboflex.Contexts.Indices.{IsFresh, IsFresh-value, value-fresh}
use pmu_roboflex.Contexts.Bounded.{IsWithin, length-within}
use pmu_roboflex.Contexts.Laws.{
  get_ctx_lem, get_ctx-none_idx, Reads, IsTable, IsFull, upsert_refines, erase_refines,
}
use pmu_roboflex.Contexts.Attach.{
  EventMap, Use, attach, dettach, get_policy, event_of, new_context, policy_of, attach_at,
  dettach_at, policy_at, perform, run,
}

-- Contexts by event index.
abbrev pub Contexts : Type 0
Contexts = ℤ → Option LocalContext

abbrev pub update : Contexts → ℤ → Option LocalContext → Contexts
update m i v j = if beq_int i j then v else m j

abbrev pub replay_attach : Option ℤ → LocalContext → Contexts → ℤ × Contexts
replay_attach none ctx m = (failure, m)
replay_attach (some i) ctx m = (success, update m i (some ctx))

abbrev pub removed : ℤ → Option LocalContext → Contexts → ℤ × Contexts
removed i none m = (failure, m)
removed i (some ctx) m = (success, update m i none)

abbrev pub replay_dettach : Option ℤ → Contexts → ℤ × Contexts
replay_dettach none m = (failure, m)
replay_dettach (some i) m = removed i (m i) m

abbrev pub replay_policy : Option ℤ → Contexts → ℤ
replay_policy none m = failure
replay_policy (some i) m = policy_of (m i)

abbrev pub replay_one : Use → Contexts → ℤ × Contexts
replay_one (attach event_name epolicy aux level) m =
    replay_attach (event_of event_name) (new_context epolicy aux level) m
replay_one (dettach event_name) m = replay_dettach (event_of event_name) m
replay_one (get_policy event_name) m = (replay_policy (event_of event_name) m, m)

-- The same uses on the map.
pub replay : List Use → Contexts → List ℤ × Contexts
replay [] m = ([], m)
replay (u ∷ uses) m =
    let (ret, m') = replay_one u m in let (rets, last) = replay uses m' in (ret ∷ rets, last)

event_of-IsWithin : (name : Option Text) (i : ℤ) → event_of name ≡ some i → IsWithin 8 i
unfolding event_of
event_of-IsWithin none i h = cc
event_of-IsWithin (some name) i h = elim (Bool-cases (robflex_get_event_idx (some name) == 0)) [
  | inl e ↦ absurd (let bad : none ≡ some i = rw e at h in cc)
  | inr e ↦
      let found : some (pos (robflex_get_event_idx (some name))) ≡ some i = rw e at h in
      rw (← some_inj found) (ground arith, omega (arith, robflex_get_event_idx-le (some name)))
]

within_valid : (i : ℤ) → IsWithin 8 i → is_none_idx i ≡ false
within_valid (pos i) h = ground arith
within_valid (negsuc i) h = absurd (omega arith)

pos_inj : (a b : ℕ) → pos a ≡ pos b → a ≡ b
pos_inj a b h = ground arith

not_full :
    (t : EventMap) (i : ℤ) (r : ℤ × EventMap)
    → IsTable (IsWithin 8) t
    → IsWithin 8 i
    → IsFull t i r
    → ⊥
not_full t i r h w (_, absent, full) =
    let fresh : IsFresh i (used t.entries) =
      IsFresh-value i t.entries (sym (get_ctx_lem t i (within_valid i w)) ∙ absent) in
    let small : suc (length (used t.entries)) ≤ 8 =
      length-within 8 (i ∷ used t.entries) (fresh, h.distinct) (w, h.indices) in
    let eight : length (used t.entries) ≡ 8 =
      pos_inj (length (used t.entries)) 8 (sym h.counted ∙ full) in
    omega arith

record Agrees (t : EventMap) (m : Contexts) : Type 0 where
  table : IsTable (IsWithin 8) t
  reads : (j : ℤ) → robflex_event_table_get_ctx t j ≡ m j

-- A result of the table against one of the map.
abbrev AgreesWith : ℤ × EventMap → ℤ × Contexts → Type 0
AgreesWith r s = (r.0 ≡ s.0) × Agrees r.1 s.1

stored-Agrees :
    (t : EventMap) (m : Contexts) (i : ℤ) (v : Option LocalContext) (t' : EventMap)
    → IsTable (IsWithin 8) t'
    → Reads t i v t'
    → Agrees t m
    → Agrees t' (update m i v)
stored-Agrees t m i v t' table reads h = record {
  table = table;
  reads = λ j. ground (arith, reads j, h.reads j);
}

attach-Agrees :
    (i : Option ℤ) (ctx : LocalContext) (t : EventMap) (m : Contexts)
    → ((k : ℤ) → i ≡ some k → IsWithin 8 k)
    → Agrees t m
    → AgreesWith (attach_at i ctx t) (replay_attach i ctx m)
unfolding attach_at
attach-Agrees none ctx t m w h = (refl, h)
attach-Agrees (some i) ctx t m w h =
    let (table, cases) =
      upsert_refines (IsWithin 8) t i ctx h.table (w i refl) (within_valid i (w i refl)) in
    elim cases [
      | inl (ret, reads) ↦
          (ret, stored-Agrees t m i (some ctx) (robflex_event_table_upsert t i ctx).1 table reads h)
      | inr full ↦
          absurd (not_full t i (robflex_event_table_upsert t i ctx) h.table (w i refl) full)
    ]

removed-Agrees :
    (i : ℤ) (v : Option LocalContext) (t : EventMap) (m : Contexts)
    → IsWithin 8 i
    → m i ≡ v
    → Agrees t m
    → AgreesWith (robflex_event_table_erase t i) (removed i v m)
removed-Agrees i none t m w e h =
    let (table, cases) = erase_refines (IsWithin 8) t i h.table (within_valid i w) in
    elim cases [
      | inl (ret, present, reads) ↦ absurd (present (h.reads i ∙ e))
      | inr (same, absent) ↦ rw same (refl, h)
    ]
removed-Agrees i (some ctx) t m w e h =
    let (table, cases) = erase_refines (IsWithin 8) t i h.table (within_valid i w) in
    elim cases [
      | inl (ret, present, reads) ↦
          (ret, stored-Agrees t m i none (robflex_event_table_erase t i).1 table reads h)
      | inr (same, absent) ↦
          absurd (let bad : some ctx ≡ none = sym e ∙ sym (h.reads i) ∙ absent in cc)
    ]

dettach-Agrees :
    (i : Option ℤ) (t : EventMap) (m : Contexts)
    → ((k : ℤ) → i ≡ some k → IsWithin 8 k)
    → Agrees t m
    → AgreesWith (dettach_at i t) (replay_dettach i m)
unfolding dettach_at
dettach-Agrees none t m w h = (refl, h)
dettach-Agrees (some i) t m w h = removed-Agrees i (m i) t m (w i refl) refl h

policy-Agrees :
    (i : Option ℤ) (t : EventMap) (m : Contexts) → Agrees t m → policy_at i t ≡ replay_policy i m
unfolding policy_at
policy-Agrees none t m h = refl
policy-Agrees (some i) t m h = rw h.reads refl

perform-Agrees :
    (u : Use) (t : EventMap) (m : Contexts) → Agrees t m → AgreesWith (perform u t) (replay_one u m)
unfolding perform
perform-Agrees (attach name epolicy aux level) t m h =
    attach-Agrees (event_of name) (new_context epolicy aux level) t m (event_of-IsWithin name) h
perform-Agrees (dettach name) t m h = dettach-Agrees (event_of name) t m (event_of-IsWithin name) h
perform-Agrees (get_policy name) t m h = (policy-Agrees (event_of name) t m h, h)

run-Agrees :
    (uses : List Use) (t : EventMap) (m : Contexts)
    → Agrees t m
    → ((run uses t).0 ≡ (replay uses m).0) × Agrees (run uses t).1 (replay uses m).1
unfolding run replay
run-Agrees [] t m h = (refl, h)
run-Agrees (u ∷ uses) t m h =
    let (ret, after) = perform-Agrees u t m h in
    let (rets, last) = run-Agrees uses (perform u t).1 (replay_one u m).1 after in
    (rw (ret, rets) refl, last)

used-cleared : (es : List (Entry LocalContext)) → used (cleared es) ≡ []
unfolding used cleared
used-cleared [] = refl
used-cleared (e ∷ es) = used-cleared es

length-cleared : (es : List (Entry LocalContext)) → length (cleared es) ≡ length es
unfolding cleared
length-cleared [] = refl
length-cleared (e ∷ es) = ap (λ (n : ℕ). suc n) (length-cleared es)

unused-none : (t : EventMap) (j : ℤ) → used t.entries ≡ [] → robflex_event_table_get_ctx t j ≡ none
unused-none t j h = elim (Bool-cases (is_none_idx j)) [
  | inl n ↦ get_ctx-none_idx t j n
  | inr n ↦ get_ctx_lem t j n ∙ value-fresh j t.entries (rw h tt)
]

init-Agrees :
    (t : EventMap) → length t.entries ≡ 8 → Agrees (robflex_event_table_init t) (λ j. none)
unfolding robflex_event_table_init
init-Agrees t h = record {
  table = record {
    whole = length-cleared t.entries ∙ h;
    distinct = rw used-cleared tt;
    indices = rw used-cleared tt;
    counted = rw used-cleared refl;
  };
  reads = λ j.
      unused-none (record { count = pos 0; entries = cleared t.entries }) j
        (used-cleared t.entries);
}

-- From a table that was just initialised, any sequence of attaching contexts to events by name, detaching
-- them and asking for policies returns what it returns on a map from event indices to contexts, and the
-- table ends with the same contexts. As the map has no limit, an attach to a known event never fails
-- for want of room in the eight entries.
pub attach_session :
    (uses : List Use) (t : EventMap)
    → length t.entries ≡ 8
    → ((run uses (robflex_event_table_init t)).0 ≡ (replay uses (λ j. none)).0)
      × ((j : ℤ)
          → robflex_event_table_get_ctx (run uses (robflex_event_table_init t)).1 j
            ≡ (replay uses (λ i. none)).1 j)
attach_session uses t h =
    let (rets, last) = run-Agrees uses (robflex_event_table_init t) (λ j. none) (init-Agrees t h) in
    (rets, last.reads)
