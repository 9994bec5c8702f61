-- ===== src/Daemon/Protocol.antt =====
-- The commands of src/python/robflex_api.py at src/server.c: what the daemon does with the datagram
-- that spells a command, under the documented behaviour of cJSON.
use pmu_roboflex.Prelude.{
  ℕ, ◌+◌, ◌≤◌, ◌<◌, ◌≡◌, refl, ◌&&◌, Option, none, some, List, [], ◌∷◌, ◌++◌, map, Text, text_beq,
  All, Lacks, length, take, take_all, leb, if◌then◌else◌, arith, ◌∙◌, ap,
}
use pmu_roboflex.Prelude.Int.{ℤ, pos, pos_part, neg_part, is_negative, beq_int}
use pmu_roboflex.Prelude.Utf8.{encode_utf8}
use pmu_roboflex.Json.{Value, str, num, Object, dumps}
use pmu_roboflex.Json.Ascii.{IsPrintable, dumps-IsPrintable}
use pmu_roboflex.Json.RoundTrip.{IsScalar}
use pmu_roboflex.Client.Session.Payloads
use pmu_roboflex.Client.Session.Payloads.{IsCommand}
use pmu_roboflex.Events.{robflex_get_event_idx, set_event_bit, unset_event_bit}
use pmu_roboflex.Daemon.{
  Item, CJson, SysCall, sched_setscheduler, setpriority, sigqueue, log, Kernel, Daemon, sched_other,
  until_nul, max_received,
}

-- cJSON_GetObjectItem compares names without regard to case, and gives the first that fits.
abbrev pub to_lower : ℕ → ℕ
to_lower c = if leb b'A' c && leb c b'Z' then c + 32 else c

abbrev pub member : Text → Object → Option Value
member key [] = none
member key ((name, v) ∷ o) =
    if text_beq (map to_lower key) (map to_lower name) then some v else member key o

-- The strings of a parsed text are in UTF-8.
abbrev pub item_of : Value → Item
item_of (str s) = record { valueint = pos 0; valuestring = encode_utf8 s }
item_of (num i) = record { valueint = i; valuestring = none }

abbrev pub found_item : Option Value → Option Item
found_item none = none
found_item (some v) = some (item_of v)

-- A number that an int holds, and a text that a C string holds.
abbrev pub IsInt : ℤ → Type 0
IsInt i = (pos_part i < 2147483648) × (neg_part i ≤ 2147483648)

abbrev pub IsPlainValue : Value → Type 0
IsPlainValue (str s) = All IsScalar s × Lacks 0 s
IsPlainValue (num i) = IsInt i

abbrev pub IsPlain : Object → Type 0
IsPlain = All (λ (f : Text × Value). IsPlainValue (str f.0) × IsPlainValue f.1)

-- A payload that the daemon reads whole.
abbrev pub IsReadable : Object → Type 0
IsReadable o = IsPlain o × (length (dumps o) ≤ max_received)

-- cJSON reads the JSON text of such an object, and finds its members.
pub record ReadsObjects {Node : Type 0} (cjson : CJson Node) : Type 0 where
  pub node : Object → Node
  pub parses : (o : Object) → IsPlain o → cjson.parse (dumps o) ≡ some (node o)
  pub finds :
      (o : Object) (key : Text)
      → IsPlain o
      → cjson.get_object_item (node o) key ≡ found_item (member key o)

until_nul-printable : (s : Text) → All IsPrintable s → until_nul s ≡ s
unfolding until_nul
until_nul-printable [] h = refl
until_nul-printable (c ∷ s) (hc, hs) = ground (arith, until_nul-printable s hs)

-- A datagram of at most 255 bytes reaches the parser whole.
pub received_whole :
    (o : Object)
    → length (dumps o) ≤ max_received
    → until_nul (take max_received (dumps o)) ≡ dumps o
received_whole o h =
    ap until_nul (take_all max_received (dumps o) h)
    ∙ until_nul-printable (dumps o) (dumps-IsPrintable o)

-- The calls that a command makes.
abbrev pub scheduler_calls : Kernel → ℤ → ℤ → ℤ → Daemon → List SysCall
scheduler_calls kernel tid policy priority d =
    if beq_int policy sched_other
    then sched_setscheduler tid sched_other (pos 0)
      ∷ (if is_negative (kernel (length d.calls) (sched_setscheduler tid sched_other (pos 0)))
          then []
          else setpriority tid priority ∷ [])
    else sched_setscheduler tid policy priority ∷ []

-- What each command asks for.
unfoldable pub effect : Kernel → {o : Object} → IsCommand o → Daemon → Daemon
effect kernel (Payloads.scheduler tid policy prio) d = record d {
  calls = d.calls ++ scheduler_calls kernel tid policy prio d;
}
effect kernel (Payloads.priority tid prio) d = record d {
  calls = d.calls ++ setpriority tid prio ∷ [];
}
effect kernel (Payloads.log tid message h) d = record d {
  calls = d.calls ++ log tid (encode_utf8 message) ∷ [];
}
effect kernel (Payloads.time_cost tid value) d = record d {
  calls = d.calls ++ sigqueue tid value ∷ [];
}
effect kernel (Payloads.apply name timeout strength) d = record d {
  ptr_shmem = (set_event_bit d.ptr_shmem (pos (robflex_get_event_idx (encode_utf8 name)))).1;
}
effect kernel (Payloads.cancel name strength) d = record d {
  ptr_shmem = (unset_event_bit d.ptr_shmem (pos (robflex_get_event_idx (encode_utf8 name)))).1;
}
