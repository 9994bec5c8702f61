-- ===== src/Hook/Sections/Chain.antt =====
-- robflex_shot_on_latency of src/robflex_api.c: the end of a stage of a chain of threads that share a latency.
pub mod Paced
pub mod Stages
use mathlib.Core.Option
use pmu_roboflex.Prelude.{ℕ, ◌+◌, ◌≡◌, refl, Bool, true, false, Option, none, some, if◌then◌else◌}
use pmu_roboflex.Prelude.Word64.{add64, sub64}
use pmu_roboflex.Contexts.Types.{
  RunPolicy, yielding, predetermined, immediate, latency_oriented, by_handler, UAuxData,
  LocalContext,
}
use pmu_roboflex.Hook.{Machine, Thread}
use pmu_roboflex.Hook.Sections.{ChainContext, with_aux, signals, entered, finish}

-- `loc_ctx.policy != LATENCY_ORIENTED`.
abbrev pub is_unpaced : RunPolicy → Bool
is_unpaced latency_oriented = false
is_unpaced yielding = true
is_unpaced predetermined = true
is_unpaced immediate = true
is_unpaced by_handler = true

-- `(struct ChainContext){0}`.
abbrev pub no_chain : ChainContext
no_chain = record {
  total_latency = 0;
  used_latency = 0;
  local_target_latency = 0;
  local_used_latency = 0;
}

abbrev pub chain_of : ℕ → UAuxData → ChainContext
chain_of current_time lat =
    let pass_time = sub64 current_time lat.start_time in
    record {
      total_latency = add64 lat.total_latency lat.target_lat;
      used_latency = add64 lat.used_latency pass_time;
      local_target_latency = lat.target_lat;
      local_used_latency = pass_time;
    }

abbrev pub blended : Machine → UAuxData → UAuxData
blended mc lat = record lat {
  hist_ncycle = mc.blend lat.hist_ncycle lat.used_ncycle;
  used_ncycle = 0;
}

-- The statements in the critical section; `none` stands for the early return.
unfoldable pub shot : Machine → Thread → Option ChainContext × Thread
shot mc t = if is_unpaced t.loc_ctx.policy then (none, t) else (
  some (chain_of (mc.clock t.readings) t.loc_ctx.aux),
  record (with_aux (blended mc) t) { readings = t.readings + 1 },
)

-- The statements behind the loop.
abbrev pub restarted : ℕ → UAuxData → UAuxData
restarted now lat = record lat { start_time = now; total_latency = 0; used_latency = 0 }

unfoldable pub restart : Machine → Option ChainContext × Thread → ChainContext × Thread
restart mc (none, t) = (no_chain, t)
restart mc (some chain, t) =
    (chain, record (with_aux (restarted (mc.clock t.readings)) t) { readings = t.readings + 1 })

unfoldable pub robflex_shot_on_latency :
    ℕ → Machine → ℕ → ℕ → Thread → Option (ChainContext × Thread)
unfolding shot restart
robflex_shot_on_latency fuel mc early late t =
    Option.map (restart mc) (finish fuel mc late (shot mc (signals early mc (entered t))))
