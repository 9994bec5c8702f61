-- ===== src/HpfBench/Env.antt =====
-- `get_xsched_env` of benchmark/xsched_hpf_shmm/run_bench.py.
use pmu_roboflex.Prelude.{
  ◌≡◌, refl, Bool, false, ◌||◌, Option, none, some, List, [], ◌∷◌, ◌++◌, Text, codes, text_beq,
  text_beq_iff, if◌then◌else◌, arith,
}
use pmu_roboflex.HpfBench.Results.{Label, high, low}

-- A dict of texts: `os.environ.copy()`.
abbrev pub Environ : Type 0
Environ = List (Text × Text)

unfoldable pub lookup : Text → Environ → Option Text
lookup k [] = none
lookup k ((j, v) ∷ env) = if text_beq j k then some v else lookup k env

-- `env[k] = v`.
unfoldable pub set_env : Text → Text → Environ → Environ
set_env k v [] = (k, v) ∷ []
set_env k v ((j, w) ∷ env) = if text_beq j k then (k, v) ∷ env else (j, w) ∷ set_env k v env

pub lookup-set_env :
    (k j v : Text) (env : Environ)
    → lookup j (set_env k v env) ≡ (if text_beq k j then some v else lookup j env)
unfolding lookup set_env
lookup-set_env k j v [] = refl
lookup-set_env k j v ((i, w) ∷ env) =
    ground (arith, text_beq_iff k j, text_beq_iff i k, text_beq_iff i j, lookup-set_env k j v env)

abbrev pub or_empty : Option Text → Text
or_empty none = []
or_empty (some t) = t

abbrev pub priority_value : Label → Text
priority_value high = codes "255"
priority_value low = codes "0"

abbrev pub scheduler_key : Text
scheduler_key = codes "XSCHED_SCHEDULER"

abbrev pub auto_key : Text
auto_key = codes "XSCHED_AUTO_XQUEUE"

abbrev pub level_key : Text
level_key = codes "XSCHED_AUTO_XQUEUE_LEVEL"

abbrev pub threshold_key : Text
threshold_key = codes "XSCHED_AUTO_XQUEUE_THRESHOLD"

abbrev pub batch_key : Text
batch_key = codes "XSCHED_AUTO_XQUEUE_BATCH_SIZE"

abbrev pub priority_key : Text
priority_key = codes "XSCHED_AUTO_XQUEUE_PRIORITY"

abbrev pub path_key : Text
path_key = codes "LD_LIBRARY_PATH"

-- The fixed settings of the scheduler, over the caller's environment.
unfoldable pub xsched_settings : Label → Environ → Environ
xsched_settings priority env = set_env priority_key (priority_value priority) (
    set_env batch_key (codes "8") (
      set_env threshold_key (codes "16") (
        set_env level_key (codes "1")
          (set_env auto_key (codes "ON") (set_env scheduler_key (codes "GLB") env)))))

-- `xsched_path / "lib"` is `lib_path`.
unfoldable pub get_xsched_env : Text → Label → Environ → Environ
get_xsched_env lib_path priority environ =
    let env = xsched_settings priority environ in
    set_env path_key (lib_path ++ b':' ∷ or_empty (lookup path_key env)) env

-- The names that the function sets.
abbrev pub is_xsched_key : Text → Bool
is_xsched_key j =
    text_beq scheduler_key j
    || text_beq auto_key j
    || text_beq level_key j
    || text_beq threshold_key j
    || text_beq batch_key j
    || text_beq priority_key j
    || text_beq path_key j

settings-lookup :
    (priority : Label) (env : Environ) (j : Text)
    → lookup j (xsched_settings priority env) ≡ (
        if text_beq priority_key j
        then some (priority_value priority)
        else if text_beq batch_key j
        then some (codes "8")
        else if text_beq threshold_key j
        then some (codes "16")
        else if text_beq level_key j
        then some (codes "1")
        else if text_beq auto_key j
        then some (codes "ON")
        else if text_beq scheduler_key j
        then some (codes "GLB")
        else lookup j env)
unfolding xsched_settings
settings-lookup priority env j = simp lookup-set_env

-- Where no test of a ladder holds, its last branch is taken.
no_key :
    (s a l t b p r : Bool) (u v w x y z q d : Option Text)
    → (s || a || l || t || b || p || r) ≡ false
    → (if r
        then q
        else if p
        then z
        else if b
        then y
        else if t
        then x
        else if l
        then w
        else if a
        then v
        else if s
        then u
        else d)
      ≡ d
no_key s a l t b p r u v w x y z q d h = ground arith

-- A variable that is none of the seven that the function sets stays as the caller has it.
pub get_xsched_env_keeps :
    (lib_path : Text) (priority : Label) (environ : Environ) (j : Text)
    → is_xsched_key j ≡ false
    → lookup j (get_xsched_env lib_path priority environ) ≡ lookup j environ
unfolding get_xsched_env
get_xsched_env_keeps lib_path priority environ j h =
    simp (lookup-set_env, settings-lookup)
      (no_key (text_beq scheduler_key j) (text_beq auto_key j) (text_beq level_key j)
        (text_beq threshold_key j) (text_beq batch_key j) (text_beq priority_key j)
        (text_beq path_key j) _ _ _ _ _ _ _ _ h)

-- The environment of a process under XSched: the six settings, the scheduler's libraries in front of the
-- caller's library path, and everything else as the caller has it.
pub record IsXschedEnv (lib_path : Text) (priority : Label) (environ env : Environ) : Type 0 where
  pub scheduler : lookup (codes "XSCHED_SCHEDULER") env ≡ some (codes "GLB")
  pub auto_xqueue : lookup (codes "XSCHED_AUTO_XQUEUE") env ≡ some (codes "ON")
  pub level : lookup (codes "XSCHED_AUTO_XQUEUE_LEVEL") env ≡ some (codes "1")
  pub threshold : lookup (codes "XSCHED_AUTO_XQUEUE_THRESHOLD") env ≡ some (codes "16")
  pub batch_size : lookup (codes "XSCHED_AUTO_XQUEUE_BATCH_SIZE") env ≡ some (codes "8")
  pub has_priority :
      lookup (codes "XSCHED_AUTO_XQUEUE_PRIORITY") env
      ≡ some (elim priority [ high ↦ codes "255" | low ↦ codes "0" ])
  pub library_path :
      lookup (codes "LD_LIBRARY_PATH") env
      ≡ some (lib_path ++ b':' ∷ or_empty (lookup (codes "LD_LIBRARY_PATH") environ))
  pub others : (j : Text) → is_xsched_key j ≡ false → lookup j env ≡ lookup j environ

priority_value-elim :
    (priority : Label)
    → priority_value priority ≡ (elim priority [ high ↦ codes "255" | low ↦ codes "0" ])
priority_value-elim high = refl
priority_value-elim low = refl

pub get_xsched_env-IsXschedEnv :
    (lib_path : Text) (priority : Label) (environ : Environ)
    → IsXschedEnv lib_path priority environ (get_xsched_env lib_path priority environ)
unfolding get_xsched_env
get_xsched_env-IsXschedEnv lib_path priority environ = record {
  scheduler = simp (lookup-set_env, settings-lookup);
  auto_xqueue = simp (lookup-set_env, settings-lookup);
  level = simp (lookup-set_env, settings-lookup);
  threshold = simp (lookup-set_env, settings-lookup);
  batch_size = simp (lookup-set_env, settings-lookup);
  has_priority = simp (lookup-set_env, settings-lookup, priority_value-elim);
  library_path = simp (lookup-set_env, settings-lookup);
  others = get_xsched_env_keeps lib_path priority environ;
}
