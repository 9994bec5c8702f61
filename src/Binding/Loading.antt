-- ===== src/Binding/Loading.antt =====
-- src/python/pmu_tick_api.py, _load_lib: the first library of the candidates that can be opened.
use pmu_roboflex.Prelude.{
  ℕ, Bool, false, ◌==◌, if◌then◌else◌, ◌≡◌, refl, ap, ◌⊎◌, inl, inr, Option, none, some, List, [],
  ◌∷◌, ◌++◌, Text, codes, All,
}

-- What `ffi.dlopen` does with a path: a library, or an OSError.
pub data Opened (Lib : Type 0) (Error : Type 0) : Type 0 where
  opened : Lib → Opened Lib Error
  os_error : Error → Opened Lib Error

-- The library, or the OSError that names the last error, if there was one.
pub data Loaded (Lib : Type 0) (Error : Type 0) : Type 0 where
  library : Lib → Loaded Lib Error
  not_found : Option Error → Loaded Lib Error

-- `os.path.join` with a relative path.
abbrev ends_in_slash : Text → Bool
ends_in_slash [] = false
ends_in_slash (c ∷ []) = c == b'/'
ends_in_slash (c ∷ d ∷ path) = ends_in_slash (d ∷ path)

unfoldable pub join_path : Text → Text → Text
join_path [] name = name
join_path (c ∷ path) name =
    if ends_in_slash (c ∷ path) then c ∷ path ++ name else c ∷ path ++ b'/' ∷ name

-- `_lib_candidates`: the value of ROBFLEX_LIB if it is set, the bare name, and the path in the build
-- directory, from the directory of the script.
unfoldable pub lib_candidates : Option Text → Text → List (Option Text)
unfolding join_path
lib_candidates robflex_lib directory =
    robflex_lib
    ∷ some (codes "librobonix.so")
    ∷ some (join_path directory (codes "../../build/librobonix.so"))
    ∷ []

module _ {Lib : Type 0} {Error : Type 0} (dlopen : Text → Opened Lib Error) where
  -- An empty or missing path is passed over.
  unfoldable pub load_from : List (Option Text) → Option Error → Loaded Lib Error
  load_from [] last = not_found last
  load_from (none ∷ paths) last = load_from paths last
  load_from (some [] ∷ paths) last = load_from paths last
  load_from (some (c ∷ path) ∷ paths) last = elim (dlopen (c ∷ path)) [
    | opened lib ↦ library lib
    | os_error e ↦ load_from paths (some e)
  ]

  unfoldable pub load_lib : List (Option Text) → Loaded Lib Error
  load_lib paths = load_from paths none

  -- A candidate that gives no library.
  pub data IsUnusable : Option Text → Type 0 where
    missing : IsUnusable none
    empty : IsUnusable (some [])
    refused : (path : Text) (e : Error) → dlopen path ≡ os_error e → IsUnusable (some path)

  -- How the search ends: with the first candidate that can be opened, or with none.
  pub data IsSearched (paths : List (Option Text)) : Loaded Lib Error → Type 0 where
    found :
        (before after : List (Option Text)) (path : Text) (lib : Lib)
        → paths ≡ before ++ some path ∷ after
        → All IsUnusable before
        → dlopen path ≡ opened lib
        → IsSearched paths (library lib)
    failed : (last : Option Error) → All IsUnusable paths → IsSearched paths (not_found last)

  pass :
      (p : Option Text) (paths : List (Option Text)) (r : Loaded Lib Error)
      → IsUnusable p
      → IsSearched paths r
      → IsSearched (p ∷ paths) r
  pass p paths _ u (found before after path lib e us o) =
      found (p ∷ before) after path lib (ap (λ ps. p ∷ ps) e) (u, us) o
  pass p paths _ u (failed last us) = failed last (u, us)

  load_from_opened :
      (c : ℕ) (path : Text) (paths : List (Option Text)) (last : Option Error) (lib : Lib)
      → dlopen (c ∷ path) ≡ opened lib
      → load_from (some (c ∷ path) ∷ paths) last ≡ library lib
  unfolding load_from
  load_from_opened c path paths last lib e = rw (e, load_from)

  load_from_refused :
      (c : ℕ) (path : Text) (paths : List (Option Text)) (last : Option Error) (e : Error)
      → dlopen (c ∷ path) ≡ os_error e
      → load_from (some (c ∷ path) ∷ paths) last ≡ load_from paths (some e)
  unfolding load_from
  load_from_refused c path paths last e h = rw (h, load_from)

  Opened-cases :
      (o : Opened Lib Error) → ((lib : Lib) × (o ≡ opened lib)) ⊎ ((e : Error) × (o ≡ os_error e))
  Opened-cases (opened lib) = inl (lib, refl)
  Opened-cases (os_error e) = inr (e, refl)

  load_from-IsSearched :
      (paths : List (Option Text)) (last : Option Error) → IsSearched paths (load_from paths last)
  unfolding load_from
  load_from-IsSearched [] last = failed last tt
  load_from-IsSearched (none ∷ paths) last =
      pass none paths _ missing (load_from-IsSearched paths last)
  load_from-IsSearched (some [] ∷ paths) last =
      pass (some []) paths _ empty (load_from-IsSearched paths last)
  load_from-IsSearched (some (c ∷ path) ∷ paths) last = elim (Opened-cases (dlopen (c ∷ path))) [
    | inl (lib, h) ↦
        rw (load_from_opened c path paths last lib h) (found [] paths (c ∷ path) lib refl tt h)
    | inr (e, h) ↦ rw (load_from_refused c path paths last e h) (
        pass (some (c ∷ path)) paths _ (refused (c ∷ path) e h)
          (load_from-IsSearched paths (some e)))
  ]

  -- The library that is loaded is that of the first candidate that can be opened, and there is an error
  -- only if no candidate can: an empty or missing one is passed over.
  pub load_lib-IsSearched : (paths : List (Option Text)) → IsSearched paths (load_lib paths)
  load_lib-IsSearched paths = unfold load_lib in load_from-IsSearched paths none
