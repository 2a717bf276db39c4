-- ===== src/Install/Modules.antt =====
-- The local modules of targets files, internal/install/main.go.
use gomake.Base.{Str, true, List, map, str_eq, contains, none, some, ◌≡◌, ◌⊎◌}
use gomake.Install.{Calls, module_of}
use gomake.Workspace.{ok}

abbrev pub roots : List (Str × Str) → List Str
roots found = map (λ m. m.1) found

module _ (c : Calls) where
  -- A targets file has no module, or the root of its module is among those that are found.
  abbrev pub IsCovered : List (Str × Str) → Str → Type 0
  IsCovered ms tg =
      (module_of c tg ≡ ok none)
      ⊎ ((name : Str) × (root : Str) × (module_of c tg ≡ ok (some (name, root)))
          × (contains (roots ms) root ≡ true))
