-- ===== src/Snapshots/Marker.antt =====
-- What the folder of a content holds after any attempts to prepare it (backend/app/snapshots.py).
use cgraph.Prelude.{ℕ, ◌≡◌, ◌⊎◌, true, none, some, List, [], ◌∷◌, ◌++◌}
use cgraph.Snapshots.{Member, Ext, Env, files_of, marker, is_marked, prepare_snapshot_root}

-- all files of the archive, the marker, which may be half written, and nothing else
abbrev pub IsComplete : List Member → List Member → Type 0
IsComplete ms files = (n : ℕ) × (files ≡ files_of ms ++ (record marker { size = n } ∷ []))

-- The folder is marked only where it is complete.
abbrev IsSound : List Member → List Member → Type 0
IsSound ms files = is_marked files ≡ true → IsComplete ms files

-- Is this the archive of the content, or none at all?
abbrev pub Gives : List Member → Env → Type 0
Gives ms env = (env.archive ≡ none) ⊎ (env.archive ≡ some ms)

-- attempts to prepare the folder, one after the other
unfoldable pub attempts : List Env → Ext → List Member → List Member
attempts [] ext files = files
attempts (env ∷ envs) ext files = attempts envs ext (prepare_snapshot_root env ext files).1

abbrev pub AllGive : List Member → List Env → Type 0
AllGive ms [] = Unit {0}
AllGive ms (env ∷ envs) = Gives ms env × AllGive ms envs
