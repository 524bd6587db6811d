-- ===== src/Workspace/Temporary.antt =====
-- cmd/oryxos/workspace.go: `createWorkspaceFile` and its temporary file.
use oryxos_go.Common.{
  ◌⊎◌, ℕ, ◌≡◌, refl, inl, inr, String, Option, none, some, List, [], ◌∷◌, ◌++◌, Bool, true, false,
}
use oryxos_go.Common.Int.{ℤ}
use oryxos_go.Go.Error.{Error, Sentinel, is, wrap}
use oryxos_go.Go.Effect.{Result, ok, err}
use oryxos_go.Workspace.{WorkspaceFile, WorkspaceFs}

-- What happens to names: a temporary file is made, a name is given to a file, or Remove is called,
-- with the error that it returned; an error means that it removed nothing.
pub data NameEvent : Type 0 where
  made : String → NameEvent
  linked : String → String → NameEvent
  removes : String → Option Error → NameEvent

-- The calls on an open file do not change names.
pub record IsQuiet {W : Type 0} (trace : W → List NameEvent) (file : WorkspaceFile W) : Type 0 where
  pub chmod_eq : (mode : ℕ) (w : W) → trace ((file.chmod mode w).1) ≡ trace w
  pub write_eq : (bytes : List ℕ) (w : W) → trace ((file.write bytes w).1) ≡ trace w
  pub sync_eq : (w : W) → trace ((file.sync w).1) ≡ trace w
  pub close_eq : (w : W) → trace ((file.close w).1) ≡ trace w

-- What a call of CreateTemp leaves.
unfoldable pub IsMade :
    {W : Type 0} → (W → List NameEvent) → W → Result (WorkspaceFile W) → W → Type 0
IsMade trace w (err e) w' = trace w' ≡ trace w
IsMade trace w (ok file) w' = IsQuiet trace file × (trace w' ≡ trace w ++ made file.name ∷ [])

-- The trace has what the calls of the file system do to names: a link that fails does nothing.
pub record IsTracedFs {W : Type 0} (trace : W → List NameEvent) (fs : WorkspaceFs W) : Type 0 where
  pub lstat_eq : (path : String) (w : W) → trace ((fs.lstat path w).1) ≡ trace w
  pub create_temp_eq :
      (directory pattern : String) (w : W)
      → IsMade trace w (fs.create_temp directory pattern w).0 (fs.create_temp directory pattern w).1
  pub link_eq :
      (old new : String) (w : W)
      → (fs.link old new w).0 ≡ none
      → trace ((fs.link old new w).1) ≡ trace w ++ linked old new ∷ []
  pub not_linked_eq :
      (old new : String) (w : W) (e : Error)
      → (fs.link old new w).0 ≡ some e
      → trace ((fs.link old new w).1) ≡ trace w
  pub remove_eq :
      (path : String) (w : W)
      → trace ((fs.remove path w).1) ≡ trace w ++ removes path (fs.remove path w).0 ∷ []

-- Whether the file counts as created, beside what Remove returned for the temporary file and what the
-- caller is told. Before publication a Remove that failed is told, but for one that says that there was
-- nothing to remove; after it, every one is told, and nothing else.
pub data IsCleaned : Bool → Option Error → Option Error → Type 0 where
  gone : (failed : Option Error) → IsCleaned false none failed
  absent :
      (e : Error) (failed : Option Error)
      → is e Sentinel.not_exist ≡ true
      → IsCleaned false (some e) failed
  kept : (e told : Error) → IsCleaned false (some e) (some told)
  finished : IsCleaned true none none
  left_over :
      (e : Error) → IsCleaned true (some e) (some (wrap "remove published temporary file" e))

-- What `createWorkspaceFile` does to names: nothing; a temporary file for which Remove is called; or one
-- that got the name of the file, for which Remove is then called under its own. Only then the file
-- counts as created.
pub data IsCreated {W : Type 0} (trace : W → List NameEvent) (path : String) (w : W)
    : (Bool × Option Error) × W → Type 0 where
  untouched :
      (failed : Option Error) (w' : W)
      → trace w' ≡ trace w
      → IsCreated trace path w ((false, failed), w')
  abandoned :
      (temp_path : String) (tried failed : Option Error) (w' : W)
      → trace w' ≡ trace w ++ made temp_path ∷ removes temp_path tried ∷ []
      → IsCleaned false tried failed
      → IsCreated trace path w ((false, failed), w')
  published :
      (temp_path : String) (tried failed : Option Error) (w' : W)
      → trace w' ≡ trace w ++ made temp_path ∷ linked temp_path path ∷ removes temp_path tried ∷ []
      → IsCleaned true tried failed
      → IsCreated trace path w ((true, failed), w')

pub ℤ-cases : (i : ℤ) → ((n : ℕ) × (i ≡ ℤ.pos n)) ⊎ ((n : ℕ) × (i ≡ ℤ.negsuc n))
ℤ-cases (ℤ.pos n) = inl (n, refl)
ℤ-cases (ℤ.negsuc n) = inr (n, refl)
