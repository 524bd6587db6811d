-- ===== src/Workspace.antt =====
-- cmd/oryxos/workspace.go: the directories and files of a workspace, made where they are missing. The
-- file system and the writer of the report are parameters, as are `filepath.Join` and `filepath.Dir`.
-- The contents are in ASCII.
pub mod Temporary
pub mod Written
pub mod Initialize
use Prim.Native.Char.{code}
use Prim.Native.String
use oryxos_go.Common.{
  ℕ, zero, suc, ◌/◌, ◌%◌, String, Option, none, some, List, [], ◌∷◌, ◌++◌, Bool, true, false, not,
  ◌&&◌, ◌||◌, ltb, ◌==◌, if◌then◌else◌, length, drop, map, is_some,
}
use oryxos_go.Common.Int.{ℤ}
use oryxos_go.Go.Text.{◌⊕◌, itoa, base}
use oryxos_go.Go.Scan.{sort_texts}
use oryxos_go.Go.Error.{Error, Sentinel, leaf, wrap, sentinel, is, join_errors}
use oryxos_go.Go.Effect.{Result, ok, err, Exec}

-- os.FileInfo
pub record FileInfo : Type 0 where
  pub is_symlink : Bool
  pub is_dir : Bool
  pub is_regular : Bool
  pub perm : ℕ

-- `workspaceFile`; `write` tells how many bytes it has written.
pub record WorkspaceFile (W : Type 0) : Type 0 where
  pub name : String
  pub chmod : ℕ → W → Option Error × W
  pub write : List ℕ → W → (ℤ × Option Error) × W
  pub sync : W → Option Error × W
  pub close : W → Option Error × W

-- `workspaceFS`
pub record WorkspaceFs (W : Type 0) : Type 0 where
  pub lstat : String → Exec W FileInfo
  pub mkdir : String → ℕ → W → Option Error × W
  pub chmod : String → ℕ → W → Option Error × W
  pub create_temp : String → String → Exec W (WorkspaceFile W)
  pub link : String → String → W → Option Error × W
  pub remove : String → W → Option Error × W
  pub join_path : String → String → String
  pub dir : String → String

-- `workspaceDirectories`
abbrev pub workspace_directories : List String
workspace_directories = "profiles" ∷ "sessions" ∷ "skills" ∷ "logs" ∷ "memory" ∷ []

abbrev octal4 : ℕ → String
unfolding itoa
octal4 n = "0" ⊕ itoa (n / 64 % 8) ⊕ itoa (n / 8 % 8) ⊕ itoa (n % 8)

-- `cleanupError`
unfoldable pub cleanup_error : String → Option Error → Option Error
unfolding is
cleanup_error operation none = none
cleanup_error operation (some e) = if is e Sentinel.not_exist then none else some (wrap operation e)

abbrev pub as_bytes : String → List ℕ
as_bytes String.[] = []
as_bytes (String.◌∷◌ c s) = code c ∷ as_bytes s

-- The path exists: whether it is the directory that is wanted.
pub existing_directory : FileInfo → Bool × Option Error
unfolding itoa
existing_directory info =
    if info.is_symlink
    then (false, some (leaf "existing path is a symlink"))
    else if not info.is_dir
    then (false, some (leaf "existing path is not a directory"))
    else if not (info.perm == 0o750)
    then (
      false,
      some (leaf ("existing directory permissions are " ⊕ octal4 info.perm ⊕ ", want 0750")),
    )
    else (false, none)

-- `existingWorkspaceFile` after the call of Lstat.
pub existing_file : Result FileInfo → Bool × Option Error
unfolding is
existing_file (err e) = if is e Sentinel.not_exist then (false, none) else (false, some e)
existing_file (ok info) =
    if info.is_symlink
    then (false, some (leaf "existing path is a symlink"))
    else if not info.is_regular
    then (false, some (leaf "existing path is not a regular file"))
    else (true, none)

module _ {W : Type 0} (fs : WorkspaceFs W) where
  abbrev made_directory : String → Option Error → W → (Bool × Option Error) × W
  unfolding cleanup_error
  made_directory path none w = ((true, none), w)
  made_directory path (some e) w =
      let (left, w') = fs.remove path w in
      (
        (false, join_errors (some e) (cleanup_error "remove directory after chmod failure" left)),
        w',
      )

  -- `ensureWorkspaceDirectory`, of at most so many calls; none where others still make and remove the
  -- directory between the calls of Lstat and Mkdir.
  pub ensure_workspace_directory : ℕ → String → W → Option ((Bool × Option Error) × W)
  unfolding existing_directory cleanup_error is
  ensure_workspace_directory zero path w = none
  ensure_workspace_directory (suc calls) path w =
      let (found, w1) = fs.lstat path w in
      elim found [
        | ok info ↦ some (existing_directory info, w1)
        | err e ↦
            if not (is e Sentinel.not_exist)
            then some ((false, some e), w1)
            else let (failed, w2) = fs.mkdir path 0o750 w1 in
              let again = ensure_workspace_directory calls path w2 in
              elim failed [
                | some e' ↦ if is e' Sentinel.exist then again else some ((false, some e'), w2)
                | none ↦
                    let (unset, w3) = fs.chmod path 0o750 w2 in some (made_directory path unset w3)
              ]
      ]

  -- `existingWorkspaceFile`
  pub existing_workspace_file : String → W → (Bool × Option Error) × W
  unfolding existing_file
  existing_workspace_file path w = let (found, w') = fs.lstat path w in (existing_file found, w')

  -- The call of Remove for the temporary file, joined to an error.
  pub remove_temporary : String → Option Error → W → (Bool × Option Error) × W
  unfolding cleanup_error
  remove_temporary temp_path failed w =
      let (left, w') = fs.remove temp_path w in
      ((false, join_errors failed (cleanup_error "remove temporary file" left)), w')

-- The loop of `writeWorkspaceContent`, of at most so many writes.
unfoldable pub write_loop : {W : Type 0} → ℕ → WorkspaceFile W → List ℕ → W → Option Error × W
write_loop zero file content w = (none, w)
write_loop (suc writes) file [] w = (none, w)
write_loop (suc writes) file (b ∷ bs) w =
    let ((written, failed), w') = file.write (b ∷ bs) w in
    elim written [
      | ℤ.negsuc n ↦ (some (sentinel Sentinel.short_write), w')
      | ℤ.pos n ↦
          let rest = write_loop writes file (drop n (b ∷ bs)) w' in
          if ltb (length (b ∷ bs)) n
          then (some (sentinel Sentinel.short_write), w')
          else elim failed [
            | some e ↦ (some e, w')
            | none ↦ if n == 0 then (some (sentinel Sentinel.short_write), w') else rest
          ]
    ]

-- `writeWorkspaceContent`
unfoldable pub write_workspace_content :
    {W : Type 0} → WorkspaceFile W → List ℕ → W → Option Error × W
unfolding write_loop
write_workspace_content file content w = write_loop (suc (length content)) file content w

abbrev pub when_failed : {A : Type 0} → Option Error → A → (Error → A) → A
when_failed none next failing = next
when_failed (some e) next failing = failing e

module _ {W : Type 0} (fs : WorkspaceFs W) where
  -- Chmod, the write, Sync and Close; beside the error, whether the file is still open.
  pub fill_file : WorkspaceFile W → List ℕ → W → (Option Error × Bool) × W
  unfolding write_workspace_content
  fill_file file content w =
      let (c, w1) = file.chmod 0o600 w in
      when_failed c
        (let (d, w2) = write_workspace_content file content w1 in
          when_failed d
            (let (e, w3) = file.sync w2 in
              when_failed e (let (f, w4) = file.close w3 in ((f, false), w4))
                (λ cause. ((some cause, true), w3)))
            (λ cause. ((some cause, true), w2)))
        (λ cause. ((some cause, true), w1))

  -- `cleanupBeforePublication`, or the removal where Close has failed.
  pub clean_up : WorkspaceFile W → Error → Bool → W → (Bool × Option Error) × W
  unfolding remove_temporary cleanup_error
  clean_up file cause false w = remove_temporary fs file.name (some cause) w
  clean_up file cause true w =
      let (left, w') = file.close w in
      remove_temporary fs file.name
        (join_errors (some cause) (cleanup_error "close temporary file" left)) w'

  -- After a link that failed; `left` is the error of the removal.
  pub not_linked : String → Error → Option Error → W → (Bool × Option Error) × W
  unfolding existing_workspace_file cleanup_error is
  not_linked path cause left w =
      let cleaned = cleanup_error "remove temporary file" left in
      let ((found, invalid), w') = existing_workspace_file fs path w in
      if is cause Sentinel.exist
      then (
        (
          false,
          join_errors
              (when_failed invalid
                (if found then none else some (leaf "publication target disappeared")) some)
              cleaned,
        ),
        w',
      )
      else ((false, join_errors (some cause) cleaned), w)

  abbrev pub removed_result : Option Error → Bool × Option Error
  removed_result none = (true, none)
  removed_result (some e) = (true, some (wrap "remove published temporary file" e))

  -- Link and what follows.
  pub publish : String → WorkspaceFile W → W → (Bool × Option Error) × W
  unfolding not_linked
  publish path file w =
      let (unlinked, w1) = fs.link file.name path w in
      let (left, w2) = fs.remove file.name w1 in
      when_failed unlinked (removed_result left, w2) (λ cause. not_linked path cause left w2)

  pub write_file : String → List ℕ → Result (WorkspaceFile W) → W → (Bool × Option Error) × W
  unfolding fill_file clean_up publish
  write_file path content (err e) w = ((false, some e), w)
  write_file path content (ok file) w =
      let ((failed, open_still), w') = fill_file file content w in
      when_failed failed (publish path file w') (λ cause. clean_up file cause open_still w')

  -- `createWorkspaceFile`
  unfoldable pub create_workspace_file : String → List ℕ → W → (Bool × Option Error) × W
  unfolding existing_workspace_file write_file base
  create_workspace_file path content w =
      let ((found, failed), w1) = existing_workspace_file fs path w in
      if is_some failed || found
      then ((false, failed), w1)
      else let (made, w2) = fs.create_temp (fs.dir path) ("." ⊕ base path ⊕ ".tmp-*") w1 in
        write_file path content made w2
