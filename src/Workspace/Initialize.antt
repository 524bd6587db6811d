-- ===== src/Workspace/Initialize.antt =====
-- cmd/oryxos/workspace.go: `InitializeWorkspace` and `WorkspaceStatus`.
use oryxos_go.Common.{
  ℕ, String, Option, none, some, List, [], ◌∷◌, Bool, true, false, not, ◌&&◌, ◌==◌, if◌then◌else◌,
  lookup, map,
}
use oryxos_go.Go.Text.{◌⊕◌}
use oryxos_go.Go.Scan.{sort_texts}
use oryxos_go.Go.Error.{Error, wrap}
use oryxos_go.Go.Effect.{Result, ok, err}
use oryxos_go.Workspace.{
  FileInfo, WorkspaceFs, workspace_directories, as_bytes, ensure_workspace_directory,
  create_workspace_file, when_failed,
}

-- `defaultProfileYAML`
abbrev pub default_profile_yaml : String
default_profile_yaml =
    "name: default\ndescription: Default OryxOS profile\n\nidentity:\n  agent_name: Oryx\n  prompt: You are a helpful enterprise assistant.\n\nprovider:\n  name: deepseek\n  model: deepseek-flash\n  temperature: 0.3\n\ntools:\n  - read_file\n  - write_file\n  - list_dir\n  - shell\n  - http_get\n  - http_post\n  - save_memory\n  - recall_memory\n  - notify\n\nskills: []\nmcp_servers: []\nnotify_channels: []\nschedules: []\nchannels:\n  - name: cli\n    config: {}\nbootstrap:\n  - AGENTS.md\n  - SOUL.md\n  - USER.md\nsettings:\n  max_iterations: 10\n  max_history_turns: 20\n"

-- `workspaceFiles`
abbrev pub workspace_files : List (String × String)
workspace_files =
    ("AGENTS.md", "# Project Instructions\n")
    ∷ ("SOUL.md", "# Agent Personality\n")
    ∷ ("USER.md", "# User Preferences\n")
    ∷ ("memory/MEMORY.md", "")
    ∷ ("mcp_servers.yaml", "servers: []\n")
    ∷ ("profiles/default.yaml", default_profile_yaml)
    ∷ []

-- `creationResult`
abbrev pub creation_result : Bool → String
creation_result created = if created then "created" else "skipped"

abbrev pub text_or_empty : Option String → String
text_or_empty none = ""
text_or_empty (some t) = t

module _ {W : Type 0} (fs : WorkspaceFs W) (write_line : String → W → Option Error × W) where
  -- The loop over the directories; beside the error, the results so far.
  pub make_directories :
      ℕ
      → String
      → List String
      → List (String × String)
      → W
      → Option ((Option Error × List (String × String)) × W)
  make_directories calls workspace [] results w = some ((none, results), w)
  make_directories calls workspace (directory ∷ directories) results w =
      elim (ensure_workspace_directory fs calls (fs.join_path workspace directory) w) [
        | none ↦ none
        | some ((created, failed), w') ↦
            let rest =
              make_directories calls workspace directories
                ((directory, creation_result created) ∷ results) w' in
            when_failed failed rest
              (λ e. some ((some (wrap ("create workspace directory " ⊕ directory) e), results), w'))
      ]

  -- The loop over the files, in the order of their paths.
  pub make_files :
      String
      → List String
      → List (String × String)
      → W
      → (Option Error × List (String × String)) × W
  unfolding create_workspace_file
  make_files workspace [] results w = ((none, results), w)
  make_files workspace (path ∷ paths) results w =
      let ((created, failed), w') =
        create_workspace_file fs (fs.join_path workspace path)
          (as_bytes (text_or_empty (lookup path workspace_files))) w in
      let rest = make_files workspace paths ((path, creation_result created) ∷ results) w' in
      when_failed failed rest
        (λ e. ((some (wrap ("create workspace file " ⊕ path) e), results), w'))

  -- The report, in the order of the targets.
  pub report_results : List (String × String) → List String → W → Option Error × W
  report_results results [] w = (none, w)
  report_results results (target ∷ targets) w =
      let (failed, w') =
        write_line (text_or_empty (lookup target results) ⊕ " " ⊕ target ⊕ "\n") w in
      let rest = report_results results targets w' in when_failed failed rest (λ e. (some e, w'))

  pub after_directories :
      String → Option ((Option Error × List (String × String)) × W) → Option (Option Error × W)
  unfolding make_files report_results sort_texts
  after_directories workspace none = none
  after_directories workspace (some ((failed, results), w)) =
      let ((failed', results'), w') =
        make_files workspace (sort_texts (map (λ (f : String × String). f.0) workspace_files))
          results w in
      some (
        when_failed failed
          (when_failed failed'
            (report_results results' (sort_texts (map (λ (f : String × String). f.0) results')) w')
            (λ e. (some e, w')))
          (λ e. (some e, w)))

  -- `initializeWorkspace`, where each directory is tried so many times at most; none where one still
  -- appears and disappears.
  unfoldable pub initialize_workspace : ℕ → String → W → Option (Option Error × W)
  unfolding after_directories make_directories ensure_workspace_directory
  initialize_workspace calls root w =
      let workspace = fs.join_path root ".oryxos" in
      elim (ensure_workspace_directory fs calls workspace w) [
        | none ↦ none
        | some ((created, failed), w') ↦
            let rest =
              after_directories workspace
                (make_directories calls workspace workspace_directories [] w') in
            when_failed failed rest (λ e. some (some (wrap "create workspace root" e), w'))
      ]

-- `isWorkspaceDirectory` and `isWorkspaceFile`, after the call of Lstat.
abbrev pub is_workspace_directory : Result FileInfo → Bool
is_workspace_directory (err e) = false
is_workspace_directory (ok info) = not info.is_symlink && info.is_dir && (info.perm == 0o750)

abbrev pub is_workspace_file : Result FileInfo → Bool
is_workspace_file (err e) = false
is_workspace_file (ok info) = not info.is_symlink && info.is_regular

abbrev pub all_of : {A : Type 0} → (A → Bool) → List A → Bool
all_of test [] = true
all_of test (x ∷ xs) = test x && all_of test xs

-- `WorkspaceStatus`, where `lstat` does not change between its calls: whether it is initialized.
unfoldable pub workspace_status :
    (String → String → String) → (String → Result FileInfo) → String → Bool
workspace_status join_path lstat root =
    let workspace = join_path root ".oryxos" in
    is_workspace_directory (lstat workspace)
    && all_of (λ d. is_workspace_directory (lstat (join_path workspace d))) workspace_directories
    && all_of (λ (f : String × String). is_workspace_file (lstat (join_path workspace f.0)))
        workspace_files
