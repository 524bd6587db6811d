-- ===== src/Tests/Workspace.antt =====
-- A file system whose world is the list of what happened to names; and a file that takes two bytes at
-- a time, whose world is what was written.
use oryxos_go.Common.Int.{pos_part}
use oryxos_go.Common.{ap, ℕ, ◌≡◌, refl, none, some, List, [], ◌∷◌, ◌++◌, false, length, take}
use oryxos_go.Common.Int.{ℤ}
use oryxos_go.Go.Error.{Sentinel, leaf, sentinel}
use oryxos_go.Go.Effect.{ok, err}
use oryxos_go.Workspace.{
  WorkspaceFile, WorkspaceFs, create_workspace_file, write_workspace_content, as_bytes, write_loop,
}
use oryxos_go.Workspace.Temporary.{NameEvent, made, removes}
use oryxos_go.Workspace.Written.{IsAppending, write_workspace_content-written}

abbrev quiet_file : WorkspaceFile (List NameEvent)
quiet_file = record {
  name = ".a.tmp-1";
  chmod = λ mode w. (none, w);
  write = λ bytes w. ((ℤ.pos (length bytes), none), w);
  sync = λ w. (none, w);
  close = λ w. (none, w);
}

abbrev files : WorkspaceFs (List NameEvent)
files = record {
  lstat = λ path w. (err (sentinel Sentinel.not_exist), w);
  mkdir = λ path mode w. (none, w);
  chmod = λ path mode w. (none, w);
  create_temp = λ directory pattern w. (ok quiet_file, w ++ made ".a.tmp-1" ∷ []);
  link = λ old new w. (some (sentinel Sentinel.exist), w);
  remove = λ path w. (none, w ++ removes path none ∷ []);
  join_path = λ directory name. name;
  dir = λ path. "";
}

target_disappears : create_workspace_file files "a" (as_bytes "hi") [] ≡ (
  (false, some (leaf "publication target disappeared")),
  made ".a.tmp-1" ∷ removes ".a.tmp-1" none ∷ [],
)
unfolding create_workspace_file
target_disappears = refl

abbrev up_to_two : List ℕ → ℕ
up_to_two [] = 0
up_to_two (b ∷ []) = 1
up_to_two (b ∷ c ∷ bs) = 2

abbrev slow_file : WorkspaceFile (List ℕ)
slow_file = record {
  name = "f";
  chmod = λ mode w. (none, w);
  write = λ bytes w. ((ℤ.pos (up_to_two bytes), none), w ++ take (up_to_two bytes) bytes);
  sync = λ w. (none, w);
  close = λ w. (none, w);
}

slow_file-IsAppending : IsAppending (λ w. w) slow_file
slow_file-IsAppending = record {
  write_eq = λ bytes n w h bound. ap (λ (i : ℤ). w ++ take (pos_part i) bytes) h;
}

slow_run : (write_workspace_content slow_file (as_bytes "abc") (as_bytes "-")).0 ≡ none
unfolding write_workspace_content write_loop
slow_run = refl

write_workspace_content-written_example :
    (write_workspace_content slow_file (as_bytes "abc") (as_bytes "-")).1
    ≡ as_bytes "-" ++ as_bytes "abc"
write_workspace_content-written_example =
    write_workspace_content-written (λ w. w) slow_file slow_file-IsAppending (as_bytes "abc")
      (as_bytes "-") slow_run
