-- ===== src/Workspace/Written.antt =====
-- cmd/oryxos/workspace.go: `writeWorkspaceContent`.
use oryxos_go.Common.{
  ℕ, zero, suc, ◌≤◌, ◌<◌, ◌≡◌, sym, ap, ◌∙◌, inl, inr, Option, none, List, [], ◌∷◌, ◌++◌, false,
  append_assoc, append-nil, Option-cases, if_elim, ◌==◌, ltb, length, drop, take, take-append-drop,
  length-drop, arith,
}
use oryxos_go.Common.Int.{ℤ}
use oryxos_go.Go.Error.{Error}
use oryxos_go.Workspace.{WorkspaceFile, write_loop, write_workspace_content}
use oryxos_go.Workspace.Temporary.{ℤ-cases}

-- A write appends as many of the bytes as it tells, where it tells a number that can be.
pub record IsAppending {W : Type 0} (written : W → List ℕ) (file : WorkspaceFile W) : Type 0 where
  pub write_eq :
      (bytes : List ℕ) (n : ℕ) (w : W)
      → (file.write bytes w).0.0 ≡ ℤ.pos n
      → n ≤ length bytes
      → written ((file.write bytes w).1) ≡ written w ++ take n bytes

not_zero : (n : ℕ) → (n == 0) ≡ false → 1 ≤ n
not_zero zero h = cc
not_zero (suc n) h = omega arith

not_longer : (n k : ℕ) → ltb k n ≡ false → n ≤ k
not_longer n k h = grind (arith, h)

module _ {W : Type 0} (written : W → List ℕ) (file : WorkspaceFile W)
    (appending : IsAppending written file) where
  write_loop-written :
      (writes : ℕ) (content : List ℕ) (w : W)
      → length content < writes
      → (write_loop writes file content w).0 ≡ none
      → written ((write_loop writes file content w).1) ≡ written w ++ content
  unfolding write_loop
  write_loop-written zero content w h = absurd (omega (arith, h))
  write_loop-written (suc writes) [] w h = λ done. sym (append-nil (written w))
  write_loop-written (suc writes) (b ∷ bs) w h = elim (ℤ-cases ((file.write (b ∷ bs) w).0.0)) [
    | inr (n, eq) ↦ rw (eq, write_loop) (λ done. cc)
    | inl (n, eq) ↦
        rw (eq, write_loop)
          (if_elim P (ltb (length (b ∷ bs)) n) _ _ (λ h1 done. cc)
            (λ h1. elim (Option-cases ((file.write (b ∷ bs) w).0.1)) [
              | inr (e, failed) ↦ rw failed (λ done. cc)
              | inl fine ↦ rw fine (
                  if_elim P (n == 0) _ _ (λ h2 done. cc)
                    (λ h2 done.
                      write_loop-written writes (drop n (b ∷ bs)) _
                        (omega (arith, h, not_zero n h2, length-drop {0} n (b ∷ bs))) done
                      ∙ ap (λ (t : List ℕ). t ++ drop n (b ∷ bs))
                          (appending.write_eq (b ∷ bs) n w eq (not_longer n (length (b ∷ bs)) h1))
                      ∙ append_assoc (written w) _ _
                      ∙ ap (λ (t : List ℕ). written w ++ t) (take-append-drop n (b ∷ bs))))
            ]))
  ]
    where
      P : Option Error × W → Type 0
      P out = out.0 ≡ none → written out.1 ≡ written w ++ (b ∷ bs)

  -- Where `writeWorkspaceContent` gives no error, all of the content was written, in order and once,
  -- however many bytes each write takes: its loop ends, as each write takes a byte at least.
  pub write_workspace_content-written :
      (content : List ℕ) (w : W)
      → (write_workspace_content file content w).0 ≡ none
      → written ((write_workspace_content file content w).1) ≡ written w ++ content
  unfolding write_workspace_content
  write_workspace_content-written content w =
      write_loop-written (suc (length content)) content w (omega arith)
