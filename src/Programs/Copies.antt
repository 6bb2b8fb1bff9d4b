-- ===== src/Programs/Copies.antt =====
-- Whole runs of Projects/OS161/bin/cat/cat.c and Projects/OS161/bin/cp/cp.c.
use windborne.Base.{ℕ, ◌<◌, ◌≡◌, refl, ◌∙◌, ap, [], ◌∷◌, ◌++◌, length, String, false}
use windborne.Base.Int.{ℤ, pos, ltb_ℤ}
use windborne.Programs.Process.{Calls, returns}
use windborne.Programs.Copying.{err}
use windborne.Programs.Transfers.{Serves, copy_loop_lem}
use windborne.Programs.Cat.{docat}
use windborne.Programs.Cp.{copy}

module _ (C : Calls) where
  -- `docat` on a file whose reads and the writes to the standard output do not fail, with fuel for each byte that is left and one more
  -- round, returns, and has written those bytes, in their order, behind what the standard output had.
  pub docat_lem :
      (fd : ℤ) (S : Serves C fd (pos 1)) (fuel : ℕ) (name : String) (w : C.World)
      → length (S.unread w) < fuel
      → (u : C.World) × (docat C fuel name fd w ≡ returns u)
        × (S.written u ≡ S.written w ++ S.unread w)
        × (S.unread u ≡ [])
  unfolding docat
  docat_lem fd S fuel name w h =
      let all =
        copy_loop_lem C fd (pos 1) S fuel (err C "%s" (name ∷ [])) (err C "stdout" []) w h in
      (all.world, all.result, all.output, all.input)

  module _ (in_fd out_fd : ℤ) (S : Serves C in_fd out_fd) where
    -- `close` does not fail and leaves the files as they are.
    pub record Closes (fd : ℤ) : Type 0 where
      pub closed : (w : C.World) → ltb_ℤ (C.close fd w).0 (pos 0) ≡ false
      pub close_keeps : (w : C.World) → S.written (C.close fd w).1 ≡ S.written w

    -- Where both files open, the reads, the writes and the calls of `close` do not fail, and the new file starts empty, `copy`, with fuel for each byte of the old
    -- file and one more round, returns, and what stands in the new file is what was to be read from the old one.
    pub copy_lem :
        (fuel : ℕ) (from to : String) (w w1 w2 : C.World)
        → C.open_read from w ≡ (in_fd, w1)
        → ltb_ℤ in_fd (pos 0) ≡ false
        → C.open_write to w1 ≡ (out_fd, w2)
        → ltb_ℤ out_fd (pos 0) ≡ false
        → Closes in_fd
        → Closes out_fd
        → S.written w2 ≡ []
        → length (S.unread w2) < fuel
        → (u : C.World) × (copy C fuel from to w ≡ returns u) × (S.written u ≡ S.unread w2)
    unfolding copy
    copy_lem fuel from to w w1 w2 opened in_ok created out_ok k1 k2 empty h =
        let all =
          copy_loop_lem C in_fd out_fd S fuel (err C "%s" (from ∷ [])) (err C "%s" (to ∷ [])) w2
            h in
        let u1 = (C.close in_fd all.world).1 in
        (
          (C.close out_fd u1).1,
          rw (copy, opened, in_ok, created, out_ok, all.result, k1.closed all.world, k2.closed u1)
              refl,
          k2.close_keeps u1
              ∙ k1.close_keeps all.world
              ∙ all.output
              ∙ ap (λ l. l ++ S.unread w2) empty,
        )
