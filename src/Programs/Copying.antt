-- ===== src/Programs/Copying.antt =====
-- The loop that Projects/OS161/bin/cat/cat.c and Projects/OS161/bin/cp/cp.c have in common.
use windborne.Base.{ℕ, zero, suc, List, [], ◌∷◌, take, drop, String, if◌then◌else◌, true, false}
use windborne.Base.Int.{ℤ, pos, ltb_ℤ, pos_part}
use windborne.Programs.Process.{Calls, Run, returns, exits, unfinished, ◌>>=◌}

-- `sizeof(buf)`
abbrev pub bufsize : ℕ
bufsize = 1024

module _ (C : Calls) where
  abbrev pub err : String → List String → C.World → Run C.World
  err format args w = exits 1 (C.print_error format args w)

  -- The inner loop, with `failed` the `err` of a failed write and `left` the bytes from `buf+wrtot` on, of which there are `len-wrtot`.
  unfoldable pub write_loop : ℕ → (C.World → Run C.World) → ℤ → List ℕ → C.World → Run C.World
  write_loop n failed fd [] w = returns w
  write_loop zero failed fd (b ∷ left) w = unfinished
  write_loop (suc n) failed fd (b ∷ left) w =
      let r = C.write fd (b ∷ left) w in
      elim (ltb_ℤ r.0 (pos 0)) [
        | true ↦ failed r.1
        | false ↦ write_loop n failed fd (drop (pos_part r.0) (b ∷ left)) r.1
      ]

  -- The outer loop, with the two calls of `err`, and the test of `len` behind it.
  unfoldable pub copy_loop :
      ℕ → (C.World → Run C.World) → (C.World → Run C.World) → ℤ → ℤ → C.World → Run C.World
  copy_loop zero read_failed write_failed in_fd out_fd w = unfinished
  copy_loop (suc n) read_failed write_failed in_fd out_fd w =
      let r = C.read in_fd bufsize w in
      elim (ltb_ℤ (pos 0) r.0) [
        | true ↦
            write_loop (pos_part r.0) write_failed out_fd (take (pos_part r.0) r.1) r.2
            >>= copy_loop n read_failed write_failed in_fd out_fd
        | false ↦ if ltb_ℤ r.0 (pos 0) then read_failed r.2 else returns r.2
      ]
