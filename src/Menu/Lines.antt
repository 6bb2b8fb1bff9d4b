-- ===== src/Menu/Lines.antt =====
-- What `menu_execute` of Projects/OS161/kern/main/menu.c does with a line.
use windborne.Base.{
  ℕ, zero, suc, ◌<◌, ◌↔◌, ◌≡◌, refl, sym, ◌∙◌, ap, arith, ◌==◌, Bool, true, false, List, [], ◌∷◌,
  length, Outcome, ok, panic, panicked, idle, out_of_fuel, ◌>>=◌, if◌then◌else◌, Bool-cases, inl,
  inr, fun_ext,
}
use windborne.Menu.Words.{Bytes}
use windborne.Menu.Environment.{text, Options, Kernel}
use windborne.Menu.Dispatch.{semicolon, cmd_dispatch, execute_command, execute_loop, menu_execute}
use windborne.Menu.Splitting.{words, strtok_r_lem}

module _ (K : Kernel) (O : Options) where
  abbrev run_each : Bool → List Bytes → K.World → Outcome K.World
  run_each isargs [] w = ok w
  run_each isargs (command ∷ commands) w =
      execute_command K O isargs command w >>= run_each isargs commands

  execute_loop_lem :
      (n : ℕ) (s : Bytes) (isargs : Bool)
      → length s < n
      → (w : K.World) → execute_loop K O n s isargs w ≡ run_each isargs (words semicolon s) w
  unfolding execute_loop
  execute_loop_lem zero s isargs h w = absurd (omega arith)
  execute_loop_lem (suc n) s isargs h w = elim (strtok_r_lem semicolon s) [
    | inl (e, empty) ↦ rw (execute_loop, e, empty) refl
    | inr (t, e, next) ↦
        rw (execute_loop, e, next.word)
          (ap (λ k. execute_command K O isargs t.0 w >>= k)
            (fun_ext (execute_loop_lem n t.1 isargs (omega (arith, next.shorter)))))
  ]

  executes :
      (line : Bytes) (isargs : Bool) (w : K.World)
      → menu_execute K O line isargs w ≡ run_each isargs (words semicolon line) w
  unfolding menu_execute
  executes line isargs w = execute_loop_lem (suc (length line)) line isargs (omega arith) w

  -- Each command is run in the world that the one before it leaves; the result of one that fails is printed.
  abbrev pub typed : List Bytes → K.World → Outcome K.World
  typed [] w = ok w
  typed (command ∷ commands) w = cmd_dispatch K O command w >>= λ r. typed commands (
      if r.0 == 0
      then r.1
      else K.kprintf "Menu command failed: %s\n" (text (K.strerror r.0) ∷ []) r.1)

  report :
      (o : Outcome (ℕ × K.World)) (then_do : K.World → Outcome K.World)
      → ((o >>= λ r.
            if r.0 == 0
            then ok r.1
            else if false
            then panic panicked
            else ok (K.kprintf "Menu command failed: %s\n" (text (K.strerror r.0) ∷ []) r.1))
          >>= then_do)
        ≡ (o >>= λ r. then_do (
            if r.0 == 0
            then r.1
            else K.kprintf "Menu command failed: %s\n" (text (K.strerror r.0) ∷ []) r.1))
  report out_of_fuel then_do = refl
  report idle then_do = refl
  report (panic fault) then_do = refl
  report (ok r) then_do = elim (Bool-cases (r.0 == 0)) [ inl e ↦ rw e refl | inr e ↦ rw e refl ]

  typed_lem : (commands : List Bytes) (w : K.World) → run_each false commands w ≡ typed commands w
  unfolding execute_command
  typed_lem [] w = refl
  typed_lem (command ∷ commands) w =
      report (cmd_dispatch K O command w) (run_each false commands)
      ∙ ap
          (λ k. cmd_dispatch K O command w >>= λ r. k (
            if r.0 == 0
            then r.1
            else K.kprintf "Menu command failed: %s\n" (text (K.strerror r.0) ∷ []) r.1))
          (fun_ext (typed_lem commands))

  -- A line that is typed is split at its semicolons, and each command is run in turn, whether or not the ones before it
  -- have failed; empty commands are left out. The loop always comes to its end.
  pub menu_execute-typed :
      (line : Bytes) (w : K.World) → menu_execute K O line false w ≡ typed (words semicolon line) w
  menu_execute-typed line w = executes line false w ∙ typed_lem (words semicolon line) w

  -- Every command is printed and gives the result 0, in turn, from `w` to `u`.
  abbrev pub Succeed : List Bytes → K.World → K.World → Type 0
  Succeed [] w u = w ≡ u
  Succeed (command ∷ commands) w u =
      (v : K.World) × (cmd_dispatch K O command
          (K.kprintf "OS/161 kernel: %s\n" (text command ∷ []) w)
        ≡ ok (0, v))
      × Succeed commands v u

  succeeded :
      (o : Outcome (ℕ × K.World)) (then_do : K.World → Outcome K.World) (u : K.World)
      → ((o >>= λ r.
            if r.0 == 0
            then ok r.1
            else if true
            then panic panicked
            else ok (K.kprintf "Menu command failed: %s\n" (text (K.strerror r.0) ∷ []) r.1))
          >>= then_do)
        ≡ ok u
      → (v : K.World) × (o ≡ ok (0, v)) × (then_do v ≡ ok u)
  succeeded out_of_fuel then_do u e = cc
  succeeded idle then_do u e = cc
  succeeded (panic fault) then_do u e = cc
  succeeded (ok (result, v)) then_do u e = elim (Bool-cases (result == 0)) [
    | inl zero_result ↦ (v, ap (λ n. ok (n, v)) (ground arith), rw zero_result at e)
    | inr failed ↦ let never : panic panicked ≡ ok u = rw failed at e in cc
  ]

  booted_to :
      (commands : List Bytes) (w u : K.World)
      → run_each true commands w ≡ ok u
      → Succeed commands w u
  unfolding execute_command
  booted_to [] w u e = cc
  booted_to (command ∷ commands) w u e =
      let k =
        succeeded (cmd_dispatch K O command (K.kprintf "OS/161 kernel: %s\n" (text command ∷ []) w))
          (run_each true commands) u e in
      (k.0, k.1, booted_to commands k.0 u k.2)

  booted_from :
      (commands : List Bytes) (w u : K.World)
      → Succeed commands w u
      → run_each true commands w ≡ ok u
  unfolding execute_command
  booted_from [] w u e = ap (λ x. ok x) e
  booted_from (command ∷ commands) w u (v, e, rest) = rw e (booted_from commands v u rest)

  -- The kernel's command line ends in a world `u` exactly if each of its commands, in turn, was
  -- printed and gave the result 0, from `w` to `u`; a command that fails stops the kernel.
  pub menu_execute_booted :
      (line : Bytes) (w u : K.World)
      → (menu_execute K O line true w ≡ ok u) ↔ Succeed (words semicolon line) w u
  menu_execute_booted line w u = (
    λ e. booted_to (words semicolon line) w u (sym (executes line true w) ∙ e),
    λ k. executes line true w ∙ booted_from (words semicolon line) w u k,
  )
