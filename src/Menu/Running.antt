-- ===== src/Menu/Running.antt =====
-- What `cmd_dispatch` and `menu_execute` of Projects/OS161/kern/main/menu.c do with a text.
use windborne.Base.{
  ℕ, suc, ◌+◌, ◌<◌, ◌≤◌, ◌⊎◌, ◌≡◌, refl, subst, ◌∙◌, ap, arith, true, false, List, [], ◌∷◌, length,
  leb, leb→le, none, some, Outcome, ok, if◌then◌else◌, Bool-cases, inl, inr,
}
use windborne.Memory.Fault.{einval}
use windborne.Menu.Words.{Bytes, bytes_eq}
use windborne.Menu.Environment.{text, Options, Kernel}
use windborne.Menu.Commands.{Command, print}
use windborne.Menu.Dispatch.{blanks, cmdtable, run_timed, run_entry, run_words, cmd_dispatch, e2big}
use windborne.Menu.Splitting.{words, strtok_r_lem, collect_lem}

module _ (K : Kernel) (O : Options) where
  -- No entry of a table has the name.
  abbrev pub Missing : Bytes → List (Bytes × Command K O) → Type 0
  Missing name [] = Unit
  Missing name (e ∷ table) = (bytes_eq name e.0 ≡ false) × Missing name table

  -- The first entry with the name has the function.
  abbrev pub First : Bytes → Command K O → List (Bytes × Command K O) → Type 0
  First name func [] = ⊥
  First name func (e ∷ table) =
      ((bytes_eq name e.0 ≡ true) × (e.1 ≡ func))
      ⊎ ((bytes_eq name e.0 ≡ false) × First name func table)

  module _ (c : ℕ) (r : Bytes) (args : List Bytes) (w : K.World) where
    -- What the loop over a table comes to, for a name that is not empty.
    abbrev Looks : List (Bytes × Command K O) → Outcome (ℕ × K.World) → Type 0
    Looks table o =
        (Missing (c ∷ r) table
          × (o ≡ ok (einval, K.kprintf "%s: Command not found\n" (text (c ∷ r) ∷ []) w)))
        ⊎ ((func : Command K O) × First (c ∷ r) func table × (o ≡ run_timed K O func args w))

    later :
        (e : Bytes × Command K O) (table : List (Bytes × Command K O))
        (o o' : Outcome (ℕ × K.World))
        → bytes_eq (c ∷ r) e.0 ≡ false
        → o' ≡ o
        → Looks table o
        → Looks (e ∷ table) o'
    later e table o o' differs q (inl (none_there, result)) =
        inl ((differs, none_there), q ∙ result)
    later e table o o' differs q (inr (func, there, result)) =
        inr (func, inr (differs, there), q ∙ result)

    run_entry_lem :
        (table : List (Bytes × Command K O)) → Looks table (run_entry K O table (c ∷ r) args w)
    unfolding run_entry
    run_entry_lem [] = inl (tt, refl)
    run_entry_lem (([], func) ∷ table) = later ([], func) table _ _ refl refl (run_entry_lem table)
    run_entry_lem ((d ∷ entry, func) ∷ table) = elim (Bool-cases (bytes_eq (c ∷ r) (d ∷ entry))) [
      | inl same ↦ inr (func, inl (same, refl), rw same refl)
      | inr differs ↦
          later (d ∷ entry, func) table _ _ differs (rw differs refl) (run_entry_lem table)
    ]

  dispatch_words :
      (cmd : Bytes) (w : K.World)
      → cmd_dispatch K O cmd w
        ≡ run_words K O
            (if leb (length (words blanks cmd)) 16 then some (words blanks cmd) else none)
            w
  unfolding cmd_dispatch
  dispatch_words cmd w =
      let count : 0 + length (words blanks cmd) ≡ length (words blanks cmd) = omega arith in
      rw (collect_lem (suc (length cmd)) cmd [] (omega arith) (omega arith), count) refl

  -- The possible ends of `cmd_dispatch`.
  abbrev pub Dispatches : Bytes → K.World → Outcome (ℕ × K.World) → Type 0
  Dispatches cmd w o =
      ((16 < length (words blanks cmd))
        × (o ≡ ok (e2big, print K O "Command line has too many words\n" w)))
      ⊎ (((words blanks cmd ≡ []) × (o ≡ ok (0, w)))
          ⊎ ((name : Bytes) × (args : List Bytes) × (words blanks cmd ≡ name ∷ args)
              × (length (name ∷ args) ≤ 16)
              × ((Missing name (cmdtable K O)
                    × (o ≡ ok (einval, K.kprintf "%s: Command not found\n" (text name ∷ []) w)))
                  ⊎ ((func : Command K O) × First name func (cmdtable K O)
                      × (o ≡ run_timed K O func (name ∷ args) w)))))

  -- `cmd_dispatch` always comes to an end of its loops. It refuses a text of more than sixteen words, does nothing for a text without words,
  -- and otherwise looks the first word up in the command table: where no entry has it, the command is not found, and where
  -- one has, the function of the first such entry is run on all the words.
  pub cmd_dispatch_lem : (cmd : Bytes) (w : K.World) → Dispatches cmd w (cmd_dispatch K O cmd w)
  unfolding run_words
  cmd_dispatch_lem cmd w = elim (Bool-cases (leb (length (words blanks cmd)) 16)) [
    | inr many ↦ inl (ground arith, rw (dispatch_words cmd w, many) refl)
    | inl few ↦ elim (strtok_r_lem blanks cmd) [
      | inl (e, empty) ↦ inr (inl (empty, rw (dispatch_words cmd w, few, empty) refl))
      | inr (t, e, next) ↦
          let name : words blanks cmd ≡ (next.begun.0 ∷ next.begun.1) ∷ words blanks t.1 =
            next.word ∙ ap (λ word. word ∷ words blanks t.1) next.begun.2 in
          inr (
            inr (
              next.begun.0 ∷ next.begun.1,
              words blanks t.1,
              name,
              subst (λ l. length l ≤ 16) name (leb→le _ 16 few),
              rw (dispatch_words cmd w, few, name)
                  (run_entry_lem next.begun.0 next.begun.1 _ w (cmdtable K O)),
            ))
    ]
  ]
