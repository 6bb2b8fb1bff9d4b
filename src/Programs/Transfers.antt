-- ===== src/Programs/Transfers.antt =====
-- What the loop of Projects/OS161/bin/cat/cat.c and Projects/OS161/bin/cp/cp.c copies.
use windborne.Base.{
  ℕ, zero, suc, ◌<◌, ◌≤◌, ◌≡◌, ◌⊎◌, inl, inr, refl, sym, ◌∙◌, ap, arith, List, [], ◌∷◌, ◌++◌,
  append_assoc, append-nil, length, take, drop, take-append-drop, length-drop, true, false,
  length-append,
}
use windborne.Base.Int.{ℤ, pos, ltb_ℤ, pos_part}
use windborne.Programs.Process.{Calls, Run, returns}
use windborne.Programs.Copying.{bufsize, write_loop, copy_loop}

List-cases : (l : List ℕ) → (l ≡ []) ⊎ ((b : ℕ) × (bs : List ℕ) × (l ≡ b ∷ bs))
List-cases [] = inl refl
List-cases (b ∷ bs) = inr (b, bs, refl)

module _ (C : Calls) where
  -- What the manual pages say of `read` and `write` where no error occurs: `read` gives some of the bytes that are
  -- left, at most as many as were asked for, and none only at the end of the file; `write` writes some of its bytes.
  -- `unread` and `written` are the bytes that are left in the one file and that stand in the other.
  pub record Serves (in_fd out_fd : ℤ) : Type 0 where
    pub unread : C.World → List ℕ
    pub written : C.World → List ℕ
    pub read_count :
        (n : ℕ) (w : C.World) → (C.read in_fd n w).0 ≡ pos (length (C.read in_fd n w).1)
    pub read_bytes :
        (n : ℕ) (w : C.World) → unread w ≡ (C.read in_fd n w).1 ++ unread (C.read in_fd n w).2
    pub read_end : (n : ℕ) (w : C.World) → 0 < n → (C.read in_fd n w).1 ≡ [] → unread w ≡ []
    pub read_keeps : (n : ℕ) (w : C.World) → written (C.read in_fd n w).2 ≡ written w
    pub write_count :
        (b : ℕ) (bs : List ℕ) (w : C.World)
        → (k : ℕ) × ((C.write out_fd (b ∷ bs) w).0 ≡ pos (suc k)) × (k ≤ length bs)
    pub write_bytes :
        (b : ℕ) (bs : List ℕ) (w : C.World)
        → written (C.write out_fd (b ∷ bs) w).1
          ≡ written w ++ take (pos_part (C.write out_fd (b ∷ bs) w).0) (b ∷ bs)
    pub write_keeps :
        (b : ℕ) (bs : List ℕ) (w : C.World) → unread (C.write out_fd (b ∷ bs) w).1 ≡ unread w

  module _ (in_fd out_fd : ℤ) (S : Serves in_fd out_fd) where
    -- The run returns, with the bytes behind what was written and `rest` still to be read.
    pub record Writes (w : C.World) (bytes rest : List ℕ) (o : Run C.World) : Type 0 where
      pub world : C.World
      pub result : o ≡ returns world
      pub output : S.written world ≡ S.written w ++ bytes
      pub input : S.unread world ≡ rest

    write_loop-Writes :
        (n : ℕ) (failed : C.World → Run C.World) (left : List ℕ) (w : C.World)
        → length left ≤ n
        → Writes w left (S.unread w) (write_loop C n failed out_fd left w)
    unfolding write_loop
    write_loop-Writes n failed [] w h = record {
      world = w;
      result = refl;
      output = sym (append-nil (S.written w));
      input = refl;
    }
    write_loop-Writes zero failed (b ∷ left) w h = absurd (omega arith)
    write_loop-Writes (suc n) failed (b ∷ left) w h =
        let (k, count, short) = S.write_count b left w in
        let rest =
          write_loop-Writes n failed (drop k left) (C.write out_fd (b ∷ left) w).1
            (omega (arith, length-drop k left)) in
        let positive : ltb_ℤ (pos (suc k)) (pos 0) ≡ false = ground arith in
        record {
          world = rest.world;
          result = rw (write_loop, count, positive, count) rest.result;
          output =
              rest.output
              ∙ ap (λ l. l ++ drop k left)
                  (S.write_bytes b left w
                    ∙ ap (λ c. S.written w ++ take (pos_part c) (b ∷ left)) count)
              ∙ append_assoc (S.written w) (b ∷ take k left) (drop k left)
              ∙ ap (λ l. S.written w ++ b ∷ l) (take-append-drop k left);
          input = rest.input ∙ S.write_keeps b left w;
        }

    take_all : (xs : List ℕ) → take (length xs) xs ≡ xs
    take_all [] = refl
    take_all (x ∷ xs) = ap (λ l. x ∷ l) (take_all xs)

    -- A round that has read the bytes `bs`, `b` first.
    module _ (n : ℕ) (read_failed write_failed : C.World → Run C.World) (w : C.World) where
      abbrev after : C.World
      after = (C.read in_fd bufsize w).2

      last_round :
          (C.read in_fd bufsize w).1 ≡ []
          → Writes w (S.unread w) [] (copy_loop C (suc n) read_failed write_failed in_fd out_fd w)
      unfolding copy_loop
      last_round e =
          let count = S.read_count bufsize w ∙ ap (λ l. pos (length l)) e in
          let empty = S.read_end bufsize w (omega arith) e in
          record {
            world = after;
            result = rw (copy_loop, count, count) refl;
            output =
                S.read_keeps bufsize w
                ∙ sym (append-nil (S.written w))
                ∙ ap (λ l. S.written w ++ l) (sym empty);
            input = sym (S.read_bytes bufsize w ∙ ap (λ l. l ++ S.unread after) e) ∙ empty;
          }

      round :
          (b : ℕ) (bs : List ℕ)
          → (C.read in_fd bufsize w).1 ≡ b ∷ bs
          → ((u : C.World)
              → S.unread u ≡ S.unread after
              → Writes u (S.unread u) [] (copy_loop C n read_failed write_failed in_fd out_fd u))
          → Writes w (S.unread w) [] (copy_loop C (suc n) read_failed write_failed in_fd out_fd w)
      unfolding copy_loop
      round b bs e goes_on =
          let count = S.read_count bufsize w ∙ ap (λ l. pos (length l)) e in
          let wrote =
            write_loop-Writes (length (b ∷ bs)) write_failed (b ∷ bs) after (omega arith) in
          let rest = goes_on wrote.world wrote.input in
          let positive : ltb_ℤ (pos 0) (pos (suc (length bs))) ≡ true = ground arith in
          record {
            world = rest.world;
            result =
                rw (copy_loop, count, positive, count, e, take_all bs, wrote.result) rest.result;
            output =
                rest.output
                ∙ ap (λ l. l ++ S.unread wrote.world)
                    (wrote.output ∙ ap (λ l. l ++ b ∷ bs) (S.read_keeps bufsize w))
                ∙ append_assoc (S.written w) (b ∷ bs) (S.unread wrote.world)
                ∙ ap (λ l. S.written w ++ l)
                    (ap (λ l. b ∷ (bs ++ l)) wrote.input
                      ∙ ap (λ l. l ++ S.unread after) (sym e)
                      ∙ sym (S.read_bytes bufsize w));
            input = rest.input;
          }

    -- With fuel for each byte that is left to read and one more round.
    pub copy_loop_lem :
        (n : ℕ) (read_failed write_failed : C.World → Run C.World) (w : C.World)
        → length (S.unread w) < n
        → Writes w (S.unread w) [] (copy_loop C n read_failed write_failed in_fd out_fd w)
    copy_loop_lem zero read_failed write_failed w h = absurd (omega arith)
    copy_loop_lem (suc n) read_failed write_failed w h =
        elim (List-cases (C.read in_fd bufsize w).1) [
          | inl e ↦ last_round n read_failed write_failed w e
          | inr (b, bs, e) ↦ round n read_failed write_failed w b bs e (λ u same.
              copy_loop_lem n read_failed write_failed u (
                omega (
                  arith,
                  ap length same,
                  ap length (
                      S.read_bytes bufsize w
                      ∙ ap (λ l. l ++ S.unread (C.read in_fd bufsize w).2) e),
                  length-append bs (S.unread (C.read in_fd bufsize w).2),
                )))
        ]
