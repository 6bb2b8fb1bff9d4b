-- ===== src/Programs/Tests.antt =====
-- A kernel that reads and writes one byte at a time, for Projects/OS161/bin/cat/cat.c and cp.c.
use windborne.Base.{
  ◌+◌, ◌==◌, none, if◌then◌else◌, ℕ, zero, suc, ◌<◌, ◌≡◌, refl, arith, List, [], ◌∷◌, ◌++◌, length,
}
use windborne.Base.Int.{ℤ, pos}
use windborne.Programs.Process.{Calls, returns, exits}
use windborne.Programs.Copying.{write_loop, copy_loop}
use windborne.Programs.Cat.{cat_main}
use windborne.Programs.Cp.{copy, cp_main}
use windborne.Programs.Transfers.{Serves}
use windborne.Programs.Names
use windborne.Programs.Names.{doremove, rm_loop, rm_main}
use windborne.Programs.Removing.{RemovesAll, rm_main_lem}
use windborne.Programs.Copies.{Closes, copy_lem}

record Files : Type 0 where
  old : List ℕ
  new : List ℕ

one_byte : ℕ → List ℕ → List ℕ
one_byte n [] = []
one_byte zero (b ∷ bs) = []
one_byte (suc n) (b ∷ bs) = b ∷ []

others : ℕ → List ℕ → List ℕ
others n [] = []
others zero (b ∷ bs) = b ∷ bs
others (suc n) (b ∷ bs) = bs

first : List ℕ → List ℕ
first [] = []
first (b ∷ bs) = b ∷ []

abbrev slow : Calls
slow = record {
  World = Files;
  open_read = λ name w. (pos 3, w);
  open_write = λ name w. (pos 4, record w { new = [] });
  read = λ fd n w.
      (pos (length (one_byte n w.old)), one_byte n w.old, record w { old = others n w.old });
  write = λ fd bytes w. (pos 1, record w { new = w.new ++ first bytes });
  close = λ fd w. (pos 0, w);
  print_error = λ format args w. w;
}

split : (n : ℕ) (l : List ℕ) → l ≡ one_byte n l ++ others n l
unfolding one_byte others
split n [] = refl
split zero (b ∷ l) = refl
split (suc n) (b ∷ l) = refl

all_read : (n : ℕ) (l : List ℕ) → 0 < n → one_byte n l ≡ [] → l ≡ []
unfolding one_byte
all_read n [] h e = refl
all_read zero (b ∷ l) h e = absurd (omega arith)
all_read (suc n) (b ∷ l) h e = cc

slow-Serves : (in_fd out_fd : ℤ) → Serves slow in_fd out_fd
unfolding first
slow-Serves in_fd out_fd = record {
  unread = λ w. w.old;
  written = λ w. w.new;
  read_count = λ n w. refl;
  read_bytes = λ n w. split n w.old;
  read_end = λ n w h e. all_read n w.old h e;
  read_keeps = λ n w. refl;
  write_count = λ b bs w. (0, refl, omega arith);
  write_bytes = λ b bs w. refl;
  write_keeps = λ b bs w. refl;
}

slow-Closes : (fd : ℤ) → Closes slow (pos 3) (pos 4) (slow-Serves (pos 3) (pos 4)) fd
slow-Closes fd = record { closed = λ w. refl; close_keeps = λ w. refl }

abbrev full : Files
full = record { old = 7 ∷ 8 ∷ 9 ∷ []; new = 1 ∷ [] }

copy_lem_example : (u : Files) × (copy slow 5 "a" "b" full ≡ returns u) × (u.new ≡ 7 ∷ 8 ∷ 9 ∷ [])
unfolding slow-Serves
copy_lem_example =
    copy_lem slow (pos 3) (pos 4) (slow-Serves (pos 3) (pos 4)) 5 "a" "b" full full
      (record full { new = [] }) refl refl refl refl (slow-Closes (pos 3)) (slow-Closes (pos 4))
      refl (omega arith)

usage_test : cp_main slow 5 ("a" ∷ []) full ≡ exits 1 full
unfolding cp_main
usage_test = refl

cat_test : cat_main slow 5 ("a" ∷ []) full ≡ returns (record { old = []; new = 1 ∷ 7 ∷ 8 ∷ 9 ∷ [] })
unfolding cat_main copy_loop write_loop one_byte others first
cat_test = refl

-- A file system in which the second file cannot be removed. The world counts the removals.
abbrev stubborn : Names.Calls
stubborn = record {
  World = ℕ;
  symlink = λ a b w. (0, w);
  link = λ a b w. (0, w);
  rename = λ a b w. (0, w);
  remove = λ a w. if w == 1 then (1, w) else (0, w + 1);
  rmdir = λ a w. (0, w);
  mkdir = λ a mode w. (0, w);
  getcwd = λ n w. (none, w);
  sync = λ w. w;
  print = λ format args w. w;
  print_error = λ format args w. w;
}

rm_main_lem_example :
    RemovesAll stubborn ("a" ∷ "b" ∷ "c" ∷ []) 0 (rm_main stubborn ("a" ∷ "b" ∷ "c" ∷ []) 0)
rm_main_lem_example = rm_main_lem stubborn "a" ("b" ∷ "c" ∷ []) 0

-- The third file is not looked at.
stubborn_run : rm_main stubborn ("a" ∷ "b" ∷ "c" ∷ []) 0 ≡ exits 1 1
unfolding rm_main rm_loop doremove
stubborn_run = refl
