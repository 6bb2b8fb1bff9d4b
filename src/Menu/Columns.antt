-- ===== src/Menu/Columns.antt =====
-- How `showmenu` of Projects/OS161/kern/main/menu.c lays a menu out.
use windborne.Base.{
  ℕ, zero, suc, ◌+◌, ◌/◌, ◌<◌, ◌≤◌, ◌≡◌, refl, ◌∙◌, ap, arith, List, [], ◌∷◌, length, get_elem?,
  take, drop, ltb, some, ok, Bool-cases, inl, inr, ltb→lt,
}
use windborne.Menu.Words.{Bytes}
use windborne.Menu.Environment.{text, Kernel}
use windborne.Menu.Screens.{show_rows, showmenu}

-- An element, with what the list has from there on.
record Found (x : List Bytes) (i : ℕ) : Type 0 where
  item : Bytes
  read : get_elem? x i ≡ some item
  split : drop i x ≡ item ∷ drop (i + 1) x

find : (x : List Bytes) (i : ℕ) → i < length x → Found x i
find [] i h = absurd (omega arith)
find (a ∷ x) zero h = record { item = a; read = refl; split = refl }
find (a ∷ x) (suc i) h =
    let rest = find x i (omega arith) in
    record {
      item = rest.item;
      read = rest.read;
      split =
          rest.split
          ∙ ap (λ n. rest.item ∷ drop n (a ∷ x))
              (let e : suc (i + 1) ≡ suc i + 1 = omega arith in e);
    }

drop_all : (x : List Bytes) (i : ℕ) → length x ≤ i → drop i x ≡ []
drop_all [] zero h = refl
drop_all [] (suc i) h = refl
drop_all (a ∷ x) zero h = absurd (omega arith)
drop_all (a ∷ x) (suc i) h = drop_all x i (omega arith)

module _ (K : Kernel) where
  -- The two columns, row by row; the left one is the longer.
  abbrev pub columns : List Bytes → List Bytes → K.World → K.World
  columns [] right w = w
  columns (l ∷ left) [] w =
      columns left [] (K.kprintf "\n" [] (K.kprintf "    %-36s" (text l ∷ []) w))
  columns (l ∷ left) (r ∷ right) w =
      columns left right
        (K.kprintf "\n" [] (K.kprintf "%s" (text r ∷ []) (K.kprintf "    %-36s" (text l ∷ []) w)))

  show_rows_lem :
      (n i half : ℕ) (x : List Bytes) (w : K.World)
      → i + n ≡ half
      → half ≤ length x
      → show_rows K n i half x w ≡ ok (columns (take n (drop i x)) (drop (i + half) x) w)
  unfolding show_rows
  show_rows_lem zero i half x w e h = refl
  show_rows_lem (suc n) i half x w e h =
      let l = find x i (omega arith) in
      let after : i + 1 + half ≡ i + half + 1 = omega arith in
      let next_row = λ (u : K.World).
        show_rows_lem n (i + 1) half x u (omega arith) h
        ∙ ap (λ k. ok (columns (take n (drop (i + 1) x)) (drop k x) u)) after in
      elim (Bool-cases (ltb (i + half) (length x))) [
        | inl beside ↦
            let r = find x (i + half) (ltb→lt _ _ beside) in
            rw (l.read, l.split, beside, r.read, r.split) (next_row _)
        | inr alone ↦
            let last_row = λ (u : K.World).
              next_row u
              ∙ ap (λ right. ok (columns (take n (drop (i + 1) x)) right u))
                  (drop_all x (i + half + 1) (ground arith)) in
            rw (l.read, l.split, alone, drop_all x (i + half) (ground arith)) (last_row _)
      ]

  -- `showmenu` prints a menu in two columns, row by row: the first half of its items, rounded up, stands
  -- on the left, the other items on the right. Nothing is read out of bounds.
  pub showmenu_lem :
      (name : Bytes) (x : List Bytes) (w : K.World)
      → showmenu K name x w
        ≡ ok (
            K.kprintf "\n" [] (
              columns
                (take ((length x + 1) / 2) x)
                (drop ((length x + 1) / 2) x)
                (K.kprintf "%s\n" (text name ∷ []) (K.kprintf "\n" [] w))))
  unfolding showmenu
  showmenu_lem name x w =
      let start = K.kprintf "%s\n" (text name ∷ []) (K.kprintf "\n" [] w) in
      let half = (length x + 1) / 2 in
      let rows = show_rows_lem half 0 half x start (omega arith) (omega arith) in
      let from_half : 0 + half ≡ half = omega arith in rw (rows, from_half) refl
