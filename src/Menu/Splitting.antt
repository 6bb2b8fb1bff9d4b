-- ===== src/Menu/Splitting.antt =====
-- `strtok_r` and the word loop of `cmd_dispatch` of Projects/OS161/kern/main/menu.c against the
-- words of a text.
use native.Mathlib.Nat.{add_assoc}
use windborne.Base.{
  ℕ, zero, suc, ◌+◌, ◌<◌, ◌⊎◌, ◌≤◌, ◌≡◌, refl, sym, ◌∙◌, ap, arith, false, List, [], ◌∷◌, ◌++◌,
  append_assoc, append-nil, length, length-append, leb, none, some, ok, if◌then◌else◌, Bool-cases,
  inl, inr,
}
use windborne.Menu.Words.{Bytes, contains, skip, before, behind, cut, strtok_r}
use windborne.Menu.Dispatch.{collect, blanks}

module _ (seps : Bytes) where
  abbrev pub flush : Bytes → List Bytes → List Bytes
  flush [] words = words
  flush (c ∷ word) words = (c ∷ word) ∷ words

  -- The words of a text, read byte by byte; `word` is the one begun.
  abbrev pub words_from : Bytes → Bytes → List Bytes
  words_from word [] = flush word []
  words_from word (c ∷ s) =
      if contains seps c then flush word (words_from [] s) else words_from (word ++ c ∷ []) s

  abbrev pub words : Bytes → List Bytes
  words s = words_from [] s

  words-skip : (s : Bytes) → words (skip seps s) ≡ words s
  words-skip [] = refl
  words-skip (c ∷ s) = ground (arith, words-skip s)

  flush_begun : (w : Bytes) (c : ℕ) (l : List Bytes) → flush (w ++ c ∷ []) l ≡ (w ++ c ∷ []) ∷ l
  flush_begun [] c l = refl
  flush_begun (d ∷ w) c l = refl

  words_from_begun :
      (w : Bytes) (c : ℕ) (s : Bytes)
      → words_from (w ++ c ∷ []) s ≡ ((w ++ c ∷ []) ++ before seps s) ∷ words (behind seps s)
  words_from_begun w c [] = rw (flush_begun w c [], append-nil (w ++ c ∷ [])) refl
  words_from_begun w c (d ∷ s) = elim (Bool-cases (contains seps d)) [
    | inl e ↦ rw (e, flush_begun w c (words s), append-nil (w ++ c ∷ [])) refl
    | inr e ↦
        rw
          (
            e,
            words_from_begun (w ++ c ∷ []) d s,
            append_assoc (w ++ c ∷ []) (d ∷ []) (before seps s),
          )
          refl
  ]

  length-skip : (s : Bytes) → length (skip seps s) ≤ length s
  length-skip [] = omega arith
  length-skip (c ∷ s) = ground (arith, length-skip s)

  length-behind : (s : Bytes) → length (behind seps s) ≤ length s
  length-behind [] = omega arith
  length-behind (c ∷ s) = ground (arith, length-behind s)

  skip_stops : (s : Bytes) (c : ℕ) (r : Bytes) → skip seps s ≡ c ∷ r → contains seps c ≡ false
  skip_stops [] c r e = cc
  skip_stops (d ∷ s) c r e = ground (arith, skip_stops s c r)

  words-cons :
      (c : ℕ) (r : Bytes)
      → contains seps c ≡ false
      → words (c ∷ r) ≡ before seps (c ∷ r) ∷ words (behind seps (c ∷ r))
  words-cons c r e = rw e (words_from_begun [] c r)

  -- What a call of `strtok_r` finds.
  pub record Next (s : Bytes) (t : Bytes × Bytes) : Type 0 where
    pub word : words s ≡ t.0 ∷ words t.1
    pub shorter : length t.1 < length s
    pub begun : (c : ℕ) × (r : Bytes) × (t.0 ≡ c ∷ r)

  pub cut_lem :
      (s r : Bytes)
      → skip seps s ≡ r
      → ((cut seps r ≡ none) × (words s ≡ []))
        ⊎ ((t : Bytes × Bytes) × (cut seps r ≡ some t) × Next s t)
  cut_lem s [] e = inl (refl, sym (words-skip s) ∙ ap words e)
  cut_lem s (c ∷ r) e =
      let k = skip_stops s c r e in
      inr (
        (before seps (c ∷ r), behind seps (c ∷ r)),
        refl,
        record {
          word = sym (words-skip s) ∙ ap words e ∙ words-cons c r k;
          shorter = rw k (omega (arith, length-behind r, length-skip s, ap length e));
          begun = (c, before seps r, rw k refl);
        },
      )

  pub strtok_r_lem :
      (s : Bytes)
      → ((strtok_r seps s ≡ none) × (words s ≡ []))
        ⊎ ((t : Bytes × Bytes) × (strtok_r seps s ≡ some t) × Next s t)
  unfolding strtok_r
  strtok_r_lem s = cut_lem s (skip seps s) refl

-- With fuel for every byte and the end, the word loop gives the words of the text behind those it has,
-- or refuses them where they are more than sixteen.
pub collect_lem :
    (n : ℕ) (s : Bytes) (args : List Bytes)
    → length s < n
    → length args ≤ 16
    → collect n s args
      ≡ ok (
          if leb (length args + length (words blanks s)) 16
          then some (args ++ words blanks s)
          else none)
unfolding collect
collect_lem zero s args h k = absurd (omega arith)
collect_lem (suc n) s args h k = elim (strtok_r_lem blanks s) [
  | inl (e, none_left) ↦ rw (collect, e, none_left, append-nil args) (ground arith)
  | inr (t, e, next) ↦ elim (Bool-cases (leb 16 (length args))) [
    | inl full ↦ rw (collect, e, next.word, full) (ground arith)
    | inr room ↦
        let more = length-append args (t.0 ∷ []) in
        let rest =
          collect_lem n t.1 (args ++ t.0 ∷ []) (omega (arith, next.shorter)) (ground arith) in
        rw
          (
            collect,
            e,
            next.word,
            room,
            rest,
            more,
            append_assoc args (t.0 ∷ []) (words blanks t.1),
            add_assoc (length args) 1 (length (words blanks t.1)),
          )
          (ground arith)
  ]
]
