-- ===== src/Boot/Tables/Fill.antt =====
-- What the loops of boot/boot.c leave in the tables, and outside them.
use vimos_minimal.Base.{
  ◌⊎◌, inl, inr, ℕ, zero, suc, ◌+◌, ◌-◌, ◌*◌, ◌≤◌, ◌<◌, bit_or, ◌≡◌, refl, ◌∙◌, arith, nat_cases,
}
use vimos_minimal.Boot.Tables.{Words, put, for_loop, fill_page, map_round, map_pages}

-- The address `a` is not in the words `first` to `first + count - 1` of a table.
abbrev pub Outside : ℕ → ℕ → ℕ → ℕ → Type 0
Outside table first count a = (a < table + 8 * first) ⊎ (table + 8 * (first + count) ≤ a)

-- Word `q` of the table is word `j` of its page `i`.
fill_loop-Outside :
    (count j table i : ℕ) (value : ℕ → ℕ) (m : Words) (a : ℕ)
    → Outside table (i * 512 + j) count a
    → for_loop count j (λ k. put table (i * 512 + k) (value k)) m a ≡ m a
unfolding for_loop put
fill_loop-Outside zero j table i value m a o = refl
fill_loop-Outside (suc count) j table i value m a o =
    fill_loop-Outside count (j + 1) table i value (put table (i * 512 + j) (value j) m) a
      (omega arith)
    ∙ ground arith

fill_loop-inside :
    (count j table i : ℕ) (value : ℕ → ℕ) (m : Words) (k a : ℕ)
    → j ≤ k
    → k < j + count
    → a ≡ table + 8 * (i * 512 + k)
    → for_loop count j (λ k. put table (i * 512 + k) (value k)) m a ≡ value k
unfolding for_loop put
fill_loop-inside zero j table i value m k a lo hi e = absurd (omega arith)
fill_loop-inside (suc count) j table i value m k a lo hi e = elim (nat_cases j k) [
  | inl less ↦
      fill_loop-inside count (j + 1) table i value (put table (i * 512 + j) (value j) m) k a
        (omega arith) (omega arith) e
  | inr (inl same) ↦
      fill_loop-Outside count (j + 1) table i value (put table (i * 512 + j) (value j) m) a
        (omega arith)
      ∙ (rw same (ground arith))
  | inr (inr more) ↦ absurd (omega arith)
]

module _ (directory first table : ℕ) (value : ℕ → ℕ → ℕ) where
  round-Outside :
      (i : ℕ) (m : Words) (a : ℕ)
      → Outside directory (first + i) 1 a
      → Outside table (i * 512) 512 a
      → map_round directory first table value i m a ≡ m a
  unfolding map_round fill_page put
  round-Outside i m a d t =
      fill_loop-Outside 512 0 table i (value i) _ a (omega arith) ∙ (ground arith)

  loop-Outside :
      (count i : ℕ) (m : Words) (a : ℕ)
      → Outside directory (first + i) count a
      → Outside table (i * 512) (count * 512) a
      → for_loop count i (map_round directory first table value) m a ≡ m a
  unfolding for_loop
  loop-Outside zero i m a d t = refl
  loop-Outside (suc count) i m a d t =
      loop-Outside count (i + 1) (map_round directory first table value i m) a (omega arith)
        (omega arith)
      ∙ round-Outside i m a (omega arith) (omega arith)

  -- The directory and the table are apart.
  abbrev pub Apart : ℕ → Type 0
  Apart count =
      (directory + 8 * (first + count) ≤ table)
      ⊎ (table + 8 * (count * 512) ≤ directory + 8 * first)

  -- What a round wrote is kept by the later ones.
  loop-kept :
      (count i : ℕ) (m : Words) (k a v : ℕ)
      → i ≤ k
      → k < i + count
      → ((m' : Words) → map_round directory first table value k m' a ≡ v)
      → Outside directory (first + (k + 1)) (i + count - (k + 1)) a
      → Outside table ((k + 1) * 512) ((i + count - (k + 1)) * 512) a
      → for_loop count i (map_round directory first table value) m a ≡ v
  unfolding for_loop
  loop-kept zero i m k a v lo hi written d t = absurd (omega arith)
  loop-kept (suc count) i m k a v lo hi written d t = elim (nat_cases i k) [
    | inl less ↦
        loop-kept count (i + 1) (map_round directory first table value i m) k a v (omega arith)
          (omega arith) written (omega arith) (omega arith)
    | inr (inl same) ↦
        loop-Outside count (i + 1) (map_round directory first table value i m) a (omega arith)
          (omega arith)
        ∙ (rw same (written m))
    | inr (inr more) ↦ absurd (omega arith)
  ]

  module _ (count : ℕ) (m : Words) where
    pub map_pages-Outside :
        (a : ℕ)
        → Outside directory first count a
        → Outside table 0 (count * 512) a
        → map_pages directory first table value count m a ≡ m a
    unfolding map_pages
    map_pages-Outside a d t = loop-Outside count 0 m a (omega arith) (omega arith)

    -- The entries of the directory lead to the pages of the table.
    pub map_pages-directory :
        (k a : ℕ)
        → Apart count
        → k < count
        → a ≡ directory + 8 * (first + k)
        → map_pages directory first table value count m a ≡ bit_or (table + 8 * (k * 512)) 0x003
    unfolding map_pages
    map_pages-directory k a apart h e =
        loop-kept count 0 m k a (bit_or (table + 8 * (k * 512)) 0x003) (omega arith) (omega arith)
          (λ m'.
            unfold map_round fill_page put in
            fill_loop-Outside 512 0 table k (value k) _ a (omega arith) ∙ (ground arith))
          (omega arith) (omega arith)

    pub map_pages-table :
        (k j a : ℕ)
        → Apart count
        → k < count
        → j < 512
        → a ≡ table + 8 * (k * 512 + j)
        → map_pages directory first table value count m a ≡ value k j
    unfolding map_pages
    map_pages-table k j a apart h l e =
        loop-kept count 0 m k a (value k j) (omega arith) (omega arith)
          (λ m'.
            unfold map_round fill_page in
            fill_loop-inside 512 0 table k (value k) _ j a (omega arith) (omega arith) e)
          (omega arith) (omega arith)
