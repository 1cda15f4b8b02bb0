-- ===== src/Paging/Tree.antt =====
-- The tables on the way from the PML4 down to an address, and what a write elsewhere leaves of them.
use vimos_minimal.Base.{
  ◌⊎◌, inl, inr, ℕ, zero, suc, ◌+◌, ◌*◌, ◌%◌, ◌≤◌, ◌<◌, ◌≡◌, refl, sym, ◌∙◌, ◌≢◌, Bool, List, [],
  ◌∷◌, arith, nat_cases,
}
use vimos_minimal.Boot.Tables.{Words, put, clear, for_loop}
use vimos_minimal.Paging.{part, linear, pointer}
use vimos_minimal.Paging.Entry.{IsTable, bit_of, flag}

-- None of the tables is `t`.
abbrev pub NotIn : ℕ → List ℕ → Type 0
NotIn t [] = Unit
NotIn t (u ∷ used) = (u ≢ t) × NotIn t used

-- Each of the tables is one, and the allocator does not have it.
abbrev pub AllTaken : (ℕ → Type 0) → List ℕ → Type 0
AllTaken free [] = Unit
AllTaken free (u ∷ used) = IsTable u × (¬ free u) × AllTaken free used

abbrev pub SameTable : Words → Words → ℕ → Type 0
SameTable m m' t = (k : ℕ) → k < 512 → m' (t + 8 * k) ≡ m (t + 8 * k)

abbrev pub AllSame : Words → Words → List ℕ → Type 0
AllSame m m' [] = Unit
AllSame m m' (u ∷ used) = SameTable m m' u × AllSame m m' used

module _ (v : ℕ) where
  abbrev pub index : ℕ → ℕ
  index level = part (linear v) level

  -- The tables from `t` at the level on down to `v`, as far as there are any, are tables that the
  -- allocator does not have, different from each other and from those above. An entry that is not
  -- present is clear, and none is a large page.
  abbrev pub Tables : Words → (ℕ → Type 0) → ℕ → ℕ → List ℕ → Type 0
  Tables m free zero t used = t ≢ 0
  Tables m free (suc level) t used =
      IsTable t
      × (¬ free t)
      × NotIn t used
      × (m (t + 8 * index (suc level)) % 2 ≢ 1 → m (t + 8 * index (suc level)) ≡ 0)
      × (m (t + 8 * index (suc level)) % 2 ≡ 1
          → (1 ≤ level → bit_of 7 (m (t + 8 * index (suc level))) ≡ 0)
            × Tables m free level (pointer (m (t + 8 * index (suc level)))) (t ∷ used))

  -- The entries on the way are present, for the user, and can be written where `rw_bit` says so.
  abbrev pub Reaches : Bool → Words → ℕ → ℕ → Type 0
  Reaches rw_bit m zero t = Unit
  Reaches rw_bit m (suc level) t =
      (m (t + 8 * index (suc level)) % 2 ≡ 1)
      × (bit_of 1 (m (t + 8 * index (suc level))) ≡ flag rw_bit)
      × (bit_of 2 (m (t + 8 * index (suc level))) ≡ 1)
      × (1 ≤ level → bit_of 7 (m (t + 8 * index (suc level))) ≡ 0)
      × Reaches rw_bit m level (pointer (m (t + 8 * index (suc level))))

  pub index-lt : (level : ℕ) → level < 4 → index (suc level) < 512
  unfolding part linear
  index-lt level h = ground arith

  -- A write outside of all tables on the way leaves the way as it was.
  pub Tables-same :
      (level : ℕ) (m m' : Words) (free free' : ℕ → Type 0) (t : ℕ) (used : List ℕ)
      → level ≤ 4
      → ((p : ℕ) → IsTable p → NotIn p used → SameTable m m' p)
      → ((p : ℕ) → free' p → free p)
      → Tables m free level t used
      → Tables m' free' level t used
  Tables-same zero m m' free free' t used le same less w = w
  Tables-same (suc level) m m' free free' t used le same less (it, taken, new, empty, next) =
      let i = index (suc level) in
      let e : m' (t + 8 * i) ≡ m (t + 8 * i) = same t it new i (index-lt level (omega arith)) in
      (
        it,
        (λ f. taken (less t f)),
        new,
        rw e empty,
        rw e (λ present.
            let (small, below) = next present in
            (
              small,
              Tables-same level m m' free free' (pointer (m (t + 8 * i))) (t ∷ used) (omega arith)
                  (λ p ip np. same p ip np.1) less below,
            )),
      )

  -- Below a new table there is nothing.
  pub Tables-fresh :
      (level : ℕ) (m : Words) (free : ℕ → Type 0) (c : ℕ) (used : List ℕ)
      → level ≤ 4
      → IsTable c
      → ¬ free c
      → NotIn c used
      → ((k : ℕ) → k < 512 → m (c + 8 * k) ≡ 0)
      → Tables m free level c used
  Tables-fresh zero m free c used le ic taken new zeros = λ e. omega (arith, e, ic.low)
  Tables-fresh (suc level) m free c used le ic taken new zeros =
      let z = zeros (index (suc level)) (index-lt level (omega arith)) in
      (ic, taken, new, (λ n. z), rw z (λ present. absurd (omega (arith, present))))

-- A write to a table changes no other table.
pub put-SameTable :
    (t p i e : ℕ) (m : Words)
    → IsTable t
    → IsTable p
    → t ≢ p
    → i < 512
    → SameTable m (put (t + 8 * i) 0 e m) p
unfolding put
put-SameTable t p i e m it ip ne hi k hk =
    let apart : p + 8 * k ≢ t + 8 * i + 8 * 0 =
      λ q. ne (omega (arith, q, it.aligned, ip.aligned)) in
    ground arith

cleared-outside :
    (count j c : ℕ) (m : Words) (a : ℕ)
    → (a < c + 8 * j) ⊎ (c + 8 * (j + count) ≤ a)
    → for_loop count j (λ i. put c i 0) m a ≡ m a
unfolding for_loop put
cleared-outside zero j c m a o = refl
cleared-outside (suc count) j c m a o =
    cleared-outside count (j + 1) c (put c j 0 m) a (omega arith) ∙ (ground arith)

cleared_inside :
    (count j c : ℕ) (m : Words) (k : ℕ)
    → j ≤ k
    → k < j + count
    → for_loop count j (λ i. put c i 0) m (c + 8 * k) ≡ 0
unfolding for_loop put
cleared_inside zero j c m k lo hi = absurd (omega arith)
cleared_inside (suc count) j c m k lo hi = elim (nat_cases j k) [
  | inl less ↦ cleared_inside count (j + 1) c (put c j 0 m) k (omega arith) (omega arith)
  | inr (inl same) ↦
      cleared-outside count (j + 1) c (put c j 0 m) (c + 8 * k) (omega arith)
      ∙ (rw same (ground arith))
  | inr (inr more) ↦ absurd (omega arith)
]

pub clear-SameTable :
    (c p : ℕ) (m : Words) → IsTable c → IsTable p → c ≢ p → SameTable m (clear c 1 m) p
unfolding clear
clear-SameTable c p m ic ip ne k hk =
    cleared-outside 512 0 c m (p + 8 * k) (omega (arith, ne, ic.aligned, ip.aligned))

pub clear-inside : (c i : ℕ) (m : Words) → i < 512 → clear c 1 m (c + 8 * i) ≡ 0
unfolding clear
clear-inside c i m h = cleared_inside 512 0 c m i (omega arith) (omega arith)

pub AllSame-taken :
    (m m' : Words) (free : ℕ → Type 0) (used : List ℕ) (t : ℕ)
    → AllTaken free used
    → NotIn t used
    → ((p : ℕ) → IsTable p → t ≢ p → SameTable m m' p)
    → AllSame m m' used
AllSame-taken m m' free [] t all new same = tt
AllSame-taken m m' free (u ∷ used) t (iu, fu, all) (ne, new) same =
    (same u iu (λ e. ne (sym e)), AllSame-taken m m' free used t all new same)

pub AllSame-both :
    (m m' : Words) (free : ℕ → Type 0) (used : List ℕ) (t c : ℕ)
    → AllTaken free used
    → NotIn t used
    → NotIn c used
    → ((p : ℕ) → IsTable p → c ≢ p → t ≢ p → SameTable m m' p)
    → AllSame m m' used
AllSame-both m m' free [] t c all new new' same = tt
AllSame-both m m' free (u ∷ used) t c (iu, fu, all) (ne, new) (ne', new') same = (
  same u iu (λ e. ne' (sym e)) (λ e. ne (sym e)),
  AllSame-both m m' free used t c all new new' same,
)

pub AllSame-trans :
    (m1 m2 m3 : Words) (used : List ℕ)
    → AllSame m1 m2 used
    → AllSame m2 m3 used
    → AllSame m1 m3 used
AllSame-trans m1 m2 m3 [] a b = tt
AllSame-trans m1 m2 m3 (u ∷ used) (a, as') (b, bs) =
    ((λ k h. b k h ∙ a k h), AllSame-trans m1 m2 m3 used as' bs)

pub AllSame-refl : (m : Words) (used : List ℕ) → AllSame m m used
AllSame-refl m [] = tt
AllSame-refl m (u ∷ used) = ((λ k h. refl), AllSame-refl m used)

pub AllTaken-less :
    (free free' : ℕ → Type 0) (used : List ℕ)
    → ((p : ℕ) → free' p → free p)
    → AllTaken free used
    → AllTaken free' used
AllTaken-less free free' [] less all = tt
AllTaken-less free free' (u ∷ used) less (iu, fu, all) =
    (iu, (λ f. fu (less u f)), AllTaken-less free free' used less all)

-- A page that the allocator has is none of the tables.
pub NotIn-free :
    (free : ℕ → Type 0) (used : List ℕ) (c : ℕ) → free c → AllTaken free used → NotIn c used
NotIn-free free [] c f all = tt
NotIn-free free (u ∷ used) c f (iu, fu, all) =
    ((λ e. fu (rw (sym e) at f)), NotIn-free free used c f all)
