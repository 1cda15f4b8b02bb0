-- ===== src/Paging/Pages.antt =====
-- `alloc_mem` of kernel/mem.c as the allocator of kernel/paging.c, which asks it for one page at a time.
use vimos_minimal.Base.{
  ◌⊎◌, inl, inr, ℕ, suc, ◌+◌, ◌*◌, ◌%◌, ◌^◌, ◌≤◌, bit_and, ◌≡◌, refl, ◌≢◌, true, Option, none, some,
  [], ◌∷◌, arith, leb, ◌==◌, ==_iff, Bool-cases, length,
}
use vimos_minimal.Layout.{page_offset, p2v}
use vimos_minimal.Mem.{Mem, done, Run, alloc_mem}
use vimos_minimal.Mem.Chain.{Blocks, IsAscending, cover, cover-le-one, IsFreeList}
use vimos_minimal.Mem.Alloc.{first_fit}
use vimos_minimal.Mem.Alloc.FirstFit.{AllSmaller, PartOf, first_fit-PartOf}
use vimos_minimal.Mem.Alloc.Total.{Gives, alloc_mem-first_fit}
use vimos_minimal.Boot.Tables.Walk.{translate}
use vimos_minimal.Paging.{Vm, do_page_fault}
use vimos_minimal.Paging.Entry.{IsTable}
use vimos_minimal.Paging.Tree.{Tables, Reaches}
use vimos_minimal.Paging.Open.{IsAllocator}
use vimos_minimal.Paging.Fault.{do_page_fault-translate}

-- The runs are pages of the window of physical memory.
abbrev pub AllPages : Blocks → Type 0
AllPages [] = Unit {0}
AllPages ((p, n) ∷ bs) =
    (p % 4096 ≡ 0) × (page_offset ≤ p) × (p + 4096 * n ≤ page_offset + 2 ^ 46) × AllPages bs

-- A well-formed free list of such pages, and the runs in it.
pub record Pool : Type 0 where
  pub mem : Mem
  pub runs : Blocks
  pub list : IsFreeList mem runs
  pub pages : AllPages runs

abbrev pub Free : Pool → ℕ → Type 0
Free pool p = cover p pool.runs ≡ 1

-- What `first_fit` gives is a page, and leaves pages.
abbrev pub GivesPage : Option (ℕ × Blocks) → Type 0
GivesPage none = Unit {0}
GivesPage (some (p, bs)) = IsTable p × AllPages bs

first_fit-GivesPage :
    (bs : Blocks) (lo : ℕ) → IsAscending lo bs → AllPages bs → GivesPage (first_fit 1 bs)
unfolding first_fit
first_fit-GivesPage [] lo w all = tt
first_fit-GivesPage ((p, n) ∷ bs) lo (le, n0, n1, fit, w) (al, low, high, all) =
    elim (Bool-cases (n == 1)) [
      | inl same ↦
          let one : n ≡ 1 = (==_iff _ _).0 same in
          rw same (record { aligned = al; low = low; high = omega arith }, all)
      | inr other ↦ rw other (elim (Bool-cases (leb 1 n)) [
        | inl fits ↦ rw fits (
          record { aligned = al; low = low; high = omega arith },
          (omega arith, omega arith, omega arith, all),
        )
        | inr small ↦ absurd (ground arith)
      ])
    ]

-- A request of one page is refused by an empty list only.
AllSmaller-none : (bs : Blocks) → IsAscending 1 bs → AllSmaller 1 bs → bs ≡ []
AllSmaller-none [] w small = refl
AllSmaller-none ((p, n) ∷ bs) (le, n0, n1, fit, w) (lt, small) = absurd (omega arith)

-- The state after the call, with its proof.
take_page :
    (pool : Pool) (o : Option (ℕ × Blocks)) (r : Run ℕ)
    → Gives pool.mem o r
    → PartOf 1 1 o pool.runs
    → GivesPage o
    → ℕ × Pool
take_page pool none r e small g = (0, pool)
take_page pool (some (p, bs)) r (g, e, c, kept) (l, f, w, parts) (i, all) =
    (p, record { mem = g; runs = bs; list = record { chain = c; ascending = w }; pages = all })

take_page-run :
    (pool : Pool) (o : Option (ℕ × Blocks)) (r : Run ℕ) (e : Gives pool.mem o r)
    (parts : PartOf 1 1 o pool.runs) (g : GivesPage o)
    → r ≡ done (take_page pool o r e parts g).0 (take_page pool o r e parts g).1.mem
unfolding take_page
take_page-run pool none r e small g = e
take_page-run pool (some (p, bs)) r (g, e, c, kept) (l, f, w, parts) (i, all) = e

-- A page that a call returns was free, is a table's place, and is free no longer.
abbrev Given : Pool → ℕ × Pool → Type 0
Given pool (p, pool') =
    p ≢ 0 → Free pool p × IsTable p × ((q : ℕ) → Free pool' q → Free pool q × (q ≢ p))

take_page-Given :
    (pool : Pool) (o : Option (ℕ × Blocks)) (r : Run ℕ) (e : Gives pool.mem o r)
    (parts : PartOf 1 1 o pool.runs) (g : GivesPage o)
    → Given pool (take_page pool o r e parts g)
unfolding take_page
take_page-Given pool none r e small g = λ n. absurd (n refl)
take_page-Given pool (some (p, bs)) r (g, e, c, kept) (l, f, w, parts) (i, all) = λ n.
    let single = cover-le-one p 1 pool.runs pool.list.ascending in
    let at_p : cover p pool.runs ≡ 1 + cover p bs = ground (arith, parts p) in
    (
      omega arith,
      i,
      λ q free. (
        ground (arith, parts q, cover-le-one q 1 pool.runs pool.list.ascending),
        λ same. omega (arith, rw same at free),
      ),
    )

-- `alloc_mem(1)`, which carries the free list's proof along.
pub one_page : Pool → ℕ × Pool
one_page pool =
    take_page pool (first_fit 1 pool.runs) (alloc_mem (suc (length pool.runs)) 1 pool.mem)
      (alloc_mem-first_fit (suc (length pool.runs)) 1 pool.mem pool.runs pool.list (omega arith)
        (omega arith) (omega arith))
      (first_fit-PartOf 1 1 pool.runs (omega arith) pool.list.ascending)
      (first_fit-GivesPage pool.runs 1 pool.list.ascending pool.pages)

one_page-alloc_mem :
    (pool : Pool)
    → alloc_mem (suc (length pool.runs)) 1 pool.mem ≡ done (one_page pool).0 (one_page pool).1.mem
unfolding one_page
one_page-alloc_mem pool = take_page-run pool (first_fit 1 pool.runs) _ _ _ _

pub one_page-IsAllocator : IsAllocator one_page Free
unfolding one_page
one_page-IsAllocator = record {
  gives = λ pool. take_page-Given pool (first_fit 1 pool.runs) _ _ _ _;
}

take_page-none :
    (pool : Pool) (o : Option (ℕ × Blocks)) (r : Run ℕ) (e : Gives pool.mem o r)
    (parts : PartOf 1 1 o pool.runs) (g : GivesPage o)
    → (take_page pool o r e parts g).0 ≡ 0
    → (take_page pool o r e parts g).1.runs ≡ []
unfolding take_page
take_page-none pool none r e small g null = AllSmaller-none pool.runs pool.list.ascending small
take_page-none pool (some (p, bs)) r e (l, f, w, parts) (i, all) null =
    absurd (omega (arith, i.low))

-- NULL comes from an empty list.
one_page-none : (pool : Pool) → (one_page pool).0 ≡ 0 → (one_page pool).1.runs ≡ []
unfolding one_page
one_page-none pool = take_page-none pool (first_fit 1 pool.runs) _ _ _ _

module _ (error cr2 cr3 brk : ℕ) (vm : Vm Pool) where
  abbrev pub Mapped : Vm Pool → Type 0
  Mapped vm' =
      (page : ℕ) × (translate cr3 (λ a. vm'.words (p2v a)) cr2 ≡ some (page + cr2 % 4096))
      × Reaches cr2 true vm'.words 4 (p2v cr3)

  -- The allocator is alloc_mem, with a free list that is well formed and whose runs are aligned
  -- pages inside the window. Where the error has bit 0 clear, the address lies from brk to
  -- 0x7fffffffe000, and the tables on the way to it, as far as there are any, are distinct aligned
  -- pages inside the window that the free list does not hold, with no large page among their
  -- entries and 0 in the entry that is not present: do_page_fault ends; either the free list is
  -- empty then, or the processor finds a page at the address, and the entries on the way are
  -- present, writable and for the user.
  pub do_page_fault-Mapped :
      bit_and error 1 ≡ 0
      → brk ≤ cr2
      → cr2 ≤ 0x7fffffffe000
      → Tables cr2 vm.words (Free vm.pool) 4 (p2v cr3) []
      → (vm' : Vm Pool) × (do_page_fault one_page error cr2 cr3 brk vm ≡ some vm')
        × ((vm'.pool.runs ≡ []) ⊎ Mapped vm')
  do_page_fault-Mapped absent lo hi tables =
      let (vm', e, h) =
        do_page_fault-translate one_page Free one_page-IsAllocator error cr2 cr3 brk vm absent lo hi
          tables in
      (
        vm',
        e,
        elim h [
          | inl (s, null, after) ↦ inl (rw after (one_page-none s null))
          | inr mapped ↦ inr mapped
        ],
      )
