-- ===== src/Mem/Tests.antt =====
-- kernel/mem.c on small lists: runs, and the theorems at concrete inputs.
use vimos_minimal.Base.{
  ◌⊎◌, inr, ℕ, ◌+◌, ◌≡◌, refl, Option, none, some, List, [], ◌∷◌, arith, ◌==◌, if◌then◌else◌,
}
use vimos_minimal.Layout.{page_offset}
use vimos_minimal.Mem.{Mem, node, Run, done, fault, out_of_fuel, alloc_mem, free_mem}
use vimos_minimal.Mem.Chain.{cover, Blocks, nil, cons, IsFreeList}
use vimos_minimal.Mem.Alloc.{first_fit}
use vimos_minimal.Mem.Alloc.FirstFit.{AllSmaller}
use vimos_minimal.Mem.Alloc.Total.{Gives, Served, alloc_mem-first_fit, alloc_mem-Served}
use vimos_minimal.Mem.Free.Insert.{Leaves, put_in, free_mem-put_in}
use vimos_minimal.Mem.Free.Merge.{GivenBack, free_mem-alloc_mem}
use vimos_minimal.Mem.Free.Lost.{Twice, free_mem-IsUnseen, free_mem-Twice, free_mem-fault}
use vimos_minimal.Mem.Init.{Descriptor, init_mem}
use vimos_minimal.Mem.Init.Closed.{tally}
use vimos_minimal.Mem.Init.Runs.{runs}
use vimos_minimal.Mem.Init.Build.{init_mem-tally, init_mem-other}

-- Five pages at 0x8000 and three at 0x20000.
abbrev two : Mem
two = record { head = node 0x8000 0; cell = λ a. if a == 0x8000 then node 0x20000 5 else node 0 3 }

abbrev two_runs : Blocks
two_runs = (0x8000, 5) ∷ (0x20000, 3) ∷ []

two-IsFreeList : IsFreeList two two_runs
two-IsFreeList = record {
  chain = cons (omega arith) refl (cons (omega arith) refl nil);
  ascending = omega arith;
}

-- Three pages at 0x20000 only.
abbrev one : Mem
one = record { head = node 0x20000 0; cell = λ a. node 0 3 }

one-IsFreeList : IsFreeList one ((0x20000, 3) ∷ [])
one-IsFreeList = record { chain = cons (omega arith) refl nil; ascending = omega arith }

-- Five pages at 0x8000 and three behind a gap of two pages.
abbrev gap : Mem
gap = record { head = node 0x8000 0; cell = λ a. if a == 0x8000 then node 0xf000 5 else node 0 3 }

gap-IsFreeList : IsFreeList gap ((0x8000, 5) ∷ (0xf000, 3) ∷ [])
gap-IsFreeList = record {
  chain = cons (omega arith) refl (cons (omega arith) refl nil);
  ascending = omega arith;
}

abbrev start_of : Run ℕ → Option ℕ
start_of (done p g) = some p
start_of fault = none
start_of out_of_fuel = none

alloc_runs :
    (start_of (alloc_mem 9 3 one) ≡ some 0x20000)
    × (start_of (alloc_mem 9 2 two) ≡ some 0x8000)
    × (start_of (alloc_mem 9 6 two) ≡ some 0)
unfolding alloc_mem
alloc_runs = (refl, refl, refl)

alloc_mem-first_fit_example : Gives two (first_fit 2 two_runs) (alloc_mem 9 2 two)
alloc_mem-first_fit_example =
    alloc_mem-first_fit 9 2 two two_runs two-IsFreeList (omega arith) (omega arith) (omega arith)

alloc_mem-Served_example :
    ((alloc_mem 9 2 two ≡ done 0 two) × AllSmaller 2 two_runs)
    ⊎ Served 2 two_runs (alloc_mem 9 2 two)
alloc_mem-Served_example =
    alloc_mem-Served 9 2 two two_runs two-IsFreeList (omega arith) (omega arith) (omega arith)

free_mem-put_in_example : Leaves (put_in 0x10000 2 two_runs) (free_mem 9 0x10000 2 two)
free_mem-put_in_example =
    free_mem-put_in 9 0x10000 2 two (omega arith) (omega arith) (omega arith) two_runs
      two-IsFreeList (omega arith) (inr (omega arith, omega arith)) (omega arith)

free_mem-alloc_mem_example : GivenBack 9 0x8000 2 two two_runs
free_mem-alloc_mem_example =
    free_mem-alloc_mem 9 2 two 0x8000 5 0x20000 3 [] two-IsFreeList (omega arith) (omega arith)
      (omega arith) (omega arith) (omega arith)

free_mem-IsUnseen_example : free_mem 9 0x40000 2 one ≡ done tt one
free_mem-IsUnseen_example =
    free_mem-IsUnseen 9 0x40000 2 one (omega arith) (omega arith) (omega arith) ((0x20000, 3) ∷ [])
      one-IsFreeList.chain (omega arith) (omega arith)

free_mem-Twice_example : Twice 0xd000 2 ((0x8000, 7) ∷ (0xd000, 5) ∷ []) (free_mem 9 0xd000 2 gap)
free_mem-Twice_example =
    free_mem-Twice 9 0xd000 2 gap (omega arith) (omega arith) 0x8000 5 0xf000 3 [] gap-IsFreeList tt
      (omega arith) (omega arith) (omega arith) (omega arith) (omega arith)

free_mem-fault_example : free_mem 9 0x1e000 2 one ≡ fault
free_mem-fault_example =
    free_mem-fault 9 0x1e000 2 one (omega arith) (omega arith) (omega arith) 0x20000 3
      one-IsFreeList (omega arith) (omega arith)

abbrev descriptor : ℕ → ℕ → ℕ → Descriptor
descriptor t s n = record { type = t; physical_start = s; number_of_page = n }

-- Two usable descriptors in a row, a reserved one, one usable, and the firmware's at the end.
abbrev memory_map : List Descriptor
memory_map =
    descriptor 7 0x1000 3
    ∷ descriptor 3 0x4000 2
    ∷ descriptor 0 0x6000 1
    ∷ descriptor 7 0x9000 4
    ∷ descriptor 6 0xe000 1
    ∷ []

runs_of_map : runs memory_map 0 0 ≡ (page_offset + 0x1000, 5) ∷ (page_offset + 0x9000, 4) ∷ []
unfolding runs
runs_of_map = refl

abbrev bare : Mem
bare = record { head = node 0 0; cell = λ a. node 0 0 }

init_mem-tally_example :
    (g : Mem) × (init_mem memory_map bare ≡ done tt g)
    × (bs : Blocks) × IsFreeList g bs
    × ((a : ℕ) → cover (page_offset + a) bs ≡ tally a memory_map)
init_mem-tally_example = init_mem-tally memory_map bare refl (omega arith) refl

init_mem-other_example :
    (g : Mem) × (init_mem memory_map bare ≡ done tt g)
    × (bs : Blocks) × IsFreeList g bs
    × (cover (page_offset + 0xe800) bs ≡ 0)
init_mem-other_example = init_mem-other memory_map bare 0xe800 refl (omega arith) refl
