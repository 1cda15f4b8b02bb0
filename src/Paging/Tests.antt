-- ===== src/Paging/Tests.antt =====
-- setupPageMaps at concrete inputs.
use vimos_minimal.Base.{◌⊎◌, ℕ, ◌+◌, ◌*◌, ◌≡◌, refl, ◌≢◌, true, some, [], ◌∷◌, arith}
use vimos_minimal.Layout.{page_offset}
use vimos_minimal.Boot.Tables.{put, clear, for_loop}
use vimos_minimal.Paging.{
  part, linear, Vm, done, failed, out_of_fuel, setup_page_maps, setup_page_map, setup_loop,
  set_new_page_map_if_not_present, new_page_map, store, do_page_fault,
}
use vimos_minimal.Mem.{Mem, node}
use vimos_minimal.Mem.Chain.{nil, cons}
use vimos_minimal.Paging.Pages.{Pool, one_page, Mapped, do_page_fault-Mapped}
use vimos_minimal.Paging.Ends.{setup_page_maps-ends}

-- An allocator that hands out the pages of the window from 2 MB on, one after the other.
abbrev next_page : ℕ → ℕ × ℕ
next_page k = (page_offset + 0x20_0000 + 4096 * k, k + 1)

abbrev unmapped : Vm ℕ
unmapped = record { words = λ a. 0; pool = 0 }

setup_page_maps-ends_example :
    ((setup_page_maps next_page 0x10_0000 (linear 0x40_1ff8) 3 true unmapped).0 ≢ out_of_fuel)
    × ((m : ℕ)
        → (setup_page_maps next_page 0x10_0000 (linear 0x40_1ff8) 3 true unmapped).0 ≡ done m
        → (m ≡ 0)
          ⊎ (part (setup_page_maps next_page 0x10_0000 (linear 0x40_1ff8) 3 true unmapped).1 4
              ≡ 511))
setup_page_maps-ends_example = setup_page_maps-ends next_page 0x10_0000 0x40_1ff8 3 true unmapped

-- One page takes a table for each level and the page, and nothing where the pool is empty.
four_pages : (setup_page_maps next_page 0x10_0000 (linear 0x40_1ff8) 1 true unmapped).2.pool ≡ 4
unfolding setup_page_maps setup_page_map setup_loop set_new_page_map_if_not_present part linear
    new_page_map store put clear for_loop
four_pages = refl

no_page : (setup_page_maps (λ k. (0, k)) 0x10_0000 (linear 0x40_1ff8) 1 true unmapped).0 ≡ failed
unfolding setup_page_maps setup_page_map setup_loop set_new_page_map_if_not_present part linear
    new_page_map
no_page = refl

-- Eight free pages from 2 MB on, and a PML4 at 1 MB that is clear.
abbrev eight : Mem
eight = record { head = node (page_offset + 0x20_0000) 0; cell = λ a. node 0 8 }

abbrev eight_pages : Pool
eight_pages = record {
  mem = eight;
  runs = (page_offset + 0x20_0000, 8) ∷ [];
  list = record { chain = cons (omega arith) refl nil; ascending = omega arith };
  pages = omega arith;
}

abbrev clear_pml4 : Vm Pool
clear_pml4 = record { words = λ a. 0; pool = eight_pages }

do_page_fault-Mapped_example :
    (vm' : Vm Pool) × (do_page_fault one_page 0x6 0x40_1ff8 0x10_0000 0x40_1000 clear_pml4
      ≡ some vm')
    × ((vm'.pool.runs ≡ []) ⊎ Mapped 0x6 0x40_1ff8 0x10_0000 0x40_1000 clear_pml4 vm')
do_page_fault-Mapped_example =
    do_page_fault-Mapped 0x6 0x40_1ff8 0x10_0000 0x40_1000 clear_pml4 refl (omega arith)
      (omega arith)
      (
        record { aligned = refl; low = omega arith; high = omega arith },
        (λ f. omega (arith, f)),
        tt,
        (λ n. refl),
        (λ present. absurd (omega (arith, present))),
      )
