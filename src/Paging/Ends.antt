-- ===== src/Paging/Ends.antt =====
-- The loops of `setupPageMap` of kernel/paging.c end within the 512 entries of a table.
use vimos_minimal.Base.{
  ◌⊎◌, inl, inr, ℕ, zero, suc, ◌+◌, ◌-◌, ◌*◌, ◌≤◌, ◌<◌, ◌≡◌, refl, sym, ◌∙◌, ◌≢◌, Bool, true, arith,
  ◌==◌, ==_iff, Bool-cases,
}
use vimos_minimal.Paging.{
  Linear, part, set_part, linear, clear_parts, Vm, done, failed, out_of_fuel, store, with_bit,
  set_new_page_map_if_not_present, Result, go_on, setup_loop, setup_page_map, setup_page_maps,
}

-- Each part of the address is a place of a table.
abbrev pub AllPlaces : Linear → Type 0
AllPlaces l = (k : ℕ) → 1 ≤ k → k ≤ 4 → l k < 512

set_part-AllPlaces :
    (level value : ℕ) (l : Linear) → AllPlaces l → AllPlaces (set_part level value l)
unfolding set_part
set_part-AllPlaces level value l all k lo hi = let old = all k lo hi in ground arith

set_part-ne : (level value : ℕ) (l : Linear) (k : ℕ) → k ≢ level → set_part level value l k ≡ l k
unfolding set_part
set_part-ne level value l k n = ground arith

set_part_self :
    (level value : ℕ) (l : Linear)
    → 1 ≤ level
    → level ≤ 4
    → value < 512
    → set_part level value l level ≡ value
unfolding set_part
set_part_self level value l lo hi small = ground arith

clear_parts-AllPlaces : (level : ℕ) (l : Linear) → AllPlaces l → AllPlaces (clear_parts level l)
unfolding clear_parts
clear_parts-AllPlaces zero l all = all
clear_parts-AllPlaces (suc zero) l all = all
clear_parts-AllPlaces (suc (suc level)) l all =
    clear_parts-AllPlaces (suc level) (set_part (suc level) 0 l)
      (set_part-AllPlaces (suc level) 0 l all)

clear_parts-above : (level : ℕ) (l : Linear) (k : ℕ) → level ≤ k → clear_parts level l k ≡ l k
unfolding clear_parts
clear_parts-above zero l k h = refl
clear_parts-above (suc zero) l k h = refl
clear_parts-above (suc (suc level)) l k h =
    clear_parts-above (suc level) (set_part (suc level) 0 l) k (omega arith)
    ∙ set_part-ne (suc level) 0 l k (omega arith)

linear-AllPlaces : (value : ℕ) → AllPlaces (linear value)
unfolding linear
linear-AllPlaces value k lo hi = ground arith

part-of : (l : Linear) (level : ℕ) → level ≤ 4 → part l level ≡ l level
unfolding part
part-of l level h = ground arith

done_ne : (n : ℕ) → done n ≢ out_of_fuel
done_ne n e = cc

failed_ne : failed ≢ out_of_fuel
failed_ne e = cc

failed_not_done : (m : ℕ) → failed ≢ done m
failed_not_done m e = cc

done-inj : (n m : ℕ) → done n ≡ done m → n ≡ m
done-inj n m e = cc

module _ {S : Type 0} (alloc_mem : S → ℕ × S) where
  -- A result that is one, with the parts above the level as they were, and where it is no failure, all
  -- pages are mapped or the last entry of the table has been reached.
  record IsEnd (level : ℕ) (addr : Linear) (r : Result alloc_mem) : Type 0 where
    ends : r.0 ≢ out_of_fuel
    places : AllPlaces r.1
    above : (k : ℕ) → level < k → r.1 k ≡ addr k
    complete : 1 ≤ level → (m : ℕ) → r.0 ≡ done m → (m ≡ 0) ⊎ (r.1 level ≡ 511)

  go_on-IsEnd :
      (level entry_index : ℕ) (addr : Linear) (r : Result alloc_mem)
      (rest : Linear → ℕ → Vm S → Result alloc_mem)
      → level < 4
      → entry_index < 512
      → addr (suc level) ≡ entry_index
      → IsEnd level addr r
      → ((addr' : Linear) (n : ℕ) (vm : Vm S)
          → AllPlaces addr'
          → addr' (suc level) ≡ entry_index + 1
          → entry_index + 1 < 512
          → IsEnd (suc level) addr' (rest addr' n vm))
      → IsEnd (suc level) addr (go_on alloc_mem (suc level) entry_index r rest)
  go_on-IsEnd level i addr (failed, a, vm) rest le small place e next = record {
    ends = e.ends;
    places = e.places;
    above = λ k h. e.above k (omega arith);
    complete = λ lo m q. absurd (failed_not_done m q);
  }
  go_on-IsEnd level i addr (out_of_fuel, a, vm) rest le small place e next = absurd (e.ends refl)
  go_on-IsEnd level i addr (done n, a, vm) rest le small place e next =
      elim (Bool-cases (i == 511)) [
        | inl last ↦ rw last (record {
          ends = e.ends;
          places = e.places;
          above = λ k h. e.above k (omega arith);
          complete =
              λ lo m q. inr (e.above (suc level) (omega arith) ∙ place ∙ (==_iff _ _).0 last);
        })
        | inr more ↦
            let bound : i + 1 < 512 = ground arith in
            let l1 = set_part (suc level) (i + 1) a in
            let l2 = clear_parts (suc level) l1 in
            let index =
              clear_parts-above (suc level) l1 (suc level) (omega arith)
              ∙ set_part_self (suc level) (i + 1) a (omega arith) (omega arith) bound in
            let r =
              next l2 n vm
                (clear_parts-AllPlaces (suc level) l1
                  (set_part-AllPlaces (suc level) (i + 1) a e.places))
                index bound in
            rw more (record {
              ends = r.ends;
              places = r.places;
              above = λ k h.
                  r.above k h
                  ∙ clear_parts-above (suc level) l1 k (omega arith)
                  ∙ set_part-ne (suc level) (i + 1) a k (omega arith)
                  ∙ e.above k (omega arith);
              complete = r.complete;
            })
      ]

  setup_loop-IsEnd :
      (below : ℕ → Linear → ℕ → Vm S → Result alloc_mem) (level fuel page_map : ℕ) (rw_bit : Bool)
      (addr : Linear) (n : ℕ) (vm : Vm S)
      → ((child : ℕ) (addr' : Linear) (n' : ℕ) (vm' : Vm S)
          → AllPlaces addr'
          → IsEnd level addr' (below child addr' n' vm'))
      → level < 4
      → AllPlaces addr
      → 512 ≤ addr (suc level) + fuel
      → IsEnd
          (suc level)
          addr
          (setup_loop alloc_mem below (suc level) page_map rw_bit fuel addr n vm)
  unfolding setup_loop
  setup_loop-IsEnd below level zero page_map rw_bit addr n vm hb le all enough =
      let small = all (suc level) (omega arith) (omega arith) in absurd (omega arith)
  setup_loop-IsEnd below level (suc fuel) page_map rw_bit addr n vm hb le all enough =
      let i = part addr (suc level) in
      let same = part-of addr (suc level) (omega arith) in
      let small : i < 512 = rw same (all (suc level) (omega arith) (omega arith)) in
      let entry = page_map + 8 * i in
      let child = set_new_page_map_if_not_present alloc_mem entry vm in
      let vm2 =
        store alloc_mem entry (with_bit 2 true (with_bit 1 rw_bit (child.1.words entry))) child.1 in
      let whole =
        go_on-IsEnd level i addr (below child.0 addr n vm2)
          (setup_loop alloc_mem below (suc level) page_map rw_bit fuel) le small (sym same)
          (hb child.0 addr n vm2 all)
          (λ addr' n' vm' all' e bound.
            setup_loop-IsEnd below level fuel page_map rw_bit addr' n' vm' hb le all'
              (omega arith)) in
      elim (Bool-cases (n == 0)) [
        | inl none_left ↦ rw none_left (record {
          ends = λ e. done_ne 0 e;
          places = all;
          above = λ k h. refl;
          complete = λ lo m q. inl (sym (done-inj 0 m q));
        })
        | inr left ↦ elim (Bool-cases (child.0 == 0)) [
          | inl null ↦
              rw (left, null)
                (record {
                  ends = λ e. failed_ne e;
                  places = all;
                  above = λ k h. refl;
                  complete = λ lo m q. absurd (failed_not_done m q);
                })
          | inr found ↦ rw (left, found) whole
        ]
      ]

  setup_page_map-IsEnd :
      (level : ℕ) (rw_bit : Bool) (page_map : ℕ) (addr : Linear) (n : ℕ) (vm : Vm S)
      → level ≤ 4
      → AllPlaces addr
      → IsEnd level addr (setup_page_map alloc_mem level rw_bit page_map addr n vm)
  unfolding setup_page_map
  setup_page_map-IsEnd zero rw_bit page_map addr n vm le all = record {
    ends = λ e. done_ne (n - 1) e;
    places = all;
    above = λ k h. refl;
    complete = λ lo. absurd (omega arith);
  }
  setup_page_map-IsEnd (suc level) rw_bit page_map addr n vm le all =
      setup_loop-IsEnd (setup_page_map alloc_mem level rw_bit) level 512 page_map rw_bit addr n vm
        (λ child addr' n' vm' all'.
          setup_page_map-IsEnd level rw_bit child addr' n' vm' (omega arith) all')
        (omega arith) all (omega arith)

  -- Whatever the memory and the allocator, setupPageMaps ends for every address and every number of
  -- pages; where it does not return -1, the count of the pages that are left is 0, or the address
  -- has come to the last entry of the PML4.
  pub setup_page_maps-ends :
      (cr3 value n : ℕ) (rw_bit : Bool) (vm : Vm S)
      → let (outcome, addr, vm') = setup_page_maps alloc_mem cr3 (linear value) n rw_bit vm in
        (outcome ≢ out_of_fuel) × ((m : ℕ) → outcome ≡ done m → (m ≡ 0) ⊎ (part addr 4 ≡ 511))
  unfolding setup_page_maps part
  setup_page_maps-ends cr3 value n rw_bit vm =
      let r =
        setup_page_map-IsEnd 4 rw_bit _ (linear value) n vm (omega arith)
          (linear-AllPlaces value) in
      (r.ends, r.complete (omega arith))
