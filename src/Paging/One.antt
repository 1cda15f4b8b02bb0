-- ===== src/Paging/One.antt =====
-- `setupPageMap` of kernel/paging.c for one page.
use vimos_minimal.Base.{
  ◌⊎◌, inl, inr, ℕ, zero, suc, ◌+◌, ◌*◌, ◌%◌, ◌≤◌, ◌≡◌, refl, sym, ◌∙◌, ◌≢◌, Bool, true, false,
  List, ◌∷◌, arith, ◌==◌, Bool-cases,
}
use vimos_minimal.Paging.{
  Vm, done, failed, out_of_fuel, Linear, part, linear, Result, go_on, store, setup_loop,
  setup_page_map, set_new_page_map_if_not_present, pointer, with_bit,
}
use vimos_minimal.Boot.Tables.{Words}
use vimos_minimal.Paging.Entry.{IsTable, bit_of, flag, flags-fields, pointer-same}
use vimos_minimal.Paging.Tree.{
  AllTaken, SameTable, AllSame, index, Tables, Reaches, Tables-same, index-lt, put-SameTable,
  AllSame-trans, AllSame-refl, AllTaken-less, AllSame-taken,
}
use vimos_minimal.Paging.Open.{IsAllocator, put_here, set_new-Opens}

module _ {S : Type 0} (alloc_mem : S → ℕ × S) where
  -- After the last page the loop ends.
  go_on-done :
      (level i : ℕ) (below : ℕ → Linear → ℕ → Vm S → Result alloc_mem) (rw_bit : Bool) (t fuel : ℕ)
      (r : Result alloc_mem)
      → r.0 ≡ done 0
      → let g = go_on alloc_mem level i r (setup_loop alloc_mem below level t rw_bit (suc fuel)) in
        (g.0 ≡ done 0) × (g.2 ≡ r.2)
  unfolding setup_loop
  go_on-done level i below rw_bit t fuel (done n, addr, vm) e =
      let n_zero : n ≡ 0 = cc in
      elim (Bool-cases (i == 511)) [
        | inl last ↦ rw (last, n_zero) (refl, refl)
        | inr other ↦ rw (other, n_zero) (refl, refl)
      ]
  go_on-done level i below rw_bit t fuel (failed, addr, vm) e = absurd (cc)
  go_on-done level i below rw_bit t fuel (out_of_fuel, addr, vm) e = absurd (cc)

  go_on-failed :
      (level i : ℕ) (rest : Linear → ℕ → Vm S → Result alloc_mem) (r : Result alloc_mem)
      → r.0 ≡ failed
      → go_on alloc_mem level i r rest ≡ r
  go_on-failed level i rest (done n, addr, vm) e = absurd (cc)
  go_on-failed level i rest (failed, addr, vm) e = refl
  go_on-failed level i rest (out_of_fuel, addr, vm) e = absurd (cc)

  setup-null :
      (level : ℕ) (rw_bit : Bool) (t : ℕ) (addr : Linear) (vm : Vm S)
      → let r = set_new_page_map_if_not_present alloc_mem (t + 8 * part addr (suc level)) vm in
        r.0 ≡ 0 → setup_page_map alloc_mem (suc level) rw_bit t addr 1 vm ≡ (failed, addr, r.1)
  unfolding setup_page_map setup_loop
  setup-null level rw_bit t addr vm null = rw null refl

  setup-on :
      (level : ℕ) (rw_bit : Bool) (t : ℕ) (addr : Linear) (vm : Vm S)
      → let entry = t + 8 * part addr (suc level) in
        let child = (set_new_page_map_if_not_present alloc_mem entry vm).0 in
        let vm1 = (set_new_page_map_if_not_present alloc_mem entry vm).1 in
        child ≢ 0
        → setup_page_map alloc_mem (suc level) rw_bit t addr 1 vm
          ≡ go_on alloc_mem
              (suc level)
              (part addr (suc level))
              (setup_page_map alloc_mem level rw_bit child addr 1
                (store alloc_mem entry (with_bit 2 true (with_bit 1 rw_bit (vm1.words entry))) vm1))
              (setup_loop alloc_mem
                (setup_page_map alloc_mem level rw_bit)
                (suc level)
                t
                rw_bit
                511)
  unfolding setup_page_map setup_loop
  setup-on level rw_bit t addr vm some_map =
      let entry = t + 8 * part addr (suc level) in
      let h : ((set_new_page_map_if_not_present alloc_mem entry vm).0 == 0) ≡ false =
        ground arith in
      rw h refl

module _ {S : Type 0} (alloc_mem : S → ℕ × S) (Free : S → ℕ → Type 0)
    (sound : IsAllocator alloc_mem Free) (v : ℕ) (rw_bit : Bool) where
  -- The tables above `t` are as they were. Either the allocator returned NULL, or the page is mapped.
  pub record Ended (level t : ℕ) (used : List ℕ) (vm : Vm S) (r : Result alloc_mem) : Type 0 where
    pub kept : AllSame vm.words r.2.words used
    pub how :
        ((r.0 ≡ failed) × ((s : S) × ((alloc_mem s).0 ≡ 0) × (r.2.pool ≡ (alloc_mem s).1)))
        ⊎ ((r.0 ≡ done 0) × Reaches v rw_bit r.2.words level t)

  Ended-same :
      (level t : ℕ) (used : List ℕ) (vm : Vm S) (r g : Result alloc_mem)
      → g.0 ≡ r.0
      → g.2 ≡ r.2
      → Ended level t used vm r
      → Ended level t used vm g
  Ended-same level t used vm (o, a, vm1) (o', a', vm1') e1 e2 x = record {
    kept = rw e2 x.kept;
    how = rw (e1, e2) x.how;
  }

  Reaches-on :
      (level t child e : ℕ) (m : Words)
      → m (t + 8 * index v (suc level)) ≡ e
      → pointer e ≡ child
      → (e % 2 ≡ 1) × (bit_of 1 e ≡ flag rw_bit) × (bit_of 2 e ≡ 1) × (1 ≤ level → bit_of 7 e ≡ 0)
      → Reaches v rw_bit m level child
      → Reaches v rw_bit m (suc level) t
  Reaches-on level t child e m now here (f0, f1, f2, f7) reaches =
      rw (now, here) (f0, f1, f2, f7, reaches)

  pub setup-Ended :
      (level t : ℕ) (used : List ℕ) (vm : Vm S)
      → level ≤ 4
      → AllTaken (Free vm.pool) used
      → Tables v vm.words (Free vm.pool) level t used
      → Ended level t used vm (setup_page_map alloc_mem level rw_bit t (linear v) 1 vm)
  unfolding setup_page_map store
  setup-Ended zero t used vm le all w = record {
    kept = AllSame-refl vm.words used;
    how = inr (refl, tt);
  }
  setup-Ended (suc level) t used vm le all w =
      let i = index v (suc level) in
      let i_lt = index-lt v level (omega arith) in
      let entry = t + 8 * i in
      let (it, taken, new, empty, next) = w in
      elim (set_new-Opens alloc_mem Free sound v level t used vm (omega arith) all w) [
        | inl (null, none_left, after, same) ↦
            rw (setup-null alloc_mem level rw_bit t (linear v) vm null)
              (record { kept = same; how = inl (refl, (vm.pool, none_left, after)) })
        | inr o ↦
            let child = (set_new_page_map_if_not_present alloc_mem entry vm).0 in
            let vm1 = (set_new_page_map_if_not_present alloc_mem entry vm).1 in
            let e = vm1.words entry in
            let e' = with_bit 2 true (with_bit 1 rw_bit e) in
            let vm2 = store alloc_mem entry e' vm1 in
            let (f0, f1, f2, f7, fa) = flags-fields rw_bit e in
            let here : vm2.words entry ≡ e' = put_here entry e' vm1.words in
            let child_here : pointer e' ≡ child = pointer-same e e' fa ∙ o.leads in
            let write : (p : ℕ) → IsTable p → t ≢ p → SameTable vm1.words vm2.words p =
              λ p ip tp. put-SameTable t p i e' vm1.words it ip tp i_lt in
            let all1 = AllTaken-less (Free vm.pool) (Free vm1.pool) used o.less all in
            let below =
              Tables-same v level vm1.words vm2.words (Free vm1.pool) (Free vm1.pool) child
                (t ∷ used) (omega arith) (λ p ip np. write p ip np.0) (λ p f. f) o.below in
            let rest =
              setup-Ended level child (t ∷ used) vm2 (omega arith)
                (it, (λ f. taken (o.less t f)), all1) below in
            let kept =
              AllSame-trans vm.words vm1.words vm2.words used o.kept
                (AllSame-taken vm1.words vm2.words (Free vm1.pool) used t all1 new write) in
            let r = setup_page_map alloc_mem level rw_bit child (linear v) 1 vm2 in
            let now : r.2.words entry ≡ e' = rest.kept.0 i i_lt ∙ here in
            let all_kept = AllSame-trans vm.words vm2.words r.2.words used kept rest.kept.1 in
            rw (setup-on alloc_mem level rw_bit t (linear v) vm o.there) (elim rest.how [
              | inl (bad, (s, none_left, after)) ↦
                  rw
                    (go_on-failed alloc_mem (suc level) i
                      (setup_loop alloc_mem (setup_page_map alloc_mem level rw_bit) (suc level) t
                        rw_bit 511)
                      r bad)
                    (record { kept = all_kept; how = inl (bad, (s, none_left, after)) })
              | inr (good, reaches) ↦
                  let (g0, g2) =
                    go_on-done alloc_mem (suc level) i (setup_page_map alloc_mem level rw_bit)
                      rw_bit t 510 r good in
                  Ended-same (suc level) t used vm r _ (g0 ∙ sym good) g2 (record {
                    kept = all_kept;
                    how = inr (
                      good,
                      Reaches-on level t child e' r.2.words now child_here
                          (f0 ∙ o.present, f1, f2, (λ h. f7 ∙ o.small h)) reaches,
                    );
                  })
            ])
      ]
