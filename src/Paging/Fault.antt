-- ===== src/Paging/Fault.antt =====
-- What the processor finds behind a page fault that `do_page_fault` of kernel/exception.c has handled.
use vimos_minimal.Base.{
  ◌⊎◌, inl, inr, ℕ, ◌+◌, ◌*◌, ◌/◌, ◌%◌, ◌^◌, ◌≤◌, ◌<◌, bit_and, ◌≡◌, refl, sym, ap, ◌∙◌, Bool, true,
  false, ◌&&◌, some, [], arith, leb, ◌==◌,
}
use vimos_minimal.Layout.{p2v}
use vimos_minimal.Boot.Tables.{Words}
use vimos_minimal.Boot.Tables.Walk.{
  is_present, is_large, frame, selected, walk1, walk2, walk3, translate,
}
use vimos_minimal.Paging.{
  Vm, part, linear, setup_page_map, setup_page_maps, do_page_fault, addr_of, pointer,
}
use vimos_minimal.Paging.Entry.{bit_of}
use vimos_minimal.Paging.Tree.{index, Tables, Reaches}
use vimos_minimal.Paging.Open.{IsAllocator}
use vimos_minimal.Paging.One.{setup-Ended}

-- A table that starts a page is seen through the window without a break.
p2v-add : (x i : ℕ) → x % 4096 ≡ 0 → i < 512 → p2v (x + 8 * i) ≡ p2v x + 8 * i
p2v-add x i al lo = omega arith

is_present-of : (e : ℕ) → e % 2 ≡ 1 → is_present e ≡ true
is_present-of e h = ground arith

is_large-of : (e : ℕ) → bit_of 7 e ≡ 0 → is_large e ≡ false
is_large-of e h = ground arith

frame-addr_of : (e : ℕ) → frame 12 e ≡ addr_of e * 2 ^ 12
frame-addr_of e = omega arith

module _ (v : ℕ) (words : Words) where
  seen4 : (x : ℕ) → x % 4096 ≡ 0 → words (p2v (selected 39 x v)) ≡ words (p2v x + 8 * index v 4)
  unfolding part linear
  seen4 x al = ap words (p2v-add x (v / 2 ^ 39 % 512) al (omega arith))

  seen3 : (x : ℕ) → x % 4096 ≡ 0 → words (p2v (selected 30 x v)) ≡ words (p2v x + 8 * index v 3)
  unfolding part linear
  seen3 x al = ap words (p2v-add x (v / 2 ^ 30 % 512) al (omega arith))

  seen2 : (x : ℕ) → x % 4096 ≡ 0 → words (p2v (selected 21 x v)) ≡ words (p2v x + 8 * index v 2)
  unfolding part linear
  seen2 x al = ap words (p2v-add x (v / 2 ^ 21 % 512) al (omega arith))

  seen1 : (x : ℕ) → x % 4096 ≡ 0 → words (p2v (selected 12 x v)) ≡ words (p2v x + 8 * index v 1)
  unfolding part linear
  seen1 x al = ap words (p2v-add x (v / 2 ^ 12 % 512) al (omega arith))

  frame_aligned : (e : ℕ) → frame 12 e % 4096 ≡ 0
  frame_aligned e = omega arith

  pointer-frame : (e : ℕ) → pointer e ≡ p2v (frame 12 e)
  unfolding pointer
  pointer-frame e = ap p2v (sym (frame-addr_of e))

  -- Where the way is complete, the processor finds a page.
  pub Reaches-translate :
      (rw_bit : Bool) (cr3 : ℕ)
      → cr3 % 4096 ≡ 0
      → Reaches v rw_bit words 4 (p2v cr3)
      → (page : ℕ) × (translate cr3 (λ a. words (p2v a)) v ≡ some (page + v % 4096))
  unfolding translate walk3 walk2 walk1
  Reaches-translate rw_bit cr3 al
        (a4, b4, c4, d4, (a3, b3, c3, d3, (a2, b2, c2, d2, (a1, b1, c1, d1, end)))) =
      let e4 = words (p2v cr3 + 8 * index v 4) in
      let e3 = words (pointer e4 + 8 * index v 3) in
      let e2 = words (pointer e3 + 8 * index v 2) in
      let e1 = words (pointer e2 + 8 * index v 1) in
      let s3 : words (p2v (selected 30 (frame 12 e4) v)) ≡ e3 =
        seen3 (frame 12 e4) (frame_aligned e4)
        ∙ ap (λ t. words (t + 8 * index v 3)) (sym (pointer-frame e4)) in
      let s2 : words (p2v (selected 21 (frame 12 e3) v)) ≡ e2 =
        seen2 (frame 12 e3) (frame_aligned e3)
        ∙ ap (λ t. words (t + 8 * index v 2)) (sym (pointer-frame e3)) in
      let s1 : words (p2v (selected 12 (frame 12 e2) v)) ≡ e1 =
        seen1 (frame 12 e2) (frame_aligned e2)
        ∙ ap (λ t. words (t + 8 * index v 1)) (sym (pointer-frame e2)) in
      (
        frame 12 e1,
        rw
            (
              seen4 cr3 al,
              is_present-of e4 a4,
              s3,
              is_present-of e3 a3,
              is_large-of e3 (d3 (omega arith)),
              s2,
              is_present-of e2 a2,
              is_large-of e2 (d2 (omega arith)),
              s1,
              is_present-of e1 a1,
            )
            refl,
      )

module _ {S : Type 0} (alloc_mem : S → ℕ × S) (Free : S → ℕ → Type 0)
    (sound : IsAllocator alloc_mem Free) (error cr2 cr3 brk : ℕ) (vm : Vm S) where
  -- The allocator has returned NULL, or the processor finds a page, by entries that are present, can
  -- be written and are for the user.
  abbrev pub Handled : Vm S → Type 0
  Handled vm' =
      ((s : S) × ((alloc_mem s).0 ≡ 0) × (vm'.pool ≡ (alloc_mem s).1))
      ⊎ ((page : ℕ) × (translate cr3 (λ a. vm'.words (p2v a)) cr2 ≡ some (page + cr2 % 4096))
          × Reaches cr2 true vm'.words 4 (p2v cr3))

  Handled-of :
      Tables cr2 vm.words (Free vm.pool) 4 (p2v cr3) []
      → Handled (setup_page_map alloc_mem 4 true (p2v cr3) (linear cr2) 1 vm).2
  Handled-of tables =
      let x = setup-Ended alloc_mem Free sound cr2 true 4 (p2v cr3) [] vm (omega arith) tt tables in
      elim x.how [
        | inl (bad, null) ↦ inl null
        | inr (good, reaches) ↦
            let al = tables.0.aligned in
            let (page, found) =
              Reaches-translate cr2
                (setup_page_map alloc_mem 4 true (p2v cr3) (linear cr2) 1 vm).2.words true cr3
                (omega (arith, al)) reaches in
            inr (page, found, reaches)
      ]

  pub do_page_fault-translate :
      bit_and error 1 ≡ 0
      → brk ≤ cr2
      → cr2 ≤ 0x7fffffffe000
      → Tables cr2 vm.words (Free vm.pool) 4 (p2v cr3) []
      → (vm' : Vm S) × (do_page_fault alloc_mem error cr2 cr3 brk vm ≡ some vm') × Handled vm'
  unfolding do_page_fault setup_page_maps
  do_page_fault-translate absent lo hi tables =
      let clear : (bit_and error 0x01 == 0) ≡ true = ground arith in
      let between : (leb brk cr2 && leb cr2 0x7fffffffe000) ≡ true = ground arith in
      let vm' = (setup_page_map alloc_mem 4 true (p2v cr3) (linear cr2) 1 vm).2 in
      (vm', rw (clear, between) refl, Handled-of tables)
