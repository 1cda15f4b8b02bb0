-- ===== src/Paging/Open.antt =====
-- What `setNewPageMapIfNotPresent` of kernel/paging.c leaves in an entry, and what the flags keep of it.
use vimos_minimal.Base.{
  ◌⊎◌, inl, inr, ℕ, zero, suc, ◌+◌, ◌*◌, ◌/◌, ◌%◌, ◌^◌, ◌≤◌, ◌<◌, ◌≡◌, refl, sym, ◌∙◌, ◌≢◌, true,
  false, List, ◌∷◌, arith, ◌==◌, ==_iff, Bool-cases,
}
use vimos_minimal.Layout.{v2p}
use vimos_minimal.Boot.Tables.{Words, put, clear}
use vimos_minimal.Paging.{
  Vm, store, new_page_map, set_new_page_map_if_not_present, pointer, with_bit, with_addr,
}
use vimos_minimal.Paging.Entry.{IsTable, bit_of, fresh-fields}
use vimos_minimal.Paging.Tree.{
  AllTaken, SameTable, AllSame, index, Tables, Tables-fresh, index-lt, put-SameTable,
  clear-SameTable, clear-inside, AllSame-both, AllSame-refl, NotIn-free,
}

-- What the allocator promises: a page that it returns was its own, and no longer is.
pub record IsAllocator {S : Type 0} (alloc_mem : S → ℕ × S) (Free : S → ℕ → Type 0) : Type 0 where
  pub gives :
      (s : S)
      → (alloc_mem s).0 ≢ 0
      → Free s (alloc_mem s).0
        × IsTable (alloc_mem s).0
        × ((p : ℕ) → Free (alloc_mem s).1 p → Free s p × (p ≢ (alloc_mem s).0))

pub put_here : (a e : ℕ) (m : Words) → put a 0 e m a ≡ e
unfolding put
put_here a e m = ground arith

module _ {S : Type 0} (alloc_mem : S → ℕ × S) (Free : S → ℕ → Type 0)
    (sound : IsAllocator alloc_mem Free) (v : ℕ) where
  pub Tables-there :
      (level : ℕ) (m : Words) (free : ℕ → Type 0) (t : ℕ) (used : List ℕ)
      → Tables v m free level t used
      → t ≢ 0
  Tables-there zero m free t used w = w
  Tables-there (suc level) m free t used (it, taken, new, empty, next) =
      λ e. omega (arith, e, it.low)

  -- The entry of `t` leads to `child`, from which the way goes on.
  pub record Opens (level t : ℕ) (used : List ℕ) (vm vm1 : Vm S) (child : ℕ) : Type 0 where
    pub there : child ≢ 0
    pub kept : AllSame vm.words vm1.words used
    pub present : vm1.words (t + 8 * index v (suc level)) % 2 ≡ 1
    pub small : 1 ≤ level → bit_of 7 (vm1.words (t + 8 * index v (suc level))) ≡ 0
    pub leads : pointer (vm1.words (t + 8 * index v (suc level))) ≡ child
    pub below : Tables v vm1.words (Free vm1.pool) level child (t ∷ used)
    pub less : (p : ℕ) → Free vm1.pool p → Free vm.pool p

  set_new-present :
      (entry : ℕ) (vm : Vm S)
      → (entry == 0) ≡ false
      → ((vm.words entry % 2) == 1) ≡ true
      → set_new_page_map_if_not_present alloc_mem entry vm ≡ (pointer (vm.words entry), vm)
  unfolding set_new_page_map_if_not_present
  set_new-present entry vm some_entry old = rw (some_entry, old) refl

  set_new-null :
      (entry : ℕ) (vm : Vm S)
      → (entry == 0) ≡ false
      → ((vm.words entry % 2) == 1) ≡ false
      → ((alloc_mem vm.pool).0 == 0) ≡ true
      → set_new_page_map_if_not_present alloc_mem entry vm
        ≡ (0, record vm { pool = (alloc_mem vm.pool).1 })
  unfolding set_new_page_map_if_not_present new_page_map
  set_new-null entry vm some_entry absent null = rw (some_entry, absent, null) refl

  set_new-page :
      (entry : ℕ) (vm : Vm S)
      → (entry == 0) ≡ false
      → ((vm.words entry % 2) == 1) ≡ false
      → ((alloc_mem vm.pool).0 == 0) ≡ false
      → let c = (alloc_mem vm.pool).0 in
        let w1 = clear c 1 vm.words in
        set_new_page_map_if_not_present alloc_mem entry vm ≡ (
          c,
          record {
            words = put entry 0 (with_bit 0 true (with_addr (v2p c / 2 ^ 12) (w1 entry))) w1;
            pool = (alloc_mem vm.pool).1;
          },
        )
  unfolding set_new_page_map_if_not_present new_page_map store
  set_new-page entry vm some_entry absent page = rw (some_entry, absent, page, page) refl

  pub set_new-Opens :
      (level t : ℕ) (used : List ℕ) (vm : Vm S)
      → level < 4
      → AllTaken (Free vm.pool) used
      → Tables v vm.words (Free vm.pool) (suc level) t used
      → let r = set_new_page_map_if_not_present alloc_mem (t + 8 * index v (suc level)) vm in
        ((r.0 ≡ 0)
          × ((alloc_mem vm.pool).0 ≡ 0)
          × (r.1.pool ≡ (alloc_mem vm.pool).1)
          × AllSame vm.words r.1.words used)
        ⊎ Opens level t used vm r.1 r.0
  set_new-Opens level t used vm le all (it, taken, new, empty, next) =
      let entry = t + 8 * index v (suc level) in
      let some_entry : (entry == 0) ≡ false = ground (arith, it.low) in
      elim (Bool-cases ((vm.words entry % 2) == 1)) [
        | inl old ↦
            let present = (==_iff _ _).0 old in
            let (small, below) = next present in
            rw (set_new-present entry vm some_entry old) (
              inr (record {
                there =
                    Tables-there level vm.words (Free vm.pool) (pointer (vm.words entry)) (t ∷ used)
                      below;
                kept = AllSame-refl vm.words used;
                present = present;
                small = small;
                leads = refl;
                below = below;
                less = λ p f. f;
              }))
        | inr absent ↦ elim (Bool-cases ((alloc_mem vm.pool).0 == 0)) [
          | inl null ↦
              rw (set_new-null entry vm some_entry absent null)
                (inl (refl, (==_iff _ _).0 null, refl, AllSame-refl vm.words used))
          | inr page ↦
              let c = (alloc_mem vm.pool).0 in
              let c_ne : c ≢ 0 = ground arith in
              let (was, ic, less) = sound.gives vm.pool c_ne in
              let i = index v (suc level) in
              let i_lt = index-lt v level le in
              let t_ne : t ≢ c = λ e. taken (rw (sym e) at was) in
              let w1 = clear c 1 vm.words in
              let was_clear : vm.words entry ≡ 0 = empty (ground arith) in
              let clear_now : w1 entry ≡ 0 =
                clear-SameTable c t vm.words ic it (λ e. t_ne (sym e)) i i_lt ∙ was_clear in
              let e1 = with_bit 0 true (with_addr (v2p c / 2 ^ 12) 0) in
              let w2 = put entry 0 e1 w1 in
              let (f0, f7, fp) = fresh-fields c ic in
              let here : w2 entry ≡ e1 = put_here entry e1 w1 in
              let gone : ¬ Free (alloc_mem vm.pool).1 c = λ f. (less c f).1 refl in
              let zeros : (k : ℕ) → k < 512 → w2 (c + 8 * k) ≡ 0 = λ k hk.
                put-SameTable t c i e1 w1 it ic t_ne i_lt k hk ∙ clear-inside c k vm.words hk in
              let others : (p : ℕ) → IsTable p → c ≢ p → t ≢ p → SameTable vm.words w2 p =
                λ p ip cp tp k hk.
                  put-SameTable t p i e1 w1 it ip tp i_lt k hk
                  ∙ clear-SameTable c p vm.words ic ip cp k hk in
              rw (set_new-page entry vm some_entry absent page, clear_now)
                (inr (record {
                  there = c_ne;
                  kept =
                      AllSame-both vm.words w2 (Free vm.pool) used t c all new
                        (NotIn-free (Free vm.pool) used c was all) others;
                  present = rw here f0;
                  small = λ h. rw here f7;
                  leads = rw here fp;
                  below =
                      Tables-fresh v level w2 (Free (alloc_mem vm.pool).1) c (t ∷ used)
                        (omega arith) ic gone (t_ne, NotIn-free (Free vm.pool) used c was all)
                        zeros;
                  less = λ p f. (less p f).0;
                }))
        ]
      ]
