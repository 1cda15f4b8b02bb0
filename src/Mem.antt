-- ===== src/Mem.antt =====
-- kernel/mem.c: the list of free page runs, over an explicit memory of list nodes.
-- A node stands at the address of the first byte of its run; `memlist`, the static head, stands
-- apart from them. Nodes are at multiples of 4096, so two nodes never overlap.
pub mod Post
pub mod Chain
pub mod Alloc
pub mod Free
pub mod Init
mod Tests
use vimos_minimal.Base.{
  ℕ, zero, suc, ◌+◌, ◌*◌, Bool, true, false, ◌&&◌, ◌||◌, not, List, [], ◌∷◌, ltb, leb, ◌==◌,
  if◌then◌else◌, u16, u32, u64, sub32,
}

-- `struct memlist`
pub record Node : Type 0 where
  pub next : ℕ
  pub pages : ℕ

abbrev pub node : ℕ → ℕ → Node
node q n = record { next = q; pages = n }

pub record Mem : Type 0 where
  pub head : Node
  pub cell : ℕ → Node

-- A `struct memlist *` that is no null: the address of the static `memlist`, or another one.
pub data Ref : Type 0 where
  header : Ref
  at : ℕ → Ref

-- `fault` is a read or a write through NULL.
pub data Run (A : Type 0) : Type 0 where
  done : A → Mem → Run A
  fault : Run A
  out_of_fuel : Run A

abbrev pub M : Type 0 → Type 0
M A = Mem → Run A

module _ {A B : Type 0} where
  abbrev pub and_then : Run A → (A → M B) → Run B
  and_then (done a h) k = k a h
  and_then fault k = fault
  and_then out_of_fuel k = out_of_fuel

  infixl 5 ◌>>=◌ ◌>>◌
  abbrev pub ◌>>=◌ : M A → (A → M B) → M B
  m >>= k = λ h. and_then (m h) k

  abbrev pub ◌>>◌ : M A → M B → M B
  m >> k = m >>= λ _. k

abbrev pub pure : {A : Type 0} → A → M A
pure = done

abbrev pub fetch : Ref → Mem → Node
fetch header h = h.head
fetch (at p) h = h.cell p

abbrev pub assign : Ref → Node → Mem → Mem
assign header n h = record h { head = n }
assign (at p) n h = record h { cell = λ a. if a == p then n else h.cell a }

abbrev pub is_null : Ref → Bool
is_null header = false
is_null (at p) = p == 0

unfoldable pub load : Ref → M Node
load r h = if is_null r then fault else done (fetch r h) h

unfoldable pub store : Ref → Node → M (Unit {0})
store r n h = if is_null r then fault else done tt (assign r n h)

-- `r->next = q`
unfoldable pub set_next : Ref → ℕ → M (Unit {0})
unfolding load store
set_next r q = do n ← load r; store r (record n { next = q })

-- `r->pages = n`
unfoldable pub set_pages : Ref → ℕ → M (Unit {0})
unfolding load store
set_pages r k = do n ← load r; store r (record n { pages = k })

-- `4096 * pages` is computed in `uint32_t`, and added to a 64-bit address.
abbrev pub end_of : ℕ → ℕ → ℕ
end_of p pages = u64 (p + u32 (4096 * pages))

-- The branch of `alloc_mem` that cuts a run in two.
unfoldable pub split : ℕ → Ref → ℕ → M ℕ
unfolding load set_next set_pages
split pages prev m = do
  let ml = end_of m pages
  set_next prev ml
  n ← load (at m)
  set_next (at ml) n.next
  n' ← load (at m)
  set_pages (at ml) (sub32 n'.pages pages)
  pure m

-- The loop of `alloc_mem`, on fuel.
unfoldable pub alloc_loop : ℕ → ℕ → Ref → ℕ → M ℕ
unfolding load set_next split
alloc_loop zero pages prev m = λ _. out_of_fuel
alloc_loop (suc fuel) pages prev m = if m == 0 then pure 0 else do
  n ← load (at m)
  if n.pages == pages
      then (do set_next prev n.next; pure m)
      else if leb pages n.pages
      then split pages prev m
      else alloc_loop fuel pages (at m) n.next

-- NULL is 0.
unfoldable pub alloc_mem : ℕ → ℕ → M ℕ
unfolding alloc_loop
alloc_mem fuel pages h = alloc_loop fuel pages header h.head.next h

-- "not merged any block (before all memlists)"
unfoldable pub insert_front : ℕ → ℕ → Ref → ℕ → M ℕ
unfolding set_next set_pages
insert_front ptr pages (at p) m = pure m
insert_front ptr pages header m =
    if ltb ptr m
    then (do set_next header ptr; set_next (at ptr) m; set_pages (at ptr) pages; pure ptr)
    else pure m

-- "not merged any block"
unfoldable pub insert_after : ℕ → ℕ → Ref → ℕ → M ℕ
unfolding load set_next set_pages
insert_after ptr pages header m = pure m
insert_after ptr pages (at p) m = do
  n ← load (at p)
  if ltb (end_of p n.pages) ptr
      then (do
        n' ← load (at p)
        set_next (at ptr) n'.next
        set_next (at p) ptr
        set_pages (at ptr) pages
        pure ptr)
      else pure m

-- "merge next block"
unfoldable pub merge_next : ℕ → ℕ → Ref → ℕ → M ℕ
unfolding load set_next set_pages
merge_next ptr pages prev m =
    if end_of ptr pages == m
    then (do
      set_next prev ptr
      n ← load (at m)
      set_next (at ptr) n.next
      n' ← load (at m)
      set_pages (at ptr) (u32 (pages + n'.pages))
      p ← load prev
      pure p.next)
    else pure m

-- "merge prev block"
unfoldable pub merge_prev : ℕ → ℕ → ℕ → M (Unit {0})
unfolding load set_pages
merge_prev ptr pages m = do
  n ← load (at m)
  if end_of m n.pages == ptr then set_pages (at m) (u32 (n.pages + pages)) else pure tt

-- The body of the loop of `free_mem`, which may change `m`.
unfoldable pub free_round : ℕ → ℕ → Ref → ℕ → M ℕ
unfolding insert_front insert_after merge_next merge_prev
free_round ptr pages prev m = do
  m ← insert_front ptr pages prev m
  m ← insert_after ptr pages prev m
  m ← merge_next ptr pages prev m
  merge_prev ptr pages m
  pure m

unfoldable pub free_loop : ℕ → ℕ → ℕ → Ref → ℕ → M (Unit {0})
unfolding free_round load
free_loop zero ptr pages prev m = λ _. out_of_fuel
free_loop (suc fuel) ptr pages prev m =
    if m == 0
    then pure tt
    else do m ← free_round ptr pages prev m; n ← load (at m); free_loop fuel ptr pages (at m) n.next

unfoldable pub free_mem : ℕ → ℕ → ℕ → M (Unit {0})
unfolding free_loop
free_mem fuel ptr pages h = free_loop fuel ptr pages header h.head.next h
