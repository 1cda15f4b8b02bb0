-- ===== src/Cpu/Controllers/Masked.antt =====
-- Which entries of the I/O APIC are masked after `init_apic`.
use vimos_minimal.Base.{
  inl, inr, ℕ, zero, suc, ◌+◌, ◌*◌, ◌/◌, ◌%◌, ◌^◌, ◌≤◌, ◌<◌, bit_or, ◌≡◌, refl, sym, ap, ◌∙◌, ◌≢◌,
  arith, nat_cases,
}
use vimos_minimal.Cpu.Controllers.{
  Apic, ioapic_write, redirect, ioapic_unmask_interrupt, lapic_eoi, init_lapic, mask_loop,
  max_redirection, init_apic,
}

-- The words of entry `i`.
abbrev pub low_of : Apic → ℕ → ℕ
low_of a i = a.ioapic (0x10 + 2 * i)

abbrev pub high_of : Apic → ℕ → ℕ
high_of a i = a.ioapic (0x10 + 2 * i + 1)

abbrev pub HasEntry : Apic → ℕ → ℕ → ℕ → Type 0
HasEntry a i low high = (low_of a i ≡ low) × (high_of a i ≡ high)

redirect_self : (a : Apic) (i low : ℕ) → HasEntry (redirect i low a) i low 0
unfolding redirect ioapic_write
redirect_self a i low = (ground arith, ground arith)

redirect_ne :
    (a : Apic) (i j low : ℕ) → i ≢ j → HasEntry (redirect i low a) j (low_of a j) (high_of a j)
unfolding redirect ioapic_write
redirect_ne a i j low ne = (ground arith, ground arith)

mask_loop_below :
    (left i : ℕ) (a : Apic) (j : ℕ)
    → j < i
    → HasEntry (mask_loop left i a) j (low_of a j) (high_of a j)
unfolding mask_loop
mask_loop_below zero i a j lt = (refl, refl)
mask_loop_below (suc left) i a j lt =
    let b = redirect i (bit_or (0x20 + i) 0x1_0000) a in
    let (l, h) = mask_loop_below left (i + 1) b j (omega arith) in
    let (l', h') = redirect_ne a i j (bit_or (0x20 + i) 0x1_0000) (omega arith) in (l ∙ l', h ∙ h')

mask_loop_above :
    (left i : ℕ) (a : Apic) (j : ℕ)
    → i + left ≤ j
    → HasEntry (mask_loop left i a) j (low_of a j) (high_of a j)
unfolding mask_loop
mask_loop_above zero i a j le = (refl, refl)
mask_loop_above (suc left) i a j le =
    let b = redirect i (bit_or (0x20 + i) 0x1_0000) a in
    let (l, h) = mask_loop_above left (i + 1) b j (omega arith) in
    let (l', h') = redirect_ne a i j (bit_or (0x20 + i) 0x1_0000) (omega arith) in (l ∙ l', h ∙ h')

mask_loop_at :
    (left i : ℕ) (a : Apic) (j : ℕ)
    → i ≤ j
    → j < i + left
    → HasEntry (mask_loop left i a) j (bit_or (0x20 + j) 0x1_0000) 0
unfolding mask_loop
mask_loop_at zero i a j le lt = absurd (omega arith)
mask_loop_at (suc left) i a j le lt = elim (nat_cases i j) [
  | inl less ↦
      mask_loop_at left (i + 1) (redirect i (bit_or (0x20 + i) 0x1_0000) a) j (omega arith)
        (omega arith)
  | inr (inl same) ↦
      let b = redirect i (bit_or (0x20 + i) 0x1_0000) a in
      let (l, h) = mask_loop_below left (i + 1) b j (omega arith) in
      let (l', h') = redirect_self a i (bit_or (0x20 + i) 0x1_0000) in
      rw (sym same) (rw (sym same) at l ∙ l', rw (sym same) at h ∙ h')
  | inr (inr more) ↦ absurd (omega arith)
]

max_redirection-init_lapic : (a : Apic) → (init_lapic a).ioapic ≡ a.ioapic
unfolding init_lapic lapic_eoi
max_redirection-init_lapic a = refl

-- The entries after one line has been unmasked.
abbrev pub OneUnmasked : Apic → ℕ → Apic → Type 0
OneUnmasked a irq b =
    HasEntry b irq (0x20 + irq) 0
    × ((j : ℕ) → j < max_redirection a → j ≢ irq → HasEntry b j (bit_or (0x20 + j) 0x1_0000) 0)
    × ((j : ℕ) → max_redirection a ≤ j → HasEntry b j (low_of a j) (high_of a j))

-- After init_apic and then ioapic_unmask_interrupt of a line below the number that init_apic reads
-- from the I/O APIC: the entry of the line leads to vector 32 and its number, not masked; every
-- other entry below that number is masked, with the vector of its own line; and the entries from
-- that number on are as they were before.
pub ioapic_unmask_interrupt-OneUnmasked :
    (a : Apic) (irq : ℕ)
    → irq < max_redirection a
    → OneUnmasked a irq (ioapic_unmask_interrupt irq (init_apic a))
unfolding ioapic_unmask_interrupt init_apic
ioapic_unmask_interrupt-OneUnmasked a irq lt =
    let a1 = init_lapic a in
    let same : a1.ioapic ≡ a.ioapic = max_redirection-init_lapic a in
    let count = max_redirection a1 in
    let same_count : count ≡ max_redirection a = ap (λ f. f 0x01 / 2 ^ 16 % 2 ^ 8) same in
    let b = mask_loop count 0 a1 in
    (
      redirect_self b irq (0x20 + irq),
      (λ j lt' ne.
          let (l, h) = redirect_ne b irq j (0x20 + irq) (λ e. ne (sym e)) in
          let (l', h') = mask_loop_at count 0 a1 j (omega arith) (omega (arith, same_count)) in
          (l ∙ l', h ∙ h')),
      (λ j le.
          let (l, h) = redirect_ne b irq j (0x20 + irq) (omega arith) in
          let (l', h') = mask_loop_above count 0 a1 j (omega (arith, same_count)) in
          (l ∙ l' ∙ ap (λ f. f (0x10 + 2 * j)) same, h ∙ h' ∙ ap (λ f. f (0x10 + 2 * j + 1)) same)),
    )
