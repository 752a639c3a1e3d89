-- ===== src/Idt/Table.antt =====
-- What the loaded table holds.
use wig_osx.Base.{
  ℕ, ◌+◌, ◌-◌, ◌*◌, ◌/◌, ◌%◌, ◌<◌, ◌≤◌, ◌≡◌, refl, ◌∙◌, ap, Bool, true, false, ◌&&◌, arith, ltb,
  leb, ◌==◌, if◌then◌else◌, bit_and,
}
use wig_osx.Base.Bits.{bit_and-ones}
use wig_osx.Base.Loops.{for_range, for_range_inv}
use wig_osx.Idt.{
  IdtEntry, set_gate, set_stub_gates, install_cpu_exceptions, install_hardware_interrupts,
  initialize, table_pointer, kernel_code_selector, interrupt_gate_ring0,
}

-- The gate of an address, and the address of a gate.
abbrev pub gate : ℕ → ℕ → ℕ → IdtEntry
gate address selector flags = record {
  base_low = address % 65536;
  selector = selector;
  reserved = 0;
  flags = flags;
  base_high = address / 65536 % 65536;
}

abbrev pub handler_address : IdtEntry → ℕ
handler_address e = e.base_low + e.base_high * 65536

set_gate_lem :
    (entries : ℕ → IdtEntry) (i a s f v : ℕ)
    → set_gate entries i a s f v ≡ (if i == v then gate a s f else entries v)
unfolding set_gate
set_gate_lem entries i a s f v =
    ap
      (λ (x : ℕ × ℕ).
        if i == v
        then record { base_low = x.0; selector = s; reserved = 0; flags = f; base_high = x.1 }
        else entries v)
      {y = (a % 65536, a / 65536 % 65536)}
      ((ap (λ (x : ℕ). (x, bit_and (a / 65536) 0xFFFF)) (bit_and-ones 16 a))
        ∙ ap (λ (x : ℕ). (a % 65536, x)) (bit_and-ones 16 (a / 65536)))

-- Each gate set by a loop, the others unchanged.
gates_lem :
    (count first : ℕ) (at : ℕ → IdtEntry) (entries : ℕ → IdtEntry)
    (body : ℕ → (ℕ → IdtEntry) → ℕ → IdtEntry)
    → ((k : ℕ) (e : ℕ → IdtEntry) (v : ℕ) → body k e v ≡ (if first + k == v then at k else e v))
    → (v : ℕ)
    → for_range count 0 body entries v
      ≡ (if leb first v && ltb v (first + count) then at (v - first) else entries v)
gates_lem count first at entries body round =
    for_range_inv
      (λ n e.
        (v : ℕ) → e v ≡ (if leb first v && ltb v (first + n) then at (v - first) else entries v))
      body count 0 count entries (omega arith)
      (λ n e lo hi h v. ground (arith, round n e v, h v, ap at {x = n} {y = v - first}))
      (λ v. ground arith)

set_stub_gates_lem :
    (count first : ℕ) (stub : ℕ → ℕ) (entries : ℕ → IdtEntry) (v : ℕ)
    → set_stub_gates count first stub entries v ≡ (
        if leb first v && ltb v (first + count)
        then gate (stub (v - first)) kernel_code_selector interrupt_gate_ring0
        else entries v)
unfolding set_stub_gates
set_stub_gates_lem count first stub entries v =
    gates_lem count first (λ k. gate (stub k) kernel_code_selector interrupt_gate_ring0) entries _
      (λ k e w. set_gate_lem e (first + k) (stub k) kernel_code_selector interrupt_gate_ring0 w) v

empties_lem :
    (entries : ℕ → IdtEntry) (v : ℕ)
    → v < 256
    → for_range 256 0 (λ i e. set_gate e i 0 0 0) entries v ≡ gate 0 0 0
empties_lem entries v h =
    gates_lem 256 0 (λ k. gate 0 0 0) entries (λ i e. set_gate e i 0 0 0)
      (λ k e w. set_gate_lem e k 0 0 0 w ∙ ground arith) v
    ∙ ground arith

entry_lem :
    (isr irq : ℕ → ℕ) (entries : ℕ → IdtEntry) (v : ℕ)
    → v < 256
    → initialize isr irq entries v ≡ (
        if ltb v 32
        then gate (isr v) kernel_code_selector interrupt_gate_ring0
        else if ltb v 48
        then gate (irq (v - 32)) kernel_code_selector interrupt_gate_ring0
        else gate 0 0 0)
unfolding initialize install_cpu_exceptions install_hardware_interrupts
entry_lem isr irq entries v h =
    let empty = for_range 256 0 (λ i e. set_gate e i 0 0 0) entries in
    ground (
      arith,
      set_stub_gates_lem 16 32 irq (set_stub_gates 32 0 isr empty) v,
      set_stub_gates_lem 32 0 isr empty v,
      empties_lem entries v h,
    )

handler_address-gate : (a s f : ℕ) → a < 4294967296 → handler_address (gate a s f) ≡ a
handler_address-gate a s f h = omega arith

choose_address :
    (b c : Bool) (x y s f : ℕ)
    → x < 4294967296
    → y < 4294967296
    → handler_address (if b then gate x s f else if c then gate y s f else gate 0 0 0)
      ≡ (if b then x else if c then y else 0)
choose_address true c x y s f h p = handler_address-gate x s f h
choose_address false true x y s f h p = handler_address-gate y s f p
choose_address false false x y s f h p = refl

-- The table that `idt_initialize` loads has, whatever it held before: at the vectors 0 to 31 interrupt gates of
-- the kernel for the stubs of the CPU exceptions, at 32 to 47 for the stubs of the hardware lines, and at 48
-- to 255 empty entries; and a gate's two halves make up the address of its stub. The bytes of each entry lie
-- within the limit that is loaded with the table.
pub initialize-gates :
    (isr irq : ℕ → ℕ) (entries : ℕ → IdtEntry) (v address : ℕ)
    → v < 256
    → ((k : ℕ) → isr k < 4294967296)
    → ((k : ℕ) → irq k < 4294967296)
    → (initialize isr irq entries v ≡ (
        if ltb v 32
        then gate (isr v) kernel_code_selector interrupt_gate_ring0
        else if ltb v 48
        then gate (irq (v - 32)) kernel_code_selector interrupt_gate_ring0
        else gate 0 0 0))
      × (handler_address (initialize isr irq entries v)
          ≡ (if ltb v 32 then isr v else if ltb v 48 then irq (v - 32) else 0))
      × (v * 8 + 7 ≤ (table_pointer address).limit)
unfolding table_pointer
initialize-gates isr irq entries v address h p q =
    let e = entry_lem isr irq entries v h in
    (
      e,
      ap handler_address e
          ∙ choose_address (ltb v 32) (ltb v 48) (isr v) (irq (v - 32)) kernel_code_selector
              interrupt_gate_ring0 (p v) (q (v - 32)),
      omega (arith, h),
    )
