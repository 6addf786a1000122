-- ===== src/Idt/Gates.antt =====
-- What idt_init of src/kernel/idt.c leaves in the descriptor table.
use beaner_os.Idt.{
  Idt, Gate, gate, no_gate, idt_entries, idt_set_gate, set_gates, idt_init, pic_remap, out_all,
  clear_tables, irq_handler, isr_handler, register_interrupt_handler, outb,
}
use beaner_os.Base.{
  lt-cases, ℕ, List, length, get_or, zero, suc, ◌+◌, ◌*◌, ◌^◌, ◌≤◌, ◌<◌, ◌≡◌, refl, [], ◌∷◌, arith,
  length-set, get_or-set_self, get_or-set_ne, ◌∙◌, inl, inr, eq-cases, leb, ◌==◌, if◌then◌else◌,
  set, replicate, length-replicate, get_or-replicate, ◌≢◌, some, ==-false_of_ne, ==-refl, sym, ap,
  Bool, true, false, not, Option, none,
}

-- The address that the processor takes from a gate.
abbrev offset_of : Gate → ℕ
offset_of g = g.base_low + g.base_high * 2 ^ 16

gate-offset : (base sel flags : ℕ) → base < 2 ^ 32 → offset_of (gate base sel flags) ≡ base
gate-offset base sel flags small = omega arith

set_gates-length :
    (num : ℕ) (stubs : List ℕ) (s : Idt) → length (set_gates num stubs s).gates ≡ length s.gates
unfolding set_gates idt_set_gate
set_gates-length num [] s = refl
set_gates-length num (stub ∷ rest) s =
    set_gates-length (num + 1) rest (idt_set_gate num stub 0x08 0x8e s)
    ∙ length-set s.gates num (gate stub 0x08 0x8e)

-- The gates below `num` are as they were.
set_gates-before :
    (num i : ℕ) (stubs : List ℕ) (s : Idt)
    → i < num
    → get_or (set_gates num stubs s).gates i no_gate ≡ get_or s.gates i no_gate
unfolding set_gates idt_set_gate
set_gates-before num i [] s before = refl
set_gates-before num i (stub ∷ rest) s before =
    set_gates-before (num + 1) i rest (idt_set_gate num stub 0x08 0x8e s) (omega arith)
    ∙ get_or-set_ne s.gates num i (gate stub 0x08 0x8e) no_gate (omega arith)

set_gates-at :
    (num i j : ℕ) (stubs : List ℕ) (s : Idt)
    → j ≡ num + i
    → i < length stubs
    → num + length stubs ≤ length s.gates
    → get_or (set_gates num stubs s).gates j no_gate ≡ gate (get_or stubs i 0) 0x08 0x8e
unfolding set_gates idt_set_gate
set_gates-at num i j [] s e in_ fits = absurd (omega arith)
set_gates-at num zero j (stub ∷ rest) s e in_ fits =
    let e' : j ≡ num = omega arith in
    rw e' (
      set_gates-before (num + 1) num rest (idt_set_gate num stub 0x08 0x8e s) (omega arith)
      ∙ get_or-set_self s.gates num (gate stub 0x08 0x8e) no_gate (omega arith))
set_gates-at num (suc i) j (stub ∷ rest) s e in_ fits =
    set_gates-at (num + 1) i j rest (idt_set_gate num stub 0x08 0x8e s) (omega arith) (omega arith)
      (omega (arith, length-set s.gates num (gate stub 0x08 0x8e)))

set_gates-behind :
    (num i : ℕ) (stubs : List ℕ) (s : Idt)
    → (num + length stubs ≤ i)
    → get_or (set_gates num stubs s).gates i no_gate ≡ get_or s.gates i no_gate
unfolding set_gates idt_set_gate
set_gates-behind num i [] s behind = refl
set_gates-behind num i (stub ∷ rest) s behind =
    set_gates-behind (num + 1) i rest (idt_set_gate num stub 0x08 0x8e s) (omega arith)
    ∙ get_or-set_ne s.gates num i (gate stub 0x08 0x8e) no_gate (omega arith)

out_all-gates : (outs : List (ℕ × ℕ)) (s : Idt) → (out_all outs s).gates ≡ s.gates
unfolding out_all
out_all-gates [] s = refl
out_all-gates ((port, value) ∷ rest) s = out_all-gates rest _

-- What the processor finds at `i`: the gate of a stub, or none.
pub data IsGateOf (stubs : List ℕ) (i : ℕ) (g : Gate) : Type 0 where
  stub :
      i < 48
      → offset_of g ≡ get_or stubs i 0
      → g.selector ≡ 0x08
      → g.flags ≡ 0x8e
      → IsGateOf stubs i g
  absent : 48 ≤ i → g ≡ no_gate → IsGateOf stubs i g

remapped-gates : (s : Idt) → (pic_remap (clear_tables s)).gates ≡ replicate idt_entries no_gate
unfolding pic_remap clear_tables
remapped-gates s = out_all-gates _ _

-- Of 48 stubs, with that of vector `i` below 2 ^ 32 if there is one, `idt_init` leaves at `i` a
-- gate that leads to the stub, in segment 0x08 with flags 0x8e, for the first 48 vectors, and no
-- gate for the others.
pub idt_init-IsGateOf :
    (stubs : List ℕ) (s : Idt) (i : ℕ)
    → length stubs ≡ 48
    → get_or stubs i 0 < 2 ^ 32
    → IsGateOf stubs i (get_or (idt_init stubs s).gates i no_gate)
unfolding idt_init
idt_init-IsGateOf stubs s i size small =
    let t = pic_remap (clear_tables s) in
    let empty = remapped-gates s in
    let wide : length t.gates ≡ 256 = rw empty (length-replicate 256 no_gate) in
    elim (lt-cases i 48) [
      | inl lt ↦
          rw (set_gates-at 0 i i stubs t (omega arith) (omega arith) (omega arith))
            (stub lt (gate-offset (get_or stubs i 0) 0x08 0x8e small) refl refl)
      | inr ge ↦
          absent ge
            (set_gates-behind 0 i stubs t (omega arith) ∙ rw empty (get_or-replicate 256 i no_gate))
    ]

-- The ports that irq_handler writes for an interrupt, the last first.
abbrev pub acknowledged : (int_no : ℕ) → List (ℕ × ℕ) → List (ℕ × ℕ)
acknowledged int_no outs = (0x20, 0x20) ∷ (if leb 40 int_no then (0xa0, 0x20) ∷ outs else outs)

slave_ack : (high : Bool) (s : Idt) → Idt
slave_ack high s = if high then outb 0xa0 0x20 s else s

slave_ack-handlers : (high : Bool) (s : Idt) → (slave_ack high s).handlers ≡ s.handlers
unfolding slave_ack
slave_ack-handlers true s = refl
slave_ack-handlers false s = refl

slave_ack-outs :
    (high : Bool) (s : Idt)
    → (slave_ack high s).outs ≡ (if high then (0xa0, 0x20) ∷ s.outs else s.outs)
unfolding slave_ack
slave_ack-outs true s = refl
slave_ack-outs false s = refl

-- What irq_handler calls, and what it writes.
abbrev pub handler_in : (handlers : List ℕ) (int_no : ℕ) → Option ℕ
handler_in handlers int_no =
    let handler = get_or handlers int_no 0 in if not (handler == 0) then some handler else none

pub irq_handler-call :
    (int_no : ℕ) (s : Idt) → (irq_handler int_no s).0 ≡ handler_in s.handlers int_no
unfolding irq_handler isr_handler slave_ack
irq_handler-call int_no s = ap (λ hs. handler_in hs int_no) (slave_ack-handlers (leb 40 int_no) s)

set-handler_in :
    (handlers : List ℕ) (n handler int_no : ℕ)
    → n < length handlers
    → handler ≢ 0
    → handler_in (set handlers n handler) int_no
      ≡ (if n == int_no then some handler else handler_in handlers int_no)
set-handler_in handlers n handler int_no in_ real = elim (eq-cases n int_no) [
  | inl e ↦
      rw (← e, ==-refl n, get_or-set_self handlers n handler 0 in_, ==-false_of_ne handler 0 real)
        refl
  | inr ne ↦ rw (==-false_of_ne n int_no ne, get_or-set_ne handlers n int_no handler 0 ne) refl
]

-- Once a handler, not NULL, is registered for a vector inside the table, `irq_handler` calls it
-- for that vector, and for any other what it called before; it acknowledges to the first
-- controller, and from vector 40 on to the second one before that.
pub irq_handler-register :
    (n handler int_no : ℕ) (s : Idt)
    → n < length s.handlers
    → handler ≢ 0
    → ((irq_handler int_no (register_interrupt_handler n handler s)).0
        ≡ (if n == int_no then some handler else (irq_handler int_no s).0))
      × ((irq_handler int_no (register_interrupt_handler n handler s)).1.outs
          ≡ acknowledged int_no s.outs)
unfolding register_interrupt_handler irq_handler isr_handler slave_ack
irq_handler-register n handler int_no s in_ real = (
  irq_handler-call int_no (register_interrupt_handler n handler s)
      ∙ set-handler_in s.handlers n handler int_no in_ real
      ∙ ap (λ o. if n == int_no then some handler else o) (sym (irq_handler-call int_no s)),
  ap (λ o. (0x20, 0x20) ∷ o)
      (slave_ack-outs (leb 40 int_no) (register_interrupt_handler n handler s)),
)

out_all-handlers : (outs : List (ℕ × ℕ)) (s : Idt) → (out_all outs s).handlers ≡ s.handlers
unfolding out_all
out_all-handlers [] s = refl
out_all-handlers ((port, value) ∷ rest) s = out_all-handlers rest _

set_gates-handlers :
    (num : ℕ) (stubs : List ℕ) (s : Idt) → (set_gates num stubs s).handlers ≡ s.handlers
unfolding set_gates idt_set_gate
set_gates-handlers num [] s = refl
set_gates-handlers num (target ∷ rest) s =
    set_gates-handlers (num + 1) rest (idt_set_gate num target 0x08 0x8e s)

-- `idt_init` takes away the handlers that were registered before it.
pub idt_init-handlers :
    (stubs : List ℕ) (s : Idt) → (idt_init stubs s).handlers ≡ replicate idt_entries 0
unfolding idt_init pic_remap clear_tables
idt_init-handlers stubs s =
    set_gates-handlers 0 stubs (pic_remap (clear_tables s)) ∙ out_all-handlers _ (clear_tables s)

-- The processor is given the table, 256 entries of 8 bytes.
pub idt_init-loaded : (stubs : List ℕ) (s : Idt) → (idt_init stubs s).loaded ≡ some (2047, s.table)
unfolding idt_init pic_remap clear_tables
idt_init-loaded stubs s = refl
