-- ===== src/Interrupts.antt =====
-- The dispatch of interrupts and the interrupt controller, arch/x86/cpu/isr.c and arch/x86_64/cpu/isr.c, which agree
-- but for the text of the panic. A handler is a function of the frame and of the machine: the ports and the rest,
-- `K`. What a handler writes to the frame does not reach `isr_dispatch`, which reads the number before.
pub mod Dispatch
pub mod Masks
use aerogel.Common.{
  ℕ, zero, suc, ◌+◌, ◌-◌, ◌%◌, ◌^◌, Bool, ◌&&◌, ltb, leb, if◌then◌else◌, List, ◌∷◌, Option, none,
  some,
}
use aerogel.Common.Array.{Array, update}
use aerogel.Common.Bytes.{with_bit, without_bit}
use aerogel.Io.{Access, out8, Bus, inb, send}
use aerogel.Tables.{IdtEntry, idt_init}

abbrev pub pic1_cmd : ℕ
pic1_cmd = 0x20

abbrev pub pic1_data : ℕ
pic1_data = 0x21

abbrev pub pic2_cmd : ℕ
pic2_cmd = 0xA0

abbrev pub pic2_data : ℕ
pic2_data = 0xA1

abbrev pub pic_eoi : ℕ
pic_eoi = 0x20

-- `outb(port, v); io_wait();`
abbrev pub slow_out : (port v : ℕ) → Bus → Bus
slow_out port v b = send (out8 0x80 0) (send (out8 port v) b)

pub pic_remap : Bus → Bus
pic_remap b =
    let b1 = slow_out pic2_cmd 0x11 (slow_out pic1_cmd 0x11 b) in
    let b2 = slow_out pic2_data 0x28 (slow_out pic1_data 0x20 b1) in
    let b3 = slow_out pic2_data 0x02 (slow_out pic1_data 0x04 b2) in
    let b4 = slow_out pic2_data 0x01 (slow_out pic1_data 0x01 b3) in
    send (out8 pic2_data 0xFF) (send (out8 pic1_data 0xFF) b4)

pub pic_send_eoi : ℕ → Bus → Bus
pic_send_eoi irq b =
    let b1 = if leb 8 irq then send (out8 pic2_cmd pic_eoi) b else b in
    send (out8 pic1_cmd pic_eoi) b1

abbrev pub data_port : ℕ → ℕ
data_port irq = if ltb irq 8 then pic1_data else pic2_data

abbrev pub line_bit : ℕ → ℕ
line_bit irq = if ltb irq 8 then irq else irq - 8

pub pic_mask_irq : ℕ → Bus → Bus
pic_mask_irq irq b =
    let (v, b1) = inb b in send (out8 (data_port irq) (with_bit v (line_bit irq))) b1

pub pic_unmask_irq : ℕ → Bus → Bus
pic_unmask_irq irq b =
    let (v, b1) = inb b in send (out8 (data_port irq) (without_bit v (line_bit irq))) b1

-- `isr_frame_t`, the fields that are read here
pub record Frame : Type 0 where
  pub int_no : ℕ
  pub err_code : ℕ
  pub ip : ℕ

-- `kpanic` does not return.
pub data Dispatched (K : Type 0) : Type 0 where
  returned : Bus → K → Dispatched K
  panicked : Frame → Bus → K → Dispatched K

abbrev pub Handler : Type 0 → Type 0
Handler K = Frame → Bus → K → Bus × K

module _ {K : Type 0} where
  pub isr_register : (num : ℕ) → Handler K → Array (Option (Handler K)) → Array (Option (Handler K))
  isr_register num handler handlers = update handlers num (some handler)

  -- `isr_dispatch` from the acknowledgement on
  pub acknowledge : ℕ → Bus × K → Dispatched K
  unfolding pic_send_eoi
  acknowledge num (b, k) =
      returned (if leb 32 num && ltb num 48 then pic_send_eoi (num - 32) b else b) k

  pub isr_dispatch : Array (Option (Handler K)) → Frame → Bus → K → Dispatched K
  unfolding acknowledge
  isr_dispatch handlers frame b k = elim (handlers frame.int_no) [
    | some h ↦ acknowledge frame.int_no (h frame b k)
    | none ↦ if ltb frame.int_no 32 then panicked frame b k else acknowledge frame.int_no (b, k)
  ]

-- the handlers, the ports and the gates
pub isr_init :
    (K : Type 0) (idt_at : ℕ) (stubs : Array ℕ)
    → Array IdtEntry
    → Bus
    → Array (Option (Handler K)) × Bus × Array IdtEntry
unfolding pic_remap
isr_init K idt_at stubs idt b = (λ _. none, pic_remap b, (idt_init idt_at stubs idt).0)
