-- ===== src/Interrupts/Masks.antt =====
-- The masks of the interrupt controllers that arch/x86/cpu/isr.c sets.
use aerogel.Common.{ℕ, ◌%◌, ◌^◌, ◌<◌, ◌≡◌, refl, arith, ◌==◌, if◌then◌else◌, ◌∷◌}
use aerogel.Common.Bytes.{bit, with_bit, without_bit, bit-with_bit, bit-without_bit}
use aerogel.Io.{out8, Bus}
use aerogel.Interrupts.{data_port, line_bit, pic_mask_irq, pic_unmask_irq}

-- For a line below 16 both operations write to the data port of the line's controller, once. Whatever mask the
-- controller answers, the bit of the line is set by `pic_mask_irq` and cleared by `pic_unmask_irq`, and each other bit
-- is as the controller had it.
pub pic_mask-unmask :
    (irq j : ℕ) (b : Bus)
    → irq < 16
    → j < 8
    → (v u : ℕ) × ((pic_mask_irq irq b).outs ≡ out8 (data_port irq) v ∷ b.outs)
      × ((pic_unmask_irq irq b).outs ≡ out8 (data_port irq) u ∷ b.outs)
      × (bit v j ≡ (if line_bit irq == j then 1 else bit (b.answers b.reads % 2 ^ 8) j))
      × (bit u j ≡ (if line_bit irq == j then 0 else bit (b.answers b.reads % 2 ^ 8) j))
unfolding pic_mask_irq pic_unmask_irq
pic_mask-unmask irq j b low in_byte =
    let old : ℕ = b.answers b.reads % 2 ^ 8 in
    let line : line_bit irq < 8 = ground (arith, low) in
    (
      with_bit old (line_bit irq),
      without_bit old (line_bit irq),
      refl,
      refl,
      (bit-with_bit old (line_bit irq) j (omega arith) line in_byte).0,
      (bit-without_bit old (line_bit irq) j (omega arith) line in_byte).0,
    )
