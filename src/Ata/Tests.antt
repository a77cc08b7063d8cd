-- ===== src/Ata/Tests.antt =====
-- The ATA driver with hardware that answers at once: BSY and ERR are clear, DRQ is set.
use aerogel.Common.{◌≡◌, refl, [], true}
use aerogel.Io.{Bus}
use aerogel.Ata.{
  Drive, ata_primary_base, ata_primary_alt, read, wait_busy, busy_loop, write_sectors, wait_drq,
  drq_loop, write_words, write,
}
use aerogel.Ata.Transfer.{IsContained, read-IsContained, sectors_out, ask_write, write_lem}

abbrev ready_bus : Bus
ready_bus = record { answers = λ _. 0x08; reads = 0; outs = [] }

abbrev master : Drive
master = record {
  present = true;
  base = ata_primary_base;
  alt = ata_primary_alt;
  slave = 0;
  sectors = 1000;
  model = λ _. 0;
}

read-IsContained_example :
    IsContained master 7 2 (λ _. 5) ready_bus (read (λ _. master) 0 7 2 (λ _. 5) ready_bus)
read-IsContained_example = read-IsContained (λ _. master) 0 7 2 (λ _. 5) ready_bus

write_lem_example :
    (write (λ _. master) 0 7 1 (λ i. i) ready_bus).1.outs
    ≡ sectors_out ata_primary_base (λ i. i) 1 (ask_write master 7 1 [])
unfolding write wait_busy busy_loop write_sectors wait_drq drq_loop write_words
write_lem_example = write_lem (λ _. master) 0 7 1 (λ i. i) ready_bus refl
