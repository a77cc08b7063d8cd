-- ===== src/Pit.antt =====
-- The timer, drivers/timer/pit.c. The registration of the handler and the mask of the interrupt controller are
-- left out.
mod Sleep
use aerogel.Common.{
  ℕ, zero, suc, ◌+◌, ◌*◌, ◌/◌, ◌%◌, ◌^◌, ◌==◌, ltb, if◌then◌else◌, Option, none, some,
}
use aerogel.Io.{Bus, out8, send}

abbrev pub pit_base_hz : ℕ
pit_base_hz = 1193182

abbrev pub pit_cmd : ℕ
pit_cmd = 0x43

abbrev pub pit_ch0 : ℕ
pit_ch0 = 0x40

pub record Pit : Type 0 where
  pub tick_count : ℕ
  pub ticks_per_ms : ℕ

pub pit_handler : Pit → Pit
pit_handler s = record s { tick_count = (s.tick_count + 1) % 2 ^ 64 }

pub pit_init : (hz : ℕ) → Pit → Bus → Pit × Bus
pit_init hz s b =
    let divisor = pit_base_hz / hz in
    let b1 = send (out8 pit_cmd 0x36) b in
    let b2 = send (out8 pit_ch0 (divisor % 2 ^ 8)) b1 in
    (
      record s { ticks_per_ms = if hz / 1000 == 0 then 1 else hz / 1000 },
      send (out8 pit_ch0 (divisor / 2 ^ 8 % 2 ^ 8)) b2,
    )

-- The loop of `pit_sleep_ms`, where each `hlt` lets one tick pass; `none` when the fuel runs out.
pub sleep_loop : (fuel target : ℕ) → Pit → Option Pit
unfolding pit_handler
sleep_loop zero target s = none
sleep_loop (suc f) target s =
    let rest = sleep_loop f target (pit_handler s) in
    if ltb s.tick_count target then rest else some s

pub pit_sleep_ms : (fuel ms : ℕ) → Pit → Option Pit
unfolding sleep_loop
pit_sleep_ms fuel ms s = sleep_loop fuel ((s.tick_count + ms * s.ticks_per_ms % 2 ^ 64) % 2 ^ 64) s
