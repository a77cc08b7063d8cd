-- ===== src/Pit/Sleep.antt =====
-- How long `pit_sleep_ms` of drivers/timer/pit.c waits.
use aerogel.Common.{
  ℕ, zero, suc, ◌+◌, ◌*◌, ◌%◌, ◌^◌, ◌<◌, ◌≡◌, refl, sym, ap, ◌∙◌, arith, ltb, true, false, some,
}
use aerogel.Pit.{Pit, pit_handler, sleep_loop, pit_sleep_ms}

sleep_loop_lem :
    (fuel n : ℕ) (s : Pit)
    → s.tick_count + n < 2 ^ 64
    → n < fuel
    → sleep_loop fuel (s.tick_count + n) s ≡ some (record s { tick_count = s.tick_count + n })
unfolding sleep_loop pit_handler
sleep_loop_lem zero n s low enough = absurd (omega arith)
sleep_loop_lem (suc f) zero s low enough = rw (over, zero_more) refl
  where
    over : ltb s.tick_count (s.tick_count + 0) ≡ false
    over = ground arith

    zero_more : s.tick_count + 0 ≡ s.tick_count
    zero_more = omega arith
sleep_loop_lem (suc f) (suc n) s low enough = rw waits (
    ap (λ t. sleep_loop f t (pit_handler s)) same
    ∙ sleep_loop_lem f n (pit_handler s) (omega (arith, low)) (omega arith)
    ∙ ap (λ t. some (record s { tick_count = t })) (sym same))
  where
    waits : ltb s.tick_count (s.tick_count + suc n) ≡ true
    waits = ground arith

    same : s.tick_count + suc n ≡ (s.tick_count + 1) % 2 ^ 64 + n
    same = omega (arith, low)

-- With enough fuel a sleep ends when `ms` times `ticks_per_ms` ticks have passed, if the counter does not
-- overflow before.
pit_sleep_ms_lem :
    (fuel ms : ℕ) (s : Pit)
    → s.tick_count + ms * s.ticks_per_ms < 2 ^ 64
    → ms * s.ticks_per_ms < fuel
    → pit_sleep_ms fuel ms s ≡ some (record s { tick_count = s.tick_count + ms * s.ticks_per_ms })
unfolding pit_sleep_ms
pit_sleep_ms_lem fuel ms s low enough =
    ap (λ t. sleep_loop fuel t s) target ∙ sleep_loop_lem fuel (ms * s.ticks_per_ms) s low enough
  where
    target :
        (s.tick_count + ms * s.ticks_per_ms % 2 ^ 64) % 2 ^ 64 ≡ s.tick_count + ms * s.ticks_per_ms
    target = omega (arith, low)
