-- ===== src/Interrupts/Dispatch.antt =====
-- What `isr_dispatch` of arch/x86/cpu/isr.c does with an interrupt, before and after a handler is registered.
use aerogel.Common.{
  ℕ, ◌≡◌, ap, arith, ◌==◌, ltb, if◌then◌else◌, List, [], ◌∷◌, ◌++◌, Option, none, some,
}
use aerogel.Common.Array.{Array}
use aerogel.Io.{Access, out8, Bus}
use aerogel.Interrupts.{
  pic_send_eoi, Frame, Dispatched, returned, panicked, Handler, isr_register, acknowledge,
  isr_dispatch,
}

-- What the controllers are told at the end of the interrupt `num`, the newest first: both of them for the lines of
-- the second one, the first one alone for its own lines, and nothing for an exception.
abbrev pub ends_of : ℕ → List Access
ends_of num =
    if ltb num 32
    then []
    else if ltb num 40
    then out8 0x20 0x20 ∷ []
    else if ltb num 48
    then out8 0x20 0x20 ∷ out8 0xA0 0x20 ∷ []
    else []

abbrev pub ended : ℕ → Bus → Bus
ended num b = record b { outs = ends_of num ++ b.outs }

module _ {K : Type 0} where
  acknowledge_lem : (num : ℕ) (b : Bus) (k : K) → acknowledge num (b, k) ≡ returned (ended num b) k
  unfolding acknowledge pic_send_eoi
  acknowledge_lem num b k = ground arith

  -- what `isr_dispatch` does with the handler that stands in the table
  abbrev pub handled : Option (Handler K) → Frame → Bus → K → Dispatched K
  handled (some h) frame b k = returned (ended frame.int_no (h frame b k).0) (h frame b k).1
  handled none frame b k =
      if ltb frame.int_no 32 then panicked frame b k else returned (ended frame.int_no b) k

  isr_dispatch_lem :
      (handlers : Array (Option (Handler K))) (frame : Frame) (b : Bus) (k : K)
      → isr_dispatch handlers frame b k ≡ handled (handlers frame.int_no) frame b k
  unfolding isr_dispatch
  isr_dispatch_lem handlers frame b k = by_handler (handlers frame.int_no)
    where
      by_handler :
          (o : Option (Handler K))
          → (let r : Dispatched K = elim o [
            | some h ↦ acknowledge frame.int_no (h frame b k)
            | none ↦
                if ltb frame.int_no 32 then panicked frame b k else acknowledge frame.int_no (b, k)
          ] in
              r)
            ≡ handled o frame b k
      by_handler (some h) = acknowledge_lem frame.int_no (h frame b k).0 (h frame b k).1
      by_handler none =
          ap (λ r. if ltb frame.int_no 32 then panicked frame b k else r)
            (acknowledge_lem frame.int_no b k)

  -- Once `h` is registered for `num` it runs at that interrupt, and then the controllers are told; every other
  -- interrupt is dispatched as before. Where nothing is registered, an exception panics, and an interrupt of the
  -- controllers is ended.
  pub isr_dispatch-register :
      (handlers : Array (Option (Handler K))) (num : ℕ) (h : Handler K) (frame : Frame) (b : Bus)
      (k : K)
      → isr_dispatch (isr_register num h handlers) frame b k
        ≡ handled (if num == frame.int_no then some h else handlers frame.int_no) frame b k
  unfolding isr_register
  isr_dispatch-register handlers num h frame b k =
      isr_dispatch_lem (isr_register num h handlers) frame b k
