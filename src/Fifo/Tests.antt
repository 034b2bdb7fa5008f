-- ===== src/Fifo/Tests.antt =====
-- A queue built by the operations.
use riscv_lab.Common.{[], ◌∷◌, arith}
use riscv_lab.Fifo.{Fifo, fifo_init, fifo_push, fifo_pop}
use riscv_lab.Fifo.Queue.{IsFifo, Popped, fifo_init-IsFifo, fifo_push-IsFifo, fifo_pop-Popped}

abbrev fresh : Fifo
fresh = record { size = 9; list = 0; links = record { next = λ p. 0; prev = λ p. 0 } }

one : IsFifo (fifo_push (fifo_init fresh) 5) (5 ∷ [])
unfolding fifo_init
one = fifo_push-IsFifo (fifo_init fresh) 5 [] (fifo_init-IsFifo fresh) (ground arith)

fifo_push-IsFifo_run : IsFifo (fifo_push (fifo_push (fifo_init fresh) 5) 6) (5 ∷ 6 ∷ [])
unfolding fifo_init fifo_push
fifo_push-IsFifo_run =
    fifo_push-IsFifo (fifo_push (fifo_init fresh) 5) 6 (5 ∷ []) one (ground arith)

fifo_pop-Popped_example :
    Popped (5 ∷ []) (fifo_push (fifo_init fresh) 5) (fifo_pop (fifo_push (fifo_init fresh) 5))
fifo_pop-Popped_example = fifo_pop-Popped (fifo_push (fifo_init fresh) 5) (5 ∷ []) one
