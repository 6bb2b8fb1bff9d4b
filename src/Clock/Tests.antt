-- ===== src/Clock/Tests.antt =====
-- A tick of Projects/OS161/kern/thread/hardclock.c in a system of three threads, of which one sleeps
-- at the address of `lbolt`.
use windborne.Base.{refl, [], arith}
use windborne.Base.Int.{pos}
use windborne.Platform.Bounded.{bounded, bounded-Laws}
use windborne.Thread.Example.{three, three-Inv, closed_cpu, closed-IsConsistent}
use windborne.Clock.Hardclock.{hardclock}
use windborne.Clock.Ticks.{Ticks, hardclock_lem}

hardclock_lem_example :
    Ticks 100 70 1 99 (three closed_cpu) (hardclock bounded 100 70 [] (pos 99) (three closed_cpu))
hardclock_lem_example =
    hardclock_lem bounded-Laws 100 70 1 99 [] (three closed_cpu) (omega arith) (omega arith) refl
      (three-Inv closed_cpu closed-IsConsistent)
