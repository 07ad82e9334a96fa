-- ===== src/Firmware/Parts.antt =====
-- A run of the tasks, part by part.
use latentred.Prelude.{
  Bool, true, false, ◌≡◌, ◌∙◌, refl, sym, ap, List, [], ◌∷◌, ◌++◌, Option, none, some, arith,
  if◌then◌else◌, ◌==◌, append-nil, append_assoc,
}
use latentred.Platform.{Constants, CooperativeMutex}
use latentred.Sensors.{Hardware}
use latentred.Cli.System.{World}
use latentred.Mgmt.{Mgmt, Inputs, iteration, run}
use latentred.Mgmt as Mgmt
use latentred.Net.{Ports, Call, ssh_port, on_rx_data, on_aging_tick, on_aging_tick_10x}
use latentred.Switch.{Switch, Event, pass, happen, happen_all, and_then}
use latentred.Firmware.{
  Segment, Turn, poll, fpga, aging_1hz, aging_10hz, console, Firmware, as_events, shell_events,
  is_received, handed_on, requests_of, line_of, after_frame, on_switch, turn, then_run, run_turns,
}

-- what a frame brings: the requests of a segment for the port of SSH
abbrev pub arrived : Bool → Option Segment → List Event
arrived true (some g) = if g.socket.local_port == ssh_port then as_events g.requests else []
arrived _ _ = []

-- what the turns do to the switch: passes of the polling task, lines from the console, and
-- lines and opened shells by SSH
abbrev pub events_of : List Turn → List Event
events_of [] = []
events_of (poll due io ∷ ts) = pass due io ∷ events_of ts
events_of (fpga i g ∷ ts) = arrived (is_received i.irq i.frame) g ++ events_of ts
events_of (console t ∷ ts) = line_of t ++ events_of ts
events_of (t ∷ ts) = events_of ts

-- what the task of the management link reads
abbrev pub reads_of : List Turn → List Inputs
reads_of [] = []
reads_of (fpga i g ∷ ts) = i ∷ reads_of ts
reads_of (t ∷ ts) = reads_of ts

-- what the network stack hands on in a turn
abbrev pub calls_in : Ports → Turn → List Call
calls_in p (fpga i g) = handed_on p (is_received i.irq i.frame) g
calls_in p aging_1hz = on_aging_tick
calls_in p aging_10hz = on_aging_tick_10x
calls_in p t = []

abbrev pub calls_of : Ports → List Turn → List Call
calls_of p [] = []
calls_of p (t ∷ ts) = calls_in p t ++ calls_of p ts

shell_events-arrived :
    (p : Ports) (r : Bool) (g : Option Segment)
    → shell_events (requests_of g) (handed_on p r g) ≡ arrived r g
unfolding on_rx_data
shell_events-arrived p true (some g) = ground (arith, append-nil (as_events g.requests))
shell_events-arrived p true none = refl
shell_events-arrived p false g = refl

module _ {W B M : Type 0} (k : Constants) (mutex : CooperativeMutex M) (w : World W)
    (hw : Hardware B) where
  and_then_twice :
      (f g h : Switch W B M → Option (Switch W B M)) (o : Option (Switch W B M))
      → ((x : Switch W B M) → f x ≡ and_then k mutex w hw g (h x))
      → and_then k mutex w hw f o ≡ and_then k mutex w hw g (and_then k mutex w hw h o)
  and_then_twice f g h none e = refl
  and_then_twice f g h (some x) e = e x

  happen_all-append :
      (es fs : List Event) (x : Switch W B M)
      → happen_all k mutex w hw (es ++ fs) x
        ≡ and_then k mutex w hw (happen_all k mutex w hw fs) (happen_all k mutex w hw es x)
  unfolding happen_all
  happen_all-append [] fs x = refl
  happen_all-append (e ∷ es) fs x =
      and_then_twice (happen_all k mutex w hw (es ++ fs)) (happen_all k mutex w hw fs)
        (happen_all k mutex w hw es) (happen k mutex w hw e x) (happen_all-append es fs)

module _ {W B M : Type 0} (k : Constants) (mutex : CooperativeMutex M) (w : World W)
    (hw : Hardware B) (p : Ports) where
  -- the parts after the turns, when the switch is `x`
  abbrev pub assemble : Firmware W B M → List Turn → Switch W B M → Firmware W B M
  assemble f ts x =
      let (mgmt, events) = run k (reads_of ts) f.mgmt in
      record {
        switch = x;
        mgmt = mgmt;
        events = f.events ++ events;
        calls = f.calls ++ calls_of p ts;
      }

  -- the lists after a turn, regrouped
  regroup :
      (f : Firmware W B M) (m : Mgmt) (now both : List Mgmt.Event) (calls : List Call)
      (ts : List Turn) (o : Option (Switch W B M))
      → both ≡ f.events ++ now
      → let (mgmt, later) = run k (reads_of ts) m in
        on_switch k mutex w hw p
          (λ x. record {
            switch = x;
            mgmt = mgmt;
            events = both ++ later;
            calls = (f.calls ++ calls) ++ calls_of p ts;
          })
          o
        ≡ on_switch k mutex w hw p
            (λ x. record {
              switch = x;
              mgmt = mgmt;
              events = f.events ++ (now ++ later);
              calls = f.calls ++ (calls ++ calls_of p ts);
            })
            o
  regroup f m now both calls ts none e = refl
  regroup f m now both calls ts (some x) e =
      rw
        (
          e,
          append_assoc f.events now (run k (reads_of ts) m).1,
          append_assoc f.calls calls (calls_of p ts),
        )
        refl

  sequence :
      (ts : List Turn) (es : List Event) (g h : Switch W B M → Firmware W B M)
      (o : Option (Switch W B M))
      → ((x : Switch W B M)
          → run_turns k mutex w hw p ts (g x)
            ≡ on_switch k mutex w hw p h (happen_all k mutex w hw es x))
      → then_run k mutex w hw p (run_turns k mutex w hw p ts) (on_switch k mutex w hw p g o)
        ≡ on_switch k mutex w hw p h (and_then k mutex w hw (happen_all k mutex w hw es) o)
  sequence ts es g h none rest = refl
  sequence ts es g h (some x) rest = rest x

  then_turns :
      (ts : List Turn) (es : List Event) (g h : Switch W B M → Firmware W B M) (x : Switch W B M)
      → ((y : Switch W B M)
          → run_turns k mutex w hw p ts (g y)
            ≡ on_switch k mutex w hw p h (happen_all k mutex w hw (events_of ts) y))
      → then_run k mutex w hw p
          (run_turns k mutex w hw p ts)
          (on_switch k mutex w hw p g (happen_all k mutex w hw es x))
        ≡ on_switch k mutex w hw p h (happen_all k mutex w hw (es ++ events_of ts) x)
  then_turns ts es g h x rest =
      sequence ts (events_of ts) g h (happen_all k mutex w hw es x) rest
      ∙ ap (on_switch k mutex w hw p h) (sym (happen_all-append k mutex w hw es (events_of ts) x))

  -- In whatever order the tasks run, the firmware is made of its parts: the switch is what the passes
  -- of the polling task, the lines of the console, and the shells and lines that frames bring to the
  -- port of SSH while the interrupt line is high do to it, in the order of the turns; the management
  -- link is what its own passes make of it; and the calls of the network stack are those of the turns,
  -- in order.
  pub run_turns-assemble :
      (ts : List Turn) (f : Firmware W B M)
      → run_turns k mutex w hw p ts f
        ≡ on_switch k mutex w hw p (assemble f ts) (happen_all k mutex w hw (events_of ts) f.switch)
  unfolding run_turns turn happen_all run
  run_turns-assemble [] f = rw (append-nil f.events, append-nil f.calls) refl
  run_turns-assemble (poll due io ∷ ts) f =
      then_turns ts (pass due io ∷ []) (λ x. record f { switch = x })
        (assemble f (poll due io ∷ ts)) f.switch
        (λ x. run_turns-assemble ts (record f { switch = x }))
  run_turns-assemble (fpga i g ∷ ts) f =
      let calls = handed_on p (is_received i.irq i.frame) g in
      rw (shell_events-arrived p (is_received i.irq i.frame) g) (
        then_turns ts (arrived (is_received i.irq i.frame) g) (after_frame k mutex w hw p i calls f)
          (assemble f (fpga i g ∷ ts)) f.switch
          (λ x.
            run_turns-assemble ts (after_frame k mutex w hw p i calls f x)
            ∙ regroup f (iteration k i f.mgmt).0 (iteration k i f.mgmt).1
                (f.events ++ (iteration k i f.mgmt).1) calls ts
                (happen_all k mutex w hw (events_of ts) x) refl))
  run_turns-assemble (aging_1hz ∷ ts) f =
      run_turns-assemble ts (record f { calls = f.calls ++ on_aging_tick })
      ∙ regroup f f.mgmt [] f.events on_aging_tick ts
          (happen_all k mutex w hw (events_of ts) f.switch) (sym (append-nil f.events))
  run_turns-assemble (aging_10hz ∷ ts) f =
      run_turns-assemble ts (record f { calls = f.calls ++ on_aging_tick_10x })
      ∙ regroup f f.mgmt [] f.events on_aging_tick_10x ts
          (happen_all k mutex w hw (events_of ts) f.switch) (sym (append-nil f.events))
  run_turns-assemble (console t ∷ ts) f =
      then_turns ts (line_of t) (λ x. record f { switch = x }) (assemble f (console t ∷ ts))
        f.switch (λ x. run_turns-assemble ts (record f { switch = x }))
