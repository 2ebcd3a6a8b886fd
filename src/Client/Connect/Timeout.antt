-- ===== src/Client/Connect/Timeout.antt =====
-- A reading client of src/client/client.cpp whose deadline passes.
use mathlib.Core.Bool.{false≢true}
use xyzwhiteboard.Base.Fail.{Result, ok}
use xyzwhiteboard.Base.{[], ℕ, true, false, none, ◌≡◌, refl, ap, arith}
use xyzwhiteboard.Element as Element
use xyzwhiteboard.Packet.{Indeterminate}
use xyzwhiteboard.Wire.{Protobuf}
use xyzwhiteboard.Client.Connect.{
  Actor, pos_infin, has_passed, check_deadline, handle_single_packet, Step, connects, reads, wakes,
  closes, Reach, here, later,
}

-- The socket closed, no deadline, and nothing to wait for but the timer; `connected_` still set.
abbrev pub stranded : Actor → Actor
stranded a = record a {
  connected = true;
  is_open = false;
  deadline = pos_infin;
  connecting = none;
  reading = false;
  waiting = true;
  closing = false;
}

module _ (e : Element.Indeterminate) (i : Indeterminate) (P : Protobuf) where
  stranded-Step : (a : Actor) {b : Actor} → Step e i P (stranded a) b → b ≡ stranded a
  unfolding check_deadline
  stranded-Step a (connects _ it error now h) = cc
  stranded-Step a (reads _ error buffer now h fine) = absurd (false≢true h)
  stranded-Step a (wakes _ now h) = refl
  stranded-Step a (closes _ shut h) = absurd (false≢true h)

  stranded-Reach : (a : Actor) {b : Actor} → Reach e i P (stranded a) b → b ≡ stranded a
  stranded-Reach a here = refl
  stranded-Reach a (later reach step) = stranded-Step a (rw (stranded-Reach a reach) at step)

  -- The timer's handler, and after it the read's, with the error of an operation that was cancelled.
  abbrev woken : ℕ → Actor → Actor
  woken now a = check_deadline now (record a { waiting = false })

  strands :
      (a : Actor) (now : ℕ)
      → a.connected ≡ true
      → a.connecting ≡ none
      → a.closing ≡ false
      → has_passed now a.deadline ≡ true
      → (handle_single_packet e i P true [] now (record (woken now a) { reading = false }))
        ≡ (ok tt, stranded a)
  unfolding check_deadline handle_single_packet
  strands a now up idle closing passed = rw (up, passed, idle, closing) refl

  woken_reads : (a : Actor) (now : ℕ) → a.reading ≡ true → (woken now a).reading ≡ true
  unfolding check_deadline
  woken_reads a now reading = ground arith

  -- A client that reads, with nothing else pending but the timer, and whose deadline has passed can
  -- come, by its timer and the end of the read that the closed socket cancels, to a state in which it
  -- still counts as connected while its socket is closed, and which it then never leaves.
  pub times_out :
      (a : Actor) (now : ℕ)
      → a.connected ≡ true
      → a.connecting ≡ none
      → a.reading ≡ true
      → a.waiting ≡ true
      → a.closing ≡ false
      → has_passed now a.deadline ≡ true
      → Reach e i P a (stranded a) × ((b : Actor) → Reach e i P (stranded a) b → b ≡ stranded a)
  times_out a now up idle reading waiting closing passed =
      let strands = strands a now up idle closing passed in
      let fails =
        reads (woken now a) true [] now (woken_reads a now reading) (ap (λ r. r.0) strands) in
      (
        later (later here (wakes a now waiting))
            (rw (ap (λ (r : Result (Unit {0}) × Actor). r.1) strands) at fails),
        λ b r. stranded-Reach a r,
      )
