-- ===== src/Client/Connect.antt =====
-- The asynchronous half of src/client/client.cpp: start_connect, handle_connect, handle_receive_async,
-- handle_single_packet, check_deadline, close and start, as the handlers that io_context.run() calls
-- one after another, in whatever order their operations end.
pub mod Endpoints
pub mod Timeout
use xyzwhiteboard.Base.{
  ℕ, ◌+◌, String, Bool, true, false, Option, none, some, List, [], ◌∷◌, ◌++◌, ◌≡◌, leb,
  if◌then◌else◌,
}
use xyzwhiteboard.Base.Fail.{Result, ok, thrown, Action}
use xyzwhiteboard.Element as Element
use xyzwhiteboard.Packet.{Indeterminate}
use xyzwhiteboard.Wire.{Protobuf, parse_packet}
use xyzwhiteboard.Client.{Client}
use xyzwhiteboard.Client.Receive.{handle_packet}

-- The time at which deadline_ expires.
pub data Deadline : Type 0 where
  expires_at : ℕ → Deadline
  pos_infin : Deadline

-- A resolver's iterator is the list of the endpoints from it on, and an endpoint is a number.
-- `connected` is connected_, `is_open` what the socket's is_open() says, and `trying` holds the
-- endpoints of the lines "Trying ...". The others are the operations whose handler has yet to run:
-- `connecting` async_connect with the iterator it was given, `reading` async_read_until, `waiting`
-- the timer's async_wait, and `closing` the function that `close` posts.
pub record Actor : Type 0 where
  pub client : Client
  pub connected : Bool
  pub is_open : Bool
  pub deadline : Deadline
  pub trying : List ℕ
  pub connecting : Option (ℕ × List ℕ)
  pub reading : Bool
  pub waiting : Bool
  pub closing : Bool

-- After the constructor, which has connected the socket itself.
abbrev pub constructed : Client → Actor
constructed c = record {
  client = c;
  connected = true;
  is_open = true;
  deadline = pos_infin;
  trying = [];
  connecting = none;
  reading = false;
  waiting = false;
  closing = false;
}

unfoldable pub close : Actor → Actor
close a = if a.connected then record a { connected = false; closing = true } else a

-- async_connect opens a closed socket at once.
unfoldable pub start_connect : List ℕ → ℕ → Actor → Actor
unfolding close
start_connect [] now a = close a
start_connect (endpoint ∷ rest) now a = record a {
  trying = a.trying ++ endpoint ∷ [];
  deadline = expires_at (now + 60);
  is_open = true;
  connecting = some (endpoint, rest);
}

unfoldable pub start : List ℕ → ℕ → Actor → Actor
unfolding start_connect
start iter now a = record (start_connect iter now a) { waiting = true }

unfoldable pub handle_receive_async : ℕ → Actor → Actor
handle_receive_async now a = record a { deadline = expires_at (now + 3); reading = true }

-- `error` is the handler's `ec`.
unfoldable pub handle_connect : Bool → ℕ × List ℕ → ℕ → Actor → Actor
unfolding start_connect handle_receive_async
handle_connect error (endpoint, rest) now a =
    if a.is_open
    then (if error
        then start_connect rest now (record a { is_open = false })
        else handle_receive_async now a)
    else start_connect rest now a

abbrev pub has_passed : ℕ → Deadline → Bool
has_passed now pos_infin = false
has_passed now (expires_at time) = leb time now

abbrev close_socket : Bool → Actor → Actor
close_socket passed a = if passed then record a { is_open = false; deadline = pos_infin } else a

unfoldable pub check_deadline : ℕ → Actor → Actor
check_deadline now a =
    if a.connected
    then record (close_socket (has_passed now a.deadline) a) { waiting = true }
    else a

-- The function that `close` posts; `shut` says whether the shutdown succeeded.
abbrev pub finish_close : Bool → Actor → Actor
finish_close shut a = if shut then record a { is_open = false } else a

module _ (e : Element.Indeterminate) (i : Indeterminate) (P : Protobuf) where
  -- After the `switch` and received_queue.emplace.
  abbrev handled : ℕ → Actor → Result (Unit {0}) × Client → Result (Unit {0}) × Actor
  handled now a (ok done, c) = (ok tt, handle_receive_async now (record a { client = c }))
  handled now a (thrown what, c) = (thrown what, record a { client = c })

  -- `buffer` holds the bytes in input_buffer_.
  unfoldable pub handle_single_packet : Bool → List ℕ → ℕ → Action Actor (Unit {0})
  unfolding handle_receive_async handle_packet parse_packet
  handle_single_packet error buffer now a =
      if a.connected
      then (if error
          then (ok tt, a)
          else handled now a (handle_packet e i (parse_packet P buffer) a.client))
      else (ok tt, a)

  -- One handler of io_context.run(), for an operation that was started. A handler that throws ends
  -- run().
  pub data Step : Actor → Actor → Type 0 where
    connects :
        (a : Actor) (it : ℕ × List ℕ) (error : Bool) (now : ℕ)
        → a.connecting ≡ some it
        → Step a (handle_connect error it now (record a { connecting = none }))
    reads :
        (a : Actor) (error : Bool) (buffer : List ℕ) (now : ℕ)
        → a.reading ≡ true
        → (handle_single_packet error buffer now (record a { reading = false })).0 ≡ ok tt
        → Step a (handle_single_packet error buffer now (record a { reading = false })).1
    wakes :
        (a : Actor) (now : ℕ)
        → a.waiting ≡ true
        → Step a (check_deadline now (record a { waiting = false }))
    closes :
        (a : Actor) (shut : Bool)
        → a.closing ≡ true
        → Step a (finish_close shut (record a { closing = false }))

  pub data Reach (a : Actor) : Actor → Type 0 where
    here : Reach a a
    later : {b d : Actor} → Reach a b → Step b d → Reach a d
