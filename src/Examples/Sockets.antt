-- ===== src/Examples/Sockets.antt =====
-- A use of the theorem on src/base/network.cpp at a run of a listener.
use xyzwhiteboard.Base.{none, some, [], ◌∷◌, refl, set}
use xyzwhiteboard.Network.{
  reading, Listener, new_listener, start_accept, on_accept_complete, finish, accepts, reads,
  finishes, Reach, here, later,
}
use xyzwhiteboard.Network.Listening.{ListenerInv, Reach-ListenerInv}

-- One session is accepted; the next accept fails, while the session reads two chunks to the end.
abbrev accepted : Listener
accepted = on_accept_complete none 0 (record (start_accept new_listener) { accepting = none })

abbrev chunk : Listener
chunk = record accepted {
  sessions = set accepted.sessions 0 (record { stage = reading; received = 65 ∷ 66 ∷ [] });
}

abbrev chunks : Listener
chunks = record chunk {
  sessions = set chunk.sessions 0 (record { stage = reading; received = 65 ∷ 66 ∷ 10 ∷ [] });
}

abbrev refused : Listener
refused = on_accept_complete (some "refused") 1 (record chunks { accepting = none })

abbrev closed : Listener
closed = finish 0 "End of file" (65 ∷ 66 ∷ 10 ∷ []) refused

reaches_closed : Reach closed
unfolding start_accept on_accept_complete
reaches_closed =
    later
      (later
        (later
          (later (later here (accepts (start_accept new_listener) 0 none refl))
            (reads accepted 0 [] (65 ∷ 66 ∷ []) refl))
          (reads chunk 0 (65 ∷ 66 ∷ []) (10 ∷ []) refl))
        (accepts chunks 1 (some "refused") refl))
      (finishes refused 0 "End of file" (65 ∷ 66 ∷ 10 ∷ []) refl)

Reach-ListenerInv_example : ListenerInv closed
Reach-ListenerInv_example = Reach-ListenerInv reaches_closed
