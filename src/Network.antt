-- ===== src/Network.antt =====
-- src/base/network.hpp and src/base/network.cpp: a listener that accepts sessions, each of which reads until
-- its stream ends, as the completions of their asynchronous operations.
pub mod Reports
pub mod Listening
use xyzwhiteboard.Base.{
  ℕ, zero, suc, String, Option, none, some, List, [], ◌∷◌, ◌++◌, ◌≡◌, length, get_elem?, set,
}

-- Where a session stands: before StartSession, in its async_read, or after the completion.
pub data Stage : Type 0 where
  idle reading : Stage
  ended : String → Stage

pub record Session : Type 0 where
  pub stage : Stage
  pub received : List ℕ

-- The lines that are printed, with a session's place for its address.
pub data Line : Type 0 where
  listening : Line
  accept_completed : Line
  accept_error : String → Line
  start_session : ℕ → Line
  on_received : ℕ → String → List ℕ → Line

-- The sessions in the order of their generation, and the one whose accept is outstanding.
pub record Listener : Type 0 where
  pub sessions : List Session
  pub accepting : Option ℕ
  pub printed : List Line

-- std::make_shared<Session>
abbrev pub generate_session : Session
generate_session = record { stage = idle; received = [] }

abbrev pub print : Line → Listener → Listener
print line l = record l { printed = l.printed ++ line ∷ [] }

abbrev pub new_listener : Listener
new_listener = record { sessions = []; accepting = none; printed = [] }

unfoldable pub start_accept : Listener → Listener
start_accept l = record l {
  sessions = l.sessions ++ generate_session ∷ [];
  accepting = some (length l.sessions);
  printed = l.printed ++ listening ∷ [];
}

-- Session::StartSession
unfoldable pub starts : ℕ → Listener → Listener
starts i l = record l {
  sessions = set l.sessions i (record { stage = reading; received = [] });
  printed = l.printed ++ start_session i ∷ [];
}

-- Listener::OnAcceptComplete; without an error the next accept is started.
unfoldable pub on_accept_complete : Option String → ℕ → Listener → Listener
unfolding starts start_accept
on_accept_complete none i l = start_accept (starts i (print accept_completed l))
on_accept_complete (some message) i l = print (accept_error message) l

-- Session::on_received
unfoldable pub finish : ℕ → String → List ℕ → Listener → Listener
finish i message received l = record l {
  sessions = set l.sessions i (record { stage = ended message; received = received });
  printed = l.printed ++ on_received i message received ∷ [];
}

-- The completions that the io_context can run. The async_read goes on until an error, the end of the
-- stream among them.
pub data Step : Listener → Listener → Type 0 where
  accepts :
      (l : Listener) (i : ℕ) (error : Option String)
      → l.accepting ≡ some i
      → Step l (on_accept_complete error i (record l { accepting = none }))
  reads :
      (l : Listener) (i : ℕ) (received bytes : List ℕ)
      → get_elem? l.sessions i ≡ some (record { stage = reading; received = received })
      → Step l (record l {
        sessions = set l.sessions i (record { stage = reading; received = received ++ bytes });
      })
  finishes :
      (l : Listener) (i : ℕ) (message : String) (received : List ℕ)
      → get_elem? l.sessions i ≡ some (record { stage = reading; received = received })
      → Step l (finish i message received l)

-- From Listener::Start_accept of a new listener.
pub data Reach : Listener → Type 0 where
  here : Reach (start_accept new_listener)
  later : {l m : Listener} → Reach l → Step l m → Reach m
