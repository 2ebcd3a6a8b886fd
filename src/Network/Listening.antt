-- ===== src/Network/Listening.antt =====
-- What the listener and the sessions of src/base/network.cpp are about, after any completions.
use xyzwhiteboard.Base.{
  false, ℕ, suc, String, none, some, List, [], ◌∷◌, ◌++◌, ◌≡◌, ◌≢◌, refl, arith, ap, sym, ◌∙◌,
  length, length-append, get_elem?, set, ◌==◌, ==_iff, ==_refl, Bool-cases, inl, inr,
}
use xyzwhiteboard.Network.{
  idle, reading, ended, Session, Line, listening, accept_completed, accept_error, start_session,
  on_received, Listener, generate_session, print, new_listener, start_accept, starts,
  on_accept_complete, finish, Step, accepts, reads, finishes, Reach, here, later,
}
use xyzwhiteboard.Network.Reports.{
  reports, due, get_elem?-snoc, get_elem?-set, length-set, reports-snoc, silent, due-set, due-snoc,
}

-- The accept that is outstanding is for the session generated last; that one has not started, and each
-- earlier one has; and for each session exactly its end has been printed, if it has ended, once and with all
-- the bytes that it received.
pub record ListenerInv (l : Listener) : Type 0 where
  pub last : (i : ℕ) → l.accepting ≡ some i → suc i ≡ length l.sessions
  pub idle_last :
      (i : ℕ) (s : Session)
      → get_elem? l.sessions i ≡ some s
      → s.stage ≡ idle
      → suc i ≡ length l.sessions
  pub last_idle :
      (i : ℕ) → suc i ≡ length l.sessions → get_elem? l.sessions i ≡ some generate_session
  pub reported : (i : ℕ) → reports i l.printed ≡ due (get_elem? l.sessions i)

-- Between two accepts: every session has started.
record Started (l : Listener) : Type 0 where
  busy : (i : ℕ) (s : Session) → get_elem? l.sessions i ≡ some s → s.stage ≢ idle
  reported : (i : ℕ) → reports i l.printed ≡ due (get_elem? l.sessions i)

start_accept-ListenerInv : (l : Listener) → Started l → ListenerInv (start_accept l)
unfolding start_accept reports
start_accept-ListenerInv l h =
    let size = length-append l.sessions (generate_session ∷ []) in
    record {
      last = λ i e. let e' : length l.sessions ≡ i = cc in omega (arith, e', size);
      idle_last = λ i s e stage. elim (Bool-cases (i == length l.sessions)) [
        | inl own ↦ let e' = (==_iff i (length l.sessions)).0 own in omega (arith, e', size)
        | inr other ↦ absurd (
            h.busy i s (sym (get_elem?-snoc l.sessions generate_session i ∙ rw other refl) ∙ e)
              stage)
      ];
      last_idle = λ i e.
          let e' : i ≡ length l.sessions = omega (arith, e, size) in
          get_elem?-snoc l.sessions generate_session i
          ∙ rw ((==_iff i (length l.sessions)).1 e') refl;
      reported =
          λ i. silent i l.printed listening refl ∙ h.reported i ∙ sym (due-snoc l.sessions i);
    }

starts-Started :
    (l : Listener) (i : ℕ)
    → ListenerInv l
    → l.accepting ≡ some i
    → Started (starts i (print accept_completed (record l { accepting = none })))
unfolding starts reports
starts-Started l i inv e =
    let new : Session = record { stage = reading; received = [] } in
    let was = inv.last_idle i (inv.last i e) in
    record {
      busy = λ j s at stage. elim (Bool-cases (j == i)) [
        | inl own ↦
            let e' : some new ≡ some s =
              sym (get_elem?-set l.sessions i new generate_session j was ∙ rw own refl) ∙ at in
            let e2 : new ≡ s = cc in
            let e3 : reading ≡ idle = ap (λ (x : Session). x.stage) e2 ∙ stage in absurd cc
        | inr other ↦
            let last =
              inv.idle_last j s
                (sym (get_elem?-set l.sessions i new generate_session j was ∙ rw other refl) ∙ at)
                stage in
            let last' = inv.last i e in ground (arith, last, last', other)
      ];
      reported = λ j.
          silent j (l.printed ++ accept_completed ∷ []) (start_session i) refl
          ∙ silent j l.printed accept_completed refl
          ∙ inv.reported j
          ∙ sym (due-set l.sessions i new generate_session j was refl);
    }

-- A session that has started changes to another that has.
changed-ListenerInv :
    (l : Listener) (i : ℕ) (old new : Session) (printed : List Line)
    → get_elem? l.sessions i ≡ some old
    → old.stage ≢ idle
    → new.stage ≢ idle
    → ((j : ℕ) → reports j printed ≡ due (get_elem? (set l.sessions i new) j))
    → ListenerInv l
    → ListenerInv (record l { sessions = set l.sessions i new; printed = printed })
changed-ListenerInv l i old new printed was started begun reported inv =
    let size = length-set l.sessions i new in
    record {
      last = λ j e. inv.last j e ∙ sym size;
      idle_last = λ j s at stage. elim (Bool-cases (j == i)) [
        | inl own ↦
            let e : some new ≡ some s =
              sym (get_elem?-set l.sessions i new old j was ∙ rw own refl) ∙ at in
            let e2 : new ≡ s = cc in absurd (begun (ap (λ (x : Session). x.stage) e2 ∙ stage))
        | inr other ↦
            inv.idle_last j s (sym (get_elem?-set l.sessions i new old j was ∙ rw other refl) ∙ at)
              stage
            ∙ sym size
      ];
      last_idle = λ j e.
          let there = inv.last_idle j (e ∙ size) in
          elim (Bool-cases (j == i)) [
            | inl own ↦
                let same = (==_iff j i).0 own in
                let e : some generate_session ≡ some old =
                  sym there ∙ ap (λ (n : ℕ). get_elem? l.sessions n) same ∙ was in
                let e2 : generate_session ≡ old = cc in
                absurd (started (sym (ap (λ (x : Session). x.stage) e2)))
            | inr other ↦ get_elem?-set l.sessions i new old j was ∙ rw other there
          ];
      reported = reported;
    }

finish-reported :
    (l : Listener) (i : ℕ) (message : String) (received : List ℕ) (j : ℕ)
    → get_elem? l.sessions i ≡ some (record { stage = reading; received = received })
    → ListenerInv l
    → reports j (finish i message received l).printed
      ≡ due (get_elem? (finish i message received l).sessions j)
unfolding finish reports
finish-reported l i message received j was inv =
    let old : Session = record { stage = reading; received = received } in
    let new : Session = record { stage = ended message; received = received } in
    elim (Bool-cases (j == i)) [
      | inl own ↦
          let same = (==_iff j i).0 own in
          rw same (
            reports-snoc i l.printed (on_received i message received)
            ∙ rw (get_elem?-set l.sessions i new old i was, inv.reported i, was, ==_refl i) refl)
      | inr other ↦
          let apart : i == j ≡ false = ground (arith, other) in
          silent j l.printed (on_received i message received) (rw apart refl)
          ∙ inv.reported j
          ∙ sym (ap due (get_elem?-set l.sessions i new old j was ∙ rw other refl))
    ]

Step-ListenerInv : {l m : Listener} → Step l m → ListenerInv l → ListenerInv m
unfolding on_accept_complete finish reports
Step-ListenerInv (accepts l i none e) inv = start_accept-ListenerInv _ (starts-Started l i inv e)
Step-ListenerInv (accepts l i (some message) e) inv = record {
  last = λ j h. cc;
  idle_last = inv.idle_last;
  last_idle = inv.last_idle;
  reported = λ j. silent j l.printed (accept_error message) refl ∙ inv.reported j;
}
Step-ListenerInv (reads l i received bytes was) inv =
    changed-ListenerInv l i (record { stage = reading; received = received })
      (record { stage = reading; received = received ++ bytes }) l.printed was (λ e. cc) (λ e. cc)
      (λ j. inv.reported j ∙ sym (due-set l.sessions i _ _ j was refl)) inv
Step-ListenerInv (finishes l i message received was) inv =
    changed-ListenerInv l i (record { stage = reading; received = received })
      (record { stage = ended message; received = received }) _ was (λ e. cc) (λ e. cc)
      (λ j. finish-reported l i message received j was inv) inv

-- However the accepts and the reads complete: the accept that is outstanding is for the session generated
-- last, which has not started, while each earlier one has; and of each session exactly its end is printed,
-- once it has ended, with all the bytes received on it.
pub Reach-ListenerInv : {l : Listener} → Reach l → ListenerInv l
unfolding reports
Reach-ListenerInv here =
    start_accept-ListenerInv new_listener (record { busy = λ i s e. cc; reported = λ i. refl })
Reach-ListenerInv (later reach step) = Step-ListenerInv step (Reach-ListenerInv reach)
