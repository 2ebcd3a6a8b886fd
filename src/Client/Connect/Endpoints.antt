-- ===== src/Client/Connect/Endpoints.antt =====
-- Which endpoints the client of src/client/client.cpp tries.
use mathlib.Core.Bool.{false≢true}
use mathlib.Core.List.{append_assoc}
use xyzwhiteboard.Base.{
  ℕ, Bool, true, false, Option, none, some, List, [], ◌∷◌, ◌++◌, ◌≡◌, refl, sym, ap, ◌∙◌,
  Bool-cases, Option-cases, inl, inr,
}
use xyzwhiteboard.Base.Fail.{Result, ok, thrown}
use xyzwhiteboard.Element as Element
use xyzwhiteboard.Packet.{Indeterminate}
use xyzwhiteboard.Wire.{Protobuf, parse_packet}
use xyzwhiteboard.Client.{Client}
use xyzwhiteboard.Client.Receive.{handle_packet}
use xyzwhiteboard.Client.Connect.{
  Actor, constructed, close, start_connect, start, handle_receive_async, handle_connect, has_passed,
  check_deadline, handled, handle_single_packet, Step, connects, reads, wakes, closes, Reach, here,
  later,
}

-- The endpoints that were tried begin the list, in its order, `left` are those after them; the client
-- has given up only if none is left; and while it connects, it neither has given up nor reads, and
-- holds an iterator that `left` follow.
pub record Attempts (iter : List ℕ) (a : Actor) : Type 0 where
  pub left : List ℕ
  pub order : a.trying ++ left ≡ iter
  pub given_up : a.connected ≡ false → left ≡ []
  pub pending :
      (it : ℕ × List ℕ)
      → a.connecting ≡ some it
      → (it.1 ≡ left) × (a.connected ≡ true) × (a.reading ≡ false)

start_connect-Attempts :
    (iter rest : List ℕ) (now : ℕ) (a : Actor)
    → a.trying ++ rest ≡ iter
    → a.connected ≡ true
    → a.connecting ≡ none
    → a.reading ≡ false
    → Attempts iter (start_connect rest now a)
unfolding start_connect close
start_connect-Attempts iter [] now a order up idle quiet =
    rw up (record { left = []; order = order; given_up = λ down. refl; pending = λ it h. cc })
start_connect-Attempts iter (endpoint ∷ rest) now a order up idle quiet = record {
  left = rest;
  order = append_assoc a.trying (endpoint ∷ []) rest ∙ order;
  given_up = λ down. absurd (false≢true (sym down ∙ up));
  pending = λ it h. (
    ap (λ (o : Option (ℕ × List ℕ)). elim o [ none ↦ rest | some it' ↦ it'.1 ]) (sym h),
    up,
    quiet,
  );
}

-- The invariant of a state that has no connect pending, from another with the same endpoints tried.
idle-Attempts :
    {iter : List ℕ} (a b : Actor)
    → Attempts iter a
    → b.trying ≡ a.trying
    → b.connected ≡ a.connected
    → b.connecting ≡ none
    → Attempts iter b
idle-Attempts a b inv trying connected idle = record {
  left = inv.left;
  order = ap (λ t. t ++ inv.left) trying ∙ inv.order;
  given_up = λ down. inv.given_up (sym connected ∙ down);
  pending = λ it h. cc;
}

reading_idle :
    {iter : List ℕ} (a : Actor) → Attempts iter a → a.reading ≡ true → a.connecting ≡ none
reading_idle a inv reading = elim (Option-cases a.connecting) [
  | inl idle ↦ idle
  | inr (it, h) ↦ absurd (false≢true (sym (inv.pending it h).2 ∙ reading))
]

handle_connect-Attempts :
    (iter : List ℕ) (it : ℕ × List ℕ) (error : Bool) (now : ℕ) (a : Actor)
    → Attempts iter a
    → a.connecting ≡ some it
    → Attempts iter (handle_connect error it now (record a { connecting = none }))
unfolding handle_connect handle_receive_async
handle_connect-Attempts iter it error now a inv h =
    let (next, up, quiet) = inv.pending it h in
    let order : a.trying ++ it.1 ≡ iter = ap (λ l. a.trying ++ l) next ∙ inv.order in
    elim (Bool-cases a.is_open) [
      | inr shut ↦ rw shut (start_connect-Attempts iter it.1 now _ order up refl quiet)
      | inl opened ↦ elim (Bool-cases error) [
        | inl failed ↦
            rw (opened, failed) (start_connect-Attempts iter it.1 now _ order up refl quiet)
        | inr fine ↦ rw (opened, fine) (idle-Attempts a _ inv refl refl refl)
      ]
    ]

check_deadline-Attempts :
    (iter : List ℕ) (now : ℕ) (a : Actor)
    → Attempts iter a
    → Attempts iter (check_deadline now (record a { waiting = false }))
unfolding check_deadline
check_deadline-Attempts iter now a inv = elim (Bool-cases a.connected) [
  | inr down ↦ rw down (record {
    left = inv.left;
    order = inv.order;
    given_up = λ h. inv.given_up down;
    pending =
        λ it h. let (next, up, quiet) = inv.pending it h in absurd (false≢true (sym down ∙ up));
  })
  | inl up ↦ elim (Bool-cases (has_passed now a.deadline)) [
    | inl passed ↦
        rw (up, passed)
          (record {
            left = inv.left;
            order = inv.order;
            given_up = λ h. absurd (false≢true (sym h));
            pending = λ it h. let (next, up', quiet) = inv.pending it h in (next, refl, quiet);
          })
    | inr early ↦
        rw (up, early)
          (record {
            left = inv.left;
            order = inv.order;
            given_up = λ h. absurd (false≢true (sym h));
            pending = λ it h. let (next, up', quiet) = inv.pending it h in (next, refl, quiet);
          })
  ]
]

module _ (e : Element.Indeterminate) (i : Indeterminate) (P : Protobuf) where
  handled-Attempts :
      (iter : List ℕ) (now : ℕ) (a : Actor)
      → Attempts iter a
      → a.connecting ≡ none
      → a.connected ≡ true
      → (r : Result (Unit {0}) × Client)
      → Attempts iter (handled e i P now (record a { connected = true; reading = false }) r).1
  unfolding handle_receive_async
  handled-Attempts iter now a inv idle up (ok done, c) = idle-Attempts a _ inv refl (sym up) idle
  handled-Attempts iter now a inv idle up (thrown what, c) =
      idle-Attempts a _ inv refl (sym up) idle

  single-Attempts :
      (iter : List ℕ) (error : Bool) (buffer : List ℕ) (now : ℕ) (a : Actor)
      → Attempts iter a
      → a.reading ≡ true
      → Attempts iter (handle_single_packet e i P error buffer now (record a { reading = false })).1
  unfolding handle_single_packet handle_receive_async
  single-Attempts iter error buffer now a inv reading =
      let idle = reading_idle a inv reading in
      elim (Bool-cases a.connected) [
        | inr down ↦ rw down (idle-Attempts a _ inv refl (sym down) idle)
        | inl up ↦ elim (Bool-cases error) [
          | inl failed ↦ rw (up, failed) (idle-Attempts a _ inv refl (sym up) idle)
          | inr fine ↦
              rw (up, fine)
                (handled-Attempts iter now a inv idle up
                  (handle_packet e i (parse_packet P buffer) a.client))
        ]
      ]

  Step-Attempts : {iter : List ℕ} {a b : Actor} → Step e i P a b → Attempts iter a → Attempts iter b
  Step-Attempts (connects a it error now h) inv = handle_connect-Attempts _ it error now a inv h
  Step-Attempts (reads a error buffer now h fine) inv = single-Attempts _ error buffer now a inv h
  Step-Attempts (wakes a now h) inv = check_deadline-Attempts _ now a inv
  Step-Attempts (closes a true h) inv = record {
    left = inv.left;
    order = inv.order;
    given_up = inv.given_up;
    pending = inv.pending;
  }
  Step-Attempts (closes a false h) inv = record {
    left = inv.left;
    order = inv.order;
    given_up = inv.given_up;
    pending = inv.pending;
  }

  starts-Attempts :
      (iter : List ℕ) (now : ℕ) (c : Client) → Attempts iter (start iter now (constructed c))
  unfolding start
  starts-Attempts iter now c =
      let inv = start_connect-Attempts iter iter now (constructed c) refl refl refl refl in
      record { left = inv.left; order = inv.order; given_up = inv.given_up; pending = inv.pending }

  -- However the client's operations end and in whatever order, after start() it tries the resolved
  -- endpoints in their order, each at most once, and gives up only after all of them; while it
  -- connects, it has not given up and does not read, and will go on with the endpoints not tried.
  pub Reach-Attempts :
      (iter : List ℕ) (now : ℕ) (c : Client) {a : Actor}
      → Reach e i P (start iter now (constructed c)) a
      → Attempts iter a
  Reach-Attempts iter now c here = starts-Attempts iter now c
  Reach-Attempts iter now c (later reach step) =
      Step-Attempts step (Reach-Attempts iter now c reach)
