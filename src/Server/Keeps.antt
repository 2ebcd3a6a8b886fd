-- ===== src/Server/Keeps.antt =====
-- Pairs of actions that go alike: from states in a relation they give the same and end in states in
-- the relation, also where they throw. A rule stands for each way in which the handlers put actions
-- together. An invariant is the relation `Both` of a state with itself.
use xyzwhiteboard.Base.{Bool, true, false, if◌then◌else◌, ◌≡◌, refl, ap}
use xyzwhiteboard.Base.Fail.{Result, ok, thrown, Action, ◌>>=◌, pure, gets, when, continue}

pub record Keeps {S A : Type 0} (R : S → S → Type 0) (m n : Action S A) : Type 0 where
  pub after : (s t : S) → R s t → ((m s).0 ≡ (n t).0) × R (m s).1 (n t).1

module _ {S A : Type 0} {R : S → S → Type 0} where
  pub Keeps-pure : (a : A) → Keeps R (pure {S = S} a) (pure {S = S} a)
  Keeps-pure a = record { after = λ s t h. (refl, h) }

  pub Keeps-gets : (f : S → A) → ((s t : S) → R s t → f s ≡ f t) → Keeps R (gets f) (gets f)
  Keeps-gets f same = record { after = λ s t h. (ap ok (same s t h), h) }

  pub Keeps-if :
      (b : Bool) {m n m' n' : Action S A}
      → Keeps R m m'
      → Keeps R n n'
      → Keeps R (if b then m else n) (if b then m' else n')
  Keeps-if true km kn = km
  Keeps-if false km kn = kn

module _ {S A B : Type 0} {R : S → S → Type 0} where
  Keeps-continue :
      (r : Result A) {f g : A → Action S B} (s t : S)
      → ((a : A) → Keeps R (f a) (g a))
      → R s t
      → ((continue r f s).0 ≡ (continue r g t).0) × R (continue r f s).1 (continue r g t).1
  Keeps-continue (ok a) s t kf h = (kf a).after s t h
  Keeps-continue (thrown e) s t kf h = (refl, h)

  pub Keeps-bind :
      {m n : Action S A} {f g : A → Action S B}
      → Keeps R m n
      → ((a : A) → Keeps R (f a) (g a))
      → Keeps R (m >>= f) (n >>= g)
  Keeps-bind {m} {n} {f} {g} km kf = record {
    after = λ s t h.
        let (same, h') = km.after s t h in rw same (Keeps-continue (n t).0 (m s).1 (n t).1 kf h');
  }

module _ {S : Type 0} {R : S → S → Type 0} where
  pub Keeps-when :
      (b : Bool) {m n : Action S (Unit {0})} → Keeps R m n → Keeps R (when b m) (when b n)
  Keeps-when true km = km
  Keeps-when false km = record { after = λ s t h. (refl, h) }

module _ {S : Type 0} (P : S → Type 0) where
  abbrev pub Both : S → S → Type 0
  Both s t = (s ≡ t) × P s

  -- An action that keeps an invariant.
  pub kept : {A : Type 0} (m : Action S A) → ((s : S) → P s → P (m s).1) → Keeps Both m m
  kept m keeps = record {
    after = λ s t h. (ap (λ (u : S). (m u).0) h.0, (ap (λ (u : S). (m u).1) h.0, keeps s h.1));
  }
