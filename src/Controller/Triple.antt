-- ===== src/Controller/Triple.antt =====
-- Pre- and postconditions of the reconciler's steps, beside an invariant `I` of the trace that
-- holds whether a step returns a value or an error.
use node_drain.Base.{Bool, true, false, if◌then◌else◌, ◌≡◌, refl, Option, none, some}
use node_drain.Base.{Error, Result, ok, err, pure, fail, gets, attempt, look, ◌>>=◌, continue}
use node_drain.Base.Keeps.{Keeps}
use node_drain.Cluster.{KubeNode, Trace, Io}
use node_drain.Controller.Objects.{Session, M, io, return_or, set_node, run_session}
use node_drain.Api.{Node}

abbrev pub Post :
    {A : Type 0} → (Trace → Type 0) → (A → Session → Type 0) → Result A × Session → Type 0
Post I Q (ok a, st) = I st.trace × Q a st
Post I Q (err e, st) = I st.trace

abbrev pub Attempted : {A : Type 0} → (A → Session → Type 0) → Result A → Session → Type 0
Attempted Q (ok a) st = Q a st
Attempted Q (err e) st = Unit

-- What holds where a part of a function goes on.
abbrev pub Going : {A : Type 0} → (Session → Type 0) → Option A → Session → Type 0
Going R none st = R st
Going R (some a) st = Unit

-- What the rest of a step may use of an outcome, by cases on it.
attempt-Post :
    {A : Type 0} (I : Trace → Type 0) (Q : A → Session → Type 0) (r : Result A) (st : Session)
    → Post I Q (r, st)
    → I st.trace × Attempted Q r st
attempt-Post I Q (ok a) st h = h
attempt-Post I Q (err e) st h = (h, tt)

Post-weaken :
    {A : Type 0} (I : Trace → Type 0) {Q Q' : A → Session → Type 0}
    → ((a : A) (st : Session) → Q a st → Q' a st)
    → (r : Result A) (st : Session) → Post I Q (r, st)
    → Post I Q' (r, st)
Post-weaken I w (ok a) st h = (h.0, w a st h.1)
Post-weaken I w (err e) st h = h

io-Post :
    {A : Type 0} (I : Trace → Type 0) (Q : A → Session → Type 0) (r : Result A) (st : Session)
    → I st.trace
    → ((a : A) → Q a st)
    → Post I Q (r, st)
io-Post I Q (ok a) st i q = (i, q a)
io-Post I Q (err e) st i q = i

pub Post-trace :
    {A : Type 0} (I : Trace → Type 0) (Q : A → Session → Type 0) (r : Result A) (st : Session)
    → Post I Q (r, st)
    → I st.trace
Post-trace I Q (ok a) st h = h.0
Post-trace I Q (err e) st h = h

both-Post :
    {A : Type 0} (I I' : Trace → Type 0) (Q Q' : A → Session → Type 0) (r : Result A) (st : Session)
    → Post I Q (r, st)
    → Post I' Q' (r, st)
    → Post I (λ a st'. Q a st' × Q' a st') (r, st)
both-Post I I' Q Q' (ok a) st h h' = (h.0, (h.1, h'.1))
both-Post I I' Q Q' (err e) st h h' = h

pub record Triple {A : Type 0} (I : Trace → Type 0) (P : Session → Type 0) (m : M A)
    (Q : A → Session → Type 0) : Type 0 where
  pub at : (st : Session) → I st.trace → P st → Post I Q (m st)

module _ {I : Trace → Type 0} where
  pub Triple-pure :
      {A : Type 0} {P : Session → Type 0} {Q : A → Session → Type 0} (a : A)
      → ((st : Session) → P st → Q a st)
      → Triple I P (pure a) Q
  unfolding ◌>>=◌
  Triple-pure a h = record { at = λ st i p. (i, h st p) }

  pub Triple-gets :
      {A : Type 0} {P : Session → Type 0} {Q : A → Session → Type 0} (f : Session → A)
      → ((st : Session) → P st → Q (f st) st)
      → Triple I P (gets f) Q
  unfolding ◌>>=◌
  Triple-gets f h = record { at = λ st i p. (i, h st p) }

  pub Triple-fail :
      {A : Type 0} {P : Session → Type 0} {Q : A → Session → Type 0} (e : Error)
      → Triple I P (fail e) Q
  unfolding ◌>>=◌
  Triple-fail e = record { at = λ st i p. i }

  -- what the rest of a step gives for each outcome of the step before it
  continue-Post :
      {A B : Type 0} {R : A → Session → Type 0} {Q : B → Session → Type 0} (f : A → M B)
      → ((a : A) → Triple I (R a) (f a) Q)
      → (r : Result A) (st : Session) → Post I R (r, st)
      → Post I Q (continue r f st)
  continue-Post f k (ok a) st h = (k a).at st h.0 h.1
  continue-Post f k (err e) st h = h

  pub Triple-bind :
      {A B : Type 0} {P : Session → Type 0} {Q : B → Session → Type 0} (R : A → Session → Type 0)
      (m : M A) (f : A → M B)
      → Triple I P m R
      → ((a : A) → Triple I (R a) (f a) Q)
      → Triple I P (m >>= f) Q
  unfolding ◌>>=◌
  Triple-bind R m f h k = record {
    at = λ st i p. continue-Post f k (m st).0 (m st).1 (h.at st i p);
  }

  pub Triple-attempt :
      {A : Type 0} {P : Session → Type 0} {Q : A → Session → Type 0} (m : M A)
      → Triple I P m Q
      → Triple I P (attempt m) (Attempted Q)
  unfolding attempt
  Triple-attempt m h = record { at = λ st i p. attempt-Post I _ (m st).0 (m st).1 (h.at st i p) }

  -- A step that looks at its session first: the session is the one that it starts from.
  pub Triple-look :
      {A : Type 0} {P : Session → Type 0} {Q : A → Session → Type 0} (m : Session → M A)
      → ((st : Session) → P st → Triple I (λ st'. st' ≡ st) (m st) Q)
      → Triple I P (look m) Q
  unfolding look
  Triple-look m h = record { at = λ st i p. (h st p).at st i refl }

  pub Triple-if :
      {A : Type 0} {P : Session → Type 0} {Q : A → Session → Type 0} (b : Bool) (m n : M A)
      → (b ≡ true → Triple I P m Q)
      → (b ≡ false → Triple I P n Q)
      → Triple I P (if b then m else n) Q
  Triple-if true m n hm hn = hm refl
  Triple-if false m n hm hn = hn refl

  pub Triple-weaken :
      {A : Type 0} {P P' : Session → Type 0} {Q : A → Session → Type 0} (m : M A)
      → ((st : Session) → P' st → P st)
      → Triple I P m Q
      → Triple I P' m Q
  Triple-weaken m w h = record { at = λ st i p. h.at st i (w st p) }

  pub Triple-conclude :
      {A : Type 0} {P : Session → Type 0} {Q Q' : A → Session → Type 0} (m : M A)
      → ((a : A) (st : Session) → Q a st → Q' a st)
      → Triple I P m Q
      → Triple I P m Q'
  Triple-conclude m w h = record { at = λ st i p. Post-weaken I w (m st).0 (m st).1 (h.at st i p) }

  -- Two rules for the same step, where the second says nothing of errors.
  pub Triple-both :
      {A : Type 0} {P P' : Session → Type 0} {Q Q' : A → Session → Type 0} (m : M A)
      → Triple I P m Q
      → Triple (λ _. Unit {0}) P' m Q'
      → Triple I (λ st. P st × P' st) m (λ a st. Q a st × Q' a st)
  Triple-both m h h' = record {
    at = λ st i p. both-Post I _ _ _ (m st).0 (m st).1 (h.at st i p.0) (h'.at st tt p.1);
  }

  -- `none` goes on to the rest of the function.
  pub Triple-return_or :
      {A : Type 0} {P : Session → Type 0} (R : Session → Type 0) (m : M (Option A)) (k : M A)
      → Triple I P m (Going R)
      → Triple I R k (λ _ _. Unit {0})
      → Triple I P (return_or m k) (λ _ _. Unit {0})
  unfolding return_or
  Triple-return_or R m k hm hk =
      Triple-bind (Going R) m _ hm (elim [ some a ↦ Triple-pure a (λ st q. tt) | none ↦ hk ])

  pub Triple-set_node :
      {P Q : Session → Type 0} (n : Node)
      → ((st : Session) → P st → Q (record st { node = n }))
      → Triple I P (set_node n) (λ _. Q)
  unfolding set_node
  Triple-set_node n h = record { at = λ st i p. (i, h st p) }

  -- A run keeps the invariant.
  pub Keeps-run_session :
      {A : Type 0} {P : Session → Type 0} {Q : A → Session → Type 0} (m : M A)
      → Triple I P m Q
      → ((st : Session) → P st)
      → (node : Node) (kube_node : KubeNode) → Keeps I (run_session m node kube_node)
  unfolding run_session
  Keeps-run_session {Q} m h p node kube_node = record {
    at = λ t i.
        let st : Session = record { node = node; kube_node = kube_node; trace = t } in
        Post-trace I Q (m st).0 (m st).1 (h.at st i (p st));
  }

  -- Calls leave a condition on the objects as it was.
  module _ {A : Type 0} {P : Session → Type 0} (m : Io A) (k : Keeps I m) where
    pub Triple-io :
        ((st : Session) (t : Trace) → P st → P (record st { trace = t }))
        → Triple I P (io m) (λ a. P)
    unfolding io
    Triple-io stable = record {
      at = λ st i p.
          io-Post I _ (m st.trace).0 (record st { trace = (m st.trace).1 }) (k.at st.trace i)
            (λ a. stable st (m st.trace).1 p);
    }

    -- So does an error of such a call.
    pub Triple-attempt_io :
        ((st : Session) (t : Trace) → P st → P (record st { trace = t }))
        → Triple I P (attempt (io m)) (λ _. P)
    unfolding attempt io
    Triple-attempt_io stable = record {
      at = λ st i p. (k.at st.trace i, stable st (m st.trace).1 p);
    }
