-- ===== src/Controller/Progress/Settling.antt =====
-- controller-runtime runs `Reconcile` again where a run asks for it or returns an error: the runs
-- on a node that is to be drained, one after the other.
use node_drain.Base.{
  ℕ, suc, zero, ltb, Bool, true, false, String, ◌≡◌, refl, Option, none, Result, ok, err,
}
use node_drain.Api.{Node, NodeState, NodeCurrentState, work_state}
use node_drain.Cluster.{Trace, Env}
use node_drain.Settings.{Settings}
use node_drain.Controller.{reconcile}
use node_drain.Controller.Objects.{CtrlResult, done}
use node_drain.Controller.Work.{is_stale, check_interval}
use node_drain.Controller.Progress.{IsServing, NoneWorking}
use node_drain.Controller.Remembering.{IsRemembering}

-- Another run is asked for.
abbrev pub asks : Result CtrlResult → Bool
asks (ok r) = ltb 0 r.requeue_after
asks (err e) = true

-- Up to this many runs, each asked for by the one before it; and whether the last asks for no
-- other.
abbrev pub settle : Env → Settings → String → ℕ → Trace → Bool × Trace
settle env s name zero t = (false, t)
settle env s name (suc n) t =
    let run = reconcile env s name t in
    elim (asks run.0) [ true ↦ settle env s name n run.1 | false ↦ (true, run.1) ]

-- The object is to be drained, and has this observed state.
pub record IsStage (name : String) (last : Option ℕ) (c : NodeCurrentState) (n : Node)
    : Type 0 where
  pub called : n.name ≡ name
  pub alive : n.deletion_timestamp ≡ none
  pub wanted : n.state ≡ NodeState.drained
  pub undrained : n.status.drained ≡ false
  pub checked : n.status.reboot_required_last_checked ≡ last
  pub observed : n.status.current_state ≡ c

-- The object of a node that is drained.
abbrev pub IsDrainedNode : Node → Type 0
IsDrainedNode n =
    (n.state ≡ NodeState.drained)
    × (n.status.current_state ≡ NodeCurrentState.drained)
    × (n.status.drained ≡ true)

-- A node that neither works nor waits.
abbrev pub is_resting : NodeCurrentState → Bool
is_resting NodeCurrentState.ok = true
is_resting NodeCurrentState.cordoned = true
is_resting _ = false

-- A cluster in which a drain succeeds, that remembers the object, where no check for a reboot is
-- due, and where no other node is at work while this one is not.
pub record IsSettling (env : Env) (s : Settings) (name : String) (last : Option ℕ)
    (current : Trace → Node) : Type 0 where
  pub serving : IsServing env s name
  pub remembering : IsRemembering env name current
  pub fresh :
      (t : Trace) → is_stale last (env.now t) (check_interval s.reboot_check_interval) ≡ false
  pub idle : (t : Trace) → work_state (current t).status.current_state ≡ false → NoneWorking env t

-- A run that asks for another, and one that does not.
pub settle_on :
    (env : Env) (s : Settings) (name : String) (n : ℕ) (r : CtrlResult) (t : Trace)
    → (reconcile env s name t).0 ≡ ok r
    → asks (ok r) ≡ true
    → settle env s name (suc n) t ≡ settle env s name n (reconcile env s name t).1
settle_on env s name n r t e a = rw (e, settle, a) refl

pub settle_end :
    (env : Env) (s : Settings) (name : String) (n : ℕ) (t : Trace)
    → (reconcile env s name t).0 ≡ ok done
    → settle env s name (suc n) t ≡ (true, (reconcile env s name t).1)
settle_end env s name n t e = rw (e, settle) refl
