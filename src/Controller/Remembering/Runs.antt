-- ===== src/Controller/Remembering/Runs.antt =====
-- Whole runs on a server that remembers the object: what a run reads is what the one before it
-- left.
use node_drain.Base.{String, ◌≡◌, refl, ap, ◌∙◌, Result, ok, err, ◌∷◌, attempt, ◌>>=◌, none}
use node_drain.Base.Outcomes.{Outcome}
use node_drain.Api.{Node}
use node_drain.Cluster.{Trace, Env, KubeNode, call, got_node, got_kube_node}
use node_drain.Settings.{Settings}
use node_drain.DrainManager.Willing.{Never}
use node_drain.RebootManager.Quiet.{IsPolling}
use node_drain.Controller.{reconcile_node, reconcile}
use node_drain.Controller.Objects.{Session, CtrlResult, run_session}
use node_drain.Controller.Remembering.{IsRemembering, IsCurrent}
use node_drain.Controller.Remembering.Whole.{reconcile_node-Current}

-- What a run starts from.
abbrev pub Start : (Trace → Node) → KubeNode → Trace → Session
Start current k t = record { node = current t; kube_node = k; trace = t }

finish :
    {A : Type 0} (P : Node → Type 0) (name : String) (current : Trace → Node) (v : A) (r : Result A)
    (st : Session)
    → Outcome Never (λ a st'. (a ≡ v) × P st'.node) (r, st)
    → IsCurrent name current st
    → (r ≡ ok v) × P (current st.trace)
finish P name current v (ok a) st h c = (ap ok h.0, rw c.same h.1)
finish P name current v (err e) st h c = elim h [ ]

module _ (env : Env) (s : Settings) (name : String) (current : Trace → Node)
    (r : IsRemembering env name current) (polling : IsPolling env) where
  -- A run, after its two reads.
  reads :
      (t : Trace)
      → (k : KubeNode) × (v : Trace) × (env.get_kube_node t name ≡ ok k)
        × (current v ≡ current t)
        × (reconcile env s name t ≡ run_session (reconcile_node env s) (current v) k v)
  unfolding reconcile ◌>>=◌ attempt call
  reads t =
      let (k, e) = r.gets_kube t in
      let t1 = got_kube_node name (ok k) ∷ t in
      let t2 = got_node name (ok (current t1)) ∷ t1 in
      (
        k,
        t2,
        e,
        r.kept _ t1 refl ∙ r.kept _ t refl,
        rw (e, r.gets t1, r.kept (got_node name (ok (current t1))) t1 refl) refl,
      )

  -- A run that surely has this result, and leaves its copy of the node with a property.
  pub run-Gives :
      (P : Node → Type 0) (v : CtrlResult) (t : Trace)
      → (current t).name ≡ name
      → (current t).deletion_timestamp ≡ none
      → ((k : KubeNode) (u : Trace)
          → env.get_kube_node t name ≡ ok k
          → current u ≡ current t
          → Outcome Never (λ r st. (r ≡ v) × P st.node) (reconcile_node env s (Start current k u)))
      → ((reconcile env s name t).0 ≡ ok v) × P (current (reconcile env s name t).1)
  unfolding run_session
  run-Gives P v t n d h =
      let (k, u, g, q, e) = reads t in
      let m = reconcile_node env s (Start current k u) in
      let kept : IsCurrent name current m.1 =
        (reconcile_node-Current env s name current r polling).at (Start current k u) (record {
          same = refl;
          called = ap Node.name q ∙ n;
          alive = ap Node.deletion_timestamp q ∙ d;
        }) in
      rw e (finish P name current v m.0 m.1 (h k u g q) kept)
