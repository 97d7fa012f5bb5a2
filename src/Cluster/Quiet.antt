-- ===== src/Cluster/Quiet.antt =====
-- Code that makes only calls of some kinds: the trace grows by entries of these kinds. Asides
-- are questions, hooks, events, and the creation and deletion of the managers' own pods.
use node_drain.Base.{Bool, true, false, not, ◌==◌, ◌≡◌, Result, ◌∷◌}
use node_drain.Base.Keeps.{Keeps}
use node_drain.Cluster.{Entry, patched_node, patched_status, patched_kube_node, drained_node}
use node_drain.Cluster.{created_node, updated_node, created_pod}
use node_drain.Cluster.Pods.{Pod}
use node_drain.Cluster.{Trace, Io, call, record_entry}

-- `u` is `t` with newer entries that have the property.
pub data Grows (Q : Entry → Type 0) (t : Trace) : Trace → Type 0 where
  same : Grows Q t t
  more : {u : Trace} (e : Entry) → Q e → Grows Q t u → Grows Q t (e ∷ u)

-- The pod is the one that reboots its node.
abbrev pub is_reboot_pod : Pod → Bool
is_reboot_pod p = p.generate_name == "reboot-"

-- An entry that changes no object, evicts nothing and reboots nothing.
abbrev pub is_aside : Entry → Bool
is_aside (patched_node _ _ _) = false
is_aside (patched_status _ _ _) = false
is_aside (patched_kube_node _ _ _) = false
is_aside (drained_node _ _) = false
is_aside (created_node _ _) = false
is_aside (updated_node _ _) = false
is_aside (created_pod p _) = not (is_reboot_pod p)
is_aside _ = true

abbrev pub IsAside : Entry → Type 0
IsAside e = is_aside e ≡ true

-- A property of traces that the entries keep holds of the grown trace.
pub Grows_induction :
    {Q : Entry → Type 0} {t u : Trace} (P : Trace → Type 0)
    → ((e : Entry) (v : Trace) → Q e → P v → P (e ∷ v))
    → Grows Q t u
    → P t
    → P u
Grows_induction P step same h = h
Grows_induction P step (more {u = v} e q g) h = step e v q (Grows_induction P step g h)

-- Quiet code keeps what the entries of its calls keep.
pub Keeps-Grows :
    {A : Type 0} {Q : Entry → Type 0} {P : Trace → Type 0} {m : Io A}
    → ((e : Entry) (v : Trace) → Q e → P v → P (e ∷ v))
    → ((t : Trace) → Keeps (Grows Q t) m)
    → Keeps P m
Keeps-Grows {P} step quiet = record { at = λ t h. Grows_induction P step ((quiet t).at t same) h }

module _ {Q : Entry → Type 0} {t : Trace} where
  pub Keeps-call :
      {A : Type 0} (reply : Trace → Result A) (entry : Result A → Entry)
      → ((r : Result A) → Q (entry r))
      → Keeps (Grows Q t) (call reply entry)
  unfolding call
  Keeps-call reply entry q = record { at = λ u g. more (entry (reply u)) (q (reply u)) g }

  pub Keeps-record_entry : (e : Entry) → Q e → Keeps (Grows Q t) (record_entry e)
  unfolding record_entry
  Keeps-record_entry e q = record { at = λ u g. more e q g }

module _ (P : Trace → Type 0) (closed : (e : Entry) (t : Trace) → IsAside e → P t → P (e ∷ t)) where
  pub Keeps-aside_call :
      {A : Type 0} (reply : Trace → Result A) (entry : Result A → Entry)
      → ((r : Result A) → IsAside (entry r))
      → Keeps P (call reply entry)
  unfolding call
  Keeps-aside_call reply entry q = record { at = λ t h. closed _ t (q _) h }

  pub Keeps-aside_entry : (e : Entry) → IsAside e → Keeps P (record_entry e)
  unfolding record_entry
  Keeps-aside_entry e q = record { at = λ t h. closed e t q h }
