-- ===== src/Examples/Returns.antt =====
-- A node on its way back, plugins that do not all agree, variables of the environment, and an
-- adapter of a logger: test data and runs.
use mathlib.Core.List.Perm
use Prim.Native.Char.{Char, char, IsScalar}
use Prim.Native.Nat.{compare, Ordering}
use node_drain.Base.{
  ok, arith, true, false, refl, [], ◌∷◌, ◌≡◌, ◌≢◌, ◌&&◌, ◌==◌, ◌<>◌, ℕ, ◌+◌, ◌⊎◌, inl, inr, some,
  String, Bool, if◌then◌else◌,
}
use node_drain.Api.{NodeState, NodeCurrentState}
use node_drain.Cluster.{Env}
use node_drain.DrainManager.{is_healthy, is_drain_ok, check_nodes, check_conditions, not_ready}
use node_drain.DrainManager.Order.Answers.{is_healthy-perm}
use node_drain.DrainManager.Order.{Replies, IsSteady, is_yes, nodes_ready, all_agree}
use node_drain.Controller.Objects.{Session}
use node_drain.Config.Environment.{
  several, transform, is_upper, AllChars, IsPlain, KeepsText, is_upper_code, transform-IsPlain,
}
use node_drain.Logging.{Level, ZapLevel, text, keyed}
use node_drain.Logging.Arguments.{convert, convert_from, item_fields, slice}
use node_drain.Logging.Wrapper.{
  Zap, Wrapper, IsNaming, Passes, allows, log, get_level, call_at, get_level-log,
}
use node_drain.Examples.{queued, host, claim, cluster}

abbrev returning : Session
returning = record {
  node = record queued {
    state = NodeState.active;
    status = record queued.status {
      current_state = NodeCurrentState.undraining;
      drained = true;
      reboot_required_last_checked = some 999_999_999_999;
    };
  };
  kube_node = record host { managed_fields = record claim { manager = "node-drain-manager" } ∷ [] };
  trace = [];
}

-- One plugin does not support the cluster, one refuses the drain.
abbrev replies : Replies
replies = record {
  nodes = ok (host ∷ []);
  supported = λ id. ok (id == "ceph");
  healthy = λ id. ok true;
  drain_ok = λ id node. ok false;
}

abbrev divided : Env
divided = record (cluster queued) {
  is_supported = λ t id. ok (id == "ceph");
  is_drain_ok = λ t id node. ok false;
}

divided-IsSteady : IsSteady divided replies
divided-IsSteady = record {
  nodes = λ t. refl;
  supported = λ t id. refl;
  healthy = λ t id. refl;
  drain_ok = λ t id node. refl;
}

is_healthy-perm_example :
    (is_yes (is_healthy divided ("ceph" ∷ "other" ∷ []) "n1" []).0
      ≡ nodes_ready replies.nodes
        && all_agree replies.supported replies.healthy ("other" ∷ "ceph" ∷ []))
    × (is_yes (is_drain_ok divided ("ceph" ∷ "other" ∷ []) "n1" []).0
        ≡ all_agree replies.supported (λ id. replies.drain_ok id "n1") ("other" ∷ "ceph" ∷ []))
is_healthy-perm_example =
    is_healthy-perm divided replies divided-IsSteady "n1" [] (Perm.swap "other" "ceph" [])

-- The cluster is healthy for them, and the drain is refused.
answers :
    (nodes_ready replies.nodes
        && all_agree replies.supported replies.healthy ("other" ∷ "ceph" ∷ [])
      ≡ true)
    × (all_agree replies.supported (λ id. replies.drain_ok id "n1") ("other" ∷ "ceph" ∷ []) ≡ false)
unfolding check_nodes check_conditions not_ready
answers = (refl, refl)

abbrev decided : (b : Bool) → (b ≡ true) ⊎ (b ≡ false)
decided true = inl refl
decided false = inr refl

scalar : (n : ℕ) → is_upper_code n ≡ true → IsScalar (n + 32)
scalar n e = let below : compare (n + 32) 55296 ≡ Ordering.lt = ground arith in rw below tt

-- The ASCII letters in lower case.
lowered : (n : ℕ) (p : IsScalar n) → (is_upper_code n ≡ true) ⊎ (is_upper_code n ≡ false) → Char
lowered n p (inl e) = char (n + 32) (scalar n e)
lowered n p (inr e) = char n p

lower : Char → Char
unfolding lowered
lower (char n p) = lowered n p (decided (is_upper_code n))

lowered-small :
    (n : ℕ) (p : IsScalar n) (d : (is_upper_code n ≡ true) ⊎ (is_upper_code n ≡ false))
    → is_upper (lowered n p d) ≡ false
unfolding lowered
lowered-small n p (inl e) = ground arith
lowered-small n p (inr e) = e

lower-small : (c : Char) → is_upper (lower c) ≡ false
unfolding lower
lower-small (char n p) = lowered-small n p (decided (is_upper_code n))

transform-IsPlain_example :
    (let x = transform lower "NODEDRAIN_REBOOT_CHECKINTERVAL" "5m 1h" in
      AllChars IsPlain x.0 × (x.0 ≢ "reboot.checkInterval") × KeepsText "5m 1h" x.1)
transform-IsPlain_example =
    transform-IsPlain lower lower-small "NODEDRAIN_REBOOT_CHECKINTERVAL" "5m 1h"

variable :
    transform lower "NODEDRAIN_REBOOT_CHECKINTERVAL" "5m 1h"
    ≡ ("reboot.checkinterval", several ("5m" ∷ "1h" ∷ []))
unfolding transform lower
variable = refl

-- A logger by its level and its name.
abbrev console : Zap (ZapLevel × String) String
console = record {
  level = λ l. l.0;
  name = λ l. l.1;
  with_fields = λ fields l. l;
  named = λ name l. (l.0, l.1 <> ("." <> name));
  add_caller_skip = λ n l. l;
  level_string = elim [
    | ZapLevel.debug_level ↦ "debug"
    | ZapLevel.info_level ↦ "info"
    | ZapLevel.warn_level ↦ "warn"
    | ZapLevel.error_level ↦ "error"
    | _ ↦ "other"
  ];
}

abbrev parsed : String → Level
parsed s =
    if s == "debug"
    then Level.debug
    else if s == "info"
    then Level.info
    else if s == "warn"
    then Level.warn
    else if s == "error"
    then Level.error
    else Level.no_level

parsed-IsNaming : IsNaming console parsed
parsed-IsNaming = record { debug = refl; info = refl; warn = refl; error = refl }

abbrev adapter : Wrapper (ZapLevel × String)
adapter = record { zap = (ZapLevel.warn_level, "plugin") }

get_level-log_example :
    Passes console
      (allows console Level.info adapter)
      adapter
      "hello"
      (text "k" ∷ text "v" ∷ [])
      (log console adapter Level.info "hello" (text "k" ∷ text "v" ∷ []))
    × (log console adapter
          (get_level console parsed (some "main.main") adapter)
          "hello"
          (text "k" ∷ text "v" ∷ [])
        ≡ some (call_at console ZapLevel.warn_level adapter "hello" (text "k" ∷ text "v" ∷ [])))
get_level-log_example =
    get_level-log console parsed parsed-IsNaming adapter Level.info "main.main" "hello"
      (text "k" ∷ text "v" ∷ []) refl refl

fields : convert {V = String} (text "k" ∷ text "v" ∷ []) ≡ (keyed "k", text "v") ∷ []
unfolding convert convert_from item_fields slice
fields = refl
