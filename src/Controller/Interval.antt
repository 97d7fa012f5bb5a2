-- ===== src/Controller/Interval.antt =====
-- node_controller.go, checkRebootRequired: how often a node is checked.
use node_drain.Base.{
  ℕ, suc, ◌≤◌, ◌+◌, ◌*◌, false, ◌≡◌, refl, some, ok, ltb, if_intro, if_false, arith, look, ◌>>=◌,
}
use node_drain.Api.{work_state}
use node_drain.Cluster.{Env}
use node_drain.Settings.{Settings, ℤ, pos, negsuc}
use node_drain.Controller.Objects.{Session, M, minute}
use node_drain.Controller.Work.{check_interval, is_stale, check_reboot_required}

-- Whatever is configured, the interval is five minutes or longer.
check_interval-≤ : (i : ℤ) → 5 * minute ≤ check_interval i
unfolding check_interval
check_interval-≤ (pos n) =
    if_intro (λ d. 5 * minute ≤ d) (ltb n (5 * minute)) _ _ (λ e. omega arith) (λ e. (ground arith))
check_interval-≤ (negsuc n) = omega arith

ltb-false : (a b : ℕ) → b ≤ a → ltb a b ≡ false
ltb-false a b h = ground arith

is_stale-fresh :
    (n now : ℕ) (interval : ℕ)
    → now ≤ suc n + 5 * minute
    → 5 * minute ≤ interval
    → is_stale (some (suc n)) now interval ≡ false
unfolding is_stale
is_stale-fresh n now interval h k = ltb-false (suc n + interval) now (omega arith)

-- For every configured interval, negative ones included, a node whose last check is not older than
-- five minutes is not checked: nothing is called, and the objects stay as they are.
pub check_reboot_required-fresh :
    (env : Env) (s : Settings) (st : Session) (n : ℕ)
    → st.node.status.reboot_required_last_checked ≡ some (suc n)
    → env.now st.trace ≤ suc n + 5 * minute
    → check_reboot_required env s st ≡ (ok tt, st)
unfolding check_reboot_required look ◌>>=◌
check_reboot_required-fresh env s st n e h =
    let P = λ (m : M (Unit {0})). m st ≡ (ok tt, st) in
    if_intro P (work_state st.node.status.current_state) _ _ (λ _. refl)
      (λ _.
        if_false P
          (is_stale st.node.status.reboot_required_last_checked (env.now st.trace)
            (check_interval s.reboot_check_interval))
          _ _
          (rw e (
            is_stale-fresh n (env.now st.trace) (check_interval s.reboot_check_interval) h
              (check_interval-≤ s.reboot_check_interval)))
          refl)
