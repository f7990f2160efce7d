-- ===== src/Goal/Applier/Kept.antt =====
-- goal/apply_linux.go: what the tasks on a link leave alone.
use qrystal.Prelude.{◌≡◌, refl, ◌∙◌, List, [], ◌∷◌, Bool-cases, Option-cases, inl, inr}
use qrystal.Net.{IpNet}
use qrystal.Goal.Machine.{Interface}
use qrystal.Goal.Applier.{
  AddressTask, Link, allowed_ips, tasks_for, run_task, run_tasks, bring_to,
  update_interface_addresses, apply_interface_routes,
}

-- No call on the link changes what is observed.
pub record Keeps {K V : Type 0} (link : Link K) (obs : K → V) : Type 0 where
  pub listing : (k : K) → obs (link.list k).1 ≡ obs k
  pub adding : (ip : IpNet) (k : K) → obs (link.add ip k).1 ≡ obs k
  pub deleting : (ip : IpNet) (k : K) → obs (link.del ip k).1 ≡ obs k

module _ {K V : Type 0} (link : Link K) (obs : K → V) (keeps : Keeps link obs) where
  run_task-keeps : (task : AddressTask) (k : K) → obs (run_task link task k).1 ≡ obs k
  run_task-keeps task k = elim (Bool-cases task.add) [
    | inl e ↦ rw e (keeps.adding task.ip k)
    | inr e ↦ rw e (keeps.deleting task.ip k)
  ]

  run_tasks-keeps : (tasks : List AddressTask) (k : K) → obs (run_tasks link tasks k).1 ≡ obs k
  unfolding run_tasks
  run_tasks-keeps [] k = refl
  run_tasks-keeps (task ∷ tasks) k = elim (Bool-cases (run_task link task k).0) [
    | inl e ↦
        rw (e, run_tasks) (run_tasks-keeps tasks (run_task link task k).1 ∙ run_task-keeps task k)
    | inr e ↦ rw (e, run_tasks) (run_task-keeps task k)
  ]

  bring_to-keeps : (wanted : List IpNet) (k : K) → obs (bring_to link wanted k).1 ≡ obs k
  unfolding bring_to
  bring_to-keeps wanted k = elim (Option-cases (link.list k).0) [
    | inl e ↦ rw (e, bring_to) (keeps.listing k)
    | inr (present, e) ↦
        rw (e, bring_to)
          (run_tasks-keeps (tasks_for present wanted) (link.list k).1 ∙ keeps.listing k)
  ]

  pub update_interface_addresses-keeps :
      (iface : Interface) (k : K) → obs (update_interface_addresses link iface k).0.1 ≡ obs k
  unfolding update_interface_addresses
  update_interface_addresses-keeps iface k = bring_to-keeps iface.addresses k

  pub apply_interface_routes-keeps :
      (iface : Interface) (k : K) → obs (apply_interface_routes link iface k).1 ≡ obs k
  unfolding apply_interface_routes
  apply_interface_routes-keeps iface k = bring_to-keeps (allowed_ips iface.peers) k
