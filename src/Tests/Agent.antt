-- ===== src/Tests/Agent.antt =====
-- The agent's run over a world that is a clock: every call takes one unit of time.
use kubeip.Base.{
  ℕ, suc, String, Bool, true, false, none, some, [], ◌∷◌, ◌≡◌, refl, inl, inr, arith, ltb,
  Bool-cases, Error, sentinel, static_ip_already_assigned, message, Result, ok, err, Action, Ran,
  ◌==◌, if◌then◌else◌,
}
use kubeip.Types.{Node, gcp}
use kubeip.Config.{Config}
use kubeip.Lease.{KubeLock}
use kubeip.Node.Explorer.{Explorer}
use kubeip.Address.Interface.{Assigner}
use kubeip.Agent.{
  AgentEnv, locked_assign, assign_from, assign_address, wait_reported_from,
  wait_for_address_to_be_reported, untaint, remove_taint_or_release, release_ip, shut_down,
  run_node,
}
use kubeip.Agent.Retry.{
  Served, attempt_once, Failed, assign_address-Served, assign_address_gives_up, assign_address_ends,
}
use kubeip.Agent.Taint.{
  Reported, wait_for_address_to_be_reported-Reported, run_node_without_address, run_node_releases,
}
use kubeip.Agent.Stages.{Untainted, run_node-Stages}

abbrev node : Node String
node = record {
  name = "n";
  instance_id = "vm-1";
  cloud = gcp;
  pool = "p";
  region = "r";
  zone = "z";
  external_ips = [];
  internal_ips = [];
}

abbrev cfg : Config
cfg = record {
  kube_config_path = "";
  node_name = "n";
  project = "";
  region = "";
  ipv6 = false;
  develop_mode = false;
  filter = [];
  order_by = "";
  retry_interval = 1;
  retry_attempts = 1;
  release_on_exit = true;
  lease_duration = 5;
  lease_namespace = "default";
  taint_key = "kubeip";
}

abbrev busy : Error
busy = message "busy"

abbrev always : {A : Type 0} → Result A → Action ℕ A
always r w = (r, suc w)

abbrev free_lock : KubeLock ℕ
free_lock = record { lock = always (ok tt); unlock = always (ok tt) }

-- Busy before a time, and then it assigns.
abbrev busy_until : ℕ → Assigner ℕ
busy_until t = record {
  assign = λ id zone filter order_by w. (if ltb w t then err busy else ok ("1.2.3.4", none), suc w);
  unassign = λ id zone. always (ok tt);
}

-- It Finds the address that the instance has.
abbrev served_already : Assigner ℕ
served_already = record {
  assign = λ id zone filter order_by.
      always (ok ("1.2.3.4", some (sentinel static_ip_already_assigned)));
  unassign = λ id zone. always (ok tt);
}

abbrev explorer : Explorer ℕ String
explorer = record { get_node = λ name. always (ok (record node { external_ips = "1.2.3.4" ∷ [] })) }

abbrev env_with : Assigner ℕ → Result Bool → AgentEnv ℕ String (Unit {0}) (Unit {0})
env_with assigner removed = record {
  read_file = λ path. always (ok "");
  parse_kube_config = λ text. ok tt;
  in_cluster_config = always (ok tt);
  new_for_config = λ rest_config. always (ok tt);
  explorer = λ client. explorer;
  new_assigner = λ cloud config. always (ok assigner);
  new_lock = λ client name namespace holder duration. free_lock;
  remove_taint_key = λ client n key. always removed;
  ip_text = λ ip. if ip == "" then "<nil>" else ip;
  wait_tick = always (ok none);
  wait_done = always (ok tt);
}

abbrev env : AgentEnv ℕ String (Unit {0}) (Unit {0})
env = env_with (busy_until 3) (ok true)

one_failure : Failed env cfg node tt (busy_until 3) 1 0 4
unfolding locked_assign
one_failure = (busy, 3, 4, refl, refl, refl, refl)

assign_address-Served_example :
    Served env cfg node (attempt_once env cfg node tt (busy_until 3)) 2 0 "1.2.3.4" 7
unfolding assign_address assign_from locked_assign
assign_address-Served_example =
    assign_address-Served env cfg node tt (busy_until 3) 0 7 "1.2.3.4" refl

assign_address_gives_up_example :
    assign_address env cfg node tt (busy_until 9) 0
    ≡ (err (message "reached maximum number of retries"), 8)
unfolding locked_assign
assign_address_gives_up_example =
    assign_address_gives_up env cfg node tt (busy_until 9) 0 8 (omega arith)
      (busy, 3, 4, refl, refl, refl, (busy, 7, 8, refl, refl, refl, refl))

attempt_ends : attempt_once env cfg node tt (busy_until 3) 4 ≡ (ok "1.2.3.4", 7)
unfolding locked_assign
attempt_ends = refl

assign_address_ends_example : assign_address env cfg node tt (busy_until 3) 0 ≡ (ok "1.2.3.4", 7)
assign_address_ends_example =
    assign_address_ends env cfg node tt (busy_until 3) 1 0 4 7 (ok "1.2.3.4") "1.2.3.4"
      (omega arith) (omega arith) one_failure attempt_ends (inl refl)

wait_for_address_to_be_reported-Reported_example : Reported env cfg node explorer "1.2.3.4" 1
unfolding wait_for_address_to_be_reported wait_reported_from
wait_for_address_to_be_reported-Reported_example =
    wait_for_address_to_be_reported-Reported env cfg node explorer "1.2.3.4" 0 1 refl

never_empty : (ip : String) → (env.ip_text ip == "") ≡ false
never_empty ip = elim (Bool-cases (ip == "")) [ inl e ↦ rw e | inr e ↦ rw e e ]

run_node_without_address_example :
    ¬ Ran (run_node (env_with served_already (ok true)) cfg node tt) 0 tt 9
unfolding assign_address assign_from locked_assign
run_node_without_address_example =
    run_node_without_address (env_with served_already (ok true)) cfg node never_empty tt
      served_already 0 1 4 9 refl refl refl

run_node_releases_example :
    (assigner : Assigner ℕ) × (address : String) × (w1 w2 w3 v : ℕ) × Ran
      (env.new_assigner gcp cfg)
      0
      assigner
      w1
    × Ran (assign_address env cfg node tt assigner) w1 address w2
    × Ran (untaint env cfg node tt assigner address) w2 tt w3
    × Ran env.wait_done w3 tt v
    × Ran (assigner.unassign "vm-1" "z") v tt 12
unfolding run_node assign_address assign_from locked_assign untaint remove_taint_or_release
    wait_for_address_to_be_reported wait_reported_from shut_down release_ip
run_node_releases_example = run_node_releases env cfg node tt 0 12 refl refl

run_node-Stages_example :
    (assigner : Assigner ℕ) × (address : String) × (w1 w2 w3 : ℕ) × Ran
      (env.new_assigner gcp cfg)
      0
      assigner
      w1
    × Ran (assign_address env cfg node tt assigner) w1 address w2
    × Untainted env cfg node tt assigner address w2 w3
    × Ran (shut_down env cfg node assigner) w3 tt 12
unfolding run_node assign_address assign_from locked_assign untaint remove_taint_or_release
    wait_for_address_to_be_reported wait_reported_from shut_down release_ip
run_node-Stages_example = run_node-Stages env cfg node tt 0 12 refl refl
