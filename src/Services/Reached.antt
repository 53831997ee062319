-- ===== src/Services/Reached.antt =====
-- Which services a client reaches.
use text.Mathlib.TextLemmas.{append_assoc, append_cancel_right, append_cancel_left}
use packml_ros.Base.{◌≡◌, refl, sym, ap, ◌∙◌, ◌↔◌, arith, true, String, ◌<>◌}
use packml_ros.Base.LastChar.{ends_differ}
use packml_ros.Ros.{RosNames, is_relative, is_relative-append}
use packml_ros.Services.{
  ServiceType, Place, node_servers, new_client, manager_servers, sm_node_servers, panel_clients,
  main_node_name, Meets,
}

-- Names that end in the same way meet if they start in the same way.
same_end : (pre n m tail : String) → (pre <> (n <> tail) ≡ pre <> (m <> tail)) ↔ (n ≡ m)
same_end pre n m tail = (
  λ e. append_cancel_right n m tail (append_cancel_left pre (n <> tail) (m <> tail) e),
  ap (λ x. pre <> (x <> tail)),
)

-- A relative name and a private one of the same namespace.
relative-private :
    (r : RosNames) (ns manager name node tail : String)
    → is_relative name ≡ true
    → (r.expand ns manager (name <> ("/" <> tail)) ≡ r.expand ns node ("~/" <> tail))
      ↔ (name ≡ node)
relative-private r ns manager name node tail h =
    rw
      (
        r.expand-relative ns manager (name <> ("/" <> tail))
            (is_relative-append name ("/" <> tail) h),
        r.expand-private ns node tail,
      )
      (same_end (r.prefix ns) name node ("/" <> tail))

-- An absolute name and a private one.
absolute-private :
    (r : RosNames) (p q : Place) (node tail : String)
    → (r.expand p.name_space p.node_name (("/" <> node) <> ("/" <> tail))
        ≡ r.expand q.name_space q.node_name ("~/" <> tail))
      ↔ (r.prefix q.name_space <> q.node_name ≡ "/" <> node)
absolute-private r p q node tail =
    let pre = r.prefix q.name_space in
    let k =
      ap (r.expand p.name_space p.node_name) (append_assoc "/" node ("/" <> tail))
      ∙ (r.expand-absolute p.name_space p.node_name (node <> ("/" <> tail))
          ∙ sym (append_assoc "/" node ("/" <> tail))) in
    let l =
      r.expand-private q.name_space q.node_name tail
      ∙ sym (append_assoc pre q.node_name ("/" <> tail)) in
    (
      λ e.
          sym (
            append_cancel_right ("/" <> node) (pre <> q.node_name) ("/" <> tail) (sym k ∙ (e ∙ l))),
      λ e. k ∙ (ap (λ x. x <> ("/" <> tail)) (sym e) ∙ sym l),
    )

same_service : {s : ServiceType} {P Q : Type 0} → (P ↔ Q) → (((s ≡ s) × P) ↔ Q)
same_service h = (λ e. h.0 e.1, λ e. (refl, h.1 e))

-- Where names are expanded as ROS documents it and the manager and a node are in the same
-- namespace: the two clients that the manager makes for a configured relative name meet the two
-- services of that node exactly if the name is that of the node, and the topic of the statuses is
-- the same for both.
pub new_client-Meets :
    (r : RosNames) (ns manager name node : String)
    → is_relative name ≡ true
    → (Meets r
          (record { name_space = ns; node_name = manager })
          (new_client name).state_tr_client
          (record { name_space = ns; node_name = node })
          node_servers.trans_server
        ↔ (name ≡ node))
      × (Meets r
            (record { name_space = ns; node_name = manager })
            (new_client name).mode_tr_client
            (record { name_space = ns; node_name = node })
            node_servers.mode_server
          ↔ (name ≡ node))
      × (r.expand ns manager manager_servers.status_pub ≡ r.expand ns node node_servers.status_sub)
unfolding is_relative
new_client-Meets r ns manager name node h = (
  same_service (relative-private r ns manager name node "packml_state_transition" h),
  same_service (relative-private r ns manager name node "packml_mode_transition" h),
  r.expand-relative ns manager "packml_status" refl
      ∙ sym (r.expand-relative ns node "packml_status" refl),
)

-- "…/transition" and "…/changeState" end differently.
transition-change_state :
    (r : RosNames) (p q : Place)
    → ¬ (
        r.expand p.name_space p.node_name panel_clients.transition_client.name
        ≡ r.expand q.name_space q.node_name manager_servers.state_server.name)
transition-change_state r p q e =
    let pre = r.prefix q.name_space in
    let n = q.node_name in
    ends_differ "/packml_ros_node/transitio" (pre <> (n <> "/changeStat")) "n" "e"
      (λ c. ground (arith, c))
      (sym (r.expand-absolute p.name_space p.node_name "packml_ros_node/transition")
        ∙ (e
            ∙ (r.expand-private q.name_space n "changeState"
                ∙ (ap (λ x. pre <> x) (sym (append_assoc n "/changeStat" "e"))
                    ∙ sym (append_assoc pre (n <> "/changeStat") "e")))))

-- Where names are expanded as ROS documents it, and wherever the panel and the manager or node are:
-- the panel's transition client meets no service of a manager, so that a press of a button reaches
-- none. Its status client meets the manager's, and its transition client meets that of the older
-- node `SMNode`, exactly at the place of the name that `main` gives to its node, in the root
-- namespace.
pub panel_clients-Meets :
    (r : RosNames) (p q : Place)
    → (¬ Meets r p panel_clients.transition_client q manager_servers.mode_server)
      × (¬ Meets r p panel_clients.transition_client q manager_servers.state_server)
      × (¬ Meets r p panel_clients.transition_client q manager_servers.status_server)
      × (Meets r p panel_clients.status_client q manager_servers.status_server
          ↔ (r.prefix q.name_space <> q.node_name ≡ "/" <> main_node_name))
      × (Meets r p panel_clients.transition_client q sm_node_servers.trans_server
          ↔ (r.prefix q.name_space <> q.node_name ≡ "/" <> main_node_name))
panel_clients-Meets r p q = (
  λ h. ground (arith, h.0),
  λ h. transition-change_state r p q h.1,
  λ h. ground (arith, h.0),
  same_service (absolute-private r p q main_node_name "allStatus"),
  same_service (absolute-private r p q main_node_name "transition"),
)
