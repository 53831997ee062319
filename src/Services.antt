-- ===== src/Services.antt =====
-- The services and the topic by which the nodes, the manager and the panel reach each other: where
-- packml_ros/include/packml_ros and packml_plugin/src/packml_widget.cpp create them.
pub mod Reached
use packml_ros.Base.{◌≡◌, String, ◌<>◌}
use packml_ros.Ros.{RosNames}

-- the services of packml_msgs/srv
pub data ServiceType : Type 0 where
  state_transition : ServiceType
  mode_transition : ServiceType
  mode_change : ServiceType
  state_change : ServiceType
  all_status : ServiceType

-- a client or a server: its service, and the name that it is created with
pub record Endpoint : Type 0 where
  pub service : ServiceType
  pub name : String

-- the namespace and the name of a node
pub record Place : Type 0 where
  pub name_space : String
  pub node_name : String

-- `PackmlNodeInterface::init`
pub record NodeServers : Type 0 where
  pub trans_server : Endpoint
  pub mode_server : Endpoint
  pub status_sub : String

abbrev pub node_servers : NodeServers
node_servers = record {
  trans_server = record {
    service = ServiceType.state_transition;
    name = "~/packml_state_transition";
  };
  mode_server = record { service = ServiceType.mode_transition; name = "~/packml_mode_transition" };
  status_sub = "packml_status";
}

-- `PackmlClientInterface`, made by the manager for a name of its parameter `node_names`
pub record PackmlClientInterface : Type 0 where
  pub state_tr_client : Endpoint
  pub mode_tr_client : Endpoint

abbrev pub new_client : String → PackmlClientInterface
new_client name = record {
  state_tr_client = record {
    service = ServiceType.state_transition;
    name = name <> "/packml_state_transition";
  };
  mode_tr_client = record {
    service = ServiceType.mode_transition;
    name = name <> "/packml_mode_transition";
  };
}

-- `PackmlManagerInterface::init`
pub record ManagerServers : Type 0 where
  pub mode_server : Endpoint
  pub state_server : Endpoint
  pub status_server : Endpoint
  pub status_pub : String

abbrev pub manager_servers : ManagerServers
manager_servers = record {
  mode_server = record { service = ServiceType.mode_change; name = "~/changeMode" };
  state_server = record { service = ServiceType.state_change; name = "~/changeState" };
  status_server = record { service = ServiceType.all_status; name = "~/allStatus" };
  status_pub = "packml_status";
}

-- the constructor of `SMNode`
pub record SmNodeServers : Type 0 where
  pub trans_server : Endpoint
  pub status_server : Endpoint
  pub mode_server : Endpoint

abbrev pub sm_node_servers : SmNodeServers
sm_node_servers = record {
  trans_server = record { service = ServiceType.state_change; name = "~/transition" };
  status_server = record { service = ServiceType.all_status; name = "~/allStatus" };
  mode_server = record { service = ServiceType.mode_change; name = "~/modeChange" };
}

-- the constructor of `PackmlWidget`
pub record PanelClients : Type 0 where
  pub transition_client : Endpoint
  pub status_client : Endpoint

abbrev pub panel_clients : PanelClients
panel_clients = record {
  transition_client = record {
    service = ServiceType.state_change;
    name = "/packml_ros_node/transition";
  };
  status_client = record { service = ServiceType.all_status; name = "/packml_ros_node/allStatus" };
}

-- the node that packml_ros_node's `main` makes for its `SMNode_new`
abbrev pub main_node_name : String
main_node_name = "packml_ros_node"

-- A client of one node and a server of another meet if they have the same service and their names
-- are expanded to the same one.
abbrev pub Meets : RosNames → Place → Endpoint → Place → Endpoint → Type 0
Meets r p c q s =
    (c.service ≡ s.service)
    × (r.expand p.name_space p.node_name c.name ≡ r.expand q.name_space q.node_name s.name)
