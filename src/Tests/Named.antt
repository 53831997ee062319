-- ===== src/Tests/Named.antt =====
-- The theorems on the names of services, at nodes of the root namespace.
use packml_ros.Base.{◌≡◌, refl, ◌↔◌, ◌<>◌, String}
use packml_ros.Ros.{is_relative, documented_names}
use packml_ros.Services.{
  Place, Meets, node_servers, new_client, manager_servers, sm_node_servers, panel_clients,
  main_node_name,
}
use packml_ros.Services.Reached.{new_client-Meets, panel_clients-Meets}

abbrev main_place : Place
main_place = record { name_space = "/"; node_name = main_node_name }

abbrev hvr_node : String
hvr_node = "hvr_node"

abbrev client_place : Place
client_place = record { name_space = "/"; node_name = hvr_node }

new_client-Meets_example :
    (Meets documented_names main_place
        (new_client hvr_node).state_tr_client
        client_place
        node_servers.trans_server
      ↔ (hvr_node ≡ hvr_node))
    × (Meets documented_names main_place
          (new_client hvr_node).mode_tr_client
          client_place
          node_servers.mode_server
        ↔ (hvr_node ≡ hvr_node))
    × (documented_names.expand "/" main_node_name manager_servers.status_pub
        ≡ documented_names.expand "/" hvr_node node_servers.status_sub)
unfolding is_relative
new_client-Meets_example =
    new_client-Meets documented_names "/" main_node_name hvr_node hvr_node refl

abbrev panel_place : Place
panel_place = record { name_space = "/"; node_name = "uiPlugin" }

panel_clients-Meets_example :
    (¬ Meets documented_names panel_place panel_clients.transition_client main_place
      manager_servers.mode_server)
    × (¬ Meets documented_names panel_place panel_clients.transition_client main_place
        manager_servers.state_server)
    × (¬ Meets documented_names panel_place panel_clients.transition_client main_place
        manager_servers.status_server)
    × (Meets documented_names panel_place panel_clients.status_client main_place
          manager_servers.status_server
        ↔ (documented_names.prefix "/" <> main_node_name ≡ "/" <> main_node_name))
    × (Meets documented_names panel_place panel_clients.transition_client main_place
          sm_node_servers.trans_server
        ↔ (documented_names.prefix "/" <> main_node_name ≡ "/" <> main_node_name))
panel_clients-Meets_example = panel_clients-Meets documented_names panel_place main_place
