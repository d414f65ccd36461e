-- ===== src/Network.antt =====
-- engine/engine.go, engine/handle_admin.go and engine/persistance.go: the machines of a network and the
-- commands of the admin tool, as words. A machine stands here for its type, name and address.
pub mod Unique
use byte_space.Prelude.{
  ℕ, Bool, true, false, ◌&&◌, ◌||◌, not, ◌==◌, ltb, if◌then◌else◌, Option, none, some, List, [],
  ◌∷◌, ◌++◌, eq_bytes, is_nil, codes, length, Result, ok, err, panics,
}
use byte_space.Terminal.{Text}
use byte_space.Accounts.{newline}
use byte_space.Accounts.Prompts.{success, error_status}

pub record Node : Type 0 where
  pub type : Text
  pub name : Text
  pub ip : Text

-- `nodes` is a map by address, here in the order of insertion; `saved` is what network.json has.
pub record Network : Type 0 where
  pub nodes : List Node
  pub saved : List Node

-- What a command writes back, or a panic.
pub data Answer : Type 0 where
  answers : Text → ℕ → Answer
  answer_panics : Answer

-- `SaveNetwork`; its error, `saves = false`, is discarded.
abbrev pub save_network : Bool → Network → Network
save_network saves net = if saves then record net { saved = net.nodes } else net

abbrev format_node : Node → Text
format_node node =
    node.type ++ (codes ": " ++ (node.name ++ (codes ": " ++ (node.ip ++ newline ∷ []))))

abbrev list_where : (Node → Bool) → List Node → Text
list_where test [] = []
list_where test (node ∷ nodes) =
    let later = list_where test nodes in if test node then format_node node ++ later else later

abbrev drop_last_rune : Text → Text
drop_last_rune [] = []
drop_last_rune (c ∷ []) = []
drop_last_rune (c ∷ d ∷ text) = c ∷ drop_last_rune (d ∷ text)

-- `message[:len(message)-1] + "\n"`
abbrev list_answer : Text → Answer
list_answer message =
    if is_nil message
    then answer_panics
    else answers (drop_last_rune message ++ newline ∷ []) success

abbrev list_message : (Node → Bool) → List Node → Answer
list_message test nodes =
    if is_nil nodes
    then answers (codes "No machines on network\n" ++ newline ∷ []) success
    else list_answer (list_where test nodes)

unfoldable pub list_nodes : List Text → Network → Answer
list_nodes (command ∷ []) net = list_message (λ node. true) net.nodes
list_nodes (command ∷ type ∷ []) net = list_message (λ node. eq_bytes node.type type) net.nodes
list_nodes words net = answers (codes "Usage: list-nodes\n") error_status

-- The message of the loop over the nodes, if one has the name or the address.
unfoldable pub conflict : Text → Text → List Node → Option Text
conflict name ip [] = none
conflict name ip (node ∷ nodes) =
    let later = conflict name ip nodes in
    if eq_bytes node.name name
    then some (codes "A node with the name " ++ (name ++ codes " already exists\n"))
    else if eq_bytes node.ip ip
    then some (codes "A node with the IP " ++ (ip ++ codes " already exists\n"))
    else later

abbrev spawned_message : Text → Text → Text → Text
spawned_message type name ip =
    codes "A "
    ++ (type
        ++ (codes " node named: "
            ++ (name
                ++ (codes " with IP: "
                    ++ (ip
                        ++ (codes " spawned successfully\nTip: adduser "
                            ++ (name ++ codes " root <password>\n")))))))

-- The machine itself, `NewComputer`, is not here.
abbrev pub spawn_new : Bool → Text → Text → Text → Option Text → Network → Answer × Network
spawn_new saves type name ip (some message) net = (answers message error_status, net)
spawn_new saves type name ip none net = (
  answers (spawned_message type name ip) success,
  save_network saves
      (record net { nodes = net.nodes ++ record { type = type; name = name; ip = ip } ∷ [] }),
)

unfoldable pub spawn_node : Bool → List Text → Network → Answer × Network
unfolding conflict
spawn_node saves (command ∷ type ∷ name ∷ ip ∷ []) net =
    if not (eq_bytes type (codes "computer"))
    then (answers (codes "Node type " ++ (type ++ codes " is not supported\n")) error_status, net)
    else spawn_new saves type name ip (conflict name ip net.nodes) net
spawn_node saves words net = (answers (codes "Usage: spawn <type> <name> <ip>\n") error_status, net)

-- `getNodeByName`
unfoldable pub get_node_by_name : Text → List Node → Option Node
get_node_by_name name [] = none
get_node_by_name name (node ∷ nodes) =
    let later = get_node_by_name name nodes in if eq_bytes node.name name then some node else later

-- `GetNode`
unfoldable pub get_node : Text → List Node → Option Node
get_node ip [] = none
get_node ip (node ∷ nodes) =
    let later = get_node ip nodes in if eq_bytes node.ip ip then some node else later

unfoldable pub without_ip : Text → List Node → List Node
without_ip ip [] = []
without_ip ip (node ∷ nodes) =
    let kept = without_ip ip nodes in if eq_bytes node.ip ip then kept else node ∷ kept

-- `removal` is the text of the error that the removal of the machine's files gives.
abbrev pub delete_found : Bool → Option Text → Text → Option Node → Network → Answer × Network
unfolding without_ip
delete_found saves removal name none net =
    (answers (codes "No node with the name " ++ (name ++ codes " found\n")) error_status, net)
delete_found saves (some why) name (some node) net = (
  answers (codes "Error deleting filesystem: " ++ (why ++ newline ∷ [])) error_status,
  record net { nodes = without_ip node.ip net.nodes },
)
delete_found saves none name (some node) net = (
  answers (codes "Node " ++ (name ++ codes " deleted successfully\n")) success,
  save_network saves (record net { nodes = without_ip node.ip net.nodes }),
)

unfoldable pub delete_node : Bool → Option Text → List Text → Network → Answer × Network
unfolding delete_found get_node_by_name
delete_node saves removal (command ∷ name ∷ []) net =
    delete_found saves removal name (get_node_by_name name net.nodes) net
delete_node saves removal words net = (answers (codes "Usage: delete <name>\n") error_status, net)

-- `resetNetwork`: the file is gone too, and no file counts as an empty network.
abbrev pub reset_network : Network → Answer × Network
reset_network net = (
  answers (codes "Network reset (memory + disk cleared)") success,
  record { nodes = []; saved = [] },
)

-- The switch of `handleAdmin`; `add_user` is the answer of the command `adduser`, which leaves the
-- network as it is. With no words the switch panics, after a message.
unfoldable pub handle_admin :
    Bool → Option Text → (List Text → Answer) → List Text → Network → Answer × Network
unfolding list_nodes spawn_node delete_node
handle_admin saves removal add_user [] net = (answer_panics, net)
handle_admin saves removal add_user (command ∷ words) net =
    if eq_bytes command (codes "spawn")
    then spawn_node saves (command ∷ words) net
    else if eq_bytes command (codes "list-nodes") || eq_bytes command (codes "ls")
    then (list_nodes (command ∷ words) net, net)
    else if eq_bytes command (codes "delete")
    then delete_node saves removal (command ∷ words) net
    else if eq_bytes command (codes "adduser")
    then (add_user (command ∷ words), net)
    else if eq_bytes command (codes "reset-network")
    then reset_network net
    else if eq_bytes command (codes "exit")
    then (answers (codes "Exiting...") 10, net)
    else (answers (codes "not implemented\n") error_status, net)
