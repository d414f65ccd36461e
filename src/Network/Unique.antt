-- ===== src/Network/Unique.antt =====
-- No two machines of a network share a name or an address.
use byte_space.Prelude.{
  ◌≡◌, refl, ap, ◌∙◌, arith, Bool, true, false, ◌&&◌, ◌||◌, not, if◌then◌else◌, Option, none, some,
  List, [], ◌∷◌, ◌++◌, eq_bytes, codes, Bool-cases, inl, inr,
}
use byte_space.Terminal.{Text}
use byte_space.Network.{
  Node, Network, Answer, save_network, conflict, spawn_new, spawn_node, get_node_by_name,
  without_ip, delete_found, delete_node, reset_network, list_nodes, handle_admin,
}

true_is_false : true ≡ false → ⊥
true_is_false h = ground arith

and-true : (a b : Bool) → (a && b) ≡ true → (a ≡ true) × (b ≡ true)
and-true a b h = ground arith

abbrev pub differs : Node → Node → Bool
differs node other = not (eq_bytes node.name other.name) && not (eq_bytes node.ip other.ip)

abbrev pub all_differ : Node → List Node → Bool
all_differ node [] = true
all_differ node (other ∷ nodes) = differs node other && all_differ node nodes

-- Each machine differs in name and address from all that come after it.
abbrev pub all_unique : List Node → Bool
all_unique [] = true
all_unique (node ∷ nodes) = all_differ node nodes && all_unique nodes

all_differ-append :
    (node : Node) (nodes : List Node) (other : Node)
    → all_differ node nodes ≡ true
    → differs node other ≡ true
    → all_differ node (nodes ++ other ∷ []) ≡ true
all_differ-append node [] other h d = rw d
all_differ-append node (first ∷ nodes) other h d =
    let both = and-true (differs node first) (all_differ node nodes) h in
    rw both.0 (all_differ-append node nodes other both.1 d)

conflict-differs :
    (node other : Node) (nodes : List Node)
    → conflict other.name other.ip (node ∷ nodes) ≡ none
    → (differs node other ≡ true) × (conflict other.name other.ip nodes ≡ none)
unfolding conflict
conflict-differs node other nodes h = ground (arith, h)

all_unique-append :
    (nodes : List Node) (other : Node)
    → all_unique nodes ≡ true
    → conflict other.name other.ip nodes ≡ none
    → all_unique (nodes ++ other ∷ []) ≡ true
all_unique-append [] other h free = refl
all_unique-append (node ∷ nodes) other h free =
    let both = and-true (all_differ node nodes) (all_unique nodes) h in
    let apart = conflict-differs node other nodes free in
    rw (all_differ-append node nodes other both.0 apart.0)
      (all_unique-append nodes other both.1 apart.1)

all_differ-without_ip :
    (node : Node) (ip : Text) (nodes : List Node)
    → all_differ node nodes ≡ true
    → all_differ node (without_ip ip nodes) ≡ true
unfolding without_ip
all_differ-without_ip node ip [] h = refl
all_differ-without_ip node ip (other ∷ nodes) h =
    let both = and-true (differs node other) (all_differ node nodes) h in
    let kept = all_differ-without_ip node ip nodes both.1 in
    elim (Bool-cases (eq_bytes other.ip ip)) [ inl e ↦ rw e kept | inr e ↦ rw (e, both.0) kept ]

all_unique-without_ip :
    (ip : Text) (nodes : List Node)
    → all_unique nodes ≡ true
    → all_unique (without_ip ip nodes) ≡ true
unfolding without_ip
all_unique-without_ip ip [] h = refl
all_unique-without_ip ip (node ∷ nodes) h =
    let both = and-true (all_differ node nodes) (all_unique nodes) h in
    let kept = all_unique-without_ip ip nodes both.1 in
    elim (Bool-cases (eq_bytes node.ip ip)) [
      | inl e ↦ rw e kept
      | inr e ↦ rw (e, all_differ-without_ip node ip nodes both.0) kept
    ]

-- Whether the host does what is asked of it: the file is written and machines are removed.
abbrev pub works : Bool → Option Text → Bool
works saves none = saves
works saves (some why) = false

abbrev pub IsStored : Bool → Network → Type 0
IsStored true net = net.saved ≡ net.nodes
IsStored false net = Unit {0}

-- What holds of a network between commands: no two machines share a name or an address, and the
-- file has the network, if the host works.
pub record IsSound (host : Bool) (net : Network) : Type 0 where
  pub unique : all_unique net.nodes ≡ true
  pub stored : IsStored host net

saved-IsStored :
    (saves : Bool) (removal : Option Text) (net : Network)
    → IsStored (works saves removal) (save_network saves net)
saved-IsStored true none net = refl
saved-IsStored false none net = tt
saved-IsStored saves (some why) net = tt

save_network-nodes : (saves : Bool) (net : Network) → (save_network saves net).nodes ≡ net.nodes
save_network-nodes true net = refl
save_network-nodes false net = refl

module _ (saves : Bool) (removal : Option Text) (net : Network)
    (sound : IsSound (works saves removal) net) where
  saved-IsSound :
      (nodes : List Node)
      → all_unique nodes ≡ true
      → IsSound (works saves removal) (save_network saves (record net { nodes = nodes }))
  saved-IsSound nodes h = record {
    unique = ap all_unique (save_network-nodes saves (record net { nodes = nodes })) ∙ h;
    stored = saved-IsStored saves removal (record net { nodes = nodes });
  }

  spawn_new-IsSound :
      (type name ip : Text) (free : Option Text)
      → conflict name ip net.nodes ≡ free
      → IsSound (works saves removal) (spawn_new saves type name ip free net).1
  spawn_new-IsSound type name ip (some message) h = sound
  spawn_new-IsSound type name ip none h =
      let new : Node = record { type = type; name = name; ip = ip } in
      saved-IsSound (net.nodes ++ new ∷ []) (all_unique-append net.nodes new sound.unique h)

  spawn_node-IsSound :
      (words : List Text) → IsSound (works saves removal) (spawn_node saves words net).1
  unfolding spawn_node
  spawn_node-IsSound (command ∷ type ∷ name ∷ ip ∷ []) =
      elim (Bool-cases (eq_bytes type (codes "computer"))) [
        | inl e ↦ rw e (spawn_new-IsSound type name ip (conflict name ip net.nodes) refl)
        | inr e ↦ rw e sound
      ]
  spawn_node-IsSound _ = sound

delete_found-IsSound :
    (saves : Bool) (removal : Option Text) (net : Network) (name : Text) (found : Option Node)
    → IsSound (works saves removal) net
    → IsSound (works saves removal) (delete_found saves removal name found net).1
unfolding delete_found
delete_found-IsSound saves removal net name none sound = sound
delete_found-IsSound saves (some why) net name (some node) sound = record {
  unique = all_unique-without_ip node.ip net.nodes sound.unique;
  stored = tt;
}
delete_found-IsSound saves none net name (some node) sound =
    saved-IsSound saves none net sound (without_ip node.ip net.nodes)
      (all_unique-without_ip node.ip net.nodes sound.unique)

delete_node-IsSound :
    (saves : Bool) (removal : Option Text) (words : List Text) (net : Network)
    → IsSound (works saves removal) net
    → IsSound (works saves removal) (delete_node saves removal words net).1
unfolding delete_node
delete_node-IsSound saves removal (command ∷ name ∷ []) net sound =
    delete_found-IsSound saves removal net name (get_node_by_name name net.nodes) sound
delete_node-IsSound saves removal _ net sound = sound

reset-IsSound : (host : Bool) → IsSound host (record { nodes = []; saved = [] })
reset-IsSound true = record { unique = refl; stored = refl }
reset-IsSound false = record { unique = refl; stored = tt }

if-IsSound :
    (host test : Bool) (a b : Answer × Network)
    → IsSound host a.1
    → IsSound host b.1
    → IsSound host (if test then a else b).1
if-IsSound host true a b h g = h
if-IsSound host false a b h g = g

-- Whatever is typed into the admin tool, and whatever the host does: the machines of the network
-- keep having names and addresses of their own, and with a host that writes the file and removes
-- machines, the file has the network after each command.
pub handle_admin-IsSound :
    (saves : Bool) (removal : Option Text) (add_user : List Text → Answer) (words : List Text)
    (net : Network)
    → IsSound (works saves removal) net
    → IsSound (works saves removal) (handle_admin saves removal add_user words net).1
unfolding handle_admin
handle_admin-IsSound saves removal add_user [] net sound = sound
handle_admin-IsSound saves removal add_user (command ∷ words) net sound =
    let host = works saves removal in
    let typed = command ∷ words in
    if-IsSound host (eq_bytes command (codes "spawn")) (spawn_node saves typed net) _
      (spawn_node-IsSound saves removal net sound typed)
      (if-IsSound host (eq_bytes command (codes "list-nodes") || eq_bytes command (codes "ls"))
        (list_nodes typed net, net) _ sound
        (if-IsSound host (eq_bytes command (codes "delete")) (delete_node saves removal typed net) _
          (delete_node-IsSound saves removal typed net sound)
          (if-IsSound host (eq_bytes command (codes "adduser")) (add_user typed, net) _ sound
            (if-IsSound host (eq_bytes command (codes "reset-network")) (reset_network net) _
              (reset-IsSound host)
              (if-IsSound host (eq_bytes command (codes "exit")) _ _ sound sound)))))
