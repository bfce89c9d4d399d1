-- ===== src/Hosts/Tests.antt =====
-- Hosts, node ids and SSH arguments at concrete inputs.
use ydbops.Base.{◌≡◌, refl, ◌≢◌, ◌≤◌, ◌↔◌, false, none, some, List, [], ◌∷◌, map, Memᴰ, arith}
use ydbops.Base.Text.{itoa}
use ydbops.Cluster.{Node, ItemState}
use ydbops.Hosts.{
  ok, err, negative_id, get_node_ids, parse_ssh_args, populate_tenant_to_nodes_mapping,
}
use ydbops.Hosts.Quoting.{Word, plain, quoted, argument, option_text, parse_ssh_args-option_text}
use ydbops.Hosts.NodeIds.{
  dashed, Stands, get_node_ids-itoa, get_node_ids-ne-negative, get_node_ids_range,
}
use ydbops.Hosts.Tenants.{ids_of, Serves, populate_tenant_to_nodes_mapping_iff}

-- `-o` and `a=\"b c\"`
abbrev two_words : List Word
two_words =
    (plain b'-', plain b'o' ∷ [])
    ∷ (plain b'a', plain b'=' ∷ quoted (b'b' ∷ b' ' ∷ b'c' ∷ []) ∷ [])
    ∷ []

parse_ssh_args-option_text_example : parse_ssh_args (option_text two_words) ≡ map argument two_words
parse_ssh_args-option_text_example = parse_ssh_args-option_text two_words (
  ((omega arith, refl), ((omega arith, refl), tt)),
  (
    (
      (omega arith, refl),
      ((omega arith, refl), ((omega arith, (omega arith, (omega arith, tt))), tt)),
    ),
    tt,
  ),
)

get_node_ids-itoa_example : get_node_ids (map itoa (1 ∷ 20 ∷ [])) ≡ ok (1 ∷ 20 ∷ [])
get_node_ids-itoa_example = get_node_ids-itoa (1 ∷ 20 ∷ []) (omega arith, (omega arith, tt))

get_node_ids-ne-negative_example : get_node_ids ("1" ∷ "-2" ∷ []) ≢ err negative_id
get_node_ids-ne-negative_example = get_node_ids-ne-negative ("1" ∷ "-2" ∷ [])

get_node_ids_range_example : Stands (get_node_ids (dashed 3 5 ∷ [])) 4 ↔ ((3 ≤ 4) × (4 ≤ 5))
get_node_ids_range_example = get_node_ids_range 3 5 (omega arith) (omega arith) 4

abbrev tenant_node : Node
tenant_node = record {
  node_id = 7;
  host = "host.net";
  port = 19001;
  version = "24.1.2";
  data_center = "dc";
  has_storage = false;
  dynamic = some "/root/db";
  start_time = none;
  item_state = ItemState.up;
}

populate_tenant_to_nodes_mapping_iff_example :
    Memᴰ 7 (ids_of (populate_tenant_to_nodes_mapping (tenant_node ∷ [])) "/root/db")
    ↔ Serves (tenant_node ∷ []) "/root/db" 7
populate_tenant_to_nodes_mapping_iff_example =
    populate_tenant_to_nodes_mapping_iff (tenant_node ∷ []) "/root/db" 7
