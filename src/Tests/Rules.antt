-- ===== src/Tests/Rules.antt =====
-- The rules of the validator, at a node of the demo registry.
use vpn_register_kit.Prelude.{◌≡◌, refl, codes, true}
use vpn_register_kit.Js.Value.{str}
use vpn_register_kit.Js.Result.{ok}
use vpn_register_kit.Js.Regex.{test}
use vpn_register_kit.Validators.{node_id_pattern, is_valid_host, validate_protocol, validate_node}
use vpn_register_kit.Validators.Patterns.{IsNodeId, node_id_pattern_iff}
use vpn_register_kit.Validators.Hosts.{IsHost, is_valid_host_iff}
use vpn_register_kit.Validators.Protocols.{IsProtocol, validate_protocol_iff}
use vpn_register_kit.Validators.Nodes.{IsNode, validate_node_iff}
use vpn_register_kit.Tests.Demo.{demo, tokyo, trojan}
use vpn_register_kit.Tests.Runs.{runs}

matches : test node_id_pattern (codes "jp-1") ≡ true
unfolding runs
matches = refl

hosted : is_valid_host demo.number_of (str (codes "jp.example.com")) ≡ ok true
unfolding runs
hosted = refl

valid : validate_node demo.number_of tokyo ≡ ok tt
unfolding runs
valid = refl

node_id_pattern_iff_example : IsNodeId (codes "jp-1")
node_id_pattern_iff_example = (node_id_pattern_iff (codes "jp-1")).0 matches

is_valid_host_iff_example : IsHost demo.number_of (str (codes "jp.example.com"))
is_valid_host_iff_example =
    (is_valid_host_iff demo.number_of (str (codes "jp.example.com"))).0 hosted

validate_node_iff_example : IsNode demo.number_of tokyo
validate_node_iff_example = (validate_node_iff demo.number_of tokyo).0 valid

served : validate_protocol demo.number_of trojan ≡ ok tt
unfolding runs
served = refl

validate_protocol_iff_example : IsProtocol demo.number_of trojan
validate_protocol_iff_example = (validate_protocol_iff demo.number_of trojan).0 served
