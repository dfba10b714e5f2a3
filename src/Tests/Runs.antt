-- ===== src/Tests/Runs.antt =====
-- The definitions that a run of the demo registry opens.
use vpn_register_kit.Prelude.{codes, text_eq, starts_with, includes_unit, trim, join}
use vpn_register_kit.Js.Number.{
  is_zero, is_integer, equals_natural, exceeds_natural, below_natural, decimal, number_text,
}
use vpn_register_kit.Js.Value.{
  elements, items, own_field, truthy, or_else, get, is_object, is_text, is_natural, to_string,
  exceeds, includes,
}
use vpn_register_kit.Js.Regex.{test}
use vpn_register_kit.Js.Utf8.{utf8}
use vpn_register_kit.Js.Decode.{
  digit_value, tokens, units, is_point, more, lead, next, read_points, decode_uri_component,
}
use vpn_register_kit.Js.Json.{stringify, json_stringify}
use vpn_register_kit.Http.{header, search_param, json, text}
use vpn_register_kit.Auth.{hash_token, token_hint, bearer_token, require_admin, random_token}
use vpn_register_kit.Logs.{request_meta, log_info, log_warn}
use vpn_register_kit.Act.{◌>>=◌, try_catch, next_call, print, statement}
use vpn_register_kit.Db.Tables.{
  text_le, order_by, select_token, touch_tokens, insert_token_row, upsert_row, select_node,
  delete_rows, insert_audit_row,
}
use vpn_register_kit.Db.Rows.{message, bind_node, row_to_node}
use vpn_register_kit.Db.{
  now_iso, touch_found, find_enabled_token, insert_token, list_tokens, upsert_node, rows_to_nodes,
  list_nodes, delete_existing, delete_node, insert_audit, write_audit,
}
use vpn_register_kit.Validators.{
  is_digit, is_alnum, is_id_unit, is_host_unit, node_id_pattern, host_pattern, ip_pattern,
  host_shape, is_valid_host, bad_sni, reject_type, validate_trojan, validate_shadowsocks,
  validate_protocol, validate_protocols, bad_name, validate_list, validate_node,
}
use vpn_register_kit.Worker.Reply.{
  with_admin, protocol_summary, map_items, map_value, node_summary, node_summaries,
  read_limited_json,
}
use vpn_register_kit.Worker.Register.{
  optional_get, type_list, accept, refuse, check, register, handle_register,
}
use vpn_register_kit.Worker.Nodes.{
  list_summaries, report_deleted, delete_valid, delete_node_from_path, admit,
  with_register_or_admin, handle_api_nodes, handle_admin_nodes, handle_api_node, handle_admin_node,
}
use vpn_register_kit.Worker.Admin.{
  token_object, create_payload, create_token, create_kind, create_from_body,
  handle_admin_token_create, list_all, handle_admin_tokens,
}
use vpn_register_kit.Worker.Route.{route, fetch}
use vpn_register_kit.Worker.Register

unfoldable pub runs : Unit {0}
unfolding digit_value tokens units is_point more lead next read_points decode_uri_component codes
    text_eq starts_with includes_unit trim join is_zero is_integer equals_natural exceeds_natural
    below_natural decimal number_text elements items own_field truthy or_else get is_object is_text
    is_natural to_string exceeds includes test utf8 stringify json_stringify header search_param
    json text hash_token token_hint bearer_token require_admin random_token request_meta log_info
    log_warn ◌>>=◌ try_catch next_call print statement text_le order_by select_token touch_tokens
    insert_token_row upsert_row select_node delete_rows insert_audit_row message bind_node
    row_to_node now_iso touch_found find_enabled_token insert_token list_tokens upsert_node
    rows_to_nodes list_nodes delete_existing delete_node insert_audit write_audit is_digit is_alnum
    is_id_unit is_host_unit node_id_pattern host_pattern ip_pattern host_shape is_valid_host bad_sni
    reject_type validate_trojan validate_shadowsocks validate_protocol validate_protocols bad_name
    validate_list validate_node with_admin protocol_summary map_items map_value node_summary
    node_summaries read_limited_json optional_get type_list accept refuse check register
    handle_register list_summaries report_deleted delete_valid delete_node_from_path admit
    with_register_or_admin handle_api_nodes handle_admin_nodes handle_api_node handle_admin_node
    token_object create_payload create_token create_kind create_from_body handle_admin_token_create
    list_all handle_admin_tokens route fetch Register.deny
runs = tt
