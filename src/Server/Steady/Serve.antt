-- ===== src/Server/Steady/Serve.antt =====
-- Every handler is steady, and the loop of a connection ends (server.go).
use gologix.Base.{ℕ, refl}
use gologix.Wire.{Bytes}
use gologix.Wire.Shrinks.{Shrinks, shrinks_rules}
use gologix.Item.{CipItem}
use gologix.Item.Shorter.{Shrinks-read_items}
use gologix.Server.Session.{Env, receive}
use gologix.Server.Messages.{EipHeader, read_command_data}
use gologix.Server.Serve.{
  unit_data_service, set_sequencer, send_unit_data, embedded_service, unconnected_send,
  unconnected_service, unconnected_data, rr_data_item, send_rr_data, send_list_identity_reply,
  send_list_services_data, dispatch,
}
use gologix.Server.Steady.{Follows-same, IsSteady, IsSteady-send, IsSteady-receive, steady_rules}
use gologix.Server.Steady.Replies.{
  IsSteady-send_unit_data_error_reply, IsSteady-send_unconnected_error_reply,
}
use gologix.Server.Steady.Connected.{
  IsSteady-connected_read, IsSteady-cip_connected_write, IsSteady-connected_multi,
  IsSteady-connected_get_attr, IsSteady-connected_get_attribute_all, IsSteady-connected_symbol_list,
}
use gologix.Server.Steady.Unconnected.{
  IsSteady-unconnected_service_write, IsSteady-unconnected_service_read,
  IsSteady-unconnected_get_attribute_all, IsSteady-unconnected_service_get_attr_single,
  IsSteady-unconnected_service_set_attr_single,
}
use gologix.Server.Steady.Opening.{
  IsSteady-forward_open, IsSteady-large_forward_open, IsSteady-forward_close,
  IsSteady-register_session,
}

ruleset handler_rules = (
  steady_rules, IsSteady-send, IsSteady-send_unit_data_error_reply,
  IsSteady-send_unconnected_error_reply, IsSteady-connected_read,
)

ruleset connected_rules = (
  handler_rules, IsSteady-cip_connected_write, IsSteady-connected_multi,
  IsSteady-connected_get_attr, IsSteady-connected_get_attribute_all, IsSteady-connected_symbol_list,
)

ruleset unconnected_rules = (
  handler_rules, IsSteady-unconnected_service_write, IsSteady-unconnected_service_read,
  IsSteady-unconnected_get_attribute_all, IsSteady-unconnected_service_get_attr_single,
  IsSteady-unconnected_service_set_attr_single, IsSteady-forward_open, IsSteady-large_forward_open,
  IsSteady-forward_close,
)

Shrinks-read_command_data : Shrinks read_command_data
unfolding read_command_data
Shrinks-read_command_data = search (shrinks_rules, Shrinks-read_items) depth 60

module _ {W E : Type 0} (env : Env W E) where
  IsSteady-read_command_data : IsSteady (receive {W = W} read_command_data)
  IsSteady-read_command_data = IsSteady-receive read_command_data Shrinks-read_command_data

  IsSteady-unit_data_service :
      (service : ℕ) (item0 item1 : CipItem) (b : Bytes)
      → IsSteady (unit_data_service env service item0 item1 b)
  unfolding unit_data_service
  IsSteady-unit_data_service service item0 item1 b = search connected_rules depth 60

  IsSteady-set_sequencer : (seq : ℕ) → IsSteady (set_sequencer env seq)
  unfolding set_sequencer
  IsSteady-set_sequencer seq = record { at = λ s. Follows-same s _ refl refl refl refl }

  IsSteady-send_unit_data : IsSteady (send_unit_data env)
  unfolding send_unit_data
  IsSteady-send_unit_data =
      search
        (
          steady_rules, IsSteady-read_command_data, IsSteady-set_sequencer,
          IsSteady-unit_data_service,
        )
        depth 60

  IsSteady-embedded_service : (service : ℕ) (b : Bytes) → IsSteady (embedded_service env service b)
  unfolding embedded_service
  IsSteady-embedded_service service b = search unconnected_rules depth 60

  IsSteady-unconnected_send : (b : Bytes) → IsSteady (unconnected_send env b)
  unfolding unconnected_send
  IsSteady-unconnected_send b = search (steady_rules, IsSteady-embedded_service) depth 60

  IsSteady-unconnected_service :
      (service : ℕ) (whole b : Bytes) → IsSteady (unconnected_service env service whole b)
  unfolding unconnected_service
  IsSteady-unconnected_service service whole b =
      search (unconnected_rules, IsSteady-unconnected_send) depth 60

  IsSteady-unconnected_data : (whole : Bytes) → IsSteady (unconnected_data env whole)
  unfolding unconnected_data
  IsSteady-unconnected_data whole = search (steady_rules, IsSteady-unconnected_service) depth 60

  IsSteady-rr_data_item : (item0 item1 : CipItem) → IsSteady (rr_data_item env item0 item1)
  unfolding rr_data_item
  IsSteady-rr_data_item item0 item1 = search (handler_rules, IsSteady-unconnected_data) depth 60

  IsSteady-send_rr_data : IsSteady (send_rr_data env)
  unfolding send_rr_data
  IsSteady-send_rr_data =
      search (steady_rules, IsSteady-read_command_data, IsSteady-rr_data_item) depth 60

  IsSteady-send_list_identity_reply : IsSteady (send_list_identity_reply env)
  unfolding send_list_identity_reply
  IsSteady-send_list_identity_reply = search handler_rules

  IsSteady-send_list_services_data : IsSteady (send_list_services_data env)
  unfolding send_list_services_data
  IsSteady-send_list_services_data = search handler_rules

  pub IsSteady-dispatch : (hdr : EipHeader) → IsSteady (dispatch env hdr)
  unfolding dispatch
  IsSteady-dispatch hdr =
      search
        (
          steady_rules, IsSteady-send_unit_data, IsSteady-send_rr_data,
          IsSteady-send_list_identity_reply, IsSteady-send_list_services_data,
          IsSteady-register_session,
        )
        depth 60
