-- ===== src/Hosts/TcpHost/Tests.antt =====
-- src/Plugins/Hosts/HostProxy_TCP.cpp: runs on small inputs.
use usbproxy_legacy.Prelude.{◌≡◌, refl, ◌&&◌, not, ◌/=◌, if◌then◌else◌, [], ◌∷◌, arith}
use usbproxy_legacy.Packet.{CtrlRequest}
use usbproxy_legacy.Usb.Interface.{ok}
use usbproxy_legacy.Devices.TcpDevice
use usbproxy_legacy.Devices.TcpDevice.{available, request_frame, is_in}
use usbproxy_legacy.Hosts.TcpHost.{null, overwritten, request, control_request}
use usbproxy_legacy.Hosts.TcpHost.Messages.{
  with_data, answer_frame, seen, control_request-seen, control_request-arrived,
}

-- GET_DESCRIPTOR, and SET_REPORT with a byte of data.
abbrev get_descriptor : CtrlRequest
get_descriptor = record {
  b_request_type = 0x80;
  b_request = 6;
  w_value = 0x100;
  w_index = 0;
  w_length = 2;
}

abbrev set_report : CtrlRequest
set_report = record {
  b_request_type = 0x21;
  b_request = 9;
  w_value = 0x200;
  w_index = 0;
  w_length = 1;
}

control_request-seen_example :
    TcpDevice.control_request get_descriptor []
      (available (answer_frame (with_data (18 ∷ 1 ∷ 0 ∷ []))))
    ≡ (request_frame get_descriptor [], ok (seen get_descriptor (with_data (18 ∷ 1 ∷ 0 ∷ []))))
control_request-seen_example =
    control_request-seen get_descriptor [] (with_data (18 ∷ 1 ∷ 0 ∷ [])) (omega arith)

control_request-arrived_example :
    control_request (available (request_frame set_report (5 ∷ [])))
    ≡ ok (
        if not (is_in set_report) && set_report.w_length /= 0
        then request set_report set_report.w_length (overwritten (5 ∷ []))
        else request set_report 0 null)
control_request-arrived_example = control_request-arrived set_report (5 ∷ []) refl (omega arith)
