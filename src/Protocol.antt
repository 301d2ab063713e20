-- ===== src/Protocol.antt =====
-- pkg/protocol/protocol.go: the frames that the Gateway and a connect exchange over a tunnel.
use mcphub.Prelude.{ℕ, Bool, false, [], Text, str, Map}

abbrev pub version : Text
version = str "1"

pub record Frame : Type 0 where
  pub type : Text
  pub stream_id : Text
  pub component_id : Text
  pub method : Text
  pub headers : Map Text
  pub payload : Text
  pub status : ℕ
  pub end_of_stream : Bool
  pub error : Text
  pub protocol : Text
  pub connect_id : Text
  pub tenant_id : Text
  pub gateway_token : Text
  pub connect_name : Text
  pub version : Text
  pub component_name : Text
  pub transport : Text
  pub upstream_url : Text
  pub timestamp : Text

-- A frame with the fields that a composite literal leaves out.
abbrev pub zero_frame : Text → Frame
zero_frame t = record {
  type = t;
  stream_id = [];
  component_id = [];
  method = [];
  headers = [];
  payload = [];
  status = 0;
  end_of_stream = false;
  error = [];
  protocol = [];
  connect_id = [];
  tenant_id = [];
  gateway_token = [];
  connect_name = [];
  version = [];
  component_name = [];
  transport = [];
  upstream_url = [];
  timestamp = [];
}
