-- ===== src/Server/Messages.antt =====
-- server.go, sendreceive.go and connect.go: the messages of a session, field by field as binary.Read and
-- binary.Write take them.
use gologix.Base.{ℕ, ◌++◌, List, Bool, if◌then◌else◌}
use gologix.Wire.{
  Bytes, Reader, put_u16, put_u32, put_u64, read_u8, read_u16, read_u32, read_u64, read_full, pure,
  ◌>>=◌,
}
use gologix.Item.{CipItem, read_items}

-- eipHeader
pub record EipHeader : Type 0 where
  pub command : ℕ
  pub length : ℕ
  pub session_handle : ℕ
  pub status : ℕ
  pub context : ℕ
  pub options : ℕ

unfoldable pub header_bytes : EipHeader → Bytes
header_bytes h =
    put_u16 h.command
    ++ (put_u16 h.length
        ++ (put_u32 h.session_handle
            ++ (put_u32 h.status ++ (put_u64 h.context ++ put_u32 h.options))))

unfoldable pub read_header : Reader EipHeader
read_header = do
  command ← read_u16
  length ← read_u16
  session_handle ← read_u32
  status ← read_u32
  context ← read_u64
  options ← read_u32
  pure (record {
    command = command;
    length = length;
    session_handle = session_handle;
    status = status;
    context = context;
    options = options;
  })

-- What sendUnitData and sendRRData read from the socket: the interface handle, the timeout and the items.
unfoldable pub read_command_data : Reader (List CipItem)
read_command_data = do interface_handle ← read_u32; timeout ← read_u16; read_items

-- msgCIPRegister
pub record Register : Type 0 where
  pub protocol_version : ℕ
  pub option_flag : ℕ

unfoldable pub register_bytes : Register → Bytes
register_bytes m = put_u16 m.protocol_version ++ put_u16 m.option_flag

unfoldable pub read_register : Reader Register
read_register = do
  version ← read_u16
  flag ← read_u16
  pure (record { protocol_version = version; option_flag = flag })

-- The fields of msgEIPForwardOpen_Standard and msgEIPForwardOpen_Large that the handlers use; the two
-- differ in the width of the network parameters.
pub record ForwardOpen : Type 0 where
  pub service : ℕ
  pub ot : ℕ
  pub to : ℕ
  pub serial : ℕ
  pub vendor : ℕ
  pub originator : ℕ
  pub ot_rpi : ℕ
  pub to_rpi : ℕ
  pub trigger : ℕ
  pub path_size : ℕ

unfoldable pub read_forward_open : Bool → Reader ForwardOpen
read_forward_open large = do
  service ← read_u8
  request_path ← read_full 5
  priority ← read_u8
  timeout_ticks ← read_u8
  ot ← read_u32
  to ← read_u32
  serial ← read_u16
  vendor ← read_u16
  originator ← read_u32
  multiplier ← read_u32
  ot_rpi ← read_u32
  ot_params ← if large then read_u32 else read_u16
  to_rpi ← read_u32
  to_params ← if large then read_u32 else read_u16
  trigger ← read_u8
  path_size ← read_u8
  pure (record {
    service = service;
    ot = ot;
    to = to;
    serial = serial;
    vendor = vendor;
    originator = originator;
    ot_rpi = ot_rpi;
    to_rpi = to_rpi;
    trigger = trigger;
    path_size = path_size;
  })

-- The fields of msgEIPForwardClose that the handler uses: PathSize and ConnectionSerialNumber.
pub record ForwardClose : Type 0 where
  pub path_size : ℕ
  pub serial : ℕ

unfoldable pub read_forward_close : Reader ForwardClose
read_forward_close = do
  service ← read_u8
  path_size ← read_u8
  request_path ← read_full 4
  priority ← read_u8
  timeout_ticks ← read_u8
  serial ← read_u16
  vendor ← read_u16
  originator ← read_u32
  connection_path_size ← read_u8
  pure (record { path_size = path_size; serial = serial })
