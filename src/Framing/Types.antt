-- ===== src/Framing/Types.antt =====
-- aether-core/src/framing.rs: frame types, extension types and the constants of the format.
use aether_protocol.Prelude.{ℕ, bit_and, Bool, true, false, Option, none, some, ◌==◌, if◌then◌else◌}

abbrev pub max_packet_size : ℕ
max_packet_size = 1400

abbrev pub short_header_size : ℕ
short_header_size = 16

abbrev pub long_header_size : ℕ
long_header_size = 24

abbrev pub max_stream_id : ℕ
max_stream_id = 0x3FFFF

abbrev pub control_stream_id : ℕ
control_stream_id = 0

-- `AETHER_VERSION` of lib.rs.
abbrev pub aether_version : ℕ
aether_version = 0

-- `data_frame` is the source's `Data`, a reserved word here.
pub data FrameType : Type 0 where
  initial handshake data_frame ack close ping path_challenge path_response : FrameType
  stream_open stream_close : FrameType

unfoldable pub frame_type_from_u8 : ℕ → Option FrameType
frame_type_from_u8 value =
    let v = bit_and value 0x3F in
    if v == 0x00
    then some initial
    else if v == 0x01
    then some handshake
    else if v == 0x02
    then some data_frame
    else if v == 0x03
    then some ack
    else if v == 0x04
    then some close
    else if v == 0x05
    then some ping
    else if v == 0x06
    then some path_challenge
    else if v == 0x07
    then some path_response
    else if v == 0x08
    then some stream_open
    else if v == 0x09
    then some stream_close
    else none

unfoldable pub frame_type_to_u8 : FrameType → ℕ
frame_type_to_u8 initial = 0x00
frame_type_to_u8 handshake = 0x01
frame_type_to_u8 data_frame = 0x02
frame_type_to_u8 ack = 0x03
frame_type_to_u8 close = 0x04
frame_type_to_u8 ping = 0x05
frame_type_to_u8 path_challenge = 0x06
frame_type_to_u8 path_response = 0x07
frame_type_to_u8 stream_open = 0x08
frame_type_to_u8 stream_close = 0x09

unfoldable pub requires_long_header : FrameType → Bool
requires_long_header initial = true
requires_long_header handshake = true
requires_long_header _ = false

unfoldable pub is_control : FrameType → Bool
is_control data_frame = false
is_control _ = true

pub data ExtType : Type 0 where
  terminator timestamp priority padding path_id flow_control : ExtType

unfoldable pub ext_type_from_u8 : ℕ → Option ExtType
ext_type_from_u8 value =
    if value == 0x00
    then some terminator
    else if value == 0x01
    then some timestamp
    else if value == 0x02
    then some priority
    else if value == 0x03
    then some padding
    else if value == 0x04
    then some path_id
    else if value == 0x05
    then some flow_control
    else none

-- `ext_type as u8`.
unfoldable pub ext_type_to_u8 : ExtType → ℕ
ext_type_to_u8 terminator = 0x00
ext_type_to_u8 timestamp = 0x01
ext_type_to_u8 priority = 0x02
ext_type_to_u8 padding = 0x03
ext_type_to_u8 path_id = 0x04
ext_type_to_u8 flow_control = 0x05

-- `ext_type == ExtType::Terminator` and `== ExtType::PathId`, of the derived equality.
abbrev pub is_terminator : ExtType → Bool
is_terminator terminator = true
is_terminator _ = false

abbrev pub is_path_id : ExtType → Bool
is_path_id path_id = true
is_path_id _ = false
