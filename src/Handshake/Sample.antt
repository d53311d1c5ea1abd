-- ===== src/Handshake/Sample.antt =====
-- Two sides of a handshake with what they draw at random.
use aether_protocol.Prelude.{arith, [], ◌∷◌}
use aether_protocol.Handshake.Capabilities.{default_capabilities}
use aether_protocol.Handshake.CapabilitiesRoundTrip.{FitsCapabilities}
use aether_protocol.Handshake.Setting.{Setting, FitsSetting}

abbrev pub meeting : Setting
meeting = record {
  client_id = 0x1122334455667788;
  server_id = 0x99aabbccddeeff00;
  client_secret = 1 ∷ 2 ∷ [];
  server_secret = 3 ∷ [];
  client_seed = 5 ∷ [];
  server_seed = 6 ∷ 7 ∷ 8 ∷ [];
  client_caps = default_capabilities;
  server_caps = record default_capabilities { max_streams = 100 };
}

pub default-Fits : FitsCapabilities default_capabilities
unfolding default_capabilities
default-Fits = record {
  streams_fit = omega arith;
  data_fits = omega arith;
  idle_fits = omega arith;
}

pub meeting-Fits : FitsSetting meeting
unfolding default_capabilities
meeting-Fits = record {
  client_id_fits = omega arith;
  server_id_fits = omega arith;
  client_caps_fit = record {
    streams_fit = omega arith;
    data_fits = omega arith;
    idle_fits = omega arith;
  };
  server_caps_fit = record {
    streams_fit = omega arith;
    data_fits = omega arith;
    idle_fits = omega arith;
  };
}
