-- ===== src/Connection/Session.antt =====
-- Two nodes from their first packet on: what becomes of a frame between connections that a handshake made.
use aether_protocol.Errors.{Result, ok, ◌>>=◌}
use aether_protocol.Framing.Frame.{Frame}
use aether_protocol.Crypto.{Primitives}
use aether_protocol.Handshake.Setting.{Setting}
use aether_protocol.Connection.State.{Connection}
use aether_protocol.Connection.Transfer.{send_frame, recv_frame}

-- The client sends a frame and the server receives the packet.
abbrev pub exchange : Primitives → Frame → Connection × Connection → Result Frame
exchange prims frame (client, server) =
    (send_frame prims (ok tt) client frame).1 >>= λ packet. (recv_frame prims (ok packet) server).1
